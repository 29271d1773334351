-- ===== src/Matrices/Shared.antt =====
-- src/agml/math/Matrix.h: what the operators do to arrays that objects share.
use lib_agml.Common.{
  ℕ, zero, suc, ◌+◌, ◌≡◌, ◌≤◌, refl, ap, sym, ◌∙◌, true, some, List, [], ◌∷◌, ◌++◌, length,
  length-append, length-drop, take, drop, ok, arith, le→ltb, ==_refl,
}
use mathlib.Core.Path.{ap₂, subst}
use lib_agml.Matrices.Memory.{
  Heap, Pointer, put_cell, read_floats, write_floats, write_cell, splice,
}
use lib_agml.Matrices.{
  MatrixObject, disowned, same_size, values_at, store_at, vector_op, combine_into, combined,
}

drop-take_append :
    {F : Type 0} (k : ℕ) (xs zs : List F) → k ≤ length xs → drop k (take k xs ++ zs) ≡ zs
drop-take_append zero xs zs h = refl
drop-take_append (suc k) [] zs h = absurd (omega (arith, h))
drop-take_append (suc k) (x ∷ xs) zs h = drop-take_append k xs zs (omega (arith, h))

take-length_append : {F : Type 0} (vs zs : List F) → take (length vs) (vs ++ zs) ≡ vs
take-length_append [] zs = refl
take-length_append (v ∷ vs) zs = ap (λ t. v ∷ t) (take-length_append vs zs)

length-take_append :
    {F : Type 0} (k : ℕ) (xs zs : List F) → k ≤ length xs → length (take k xs ++ zs) ≡ k + length zs
length-take_append zero xs zs h = omega arith
length-take_append (suc k) [] zs h = absurd (omega (arith, h))
length-take_append (suc k) (x ∷ xs) zs h =
    omega (arith, length-take_append k xs zs (omega (arith, h)))

pub length-splice :
    {F : Type 0} (xs : List F) (k : ℕ) (ys : List F)
    → k + length ys ≤ length xs
    → length (splice xs k ys) ≡ length xs
length-splice xs k ys h = omega (
  arith,
  length-take_append k xs (ys ++ drop (k + length ys) xs) (omega (arith, h)),
  length-append ys (drop (k + length ys) xs),
  length-drop (k + length ys) xs,
)

-- The array at a pointer has room for so many floats from there on.
pub record HasRoom (F : Type 0) (h : Heap F) (p : Pointer) (n : ℕ) (cell : List F) : Type 0 where
  pub there : h.cells p.block ≡ some cell
  pub room : p.offset + n ≤ length cell

pub read_floats-take :
    {F : Type 0} (h : Heap F) (p : Pointer) (n : ℕ) (cell : List F)
    → HasRoom F h p n cell
    → read_floats h p n ≡ ok (take n (drop p.offset cell))
unfolding read_floats
read_floats-take h p n cell v = rw (v.there, le→ltb (length cell) (p.offset + n) v.room) refl

write_floats-put :
    {F : Type 0} (h : Heap F) (p : Pointer) (vs cell : List F)
    → HasRoom F h p (length vs) cell
    → write_floats h p vs ≡ ok (put_cell h p.block (some (splice cell p.offset vs)))
unfolding write_floats write_cell
write_floats-put h p vs cell v =
    rw (v.there, le→ltb (length cell) (p.offset + length vs) v.room) refl

-- What is written is read back.
pub read_floats-written :
    {F : Type 0} (h : Heap F) (p : Pointer) (vs cell : List F)
    → HasRoom F h p (length vs) cell
    → read_floats (put_cell h p.block (some (splice cell p.offset vs))) p (length vs) ≡ ok vs
read_floats-written {F} h p vs cell v =
    read_floats-take (put_cell h p.block (some new)) p (length vs) new here
    ∙ ap ok (
        ap (take (length vs))
          (drop-take_append p.offset cell (vs ++ drop (p.offset + length vs) cell) below)
        ∙ take-length_append vs (drop (p.offset + length vs) cell))
  where
    new : List F
    new = splice cell p.offset vs

    below : p.offset ≤ length cell
    below = omega (arith, v.room)

    here : HasRoom F (put_cell h p.block (some new)) p (length vs) new
    here = record {
      there = rw (==_refl p.block) refl;
      room = omega (arith, v.room, length-splice cell p.offset vs v.room);
    }

-- What `n` floats from a pointer on are.
abbrev floats_at : {F : Type 0} → Pointer → ℕ → List F → List F
floats_at p n cell = take n (drop p.offset cell)

-- A routine on two arrays that have the floats
pub vector_op-put :
    {F : Type 0} (f : List F → List F → List F) (h : Heap F) (p q : Pointer) (n : ℕ)
    (xs ys : List F)
    → HasRoom F h p n xs
    → HasRoom F h q n ys
    → length (f (floats_at p n xs) (floats_at q n ys)) ≡ n
    → vector_op f h (some p) (some q) n
      ≡ ok
          (put_cell h p.block (some (splice xs p.offset (f (floats_at p n xs) (floats_at q n ys)))))
unfolding vector_op values_at store_at
vector_op-put {F} f h p q n xs ys vp vq kept =
    rw (read_floats-take h p n xs vp, read_floats-take h q n ys vq)
      (write_floats-put h p _ xs (subst (λ k. HasRoom F h p k xs) (sym kept) vp))

-- A sum or difference of matrices of the same size is stored in the array of the left operand, which loses its
-- values and the ownership of the array to the result, where both arrays have their floats and the routine
-- keeps their number.
pub combined-overwrites :
    {F : Type 0} (f : List F → List F → List F) (h : Heap F) (a b : MatrixObject) (p q : Pointer)
    (xs ys : List F)
    → a.data_ptr ≡ some p
    → b.data_ptr ≡ some q
    → same_size a b ≡ true
    → HasRoom F h p a.n xs
    → HasRoom F h q a.n ys
    → length (f (take a.n (drop p.offset xs)) (take a.n (drop q.offset ys))) ≡ a.n
    → (h' : Heap F) × (combined f h a b ≡ ok (h', (a, disowned a)))
      × (values_at h' (disowned a).data_ptr a.n
          ≡ ok (f (take a.n (drop p.offset xs)) (take a.n (drop q.offset ys))))
unfolding combined combine_into values_at
combined-overwrites {F} f h a b p q xs ys at_p at_q same vp vq kept = (
  put_cell h p.block (some (splice xs p.offset result)),
  rw
      (
        same,
        ap₂ (λ x y. vector_op f h x y a.n) at_p at_q ∙ vector_op-put f h p q a.n xs ys vp vq kept,
      )
      refl,
  ap (λ x. values_at (put_cell h p.block (some (splice xs p.offset result))) x a.n) at_p
      ∙ subst
          (λ k. read_floats (put_cell h p.block (some (splice xs p.offset result))) p k ≡ ok result)
          kept (read_floats-written h p result xs (subst (λ k. HasRoom F h p k xs) (sym kept) vp)),
)
  where
    result : List F
    result = f (floats_at p a.n xs) (floats_at q a.n ys)
