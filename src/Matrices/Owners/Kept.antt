-- ===== src/Matrices/Owners/Kept.antt =====
-- src/agml/math/Matrix.{h,cpp}: every statement keeps one owner to each array.
use lib_agml.Common.{
  ok-injective, ℕ, ◌+◌, ◌≡◌, ◌≤◌, ◌≢◌, refl, ap, sym, ◌∙◌, Bool, true, false, Option, none, some,
  List, ◌∷◌, ◌==◌, if◌then◌else◌, get_elem?, get_elem?-set_ne, set, length, ltb, ok, err,
  bad_access, arith, Bool-cases, ==_iff, ==_refl, inl, inr,
}
use mathlib.Core.Path.{subst}
use lib_agml.Matrices.Memory.{
  Floats, Heap, Pointer, put_cell, free, free_cell, write_floats, write_cell, splice,
}
use lib_agml.Matrices.{MatrixObject, empty_matrix, wrap, disowned, release, destroy, new_matrix}
use lib_agml.Matrices.Owners.{
  declare, view, construct, copy, initialise, clean, end, store, take_over, go, start, Objects,
  remove_at, Step, Reached, owns, owners, is_live, AtStart, AllAtStart, IsOwned, owners-set,
  owners-remove_at, AllAtStart-get, AllAtStart-set,
}
use lib_agml.Matrices.Owners.Renewed.{
  release-IsReleased, IsRenewed, prepend-IsOwned, set-IsOwned, remove_at-IsOwned, clear-IsRenewed,
  init-IsRenewed,
}

-- A write to an array leaves each array where it is.
record IsWritten (F : Type 0) (h h' : Heap F) : Type 0 where
  pub same_live : (b : ℕ) → is_live (h'.cells b) ≡ is_live (h.cells b)
  pub same_next : h'.next ≡ h.next

write_cell-IsWritten :
    {F : Type 0} (h h' : Heap F) (p : Pointer) (vs : List F) (c : Option (List F))
    → h.cells p.block ≡ c
    → write_cell h p vs c ≡ ok h'
    → IsWritten F h h'
unfolding write_cell is_live
write_cell-IsWritten h h' p vs none live e = absurd (cc)
write_cell-IsWritten {F} h h' p vs (some xs) live e =
    elim (Bool-cases (ltb (length xs) (p.offset + length vs))) [
      | inl z ↦ absurd (wild (sym (outside z) ∙ e))
      | inr z ↦
          subst (IsWritten F h) (ok-injective (sym (inside z) ∙ e))
            (record { same_live = same; same_next = refl })
    ]
  where
    outside :
        ltb (length xs) (p.offset + length vs) ≡ true → write_cell h p vs (some xs) ≡ err bad_access
    outside z = rw z refl

    written : Heap F
    written = put_cell h p.block (some (splice xs p.offset vs))

    inside :
        ltb (length xs) (p.offset + length vs) ≡ false → write_cell h p vs (some xs) ≡ ok written
    inside z = rw z refl

    wild : err bad_access ≢ ok h'
    wild x = cc

    same : (b : ℕ) → is_live (written.cells b) ≡ is_live (h.cells b)
    same b = elim (Bool-cases (p.block == b)) [
      | inl here ↦ rw (here, ← (==_iff p.block b).0 here, live) refl
      | inr other ↦ rw other refl
    ]

owns-false : (b : ℕ) (p : Option Pointer) → owns b p false ≡ 0
unfolding owns
owns-false b none = refl
owns-false b (some p) = refl

AtStart-false : (p : Option Pointer) → AtStart p false
unfolding AtStart
AtStart-false none = tt
AtStart-false (some p) = tt

copy-IsOwned :
    {F : Type 0} (s : Objects F) (i : ℕ) (m : MatrixObject)
    → IsOwned F s
    → get_elem? s.variables i ≡ some m
    → IsOwned F (record s { variables = m ∷ set s.variables i (disowned m) })
unfolding owners AllAtStart
copy-IsOwned s i m v e = record {
  one_owner = λ b.
      omega (
        arith,
        v.one_owner b,
        owners-set b s.variables i m (disowned m) e,
        owns-false b m.data_ptr,
      );
  at_start = (
    AllAtStart-get s.variables i m v.at_start e,
    AllAtStart-set s.variables i (disowned m) v.at_start (AtStart-false m.data_ptr),
  );
  unused = v.unused;
}

take_over-IsOwned :
    {F : Type 0} (s : Objects F) (i j : ℕ) (a m : MatrixObject)
    → IsOwned F s
    → get_elem? s.variables i ≡ some a
    → get_elem? s.variables j ≡ some m
    → i ≢ j
    → a.data_ptr ≡ none
    → IsOwned F (record s { variables = set (set s.variables i m) j (disowned m) })
unfolding owns
take_over-IsOwned s i j a m v ea em apart null = record {
  one_owner = λ b. omega (
    arith,
    v.one_owner b,
    owners-set b s.variables i a m ea,
    ap (λ p. owns b p a.owner) null,
    owners-set b (set s.variables i m) j m (disowned m) still,
    owns-false b m.data_ptr,
  );
  at_start =
      AllAtStart-set (set s.variables i m) j (disowned m)
        (AllAtStart-set s.variables i m v.at_start (AllAtStart-get s.variables j m v.at_start em))
        (AtStart-false m.data_ptr);
  unused = v.unused;
}
  where
    still : get_elem? (set s.variables i m) j ≡ some m
    still = get_elem?-set_ne s.variables m apart ∙ em

same-IsRenewed :
    {F : Type 0} (s : Objects F) (m : MatrixObject)
    → IsOwned F s
    → m.owner ≡ false
    → IsRenewed F s.heap s.heap empty_matrix m
unfolding owns
same-IsRenewed s m v e = record {
  balance = λ b. omega (arith, ap (owns b m.data_ptr) e ∙ owns-false b m.data_ptr);
  starts = subst (AtStart m.data_ptr) (sym e) (AtStart-false m.data_ptr);
  unused = v.unused;
}

pub step-IsOwned :
    {F : Type 0} (o : Floats F) (s t : Objects F) → Step o s t → IsOwned F s → IsOwned F t
unfolding new_matrix destroy write_floats
step-IsOwned o _ _ (declare s) v =
    prepend-IsOwned s v s.heap empty_matrix empty_matrix refl (same-IsRenewed s empty_matrix v refl)
step-IsOwned o _ _ (view s p height width) v =
    prepend-IsOwned s v s.heap empty_matrix (wrap p height width) refl
      (same-IsRenewed s (wrap p height width) v refl)
step-IsOwned o _ _ (construct s height width h m e) v =
    prepend-IsOwned s v h empty_matrix m refl
      (init-IsRenewed o s.heap empty_matrix height width (h, m) v.unused e)
step-IsOwned o _ _ (copy s i m e) v = copy-IsOwned s i m v e
step-IsOwned o _ _ (take_over s i j a m ea em apart null) v =
    take_over-IsOwned s i j a m v ea em apart null
step-IsOwned o _ _ (initialise s i m m' height width h g e) v =
    set-IsOwned s v i h m m' g (init-IsRenewed o s.heap m height width (h, m') v.unused e)
step-IsOwned o _ _ (clean s i m m' h g e) v =
    set-IsOwned s v i h m m' g (clear-IsRenewed s.heap h m m' v.unused e)
step-IsOwned o _ _ (end s i m h g e) v =
    remove_at-IsOwned s v i h m g (release-IsReleased m.data_ptr m.owner s.heap h e)
step-IsOwned o _ _ (store s p vs h e) v =
    let w = write_cell-IsWritten s.heap h p vs (s.heap.cells p.block) refl e in
    record {
      one_owner = λ b. omega (arith, v.one_owner b, w.same_live b);
      at_start = v.at_start;
      unused = λ b l. omega (arith, w.same_live b, v.unused b (subst (λ n. n ≤ b) w.same_next l));
    }

Reached-IsOwned : {F : Type 0} (o : Floats F) (s : Objects F) → Reached o s → IsOwned F s
unfolding owners is_live AllAtStart
Reached-IsOwned o _ start = record { one_owner = λ b. refl; at_start = tt; unused = λ b l. refl }
Reached-IsOwned o _ (go s t r e) = step-IsOwned o s t e (Reached-IsOwned o s r)

free_cell_succeeds :
    {F : Type 0} (h : Heap F) (p : Pointer) (c : Option (List F))
    → p.offset ≡ 0
    → 1 ≤ is_live c
    → (h' : Heap F) × (free_cell h p c ≡ ok h')
unfolding free_cell is_live
free_cell_succeeds h p none z l = absurd (omega (arith, l))
free_cell_succeeds h p (some xs) z l = (put_cell h p.block none, rw z refl)

release_succeeds :
    {F : Type 0} (h : Heap F) (p : Option Pointer) (owner : Bool)
    → AtStart p owner
    → ((b : ℕ) → owns b p owner ≤ is_live (h.cells b))
    → (h' : Heap F) × (release p owner h ≡ ok h')
unfolding release owns AtStart free
release_succeeds h none owner a l = (h, refl)
release_succeeds h (some p) false a l = (h, refl)
release_succeeds h (some p) true a l =
    free_cell_succeeds h p (h.cells p.block) a
      (subst (λ t. (if t then 1 else 0) ≤ is_live (h.cells p.block)) (==_refl p.block) (l p.block))

-- Whatever statements a program has run that make, pass on, clear or end `Matrix` objects or write to arrays,
-- the end of any object deletes an array at most once, from its start, and afterwards as before each array
-- that exists has just one owner, so that none is freed twice and none is lost.
pub destroy_once :
    {F : Type 0} (o : Floats F) (s : Objects F) (i : ℕ) (m : MatrixObject)
    → Reached o s
    → get_elem? s.variables i ≡ some m
    → (h : Heap F) × (destroy s.heap m ≡ ok h)
      × IsOwned F (record { heap = h; variables = remove_at s.variables i })
unfolding destroy
destroy_once o s i m r e =
    let v = Reached-IsOwned o s r in
    let (h, freed) =
      release_succeeds s.heap m.data_ptr m.owner (AllAtStart-get s.variables i m v.at_start e)
        (λ b. omega (arith, v.one_owner b, owners-remove_at b s.variables i m e)) in
    (h, freed, step-IsOwned o s _ (end s i m h e freed) v)
