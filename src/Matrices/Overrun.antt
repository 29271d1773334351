-- ===== src/Matrices/Overrun.antt =====
-- src/agml/math/Matrix.cpp: where `scale` leaves the array of a matrix.
use lib_agml.Common.{
  ℕ, zero, suc, ◌+◌, ◌*◌, ◌≡◌, ◌≤◌, ◌<◌, ◌⊎◌, refl, ap, sym, ◌∙◌, false, Option, none, some, List,
  [], ltb, ◌==◌, length, take, drop, Result, ok, err, bad_access, arith, inl, inr, Bool-cases,
  lt→ltb, ==_refl,
}
use native.Mathlib.Nat.{mul-le-mul_right, mul_comm}
use mathlib.Core.Path.{subst}
use lib_agml.Matrices.Memory.{
  Heap, Pointer, put_cell, read_floats, write_floats, write_cell, splice, shift,
}
use lib_agml.Matrices.{MatrixObject, values_at, store_at, vector_op}
use lib_agml.Matrices.Elements.{for_from, scale}
use lib_agml.Matrices.Shared.{length-splice}

-- A loop fails whose steps keep an invariant or fail, when one step of it must fail.
for_from_fails :
    {S : Type 0} (Inv : S → Type 0) (body : ℕ → S → Result S) (i d left : ℕ) (s : S)
    → d < left
    → Inv s
    → ((k : ℕ) (t : S)
        → Inv t
        → (body k t ≡ err bad_access) ⊎ ((t' : S) × (body k t ≡ ok t') × Inv t'))
    → ((t : S) → Inv t → body (i + d) t ≡ err bad_access)
    → for_from body i left s ≡ err bad_access
unfolding for_from
for_from_fails Inv body i d zero s l v step last = absurd (omega (arith, l))
for_from_fails Inv body i zero (suc left) s l v step last =
    rw (ap (λ k. body k s) no_more ∙ last s v) refl
  where
    no_more : i ≡ i + 0
    no_more = omega arith
for_from_fails Inv body i (suc d) (suc left) s l v step last = elim (step i s v) [
  | inl e ↦ rw e refl
  | inr (t, e, w) ↦ rw e (
      for_from_fails Inv body (suc i) d left t (omega (arith, l)) w step
        (λ u x. ap (λ k. body k u) shifted ∙ last u x))
]
  where
    shifted : suc i + d ≡ i + suc d
    shifted = omega arith

-- The array of number `b` exists and has so many floats.
record HasLength (F : Type 0) (b n : ℕ) (h : Heap F) : Type 0 where
  pub cell : List F
  pub there : h.cells b ≡ some cell
  pub long : length cell ≡ n

module _ {F : Type 0} where
  read_floats-cases :
      (h : Heap F) (p : Pointer) (n : ℕ) (c : Option (List F))
      → h.cells p.block ≡ c
      → (read_floats h p n ≡ err bad_access) ⊎ ((xs : List F) × (read_floats h p n ≡ ok xs))
  unfolding read_floats
  read_floats-cases h p n none e = inl (rw e refl)
  read_floats-cases h p n (some xs) e = elim (Bool-cases (ltb (length xs) (p.offset + n))) [
    | inl b ↦ inl (rw (e, b) refl)
    | inr b ↦ inr (take n (drop p.offset xs), rw (e, b) refl)
  ]

  values_at-cases :
      (h : Heap F) (p : Option Pointer) (n : ℕ)
      → (values_at h p n ≡ err bad_access) ⊎ ((xs : List F) × (values_at h p n ≡ ok xs))
  unfolding values_at
  values_at-cases h none n = elim (Bool-cases (n == 0)) [
    | inl b ↦ inr ([], rw b refl)
    | inr b ↦ inl (rw b refl)
  ]
  values_at-cases h (some p) n = read_floats-cases h p n (h.cells p.block) refl

  write_floats-cases :
      (h : Heap F) (p : Pointer) (vs : List F) (n : ℕ)
      → HasLength F p.block n h
      → (write_floats h p vs ≡ err bad_access)
        ⊎ ((h' : Heap F) × (write_floats h p vs ≡ ok h') × HasLength F p.block n h')
  unfolding write_floats write_cell
  write_floats-cases h p vs n v = elim (Bool-cases (ltb (length v.cell) (p.offset + length vs))) [
    | inl b ↦ inl (rw (v.there, b) refl)
    | inr b ↦ inr (
      put_cell h p.block (some (splice v.cell p.offset vs)),
      rw (v.there, b) refl,
      record {
        cell = splice v.cell p.offset vs;
        there = rw (==_refl p.block) refl;
        long = length-splice v.cell p.offset vs (inside b) ∙ v.long;
      },
    )
  ]
    where
      inside :
          ltb (length v.cell) (p.offset + length vs) ≡ false → p.offset + length vs ≤ length v.cell
      inside b = ground arith

  vector_op-cases :
      (f : List F → List F → List F) (h : Heap F) (p : Pointer) (q : Option Pointer) (k n : ℕ)
      → HasLength F p.block n h
      → (vector_op f h (some p) q k ≡ err bad_access)
        ⊎ ((h' : Heap F) × (vector_op f h (some p) q k ≡ ok h') × HasLength F p.block n h')
  unfolding vector_op store_at
  vector_op-cases f h p q k n v = elim (values_at-cases h (some p) k) [
    | inl e ↦ inl (rw e refl)
    | inr (xs, e) ↦ elim (values_at-cases h q k) [
      | inl e' ↦ inl (rw (e, e') refl)
      | inr (ys, e') ↦ rw (e, e') (write_floats-cases h p (f xs ys) n v)
    ]
  ]

  vector_op-outside :
      (f : List F → List F → List F) (h : Heap F) (p : Pointer) (q : Option Pointer) (k n : ℕ)
      → HasLength F p.block n h
      → n < p.offset + k
      → vector_op f h (some p) q k ≡ err bad_access
  unfolding vector_op values_at read_floats
  vector_op-outside f h p q k n v l =
      rw (v.there, lt→ltb (length v.cell) (p.offset + k) (omega (arith, l, v.long))) refl

  -- `scale` by a row leaves the array of a matrix of two or more columns, whatever the row and the routine: its loop
  -- does not end with the rows; this holds for a matrix with a row, whose array has just its floats.
  pub scale_overruns :
      (product : List F → List F → List F) (m v : MatrixObject) (p : Pointer) (xs : List F)
      (h : Heap F)
      → m.data_ptr ≡ some p
      → p.offset ≡ 0
      → h.cells p.block ≡ some xs
      → length xs ≡ m.height * m.width
      → m.n ≡ m.height * m.width
      → 1 ≤ m.height
      → 2 ≤ m.width
      → scale product m v h ≡ err bad_access
  unfolding scale
  scale_overruns product m v p xs h at_p at_start there exact full tall wide =
      for_from_fails (HasLength F p.block m.n) _ 0 m.height m.n h more
        (record { cell = xs; there = there; long = exact ∙ sym full })
        (λ k t w.
          subst
            (λ x.
              (vector_op product t x v.data_ptr m.width ≡ err bad_access)
              ⊎ ((t' : Heap F) × (vector_op product t x v.data_ptr m.width ≡ ok t')
                  × HasLength F p.block m.n t'))
            (sym (ap (moved (k * m.width)) at_p))
            (vector_op-cases product t (shift p (k * m.width)) v.data_ptr m.width m.n w))
        (λ t w.
          ap (λ x. vector_op product t x v.data_ptr m.width)
            (ap (moved ((0 + m.height) * m.width)) at_p)
          ∙ vector_op-outside product t (shift p ((0 + m.height) * m.width)) v.data_ptr m.width m.n
              w past)
    where
      moved : ℕ → Option Pointer → Option Pointer
      moved k x = elim x [ none ↦ none | some y ↦ some (shift y k) ]

      more : m.height < m.n
      more = omega (arith, full, tall, mul-le-mul_right m.height wide, mul_comm m.width m.height)

      rows : 0 + m.height ≡ m.height
      rows = omega arith

      past : m.n < p.offset + (0 + m.height) * m.width + m.width
      past = omega (arith, full, wide, at_start, ap (λ k. k * m.width) rows)
