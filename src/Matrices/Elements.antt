-- ===== src/Matrices/Elements.antt =====
-- src/agml/math/Matrix.{h,cpp}: the operations that go through a matrix float by float or row by row.
use lib_agml.Common.{
  ℕ, zero, suc, ◌+◌, ◌*◌, not, Option, none, some, List, [], ◌∷◌, ◌==◌, if◌then◌else◌, Result, ok,
  err, bad_access, not_square, ◌>>=◌,
}
use lib_agml.Matrices.Memory.{Floats, Heap, Pointer, read_floats, shift}
use lib_agml.Matrices.{MatrixObject, new_matrix, init, vector_op, values_at, store_at}

-- `for(size_t i = …; …; i++)` over so many numbers from `i` on.
unfoldable pub for_from {ℓ} : {S : Type ℓ} → (ℕ → S → Result S) → ℕ → ℕ → S → Result S
for_from body i zero s = ok s
for_from body i (suc left) s = body i s >>= for_from body (suc i) left

-- `&data[i]`
abbrev pub element : MatrixObject → ℕ → Option Pointer
element m i = elim m.data_ptr [ none ↦ none | some p ↦ some (shift p i) ]

module _ {F : Type 0} where
  -- `data[i]`, read and written.
  pub get_float : Heap F → Option Pointer → Result F
  get_float h none = err bad_access
  get_float h (some p) =
      read_floats h p 1 >>= λ xs. elim xs [ [] ↦ err bad_access | x ∷ rest ↦ ok x ]

  abbrev pub set_float : Option Pointer → F → Heap F → Result (Heap F)
  set_float q v h = store_at h q (v ∷ [])

  -- `data[to] = a.data[from]`
  unfoldable pub copy_float : MatrixObject → ℕ → MatrixObject → ℕ → Heap F → Result (Heap F)
  copy_float res to a from h = get_float h (element a from) >>= λ v. set_float (element res to) v h

  -- `operator=(float)`
  pub fill : MatrixObject → F → Heap F → Result (Heap F)
  fill m v h = for_from (λ i. set_float (element m i) v) 0 m.n h

  -- `operator+=(float)`, and the loops of `sqrt` and `pow` on a new matrix.
  pub add_float : Floats F → MatrixObject → F → Heap F → Result (Heap F)
  add_float o m f h =
      for_from (λ i h'. get_float h' (element m i) >>= λ v. set_float (element m i) (o.add v f) h')
        0 m.n h

  pub map_new : Floats F → (F → F) → MatrixObject → Heap F → Result (Heap F × MatrixObject)
  map_new o f m h = do
    r ← new_matrix o h m.height m.width
    h' ←
        for_from (λ i h'. get_float h' (element m i) >>= λ v. set_float (element r.1 i) (f v) h') 0
          m.n r.0
    ok (h', r.1)

  -- `toDiag()`
  pub to_diag : Floats F → MatrixObject → Heap F → Result (Heap F × MatrixObject)
  to_diag o m h = do
    r ← new_matrix o h m.n m.n
    zeroed ← fill r.1 o.zero_float r.0
    h' ← for_from (λ i. copy_float r.1 (i * m.n + i) m i) 0 m.n zeroed
    ok (h', r.1)

  -- `transpose()`
  unfoldable pub transpose_row : MatrixObject → MatrixObject → ℕ → Heap F → Result (Heap F)
  transpose_row m res i h =
      for_from (λ j. copy_float res (j * m.height + i) m (i * m.width + j)) 0 m.width h

  unfoldable pub transpose : Floats F → MatrixObject → Heap F → Result (Heap F × MatrixObject)
  transpose o m h = do
    r ← new_matrix o h m.width m.height
    h' ← for_from (transpose_row m r.1) 0 m.height r.0
    ok (h', r.1)

  -- `diag()`
  pub diag : Floats F → MatrixObject → Heap F → Result (Heap F × MatrixObject)
  diag o m h = if not (m.width == m.height) then err not_square else (do
    r ← new_matrix o h 1 m.width
    h' ← for_from (λ i. copy_float r.1 i m (i * m.width + i)) 0 m.height r.0
    ok (h', r.1))

  -- `scale(const Matrix&)`: the loop goes on for `n` rows.
  unfoldable pub scale :
      (List F → List F → List F) → MatrixObject → MatrixObject → Heap F → Result (Heap F)
  scale product m v h =
      for_from (λ i h'. vector_op product h' (element m (i * m.width)) v.data_ptr m.width) 0 m.n h

  -- The conversion of a `WidthTrimedMatrix` of width `w`: each row is copied to the start of the new one.
  pub of_width_trimed : Floats F → MatrixObject → ℕ → Heap F → Result (Heap F × MatrixObject)
  of_width_trimed o m w h = do
    r ← new_matrix o h m.height w
    h' ←
        for_from (λ i h'. values_at h' (element m (i * m.width)) w >>= store_at h' r.1.data_ptr) 0
          m.height r.0
    ok (h', r.1)

  -- `operator=(const WidthTrimedMatrix&)`
  pub assign_width_trimed :
      Floats F → MatrixObject → MatrixObject → ℕ → Heap F → Result (Heap F × MatrixObject)
  assign_width_trimed o a m w h = do
    r ← elim a.data_ptr [ none ↦ init o h a m.height w | some p ↦ ok (h, a) ]
    h' ←
        for_from
          (λ i h'.
            values_at h' (element m (i * m.width)) w >>= store_at h' (element r.1 (i * r.1.width)))
          0 m.height r.0
    ok (h', r.1)

  -- `operator+=` and `operator-=` of a `WidthTrimedMatrix` and of a `HeightTrimedMatrix`.
  pub combine_width_trimed :
      (List F → List F → List F) → MatrixObject → MatrixObject → ℕ → Heap F → Result (Heap F)
  combine_width_trimed f a m w h =
      for_from (λ i h'. vector_op f h' (element a (i * a.width)) (element m (i * m.width)) w) 0
        a.height h

  pub combine_height_trimed :
      (List F → List F → List F) → MatrixObject → MatrixObject → ℕ → Heap F → Result (Heap F)
  combine_height_trimed f a m rows h = vector_op f h a.data_ptr m.data_ptr (rows * m.width)

  -- `operator=(const HeightTrimedMatrix&)`
  pub assign_height_trimed :
      Floats F → MatrixObject → MatrixObject → ℕ → Heap F → Result (Heap F × MatrixObject)
  assign_height_trimed o a m rows h = do
    r ← elim a.data_ptr [ none ↦ init o h a rows m.width | some p ↦ ok (h, a) ]
    vs ← values_at r.0 m.data_ptr r.1.n
    h' ← store_at r.0 r.1.data_ptr vs
    ok (h', r.1)
