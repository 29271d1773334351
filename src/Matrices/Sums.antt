-- ===== src/Matrices/Sums.antt =====
-- src/agml/math/Matrix.cpp: sums, products and what is left to the compiled routines.
use lib_agml.Common.{
  ℕ, zero, suc, ◌+◌, ◌*◌, not, List, ◌==◌, if◌then◌else◌, Result, ok, err, dimensions_disagree,
  not_square, ◌>>=◌,
}
use lib_agml.Matrices.Memory.{Floats, Heap}
use lib_agml.Matrices.{MatrixObject, new_matrix, init, vector_op, values_at, store_at, assign}
use lib_agml.Matrices.Elements.{for_from, element, get_float, set_float, fill}

module _ {F : Type 0} (o : Floats F) where
  -- `m[to] += data[from]`
  abbrev add_to : MatrixObject → ℕ → MatrixObject → ℕ → Heap F → Result (Heap F)
  add_to res to m from h = do
    v ← get_float h (element m from)
    sum ← get_float h (element res to)
    set_float (element res to) (o.add sum v) h

  -- A new matrix of zeros.
  pub zeros : ℕ → ℕ → Heap F → Result (Heap F × MatrixObject)
  zeros height width h = do
    r ← new_matrix o h height width
    h' ← fill r.1 o.zero_float r.0
    ok (h', r.1)

  -- `col_sums()` and `row_sums()`
  pub col_sums : MatrixObject → Heap F → Result (Heap F × MatrixObject)
  col_sums m h = do
    r ← zeros 1 m.width h
    h' ← for_from (λ i. for_from (λ j. add_to r.1 j m (i * m.width + j)) 0 m.width) 0 m.height r.0
    ok (h', r.1)

  pub row_sums : MatrixObject → Heap F → Result (Heap F × MatrixObject)
  row_sums m h = do
    r ← zeros m.height 1 h
    h' ← for_from (λ i. for_from (λ j. add_to r.1 i m (i * m.width + j)) 0 m.width) 0 m.height r.0
    ok (h', r.1)

  -- The product of `reconstruct` for one element, from column `k` of the values on.
  pub reconstructed : MatrixObject → MatrixObject → ℕ → ℕ → Heap F → ℕ → ℕ → F → Result F
  reconstructed u l i j h k zero f = ok f
  reconstructed u l i j h k (suc left) f = do
    value ← get_float h (element l k)
    a ← get_float h (element u (k * u.width + i))
    b ← get_float h (element u (k * u.width + j))
    reconstructed u l i j h (suc k) left (o.add f (o.mul (o.mul value a) b))

  -- `reconstruct(U, L)`
  pub reconstruct :
      MatrixObject → MatrixObject → MatrixObject → Heap F → Result (Heap F × MatrixObject)
  reconstruct m u l h = do
    r ← init o h m u.width u.width
    h' ←
        for_from
          (λ i.
            for_from
              (λ j h'. reconstructed u l i j h' 0 l.n o.zero_float >>= λ f.
                set_float (element r.1 (i * r.1.width + j)) f h')
              0 u.width)
          0 u.width r.0
    ok (h', r.1)

  -- A routine that adds a product to an array; its operands come as the floats of two matrices.
  abbrev product_into :
      (List F → List F → List F → List F)
      → MatrixObject
      → MatrixObject
      → MatrixObject
      → Heap F
      → Result (Heap F)
  product_into routine res a b h = do
    old ← values_at h res.data_ptr res.n
    xs ← values_at h a.data_ptr a.n
    ys ← values_at h b.data_ptr b.n
    store_at h res.data_ptr (routine old xs ys)

  -- `operator*`, with `matrix_CpAB_float`
  pub multiply :
      (List F → List F → List F → List F)
      → MatrixObject
      → MatrixObject
      → Heap F
      → Result (Heap F × MatrixObject)
  multiply matrix_cpab a b h = if not (a.width == b.height) then err dimensions_disagree else (do
    r ← zeros a.height b.width h
    h' ← product_into matrix_cpab r.1 a b r.0
    ok (h', r.1))

  -- `gram()`, with `matrix_CpAtB_float`, and `correlation()`, with `matrix_CpABt_float`
  pub gram :
      (List F → List F → List F → List F) → MatrixObject → Heap F → Result (Heap F × MatrixObject)
  gram matrix_cpatb m h = do
    r ← zeros m.height m.height h
    h' ← product_into matrix_cpatb r.1 m m r.0
    ok (h', r.1)

  pub correlation :
      (List F → List F → List F → List F) → MatrixObject → Heap F → Result (Heap F × MatrixObject)
  correlation matrix_cpabt m h = do
    r ← zeros m.width m.width h
    h' ← product_into matrix_cpabt r.1 m m r.0
    ok (h', r.1)

  -- `inv()`, with `matrix_inv2_float`
  pub inv : (List F → List F) → MatrixObject → Heap F → Result (Heap F × MatrixObject)
  inv matrix_inv2 m h = if not (m.width == m.height) then err not_square else (do
    r ← new_matrix o h m.height m.width
    xs ← values_at r.0 m.data_ptr m.n
    h' ← store_at r.0 r.1.data_ptr (matrix_inv2 xs)
    ok (h', r.1))

  -- `eig_sym(U, L)`, with the vectors and the values of `matrix_eigSym2_float`
  pub eig_sym :
      (List F → List F)
      → (List F → List F)
      → MatrixObject
      → MatrixObject
      → MatrixObject
      → Heap F
      → Result (Heap F × (MatrixObject × MatrixObject))
  eig_sym vectors values m u l h = if not (m.width == m.height) then err not_square else (do
    u' ← init o h u m.height m.width
    l' ← init o u'.0 l 1 m.width
    xs ← values_at l'.0 m.data_ptr m.n
    h' ← store_at l'.0 u'.1.data_ptr (vectors xs)
    h'' ← store_at h' l'.1.data_ptr (values xs)
    ok (h'', (u'.1, l'.1)))

  -- `qr(Q, R)`, with the two results of `matrix_qr_thin_float`
  pub qr :
      (List F → List F)
      → (List F → List F)
      → MatrixObject
      → MatrixObject
      → MatrixObject
      → Heap F
      → Result (Heap F × (MatrixObject × MatrixObject))
  qr thin_q thin_r m q r h = do
    q' ← init o h q m.height m.width
    r' ← init o q'.0 r m.height m.height
    zeroed ← fill r'.1 o.zero_float r'.0
    xs ← values_at zeroed m.data_ptr m.n
    h' ← store_at zeroed q'.1.data_ptr (thin_q xs)
    h'' ← store_at h' r'.1.data_ptr (thin_r xs)
    ok (h'', (q'.1, r'.1))

  -- `operator+=(const ScaledMatrix&)` and `operator-=`, with `vector_addm_float` and its factor
  pub add_scaled :
      (List F → List F → List F) → MatrixObject → MatrixObject → Heap F → Result (Heap F)
  add_scaled vector_addm a m h = vector_op vector_addm h a.data_ptr m.data_ptr a.n

  -- `operator*=(float)`, with `vector_smul_float` and its factor
  pub smul : (List F → List F) → MatrixObject → Heap F → Result (Heap F)
  smul vector_smul m h = values_at h m.data_ptr m.n >>= λ xs. store_at h m.data_ptr (vector_smul xs)

  -- `operator=(const ScaledMatrix&)`
  pub assign_scaled :
      (List F → List F) → MatrixObject → MatrixObject → Heap F → Result (Heap F × MatrixObject)
  assign_scaled vector_smul a m h = do
    r ← assign o h a m
    h' ← smul vector_smul r.1 r.0
    ok (h', r.1)
