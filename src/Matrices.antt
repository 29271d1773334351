-- ===== src/Matrices.antt =====
-- src/agml/math/Matrix.{h,cpp}: matrices as the objects that they are, which share and own arrays of floats.
mod Tests
pub mod Memory
pub mod Elements
pub mod Sums
pub mod Owners
pub mod Shared
pub mod Overrun
pub mod Messages
use lib_agml.Common.{
  ℕ, zero, suc, ◌+◌, ◌*◌, Bool, true, false, not, ◌&&◌, ◌||◌, Option, none, some, List, ◌==◌,
  if◌then◌else◌, Result, ok, err, bad_access, length, [], dimensions_disagree, ◌>>=◌,
}
use lib_agml.Matrices.Memory.{Floats, Heap, Pointer, alloc, free, read_floats, write_floats, shift}

-- `Matrix`; `data` may be null, and `owner` is `bDeleteData`. No product of sizes is taken to overflow.
pub record MatrixObject : Type 0 where
  pub height : ℕ
  pub width : ℕ
  pub n : ℕ
  pub data_ptr : Option Pointer
  pub owner : Bool

-- `Matrix()`
abbrev pub empty_matrix : MatrixObject
empty_matrix = record { height = 0; width = 0; n = 0; data_ptr = none; owner = false }

-- `Matrix(float*, size_t, size_t)`
abbrev pub wrap : Pointer → ℕ → ℕ → MatrixObject
wrap p height width = record {
  height = height;
  width = width;
  n = height * width;
  data_ptr = some p;
  owner = false;
}

-- A matrix that another object has taken the array of.
abbrev pub disowned : MatrixObject → MatrixObject
disowned m = record m { owner = false }

-- `Matrix(const Matrix&)`: the new object, which shares the array and owns it if the old one did, and the
-- old one. `Matrix(Matrix&)` does the same by way of `operator=(Matrix&)`.
abbrev pub steal : MatrixObject → MatrixObject × MatrixObject
steal m = (m, disowned m)

-- `row(i)`
pub row : MatrixObject → ℕ → Option MatrixObject
row m i = elim m.data_ptr [ none ↦ none | some p ↦ some (wrap (shift p (i * m.width)) 1 m.width) ]

-- The test of the operators that need equal dimensions.
abbrev pub same_size : MatrixObject → MatrixObject → Bool
same_size a b = a.width == b.width && a.height == b.height

module _ {F : Type 0} where
  -- `delete[]` of the array, if there is one and it is owned.
  unfoldable pub release : Option Pointer → Bool → Heap F → Result (Heap F)
  release none owner h = ok h
  release (some p) true h = free h p
  release (some p) false h = ok h

  -- `~Matrix()`
  unfoldable pub destroy : Heap F → MatrixObject → Result (Heap F)
  destroy h m = release m.data_ptr m.owner h

  -- `clear()`, which leaves `bDeleteData` as it is.
  unfoldable pub clear : Heap F → MatrixObject → Result (Heap F × MatrixObject)
  clear h m =
      release m.data_ptr m.owner h >>= λ h'. ok (h', record empty_matrix { owner = m.owner })

  -- `init(height, width)`; what the new floats hold is not known.
  unfoldable pub init : Floats F → Heap F → MatrixObject → ℕ → ℕ → Result (Heap F × MatrixObject)
  init o h m height width = clear h m >>= λ c.
      let a = alloc c.0 (o.unset (height * width)) in
      ok (
        a.0,
        record {
          height = height;
          width = width;
          n = height * width;
          data_ptr = some a.1;
          owner = true;
        },
      )

  -- `Matrix(size_t, size_t)`
  unfoldable pub new_matrix : Floats F → Heap F → ℕ → ℕ → Result (Heap F × MatrixObject)
  new_matrix o h height width = init o h empty_matrix height width

  -- The `data` of a matrix, of which so many floats are used: a null pointer has none.
  unfoldable pub values_at : Heap F → Option Pointer → ℕ → Result (List F)
  values_at h none n = if n == 0 then ok [] else err bad_access
  values_at h (some p) n = read_floats h p n

  unfoldable pub store_at : Heap F → Option Pointer → List F → Result (Heap F)
  store_at h none vs = if length vs == 0 then ok h else err bad_access
  store_at h (some p) vs = write_floats h p vs

  -- `operator=(const Matrix&)`, once there is an array.
  unfoldable pub copy_values : Heap F → MatrixObject → MatrixObject → Result (Heap F)
  copy_values h a b =
      if same_size b a
      then (values_at h b.data_ptr a.n >>= store_at h a.data_ptr)
      else err dimensions_disagree

  unfoldable pub assign :
      Floats F → Heap F → MatrixObject → MatrixObject → Result (Heap F × MatrixObject)
  assign o h a b = do
    r ← elim a.data_ptr [ none ↦ init o h a b.height b.width | some p ↦ ok (h, a) ]
    h' ← copy_values r.0 r.1 b
    ok (h', r.1)

  -- `operator=(Matrix&)` from another object: the heap and both objects after it. Of the bytes that it
  -- copies into an array, which are as many as there should be floats, some may be a part of a float.
  unfoldable pub assign_ref :
      Floats F
      → Heap F
      → MatrixObject
      → MatrixObject
      → Result (Heap F × (MatrixObject × MatrixObject))
  assign_ref o h a b = elim a.data_ptr [
    | none ↦ ok (h, steal b)
    | some p ↦
        if same_size b a
        then (do
          old ← read_floats h p a.n
          new ← values_at h b.data_ptr a.n
          h' ← write_floats h p (o.copy_bytes a.n new old)
          ok (h', (a, b)))
        else err dimensions_disagree
  ]

  -- A vector routine on `n` floats of two arrays, which leaves its result in the first.
  unfoldable pub vector_op :
      (List F → List F → List F) → Heap F → Option Pointer → Option Pointer → ℕ → Result (Heap F)
  vector_op f h p q n = do xs ← values_at h p n; ys ← values_at h q n; store_at h p (f xs ys)

  -- `operator+=` and `operator-=`
  unfoldable pub combine_into :
      (List F → List F → List F) → Heap F → MatrixObject → MatrixObject → Result (Heap F)
  combine_into f h a b =
      if same_size a b then vector_op f h a.data_ptr b.data_ptr a.n else err dimensions_disagree

  -- `operator+` and `operator-`: the heap, the result and the left operand after it.
  unfoldable pub combined :
      (List F → List F → List F)
      → Heap F
      → MatrixObject
      → MatrixObject
      → Result (Heap F × (MatrixObject × MatrixObject))
  combined f h a b = let s = steal a in combine_into f h s.0 b >>= λ h'. ok (h', s)
