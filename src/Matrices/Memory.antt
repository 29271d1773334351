-- ===== src/Matrices/Memory.antt =====
-- src/agml/math/Matrix.h: the arrays of floats that matrices point into.
use lib_agml.Common.{
  ℕ, ◌+◌, Option, none, some, List, ◌++◌, ltb, ◌==◌, if◌then◌else◌, length, take, drop, Result, ok,
  err, bad_access, or_fail, ◌>>=◌,
}

-- What a `float` is, and what the code does with it that is no part of the code: the values of new arrays,
-- a copy of some bytes of an array over another, and the arithmetic.
pub record Floats (F : Type 0) : Type 0 where
  pub unset : ℕ → List F
  pub copy_bytes : ℕ → List F → List F → List F
  pub zero_float : F
  pub add : F → F → F
  pub mul : F → F → F

-- The arrays by their numbers, which `new[]` gives out in order; a number that has none is freed or free.
pub record Heap (F : Type 0) : Type 0 where
  pub next : ℕ
  pub cells : ℕ → Option (List F)

-- A `float*` that is not null.
pub record Pointer : Type 0 where
  pub block : ℕ
  pub offset : ℕ

abbrev pub shift : Pointer → ℕ → Pointer
shift p k = record p { offset = p.offset + k }

module _ {F : Type 0} where
  -- Array `b` becomes `cell`.
  abbrev pub put_cell : Heap F → ℕ → Option (List F) → Heap F
  put_cell h b cell = record h { cells = λ k. if b == k then cell else h.cells k }

  -- `new float[n]`
  abbrev pub alloc : Heap F → List F → Heap F × Pointer
  alloc h xs = (
    record (put_cell h h.next (some xs)) { next = h.next + 1 },
    record { block = h.next; offset = 0 },
  )

  -- `delete[]`: of what no `new[]` has returned, or of what is deleted already, it is undefined.
  unfoldable pub free_cell : Heap F → Pointer → Option (List F) → Result (Heap F)
  free_cell h p none = err bad_access
  free_cell h p (some xs) = if p.offset == 0 then ok (put_cell h p.block none) else err bad_access

  unfoldable pub free : Heap F → Pointer → Result (Heap F)
  free h p = free_cell h p (h.cells p.block)

  -- `n` floats from a pointer on.
  unfoldable pub read_floats : Heap F → Pointer → ℕ → Result (List F)
  read_floats h p n = or_fail (h.cells p.block) bad_access >>= λ xs.
      if ltb (length xs) (p.offset + n) then err bad_access else ok (take n (drop p.offset xs))

  abbrev pub splice : List F → ℕ → List F → List F
  splice xs k ys = take k xs ++ (ys ++ drop (k + length ys) xs)

  unfoldable pub write_cell : Heap F → Pointer → List F → Option (List F) → Result (Heap F)
  write_cell h p vs none = err bad_access
  write_cell h p vs (some xs) =
      if ltb (length xs) (p.offset + length vs)
      then err bad_access
      else ok (put_cell h p.block (some (splice xs p.offset vs)))

  unfoldable pub write_floats : Heap F → Pointer → List F → Result (Heap F)
  write_floats h p vs = write_cell h p vs (h.cells p.block)
