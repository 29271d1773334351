-- ===== src/Files.antt =====
-- src/libagml_comm/util/file.cpp: the names of files, and their lines. A file's content is the list of its bytes,
-- and that of a file that cannot be opened is `none`.
pub mod Lines
mod Tests
use lib_agml.Common.{
  ltb, ◌^◌, ℕ, zero, suc, ◌+◌, Bool, true, false, Option, none, some, List, [], ◌∷◌, ◌++◌, ◌==◌,
  if◌then◌else◌, length, take, drop, Result, ok, err, out_of_fuel, ◌>>=◌,
}

-- `std::string::rfind` of a byte
unfoldable pub rfind : List ℕ → ℕ → Option ℕ
rfind [] c = none
rfind (d ∷ s) c = elim (rfind s c) [
  | some i ↦ some (suc i)
  | none ↦ if d == c then some 0 else none
]

-- `file_basename`
unfoldable pub file_basename : List ℕ → List ℕ
file_basename file = elim (rfind file 47) [ none ↦ file | some i ↦ drop (i + 1) file ]

-- `file_dirname`
unfoldable pub file_dirname : List ℕ → List ℕ
file_dirname file = elim (rfind file 47) [ none ↦ 46 ∷ [] | some i ↦ take i file ]

-- What `std::getline` gets: the line, what is left of the stream, and whether the stream is still good, which it is
-- not when it ends before a newline.
pub record Got : Type 0 where
  pub line : List ℕ
  pub rest : List ℕ
  pub good : Bool

unfoldable pub getline : List ℕ → Got
getline [] = record { line = []; rest = []; good = false }
getline (c ∷ s) =
    let g = getline s in
    if c == 10
    then record { line = []; rest = s; good = true }
    else record { line = c ∷ g.line; rest = g.rest; good = g.good }

-- `fgetlines`, for a number of lines that is not negative: the text, and what is left of the stream.
unfoldable pub fgetlines : ℕ → List ℕ → List ℕ → List ℕ × List ℕ
fgetlines zero f s = (s, f)
fgetlines (suc nblines) f s =
    let g = getline f in
    let others = fgetlines nblines g.rest (s ++ (g.line ++ (10 ∷ []))) in
    if g.good then others else (s, g.rest)

-- The loop of `f_read_lines`, a round per unit of fuel.
unfoldable pub read_loop : ℕ → List ℕ → List (List ℕ) → Result (List (List ℕ))
read_loop zero f lines = err out_of_fuel
read_loop (suc n) f lines =
    let g = getline f in
    let others = read_loop n g.rest (lines ++ (g.line ∷ [])) in if g.good then others else ok lines

-- `f_read_lines`
unfoldable pub f_read_lines : Option (List ℕ) → List (List ℕ) → Result (List (List ℕ))
f_read_lines none lines = ok lines
f_read_lines (some f) lines = read_loop (length f + 1) f lines

-- The lines, each with a newline.
unfoldable pub lines_text : List (List ℕ) → List ℕ
lines_text [] = []
lines_text (l ∷ ls) = l ++ (10 ∷ lines_text ls)

-- What `f_write_lines` leaves in a file that can be written; of 2^32 lines or more the counter, a `uint`, goes round
-- for ever.
unfoldable pub f_write_lines : List (List ℕ) → Result (List ℕ)
f_write_lines ls = if ltb (length ls) (2 ^ 32) then ok (lines_text ls) else err out_of_fuel

-- `f_append`, on the content that there was
unfoldable pub f_append : List ℕ → List ℕ → List ℕ
f_append f s = f ++ (s ++ (10 ∷ []))
