-- ===== src/Files/Tests.antt =====
-- src/libagml_comm/util/file.cpp: lines of a file that does not end with a newline, and a file name.
use lib_agml.Common.{
  if◌then◌else◌, ltb, ◌^◌, length, err, out_of_fuel, ◌≡◌, refl, some, List, ℕ, [], ◌∷◌, ◌++◌, ok,
}
use lib_agml.Files.{
  file_basename, file_dirname, rfind, getline, fgetlines, read_loop, f_read_lines, f_write_lines,
  lines_text, f_append,
}
use lib_agml.Files.Lines.{IsLine, AllLines, f_read_lines-f_write_lines}

-- Two lines, of which the second has no newline at its end.
abbrev text : List ℕ
text = 97 ∷ 98 ∷ 10 ∷ 99 ∷ []

text_read : f_read_lines (some text) [] ≡ ok ((97 ∷ 98 ∷ []) ∷ [])
unfolding f_read_lines read_loop getline
text_read = refl

text_lines : fgetlines 2 text [] ≡ (97 ∷ 98 ∷ 10 ∷ [], [])
unfolding fgetlines getline
text_lines = refl

text_appended : f_read_lines (some (f_append text [])) [] ≡ ok ((97 ∷ 98 ∷ []) ∷ (99 ∷ []) ∷ [])
unfolding f_append f_read_lines read_loop getline
text_appended = refl

-- d/f
abbrev file : List ℕ
file = 100 ∷ 47 ∷ 102 ∷ []

file_dir : (file_dirname file ≡ 100 ∷ []) × (file_basename file ≡ 102 ∷ [])
unfolding file_dirname file_basename rfind
file_dir = (refl, refl)

f_read_lines-f_write_lines_example :
    (ls : List (List ℕ)) × (tail : List ℕ) × (f_read_lines (some text) [] ≡ ok ([] ++ ls))
    × (lines_text ls ++ tail ≡ text)
    × (f_write_lines ls
        ≡ (if ltb (length ls) (2 ^ 32) then ok (lines_text ls) else err out_of_fuel))
    × AllLines ls
    × IsLine tail
f_read_lines-f_write_lines_example = f_read_lines-f_write_lines text []
