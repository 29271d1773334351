-- ===== src/Str/Edit.antt =====
-- src/libagml_comm/util/string.cpp: the helpers that edit a text or take a numbered part of it.
use lib_agml.Common.{
  ℕ, zero, suc, ◌+◌, ◌-◌, ◌≡◌, ◌&&◌, Option, none, some, List, [], ◌∷◌, ◌++◌, map, ltb, leb, ◌==◌,
  if◌then◌else◌, length, take, drop, replicate, Result, ok, arith, length-append, length-replicate,
}
use lib_agml.Str.{npos, size_add, find, substr}

-- `tolower` in the C locale
abbrev pub to_lower : ℕ → ℕ
to_lower c = if leb 65 c && leb c 90 then c + 32 else c

pub str_to_lower : List ℕ → List ℕ
str_to_lower s = map to_lower s

-- `str_remove`: the text after it.
pub str_remove : List ℕ → List ℕ → List ℕ
str_remove s what =
    let i = find s what 0 in if i == npos then s else take i s ++ drop (i + length what) s

-- The loop of `str_nth_occurence`: `pos` and `from` after it, if it ends.
pub occurrence_from : List ℕ → List ℕ → ℕ → ℕ → ℕ → Option (ℕ × ℕ)
occurrence_from s needle zero pos from = some (pos, from)
occurrence_from s needle (suc left) pos from =
    let found = find s needle from in
    let rest = occurrence_from s needle left found (size_add found (length needle)) in
    if found == npos then none else rest

-- `str_nth_occurence`, the part of the text that follows the needle's occurrence of number `n`.
pub str_nth_occurence : List ℕ → List ℕ → ℕ → Result (List ℕ)
str_nth_occurence s needle n = elim (occurrence_from s needle n 0 0) [
  | none ↦ ok []
  | some (found, from) ↦
      let j = find s needle from in
      let pos = if ltb 0 found then size_add found (length needle) else found in
      if j == npos then substr s pos npos else substr s pos (j - pos)
]

-- `str_param`
pub str_param : List ℕ → ℕ → Result (List ℕ)
str_param s i = str_nth_occurence s (32 ∷ []) i

-- `str_align`, which adds one blank to a text of the width.
unfoldable pub str_align : List ℕ → ℕ → List ℕ
str_align s width = s ++ replicate (width + 1 - length s) 32

-- An aligned text is as long as the width and one more, or as the text where that is longer.
pub length-str_align :
    (s : List ℕ) (width : ℕ)
    → length (str_align s width) ≡ (if ltb width (length s) then length s else width + 1)
unfolding str_align
length-str_align s width = ground (
  arith,
  length-append s (replicate (width + 1 - length s) 32),
  length-replicate {A = ℕ} (width + 1 - length s) 32,
)
