-- ===== src/Str.antt =====
-- src/libagml_comm/util/string.cpp: the string helpers. A `std::string` is the list of its bytes;
-- `size_t` is 64 bits wide and `uint` 32.
mod Tests
pub mod Split
pub mod Trim
pub mod Edit
pub mod Replace
pub mod Tokens
use lib_agml.Common.{
  ℕ, zero, suc, ◌+◌, ◌-◌, ◌*◌, ◌%◌, ◌^◌, Bool, true, false, ◌&&◌, ◌||◌, not, Option, none, some,
  List, [], ◌∷◌, ◌++◌, ltb, leb, ◌==◌, if◌then◌else◌, length, take, drop, Result, ok, err,
  out_of_range, bad_access, ◌>>=◌, replicate, or_fail,
}
use mathlib.Core.List.{reverse}

-- `std::string::npos`
abbrev pub npos : ℕ
npos = 2 ^ 64 - 1

-- The conversion of a `size_t` to the `uint` in which `str_after` and `str_before` keep it.
abbrev pub to_uint : ℕ → ℕ
to_uint n = n % 2 ^ 32

abbrev pub size_add : ℕ → ℕ → ℕ
size_add a b = (a + b) % 2 ^ 64

-- Does the text begin with the needle?
unfoldable pub is_prefix : List ℕ → List ℕ → Bool
is_prefix [] s = true
is_prefix (c ∷ cs) [] = false
is_prefix (c ∷ cs) (d ∷ s) = c == d && is_prefix cs s

-- The least offset at which the needle occurs.
unfoldable pub first : List ℕ → List ℕ → Option ℕ
first needle [] = if is_prefix needle [] then some 0 else none
first needle (c ∷ s) =
    if is_prefix needle (c ∷ s)
    then some 0
    else elim (first needle s) [ none ↦ none | some i ↦ some (suc i) ]

-- `s.find(needle, pos)`: no occurrence, and a `pos` past the end, give `npos`.
unfoldable pub find : List ℕ → List ℕ → ℕ → ℕ
find s needle pos =
    if ltb (length s) pos
    then npos
    else elim (first needle (drop pos s)) [ none ↦ npos | some i ↦ pos + i ]

-- `s.substr(pos, n)` throws past the end.
unfoldable pub substr : List ℕ → ℕ → ℕ → Result (List ℕ)
substr s pos n = if ltb (length s) pos then err out_of_range else ok (take n (drop pos s))

-- The position is kept in a `uint`, and then compared with `npos`.
unfoldable pub str_after : List ℕ → List ℕ → Result (List ℕ)
str_after s prefix =
    let i = to_uint (find s prefix 0) in
    if i == npos then ok s else substr s (size_add i (length prefix)) npos

unfoldable pub str_before : List ℕ → List ℕ → Result (List ℕ)
str_before s suffix = let i = to_uint (find s suffix 0) in if i == npos then ok s else substr s 0 i

unfoldable pub str_between : List ℕ → List ℕ → List ℕ → Result (List ℕ)
str_between s prefix suffix = str_after s prefix >>= λ t. str_before t suffix

unfoldable pub str_has : List ℕ → List ℕ → Bool
unfolding find
str_has s needle = not (find s needle 0 == npos)

pub str_ends_with : List ℕ → List ℕ → Bool
str_ends_with s suffix =
    if ltb (length s) (length suffix)
    then false
    else is_prefix suffix (drop (length s - length suffix) s)

unfoldable pub str_starts_with : List ℕ → List ℕ → Bool
str_starts_with s prefix = is_prefix prefix s

-- `isspace` in the C locale.
unfoldable pub is_space : ℕ → Bool
is_space c = c == 32 || (leb 9 c && leb c 13)

-- `while(isspace(s[i])) i++`: `s[s.length()]` is the terminator, which is no space.
unfoldable pub leading : List ℕ → ℕ
leading [] = 0
leading (c ∷ s) = if is_space c then suc (leading s) else 0

-- `while(isspace(s[j])) j--` over the reversed text, as the number of rounds. A text of spaces
-- alone, the empty one too, takes `j` to -1, and `s[-1]` lies outside the string.
unfoldable pub trailing : List ℕ → Result ℕ
trailing [] = err bad_access
trailing (c ∷ s) = if is_space c then (trailing s >>= λ n. ok (suc n)) else ok 0

-- `j`, an `int`, begins at `s.length()-1`; below zero it lies outside the string. Where the backward loop stops, `i`
-- has stopped as well, no further on.
unfoldable pub str_trim : List ℕ → Result (List ℕ)
str_trim s =
    let j = (length s + 2 ^ 32 - 1) % 2 ^ 32 in
    if leb (2 ^ 31) j
    then err bad_access
    else (do n ← trailing (reverse (take (j + 1) s)); let i = leading s; substr s i (j + 1 - n - i))
