-- ===== src/Reader/Connect.antt =====
-- src/libagml_comm/topology/TopologyReader.cpp: the statements that connect two groups.
use lib_agml.Common.{
  ℕ, ◌+◌, ◌^◌, ◌<◌, length-append, ◌≡◌, refl, ap, ◌∙◌, Bool, true, false, none, some, List, [], ◌∷◌,
  ◌++◌, length, ok, arith,
}
use lib_agml.Str.{first, is_prefix, str_has, str_starts_with}
use lib_agml.Str.Split.{IsShort}
use lib_agml.Reader.{arrow, self_arrow, local_arrow, host_word, parse_statement, sides, connects}
use lib_agml.Reader.Words.{
  AllBut, IsTrimmed, later, first-past, first-none, has_none, has_some, sides-at, trim-after,
  trim-before,
}

-- The three arrows of the syntax.
pub data Arrow : Type 0 where
  to_all : Arrow
  to_all_and_self : Arrow
  to_local : Arrow

abbrev pub text_of : Arrow → List ℕ
text_of to_all = arrow
text_of to_all_and_self = self_arrow
text_of to_local = local_arrow

abbrev pub allows_self : Arrow → Bool
allows_self to_all = false
allows_self to_all_and_self = true
allows_self to_local = false

abbrev pub stays_local : Arrow → Bool
stays_local to_all = false
stays_local to_all_and_self = false
stays_local to_local = true

-- `src arrow dst`, with a space on both sides of the arrow.
abbrev pub connection : Arrow → List ℕ → List ℕ → List ℕ
connection k src dst = (src ++ (32 ∷ [])) ++ (text_of k ++ (32 ∷ dst))

AllBut-space : (w : List ℕ) → AllBut 45 w → AllBut 45 (w ++ (32 ∷ []))
AllBut-space [] a = (ground arith, tt)
AllBut-space (d ∷ w) a = (a.0, AllBut-space w a.1)

-- The arrow's own place.
own_place :
    (k : Arrow) (src dst : List ℕ)
    → AllBut 45 src
    → first (text_of k) (connection k src dst) ≡ some (length (src ++ (32 ∷ [])))
unfolding first is_prefix
own_place to_all src dst a =
    first-past 45 (62 ∷ []) (src ++ (32 ∷ [])) _ (AllBut-space src a) ∙ ap some at_end
  where
    at_end : length (src ++ (32 ∷ [])) + 0 ≡ length (src ++ (32 ∷ []))
    at_end = omega arith
own_place to_all_and_self src dst a =
    first-past 45 (111 ∷ 62 ∷ []) (src ++ (32 ∷ [])) _ (AllBut-space src a) ∙ ap some at_end
  where
    at_end : length (src ++ (32 ∷ [])) + 0 ≡ length (src ++ (32 ∷ []))
    at_end = omega arith
own_place to_local src dst a =
    first-past 45 (76 ∷ 62 ∷ []) (src ++ (32 ∷ [])) _ (AllBut-space src a) ∙ ap some at_end
  where
    at_end : length (src ++ (32 ∷ [])) + 0 ≡ length (src ++ (32 ∷ []))
    at_end = omega arith

-- None of the arrows that are looked for before.
abbrev NoneBefore : Arrow → List ℕ → Type 0
NoneBefore to_all s = Unit {0}
NoneBefore to_all_and_self s = str_has s arrow ≡ false
NoneBefore to_local s = (str_has s arrow ≡ false) × (str_has s self_arrow ≡ false)

other_place :
    (k : Arrow) (sep : List ℕ) (src dst : List ℕ)
    → AllBut 45 src
    → first (45 ∷ sep) (text_of k ++ (32 ∷ dst)) ≡ none
    → str_has (connection k src dst) (45 ∷ sep) ≡ false
other_place k sep src dst a h =
    has_none (connection k src dst) (45 ∷ sep)
      (first-past 45 sep (src ++ (32 ∷ [])) _ (AllBut-space src a) ∙ ap (later _) h)

none_before :
    (k : Arrow) (src dst : List ℕ)
    → AllBut 45 src
    → AllBut 45 dst
    → NoneBefore k (connection k src dst)
unfolding first is_prefix
none_before to_all src dst a b = tt
none_before to_all_and_self src dst a b =
    other_place to_all_and_self _ src dst a (rw (first-none 45 (62 ∷ []) dst b) refl)
none_before to_local src dst a b = (
  other_place to_local _ src dst a (rw (first-none 45 (62 ∷ []) dst b) refl),
  other_place to_local _ src dst a (rw (first-none 45 (111 ∷ 62 ∷ []) dst b) refl),
)

-- A statement of two names, trimmed and without `-`, with an arrow between them and a space on both its
-- sides, connects the groups of these names, with the arrow's flags, unless the statement begins with
-- `Host ` or has 2^31 bytes or more.
pub parse-connection :
    (k : Arrow) (src dst : List ℕ)
    → IsTrimmed src
    → IsTrimmed dst
    → AllBut 45 src
    → AllBut 45 dst
    → length (connection k src dst) < 2 ^ 31
    → str_starts_with (connection k src dst) (host_word ++ (32 ∷ [])) ≡ false
    → parse_statement (connection k src dst) ≡ ok (connects src dst (allows_self k) (stays_local k))
unfolding parse_statement
parse-connection k src dst ts td a b few not_host =
    by_arrow k (none_before k src dst a b) (has_some _ _ _ short (own_place k src dst a))
      (sides-at (src ++ (32 ∷ [])) (text_of k) (32 ∷ dst) src dst short (own_place k src dst a)
        (trim-after src ts (omega (arith, pieces))) (trim-before dst td (omega (arith, pieces))))
      not_host
  where
    short : IsShort (connection k src dst)
    short = omega (arith, few)

    pieces : length src + length dst < length (connection k src dst)
    pieces = omega (
      arith,
      length-append (src ++ (32 ∷ [])) (text_of k ++ (32 ∷ dst)),
      length-append src (32 ∷ []),
      length-append (text_of k) (32 ∷ dst),
    )

    by_arrow :
        (k : Arrow)
        → NoneBefore k (connection k src dst)
        → str_has (connection k src dst) (text_of k) ≡ true
        → sides (connection k src dst) (text_of k) ≡ ok (src, dst)
        → str_starts_with (connection k src dst) (host_word ++ (32 ∷ [])) ≡ false
        → parse_statement (connection k src dst)
          ≡ ok (connects src dst (allows_self k) (stays_local k))
    by_arrow to_all n h s f = rw (f, h, s) refl
    by_arrow to_all_and_self n h s f = rw (f, n, h, s) refl
    by_arrow to_local n h s f = rw (f, n.0, n.1, h, s) refl
