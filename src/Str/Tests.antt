-- ===== src/Str/Tests.antt =====
-- src/libagml_comm/util/string.cpp on concrete texts.
use lib_agml.Common.{ℕ, ◌≡◌, refl, true, List, [], ◌∷◌, ok, arith}
use lib_agml.Str.{first, is_prefix, find, str_has, str_before, str_after}
use lib_agml.Str.Split.{IsCut, str_before-str_after}
use lib_agml.Str.Replace.{str_replace, swapped, str_replace-swapped}
use lib_agml.Str.Tokens.{for_each_token, joined, AllFree, for_each_token-joined}

-- `a=b`
abbrev pair : List ℕ
pair = 97 ∷ 61 ∷ 98 ∷ []

has_pair : str_has pair (61 ∷ []) ≡ true
unfolding str_has find first is_prefix
has_pair = refl

str_before-str_after_example :
    (before after : List ℕ) × (str_before pair (61 ∷ []) ≡ ok before)
    × (str_after pair (61 ∷ []) ≡ ok after)
    × IsCut pair (61 ∷ []) before after
str_before-str_after_example = str_before-str_after pair (61 ∷ []) (omega arith) has_pair

-- `a%20`
str_replace-swapped_example :
    str_replace (97 ∷ 37 ∷ 50 ∷ 48 ∷ []) (37 ∷ 50 ∷ 48 ∷ []) (32 ∷ [])
    ≡ ok (swapped (37 ∷ 50 ∷ 48 ∷ []) (32 ∷ []) 0 (97 ∷ 37 ∷ 50 ∷ 48 ∷ []))
str_replace-swapped_example =
    str_replace-swapped (97 ∷ 37 ∷ 50 ∷ 48 ∷ []) (37 ∷ 50 ∷ 48 ∷ []) (32 ∷ []) (omega arith)
      (omega arith)

for_each_token-joined_example :
    (ts : List (List ℕ)) × (for_each_token pair 61 ≡ ok ts) × (joined 61 ts ≡ pair) × AllFree 61 ts
for_each_token-joined_example = for_each_token-joined pair 61 (omega arith)
