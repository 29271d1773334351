-- ===== src/Str/Replace.antt =====
-- src/libagml_comm/util/string.cpp: the replacement of every occurrence of a text, and what is written with it.
use lib_agml.Common.{
  ℕ, zero, suc, ◌+◌, ◌-◌, ◌*◌, ◌^◌, ◌<◌, ◌≤◌, ◌≡◌, refl, ap, sym, ◌∙◌, inl, inr, false, none, some,
  List, [], ◌∷◌, ◌++◌, ltb, ◌==◌, if◌then◌else◌, length, take, drop, Result, ok, err, out_of_fuel,
  ◌>>=◌, arith, append_assoc, length-append, take-append-drop, length-take, length-drop,
  Option-cases,
}
use lib_agml.Str.{first, is_prefix, find, npos, size_add}
use lib_agml.Str.Split.{first-IsFirst, drop-append, drop-drop, first-suc, first-zero, first-nil}

-- `std::string::replace`
abbrev pub replace_at : List ℕ → ℕ → ℕ → List ℕ → List ℕ
replace_at s pos n r = take pos s ++ (r ++ drop (pos + n) s)

-- The loop of `str_replace`, a round per unit of fuel.
pub replace_from : ℕ → List ℕ → List ℕ → List ℕ → ℕ → Result (List ℕ)
replace_from zero s search replace pos = err out_of_fuel
replace_from (suc f) s search replace pos =
    let i = find s search pos in
    let rest =
      replace_from f (replace_at s i (length search) replace) search replace
        (size_add i (length replace)) in
    if i == npos then ok s else rest

-- `str_replace`: every round takes a byte at least out of what is left, unless the searched text is empty.
pub str_replace : List ℕ → List ℕ → List ℕ → Result (List ℕ)
str_replace s search replace = replace_from (length s + 1) s search replace 0

-- `url_decode`
pub url_decode : List ℕ → Result (List ℕ)
url_decode s = do
  lines ← str_replace s (37 ∷ 48 ∷ 65 ∷ []) (10 ∷ [])
  str_replace lines (37 ∷ 50 ∷ 48 ∷ []) (32 ∷ [])

-- `JSON_escape`
pub json_escape : List ℕ → Result (List ℕ)
json_escape s = do
  quoted ← str_replace s (34 ∷ []) (92 ∷ 34 ∷ [])
  str_replace quoted (10 ∷ []) (92 ∷ 110 ∷ [])

-- Reference: from left to right, the text is copied, an occurrence of the searched text as its replacement; the
-- first `skip` bytes are left out.
pub swapped : List ℕ → List ℕ → ℕ → List ℕ → List ℕ
swapped search replace skip [] = []
swapped search replace (suc skip) (c ∷ s) = swapped search replace skip s
swapped search replace zero (c ∷ s) =
    let here = replace ++ swapped search replace (length search - 1) s in
    let on = c ∷ swapped search replace 0 s in if is_prefix search (c ∷ s) then here else on

swapped-skip :
    (search replace : List ℕ) (k : ℕ) (s : List ℕ)
    → swapped search replace k s ≡ swapped search replace 0 (drop k s)
unfolding swapped
swapped-skip search replace zero s = refl
swapped-skip search replace (suc k) [] = refl
swapped-skip search replace (suc k) (c ∷ s) = swapped-skip search replace k s

pub first-missing :
    (n : List ℕ) (c : ℕ) (s : List ℕ)
    → first n (c ∷ s) ≡ none
    → (is_prefix n (c ∷ s) ≡ false) × (first n s ≡ none)
unfolding first
first-missing n c s h = ground arith

swapped-none : (search replace s : List ℕ) → first search s ≡ none → swapped search replace 0 s ≡ s
unfolding swapped
swapped-none search replace [] h = refl
swapped-none search replace (c ∷ s) h =
    let (miss, rest) = first-missing search c s h in
    rw miss (ap (λ t. c ∷ t) (swapped-none search replace s rest))

drop-tail : (n : ℕ) (c : ℕ) (s : List ℕ) → 0 < n → drop (n - 1) s ≡ drop n (c ∷ s)
drop-tail zero c s h = absurd (omega arith)
drop-tail (suc n) c s h = ap (λ k. drop k s) (omega arith)

swapped-some :
    (search replace s : List ℕ) (i : ℕ)
    → 0 < length search
    → first search s ≡ some i
    → swapped search replace 0 s
      ≡ take i s ++ (replace ++ swapped search replace 0 (drop (i + length search) s))
unfolding swapped
swapped-some search replace [] zero pos h =
    absurd (omega (arith, (first-IsFirst search [] 0 h).within))
swapped-some search replace [] (suc i) pos h = absurd (first-nil search i h)
swapped-some search replace (c ∷ s) zero pos h = rw (first-zero search (c ∷ s) h) (
    ap (λ t. replace ++ t)
      (swapped-skip search replace (length search - 1) s
        ∙ ap (swapped search replace 0)
            (drop-tail (length search) c s pos ∙ ap (λ k. drop k (c ∷ s)) plus_zero)))
  where
    plus_zero : length search ≡ 0 + length search
    plus_zero = omega arith
swapped-some search replace (c ∷ s) (suc i) pos h =
    let (miss, rest) = first-suc search c s i h in
    rw miss (
      ap (λ t. c ∷ t) (swapped-some search replace s i pos rest)
      ∙ ap (λ k. c ∷ (take i s ++ (replace ++ swapped search replace 0 (drop k (c ∷ s))))) suc_out)
  where
    suc_out : suc (i + length search) ≡ suc i + length search
    suc_out = omega arith

-- The longest that a text can become.
abbrev room : ℕ → List ℕ → ℕ
room r [] = 0
room r (c ∷ s) = (r + 1) + room r s

room-append : (r : ℕ) (s t : List ℕ) → room r (s ++ t) ≡ room r s + room r t
room-append r [] t = omega arith
room-append r (c ∷ s) t = omega (arith, room-append r s t)

length_le_room : (r : ℕ) (s : List ℕ) → length s ≤ room r s
length_le_room r [] = omega arith
length_le_room r (c ∷ s) = omega (arith, length_le_room r s)

room_ge : (r : ℕ) (s : List ℕ) → 0 < length s → length s + r ≤ room r s
room_ge r [] h = absurd (omega arith)
room_ge r (c ∷ s) h = omega (arith, length_le_room r s)

room_length : (r : ℕ) (s : List ℕ) → room r s ≡ length s * (r + 1)
room_length r [] = omega arith
room_length r (c ∷ s) = grind (arith, room_length r s)

pub find_at :
    (done rest search : List ℕ)
    → find (done ++ rest) search (length done)
      ≡ (elim (first search rest) as (λ o. ℕ) [ none ↦ npos | some i ↦ length done + i ])
unfolding find
find_at done rest search = rw (not_past, drop-append done rest) refl
  where
    not_past : ltb (length (done ++ rest)) (length done) ≡ false
    not_past = ground (arith, length-append done rest)

pub drop-past : (s t : List ℕ) (k : ℕ) → drop (length s + k) (s ++ t) ≡ drop k t
drop-past s t k =
    drop-drop (length s + k) (length s) k (s ++ t) refl ∙ ap (drop k) (drop-append s t)

take-past : (s t : List ℕ) (k : ℕ) → take (length s + k) (s ++ t) ≡ s ++ take k t
take-past [] t k = ap (λ n. take n t) zero_plus
  where
    zero_plus : 0 + k ≡ k
    zero_plus = omega arith
take-past (c ∷ s) t k = ap (λ n. take n (c ∷ (s ++ t))) suc_out ∙ ap (λ u. c ∷ u) (take-past s t k)
  where
    suc_out : suc (length s) + k ≡ suc (length s + k)
    suc_out = omega arith

-- The text after a round: what is done has grown, and what follows the occurrence is left.
replace_at-done :
    (done rest r : List ℕ) (i n : ℕ)
    → replace_at (done ++ rest) (length done + i) n r
      ≡ (done ++ (take i rest ++ r)) ++ drop (i + n) rest
replace_at-done done rest r i n =
    rw (take-past done rest i, regroup, drop-past done rest (i + n))
      (append_assoc done (take i rest) (r ++ drop (i + n) rest)
        ∙ ap (λ t. done ++ t) (sym (append_assoc (take i rest) r (drop (i + n) rest)))
        ∙ sym (append_assoc done (take i rest ++ r) (drop (i + n) rest)))
  where
    regroup : length done + i + n ≡ length done + (i + n)
    regroup = omega arith

module _ (search replace : List ℕ) (some_text : 0 < length search) where
  -- What a round leaves: less text, and room enough.
  record IsShorter (done rest done' rest' : List ℕ) : Type 0 where
    less : length rest' < length rest
    roomy : length done' + room (length replace) rest' ≤ length done + room (length replace) rest

  round-IsShorter :
      (done rest : List ℕ) (i : ℕ)
      → first search rest ≡ some i
      → IsShorter done rest (done ++ (take i rest ++ replace)) (drop (i + length search) rest)
  round-IsShorter done rest i h =
      let within = (first-IsFirst search rest i h).within in
      let r = length replace in
      let k = i + length search in
      record {
        less = omega (arith, within, some_text, length-drop k rest);
        roomy = omega (
          arith,
          within,
          some_text,
          length-append done (take i rest ++ replace),
          length-append (take i rest) replace,
          length-take i rest,
          length-take k rest,
          ap (room r) (take-append-drop k rest),
          room-append r (take k rest) (drop k rest),
          room_ge r (take k rest) (omega (arith, within, some_text, length-take k rest)),
        );
      }

  replace_from-swapped :
      (f : ℕ) (done rest : List ℕ)
      → length rest < f
      → length done + room (length replace) rest < npos
      → replace_from f (done ++ rest) search replace (length done)
        ≡ ok (done ++ swapped search replace 0 rest)
  unfolding replace_from
  replace_from-swapped zero done rest l m = absurd (omega arith)
  replace_from-swapped (suc f) done rest l m = elim (Option-cases (first search rest)) [
    | inl e ↦ rw (find_at done rest search, e, swapped-none search replace rest e) refl
    | inr (i, e) ↦
        let k = i + length search in
        let done' = done ++ (take i rest ++ replace) in
        let s = round-IsShorter done rest i e in
        let within = (first-IsFirst search rest i e).within in
        let roomy = length_le_room (length replace) rest in
        let found : (length done + i == npos) ≡ false = ground (arith, within, roomy) in
        let at : size_add (length done + i) (length replace) ≡ length done' = omega (
          arith,
          within,
          s.roomy,
          length-append done (take i rest ++ replace),
          length-append (take i rest) replace,
          length-take i rest,
        ) in
        rw (find_at done rest search, e, replace_from)
          (rw (found, replace_at-done done rest replace i (length search), at)
            (replace_from-swapped f done' (drop k rest) (omega (arith, s.less))
                (omega (arith, s.roomy))
              ∙ ap ok (
                  rw (swapped-some search replace rest i some_text e) (
                    let more = swapped search replace 0 (drop k rest) in
                    append_assoc done (take i rest ++ replace) more
                    ∙ ap (λ t. done ++ t) (append_assoc (take i rest) replace more)))))
  ]

-- Replacing a text that is not empty gives what one pass from left to right gives, in which an occurrence that
-- has been replaced is not looked at again; this holds as long as a text with every byte replaced, and itself
-- kept, would fit in a string.
pub str_replace-swapped :
    (s search replace : List ℕ)
    → 0 < length search
    → length s * (length replace + 1) < 2 ^ 64 - 1
    → str_replace s search replace ≡ ok (swapped search replace 0 s)
unfolding str_replace
str_replace-swapped s search replace pos h =
    replace_from-swapped search replace pos (length s + 1) [] s (omega arith)
      (omega (arith, room_length (length replace) s))
