-- ===== src/Str/Split.antt =====
-- src/libagml_comm/util/string.cpp: cutting a text at the first occurrence of a separator.
use lib_agml.Common.{
  ℕ, zero, suc, ◌+◌, ◌-◌, ◌^◌, ◌%◌, ◌<◌, ◌≤◌, ◌≡◌, refl, ap, ◌∙◌, sym, true, false, none, some,
  List, [], ◌∷◌, ◌++◌, inl, inr, length, take, drop, ok, err, ◌==◌, out_of_range, arith, lt→ltb,
  Option-cases, take-append-drop, length-take, length-drop,
}
use lib_agml.Str.{first, is_prefix, find, substr, str_before, str_after, str_has, npos}

is_prefix-append : (n s : List ℕ) → is_prefix n s ≡ true → s ≡ n ++ drop (length n) s
unfolding is_prefix
is_prefix-append [] s h = refl
is_prefix-append (c ∷ n) [] h = cc
is_prefix-append (c ∷ n) (d ∷ s) h = ground (arith, is_prefix-append n s)

is_prefix-length : (n s : List ℕ) → is_prefix n s ≡ true → length n ≤ length s
unfolding is_prefix
is_prefix-length [] s h = omega arith
is_prefix-length (c ∷ n) [] h = cc
is_prefix-length (c ∷ n) (d ∷ s) h = ground (arith, is_prefix-length n s)

-- What `first` finds: an occurrence, and none before it.
pub record IsFirst (n s : List ℕ) (i : ℕ) : Type 0 where
  pub occurs : is_prefix n (drop i s) ≡ true
  pub before : (k : ℕ) → k < i → is_prefix n (drop k s) ≡ false
  pub within : i + length n ≤ length s

pub first-suc :
    (n : List ℕ) (c : ℕ) (s : List ℕ) (i : ℕ)
    → first n (c ∷ s) ≡ some (suc i)
    → (is_prefix n (c ∷ s) ≡ false) × (first n s ≡ some i)
unfolding first
first-suc n c s i h = ground arith

pub first-zero : (n s : List ℕ) → first n s ≡ some 0 → is_prefix n s ≡ true
unfolding first
first-zero n [] h = ground arith
first-zero n (c ∷ s) h = ground arith

pub first-nil : (n : List ℕ) (i : ℕ) → ¬ (first n [] ≡ some (suc i))
unfolding first
first-nil n i h = ground arith

pub first-IsFirst : (n s : List ℕ) (i : ℕ) → first n s ≡ some i → IsFirst n s i
first-IsFirst n s zero h = record {
  occurs = first-zero n s h;
  before = λ k lt. absurd (omega arith);
  within = omega (arith, is_prefix-length n s (first-zero n s h));
}
first-IsFirst n [] (suc i) h = absurd (first-nil n i h)
first-IsFirst n (c ∷ s) (suc i) h =
    let (miss, rest) = first-suc n c s i h in
    let ih = first-IsFirst n s i rest in
    record {
      occurs = ih.occurs;
      before = elim [ zero ↦ λ lt. miss | suc k ↦ λ lt. ih.before k (omega arith) ];
      within = omega (arith, ih.within);
    }

pub drop-append : (s t : List ℕ) → drop (length s) (s ++ t) ≡ t
drop-append [] t = refl
drop-append (c ∷ s) t = drop-append s t

pub take-append : (s t : List ℕ) → take (length s) (s ++ t) ≡ s
take-append [] t = refl
take-append (c ∷ s) t = ap (λ u. c ∷ u) (take-append s t)

pub drop-drop : (n i j : ℕ) (s : List ℕ) → n ≡ i + j → drop n s ≡ drop j (drop i s)
drop-drop n zero j s h = ap (λ k. drop k s) (omega arith)
drop-drop zero (suc i) j s h = absurd (omega arith)
drop-drop (suc n) (suc i) zero [] h = refl
drop-drop (suc n) (suc i) (suc j) [] h = refl
drop-drop (suc n) (suc i) j (c ∷ s) h = drop-drop n i j s (omega arith)

pub take-all : (n : ℕ) (s : List ℕ) → length s ≤ n → take n s ≡ s
take-all zero [] h = refl
take-all zero (c ∷ s) h = absurd (omega arith)
take-all (suc n) [] h = refl
take-all (suc n) (c ∷ s) h = ap (λ u. c ∷ u) (take-all n s (omega arith))

-- The strings that the helpers are given are shorter than the largest `uint`.
abbrev pub IsShort : List ℕ → Type 0
IsShort s = length s < 2 ^ 32 - 1

pub find-some : (s n : List ℕ) (i : ℕ) → first n s ≡ some i → find s n 0 ≡ i
unfolding find
find-some s n i h = ground arith

pub find-none : (s n : List ℕ) → first n s ≡ none → find s n 0 ≡ npos
unfolding find
find-none s n h = ground arith

-- What a text is cut into at the first occurrence of a separator.
pub record IsCut (s sep before after : List ℕ) : Type 0 where
  pub parts : s ≡ before ++ (sep ++ after)
  pub earliest : (k : ℕ) → k < length before → is_prefix sep (drop k s) ≡ false

IsCut-first :
    (s sep : List ℕ) (i : ℕ) → IsFirst sep s i → IsCut s sep (take i s) (drop (i + length sep) s)
IsCut-first s sep i f = record {
  parts =
      sym (take-append-drop i s)
      ∙ ap (λ t. take i s ++ t)
          (is_prefix-append sep (drop i s) f.occurs
            ∙ ap (λ t. sep ++ t) (sym (drop-drop (i + length sep) i (length sep) s refl)));
  earliest = λ k h. f.before k (omega (arith, length-take i s));
}

substr-past : (s : List ℕ) (pos n : ℕ) → length s < pos → substr s pos n ≡ err out_of_range
unfolding substr
substr-past s pos n h = rw (lt→ltb (length s) pos h)

pub substr-tail :
    (s : List ℕ) (pos n : ℕ) → pos ≤ length s → length s ≤ n → substr s pos n ≡ ok (drop pos s)
unfolding substr
substr-tail s pos n h k = ground (arith, take-all n (drop pos s), length-drop pos s)

pub substr-inner :
    (s : List ℕ) (pos n : ℕ) → pos ≤ length s → substr s pos n ≡ ok (take n (drop pos s))
unfolding substr
substr-inner s pos n h = ground arith

pub before-first :
    (s sep : List ℕ) (i : ℕ)
    → IsShort s
    → IsFirst sep s i
    → find s sep 0 ≡ i
    → str_before s sep ≡ ok (take i s)
unfolding str_before
before-first s sep i short f e =
    rw (e, str_before) (rw (small, npos_ne) (substr-inner s 0 i (omega arith)))
  where
    small : i % 2 ^ 32 ≡ i
    small = omega (arith, f.within)

    npos_ne : (i == npos) ≡ false
    npos_ne = ground (arith, f.within)

pub after-first :
    (s sep : List ℕ) (i : ℕ)
    → IsShort s
    → IsFirst sep s i
    → find s sep 0 ≡ i
    → str_after s sep ≡ ok (drop (i + length sep) s)
unfolding str_after
after-first s sep i short f e =
    rw (e, str_after)
      (rw (small, npos_ne, shift)
        (substr-tail s (i + length sep) npos (omega (arith, f.within)) (omega arith)))
  where
    small : i % 2 ^ 32 ≡ i
    small = omega (arith, f.within)

    npos_ne : (i == npos) ≡ false
    npos_ne = ground (arith, f.within)

    shift : (i + length sep) % 2 ^ 64 ≡ i + length sep
    shift = omega (arith, f.within)

-- A short text that has the separator is cut at its first occurrence: `str_before` and `str_after`
-- return the two sides, which with the separator between them make up the text, and the separator
-- occurs at no earlier offset.
pub str_before-str_after :
    (s sep : List ℕ)
    → IsShort s
    → str_has s sep ≡ true
    → (before after : List ℕ) × (str_before s sep ≡ ok before)
      × (str_after s sep ≡ ok after)
      × IsCut s sep before after
unfolding str_has
str_before-str_after s sep short h = elim (Option-cases (first sep s)) [
  | inl e ↦ absurd (ground (arith, find-none s sep e))
  | inr (i, e) ↦
      let f = first-IsFirst sep s i e in
      let at = find-some s sep i e in
      (
        take i s,
        drop (i + length sep) s,
        before-first s sep i short f at,
        after-first s sep i short f at,
        IsCut-first s sep i f,
      )
]

-- On a short text without the separator, itself short, `str_before` returns the whole text, and `str_after`, whose
-- test against `npos` cannot pass in a `uint`, throws.
pub str_missing :
    (s sep : List ℕ)
    → IsShort s
    → IsShort sep
    → str_has s sep ≡ false
    → (str_before s sep ≡ ok s) × (str_after s sep ≡ err out_of_range)
unfolding str_has str_before str_after
str_missing s sep short short_sep h = elim (Option-cases (first sep s)) [
  | inl e ↦ (
    rw (find-none s sep e, str_before) (whole (2 ^ 32 - 1) (omega arith)),
    rw (find-none s sep e, str_after) (substr-past s _ npos (omega arith)),
  )
  | inr (i, e) ↦ absurd (ground (arith, find-some s sep i e, (first-IsFirst sep s i e).within))
]
  where
    whole : (n : ℕ) → length s ≤ n → substr s 0 n ≡ ok s
    whole n h = substr-tail s 0 n (omega arith) h
