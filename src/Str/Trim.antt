-- ===== src/Str/Trim.antt =====
-- src/libagml_comm/util/string.cpp: `str_trim`.
use lib_agml.Common.{
  ℕ, zero, suc, ◌+◌, ◌<◌, ◌%◌, ◌^◌, inl, inr, take, leb, Bool-cases, ◌-◌, ◌≤◌, ◌≡◌, refl, ap, ◌∙◌,
  true, false, List, [], ◌∷◌, ◌++◌, length, ok, err, bad_access, arith, length-append, append_assoc,
}
use mathlib.Core.List.{reverse, reverse-append, reverse-cons}
use lib_agml.Str.{is_space, leading, trailing, substr, str_trim}
use lib_agml.Str.Split.{substr-inner, drop-append, take-append, take-all}

-- Every byte is white space.
abbrev pub AllSpace : List ℕ → Type 0
AllSpace [] = Unit {0}
AllSpace (c ∷ s) = (is_space c ≡ true) × AllSpace s

-- The text has a first byte, which is no white space.
abbrev pub StartsBlack : List ℕ → Type 0
StartsBlack [] = ⊥
StartsBlack (c ∷ s) = is_space c ≡ false

leading-append : (s t : List ℕ) → AllSpace s → StartsBlack t → leading (s ++ t) ≡ length s
unfolding leading
leading-append [] [] a b = refl
leading-append [] (c ∷ t) a b = ground arith
leading-append (c ∷ s) t a b = ground (arith, leading-append s t a.1 b)

trailing-append : (s t : List ℕ) → AllSpace s → StartsBlack t → trailing (s ++ t) ≡ ok (length s)
unfolding trailing
trailing-append [] [] a b = absurd b
trailing-append [] (c ∷ t) a b = ground arith
trailing-append (c ∷ s) t a b = ground (arith, trailing-append s t a.1 b)

trailing-blank : (s : List ℕ) → AllSpace s → trailing s ≡ err bad_access
unfolding trailing
trailing-blank [] a = refl
trailing-blank (c ∷ s) a = ground (arith, trailing-blank s a.1)

AllSpace-append : (s t : List ℕ) → AllSpace s → AllSpace t → AllSpace (s ++ t)
AllSpace-append [] t a b = b
AllSpace-append (c ∷ s) t a b = (a.0, AllSpace-append s t a.1 b)

AllSpace-take : (n : ℕ) (s : List ℕ) → AllSpace s → AllSpace (take n s)
AllSpace-take zero s a = tt
AllSpace-take (suc n) [] a = tt
AllSpace-take (suc n) (c ∷ s) a = (a.0, AllSpace-take n s a.1)

AllSpace-reverse : (s : List ℕ) → AllSpace s → AllSpace (reverse s)
AllSpace-reverse [] a = tt
AllSpace-reverse (c ∷ s) a =
    rw (reverse-cons c s) (AllSpace-append (reverse s) (c ∷ []) (AllSpace-reverse s a.1) (a.0, tt))

StartsBlack-append : (s t : List ℕ) → StartsBlack s → StartsBlack (s ++ t)
StartsBlack-append [] t b = absurd b
StartsBlack-append (c ∷ s) t b = b

length-reverse : (s : List ℕ) → length (reverse s) ≡ length s
length-reverse [] = refl
length-reverse (c ∷ s) =
    rw (reverse-cons c s, length-append (reverse s) (c ∷ []), length-reverse s) (omega arith)

-- In a text of at most 2^31 bytes, the backward loop begins at the last byte, if there is one.
last_place :
    (s : List ℕ)
    → 0 < length s
    → length s ≤ 2 ^ 31
    → (length s + 2 ^ 32 - 1) % 2 ^ 32 + 1 ≡ length s
last_place s a b = omega arith

str_trim_short :
    (s : List ℕ) (n : ℕ)
    → 0 < length s
    → length s ≤ 2 ^ 31
    → trailing (reverse s) ≡ ok n
    → str_trim s ≡ substr s (leading s) (length s - n - leading s)
unfolding str_trim
str_trim_short s n a b e =
    let inside : leb (2 ^ 31) ((length s + 2 ^ 32 - 1) % 2 ^ 32) ≡ false = ground (arith, a, b) in
    let whole : trailing (reverse (take ((length s + 2 ^ 32 - 1) % 2 ^ 32 + 1) s)) ≡ ok n =
      ap (λ k. trailing (reverse (take k s))) (last_place s a b)
      ∙ ap (λ t. trailing (reverse t)) (take-all (length s) s (omega arith))
      ∙ e in
    rw (inside, whole, last_place s a b) refl

-- White space on both sides of a text that neither starts nor ends with it is taken off, and
-- nothing else, in at most 2^31 bytes.
pub str_trim_inner :
    (left t right : List ℕ)
    → AllSpace left
    → AllSpace right
    → StartsBlack t
    → StartsBlack (reverse t)
    → length (left ++ (t ++ right)) ≤ 2 ^ 31
    → str_trim (left ++ (t ++ right)) ≡ ok t
str_trim_inner left t right l r b e few =
    str_trim_short (left ++ (t ++ right)) (length right) some_bytes few ends
    ∙ rw (leading-append left (t ++ right) l (StartsBlack-append t right b)) (
        rw short (
          substr-inner (left ++ (t ++ right)) (length left) (length t) inside
          ∙ rw (drop-append left (t ++ right)) (ap ok (take-append t right))))
  where
    ends : trailing (reverse (left ++ (t ++ right))) ≡ ok (length right)
    ends =
        rw (reverse-append left (t ++ right), reverse-append t right, append_assoc)
          (trailing-append (reverse right) (reverse t ++ reverse left) (AllSpace-reverse right r)
              (StartsBlack-append (reverse t) (reverse left) e)
            ∙ ap ok (length-reverse right))

    short : length (left ++ (t ++ right)) - length right - length left ≡ length t
    short = omega (arith, length-append left (t ++ right), length-append t right)

    some_bytes : 0 < length (left ++ (t ++ right))
    some_bytes =
        omega (arith, length-append left (t ++ right), length-append t right, black_bytes t b)
      where
        black_bytes : (u : List ℕ) → StartsBlack u → 0 < length u
        black_bytes [] c = absurd c
        black_bytes (x ∷ u) c = omega arith

    inside : length left ≤ length (left ++ (t ++ right))
    inside = omega (arith, length-append left (t ++ right))

-- On a text of white space alone, the empty text too, the backward loop leaves the string.
pub str_trim_blank : (s : List ℕ) → AllSpace s → str_trim s ≡ err bad_access
unfolding str_trim
str_trim_blank s a = elim (Bool-cases (leb (2 ^ 31) ((length s + 2 ^ 32 - 1) % 2 ^ 32))) [
  | inl e ↦ rw e refl
  | inr e ↦
      rw
        (
          e,
          trailing-blank (reverse (first_bytes))
              (AllSpace-reverse first_bytes (AllSpace-take _ s a)),
        )
        refl
]
  where
    first_bytes : List ℕ
    first_bytes = take ((length s + 2 ^ 32 - 1) % 2 ^ 32 + 1) s
