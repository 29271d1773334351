-- ===== src/Reader/Words.antt =====
-- src/libagml_comm/util/string.cpp as the reader of model files uses it: where a separator stands between
-- words that do not have its first byte.
use lib_agml.Common.{
  ℕ, suc, ◌+◌, ◌^◌, ◌<◌, length-append, ◌≡◌, ◌≢◌, refl, ap, sym, ◌∙◌, true, false, Option, none,
  some, List, [], ◌∷◌, ◌++◌, ◌==◌, length, ok, arith, append-nil,
}
use mathlib.Core.List.{reverse}
use lib_agml.Str.{is_space, first, is_prefix, str_before, str_after, str_has, str_trim}
use lib_agml.Str.Split.{
  IsShort, first-IsFirst, find-some, find-none, before-first, after-first, drop-append, take-append,
  drop-drop,
}
use lib_agml.Str.Trim.{StartsBlack, str_trim_inner}
use lib_agml.Reader.{sides}

-- No byte of the word is `c`.
abbrev pub AllBut : ℕ → List ℕ → Type 0
AllBut c [] = Unit {0}
AllBut c (d ∷ w) = (c ≢ d) × AllBut c w

-- A text that neither starts nor ends with white space.
pub record IsTrimmed (w : List ℕ) : Type 0 where
  pub starts : StartsBlack w
  pub ends : StartsBlack (reverse w)

abbrev pub later : ℕ → Option ℕ → Option ℕ
later n none = none
later n (some i) = some (n + i)

-- A separator is found behind a word that does not have its first byte.
pub first-past :
    (c : ℕ) (sep w t : List ℕ)
    → AllBut c w
    → first (c ∷ sep) (w ++ t) ≡ later (length w) (first (c ∷ sep) t)
unfolding first is_prefix
first-past c sep [] t a = same (first (c ∷ sep) t)
  where
    same : (o : Option ℕ) → o ≡ later 0 o
    same none = refl
    same (some i) = ap some (omega arith)
first-past c sep (d ∷ w) t a =
    rw (different, first-past c sep w t a.1) (one_later (first (c ∷ sep) t))
  where
    different : (c == d) ≡ false
    different = ground (arith, a.0)

    one_later :
        (o : Option ℕ)
        → (elim (later (length w) o) as (λ _. Option ℕ) [ none ↦ none | some i ↦ some (suc i) ])
          ≡ later (suc (length w)) o
    one_later none = refl
    one_later (some i) = ap some (omega arith)

pub first-none : (c : ℕ) (sep w : List ℕ) → AllBut c w → first (c ∷ sep) w ≡ none
unfolding first is_prefix
first-none c sep [] a = refl
first-none c sep (d ∷ w) a = rw (different, first-none c sep w a.1) refl
  where
    different : (c == d) ≡ false
    different = ground (arith, a.0)

pub has_none : (s sep : List ℕ) → first sep s ≡ none → str_has s sep ≡ false
unfolding str_has
has_none s sep h = rw (find-none s sep h) refl

pub has_some : (s sep : List ℕ) (i : ℕ) → IsShort s → first sep s ≡ some i → str_has s sep ≡ true
unfolding str_has
has_some s sep i short h = ground (arith, find-some s sep i h, (first-IsFirst sep s i h).within)

-- A text cut at the first place of a separator gives the trimmed sides.
pub sides-at :
    (a sep b x y : List ℕ)
    → IsShort (a ++ (sep ++ b))
    → first sep (a ++ (sep ++ b)) ≡ some (length a)
    → str_trim a ≡ ok x
    → str_trim b ≡ ok y
    → sides (a ++ (sep ++ b)) sep ≡ ok (x, y)
unfolding sides
sides-at a sep b x y short h ta tb = rw (cut_before, ta, cut_after, tb) refl
  where
    s : List ℕ
    s = a ++ (sep ++ b)

    cut_before : str_before s sep ≡ ok a
    cut_before =
        before-first s sep (length a) short (first-IsFirst sep s (length a) h)
          (find-some s sep (length a) h)
        ∙ ap ok (take-append a (sep ++ b))

    cut_after : str_after s sep ≡ ok b
    cut_after =
        after-first s sep (length a) short (first-IsFirst sep s (length a) h)
          (find-some s sep (length a) h)
        ∙ ap ok (
            drop-drop _ (length a) (length sep) s refl
            ∙ rw (drop-append a (sep ++ b)) (drop-append sep b))

-- A single space on either side is trimmed off.
pub trim-after : (w : List ℕ) → IsTrimmed w → length w < 2 ^ 31 → str_trim (w ++ (32 ∷ [])) ≡ ok w
unfolding is_space
trim-after w v few =
    str_trim_inner [] w (32 ∷ []) tt (refl, tt) v.starts v.ends
      (omega (arith, few, length-append w (32 ∷ [])))

pub trim-before : (w : List ℕ) → IsTrimmed w → length w < 2 ^ 31 → str_trim (32 ∷ w) ≡ ok w
unfolding is_space
trim-before w v few =
    ap (λ t. str_trim (32 ∷ t)) (sym (append-nil w))
    ∙ str_trim_inner (32 ∷ []) w [] (refl, tt) tt v.starts v.ends
        (omega (arith, few, length-append w []))
