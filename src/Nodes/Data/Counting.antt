-- ===== src/Nodes/Data/Counting.antt =====
-- src/agml/nodes/data/NodeData.cpp: how many of the neighbours have answered.
use lib_agml.Common.{
  ℕ, zero, suc, ◌+◌, ◌≡◌, ◌≤◌, ◌<◌, refl, ap, Bool, true, false, ◌==◌, if◌then◌else◌, arith,
  Bool-cases, ==_iff, inl, inr,
}
use lib_agml.Simulation.Lifecycle.{one_if}

-- How many of the first numbers pass a test.
pub count_below : ℕ → (ℕ → Bool) → ℕ
count_below zero f = 0
count_below (suc n) f = one_if (f n) + count_below n f

pub count_below-le : (n : ℕ) (f : ℕ → Bool) → count_below n f ≤ n
unfolding count_below
count_below-le zero f = omega arith
count_below-le (suc n) f = ground (arith, count_below-le n f)

pub count_below_all : (n : ℕ) (f : ℕ → Bool) → ((i : ℕ) → i < n → f i ≡ true) → count_below n f ≡ n
unfolding count_below
count_below_all zero f h = refl
count_below_all (suc n) f h =
    rw (h n (omega arith), count_below_all n f (λ i l. h i (omega (arith, l)))) (omega arith)

pub all_of_count : (n : ℕ) (f : ℕ → Bool) → n ≤ count_below n f → (i : ℕ) → i < n → f i ≡ true
unfolding count_below
all_of_count zero f h i l = absurd (omega (arith, l))
all_of_count (suc n) f h i l = elim (Bool-cases (i == n)) [
  | inl e ↦ ground (arith, h, count_below-le n f, ap f ((==_iff i n).0 e))
  | inr e ↦ all_of_count n f (ground (arith, h, count_below-le n f)) i (ground (arith, l, e))
]

pub count_below-above :
    (n : ℕ) (f : ℕ → Bool) (i : ℕ)
    → n ≤ i
    → count_below n (λ j. if i == j then true else f j) ≡ count_below n f
unfolding count_below
count_below-above zero f i l = refl
count_below-above (suc n) f i l = ground (arith, l, count_below-above n f i (omega (arith, l)))

pub count_below-one :
    (n : ℕ) (f : ℕ → Bool) (i : ℕ)
    → i < n
    → f i ≡ false
    → count_below n (λ j. if i == j then true else f j) ≡ count_below n f + 1
unfolding count_below
count_below-one zero f i l e = absurd (omega (arith, l))
count_below-one (suc n) f i l e = elim (Bool-cases (i == n)) [
  | inl s ↦
      ground (arith, s, count_below-above n f i (ground (arith, s)), e, ap f ((==_iff i n).0 s))
  | inr s ↦ ground (arith, s, count_below-one n f i (ground (arith, l, s)) e)
]

pub count_below_none : (n : ℕ) → count_below n (λ i. false) ≡ 0
unfolding count_below
count_below_none zero = refl
count_below_none (suc n) = rw (count_below_none n) refl
