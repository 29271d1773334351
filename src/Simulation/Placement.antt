-- ===== src/Simulation/Placement.antt =====
-- src/libagml_comm/simulation/Thread.cpp and src/libagml_comm/topology/NodeGroup.cpp: which threads get the
-- nodes that a host instantiates, for a node class that the node library knows.
use native.Mathlib.Nat.{
  mod-eq_of_lt, mod-eq-sub-mod, mod-eq-sub-div-mul, div-le_self, div-mul-le_self,
}
use lib_agml.Common.{
  ℕ, zero, suc, ◌+◌, ◌-◌, ◌*◌, ◌/◌, ◌%◌, ◌^◌, ◌<◌, ◌≤◌, ◌≡◌, refl, ap, sym, ◌∙◌, inl, inr, Bool,
  true, false, ◌||◌, ◌&&◌, not, ◌==◌, ltb, if◌then◌else◌, Result, ok, err, division_by_zero, arith,
  Bool-cases, ==_iff, ltb→lt,
}

-- The loop of `threads_get_lightest` over the threads from `i` on, with the thread found so far and its
-- load; the load -1, of none found, is `first`.
pub lightest_from : (ℕ → ℕ) → ℕ → ℕ → ℕ → Bool → ℕ → ℕ
lightest_from load i zero th first th_load = th
lightest_from load i (suc left) th first th_load =
    let found = lightest_from load (suc i) left i false (load i) in
    let same = lightest_from load (suc i) left th first th_load in
    if ltb (load i) th_load || first then found else same

-- `threads_get_lightest` of `count` threads
pub threads_get_lightest : (ℕ → ℕ) → ℕ → ℕ
threads_get_lightest load count = lightest_from load 0 count 0 true 0

-- `instantiate_nodes` on one thread
abbrev pub instantiate_on : (ℕ → ℕ) → ℕ → ℕ → ℕ → ℕ
instantiate_on load nb thread j = if thread == j then load j + nb else load j

-- The loop of `instantiate_nodes` over the threads, the last `left` of them.
pub instantiate_each : (ℕ → ℕ) → ℕ → ℕ → ℕ → ℕ → ℕ → ℕ → ℕ
instantiate_each load nb th count i zero = load
instantiate_each load nb th count i (suc left) =
    instantiate_each (instantiate_on load nb ((i + th) % count)) nb th count (suc i) left

-- `x > 0` of an `int`
abbrev pub is_positive : ℕ → Bool
is_positive x = not (x == 0) && ltb x (2 ^ 31)

-- `NodeGroupHost::instantiate_nodes` of `nb` nodes, a `long`, spread over `count` threads, as many as an `int`
-- counts: the threads' loads. The quotient and the rest are kept in an `int`.
pub instantiate_nodes : (ℕ → ℕ) → ℕ → ℕ → Result (ℕ → ℕ)
instantiate_nodes load count nb =
    if count == 0
    then err division_by_zero
    else (let th = threads_get_lightest load count in
        let per_thread = nb / count % 2 ^ 32 in
        let remaining = (nb + (2 ^ 32 - per_thread * count % 2 ^ 32)) % 2 ^ 32 in
        let load1 = if is_positive remaining then instantiate_on load remaining th else load in
        ok (
          if is_positive per_thread
          then instantiate_each load1 per_thread th count 0 count
          else load1))

-- The thread found is below the bound and none of those seen carries less.
pub record IsLightest (load : ℕ → ℕ) (seen th : ℕ) : Type 0 where
  pub among : th < seen
  pub minimal : (j : ℕ) → j < seen → load th ≤ load j

lightest_from-IsLightest :
    (load : ℕ → ℕ) (i left th : ℕ)
    → IsLightest load i th
    → IsLightest load (i + left) (lightest_from load i left th false (load th))
unfolding lightest_from
lightest_from-IsLightest load i zero th v = record {
  among = omega (arith, v.among);
  minimal = λ j h. v.minimal j (omega arith);
}
lightest_from-IsLightest load i (suc left) th v = elim (Bool-cases (ltb (load i) (load th))) [
  | inl b ↦ rw b (
      shift _ (
        lightest_from-IsLightest load (suc i) left i (record {
          among = omega arith;
          minimal = λ j h. elim (Bool-cases (j == i)) [
            | inl e ↦ ground (arith, (==_iff j i).0 e)
            | inr e ↦ ground (arith, v.minimal j, b)
          ];
        })))
  | inr b ↦ rw b (
      shift _ (
        lightest_from-IsLightest load (suc i) left th (record {
          among = omega (arith, v.among);
          minimal = λ j h. elim (Bool-cases (j == i)) [
            | inl e ↦ ground (arith, b, ap load ((==_iff j i).0 e))
            | inr e ↦ ground (arith, v.minimal j)
          ];
        })))
]
  where
    shift : (k : ℕ) → IsLightest load (suc i + left) k → IsLightest load (i + suc left) k
    shift k w = record {
      among = omega (arith, w.among);
      minimal = λ j h. w.minimal j (omega arith);
    }

-- Of some threads the one found is one of them, and none carries less.
threads_get_lightest-IsLightest :
    (load : ℕ → ℕ) (count : ℕ) → 0 < count → IsLightest load count (threads_get_lightest load count)
unfolding threads_get_lightest lightest_from
threads_get_lightest-IsLightest load zero h = absurd (omega arith)
threads_get_lightest-IsLightest load (suc n) h = rw (leading n) (
    shifted (
      lightest_from-IsLightest load 1 n 0
        (record { among = omega arith; minimal = λ j h. ground arith })))
  where
    leading : (n : ℕ) → threads_get_lightest load (suc n) ≡ lightest_from load 1 n 0 false (load 0)
    leading n = elim (Bool-cases (ltb (load 0) 0)) [ inl b ↦ rw b refl | inr b ↦ rw b refl ]

    shifted :
        IsLightest load (1 + n) (lightest_from load 1 n 0 false (load 0))
        → IsLightest load (suc n) (lightest_from load 1 n 0 false (load 0))
    shifted w = record {
      among = omega (arith, w.among);
      minimal = λ j h. w.minimal j (omega arith);
    }

-- Round the threads from `th` on, thread `t` comes at this turn.
abbrev turn_of : ℕ → ℕ → ℕ → ℕ
turn_of th count t = if ltb t th then count + t - th else t - th

turn_of-mod :
    (th count t i : ℕ)
    → th < count
    → t < count
    → i < count
    → ((i + th) % count == t) ≡ (i == turn_of th count t)
turn_of-mod th count t i a b c = elim (Bool-cases (ltb (i + th) count)) [
  | inl e ↦ rw (mod-eq_of_lt (ltb→lt _ _ e)) (ground arith)
  | inr e ↦ rw (wrapped (ground arith)) (ground arith)
]
  where
    wrapped : count ≤ i + th → (i + th) % count ≡ i + th - count
    wrapped h = mod-eq-sub-mod h ∙ mod-eq_of_lt (omega arith)

instantiate_each-shares :
    (load : ℕ → ℕ) (nb th count i left t : ℕ)
    → th < count
    → t < count
    → i + left ≤ count
    → instantiate_each load nb th count i left t
      ≡ load t
        + (if ltb (turn_of th count t) i
            then 0
            else if ltb (turn_of th count t) (i + left)
            then nb
            else 0)
unfolding instantiate_each
instantiate_each-shares load nb th count i zero t a b h = ground arith
instantiate_each-shares load nb th count i (suc left) t a b h =
    instantiate_each-shares (instantiate_on load nb ((i + th) % count)) nb th count (suc i) left t a
      b (omega arith)
    ∙ rw (turn_of-mod th count t i a b (omega arith)) (ground arith)

taken : (n k : ℕ) → n < 2 ^ 31 → k ≤ n → (n + (2 ^ 32 - k % 2 ^ 32)) % 2 ^ 32 ≡ n - k
taken n k l h = omega arith

rest_share :
    (load : ℕ → ℕ) (rest th t : ℕ)
    → rest < 2 ^ 31
    → (if is_positive rest then instantiate_on load rest th else load) t
      ≡ load t + (if th == t then rest else 0)
rest_share load rest th t l = elim (Bool-cases (is_positive rest)) [
  | inl e ↦ rw e (ground arith)
  | inr e ↦ let z : rest ≡ 0 = ground (arith, e, l) in rw e (ground (arith, z))
]

quotient_share :
    (load : ℕ → ℕ) (nb th count t : ℕ)
    → th < count
    → t < count
    → nb < 2 ^ 31
    → (if is_positive nb then instantiate_each load nb th count 0 count else load) t ≡ load t + nb
quotient_share load nb th count t a b l = elim (Bool-cases (is_positive nb)) [
  | inl e ↦
      rw e (instantiate_each-shares load nb th count 0 count t a b (omega arith) ∙ ground arith)
  | inr e ↦ let z : nb ≡ 0 = ground (arith, e, l) in rw e (ground (arith, z))
]

-- Each thread gets the quotient, and thread `th` the remainder as well.
pub record IsEven (load after : ℕ → ℕ) (count nb th : ℕ) : Type 0 where
  pub shared :
      (t : ℕ) → t < count → after t ≡ load t + nb / count + (if th == t then nb % count else 0)

-- Nodes that a host instantiates, fewer than 2^31, are spread evenly: of some threads, at
-- least one and fewer than 2^31, each gets the quotient of the number
-- of nodes by the number of threads, and one thread that carried least gets the rest as well.
pub instantiate_nodes-IsEven :
    (load : ℕ → ℕ) (count nb : ℕ)
    → 0 < count
    → count < 2 ^ 31
    → nb < 2 ^ 31
    → (th : ℕ) × (after : ℕ → ℕ) × (instantiate_nodes load count nb ≡ ok after)
      × IsLightest load count th
      × IsEven load after count nb th
unfolding instantiate_nodes
instantiate_nodes-IsEven load count nb h counted small =
    let v = threads_get_lightest-IsLightest load count h in
    (
      threads_get_lightest load count,
      _,
      rw some_threads refl,
      v,
      record { shared = λ t ht. shares v.among t ht },
    )
  where
    some_threads : (count == 0) ≡ false
    some_threads = ground arith

    th : ℕ
    th = threads_get_lightest load count

    per : ℕ
    per = nb / count % 2 ^ 32

    rest : ℕ
    rest = (nb + (2 ^ 32 - per * count % 2 ^ 32)) % 2 ^ 32

    first : ℕ → ℕ
    first = if is_positive rest then instantiate_on load rest th else load

    per_eq : per ≡ nb / count
    per_eq = mod-eq_of_lt (omega (arith, small, div-le_self nb count))

    multiple_le : nb / count * count ≤ nb
    multiple_le = div-mul-le_self nb count

    rest_eq : rest ≡ nb % count
    rest_eq =
        ap (λ q. (nb + (2 ^ 32 - q * count % 2 ^ 32)) % 2 ^ 32) per_eq
        ∙ back
        ∙ sym (mod-eq-sub-div-mul nb count)
      where
        back : (nb + (2 ^ 32 - nb / count * count % 2 ^ 32)) % 2 ^ 32 ≡ nb - nb / count * count
        back = taken nb (nb / count * count) small multiple_le

    per_small : per < 2 ^ 31
    per_small = omega (arith, small, per_eq, div-le_self nb count)

    rest_small : rest < 2 ^ 31
    rest_small = omega (arith, small, rest_eq, mod-eq-sub-div-mul nb count)

    shares :
        th < count
        → (t : ℕ) → t < count
        → (if is_positive per then instantiate_each first per th count 0 count else first) t
          ≡ load t + nb / count + (if th == t then nb % count else 0)
    shares a t b =
        quotient_share first per th count t a b per_small
        ∙ ap (λ k. k + per)
            (rest_share load rest th t rest_small
              ∙ ap (λ r. load t + (if th == t then r else 0)) rest_eq)
        ∙ omega (arith, per_eq)
