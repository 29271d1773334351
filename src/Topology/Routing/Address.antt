-- ===== src/Topology/Routing/Address.antt =====
-- src/libagml_comm/common/com.cpp: the two halves of a node's address.
use Prim.Native.Nat.{◌/◌, max, bit_or, digits, bit_or-bitwise}
use native.Mathlib.Nat.{pow-suc, mul_assoc}
use lib_agml.Common.{ℕ, zero, suc, ◌+◌, ◌*◌, ◌%◌, ◌^◌, ◌≤◌, ◌<◌, ◌≡◌, refl, sym, arith}
use lib_agml.Topology.Routing.{address}

abbrev or_digits : ℕ → ℕ → ℕ → ℕ
or_digits n a b = digits (λ b. b) max n a b

or_digits_fuel : (n m a b : ℕ) → a ≤ n → a ≤ m → or_digits n a b ≡ or_digits m a b
or_digits_fuel zero zero a b p q = refl
or_digits_fuel zero (suc m) zero b p q = refl
or_digits_fuel zero (suc m) (suc a) b p q = absurd (omega arith)
or_digits_fuel (suc n) zero zero b p q = refl
or_digits_fuel (suc n) zero (suc a) b p q = absurd (omega arith)
or_digits_fuel (suc n) (suc m) zero b p q = refl
or_digits_fuel (suc n) (suc m) (suc a) b p q =
    omega (arith, or_digits_fuel n m (suc a / 2) (b / 2) (omega arith) (omega arith))

zero-bit_or : (b : ℕ) → bit_or 0 b ≡ b
zero-bit_or b = bit_or-bitwise 0 b

bit_or_step : (a b : ℕ) → bit_or a b ≡ bit_or (a / 2) (b / 2) * 2 + max (a % 2) (b % 2)
bit_or_step zero b = omega (arith, zero-bit_or b, zero-bit_or (b / 2))
bit_or_step (suc a) b = omega (
  arith,
  bit_or-bitwise (suc a) b,
  bit_or-bitwise (suc a / 2) (b / 2),
  or_digits_fuel a (suc a / 2) (suc a / 2) (b / 2) (omega arith) (omega arith),
)

bit_or-zero_fuel : (n a : ℕ) → a ≤ n → bit_or a 0 ≡ a
bit_or-zero_fuel n zero h = zero-bit_or 0
bit_or-zero_fuel zero (suc a) h = absurd (omega arith)
bit_or-zero_fuel (suc n) (suc a) h =
    omega (arith, bit_or_step (suc a) 0, bit_or-zero_fuel n (suc a / 2) (omega arith))

-- A number below `2 ^ k` fills the low bits of a multiple of it.
bit_or-shifted : (k a b : ℕ) → b < 2 ^ k → bit_or (a * 2 ^ k) b ≡ a * 2 ^ k + b
bit_or-shifted zero a b h =
    let e : b ≡ 0 = omega arith in
    rw e (omega (arith, bit_or-zero_fuel (a * 1) (a * 1) (omega arith)))
bit_or-shifted (suc k) a b h =
    let twice : a * 2 ^ suc k ≡ a * 2 ^ k * 2 = rw (pow-suc 2 k) (sym (mul_assoc a (2 ^ k) 2)) in
    let x = a * 2 ^ k in
    let half : x * 2 / 2 ≡ x = omega arith in
    rw twice (
      rw (bit_or_step (x * 2) b, half)
        (omega (arith, bit_or-shifted k a (b / 2) (omega (arith, pow-suc 2 k)))))

-- The halves of an address of 32-bit numbers.
pub address_halves :
    (group id : ℕ)
    → group < 2 ^ 32
    → id < 2 ^ 32
    → (address group id / 2 ^ 32 % 2 ^ 32 ≡ group) × (address group id % 2 ^ 32 ≡ id)
unfolding address
address_halves group id g h =
    let whole : group * 2 ^ 32 % 2 ^ 64 ≡ group * 2 ^ 32 = omega arith in
    let e = bit_or-shifted 32 group id h in
    (rw (whole, e) (omega arith), rw (whole, e) (omega arith))
