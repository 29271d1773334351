-- ===== src/Common/Outcome.antt =====
-- Outcomes of the C++ code: a value, or the exception that leaves the call. `bad_access` and
-- `division_by_zero` stand for undefined behaviour: a read outside an array or through a null
-- pointer, and `%` or `/` by zero.
use mathlib.Core.Option.{Option, none, some}
use mathlib.Core.Path.{◌≡◌, refl}
use mathlib.Core.Logic.{◌⊎◌, inl, inr}

pub data Error : Type 0 where
  out_of_range : Error
  bad_access : Error
  division_by_zero : Error
  socket_closed : Error
  socket_error : Error
  out_of_fuel : Error
  data_overflow : Error
  neighbor_overflow : Error
  node_overflow : Error
  remote_overflow : Error
  not_connected : Error
  no_such_group : Error
  no_such_host : Error
  duplicate_host : Error
  unknown_statement : Error
  dimensions_disagree : Error
  not_square : Error

pub data Result {ℓ} (A : Type ℓ) : Type ℓ where
  ok : A → Result A
  err : Error → Result A

-- A pointer or an element that may be absent.
abbrev pub or_fail {ℓ} : {A : Type ℓ} → Option A → Error → Result A
or_fail none error = err error
or_fail (some a) error = ok a

-- The rest of a function, which an exception skips.
infixl 5 ◌>>=◌
abbrev pub ◌>>=◌ {ℓ κ} :
    {Value : Type ℓ} {Next : Type κ} → Result Value → (Value → Result Next) → Result Next
ok value >>= rest = rest value
err error >>= rest = err error

-- What a step of a result is made of.
pub >>=-ok {ℓ κ} :
    {A : Type ℓ} {B : Type κ} (m : Result A) (f : A → Result B) (b : B)
    → (m >>= f) ≡ ok b
    → (a : A) × (m ≡ ok a) × (f a ≡ ok b)
>>=-ok (ok a) f b e = (a, refl, e)
>>=-ok (err x) f b e = absurd (cc)

pub ok-injective {ℓ} : {A : Type ℓ} {a b : A} → ok a ≡ ok b → a ≡ b
ok-injective e = cc

pub some-injective {ℓ} : {A : Type ℓ} {a b : A} → some a ≡ some b → a ≡ b
some-injective e = cc

pub Result-cases {ℓ} :
    {A : Type ℓ} (r : Result A) → ((e : Error) × (r ≡ err e)) ⊎ ((a : A) × (r ≡ ok a))
Result-cases (err e) = inl (e, refl)
Result-cases (ok a) = inr (a, refl)
