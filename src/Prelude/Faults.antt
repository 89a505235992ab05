-- ===== src/Prelude/Faults.antt =====
-- What a C++ call comes to: a value, or one of the ways in which the program stops.
use mathlib.Core.Path.{◌≡◌, refl}
use mathlib.Core.Logic.{◌⊎◌, inl, inr}

pub data Fault : Type 0 where
  -- `exit(-1)` of `check_address_range`
  exit_program : Fault
  -- `exit(0)` of the simulator's system call 10
  exit_normally : Fault
  -- a quotient that C++ leaves undefined
  bad_division : Fault
  -- a read or a write outside an array
  out_of_bounds : Fault
  -- a failing `sc_assert`
  assert_failed : Fault

pub data Outcome {ℓ} (A : Type ℓ) : Type ℓ where
  returns : A → Outcome A
  fault : Fault → Outcome A

infixl 5 ◌>>=◌
abbrev pub ◌>>=◌ {ℓ κ} : {A : Type ℓ} {B : Type κ} → Outcome A → (A → Outcome B) → Outcome B
returns a >>= f = f a
fault e >>= f = fault e

-- Inversion of a successful bind.
pub >>=-eq-returns {ℓ κ} :
    {A : Type ℓ} {B : Type κ} (m : Outcome A) (f : A → Outcome B) {b : B}
    → (m >>= f) ≡ returns b
    → (a : A) × (m ≡ returns a) × (f a ≡ returns b)
>>=-eq-returns (returns a) f h = (a, refl, h)
>>=-eq-returns (fault e) f h = cc

pub Outcome-cases {ℓ} :
    {A : Type ℓ} (m : Outcome A) → ((a : A) × (m ≡ returns a)) ⊎ ((e : Fault) × (m ≡ fault e))
Outcome-cases (returns a) = inl (a, refl)
Outcome-cases (fault e) = inr (e, refl)
