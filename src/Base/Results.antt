-- ===== src/Base/Results.antt =====
-- What a call gives: a value, or the fault at which the C++ program stops being defined.
use mathlib.Core.Path.{◌≡◌, refl}
use native.Mathlib.Omega.{arith}
use mathlib.Core.Bool.{Bool, true, false}
use mathlib.Core.Option.{Option, none, some}

-- `null_pointer`: a member is used through a null pointer. `dangling`: through a pointer to an
-- object that was deleted. `invalid_parameter`: `memcpy_s` is given more bytes than its target
-- holds, which calls the runtime's invalid parameter handler. `out_of_range`: an array is read past
-- its end. `wrong_type`: a `static_cast` to a class that the object is not of, and a use of the result.
-- `divided_by_zero`: a remainder by zero.
pub data Fault : Type 0 where
  null_pointer dangling invalid_parameter out_of_range wrong_type divided_by_zero : Fault

pub data Result {ℓ} (A : Type ℓ) : Type ℓ where
  ok : A → Result A
  fault : Fault → Result A

infixl 5 ◌>>=◌
abbrev pub ◌>>=◌ {ℓ κ} : {A : Type ℓ} {B : Type κ} → Result A → (A → Result B) → Result B
fault e >>= k = fault e
ok a >>= k = k a

-- What an option holds, or a fault.
abbrev pub or_fault {ℓ} : {A : Type ℓ} → Fault → Option A → Result A
or_fault e none = fault e
or_fault e (some a) = ok a

-- The fault where a test fails.
abbrev pub guard : Bool → Fault → Result (Unit {0})
guard false e = fault e
guard true e = ok tt

infixl 5 ◌>>◌
abbrev pub ◌>>◌ {κ} : {B : Type κ} → Result (Unit {0}) → Result B → Result B
checked >> rest = checked >>= λ _. rest

-- A chain that succeeds has a first step that succeeds.
pub >>=-eq_ok {ℓ κ} :
    {A : Type ℓ} {B : Type κ} {b : B} (first : Result A) (k : A → Result B)
    → first >>= k ≡ ok b
    → (a : A) × (first ≡ ok a) × (k a ≡ ok b)
>>=-eq_ok (fault e) k h = cc
>>=-eq_ok (ok a) k h = (a, refl, h)

pub ok_injective : {A : Type 0} (a b : A) → ok a ≡ ok b → a ≡ b
ok_injective a b e = ground arith
