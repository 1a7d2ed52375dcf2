-- ===== src/Prelude/Outcome.antt =====
-- Errors as values. A C++ exception, a failed ASSERT or ABORT, and a read or write outside the
-- storage all end the call that meets them.
use Prim.Native.Nat.{ℕ}
use mathlib.Core.Path.{◌≡◌, refl}
use mathlib.Core.Bool.{Bool, true, false}
use mathlib.Core.Option.{Option, none, some}
use mathlib.Core.Logic.{◌⊎◌, inl, inr}

pub data Error : Type 0 where
  -- an access outside the storage of a buffer, or through a null pointer
  out_of_bounds : Error
  null_access : Error
  -- ASSERT and ABORT of Errors.h
  assertion : Error
  -- `ByteBufferPositionException(add, pos, size, valueSize)`
  position : Bool → ℕ → ℕ → ℕ → Error
  -- `ByteBufferInvalidValueException`
  invalid_value : Error
  -- an integer division by zero
  division_by_zero : Error
  -- a read of a member of a union that is not its active one
  inactive_member : Error
  -- the bare `ByteBufferException` of `contents()`
  no_contents : Error

-- what a call leaves: its value, or the error that ended it
pub data Result {ℓ} (A : Type ℓ) : Type ℓ where
  err : Error → Result A
  ok : A → Result A

infixl 5 ◌>>=◌
infixl 5 ◌>>◌
abbrev pub ◌>>=◌ {ℓ κ} : {X : Type ℓ} {Y : Type κ} → Result X → (X → Result Y) → Result Y
err e >>= next = err e
ok x >>= next = next x

abbrev pub ◌>>◌ {ℓ κ} : {X : Type ℓ} {Y : Type κ} → Result X → Result Y → Result Y
first >> second = first >>= λ _. second

abbrev pub require : Bool → Error → Result (Unit {0})
require true e = ok tt
require false e = err e

-- `*p`
abbrev pub deref {ℓ} : {A : Type ℓ} → Option A → Result A
deref none = err null_access
deref (some a) = ok a

-- A chain that has a value went through the value of its first call.
pub >>=-eq-ok {ℓ κ} :
    {X : Type ℓ} {Y : Type κ} (call : Result X) (next : X → Result Y) {y : Y}
    → (call >>= next) ≡ ok y
    → (x : X) × (call ≡ ok x) × (next x ≡ ok y)
>>=-eq-ok (err e) next eq = cc
>>=-eq-ok (ok x) next eq = (x, refl, eq)

pub Result-cases {ℓ} :
    {A : Type ℓ} (r : Result A) → ((e : Error) × (r ≡ err e)) ⊎ ((a : A) × (r ≡ ok a))
Result-cases (err e) = inl (e, refl)
Result-cases (ok a) = inr (a, refl)

abbrev pub is_ok {ℓ} : {A : Type ℓ} → Result A → Bool
is_ok (ok a) = true
is_ok (err e) = false

pub is_ok-some {ℓ} : {A : Type ℓ} (r : Result A) → is_ok r ≡ true → (a : A) × (r ≡ ok a)
is_ok-some (ok a) h = (a, refl)
is_ok-some (err e) h = cc

pub is_ok->>= {ℓ κ} :
    {A : Type ℓ} {B : Type κ} (m : Result A) (f : A → Result B)
    → is_ok m ≡ true
    → ((a : A) → is_ok (f a) ≡ true)
    → is_ok (m >>= f) ≡ true
is_ok->>= (ok a) f h k = k a
is_ok->>= (err e) f h k = h
