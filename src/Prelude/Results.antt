-- ===== src/Prelude/Results.antt =====
-- Go's (value, error) results, for an error type of the caller's.
use mathlib.Core.Path.{◌≡◌, refl}
use mathlib.Core.Logic.{◌⊎◌, inl, inr}

-- The error type stands first, as in the other modules' signatures.
pub data Result {ℓ κ} (E : Type ℓ) (A : Type κ) : Type (ℓ ⊔ κ) where
  err : E → Result E A
  ok : A → Result E A

-- `if err != nil { return err }`, and the same for a call whose value is not used.
infixl 5 ◌>>=◌ ◌>>◌
abbrev pub ◌>>=◌ {α β γ} :
    {Err : Type α} {Val : Type β} {Next : Type γ}
    → Result Err Val
    → (Val → Result Err Next)
    → Result Err Next
err problem >>= next = err problem
ok value >>= next = next value

abbrev pub ◌>>◌ {α γ} :
    {Err : Type α} {Next : Type γ} → Result Err (Unit {0}) → Result Err Next → Result Err Next
first >> second = first >>= λ _. second

-- A bind that succeeds: its call gave a value, and so did what follows.
pub >>=-eq-ok {α β γ} :
    {Err : Type α} {Val : Type β} {Next : Type γ} (call : Result Err Val)
    (next : Val → Result Err Next) {answer : Next}
    → (call >>= next) ≡ ok answer
    → (value : Val) × (call ≡ ok value) × (next value ≡ ok answer)
>>=-eq-ok (err problem) next success = cc
>>=-eq-ok (ok value) next success = (value, refl, success)

pub Result-cases {ℓ κ} :
    {E : Type ℓ} {A : Type κ} (r : Result E A) → ((a : A) × (r ≡ ok a)) ⊎ ((e : E) × (r ≡ err e))
Result-cases (ok a) = inl (a, refl)
Result-cases (err e) = inr (e, refl)
