-- ===== src/Base/Outcome.antt =====
-- The result of kernel code that can stop: a failed `kassert` panics, an access outside of an array
-- has no defined result, and a loop of the model can run out of fuel.
use mathlib.Core.Path.{◌≡◌, refl}
use mathlib.Core.Logic.{◌≢◌, ◌⊎◌, inl, inr}
use mathlib.Core.Bool.{Bool, true, false}

pub data Outcome {ℓ} (A : Type ℓ) : Type ℓ where
  ok : A → Outcome A
  panic fault out_of_fuel : Outcome A

-- Code that stops does not reach what follows.
abbrev pub ◌>>=◌ {ℓ m} : {A : Type ℓ} → {B : Type m} → Outcome A → (A → Outcome B) → Outcome B
panic >>= next = panic
fault >>= next = fault
out_of_fuel >>= next = out_of_fuel
ok value >>= next = next value

abbrev pub ◌>>◌ {m} : {B : Type m} → Outcome (Unit {0}) → Outcome B → Outcome B
before >> behind = before >>= (λ done. behind)

infixl 5 ◌>>◌ ◌>>=◌
-- `kassert(b)` and its variants.
abbrev pub kassert : Bool → Outcome (Unit {0})
kassert true = ok tt
kassert false = panic

pub ok-injective {ℓ} : {A : Type ℓ} {a b : A} → ok a ≡ ok b → a ≡ b
ok-injective h = cc

pub true-cases : (o : Outcome Bool) → (o ≡ ok true) ⊎ (o ≢ ok true)
true-cases (ok true) = inl refl
true-cases (ok false) = inr (λ h. cc)
true-cases panic = inr (λ h. cc)
true-cases fault = inr (λ h. cc)
true-cases out_of_fuel = inr (λ h. cc)

-- Of two steps that end well the first gave a value, from which the second went on.
pub >>=-eq-ok {ℓ m} :
    {A : Type ℓ}
    → {B : Type m} → {b : B} (start : Outcome A) (next : A → Outcome B) → start >>= next ≡ ok b
    → (a : A) × (start ≡ ok a) × (next a ≡ ok b)
>>=-eq-ok panic next h = cc
>>=-eq-ok fault next h = cc
>>=-eq-ok out_of_fuel next h = cc
>>=-eq-ok (ok value) next h = (value, refl, h)
