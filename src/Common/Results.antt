-- ===== src/Common/Results.antt =====
-- Python's exceptions as values: `err e` is a raise of `e`.
use mathlib.Core.Path.{◌≡◌, refl}
use mathlib.Core.Bool.{Bool, true, false}
use mathlib.Core.Logic.{◌⊎◌, inl, inr}

pub data Result {ℓ} (X : Type 0) (A : Type ℓ) : Type ℓ where
  err : X → Result X A
  ok : A → Result X A

-- `if not test: raise raised`
abbrev pub guard : {X : Type 0} → Bool → X → Result X (Unit {0})
guard false raised = err raised
guard true raised = ok tt

module _ {ℓ κ} {X : Type 0} {A : Type ℓ} {B : Type κ} where
  infixl 5 ◌>>=◌
  abbrev pub ◌>>=◌ : Result X A → (A → Result X B) → Result X B
  err raised >>= rest = err raised
  ok value >>= rest = rest value

  -- A body that returns has a first statement that returns.
  pub >>=-eq-ok :
      (first : Result X A) (rest : A → Result X B) {out : B} (returned : (first >>= rest) ≡ ok out)
      → (value : A) × (first ≡ ok value) × (rest value ≡ ok out)
  >>=-eq-ok (err raised) rest returned = cc
  >>=-eq-ok (ok value) rest returned = (value, refl, returned)

infixl 5 ◌>>◌
abbrev pub ◌>>◌ {κ} : {X : Type 0} {B : Type κ} → Result X (Unit {0}) → Result X B → Result X B
check >> rest = check >>= λ _. rest

pub Result-cases {ℓ} :
    {X : Type 0} {A : Type ℓ} (r : Result X A)
    → ((value : A) × (r ≡ ok value)) ⊎ ((raised : X) × (r ≡ err raised))
Result-cases (ok value) = inl (value, refl)
Result-cases (err raised) = inr (raised, refl)
