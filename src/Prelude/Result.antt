-- ===== src/Prelude/Result.antt =====
-- Go's pair of a value and an error, where the value is read only if the error is nil.
use mathlib.Core.Logic.{◌⊎◌, inl, inr}
use mathlib.Core.Path.{◌≡◌, refl}

pub data Result {ℓ κ} (E : Type ℓ) (A : Type κ) : Type (ℓ ⊔ κ) where
  ok : A → Result E A
  err : E → Result E A

infixl 5 ◌>>=◌
abbrev pub ◌>>=◌ {ℓ κ μ} :
    {E : Type ℓ} {A : Type κ} {B : Type μ} → Result E A → (A → Result E B) → Result E B
ok a >>= f = f a
err e >>= f = err e

-- where a chain ends well, its first step did, with the value that the rest was given
pub >>=-eq-ok {ℓ κ μ} :
    {E : Type ℓ} {First : Type κ} {Last : Type μ} (step : Result E First)
    (rest : First → Result E Last) {last : Last}
    → (step >>= rest) ≡ ok last
    → (first : First) × (step ≡ ok first) × (rest first ≡ ok last)
>>=-eq-ok (err problem) rest chain = cc
>>=-eq-ok (ok first) rest chain = (first, refl, chain)

pub ok-injective {ℓ κ} :
    {E : Type ℓ} {A : Type κ} (a b : A) → ◌≡◌ {A = Result E A} (ok a) (ok b) → b ≡ a
ok-injective a b h = cc

pub Result-cases {ℓ κ} :
    {E : Type ℓ} {A : Type κ} (r : Result E A) → ((a : A) × (r ≡ ok a)) ⊎ ((e : E) × (r ≡ err e))
Result-cases (ok a) = inl (a, refl)
Result-cases (err e) = inr (e, refl)
