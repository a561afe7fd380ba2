-- ===== src/Common/Results.antt =====
-- Thrown errors as values: `err` for a `throw`, with `do` blocks for a chain of steps.
use mathlib.Core.Path.{◌≡◌, refl}
use mathlib.Core.Logic.{◌⊎◌, ◌↔◌, inl, inr}
use mathlib.Core.Bool.{Bool, true, false}

pub data Result {ℓ} (E : Type 0) (A : Type ℓ) : Type ℓ where
  ok : A → Result E A
  err : E → Result E A

infixl 5 ◌>>=◌ ◌>>◌
abbrev pub ◌>>=◌ {ℓ κ} :
    {E : Type 0} {A : Type ℓ} {B : Type κ} → Result E A → (A → Result E B) → Result E B
ok a >>= f = f a
err e >>= f = err e

abbrev pub ◌>>◌ {ℓ} : {E : Type 0} {B : Type ℓ} → Result E (Unit {0}) → Result E B → Result E B
m >> k = m >>= λ _. k

-- `if (!b) throw e;`
abbrev pub guard : {E : Type 0} → Bool → E → Result E (Unit {0})
guard true e = ok tt
guard false e = err e

pub Result-cases {ℓ} :
    {E : Type 0} {A : Type ℓ} (r : Result E A) → ((a : A) × (r ≡ ok a)) ⊎ ((e : E) × (r ≡ err e))
Result-cases (ok a) = inl (a, refl)
Result-cases (err e) = inr (e, refl)

module _ {E : Type 0} {A : Type 0} where
  pub ok-inj : {a b : A} → Path (Result E A) (ok a) (ok b) → a ≡ b
  ok-inj h = cc h

  -- What a chain that succeeds has passed.
  pub guard-ok :
      (b : Bool) (e : E) (k : Result E A) (a : A)
      → (guard b e >> k) ≡ ok a
      → (b ≡ true) × (k ≡ ok a)
  guard-ok true e k a h = (refl, h)
  guard-ok false e k a h = cc h

  pub bind-ok :
      {B : Type 0} (m : Result E B) (k : B → Result E A) (a : A)
      → (m >>= k) ≡ ok a
      → (b : B) × (m ≡ ok b) × (k b ≡ ok a)
  bind-ok (ok b) k a h = (b, refl, h)
  bind-ok (err e) k a h = cc h

-- A chain succeeds exactly where both of its parts do.
pub then_iff :
    {E : Type 0} {B : Type 0} (m : Result E (Unit {0})) (k : Result E B) (b : B)
    → ((m >> k) ≡ ok b) ↔ ((m ≡ ok tt) × (k ≡ ok b))
then_iff (ok tt) k b = (λ h. (refl, h), λ h. h.1)
then_iff (err e) k b = (λ h. cc h, λ h. cc (h.0))

pub guard_iff : {E : Type 0} (b : Bool) (e : E) → (guard b e ≡ ok tt) ↔ (b ≡ true)
guard_iff true e = (λ h. refl, λ h. refl)
guard_iff false e = (λ h. cc h, λ h. cc h)
