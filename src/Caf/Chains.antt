-- ===== src/Caf/Chains.antt =====
-- Chains of tests, and tags that are required.
use cmorflow_tax_api.Caf.{err, CafError, is_nonempty, required_tag}
use cmorflow_tax_api.Common.{
  ok-inj, ◌>>=◌, Bool, ◌↔◌, sym, ◌>>◌, guard, Result, refl, false, ◌∷◌, true, ok, ap, ◌≡◌, [], ℕ,
  List, some,
}
use cmorflow_tax_api.Xml.{trim, element}

pub cons_of : (s : List ℕ) → is_nonempty s ≡ true → (c : ℕ) × (cs : List ℕ) × (s ≡ c ∷ cs)
cons_of [] h = cc h
cons_of (c ∷ cs) h = (c, cs, refl)

pub then_nothing : {E : Type 0} (m : Result E (Unit {0})) → (m >> ok tt) ≡ m
then_nothing (ok tt) = refl
then_nothing (err e) = refl

pub then_assoc :
    {E A : Type 0} (m n : Result E (Unit {0})) (k : Result E A) → ((m >> n) >> k) ≡ (m >> (n >> k))
then_assoc (ok tt) n k = refl
then_assoc (err e) n k = refl

pub required_text :
    (xml name v : List ℕ)
    → element true name xml ≡ some v
    → trim v ≡ v
    → is_nonempty v ≡ true
    → required_tag name xml ≡ ok v
unfolding required_tag
required_text xml name v found trimmed nonempty = rw (found, required_tag, trimmed, nonempty)

-- A chain of two tests with a value, and what is done with it.
pub chain_iff :
    {A : Type 0} (p q : Bool) (e1 e2 : CafError) (v a : A) (k : A → Result CafError A)
    → (((guard p e1 >> (guard q e2 >> ok v)) >>= k) ≡ ok a)
      ↔ ((p ≡ true) × (q ≡ true) × (k v ≡ ok a))
chain_iff true true e1 e2 v a k = (λ h. (refl, refl, h), λ h. h.2)
chain_iff false q e1 e2 v a k = (λ h. cc h, λ h. cc (h.0))
chain_iff true false e1 e2 v a k = (λ h. cc h, λ h. cc (h.1))

pub tests_iff :
    {A : Type 0} (p q : Bool) (e1 e2 : CafError) (v a : A)
    → ((guard p e1 >> (guard q e2 >> ok v)) ≡ ok a) ↔ ((p ≡ true) × (q ≡ true) × (a ≡ v))
tests_iff true true e1 e2 v a = (λ h. (refl, refl, sym (ok-inj h)), λ h. ap ok (sym (h.2)))
tests_iff false q e1 e2 v a = (λ h. cc h, λ h. cc (h.0))
tests_iff true false e1 e2 v a = (λ h. cc h, λ h. cc (h.1))
