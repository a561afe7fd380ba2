-- ===== src/Intake/Payload/Conditions.antt =====
-- What the guards of `validatePayloadAndTotals` say, one by one.
use cmorflow_tax_api.Common.{
  str_eq_iff, str_eq, ◌≢◌, String, Bool-cases, ==_iff, ◌<◌, ℕ, sym, ◌||◌, ◌==◌, any, inr, inl, ◌&&◌,
  arith, not, all, truthy, refl, is_some, ◌⊎◌, All, ◌↔◌, true, false, ◌≡◌, List, Bool, none, some,
  Option, [], ◌∷◌,
}
use cmorflow_tax_api.Totals.{DteTotals, is_exempt_type}
use cmorflow_tax_api.Totals.Retention.{IsRetained, not_retained, retained}
use cmorflow_tax_api.Intake.Payload.{is_note, is_present, is_nonempty, is_nonzero}

pub not-true : {b : Bool} → not b ≡ true → b ≡ false
not-true {b} h = ground (arith, h)

pub one_none_iff :
    {A : Type 0} (a b : Option A)
    → (not (is_some a && is_some b) ≡ true) ↔ ((a ≡ none) ⊎ (b ≡ none))
one_none_iff none b = (λ _. inl refl, λ _. refl)
one_none_iff (some x) none = (λ _. inr refl, λ _. refl)
one_none_iff (some x) (some y) = (λ h. cc h, λ h. elim h [ inl e ↦ cc e | inr e ↦ cc e ])

-- A guard `!a || b`.
pub unless_iff : (a b : Bool) → ((not a || b) ≡ true) ↔ (a ≡ true → b ≡ true)
unless_iff true b = (λ h _. h, λ h. h refl)
unless_iff false b = (λ _ h. cc h, λ _. refl)

-- A guard `!(a && b)`.
pub never_iff : (a b : Bool) → (not (a && b) ≡ true) ↔ (a ≡ true → not b ≡ true)
never_iff true b = (λ h _. h, λ h. h refl)
never_iff false b = (λ _ h. cc h, λ _. refl)

-- `n` is one of a list, as one equation or another.
abbrev pub IsOneOf : ℕ → List ℕ → Type 0
IsOneOf n [] = ⊥
IsOneOf n (x ∷ xs) = (n ≡ x) ⊎ IsOneOf n xs

pub any_iff : (n : ℕ) (xs : List ℕ) → (any (λ x. x == n) xs ≡ true) ↔ IsOneOf n xs
any_iff n [] = (λ h. cc h, λ h. absurd h)
any_iff n (x ∷ xs) = (
  λ h. elim (Bool-cases (x == n)) [
    | inl e ↦ inl (sym ((==_iff x n).0 e))
    | inr e ↦ inr ((any_iff n xs).0 (cc (h, e)))
  ],
  λ h. elim h [
    | inl e ↦ let same : (x == n) ≡ true = (==_iff x n).1 (sym e) in rw same refl
    | inr k ↦ let rest = (any_iff n xs).1 k in ground (arith, rest)
  ],
)

pub is_note_iff : (n : ℕ) → (is_note n ≡ true) ↔ IsOneOf n (56 ∷ 61 ∷ [])
unfolding is_note
is_note_iff n = (
  λ h. elim (Bool-cases (n == 56)) [
    | inl e ↦ inl (ground arith)
    | inr e ↦ inr (inl (ground arith))
  ],
  λ h. elim h [ inl e ↦ rw e refl | inr (inl e) ↦ rw e refl | inr (inr e) ↦ absurd e ],
)

pub is_exempt_type_iff : (n : ℕ) → (is_exempt_type n ≡ true) ↔ IsOneOf n (34 ∷ 41 ∷ [])
unfolding is_exempt_type
is_exempt_type_iff n = (
  λ h. elim (Bool-cases (n == 34)) [
    | inl e ↦ inl (ground arith)
    | inr e ↦ inr (inl (ground arith))
  ],
  λ h. elim h [ inl e ↦ rw e refl | inr (inl e) ↦ rw e refl | inr (inr e) ↦ absurd e ],
)

-- The types of `supported`.
abbrev pub supported_types : List ℕ
supported_types = 33 ∷ 34 ∷ 39 ∷ 41 ∷ 46 ∷ 52 ∷ 56 ∷ 61 ∷ []

-- A text that is there and not empty, a list that is there and not empty, a number that is there and not 0.
abbrev pub HasText : Option String → Type 0
HasText o = (s : String) × (o ≡ some s) × (s ≢ "")

abbrev pub HasItems {ℓ} : {A : Type ℓ} → Option (List A) → Type ℓ
HasItems {A} o = (xs : List A) × (o ≡ some xs) × (xs ≢ [])

abbrev pub HasNumber : Option ℕ → Type 0
HasNumber o = (n : ℕ) × (o ≡ some n) × (0 < n)

pub truthy_iff : (o : Option String) → (is_some (truthy o) ≡ true) ↔ HasText o
truthy_iff none = (λ h. cc h, λ (s, e, _). cc e)
truthy_iff (some s) = elim (Bool-cases (str_eq s "")) [
  | inl e ↦
      rw (e, truthy)
        (λ h. cc h, λ (t, same, full). absurd (full (cc (same, (str_eq_iff s "").0 e))))
  | inr e ↦ rw (e, truthy) (λ h. (s, refl, λ empty. cc (e, (str_eq_iff s "").1 empty)), λ h. refl)
]

pub both_iff :
    (a b : Option String)
    → ((is_some (truthy a) && is_some (truthy b)) ≡ true) ↔ (HasText a × HasText b)
both_iff a b = (
  λ h.
      let x : is_some (truthy a) ≡ true = ground arith in
      let y : is_some (truthy b) ≡ true = ground arith in ((truthy_iff a).0 x, (truthy_iff b).0 y),
  λ (x, y). cc ((truthy_iff a).1 x, (truthy_iff b).1 y),
)

pub is_nonempty_iff {ℓ} : {A : Type ℓ} (xs : List A) → (is_nonempty xs ≡ true) ↔ (xs ≢ [])
is_nonempty_iff [] = (λ h. cc h, λ h. absurd (h refl))
is_nonempty_iff (x ∷ xs) = (λ h e. cc e, λ h. refl)

pub is_present_iff {ℓ} : {A : Type ℓ} (o : Option (List A)) → (is_present o ≡ true) ↔ HasItems o
is_present_iff none = (λ h. cc h, λ (xs, e, _). cc e)
is_present_iff (some []) = (λ h. cc h, λ (xs, e, full). absurd (full (cc e)))
is_present_iff (some (x ∷ xs)) = (λ h. (x ∷ xs, refl, λ e. cc e), λ h. refl)

pub is_nonzero_iff : (o : Option ℕ) → (is_nonzero o ≡ true) ↔ HasNumber o
is_nonzero_iff none = (λ h. cc h, λ (n, e, _). cc e)
is_nonzero_iff (some n) =
    (λ h. (n, refl, ground arith), λ (m, e, above). let same : n ≡ m = ground arith in ground arith)

pub all_iff {ℓ} :
    {A : Type ℓ} (f : A → Bool) (xs : List A) → (all f xs ≡ true) ↔ All (λ x. f x ≡ true) xs
all_iff f [] = (λ h. tt, λ h. refl)
all_iff f (x ∷ xs) = (
  λ h.
      let here : f x ≡ true = ground arith in
      let rest : all f xs ≡ true = ground arith in (here, (all_iff f xs).0 rest),
  λ (here, rest). cc (here, (all_iff f xs).1 rest),
)

pub none_iff {ℓ} :
    {A : Type ℓ} (f : A → Bool) (xs : List A) → (not (any f xs) ≡ true) ↔ All (λ x. f x ≡ false) xs
none_iff f [] = (λ h. tt, λ h. refl)
none_iff f (x ∷ xs) = (
  λ h.
      let here : f x ≡ false = ground arith in
      let rest : not (any f xs) ≡ true = ground arith in (here, (none_iff f xs).0 rest),
  λ (here, rest). cc (here, (none_iff f xs).1 rest),
)

-- Conditions that mean the same give implications that do.
pub implies_iff : {a b : Type 0} {c e : Type 0} → (a ↔ b) → (c ↔ e) → (a → c) ↔ (b → e)
implies_iff p q = (λ f x. q.0 (f (p.1 x)), λ f x. q.1 (f (p.0 x)))

pub same_iff : {a : Type 0} → a ↔ a
same_iff = (λ x. x, λ x. x)

pub both : {a b c : Type 0} → (a ↔ b) → (b ↔ c) → a ↔ c
both p q = (λ x. q.0 (p.0 x), λ x. p.1 (q.1 x))

-- Without retentions the totals stay.
pub kept-whole : (c t : DteTotals) → IsRetained [] c t → t ≡ c
kept-whole c t (not_retained h e) = e
kept-whole c t (retained n x p s q e) = absurd (omega (arith, p, s))
