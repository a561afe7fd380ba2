-- ===== src/Rut/Mistakes.antt =====
-- Mistakes in a RUT that its check digit detects.
use cmorflow_tax_api.Common.{
  inr, sym, subst, ◌⊎◌, inl, ==_iff, refl, ◌∙◌, ◌&&◌, true, ap, [], ◌+◌, ◌++◌, is_digit, false,
  arith, all, ◌≤◌, ◌≡◌, ◌∷◌, ◌-◌, Bool, ℕ, List,
}
use Prim.Native.Nat.{◌%◌, ◌*◌}
use cmorflow_tax_api.Rut.{next_multiplier, weighted_sum, expected_dv, is_valid_reversed}

-- The sum as a function of one digit of the body.
record IsLinear (f : ℕ → ℕ) : Type 0 where
  weight : ℕ
  rest : ℕ
  low : 2 ≤ weight
  high : weight ≤ 7
  sum : (c : ℕ) → f c ≡ (c - b'0') * weight + rest

weighted_sum-IsLinear :
    (m : ℕ) (xs ys : List ℕ) → 2 ≤ m → m ≤ 7 → IsLinear (λ c. weighted_sum m (xs ++ (c ∷ ys)))
unfolding weighted_sum
weighted_sum-IsLinear m [] ys low high = record {
  weight = m;
  rest = weighted_sum (next_multiplier m) ys;
  low = low;
  high = high;
  sum = λ c. refl;
}
weighted_sum-IsLinear m (x ∷ xs) ys low high =
    let inner = weighted_sum-IsLinear (next_multiplier m) xs ys (ground arith) (ground arith) in
    record {
      weight = inner.weight;
      rest = (x - b'0') * m + inner.rest;
      low = inner.low;
      high = inner.high;
      sum = λ c.
          ap (λ s. (x - b'0') * m + s) (inner.sum c)
          ∙ swap ((x - b'0') * m) ((c - b'0') * inner.weight) inner.rest;
    }
  where
    swap : (a b c : ℕ) → a + (b + c) ≡ b + (a + c)
    swap a b c = omega arith

expected_dv-inj : (s t : ℕ) → expected_dv s ≡ expected_dv t → s % 11 ≡ t % 11
unfolding expected_dv
expected_dv-inj s t h = ground arith

weight-cases :
    (w : ℕ) → 2 ≤ w → w ≤ 7 → (w ≡ 2) ⊎ ((w ≡ 3) ⊎ ((w ≡ 4) ⊎ ((w ≡ 5) ⊎ ((w ≡ 6) ⊎ (w ≡ 7)))))
weight-cases w low high = ground arith

-- The weights have no factor in common with 11.
digit-determined :
    (x y w k : ℕ) → x ≤ 9 → y ≤ 9 → 2 ≤ w → w ≤ 7 → (x * w + k) % 11 ≡ (y * w + k) % 11 → x ≡ y
digit-determined x y w k hx hy low high h = elim (weight-cases w low high) [
  | inl e ↦ let g = subst (λ v. (x * v + k) % 11 ≡ (y * v + k) % 11) e h in omega arith
  | inr (inl e) ↦ let g = subst (λ v. (x * v + k) % 11 ≡ (y * v + k) % 11) e h in omega arith
  | inr (inr (inl e)) ↦ let g = subst (λ v. (x * v + k) % 11 ≡ (y * v + k) % 11) e h in omega arith
  | inr (inr (inr (inl e))) ↦
      let g = subst (λ v. (x * v + k) % 11 ≡ (y * v + k) % 11) e h in omega arith
  | inr (inr (inr (inr (inl e)))) ↦
      let g = subst (λ v. (x * v + k) % 11 ≡ (y * v + k) % 11) e h in omega arith
  | inr (inr (inr (inr (inr e)))) ↦
      let g = subst (λ v. (x * v + k) % 11 ≡ (y * v + k) % 11) e h in omega arith
]

all-middle : (p : ℕ → Bool) (xs ys : List ℕ) (c : ℕ) → all p (xs ++ (c ∷ ys)) ≡ true → p c ≡ true
all-middle p [] ys c h = ground arith
all-middle p (x ∷ xs) ys c h = all-middle p xs ys c (ground arith)

-- A mistake in one digit of the body is always detected: two valid RUTs with the same check digit whose
-- bodies differ in at most one place are equal.
pub is_valid_reversed_detects :
    (dv a b : ℕ) (xs ys : List ℕ)
    → is_valid_reversed (dv ∷ (xs ++ (a ∷ ys))) ≡ true
    → is_valid_reversed (dv ∷ (xs ++ (b ∷ ys))) ≡ true
    → a ≡ b
unfolding is_valid_reversed
is_valid_reversed_detects dv a b xs ys ha hb =
    let (digits_a, dv_a) = both (all is_digit (xs ++ (a ∷ ys))) _ ha in
    let (digits_b, dv_b) = both (all is_digit (xs ++ (b ∷ ys))) _ hb in
    let line = weighted_sum-IsLinear 2 xs ys (omega arith) (omega arith) in
    let same : expected_dv (weighted_sum 2 (xs ++ (a ∷ ys)))
        ≡ expected_dv (weighted_sum 2 (xs ++ (b ∷ ys))) =
      (==_iff (expected_dv (weighted_sum 2 (xs ++ (a ∷ ys)))) dv).0 dv_a
      ∙ sym ((==_iff (expected_dv (weighted_sum 2 (xs ++ (b ∷ ys)))) dv).0 dv_b) in
    let sums : ((a - b'0') * line.weight + line.rest) % 11
        ≡ ((b - b'0') * line.weight + line.rest) % 11 =
      ap (λ s. s % 11) (sym (line.sum a))
      ∙ expected_dv-inj _ _ same
      ∙ ap (λ s. s % 11) (line.sum b) in
    let digit_a = all-middle is_digit xs ys a digits_a in
    let digit_b = all-middle is_digit xs ys b digits_b in
    let equal : a - b'0' ≡ b - b'0' =
      digit-determined (a - b'0') (b - b'0') line.weight line.rest (ground arith) (ground arith)
        line.low line.high sums in
    ground arith
  where
    both : (p q : Bool) → (p && q) ≡ true → (p ≡ true) × (q ≡ true)
    both true q h = (refl, h)
    both false q h = cc h
