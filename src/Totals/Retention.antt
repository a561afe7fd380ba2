-- ===== src/Totals/Retention.antt =====
-- The retentions of a document, which come off its total.
use cmorflow_tax_api.Common.{
  sym, leb, ◌↔◌, subst, Bool-cases, arith, refl, inl, inr, ◌≡◌, ◌≤◌, ◌<◌, ◌+◌, ◌-◌, ◌⊎◌, ℕ, List,
  Signed, plus, minus, some, suc, zero, [], ◌∷◌,
}
use cmorflow_tax_api.Totals.{
  DteTotals, add_signed, sum_signed, difference, positive_part, with_retention,
}

abbrev pub plus_part : Signed → ℕ
plus_part (plus n) = n
plus_part (minus n) = 0

abbrev pub minus_part : Signed → ℕ
minus_part (plus n) = 0
minus_part (minus n) = n

abbrev pub sum_parts : (Signed → ℕ) → List Signed → ℕ
sum_parts part [] = 0
sum_parts part (x ∷ xs) = part x + sum_parts part xs

-- `r` is `a` less `b`.
abbrev pub IsDifference : ℕ → ℕ → Signed → Type 0
IsDifference a b r = ((b ≤ a) × (r ≡ plus (a - b))) ⊎ ((a < b) × (r ≡ minus (b - a)))

-- The totals `c` of the lines become `t`: as they are where the retentions do not sum up to more than 0;
-- else with that sum as the retention, and less it in the total.
pub data IsRetained (retentions : List Signed) (c t : DteTotals) : Type 0 where
  not_retained :
      sum_parts plus_part retentions ≤ sum_parts minus_part retentions
      → t ≡ c
      → IsRetained retentions c t
  retained :
      (n : ℕ) (total : Signed)
      → 0 < n
      → sum_parts plus_part retentions ≡ n + sum_parts minus_part retentions
      → IsDifference (c.net_amount + c.exempt_amount + c.iva_amount) n total
      → t ≡ record c { retention_amount = some n; total_amount = total }
      → IsRetained retentions c t

difference-IsDifference : (a b : ℕ) → IsDifference a b (difference a b)
unfolding difference
difference-IsDifference a b = elim (Bool-cases (leb b a)) [
  | inl e ↦ rw (e, difference) (inl (ground arith, refl))
  | inr e ↦ rw (e, difference) (inr (ground arith, refl))
]

IsDifference-parts :
    (a b : ℕ) (r : Signed) → IsDifference a b r → plus_part r + b ≡ minus_part r + a
IsDifference-parts a b r (inl (h, e)) = rw e (omega arith)
IsDifference-parts a b r (inr (h, e)) = rw e (omega arith)

IsDifference-unique : (a b : ℕ) (r s : Signed) → IsDifference a b r → IsDifference a b s → r ≡ s
IsDifference-unique a b r s (inl (h, e)) (inl (k, f)) = cc (e, f)
IsDifference-unique a b r s (inl (h, e)) (inr (k, f)) = absurd (omega (arith, h, k))
IsDifference-unique a b r s (inr (h, e)) (inl (k, f)) = absurd (omega (arith, h, k))
IsDifference-unique a b r s (inr (h, e)) (inr (k, f)) = cc (e, f)

add_signed-parts :
    (a b : Signed)
    → plus_part (add_signed a b) + minus_part a + minus_part b
      ≡ minus_part (add_signed a b) + plus_part a + plus_part b
unfolding add_signed
add_signed-parts (plus a) (plus b) = omega arith
add_signed-parts (plus a) (minus b) =
    omega (arith, IsDifference-parts a b _ (difference-IsDifference a b))
add_signed-parts (minus a) (plus b) =
    omega (arith, IsDifference-parts b a _ (difference-IsDifference b a))
add_signed-parts (minus a) (minus b) = omega arith

sum_signed-parts :
    (acc : Signed) (xs : List Signed)
    → plus_part (sum_signed acc xs) + minus_part acc + sum_parts minus_part xs
      ≡ minus_part (sum_signed acc xs) + plus_part acc + sum_parts plus_part xs
unfolding sum_signed
sum_signed-parts acc [] = omega arith
sum_signed-parts acc (x ∷ xs) =
    omega (arith, sum_signed-parts (add_signed acc x) xs, add_signed-parts acc x)

-- What a sum says of the retentions.
abbrev Balances : List Signed → Signed → Type 0
Balances xs r = plus_part r + sum_parts minus_part xs ≡ minus_part r + sum_parts plus_part xs

with_retention-IsRetained :
    (xs : List Signed) (r : Signed) (c : DteTotals)
    → Balances xs r
    → IsRetained xs c (with_retention (positive_part r) c)
unfolding with_retention
with_retention-IsRetained xs (plus zero) c h = not_retained (omega (arith, h)) refl
with_retention-IsRetained xs (plus (suc n)) c h =
    retained (suc n) _ (omega arith) (omega (arith, h)) (difference-IsDifference _ (suc n)) refl
with_retention-IsRetained xs (minus n) c h = not_retained (omega (arith, h)) refl

-- The retentions determine the totals.
IsRetained-unique :
    (xs : List Signed) (c t u : DteTotals) → IsRetained xs c t → IsRetained xs c u → t ≡ u
IsRetained-unique xs c t u (not_retained h e) (not_retained k f) = cc (e, f)
IsRetained-unique xs c t u (not_retained h e) (retained n x p s q f) =
    absurd (omega (arith, h, p, s))
IsRetained-unique xs c t u (retained n x p s q f) (not_retained h e) =
    absurd (omega (arith, h, p, s))
IsRetained-unique xs c t u (retained n x p s q e) (retained m y p' s' q' f) =
    let same : n ≡ m = omega (arith, s, s') in
    let equal = IsDifference-unique _ n x y q (
      subst (λ m. IsDifference (c.net_amount + c.exempt_amount + c.iva_amount) m y) (sym same)
        q') in
    cc (e, f, same, equal)

pub with_retention_iff :
    (xs : List Signed) (c t : DteTotals)
    → (with_retention (positive_part (sum_signed (plus 0) xs)) c ≡ t) ↔ IsRetained xs c t
with_retention_iff xs c t =
    let here =
      with_retention-IsRetained xs (sum_signed (plus 0) xs) c
        (omega (arith, sum_signed-parts (plus 0) xs)) in
    (λ h. subst (IsRetained xs c) h here, λ h. IsRetained-unique xs c _ t here h)
