-- ===== src/Totals/Lines.antt =====
-- The discount of a line and where the rest of it goes, described apart from the code: the share that a
-- line has in the totals of its document.
use cmorflow_tax_api.Totals.{
  discount_exceeds_gross, TotalsError, Doubles, DteLineItem, ItemDiscount, PricingMode,
  gross_prices, apply_item_discount, nonzero, percentage_discount, amount_discount,
}
use cmorflow_tax_api.Common.{
  ◌-◌, [], ◌∷◌, List, inr, Bool-cases, ◌⊎◌, ◌≢◌, true, inl, false, ◌≤◌, ◌*◌, refl, leb, guard-ok,
  arith, ok-inj, subst, none, some, Option, ok, ◌^◌, ◌+◌, ◌≡◌, ◌<◌, ℕ,
}
use cmorflow_tax_api.Totals.Rounding.{
  IsAccurate, IsNearest, IsReadable, check_percentage-IsPercentage, share-IsNearest,
}

-- What a line brings: its discount, what that leaves of it, and how much of this is taxed and exempt.
pub record Share : Type 0 where
  pub discount : ℕ
  pub net : ℕ
  pub taxed : ℕ
  pub exempt : ℕ

abbrev pub sum_of : (Share → ℕ) → List Share → ℕ
sum_of part [] = 0
sum_of part (s ∷ shares) = part s + sum_of part shares

module _ {W : Type 0} ⦃d : Doubles W⦄ where
  abbrev pub IsAbsent : Option W → Type 0
  IsAbsent none = Unit
  IsAbsent (some v) = d.eq v d.nought ≡ true

  abbrev pub IsGiven : Option W → W → Type 0
  IsGiven o v = (o ≡ some v) × (d.eq v d.nought ≡ false)

  -- A discount of a gross amount: nothing, where neither is given or is other than 0; the percentage's
  -- share to the nearest peso, where that one is alone; the fixed amount, rounded, where that one is.
  pub data IsDiscount (law : IsAccurate d) (gross : ℕ) (op oa : Option W) (off : ℕ) : Type 0 where
    no_discount : IsAbsent op → IsAbsent oa → off ≡ 0 → IsDiscount law gross op oa off
    percent_off :
        (p : W)
        → IsGiven op p
        → IsAbsent oa
        → IsNearest law gross p off
        → IsDiscount law gross op oa off
    fixed_off :
        (a : W) → IsAbsent op → IsGiven oa a → off ≡ d.rounded a → IsDiscount law gross op oa off

  abbrev pub IsExempt : ℕ → DteLineItem W → Type 0
  IsExempt type item = (type ≡ 34) ⊎ ((type ≡ 41) ⊎ (item.exempt ≡ true))

  abbrev pub IsTaxed : ℕ → DteLineItem W → Type 0
  IsTaxed type item = (type ≢ 34) × (type ≢ 41) × (item.exempt ≡ false)

  -- Where the amount of a line goes: a line that is exempt, or stands in an exempt document (34, 41), is
  -- exempt; the others are taxed, by their amount or, where prices include IVA, by the whole number
  -- nearest to their amount without it, the amount by 1.19.
  pub data IsPlaced (type : ℕ) (mode : Option PricingMode) (item : DteLineItem W) (s : Share)
      : Type 0 where
    exempt_line : IsExempt type item → s.taxed ≡ 0 → s.exempt ≡ s.net → IsPlaced type mode item s
    net_line :
        IsTaxed type item
        → mode ≢ some gross_prices
        → s.taxed ≡ s.net
        → s.exempt ≡ 0
        → IsPlaced type mode item s
    gross_line :
        IsTaxed type item
        → mode ≡ some gross_prices
        → (238 * s.taxed ≤ 200 * s.net + 119) × (200 * s.net ≤ 238 * s.taxed + 119)
        → s.exempt ≡ 0
        → IsPlaced type mode item s

  pub record IsShare (law : IsAccurate d) (type : ℕ) (mode : Option PricingMode)
      (item : DteLineItem W) (s : Share) : Type 0 where
    pub balance : s.net + s.discount ≡ d.product item.quantity item.price
    pub discounted :
        IsDiscount law
          (d.product item.quantity item.price)
          item.discount_percentage
          item.discount_amount
          s.discount
    pub placed : IsPlaced type mode item s

  nonzero-cases :
      (o : Option W)
      → ((nonzero o ≡ none) × IsAbsent o) ⊎ ((v : W) × (nonzero o ≡ some v) × IsGiven o v)
  unfolding nonzero
  nonzero-cases none = inl (refl, tt)
  nonzero-cases (some v) = elim (Bool-cases (d.eq v d.nought)) [
    | inl e ↦ inl (rw (e, nonzero) refl, e)
    | inr e ↦ inr (v, rw (e, nonzero) refl, (refl, e))
  ]

  abbrev without : ℕ → ℕ → ItemDiscount W
  without gross off = record {
    gross_amount = gross;
    discount_amount = off;
    net_amount = gross - off;
    percentage = none;
  }

  abbrev pub Discounts : IsAccurate d → DteLineItem W → ItemDiscount W → Type 0
  Discounts law item r =
      let gross = d.product item.quantity item.price in
      (r.net_amount + r.discount_amount ≡ gross)
      × IsDiscount law gross item.discount_percentage item.discount_amount r.discount_amount

  pub apply_item_discount-Discounts :
      (law : IsAccurate d) (item : DteLineItem W) (r : ItemDiscount W)
      → d.product item.quantity item.price < 2 ^ 36
      → IsReadable law item.discount_percentage
      → apply_item_discount item ≡ ok r
      → Discounts law item r
  unfolding apply_item_discount percentage_discount amount_discount
  apply_item_discount-Discounts law item r small readable h =
      elim (nonzero-cases item.discount_percentage) [
        | inl (np, absent_p) ↦ elim (nonzero-cases item.discount_amount) [
          | inl (na, absent_a) ↦
              subst (Discounts law item)
                (ok-inj {E = TotalsError}
                  {a = record (without (d.product item.quantity item.price) 0) {
                    net_amount = d.product item.quantity item.price;
                  }}
                  {b = r} (cc (h, np, na)))
                (omega arith, no_discount absent_p absent_a refl)
          | inr (a, na, given) ↦
              let (fits, k) =
                guard-ok (leb (d.rounded a) (d.product item.quantity item.price))
                  discount_exceeds_gross
                  (ok (without (d.product item.quantity item.price) (d.rounded a))) r
                  (cc (h, np, na)) in
              subst (Discounts law item)
                {x = without (d.product item.quantity item.price) (d.rounded a)} (ok-inj k)
                (ground (arith, fits), fixed_off a absent_p given refl)
        ]
        | inr (p, np, given) ↦ elim (nonzero-cases item.discount_amount) [
          | inl (na, absent_a) ↦
              let cut =
                record (without (d.product item.quantity item.price)
                  (d.share (d.product item.quantity item.price) p)) { percentage = some p } in
              let (valid, k) = check_percentage-IsPercentage p (ok cut) r (cc (h, np, na)) in
              let decimal : law.IsDecimal p = subst (IsReadable law) given.0 readable in
              let (near, le) =
                share-IsNearest law (d.product item.quantity item.price) p small valid decimal in
              subst (Discounts law item) {x = cut} (ok-inj k)
                (omega (arith, le), percent_off p given absent_a near)
          | inr (a, na, given_a) ↦ cc (h, np, na)
        ]
      ]

  -- The share of each line, in order.
  abbrev pub AreShares :
      IsAccurate d → ℕ → Option PricingMode → List (DteLineItem W) → List Share → Type 0
  AreShares law type mode [] [] = Unit
  AreShares law type mode (i ∷ items) (s ∷ shares) =
      IsShare law type mode i s × AreShares law type mode items shares
  AreShares law type mode _ _ = ⊥

  -- `Σ product` of the lines, and whether the percentages of all lines are readable.
  abbrev pub gross_sum : List (DteLineItem W) → ℕ
  gross_sum [] = 0
  gross_sum (i ∷ items) = d.product i.quantity i.price + gross_sum items

  abbrev pub AreReadable : IsAccurate d → List (DteLineItem W) → Type 0
  AreReadable law [] = Unit
  AreReadable law (i ∷ items) = IsReadable law i.discount_percentage × AreReadable law items
