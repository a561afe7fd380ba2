-- ===== src/Totals/Gross.antt =====
-- Documents whose prices include IVA.
use cmorflow_tax_api.Common.{
  inr, inl, ◌≢◌, length, zero, suc, refl, plus, ◌≤◌, ◌^◌, ◌<◌, ◌*◌, false, arith, ◌+◌, ◌≡◌, List, ℕ,
  none, some, ok, [], ◌∷◌,
}
use cmorflow_tax_api.Totals.{gross_prices, Doubles, DteLineItem, DteTotals, calculate_totals}
use cmorflow_tax_api.Totals.Rounding.{IsAccurate}
use cmorflow_tax_api.Totals.Lines.{
  Share, sum_of, AreShares, IsPlaced, AreReadable, gross_sum, exempt_line, net_line, gross_line,
}
use cmorflow_tax_api.Totals.Document.{
  IsGlobal, no_global, not_positive, global_off, calculate_totals-IsBalanced,
}

-- `a` and `b` are at most `n` apart.
abbrev pub Within : ℕ → ℕ → ℕ → Type 0
Within n a b = (a ≤ b + n) × (b ≤ a + n)

-- The taxed part of `k` lines is, line by line, the amount by 1.19 to the nearest peso.
abbrev Near : ℕ → ℕ → ℕ → Type 0
Near k n s = (238 * n ≤ 200 * s + 119 * k) × (200 * s ≤ 238 * n + 119 * k)

gross_total-Near :
    (k s n net exempt iva : ℕ)
    → Near k n s
    → net ≡ n
    → exempt ≡ 0
    → (19 * net ≤ 100 * iva + 50) × (100 * iva ≤ 19 * net + 50)
    → (k ≡ 0 → s ≡ 0)
    → Within k (net + exempt + iva) s
gross_total-Near zero s n net exempt iva near e x vat none_left =
    let z = none_left refl in (omega (arith, near, vat, z), omega (arith, near, vat, z))
gross_total-Near (suc k) s n net exempt iva near e x vat none_left =
    (omega (arith, near, vat), omega (arith, near, vat))

module _ {W : Type 0} ⦃d : Doubles W⦄ where
  placed-gross :
      (type : ℕ) (item : DteLineItem W) (s : Share)
      → type ≢ 34
      → type ≢ 41
      → item.exempt ≡ false
      → IsPlaced type (some gross_prices) item s
      → Near 1 s.taxed s.net × (s.exempt ≡ 0)
  placed-gross type item s a b c (exempt_line e t x) =
      absurd (elim e [ inl e ↦ a e | inr (inl e) ↦ b e | inr (inr e) ↦ cc (e, c) ])
  placed-gross type item s a b c (net_line e m t x) = absurd (m refl)
  placed-gross type item s a b c (gross_line e m t x) =
      ((omega (arith, t.0), omega (arith, t.1)), x)

  abbrev pub AreTaxed : List (DteLineItem W) → Type 0
  AreTaxed [] = Unit
  AreTaxed (i ∷ items) = (i.exempt ≡ false) × AreTaxed items

  shares-Near :
      (law : IsAccurate d) (type : ℕ) (items : List (DteLineItem W)) (shares : List Share)
      → type ≢ 34
      → type ≢ 41
      → AreTaxed items
      → AreShares law type (some gross_prices) items shares
      → Near (length items) (sum_of Share.taxed shares) (sum_of Share.net shares)
        × (sum_of Share.exempt shares ≡ 0)
        × (length items ≡ 0 → sum_of Share.net shares ≡ 0)
  shares-Near law type [] [] a b t h = ((omega arith, omega arith), refl, λ e. refl)
  shares-Near law type [] (s ∷ shares) a b t h = absurd h
  shares-Near law type (i ∷ items) [] a b t h = absurd h
  shares-Near law type (i ∷ items) (s ∷ shares) a b t h =
      let (near, none_here) = placed-gross type i s a b t.0 (h.0).placed in
      let (rest, none_there, _) = shares-Near law type items shares a b t.1 h.1 in
      (
        (omega (arith, near.0, rest.0), omega (arith, near.1, rest.1)),
        omega (arith, none_here, none_there),
        λ e. omega (arith, e),
      )

  no_global-zero : (law : IsAccurate d) (net off : ℕ) → IsGlobal law net none off → off ≡ 0
  no_global-zero law net off (no_global e z) = z
  no_global-zero law net off (not_positive p e l z) = z
  no_global-zero law net off (global_off p e l n) = cc e

  -- The lines' shares of a document, and how far its total is from the sum of their amounts.
  pub record IsGrossTotal (law : IsAccurate d) (type : ℕ) (items : List (DteLineItem W))
      (t : DteTotals) : Type 0 where
    pub shares : List Share
    pub lines : AreShares law type (some gross_prices) items shares
    pub total : ℕ
    pub is_total : t.total_amount ≡ plus total
    pub near : Within (length items) total (sum_of Share.net shares)

  -- Prices that include IVA, without exempt lines or a discount of the document: the total is within one
  -- peso a line of the sum of the lines.
  pub calculate_totals-gross :
      (law : IsAccurate d) (type : ℕ) (items : List (DteLineItem W)) (t : DteTotals)
      → type ≢ 34
      → type ≢ 41
      → AreTaxed items
      → gross_sum items < 2 ^ 36
      → AreReadable law items
      → calculate_totals type items
          (record { global_discount_percentage = none; pricing_mode = some gross_prices })
        ≡ ok t
      → IsGrossTotal law type items t
  calculate_totals-gross law type items t a b taxed small readable h =
      let r = calculate_totals-IsBalanced law type items _ t small readable tt h in
      let (near, no_exempt, empty) = shares-Near law type items r.shares a b taxed r.lines in
      let off = no_global-zero law _ _ r.discount in
      record {
        shares = r.shares;
        lines = r.lines;
        total = t.net_amount + t.exempt_amount + t.iva_amount;
        is_total = r.total;
        near =
            gross_total-Near (length items) (sum_of Share.net r.shares)
              (sum_of Share.taxed r.shares) _ _ _ near (omega (arith, r.taxed, off))
              (omega (arith, r.exempt, no_exempt)) (r.vat_above, r.vat_below) empty;
      }
