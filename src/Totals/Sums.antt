-- ===== src/Totals/Sums.antt =====
-- The loop of `calculateTotals` over the lines: it adds up their shares.
use cmorflow_tax_api.Common.{
  bind-ok, ap, ◌==◌, [], ◌∷◌, ◌||◌, List, inr, Bool-cases, ◌⊎◌, ◌≢◌, true, inl, false, ◌≤◌, refl,
  arith, ok-inj, subst, none, some, Option, ok, ◌^◌, ◌+◌, ◌≡◌, ◌<◌, ℕ,
}
use cmorflow_tax_api.Totals.{
  add_line, add_lines, add_amount, Doubles, DteLineItem, ItemDiscount, PricingMode, gross_prices,
  net_prices, apply_item_discount, is_exempt_type, is_gross_mode, net_of_gross,
}
use cmorflow_tax_api.Totals.Rounding.{IsAccurate, IsReadable, net_of_gross-nearest}
use cmorflow_tax_api.Totals.Lines.{
  Share, sum_of, IsExempt, IsTaxed, IsPlaced, IsShare, AreShares, AreReadable, gross_sum,
  exempt_line, net_line, gross_line, apply_item_discount-Discounts,
}

mode-cases :
    (mode : Option PricingMode)
    → ((is_gross_mode mode ≡ true) × (mode ≡ some gross_prices))
      ⊎ ((is_gross_mode mode ≡ false) × (mode ≢ some gross_prices))
mode-cases none = inr (refl, λ h. cc h)
mode-cases (some gross_prices) = inl (refl, refl)
mode-cases (some net_prices) = inr (refl, λ h. cc h)

module _ {W : Type 0} ⦃d : Doubles W⦄ where
  -- A turn of the loop adds the share of its line to the sums.
  pub record AddsLine (law : IsAccurate d) (type : ℕ) (mode : Option PricingMode)
      (item : DteLineItem W) (sums out : ℕ × ℕ) : Type 0 where
    pub share : Share
    pub is_share : IsShare law type mode item share
    pub taxed : out.0 ≡ sums.0 + share.taxed
    pub exempt : out.1 ≡ sums.1 + share.exempt
    pub bounded : share.taxed ≤ d.product item.quantity item.price

  -- The loop over the lines adds their shares to the sums.
  pub record Adds (law : IsAccurate d) (type : ℕ) (mode : Option PricingMode)
      (items : List (DteLineItem W)) (sums out : ℕ × ℕ) : Type 0 where
    pub shares : List Share
    pub are_shares : AreShares law type mode items shares
    pub taxed : out.0 ≡ sums.0 + sum_of Share.taxed shares
    pub exempt : out.1 ≡ sums.1 + sum_of Share.exempt shares
    pub bounded : sum_of Share.taxed shares ≤ gross_sum items

  -- An amount is put where it belongs.
  pub record Puts (type : ℕ) (mode : Option PricingMode) (item : DteLineItem W) (r : ItemDiscount W)
      (sums out : ℕ × ℕ) : Type 0 where
    pub share : Share
    pub discount : share.discount ≡ r.discount_amount
    pub net : share.net ≡ r.net_amount
    pub placed : IsPlaced type mode item share
    pub taxed : out.0 ≡ sums.0 + share.taxed
    pub exempt : out.1 ≡ sums.1 + share.exempt
    pub bounded : share.taxed ≤ r.net_amount

  exempt-cases :
      (type : ℕ) (item : DteLineItem W)
      → (((is_exempt_type type || item.exempt) ≡ true) × IsExempt type item)
        ⊎ (((is_exempt_type type || item.exempt) ≡ false) × IsTaxed type item)
  unfolding is_exempt_type
  exempt-cases type item = elim (Bool-cases (type == 34)) [
    | inl a ↦ inl (ground arith, inl (ground arith))
    | inr a ↦ elim (Bool-cases (type == 41)) [
      | inl b ↦ inl (ground arith, inr (inl (ground arith)))
      | inr b ↦ elim (Bool-cases item.exempt) [
        | inl e ↦ inl (ground arith, inr (inr e))
        | inr e ↦ inr (ground arith, (λ h. ground arith, λ h. ground arith, e))
      ]
    ]
  ]

  pub add_amount-Puts :
      (type : ℕ) (mode : Option PricingMode) (item : DteLineItem W) (r : ItemDiscount W)
      (sums : ℕ × ℕ)
      → Puts type mode item r sums
          (add_amount (is_exempt_type type || item.exempt) (is_gross_mode mode) r.net_amount sums)
  unfolding add_amount
  add_amount-Puts type mode item r sums = elim (exempt-cases type item) [
    | inl (e, exempt) ↦
        rw (e, add_amount)
          (record {
            share = record {
              discount = r.discount_amount;
              net = r.net_amount;
              taxed = 0;
              exempt = r.net_amount;
            };
            discount = refl;
            net = refl;
            placed = exempt_line exempt refl refl;
            taxed = omega arith;
            exempt = refl;
            bounded = omega arith;
          })
    | inr (e, taxed) ↦ elim (mode-cases mode) [
      | inl (g, gross) ↦
          let near = net_of_gross-nearest r.net_amount in
          rw (e, g, add_amount)
            (record {
              share = record {
                discount = r.discount_amount;
                net = r.net_amount;
                taxed = net_of_gross r.net_amount;
                exempt = 0;
              };
              discount = refl;
              net = refl;
              placed = gross_line taxed gross near refl;
              taxed = refl;
              exempt = omega arith;
              bounded = omega (arith, near.0);
            })
      | inr (g, net) ↦
          rw (e, g, add_amount)
            (record {
              share = record {
                discount = r.discount_amount;
                net = r.net_amount;
                taxed = r.net_amount;
                exempt = 0;
              };
              discount = refl;
              net = refl;
              placed = net_line taxed net refl refl;
              taxed = refl;
              exempt = omega arith;
              bounded = omega arith;
            })
    ]
  ]

  add_line-AddsLine :
      (law : IsAccurate d) (type : ℕ) (mode : Option PricingMode) (i : DteLineItem W)
      (sums out : ℕ × ℕ)
      → d.product i.quantity i.price < 2 ^ 36
      → IsReadable law i.discount_percentage
      → add_line (is_exempt_type type) (is_gross_mode mode) i sums ≡ ok out
      → AddsLine law type mode i sums out
  unfolding add_line
  add_line-AddsLine law type mode i sums out small readable h =
      let (r, e, k) = bind-ok (apply_item_discount i) _ out h in
      let (balance, discounted) = apply_item_discount-Discounts law i r small readable e in
      let put = add_amount-Puts type mode i r sums in
      subst (AddsLine law type mode i sums) (ok-inj k) (record {
        share = put.share;
        is_share = record {
          balance = omega (arith, put.net, put.discount, balance);
          discounted = rw put.discount discounted;
          placed = put.placed;
        };
        taxed = put.taxed;
        exempt = put.exempt;
        bounded = omega (arith, put.bounded, balance);
      })

  pub add_lines-Adds :
      (law : IsAccurate d) (type : ℕ) (mode : Option PricingMode) (items : List (DteLineItem W))
      (sums out : ℕ × ℕ)
      → gross_sum items < 2 ^ 36
      → AreReadable law items
      → add_lines (is_exempt_type type) (is_gross_mode mode) items sums ≡ ok out
      → Adds law type mode items sums out
  unfolding add_lines
  add_lines-Adds law type mode [] sums out small readable h =
      let e = ok-inj h in
      record {
        shares = [];
        are_shares = tt;
        taxed = ground (arith, ap (λ x. x.0) e);
        exempt = ground (arith, ap (λ x. x.1) e);
        bounded = omega arith;
      }
  add_lines-Adds law type mode (i ∷ items) sums out small readable h =
      let (next, e, k) =
        bind-ok (add_line (is_exempt_type type) (is_gross_mode mode) i sums) _ out h in
      let a = add_line-AddsLine law type mode i sums next (omega (arith, small)) readable.0 e in
      let b = add_lines-Adds law type mode items next out (omega (arith, small)) readable.1 k in
      record {
        shares = a.share ∷ b.shares;
        are_shares = (a.is_share, b.are_shares);
        taxed = omega (arith, a.taxed, b.taxed);
        exempt = omega (arith, a.exempt, b.exempt);
        bounded = omega (arith, a.bounded, b.bounded);
      }
