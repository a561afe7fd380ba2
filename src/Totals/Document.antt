-- ===== src/Totals/Document.antt =====
-- What the totals of a document add up to.
use cmorflow_tax_api.Totals.{
  Doubles, DteLineItem, TotalsError, DteTotals, GlobalDiscount, TotalsOptions, add_lines,
  discount_net, apply_global_discount, calculate_totals, is_exempt_type, is_gross_mode,
}
use cmorflow_tax_api.Common.{
  refl, ltb, plus, ◌≤◌, ◌^◌, ◌<◌, ◌*◌, false, true, inr, subst, inl, arith, ok-inj, Bool-cases,
  bind-ok, ◌+◌, if◌then◌else◌, ◌≡◌, List, ℕ, none, some, Option, ok,
}
use cmorflow_tax_api.Totals.Lines.{Share, sum_of, AreShares, AreReadable, gross_sum}
use cmorflow_tax_api.Totals.Sums.{add_lines-Adds}
use cmorflow_tax_api.Totals.Rounding.{
  IsAccurate, IsNearest, IsReadable, check_percentage-IsPercentage, share-IsNearest,
  calculate_vat-nearest,
}

abbrev pub or_zero : Option ℕ → ℕ
or_zero none = 0
or_zero (some n) = n

-- The net amount after the discount, and the discount, in the totals.
or_zero-positive : (n : ℕ) → or_zero (if ltb 0 n then some n else none) ≡ n
or_zero-positive n = ground arith

abbrev as_pair : GlobalDiscount → ℕ × ℕ
as_pair g = (g.discount_amount, g.net_after_discount)

module _ {W : Type 0} ⦃d : Doubles W⦄ where
  -- The discount of the document of a net amount: nothing, where no percentage above 0 is given, and the
  -- percentage's share to the nearest peso.
  pub data IsGlobal (law : IsAccurate d) (net : ℕ) (op : Option W) (off : ℕ) : Type 0 where
    no_global : op ≡ none → off ≡ 0 → IsGlobal law net op off
    not_positive :
        (p : W) → op ≡ some p → d.lt d.nought p ≡ false → off ≡ 0 → IsGlobal law net op off
    global_off :
        (p : W)
        → op ≡ some p
        → d.lt d.nought p ≡ true
        → IsNearest law net p off
        → IsGlobal law net op off

  -- The discount of the document, `out.0`, and what it leaves of the net amount, `out.1`.
  abbrev Splits : IsAccurate d → Option W → ℕ → ℕ × ℕ → Type 0
  Splits law p net out = (out.1 + out.0 ≡ net) × IsGlobal law net p out.0

  apply_global_discount-Splits :
      (law : IsAccurate d) (p : W) (net : ℕ) (g : GlobalDiscount)
      → net < 2 ^ 36
      → law.IsDecimal p
      → d.lt d.nought p ≡ true
      → apply_global_discount net p ≡ ok g
      → Splits law (some p) net (as_pair g)
  unfolding apply_global_discount
  apply_global_discount-Splits law p net g small decimal above h =
      let (valid, k) = check_percentage-IsPercentage p _ g h in
      let (near, le) = share-IsNearest law net p small valid decimal in
      elim (Bool-cases (d.eq p d.nought)) [
        | inl e ↦ cc (above, law.zero_not-positive p e)
        | inr e ↦
            subst (λ g. Splits law (some p) net (as_pair g)) (ok-inj k)
              (rw e (omega (arith, le), global_off p refl above near))
      ]

  discount_net-Splits :
      (law : IsAccurate d) (p : Option W) (net : ℕ) (out : ℕ × ℕ)
      → net < 2 ^ 36
      → IsReadable law p
      → discount_net p net ≡ ok out
      → Splits law p net out
  unfolding discount_net
  discount_net-Splits law none net out small readable h =
      subst (Splits law none net) (ok-inj h) (omega arith, no_global refl refl)
  discount_net-Splits law (some p) net out small readable h = elim (Bool-cases (d.lt d.nought p)) [
    | inr e ↦
        subst (Splits law (some p) net)
          (ok-inj {E = TotalsError} {a = (0, net)} {b = out} (cc (h, e)))
          (omega arith, not_positive p refl e refl)
    | inl e ↦ elim (Bool-cases (ltb 0 net)) [
      | inl n ↦
          let (g, r, k) =
            bind-ok (apply_global_discount net p) (λ g. ok (as_pair g)) out (cc (h, e, n)) in
          subst (Splits law (some p) net) (ok-inj k)
            (apply_global_discount-Splits law p net g small readable e r)
      | inr n ↦
          let z : net ≡ 0 = ground (arith, n) in
          subst (Splits law (some p) net)
            (ok-inj {E = TotalsError} {a = (0, net)} {b = out} (cc (h, e, n)))
            (omega arith, global_off p refl e (rw z (omega arith), omega arith))
    ]
  ]

  -- The totals of a document, against the shares of its lines.
  pub record IsBalanced (law : IsAccurate d) (type : ℕ) (items : List (DteLineItem W))
      (options : TotalsOptions W) (t : DteTotals) : Type 0 where
    pub shares : List Share
    pub lines : AreShares law type options.pricing_mode items shares
    pub exempt : t.exempt_amount ≡ sum_of Share.exempt shares
    pub taxed : t.net_amount + or_zero t.global_discount_amount ≡ sum_of Share.taxed shares
    pub discount :
        IsGlobal law
          (sum_of Share.taxed shares)
          options.global_discount_percentage
          (or_zero t.global_discount_amount)
    pub vat_above : 19 * t.net_amount ≤ 100 * t.iva_amount + 50
    pub vat_below : 100 * t.iva_amount ≤ 19 * t.net_amount + 50
    pub total : t.total_amount ≡ plus (t.net_amount + t.exempt_amount + t.iva_amount)
    pub no_retention : t.retention_amount ≡ none

  -- The totals of a document that are computed, with gross amounts below 2^36 together and with percentages
  -- that are the doubles of numerals of at most two decimals: each line has a share, its rounded product
  -- of quantity and price less its discount, which is exempt in an exempt document or line, and else
  -- taxed, where prices include IVA by the whole number nearest to it over 1.19; the exempt amount is the
  -- sum of the exempt shares, untouched by the document's discount; the net amount and that discount make
  -- up the sum of the taxed ones; the discount is its share of that sum to the nearest peso; the IVA is
  -- 19 % of what is left, to the nearest peso; and the total is the sum of the three.
  pub calculate_totals-IsBalanced :
      (law : IsAccurate d) (type : ℕ) (items : List (DteLineItem W)) (options : TotalsOptions W)
      (t : DteTotals)
      → gross_sum items < 2 ^ 36
      → AreReadable law items
      → IsReadable law options.global_discount_percentage
      → calculate_totals type items options ≡ ok t
      → IsBalanced law type items options t
  unfolding calculate_totals
  calculate_totals-IsBalanced law type items options t small readable global h =
      let (sums, e, k) =
        bind-ok (add_lines (is_exempt_type type) (is_gross_mode options.pricing_mode) items (0, 0))
          _ t h in
      let (net, s, m) = bind-ok (discount_net options.global_discount_percentage sums.0) _ t k in
      let added = add_lines-Adds law type options.pricing_mode items (0, 0) sums small readable e in
      let bound : sums.0 < 2 ^ 36 = omega (arith, added.taxed, added.bounded, small) in
      let split = discount_net-Splits law _ sums.0 net bound global s in
      let vat = calculate_vat-nearest net.1 in
      subst (IsBalanced law type items options) (ok-inj m) (record {
        shares = added.shares;
        lines = added.are_shares;
        exempt = omega (arith, added.exempt);
        taxed = omega (arith, or_zero-positive net.0, split.0, added.taxed);
        discount = rw (or_zero-positive net.0) (
            subst (λ m. IsGlobal law m options.global_discount_percentage net.0) {x = sums.0}
              (omega (arith, added.taxed)) split.1);
        vat_above = vat.1;
        vat_below = vat.0;
        total = refl;
        no_retention = refl;
      })
