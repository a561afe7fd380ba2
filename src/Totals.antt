-- ===== src/Totals.antt =====
-- src/infrastructure/framework/sii/discount.engine.ts: the discounts of a line and of the document,
-- the decomposition of prices that include IVA, and the totals; and `calculateTotals` of
-- dte-xml.engine.ts, which takes the retentions off. Quantities, prices and percentages are doubles:
-- their type and the operations the engine uses on them are a parameter. The products by the rates
-- 1.19 and 0.19 are rounded as on the rationals, which agrees with the doubles below 2^40: neither
-- quotient comes closer to a half than 1/238 but on a half that the doubles hit too.
use cmorflow_tax_api.Common.{
  zero, ◌/◌, suc, not, minus, ltb, false, [], ◌∷◌, ◌||◌, ◌-◌, ◌+◌, ◌&&◌, true, none, leb, err, ◌>>◌,
  ◌>>=◌, ◌==◌, ◌*◌, some, plus, ok, if◌then◌else◌, guard, any, List, ℕ, Signed, Result, Option,
  Bool,
}
pub mod Rounding
pub mod Lines
pub mod Sums
pub mod Document
pub mod Gross
pub mod Order
pub mod Retention

-- The operations on doubles.
pub record Doubles (W : Type 0) : Type 0 where
  pub nought : W
  pub hundred : W
  pub eq : W → W → Bool
  pub lt : W → W → Bool
  pub le : W → W → Bool
  pub is_finite : W → Bool
  pub has_two_decimals : W → Bool  -- `Math.abs(v * 100 - Math.round(v * 100)) <= 1e-8`
  pub product : W → W → ℕ  -- `Math.round(quantity * price)`, where that is not negative
  pub share : ℕ → W → ℕ  -- `Math.round((amount * percentage) / 100)`
  pub rounded : W → ℕ  -- `Math.round(amount)`, of an amount that is not negative
  pub is_off : W → Signed → Bool  -- `Math.abs(Number(declared) - expected) > 1`

pub record DteLineItem (W : Type 0) : Type 0 where
  pub quantity : W
  pub price : W
  pub exempt : Bool
  pub discount_percentage : Option W
  pub discount_amount : Option W

pub data PricingMode : Type 0 where
  gross_prices net_prices : PricingMode

pub record TotalsOptions (W : Type 0) : Type 0 where
  pub global_discount_percentage : Option W
  pub pricing_mode : Option PricingMode

pub data TotalsError : Type 0 where
  both_discounts percentage_out_of_range too_many_decimals discount_exceeds_gross unsupported_type :
      TotalsError

pub record ItemDiscount (W : Type 0) : Type 0 where
  pub gross_amount : ℕ
  pub discount_amount : ℕ
  pub net_amount : ℕ
  pub percentage : Option W  -- `isPercentage` where there is one

pub record GlobalDiscount : Type 0 where
  pub net_before_discount : ℕ
  pub discount_amount : ℕ
  pub net_after_discount : ℕ

pub record DteTotals : Type 0 where
  pub net_amount : ℕ
  pub exempt_amount : ℕ
  pub iva_amount : ℕ
  pub total_amount : Signed
  pub global_discount_amount : Option ℕ
  pub retention_amount : Option ℕ

-- `Math.round(netAmount * IVA_RATE)`
unfoldable pub calculate_vat : ℕ → ℕ
calculate_vat net_amount = (19 * net_amount + 50) / 100

-- `Math.round(amount / (1 + IVA_RATE))`
unfoldable pub net_of_gross : ℕ → ℕ
net_of_gross amount = (200 * amount + 119) / 238

-- `a - b`, below zero where `b` is more.
unfoldable pub difference : ℕ → ℕ → Signed
difference a b = if leb b a then plus (a - b) else minus (b - a)

-- The types that both the engine and the intake support.
unfoldable pub is_supported : ℕ → Bool
is_supported type = any (λ t. t == type) (33 ∷ 34 ∷ 39 ∷ 41 ∷ 46 ∷ 52 ∷ 56 ∷ 61 ∷ [])

unfoldable pub is_exempt_type : ℕ → Bool
is_exempt_type type = (type == 34) || (type == 41)

abbrev pub is_gross_mode : Option PricingMode → Bool
is_gross_mode (some gross_prices) = true
is_gross_mode _ = false

unfoldable pub add_signed : Signed → Signed → Signed
unfolding difference
add_signed (plus a) (plus b) = plus (a + b)
add_signed (plus a) (minus b) = difference a b
add_signed (minus a) (plus b) = difference b a
add_signed (minus a) (minus b) = minus (a + b)

-- `reduce((sum, retention) => sum + retention.amount, 0)`
unfoldable pub sum_signed : Signed → List Signed → Signed
unfolding add_signed
sum_signed acc [] = acc
sum_signed acc (x ∷ xs) = sum_signed (add_signed acc x) xs

-- `retentionAmount > 0`, the amount.
abbrev pub positive_part : Signed → Option ℕ
positive_part (plus zero) = none
positive_part (plus (suc n)) = some (suc n)
positive_part (minus n) = none

unfoldable pub with_retention : Option ℕ → DteTotals → DteTotals
unfolding difference
with_retention none t = t
with_retention (some r) t = record t {
  retention_amount = some r;
  total_amount = difference (t.net_amount + t.exempt_amount + t.iva_amount) r;
}

abbrev pub totals_of : ℕ → ℕ × ℕ → DteTotals
unfolding calculate_vat
totals_of exempt net = record {
  net_amount = net.1;
  exempt_amount = exempt;
  iva_amount = calculate_vat net.1;
  total_amount = plus (net.1 + exempt + calculate_vat net.1);
  global_discount_amount = if ltb 0 net.0 then some net.0 else none;
  retention_amount = none;
}

-- Where an amount goes: exempt, with the IVA taken out of it, or as it is.
unfoldable pub add_amount : Bool → Bool → ℕ → ℕ × ℕ → ℕ × ℕ
unfolding net_of_gross
add_amount true is_gross n sums = (sums.0, sums.1 + n)
add_amount false true n sums = (sums.0 + net_of_gross n, sums.1)
add_amount false false n sums = (sums.0 + n, sums.1)

module _ {W : Type 0} ⦃d : Doubles W⦄ where
  -- `value != null && value !== 0`
  unfoldable pub nonzero : Option W → Option W
  nonzero none = none
  nonzero (some v) = if d.eq v d.nought then none else some v

  -- The range and the decimals of a percentage.
  unfoldable pub check_percentage : W → Result TotalsError (Unit {0})
  check_percentage p =
      guard (d.is_finite p && not (d.lt p d.nought) && not (d.lt d.hundred p))
        percentage_out_of_range
      >> guard (d.has_two_decimals p) too_many_decimals

  -- A share is at most its amount (Totals.Rounding), so the differences do not stop at 0.
  unfoldable pub percentage_discount : ℕ → W → Result TotalsError (ItemDiscount W)
  unfolding check_percentage
  percentage_discount gross p =
      check_percentage p
      >> ok (record {
        gross_amount = gross;
        discount_amount = d.share gross p;
        net_amount = gross - d.share gross p;
        percentage = some p;
      })

  unfoldable pub amount_discount : ℕ → ℕ → Result TotalsError (ItemDiscount W)
  amount_discount gross amount =
      guard (leb amount gross) discount_exceeds_gross
      >> ok (record {
        gross_amount = gross;
        discount_amount = amount;
        net_amount = gross - amount;
        percentage = none;
      })

  abbrev pub choose_discount : ℕ → Option W → Option W → Result TotalsError (ItemDiscount W)
  choose_discount gross (some p) (some a) = err both_discounts
  choose_discount gross none none =
      ok (record {
        gross_amount = gross;
        discount_amount = 0;
        net_amount = gross;
        percentage = none;
      })
  choose_discount gross (some p) none = percentage_discount gross p
  choose_discount gross none (some a) = amount_discount gross (d.rounded a)

  unfoldable pub apply_item_discount : DteLineItem W → Result TotalsError (ItemDiscount W)
  unfolding nonzero percentage_discount amount_discount
  apply_item_discount item =
      choose_discount (d.product item.quantity item.price) (nonzero item.discount_percentage)
        (nonzero item.discount_amount)

  unfoldable pub apply_global_discount : ℕ → W → Result TotalsError GlobalDiscount
  unfolding check_percentage
  apply_global_discount net p =
      check_percentage p
      >> (let off = if d.eq p d.nought then 0 else d.share net p in
          ok (record {
            net_before_discount = net;
            discount_amount = off;
            net_after_discount = net - off;
          }))

  -- One turn of the loop, on the net and the exempt amount so far.
  unfoldable pub add_line : Bool → Bool → DteLineItem W → ℕ × ℕ → Result TotalsError (ℕ × ℕ)
  unfolding apply_item_discount add_amount
  add_line exempt_only is_gross item sums = apply_item_discount item >>= λ line.
      ok (add_amount (exempt_only || item.exempt) is_gross line.net_amount sums)

  unfoldable pub add_lines : Bool → Bool → List (DteLineItem W) → ℕ × ℕ → Result TotalsError (ℕ × ℕ)
  unfolding add_line
  add_lines exempt_only is_gross [] sums = ok sums
  add_lines exempt_only is_gross (item ∷ items) sums =
      add_line exempt_only is_gross item sums >>= add_lines exempt_only is_gross items

  -- The discount of the document, on the net amount: the discount and what is left.
  unfoldable pub discount_net : Option W → ℕ → Result TotalsError (ℕ × ℕ)
  unfolding apply_global_discount
  discount_net none net = ok (0, net)
  discount_net (some p) net =
      if d.lt d.nought p && ltb 0 net
      then (apply_global_discount net p >>= λ g. ok (g.discount_amount, g.net_after_discount))
      else ok (0, net)

  unfoldable pub calculate_totals :
      ℕ → List (DteLineItem W) → TotalsOptions W → Result TotalsError DteTotals
  unfolding add_lines discount_net is_exempt_type calculate_vat
  calculate_totals type items options =
      add_lines (is_exempt_type type) (is_gross_mode options.pricing_mode) items (0, 0) >>= λ sums.
      discount_net options.global_discount_percentage sums.0 >>= λ net. ok (totals_of sums.1 net)

  -- `DteXmlEngine.calculateTotals`
  unfoldable pub preview_totals :
      ℕ → List (DteLineItem W) → TotalsOptions W → List Signed → Result TotalsError DteTotals
  unfolding is_supported calculate_totals with_retention sum_signed
  preview_totals type items options retentions =
      guard (is_supported type) unsupported_type
      >> (calculate_totals type items options >>= λ totals.
          ok (with_retention (positive_part (sum_signed (plus 0) retentions)) totals))
