-- ===== src/Tests/Payloads.antt =====
-- The theorems on the totals and on the payload at concrete documents, with numbers in hundredths.
use cmorflow_tax_api.Common.{
  ◌-◌, Bool, Signed, minus, ◌/◌, ◌+◌, ◌*◌, leb, ltb, ◌↔◌, ◌==◌, refl, ◌≡◌, ℕ, plus, false, arith,
  none, some, ok, err, [], ◌∷◌,
}
use mathlib.Core.Bool.{true}
use cmorflow_tax_api.Totals.{
  Doubles, DteLineItem, TotalsError, DteTotals, TotalsOptions, ItemDiscount, apply_item_discount,
  calculate_totals, calculate_vat, net_of_gross, add_line, add_lines, discount_net, preview_totals,
  is_supported, is_exempt_type, with_retention, sum_signed, add_signed, difference, nonzero,
  percentage_discount, amount_discount, check_percentage, add_amount, apply_global_discount,
}
use cmorflow_tax_api.Totals.Rounding.{IsAccurate}
use cmorflow_tax_api.Totals.Document.{IsBalanced, calculate_totals-IsBalanced}
use cmorflow_tax_api.Totals.Gross.{IsGrossTotal}
use cmorflow_tax_api.Intake.Payload.{
  Payload, DeclaredTotals, totals_mismatch, validate_payload, check_note, check_items, check_item,
  check_type, agree, is_note, needs_receiver,
}
use cmorflow_tax_api.Intake.Payload.Declared.{IsDeclared, IsTotal}
use cmorflow_tax_api.Intake.Payload.Accepted.{
  IsAcceptable, validate_payload_iff, validate_payload-boleta, gross_options,
}

-- A declared total, in hundredths, against whole pesos.
abbrev is_far : ℕ → Signed → Bool
is_far v (plus n) = ltb 100 ((v - 100 * n) + (100 * n - v))
is_far v (minus n) = ltb 100 (v + 100 * n)

instance abbrev hundredths_of : Doubles ℕ
hundredths_of = record {
  nought = 0;
  hundred = 10000;
  eq = ◌==◌;
  lt = ltb;
  le = leb;
  is_finite = λ p. true;
  has_two_decimals = λ p. true;
  product = λ q p. (q * p + 5000) / 10000;
  share = λ n p. (n * p + 5000) / 10000;
  rounded = λ a. (a + 50) / 100;
  is_off = is_far;
}

hundredths-IsAccurate : IsAccurate hundredths_of
hundredths-IsAccurate = record {
  IsDecimal = λ p. Unit;
  hundredths = λ p. p;
  zero_not-positive = λ p h. ground (arith, h);
  hundredths-le = λ p h k. ground (arith, h.at_most_whole);
  share_above = λ n p small h k. omega arith;
  share_below = λ n p small h k. omega arith;
}

-- Two units at 1000 with 10 % off, and one at 500, exempt.
abbrev line_1 : DteLineItem ℕ
line_1 = record {
  quantity = 200;
  price = 100000;
  exempt = false;
  discount_percentage = some 1000;
  discount_amount = none;
}

abbrev line_2 : DteLineItem ℕ
line_2 = record line_1 { quantity = 100; price = 50000; exempt = true; discount_percentage = none }

-- A fixed discount above the amount of the line.
abbrev line_3 : DteLineItem ℕ
line_3 = record line_2 { exempt = false; discount_amount = some 60000 }

abbrev discounted : ItemDiscount ℕ
discounted = record {
  gross_amount = 2000;
  discount_amount = 200;
  net_amount = 1800;
  percentage = some 1000;
}

line_1-discounted : apply_item_discount line_1 ≡ ok discounted
unfolding apply_item_discount nonzero percentage_discount check_percentage
line_1-discounted = refl

line_3-refused : apply_item_discount line_3 ≡ err TotalsError.discount_exceeds_gross
unfolding apply_item_discount nonzero amount_discount
line_3-refused = refl

-- An invoice with 5 % off the document.
abbrev options_5 : TotalsOptions ℕ
options_5 = record { global_discount_percentage = some 500; pricing_mode = none }

abbrev totals_5 : DteTotals
totals_5 = record {
  net_amount = 1710;
  exempt_amount = 500;
  iva_amount = 325;
  total_amount = plus 2535;
  global_discount_amount = some 90;
  retention_amount = none;
}

invoice-totals : calculate_totals 33 (line_1 ∷ line_2 ∷ []) options_5 ≡ ok totals_5
unfolding calculate_totals add_lines add_line add_amount apply_item_discount nonzero
    percentage_discount check_percentage discount_net apply_global_discount is_exempt_type
    calculate_vat
invoice-totals = refl

calculate_totals-IsBalanced_example :
    IsBalanced hundredths-IsAccurate 33 (line_1 ∷ line_2 ∷ []) options_5 totals_5
unfolding hundredths-IsAccurate
calculate_totals-IsBalanced_example =
    calculate_totals-IsBalanced hundredths-IsAccurate 33 (line_1 ∷ line_2 ∷ []) options_5 totals_5
      (omega arith) (tt, (tt, tt)) tt invoice-totals

abbrev exempt_totals : DteTotals
exempt_totals = record {
  net_amount = 0;
  exempt_amount = 2300;
  iva_amount = 0;
  total_amount = plus 2300;
  global_discount_amount = none;
  retention_amount = none;
}

exempt-totals : calculate_totals 34 (line_1 ∷ line_2 ∷ []) options_5 ≡ ok exempt_totals
unfolding calculate_totals add_lines add_line add_amount apply_item_discount nonzero
    percentage_discount check_percentage discount_net apply_global_discount is_exempt_type
    calculate_vat
exempt-totals = refl

-- A boleta for two units at 1000, IVA included, with 10 % off, and the totals its sender declares.
abbrev boleta : Payload ℕ
boleta = record {
  document_type = 39;
  references = none;
  items = line_1 ∷ [];
  receiver_rut = none;
  receiver_name = none;
  transfer_type = none;
  options = gross_options;
  tax_retentions = [];
  totals = some record {
    net_amount = none;
    exempt_amount = none;
    iva_amount = some 28800;
    total_amount = some 180050;
  };
}

abbrev boleta_totals : DteTotals
boleta_totals = record {
  net_amount = 1513;
  exempt_amount = 0;
  iva_amount = 287;
  total_amount = plus 1800;
  global_discount_amount = none;
  retention_amount = none;
}

boleta-totals : calculate_totals 39 (line_1 ∷ []) gross_options ≡ ok boleta_totals
unfolding calculate_totals add_lines add_line add_amount apply_item_discount nonzero
    percentage_discount check_percentage discount_net apply_global_discount is_exempt_type
    calculate_vat net_of_gross
boleta-totals = refl

boleta-accepted : validate_payload false boleta ≡ ok boleta_totals
unfolding calculate_totals add_lines add_line add_amount apply_item_discount nonzero
    percentage_discount check_percentage discount_net apply_global_discount is_exempt_type
    calculate_vat net_of_gross validate_payload check_note check_items check_item check_type agree
    is_note needs_receiver preview_totals is_supported with_retention sum_signed
boleta-accepted = refl

validate_payload_iff_example : (validate_payload false boleta ≡ ok boleta_totals) ↔ (
    IsAcceptable false boleta
    × IsTotal boleta boleta_totals
    × ((c : DeclaredTotals ℕ) → boleta.totals ≡ some c → IsDeclared c boleta_totals))
validate_payload_iff_example = validate_payload_iff false boleta boleta_totals

validate_payload-boleta_example : IsGrossTotal hundredths-IsAccurate 39 (line_1 ∷ []) boleta_totals
unfolding hundredths-IsAccurate
validate_payload-boleta_example =
    validate_payload-boleta hundredths-IsAccurate false boleta boleta_totals refl refl refl
      (omega arith) (tt, tt) boleta-accepted

-- An IVA that is declared more than one peso off.
iva_mismatch :
    validate_payload false (record boleta {
      totals = some record {
        net_amount = none;
        exempt_amount = none;
        iva_amount = some 28850;
        total_amount = none;
      };
    })
    ≡ err totals_mismatch
unfolding calculate_totals add_lines add_line add_amount apply_item_discount nonzero
    percentage_discount check_percentage discount_net apply_global_discount is_exempt_type
    calculate_vat net_of_gross validate_payload check_note check_items check_item check_type agree
    is_note needs_receiver preview_totals is_supported with_retention sum_signed
iva_mismatch = refl

-- A retention above the total.
below_zero :
    preview_totals 39 (line_1 ∷ []) gross_options (plus 5000 ∷ [])
    ≡ ok (record boleta_totals { total_amount = minus 3200; retention_amount = some 5000 })
unfolding calculate_totals add_lines add_line add_amount apply_item_discount nonzero
    percentage_discount check_percentage discount_net apply_global_discount is_exempt_type
    calculate_vat net_of_gross preview_totals is_supported with_retention sum_signed add_signed
    difference
below_zero = refl

-- Without a pricing mode the prices of a boleta are taken as net.
boleta_without_mode :
    calculate_totals 39
      (line_1 ∷ [])
      (record { global_discount_percentage = none; pricing_mode = none })
    ≡ ok (record {
      net_amount = 1800;
      exempt_amount = 0;
      iva_amount = 342;
      total_amount = plus 2142;
      global_discount_amount = none;
      retention_amount = none;
    })
unfolding calculate_totals add_lines add_line add_amount apply_item_discount nonzero
    percentage_discount check_percentage discount_net apply_global_discount is_exempt_type
    calculate_vat
boleta_without_mode = refl
