-- ===== src/Tests/Preflights.antt =====
-- The totals of a purchase invoice from which the IVA is retained.
use cmorflow_tax_api.Common.{◌≡◌, ◌↔◌, List, ℕ, refl, some, none, plus, codes, [], ◌∷◌, map}
use cmorflow_tax_api.Totals.{DteTotals, sum_signed, add_signed, difference}
use cmorflow_tax_api.Xml.{number_element}
use cmorflow_tax_api.Caf.{show_from}
use cmorflow_tax_api.Preflight.{
  Retention, check_totals, totals_xml, retentions_xml, show_signed, computed_total, unbalanced,
}
use cmorflow_tax_api.Preflight.Written.{Lacks, natural}
use cmorflow_tax_api.Preflight.Balance.{check_totals-totals_xml}

abbrev purchase : DteTotals
purchase = record {
  net_amount = 1000;
  exempt_amount = 50;
  iva_amount = 190;
  total_amount = plus 1240;
  global_discount_amount = none;
  retention_amount = none;
}

abbrev whole_iva : List Retention
whole_iva = record { type = 15; rate = none; amount = plus 190 } ∷ []

abbrev behind : List ℕ
behind = codes "</Encabezado>"

behind-Lacks : Lacks behind
unfolding number_element
behind-Lacks = record { net = refl; exempt = refl; iva = refl; total = refl }

check_totals-totals_xml_example :
    (check_totals 1 (totals_xml purchase whole_iva behind) ≡ [])
    ↔ (natural (sum_signed (plus 0) (map Retention.amount whole_iva)) ≡ some 0)
check_totals-totals_xml_example =
    check_totals-totals_xml 1 purchase whole_iva behind refl (λ h. cc h) ((λ rate h. cc h), tt)
      behind-Lacks

retained_refused : check_totals 1 (totals_xml purchase whole_iva behind) ≡ unbalanced 1 ∷ []
unfolding check_totals totals_xml retentions_xml show_signed computed_total sum_signed add_signed
    difference number_element show_from
retained_refused = refl

untouched_passes : check_totals 1 (totals_xml purchase [] behind) ≡ []
unfolding check_totals totals_xml retentions_xml show_signed computed_total sum_signed add_signed
    difference number_element show_from
untouched_passes = refl
