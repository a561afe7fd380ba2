-- ===== src/Preflight/Balance.antt =====
-- The totals that are written, checked before they are sent.
use cmorflow_tax_api.Common.{
  refl, [], ◌∷◌, ◌∷◌, arith, some, map, ◌↔◌, All, ◌+◌, ◌≡◌, Signed, List, ℕ, zero, suc, plus, minus,
}
use cmorflow_tax_api.Totals.{DteTotals, add_signed, sum_signed, difference}
use cmorflow_tax_api.Preflight.{
  Retention, check_totals, total_errors, computed_total, totals_xml, negated,
}
use cmorflow_tax_api.Preflight.Blocks.{net-block, iva-block, exempt-block, total-block, total_text}
use cmorflow_tax_api.Preflight.Written.{IsPlainRate, Lacks, natural}

-- A total that retentions have changed is refused, and one that they have not is not.
retained_iff :
    (index sum : ℕ) (retained : Signed)
    → (total_errors index sum (natural (add_signed (plus sum) (negated retained))) ≡ [])
      ↔ (natural retained ≡ some 0)
unfolding add_signed difference
retained_iff index sum (plus zero) = (λ h. refl, λ h. ground arith)
retained_iff index sum (plus (suc k)) = (λ h. ground arith, λ h. cc h)
retained_iff index sum (minus zero) = (λ h. refl, λ h. ground arith)
retained_iff index sum (minus (suc k)) = (λ h. ground arith, λ h. cc h)

computed_iff :
    (index : ℕ) (t : DteTotals) (rs : List Retention)
    → t.total_amount ≡ plus (t.net_amount + t.exempt_amount + t.iva_amount)
    → (total_errors index
          (t.net_amount + t.exempt_amount + t.iva_amount)
          (natural (computed_total t rs))
        ≡ [])
      ↔ (natural (sum_signed (plus 0) (map Retention.amount rs)) ≡ some 0)
unfolding computed_total sum_signed
computed_iff index t [] h = rw h (λ e. refl, λ e. ground arith)
computed_iff index t (r ∷ rs) h =
    retained_iff index (t.net_amount + t.exempt_amount + t.iva_amount)
      (sum_signed (plus 0) (map Retention.amount (r ∷ rs)))

-- The totals of a DTE as they are written, retentions included, pass the check before the upload exactly
-- where the retentions sum up to nothing: their text is read back digit by digit, and a total from which
-- something was retained is refused. The total is the sum of the other amounts, there is no IVA without a
-- net amount, the rates are texts without markup, and what stands behind the totals in the DTE has none
-- of the four tags.
pub check_totals-totals_xml :
    (index : ℕ) (t : DteTotals) (rs : List Retention) (rest : List ℕ)
    → t.total_amount ≡ plus (t.net_amount + t.exempt_amount + t.iva_amount)
    → (t.net_amount ≡ 0 → t.iva_amount ≡ 0)
    → All IsPlainRate rs
    → Lacks rest
    → (check_totals index (totals_xml t rs rest) ≡ [])
      ↔ (natural (sum_signed (plus 0) (map Retention.amount rs)) ≡ some 0)
unfolding check_totals totals_xml total_text
check_totals-totals_xml index t rs rest total no_iva plain lacks =
    let x : Signed = computed_total t rs in
    rw
      (
        net-block rest lacks rs plain x t.net_amount t.iva_amount t.exempt_amount,
        exempt-block rest lacks rs plain x t.net_amount t.iva_amount t.exempt_amount,
        iva-block rest lacks rs plain x t.net_amount t.iva_amount t.exempt_amount no_iva,
        total-block rest lacks rs plain x t.net_amount t.iva_amount t.exempt_amount,
        check_totals,
      )
      (computed_iff index t rs total)
