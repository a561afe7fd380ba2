-- ===== src/Intake/Payload/Declared.antt =====
-- The totals that a payload declares, against those computed for it.
use cmorflow_tax_api.Common.{
  Signed, plus, sym, subst, ◌>>◌, ok-inj, ◌>>=◌, ap, Result, guard_iff, then_iff, guard, bind-ok,
  arith, refl, ◌↔◌, true, false, ◌≡◌, none, some, Option, ok, err,
}
use cmorflow_tax_api.Totals.{
  Doubles, TotalsError, DteTotals, preview_totals, is_supported, calculate_totals,
}
use cmorflow_tax_api.Totals.Retention.{IsRetained, with_retention_iff}
use cmorflow_tax_api.Intake.Payload.{totals_mismatch, DeclaredTotals, agrees, Payload, agree, lift}

module _ {W : Type 0} ⦃d : Doubles W⦄ where
  -- Each total that is declared is at most one peso off the one computed.
  abbrev pub IsNear : Option W → Signed → Type 0
  IsNear o expected = (v : W) → o ≡ some v → d.is_off v expected ≡ false

  pub record IsDeclared (c : DeclaredTotals W) (t : DteTotals) : Type 0 where
    pub net : IsNear c.net_amount (plus t.net_amount)
    pub exempt : IsNear c.exempt_amount (plus t.exempt_amount)
    pub iva : IsNear c.iva_amount (plus t.iva_amount)
    pub total : IsNear c.total_amount t.total_amount

  pub agrees_iff :
      (o : Option W) (expected : Signed) → (agrees o expected ≡ true) ↔ IsNear o expected
  agrees_iff none expected = (λ h v e. cc e, λ h. refl)
  agrees_iff (some v) expected = (
    λ h u e. let off : d.is_off v expected ≡ false = ground arith in cc (off, e),
    λ h. let off = h v refl in ground (arith, off),
  )

  pub declared-inj : {a b : DeclaredTotals W} → some a ≡ some b → a ≡ b
  declared-inj {a} {b} e = cc e

  pub agree_iff :
      (c : Option (DeclaredTotals W)) (t : DteTotals)
      → (agree c t ≡ true)
        ↔ ((declared : DeclaredTotals W) → c ≡ some declared → IsDeclared declared t)
  unfolding agree
  agree_iff none t = (λ h x e. cc e, λ h. refl)
  agree_iff (some c) t = (
    λ h x e.
        let n : agrees c.net_amount (plus t.net_amount) ≡ true = ground arith in
        let x' : agrees c.exempt_amount (plus t.exempt_amount) ≡ true = ground arith in
        let i : agrees c.iva_amount (plus t.iva_amount) ≡ true = ground arith in
        let s : agrees c.total_amount t.total_amount ≡ true = ground arith in
        subst (λ o. IsDeclared o t) (declared-inj e)
          (record {
            net = (agrees_iff _ _).0 n;
            exempt = (agrees_iff _ _).0 x';
            iva = (agrees_iff _ _).0 i;
            total = (agrees_iff _ _).0 s;
          }),
    λ h.
        let r = h c refl in
        cc (
          (agrees_iff _ _).1 r.net,
          (agrees_iff _ _).1 r.exempt,
          (agrees_iff _ _).1 r.iva,
          (agrees_iff _ _).1 r.total,
        ),
  )

  -- `t` is what the engine computes of the lines, less the retentions.
  abbrev pub IsTotal : Payload W → DteTotals → Type 0
  IsTotal p t =
      (c : DteTotals) × (calculate_totals p.document_type p.items p.options ≡ ok c)
      × IsRetained p.tax_retentions c t

  pub preview_totals_iff :
      (p : Payload W) (t : DteTotals)
      → is_supported p.document_type ≡ true
      → (preview_totals p.document_type p.items p.options p.tax_retentions ≡ ok t) ↔ IsTotal p t
  unfolding preview_totals
  preview_totals_iff p t supported = (
    λ h.
        let (_, k) = (then_iff _ _ t).0 h in
        let (c, e, m) = bind-ok (calculate_totals p.document_type p.items p.options) _ t k in
        (c, e, (with_retention_iff p.tax_retentions c t).0 (ok-inj m)),
    λ (c, e, r).
        rw (supported, e, preview_totals) (ap ok ((with_retention_iff p.tax_retentions c t).1 r)),
  )

  -- The totals of a payload whose declared totals agree with them.
  pub compared_iff :
      (p : Payload W) (m : Result TotalsError DteTotals) (t : DteTotals)
      → ((lift m >>= λ totals. guard (agree p.totals totals) totals_mismatch >> ok totals) ≡ ok t)
        ↔ ((m ≡ ok t) × (agree p.totals t ≡ true))
  compared_iff p (ok x) t = (
    λ h.
        let (agreed, e) = (then_iff _ _ t).0 h in
        (
          ap ok (ok-inj e),
          subst (λ y. agree p.totals y ≡ true) (ok-inj e) ((guard_iff _ _).0 agreed),
        ),
    λ h. (then_iff _ _ t).1 (
      (guard_iff _ _).1 (subst (λ y. agree p.totals y ≡ true) (sym (ok-inj (h.0))) h.1),
      ap ok (ok-inj (h.0)),
    ),
  )
  compared_iff p (err e) t = (λ h. cc h, λ h. cc (h.0))
