-- ===== src/Loading/Stored.antt =====
-- The registration of a CAF over JSON, where all numbers are whole: the one of Folio.
use cmorflow_tax_api.Common.{
  zero, sym, suc, inr, refl, inl, arith, ap, ◌-◌, none, err, any, [], Option-cases, Bool-cases, ◌≡◌,
  ◌∷◌, some, ok, ◌≤◌, ◌++◌, ℕ, Result, Option, Bool, List, map, filter,
}
use cmorflow_tax_api.Caf.{JsNumber, whole}
use cmorflow_tax_api.Folio.{
  CafData, TenantConfig, FolioError, overlaps, other_range, inherited, is_kept, current_last_used,
  register_caf,
}
use cmorflow_tax_api.Loading.{
  JsCaf, JsConfig, Arithmetic, less_one_js, overlaps_js, other_range_js, or_before, first_last_used,
  is_kept_js, register_js,
}

abbrev js_number : Option ℕ → Option JsNumber
js_number none = none
js_number (some n) = some (whole n)

-- A range and a configuration as the row stores them.
abbrev pub js_caf : CafData → JsCaf
js_caf c = record {
  issuer_rut = c.issuer_rut;
  type = whole c.type;
  range_from = whole c.range_from;
  range_to = whole c.range_to;
  authorization_date = c.authorization_date;
  raw_xml = c.raw_xml;
  last_used_folio = js_number c.last_used_folio;
}

abbrev pub js_config : TenantConfig → JsConfig
js_config config = record {
  cafs = map js_caf config.cafs;
  ai_enabled = config.ai_enabled;
  can_issue_t46 = config.can_issue_t46;
  active_brand_profile_id = config.active_brand_profile_id;
}

abbrev pub js_result : Result FolioError TenantConfig → Result FolioError JsConfig
js_result (ok config) = ok (js_config config)
js_result (err e) = err e

module _ (js : Arithmetic) (d : CafData) where
  filter-js :
      (p : CafData → Bool) (q : JsCaf → Bool) (cs : List CafData)
      → ((c : CafData) → q (js_caf c) ≡ p c)
      → filter q (map js_caf cs) ≡ map js_caf (filter p cs)
  filter-js p q [] h = refl
  filter-js p q (c ∷ cs) h = elim (Bool-cases (p c)) [
    | inl e ↦ rw (h c, e) (ap (λ r. js_caf c ∷ r) (filter-js p q cs h))
    | inr e ↦ rw (h c, e) (filter-js p q cs h)
  ]

  any-js :
      (p : CafData → Bool) (q : JsCaf → Bool) (cs : List CafData)
      → ((c : CafData) → q (js_caf c) ≡ p c)
      → any q (map js_caf cs) ≡ any p cs
  any-js p q [] h = refl
  any-js p q (c ∷ cs) h = rw (h c, any-js p q cs h) refl

  map-concat :
      (cs : List CafData) (e : CafData) → map js_caf (cs ++ e ∷ []) ≡ map js_caf cs ++ js_caf e ∷ []
  map-concat [] e = refl
  map-concat (c ∷ cs) e = ap (λ r. js_caf c ∷ r) (map-concat cs e)

  before : (n : ℕ) → 1 ≤ n → less_one_js js (whole n) ≡ whole (n - 1)
  before zero h = absurd (omega (arith, h))
  before (suc n) h = ap whole (omega arith)

  inherited-js :
      (cs : List CafData)
      → 1 ≤ d.range_from
      → or_before js (js_caf d) (first_last_used js (map js_caf cs)) ≡ whole (inherited d cs)
  inherited-js [] h = before d.range_from h
  inherited-js (o ∷ cs) h = elim (Option-cases o.last_used_folio) [
    | inl e ↦ rw e (before d.range_from h)
    | inr (n, e) ↦ rw e refl
  ]

  current-js :
      1 ≤ d.range_from
      → or_before js (js_caf d) (js_number d.last_used_folio) ≡ whole (current_last_used d)
  unfolding current_last_used
  current-js h = elim (Option-cases d.last_used_folio) [
    | inl e ↦ rw e (before d.range_from h)
    | inr (n, e) ↦ rw e refl
  ]

  -- A range of whole numbers that starts above 0 is registered as Folio does.
  pub register_js-whole :
      (config : TenantConfig)
      → 1 ≤ d.range_from
      → register_js js (js_caf d) (js_config config) ≡ js_result (register_caf d config)
  unfolding register_js register_caf overlaps
  register_js-whole config h =
      let clash = filter-js (overlaps d) (overlaps_js js (js_caf d)) config.cafs (λ c. refl) in
      let kept = filter-js (is_kept d) (is_kept_js js (js_caf d)) config.cafs (λ c. refl) in
      let others =
        any-js (other_range d) (other_range_js js (js_caf d)) (filter (overlaps d) config.cafs)
          (λ c. refl) in
      let taken = inherited-js (filter (overlaps d) config.cafs) h in
      elim (Bool-cases (any (other_range d) (filter (overlaps d) config.cafs))) [
        | inl e ↦ rw (clash, others, e, register_js, register_caf) refl
        | inr e ↦
            rw (clash, others, e, taken, current-js h, kept, register_js, register_caf)
              (ap (λ cafs. ok (record (js_config config) { cafs = cafs }))
                (sym (map-concat (filter (is_kept d) config.cafs) _)))
      ]
