-- ===== src/Loading/Loaded.antt =====
-- What a CAF that is loaded has passed, and what it does to the ranges.
use cmorflow_tax_api.Common.{
  ◌∙◌, ◌≤◌, sym, ap, ◌≡◌, ◌<◌, ◌⊎◌, inl, inr, List, ℕ, Bool, some, none, true, false, ◌∷◌, [], not,
  refl, ok, err, Result, guard-ok, bind-ok, then_iff, guard_iff, ok-inj, arith, same_codes,
}
use native.Mathlib.Decide.{dec_lt}
use cmorflow_tax_api.Caf.{JsNumber, whole, other, CafError, ParsedCaf, parse, is_present}
use cmorflow_tax_api.Preflight.Documents.{validate_caf_surgical_rules}
use cmorflow_tax_api.Folio.{CafData, TenantConfig, FolioError, register_caf}
use cmorflow_tax_api.Folio.Ranges.{AreConsistent, is_used}
use cmorflow_tax_api.Folio.Register.{register_caf-keeps}
use cmorflow_tax_api.Loading.Stored.{js_caf, js_config, js_result, register_js-whole}
use cmorflow_tax_api.Loading.{
  Office, no_private_key, default_key, other_issuer, clean_rut, is_empty_list, validate_caf, JsCaf,
  JsConfig, Arithmetic, register_js, caf_data, load_parsed, parsed, registered, upload_caf,
}

-- A number that is not written in digits alone.
abbrev pub IsOther : JsNumber → Type 0
IsOther n = (s : List ℕ) × (n ≡ other s)

-- The configuration stays one of whole numbers, with consistent ranges and the same folios used, unless
-- the new range has a number that is not whole, starts at 0 or ends before it starts.
pub data IsOrderly (d : JsCaf) (config : TenantConfig) (saved : JsConfig) : Type 0 where
  not_whole :
      (IsOther d.type) ⊎ ((IsOther d.range_from) ⊎ (IsOther d.range_to)) → IsOrderly d config saved
  at_zero : d.range_from ≡ whole 0 → IsOrderly d config saved
  backwards :
      (from to : ℕ)
      → d.range_from ≡ whole from
      → d.range_to ≡ whole to
      → to < from
      → IsOrderly d config saved
  orderly :
      (config' : TenantConfig)
      → saved ≡ js_config config'
      → AreConsistent config'.cafs
      → ((t f : ℕ) → is_used t f config'.cafs ≡ is_used t f config.cafs)
      → IsOrderly d config saved

pub record IsLoaded (office : Office) (tenant_rut xml : List ℕ) (config : TenantConfig)
    (saved : JsConfig) : Type 0 where
  pub caf : ParsedCaf
  pub valid : validate_caf_surgical_rules xml ≡ []
  pub schema : office.accepts_schema xml ≡ true
  pub parses : parse office.from_base64 xml ≡ ok caf
  pub signs : is_present caf.private_key_pem ≡ true
  pub sealed : office.is_default_key ≡ false
  pub own : same_codes (clean_rut tenant_rut) (clean_rut caf.issuer_rut) ≡ true
  pub registers : register_js office.js (caf_data caf) (js_config config) ≡ ok saved
  pub keeps : IsOrderly (caf_data caf) config saved

empty-nil : {A : Type 0} (l : List A) → is_empty_list l ≡ true → l ≡ []
empty-nil [] h = refl
empty-nil (a ∷ l) h = cc h

not-false : (b : Bool) → not b ≡ true → b ≡ false
not-false true h = cc h
not-false false h = refl

parsed-ok : (r : Result CafError ParsedCaf) (caf : ParsedCaf) → parsed r ≡ ok caf → r ≡ ok caf
parsed-ok (ok c) caf h = cc h
parsed-ok (err e) caf h = cc h

registered-ok :
    (r : Result FolioError JsConfig) (config : JsConfig) → registered r ≡ ok config → r ≡ ok config
registered-ok (ok c) config h = cc h
registered-ok (err e) config h = cc h

js_result-ok :
    (r : Result FolioError TenantConfig) (saved : JsConfig)
    → js_result r ≡ ok saved
    → (config' : TenantConfig) × (r ≡ ok config') × (saved ≡ js_config config')
js_result-ok (ok c) saved h = (c, refl, sym (ok-inj h))
js_result-ok (err e) saved h = cc h

-- A range of whole numbers without used folios.
register_js-IsOrderly :
    (js : Arithmetic) (d : CafData) (config : TenantConfig) (saved : JsConfig)
    → d.last_used_folio ≡ none
    → AreConsistent config.cafs
    → register_js js (js_caf d) (js_config config) ≡ ok saved
    → IsOrderly (js_caf d) config saved
register_js-IsOrderly js d config saved unused valid h = elim (dec_lt 0 d.range_from) [
  | no zero ↦ at_zero (ap whole (omega (arith, zero)))
  | yes positive ↦ elim (dec_lt d.range_to d.range_from) [
    | yes inverted ↦ backwards d.range_from d.range_to refl refl inverted
    | no ordered ↦
        let above : 1 ≤ d.range_from = omega (arith, positive) in
        let (config', e, same) =
          js_result-ok (register_caf d config) saved
            (sym (register_js-whole js d config above) ∙ h) in
        let kept =
          register_caf-keeps d config config'
            (record { positive = above; ordered = omega (arith, ordered); unused = unused }) valid
            e in
        orderly config' same kept.0 kept.1
  ]
]

-- The numbers of a CAF: all whole, or one is not.
numbers-IsOrderly :
    (js : Arithmetic) (d : JsCaf) (type from to : JsNumber) (config : TenantConfig)
    (saved : JsConfig)
    → d.last_used_folio ≡ none
    → AreConsistent config.cafs
    → register_js js
        (record d { type = type; range_from = from; range_to = to; last_used_folio = none })
        (js_config config)
      ≡ ok saved
    → IsOrderly
        (record d { type = type; range_from = from; range_to = to; last_used_folio = none })
        config
        saved
numbers-IsOrderly js d (other s) from to config saved unused valid h = not_whole (inl (s, refl))
numbers-IsOrderly js d (whole type) (other s) to config saved unused valid h =
    not_whole (inr (inl (s, refl)))
numbers-IsOrderly js d (whole type) (whole from) (other s) config saved unused valid h =
    not_whole (inr (inr (s, refl)))
numbers-IsOrderly js d (whole type) (whole from) (whole to) config saved unused valid h =
    register_js-IsOrderly js
      (record {
        issuer_rut = d.issuer_rut;
        type = type;
        range_from = from;
        range_to = to;
        authorization_date = d.authorization_date;
        raw_xml = d.raw_xml;
        last_used_folio = none;
      })
      config saved refl valid h

-- A CAF that `uploadCaf` loads over consistent ranges passed the checks of the validator, of the schema
-- and of the parser and has a private key and the RUT of the tenant, and production does not run with the
-- key of the repository. The range that is registered is the one that was parsed; the ranges stay
-- consistent and no folio becomes used or unused, unless the parsed type or range has a number that is
-- not written in digits alone, or the range starts at 0 or ends before it starts.
pub upload_caf-IsLoaded :
    (office : Office) (tenant_rut xml : List ℕ) (config : TenantConfig) (saved : JsConfig)
    → AreConsistent config.cafs
    → upload_caf office (some tenant_rut) xml (js_config config) ≡ ok saved
    → IsLoaded office tenant_rut xml config saved
unfolding upload_caf validate_caf load_parsed caf_data
upload_caf-IsLoaded office tenant_rut xml config saved consistent h =
    let (checked, h) = (then_iff (validate_caf office xml) _ saved).0 h in
    let (listed, schema) = (then_iff _ _ tt).0 checked in
    let (caf, p, h) = bind-ok (parsed (parse office.from_base64 xml)) _ saved h in
    let (signs, h) = guard-ok (is_present caf.private_key_pem) no_private_key _ saved h in
    let (sealed, h) = guard-ok (not office.is_default_key) default_key _ saved h in
    let (own, h) =
      guard-ok (same_codes (clean_rut tenant_rut) (clean_rut caf.issuer_rut)) other_issuer _ saved
        h in
    let registers = registered-ok _ saved h in
    record {
      caf = caf;
      valid = empty-nil _ ((guard_iff _ _).0 listed);
      schema = (guard_iff _ _).0 schema;
      parses = parsed-ok _ caf p;
      signs = signs;
      sealed = not-false office.is_default_key sealed;
      own = own;
      registers = registers;
      keeps =
          numbers-IsOrderly office.js (caf_data caf) caf.type caf.range_from caf.range_to config
            saved refl consistent registers;
    }
