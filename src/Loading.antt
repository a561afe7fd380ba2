-- ===== src/Loading.antt =====
-- `uploadCaf` of src/infrastructure/framework/sii/tenant-config.service.ts: the checks of a CAF before its range
-- is registered, and the registration over the numbers of the row's JSON, which a CAF whose numbers are not
-- made of digits alone fills with fractions or NaN. The cipher of its private key, which no operation of
-- the ranges reads, is left out, and so is what JSON makes of NaN when the row is saved.
pub mod Stored
pub mod Simulated
pub mod Loaded
use cmorflow_tax_api.Common.{
  ◌++◌, zero, any, ◌&&◌, suc, max, leb, filter, String, List, ℕ, Bool, Option, some, none, true,
  false, ◌∷◌, [], ◌==◌, ◌||◌, ◌>>◌, ◌>>=◌, not, is_digit, map, guard, Result, ok, err,
  if◌then◌else◌, same_codes,
}
use cmorflow_tax_api.Client.{upper}
use cmorflow_tax_api.Caf.{CafError, JsNumber, whole, other, ParsedCaf, parse, is_present}
use cmorflow_tax_api.Preflight.Documents.{validate_caf_surgical_rules}
use cmorflow_tax_api.Folio.{FolioError, overlapping_range}

pub data LoadError : Type 0 where
  no_tenant refused_xml no_private_key default_key other_issuer : LoadError
  of_caf : CafError → LoadError
  of_folios : FolioError → LoadError

-- The row's JSON: a CAF, and the fields that the operations on folios meet.
pub record JsCaf : Type 0 where
  pub issuer_rut : List ℕ
  pub type : JsNumber
  pub range_from : JsNumber
  pub range_to : JsNumber
  pub authorization_date : List ℕ
  pub raw_xml : List ℕ
  pub last_used_folio : Option JsNumber

pub record JsConfig : Type 0 where
  pub cafs : List JsCaf
  pub ai_enabled : Bool
  pub can_issue_t46 : Bool
  pub active_brand_profile_id : Option String

-- JavaScript's operations where a number is not whole, or falls below 0: `===`, `<=`, `- 1`, `Math.max`.
pub record Arithmetic : Type 0 where
  pub is_same : JsNumber → JsNumber → Bool
  pub at_most : JsNumber → JsNumber → Bool
  pub less_one : JsNumber → JsNumber
  pub greater : JsNumber → JsNumber → JsNumber

module _ (js : Arithmetic) where
  abbrev pub equals_js : JsNumber → JsNumber → Bool
  equals_js (whole a) (whole b) = a == b
  equals_js (whole a) (other s) = js.is_same (whole a) (other s)
  equals_js (other s) b = js.is_same (other s) b

  abbrev pub at_most_js : JsNumber → JsNumber → Bool
  at_most_js (whole a) (whole b) = leb a b
  at_most_js (whole a) (other s) = js.at_most (whole a) (other s)
  at_most_js (other s) b = js.at_most (other s) b

  abbrev pub less_one_js : JsNumber → JsNumber
  less_one_js (whole zero) = js.less_one (whole zero)
  less_one_js (whole (suc n)) = whole n
  less_one_js (other s) = js.less_one (other s)

  abbrev pub greater_js : JsNumber → JsNumber → JsNumber
  greater_js (whole a) (whole b) = whole (max a b)
  greater_js (whole a) (other s) = js.greater (whole a) (other s)
  greater_js (other s) b = js.greater (other s) b

  abbrev pub overlaps_js : JsCaf → JsCaf → Bool
  overlaps_js d c =
      equals_js c.type d.type
      && at_most_js c.range_from d.range_to
      && at_most_js d.range_from c.range_to

  abbrev pub other_range_js : JsCaf → JsCaf → Bool
  other_range_js d c =
      not (equals_js c.range_from d.range_from) || not (equals_js c.range_to d.range_to)

  -- `last ?? d.rangeFrom - 1`
  abbrev pub or_before : JsCaf → Option JsNumber → JsNumber
  or_before d none = less_one_js d.range_from
  or_before d (some last) = last

  -- `overlaps[0]?.lastUsedFolio`
  abbrev pub first_last_used : List JsCaf → Option JsNumber
  first_last_used [] = none
  first_last_used (o ∷ _) = o.last_used_folio

  abbrev pub is_kept_js : JsCaf → JsCaf → Bool
  is_kept_js d c = not (equals_js c.type d.type && equals_js c.range_from d.range_from)

  -- The mutation of `uploadCaf`.
  unfoldable pub register_js : JsCaf → JsConfig → Result FolioError JsConfig
  register_js d config =
      let clashing = filter (overlaps_js d) config.cafs in
      if any (other_range_js d) clashing
      then err overlapping_range
      else let d' = record d {
        last_used_folio =
            some
              (greater_js (or_before d (first_last_used clashing)) (or_before d d.last_used_folio));
      } in
        ok (record config { cafs = filter (is_kept_js d) config.cafs ++ d' ∷ [] })

-- What is outside: xmllint, which accepts all where it is switched off, the decoding of base64, and
-- whether production runs with the master key of the repository; and the arithmetic of JavaScript.
pub record Office : Type 0 where
  pub accepts_schema : List ℕ → Bool
  pub from_base64 : List ℕ → List ℕ
  pub is_default_key : Bool
  pub js : Arithmetic

abbrev pub is_rut_char : ℕ → Bool
is_rut_char c = is_digit c || (c == b'k') || (c == b'K')

abbrev rut_chars : List ℕ → List ℕ
rut_chars [] = []
rut_chars (c ∷ cs) = let rest = rut_chars cs in if is_rut_char c then c ∷ rest else rest

-- `rut.replace(/[^0-9kK]/g, '').toUpperCase()`
abbrev pub clean_rut : List ℕ → List ℕ
clean_rut rut = map upper (rut_chars rut)

abbrev pub is_empty_list {ℓ} : {A : Type ℓ} → List A → Bool
is_empty_list [] = true
is_empty_list (_ ∷ _) = false

-- `validateCaf`
unfoldable pub validate_caf : Office → List ℕ → Result LoadError (Unit {0})
unfolding validate_caf_surgical_rules
validate_caf office xml =
    guard (is_empty_list (validate_caf_surgical_rules xml)) refused_xml
    >> guard (office.accepts_schema xml) refused_xml

-- The CAF to register, with the numbers as they were parsed.
unfoldable pub caf_data : ParsedCaf → JsCaf
caf_data caf = record {
  issuer_rut = caf.issuer_rut;
  type = caf.type;
  range_from = caf.range_from;
  range_to = caf.range_to;
  authorization_date = caf.authorization_date;
  raw_xml = caf.raw_xml;
  last_used_folio = none;
}

abbrev pub parsed : Result CafError ParsedCaf → Result LoadError ParsedCaf
parsed (ok caf) = ok caf
parsed (err e) = err (of_caf e)

abbrev pub registered : Result FolioError JsConfig → Result LoadError JsConfig
registered (ok config) = ok config
registered (err e) = err (of_folios e)

-- A parsed CAF, for a tenant's RUT.
unfoldable pub load_parsed : Office → List ℕ → ParsedCaf → JsConfig → Result LoadError JsConfig
unfolding caf_data register_js
load_parsed office tenant_rut caf config =
    guard (is_present caf.private_key_pem) no_private_key
    >> (guard (not office.is_default_key) default_key
        >> (guard (same_codes (clean_rut tenant_rut) (clean_rut caf.issuer_rut)) other_issuer
            >> registered (register_js office.js (caf_data caf) config)))

-- `uploadCaf`; the tenant is missing or has a RUT.
unfoldable pub upload_caf : Office → Option (List ℕ) → List ℕ → JsConfig → Result LoadError JsConfig
unfolding validate_caf parse load_parsed
upload_caf office none xml config = err no_tenant
upload_caf office (some tenant_rut) xml config =
    validate_caf office xml
    >> (parsed (parse office.from_base64 xml) >>= λ caf. load_parsed office tenant_rut caf config)
