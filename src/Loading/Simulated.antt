-- ===== src/Loading/Simulated.antt =====
-- The CAF of the simulation, loaded, and a folio reserved from it.
use cmorflow_tax_api.Common.{
  ◌≡◌, ◌≤◌, List, ℕ, Bool, some, none, true, false, ◌∷◌, [], ◌++◌, ◌==◌, ◌-◌, max, filter, any,
  refl, ap, ◌∙◌, ok, not, ◌&&◌, leb, arith, ltb, ◌+◌,
}
use cmorflow_tax_api.Caf.{Keys, caf_xml, create_simulation_caf, parse, validate_surgical_rules}
use cmorflow_tax_api.Caf.Simulation.{
  AreWritten, written, validate-text, validate-front, trim-text, parse-create_simulation_caf,
}
use cmorflow_tax_api.Preflight.Documents.{validate_caf_surgical_rules}
use cmorflow_tax_api.Preflight.Agreement.{validate_surgical_rules_iff}
use cmorflow_tax_api.Folio.{
  CafData, TenantConfig, overlaps, is_kept, register_caf, current_last_used, has_room, select_caf,
  assign_folio, reserve_folio_atomic, is_empty,
}
use cmorflow_tax_api.Loading.Stored.{js_caf, js_config, js_result, register_js-whole}
use cmorflow_tax_api.Loading.{
  register_js, Office, clean_rut, same_codes, validate_caf, caf_data, load_parsed, upload_caf,
  registered,
}

abbrev pub is_of_type : ℕ → CafData → Bool
is_of_type type c = c.type == type

overlaps-none :
    (d : CafData) (cs : List CafData)
    → any (is_of_type d.type) cs ≡ false
    → (filter (overlaps d) cs ≡ []) × (filter (is_kept d) cs ≡ cs)
unfolding overlaps
overlaps-none d [] h = (refl, refl)
overlaps-none d (c ∷ cs) h =
    let rest = overlaps-none d cs (ground (arith, h)) in
    (ground (arith, h, rest), ground (arith, h, rest))

filter-type :
    (type : ℕ) (cs : List CafData) (e : CafData)
    → any (is_of_type type) cs ≡ false
    → e.type ≡ type
    → filter (λ c. c.type == type) (cs ++ e ∷ []) ≡ e ∷ []
filter-type type [] e h same = ground (arith, same)
filter-type type (c ∷ cs) e h same =
    ground (arith, h, filter-type type cs e (ground (arith, h)) same)

is_empty-concat : (cs : List CafData) (e : CafData) → is_empty (cs ++ e ∷ []) ≡ false
is_empty-concat [] e = refl
is_empty-concat (c ∷ cs) e = refl

-- The first range of a type, as it is registered.
abbrev first_range : CafData → CafData
first_range d = record d { last_used_folio = some (d.range_from - 1) }

register_caf-first :
    (d : CafData) (config : TenantConfig)
    → any (is_of_type d.type) config.cafs ≡ false
    → d.last_used_folio ≡ none
    → register_caf d config ≡ ok (record config { cafs = config.cafs ++ first_range d ∷ [] })
unfolding register_caf current_last_used
register_caf-first d config h unused =
    let (apart, kept) = overlaps-none d config.cafs h in
    let same : max (d.range_from - 1) (d.range_from - 1) ≡ d.range_from - 1 = ground arith in
    rw (apart, kept, unused, same, register_caf) refl

reserve-first :
    (d : CafData) (config : TenantConfig)
    → any (is_of_type d.type) config.cafs ≡ false
    → 1 ≤ d.range_from
    → d.range_from ≤ d.range_to
    → (config' : TenantConfig) × (reserve_folio_atomic d.type
          (some (record config { cafs = config.cafs ++ first_range d ∷ [] }))
        ≡ ok (d.range_from, config'))
unfolding reserve_folio_atomic select_caf has_room current_last_used
reserve-first d config h positive ordered =
    let room : ltb (d.range_from - 1) d.range_to ≡ true = ground (arith, positive, ordered) in
    let next : d.range_from - 1 + 1 ≡ d.range_from = omega (arith, positive) in
    (
      record config { cafs = assign_folio d.type d.range_from (config.cafs ++ first_range d ∷ []) },
      rw
          (
            is_empty-concat config.cafs (first_range d),
            filter-type d.type config.cafs (first_range d) h refl,
            room,
            next,
            reserve_folio_atomic,
          )
          refl,
    )

module _ (keys : Keys) (rut : List ℕ) (type from to : ℕ) (h : AreWritten keys rut) where
  abbrev simulation : List ℕ
  simulation = create_simulation_caf keys rut type from to

  -- The range that is registered.
  abbrev pub simulated : CafData
  simulated = record {
    issuer_rut = rut;
    type = type;
    range_from = from;
    range_to = to;
    authorization_date = keys.today;
    raw_xml = caf_xml keys rut type from to [];
    last_used_folio = none;
  }

  proper : 1 ≤ from → from ≤ to → ((not (from == 0) && not (to == 0)) ≡ true) × (leb from to ≡ true)
  proper positive ordered = (ground (arith, positive, ordered), ground (arith, ordered))

  simulation-valid : 1 ≤ from → from ≤ to → validate_caf_surgical_rules simulation ≡ []
  unfolding create_simulation_caf
  simulation-valid positive ordered =
      let (above, right) = proper positive ordered in
      ((validate_surgical_rules_iff simulation).0 (
        ap validate_surgical_rules (trim-text keys rut type from to h)
        ∙ (validate-front keys rut type from to h _
            ∙ (validate-text keys rut type from to h _ ∙ rw (above, right) refl)))).0

  simulation-parsed :
      (from_base64 : List ℕ → List ℕ)
      → 1 ≤ from
      → from ≤ to
      → parse from_base64 simulation ≡ ok (written keys rut type from to)
  simulation-parsed from_base64 positive ordered =
      let (above, right) = proper positive ordered in
      parse-create_simulation_caf keys rut type from to h from_base64 ∙ rw (above, right) refl

  module _ (office : Office) (tenant_rut : List ℕ) (config : TenantConfig)
      (schema : office.accepts_schema simulation ≡ true) (key : office.is_default_key ≡ false)
      (own : same_codes (clean_rut tenant_rut) (clean_rut rut) ≡ true) where
    upload_caf-registers :
        1 ≤ from
        → from ≤ to
        → upload_caf office (some tenant_rut) simulation (js_config config)
          ≡ registered (register_js office.js (js_caf simulated) (js_config config))
    unfolding upload_caf validate_caf load_parsed caf_data
    upload_caf-registers positive ordered =
        rw
          (
            simulation-valid positive ordered,
            schema,
            simulation-parsed office.from_base64 positive ordered,
            key,
            own,
            h.pem_nonempty,
            upload_caf,
          )
          refl

    -- A CAF of the simulation with a proper range, made for the tenant's own RUT of texts that are
    -- written as `AreWritten` says, is loaded into a configuration that has no range of its type, and the
    -- first folio reserved then is the first one of the range. The schema accepts it, and production does
    -- not run with the key of the repository.
    pub upload_caf-reserves :
        1 ≤ from
        → from ≤ to
        → any (is_of_type type) config.cafs ≡ false
        → (config' config'' : TenantConfig) × (upload_caf office
              (some tenant_rut)
              simulation
              (js_config config)
            ≡ ok (js_config config'))
          × (reserve_folio_atomic type (some config') ≡ ok (from, config''))
    upload_caf-reserves positive ordered new =
        let (reserved, e) = reserve-first simulated config new positive ordered in
        (
          record config { cafs = config.cafs ++ first_range simulated ∷ [] },
          reserved,
          upload_caf-registers positive ordered
              ∙ ap registered (
                  register_js-whole office.js simulated config positive
                  ∙ ap js_result (register_caf-first simulated config new refl)),
          e,
        )
