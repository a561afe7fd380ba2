-- ===== src/Caf/Simulation.antt =====
-- The CAF of the simulation, read back.
use cmorflow_tax_api.Caf.{
  is_versioned, date_element, folio_out_of_range, other_type, Comparisons, check_folio,
  assert_folio_allowed, Keys, ParsedCaf, whole, caf_xml, da_xml, show, to_number, is_nonempty,
  is_pem, required_tag, check_tags, required_tags, check_range, validate_surgical_rules, read_caf,
  parse_block, parse, extract_private_key_pem, create_simulation_caf, zero_folio, inverted_range,
}
use cmorflow_tax_api.Common.{
  ◌||◌, ltb, ◌≤◌, ◌↔◌, ◌++◌, sym, is_digit, leb, ◌>>◌, ◌&&◌, guard, refl, ◌∷◌, ◌==◌, is_date_format,
  true, ok, not, ap, ◌≡◌, all, [], ℕ, List, codes, some, arith, subst, ◌∙◌,
}
use mathlib.Core.List.{append_assoc}
use cmorflow_tax_api.Xml.{contains, trim, element, number_element, whole_element}
use cmorflow_tax_api.Xml.Elements.{IsPlain}
use cmorflow_tax_api.Caf.Numerals.{show-IsNumeral, decimal-show, trim-numeral, trim-ends}
use cmorflow_tax_api.Caf.Tags
use cmorflow_tax_api.Xml.Escape.{decode-none}
use cmorflow_tax_api.Caf.Chains.{
  cons_of, then_nothing, then_assoc, required_text, chain_iff, tests_iff,
}

-- What Node and the caller put into the CAF: texts without markup, a date, and a key in PEM.
pub record AreWritten (keys : Keys) (rut : List ℕ) : Type 0 where
  pub plain : Tags.ArePlain keys rut
  pub rut_trimmed : trim rut ≡ rut
  pub rut_nonempty : is_nonempty rut ≡ true
  pub today_trimmed : trim keys.today ≡ keys.today
  pub today_nonempty : is_nonempty keys.today ≡ true
  pub today_date : is_date_format keys.today ≡ true
  pub modulus_nonempty : is_nonempty (trim keys.modulus) ≡ true
  pub exponent_nonempty : is_nonempty (trim keys.exponent) ≡ true
  pub signature_nonempty : (text : List ℕ) → is_nonempty (trim (keys.sign text)) ≡ true
  pub pem_plain : IsPlain keys.private_pem
  pub pem_no_entity : all (λ c. not (c == b'&')) keys.private_pem ≡ true
  pub pem_nonempty : is_nonempty (trim keys.private_pem) ≡ true
  pub pem : is_pem (trim keys.private_pem) ≡ true

module _ (keys : Keys) (rut : List ℕ) (type from to : ℕ) where
  -- What the parser is to find.
  abbrev pub written : ParsedCaf
  written = record {
    issuer_rut = rut;
    type = whole type;
    range_from = whole from;
    range_to = whole to;
    authorization_date = keys.today;
    raw_xml = caf_xml keys rut type from to [];
    frma_signature = some (trim (keys.sign (da_xml keys rut type from to [])));
    private_key_pem = some (trim keys.private_pem);
  }

  trim-show : (n : ℕ) → trim (show n) ≡ show n
  trim-show n = trim-numeral (show n) ((show-IsNumeral n).1)

  to_number-show : (n : ℕ) → to_number (show n) ≡ whole n
  to_number-show n = rw ((show-IsNumeral n).0, (show-IsNumeral n).1) (ap whole (decimal-show n))

  module _ (h : AreWritten keys rut) where
    check_tags-text :
        (rest : List ℕ) → check_tags (caf_xml keys rut type from to rest) required_tags ≡ ok tt
    check_tags-text rest = rw (
      Tags.tag-re keys rut type from to h.plain rest,
      h.rut_trimmed,
      h.rut_nonempty,
      Tags.tag-rs keys rut type from to h.plain rest,
      Tags.tag-td keys rut type from to h.plain rest,
      trim-show type,
      (show-IsNumeral type).0,
      Tags.tag-d keys rut type from to h.plain rest,
      trim-show from,
      (show-IsNumeral from).0,
      Tags.tag-h keys rut type from to h.plain rest,
      trim-show to,
      (show-IsNumeral to).0,
      Tags.tag-fa keys rut type from to h.plain rest,
      h.today_trimmed,
      h.today_nonempty,
      Tags.tag-m keys rut type from to h.plain rest,
      h.modulus_nonempty,
      Tags.tag-e keys rut type from to h.plain rest,
      h.exponent_nonempty,
    )

    check_range-text :
        (rest : List ℕ)
        → check_range
            (number_element (codes "D") (caf_xml keys rut type from to rest))
            (number_element (codes "H") (caf_xml keys rut type from to rest))
          ≡ (guard (not (from == 0) && not (to == 0)) zero_folio
              >> guard (leb from to) inverted_range)
    check_range-text rest = rw (number-d, number-h, decimal-show from, decimal-show to)
      where
        number-d :
            number_element (codes "D") (caf_xml keys rut type from to rest) ≡ some (show from)
        number-d =
            let (c, cs, e) = cons_of (show from) ((show-IsNumeral from).0) in
            Tags.number-d keys rut type from to h.plain rest c cs e
              (subst (λ s. all is_digit s ≡ true) e ((show-IsNumeral from).1))
            ∙ ap some (sym e)

        number-h : number_element (codes "H") (caf_xml keys rut type from to rest) ≡ some (show to)
        number-h =
            let (c, cs, e) = cons_of (show to) ((show-IsNumeral to).0) in
            Tags.number-h keys rut type from to h.plain rest c cs e
              (subst (λ s. all is_digit s ≡ true) e ((show-IsNumeral to).1))
            ∙ ap some (sym e)

    pub validate-text :
        (rest : List ℕ)
        → validate_surgical_rules (caf_xml keys rut type from to rest) ≡ (
            guard (not (from == 0) && not (to == 0)) zero_folio
            >> guard (leb from to) inverted_range)
    unfolding validate_surgical_rules
    validate-text rest =
        rw
          (
            Tags.is_versioned-text keys rut type from to h.plain rest,
            Tags.contains-da keys rut type from to h.plain rest,
            Tags.contains-da_end keys rut type from to h.plain rest,
            check_tags-text rest,
            Tags.tag-frma keys rut type from to h.plain rest,
            h.signature_nonempty (da_xml keys rut type from to []),
            check_range-text rest,
            Tags.date-text keys rut type from to h.plain rest,
            h.today_trimmed,
            h.today_date,
          )
          (then_nothing _)

    -- What stands before the CAF changes nothing.
    pub validate-front :
        (xml : List ℕ)
        → validate_surgical_rules (codes "<AUTORIZACION>" ++ xml) ≡ validate_surgical_rules xml
    unfolding validate_surgical_rules is_versioned contains element number_element date_element
    validate-front xml = refl

    key-text :
        (from_base64 : List ℕ → List ℕ)
        → extract_private_key_pem from_base64 (create_simulation_caf keys rut type from to)
          ≡ some (trim keys.private_pem)
    unfolding extract_private_key_pem create_simulation_caf
    key-text from_base64 = rw (
      Tags.tag-rsask keys rut type from to h.plain keys.private_pem
          (codes "<RSAPUBK>" ++ (keys.public_pem ++ codes "</RSAPUBK></AUTORIZACION>")) h.pem_plain,
      extract_private_key_pem,
      h.pem_nonempty,
      decode-none keys.private_pem h.pem_no_entity,
      h.pem,
    )

    required_number :
        (name : List ℕ) (n : ℕ)
        → element true name (caf_xml keys rut type from to []) ≡ some (show n)
        → required_tag name (caf_xml keys rut type from to []) ≡ ok (show n)
    required_number name n found =
        required_text (caf_xml keys rut type from to []) name (show n) found (trim-show n)
          ((show-IsNumeral n).0)

    read_caf-text :
        (from_base64 : List ℕ → List ℕ)
        → read_caf from_base64
            (create_simulation_caf keys rut type from to)
            (caf_xml keys rut type from to [])
          ≡ ok written
    unfolding read_caf
    read_caf-text from_base64 = rw (
      required_text (caf_xml keys rut type from to []) (codes "RE") rut
          (Tags.tag-re keys rut type from to h.plain []) h.rut_trimmed h.rut_nonempty,
      required_number (codes "TD") type (Tags.tag-td keys rut type from to h.plain []),
      required_number (codes "D") from (Tags.tag-d keys rut type from to h.plain []),
      required_number (codes "H") to (Tags.tag-h keys rut type from to h.plain []),
      required_text (caf_xml keys rut type from to []) (codes "FA") keys.today
          (Tags.tag-fa keys rut type from to h.plain []) h.today_trimmed h.today_nonempty,
      to_number-show type,
      to_number-show from,
      to_number-show to,
      Tags.tag-frma keys rut type from to h.plain [],
      key-text from_base64,
      read_caf,
    )

    whole_text :
        whole_element (codes "CAF") (create_simulation_caf keys rut type from to)
        ≡ some (caf_xml keys rut type from to [])
    unfolding create_simulation_caf
    whole_text = Tags.whole-text keys rut type from to h.plain _

    abbrev without_last : List ℕ
    without_last =
        codes "AUTORIZACION>"
        ++ caf_xml keys rut type from to (
            codes "<RSASK>"
            ++ (keys.private_pem
                ++ (codes "</RSASK><RSAPUBK>"
                    ++ (keys.public_pem ++ codes "</RSAPUBK></AUTORIZACION"))))

    split_last : create_simulation_caf keys rut type from to ≡ b'<' ∷ without_last ++ b'>' ∷ []
    unfolding create_simulation_caf
    split_last = simp (append_assoc)

    -- The text starts and ends with a bracket.
    pub trim-text :
        trim (create_simulation_caf keys rut type from to)
        ≡ create_simulation_caf keys rut type from to
    unfolding create_simulation_caf
    trim-text = rw split_last (trim-ends b'<' without_last b'>' refl refl)

    -- The CAF of the simulation, made of a RUT, a date and keys that are written as `AreWritten` says, is
    -- parsed into what it was made of, for a range that starts above 0 and does not end before it starts;
    -- any other range is refused.
    pub parse-create_simulation_caf :
        (from_base64 : List ℕ → List ℕ)
        → parse from_base64 (create_simulation_caf keys rut type from to) ≡ (
            guard (not (from == 0) && not (to == 0)) zero_folio
            >> (guard (leb from to) inverted_range >> ok written))
    unfolding parse parse_block
    parse-create_simulation_caf from_base64 =
        rw (trim-text, whole_text, validate-text, read_caf-text from_base64, parse)
          (then_assoc (guard (not (from == 0) && not (to == 0)) zero_folio)
            (guard (leb from to) inverted_range) (ok written))

    -- The CAF of the simulation, made of texts that are written as `AreWritten` says, lets a folio pass
    -- exactly where the type is its own, its range starts above 0 and the folio lies in it; what it lets
    -- through is the CAF as it was made.
    pub assert_folio_allowed_iff :
        (js : Comparisons) (from_base64 : List ℕ → List ℕ) (dte_type folio : ℕ) (caf : ParsedCaf)
        → (assert_folio_allowed js from_base64
              (create_simulation_caf keys rut type from to)
              dte_type
              folio
            ≡ ok caf)
          ↔ ((caf ≡ written) × (dte_type ≡ type) × (1 ≤ from) × (from ≤ folio) × (folio ≤ to))
    unfolding assert_folio_allowed check_folio
    assert_folio_allowed_iff js from_base64 dte_type folio caf =
        let range =
          chain_iff (not (from == 0) && not (to == 0)) (leb from to) zero_folio inverted_range
            written caf (check_folio js dte_type folio) in
        let folio_tests =
          tests_iff (dte_type == type) (not (ltb folio from || ltb to folio)) other_type
            folio_out_of_range written caf in
        rw (parse-create_simulation_caf from_base64, assert_folio_allowed)
          (
            λ h.
                let r = range.0 h in
                let t = folio_tests.0 (r.2) in
                (
                  t.2,
                  ground (arith, t.0),
                  ground (arith, r.0),
                  ground (arith, t.1),
                  ground (arith, t.1),
                ),
            λ h. range.1 (
              ground (arith, h),
              ground (arith, h),
              folio_tests.1 (ground (arith, h), ground (arith, h), h.0),
            ),
          )
