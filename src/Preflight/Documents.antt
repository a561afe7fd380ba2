-- ===== src/Preflight/Documents.antt =====
-- The checks of sii-xsd.validator.ts for the other documents: an EnvioBOLETA, a ConsumoFolio (RCOF) and a CAF.
use cmorflow_tax_api.Common.{
  codes, List, ℕ, Bool, Option, true, some, none, ◌∷◌, [], ◌++◌, ◌+◌, ◌==◌, ◌||◌, ◌&&◌, not, leb,
  is_some, is_date_format,
}
use cmorflow_tax_api.Xml.{trim, element, contains, number_element}
use cmorflow_tax_api.Caf.{
  CafError, no_version, no_data, no_tag, zero_folio, inverted_range, bad_date, decimal_from,
  is_versioned, is_present, optional_tag, required_tags, date_element,
}
use cmorflow_tax_api.Preflight.{
  PreflightError, no_encoding, no_envio, no_set, no_dte, no_document, no_ted, unsigned_dte,
  no_total, unless, opens, opens_id, has_block, blocks_from, number_tag, declares_encoding,
  is_nonempty_list,
}

-- One turn of the `forEach` over the boletas.
unfoldable pub check_boleta : ℕ → List ℕ → List PreflightError
unfolding opens_id blocks_from
check_boleta index xml =
    unless (opens_id (codes "Documento") xml) (no_document index)
    ++ (unless (has_block (codes "TED") xml) (no_ted index)
        ++ (unless (has_block (codes "Signature") xml) (unsigned_dte index)
            ++ unless (is_some (number_tag (codes "MntTotal") xml)) (no_total index)))

abbrev pub check_boletas : ℕ → List (List ℕ) → List PreflightError
check_boletas index [] = []
check_boletas index (dte ∷ dtes) = check_boleta index dte ++ check_boletas (index + 1) dtes

unfoldable pub validate_boleta_surgical_rules : List ℕ → List PreflightError
unfolding opens opens_id blocks_from declares_encoding check_boleta
validate_boleta_surgical_rules xml =
    let dtes = blocks_from 0 (codes "DTE") xml in
    unless (declares_encoding xml) no_encoding
    ++ (unless (opens (codes "EnvioBOLETA") xml) no_envio
        ++ (unless (opens_id (codes "SetDTE") xml) no_set
            ++ (unless (has_block (codes "Signature") xml) PreflightError.no_signature
                ++ (unless (is_nonempty_list dtes) no_dte ++ check_boletas 1 dtes))))

pub data ReportError : Type 0 where
  undeclared no_report no_report_id no_cover no_summary unsigned : ReportError

unfoldable pub validate_consumo_folio_surgical_rules : List ℕ → List ReportError
unfolding opens opens_id blocks_from declares_encoding
validate_consumo_folio_surgical_rules xml =
    unless (declares_encoding xml) undeclared
    ++ (unless (opens (codes "ConsumoFolio") xml) no_report
        ++ (unless (opens_id (codes "DocumentoConsumoFolio") xml) no_report_id
            ++ (unless (opens (codes "Caratula") xml) no_cover
                ++ (unless (has_block (codes "Resumen") xml) no_summary
                    ++ unless (has_block (codes "Signature") xml) unsigned))))

abbrev pub tag_errors : List ℕ → List (List ℕ) → List CafError
tag_errors xml [] = []
tag_errors xml (name ∷ names) =
    unless (is_present (optional_tag name xml)) (no_tag name) ++ tag_errors xml names

abbrev pub range_errors : Option (List ℕ) → Option (List ℕ) → List CafError
range_errors none to = []
range_errors (some from) none = []
range_errors (some from) (some to) =
    unless (not (decimal_from 0 from == 0)) zero_folio
    ++ (unless (not (decimal_from 0 to == 0)) zero_folio
        ++ unless (leb (decimal_from 0 from) (decimal_from 0 to)) inverted_range)

abbrev pub date_errors : Option (List ℕ) → List CafError
date_errors none = []
date_errors (some date) = unless (is_date_format (trim date)) bad_date

-- `/<FRMA\b[^>]*>[\s\S]*?<\/FRMA>/i` or the same for FRMT: the element may be empty.
abbrev pub has_signature : List ℕ → Bool
has_signature xml =
    is_some (element true (codes "FRMA") xml) || is_some (element true (codes "FRMT") xml)

unfoldable pub caf_errors : List ℕ → List CafError
caf_errors normalized =
    unless (is_versioned normalized) no_version
    ++ (unless (contains (codes "<DA>") normalized && contains (codes "</DA>") normalized) no_data
        ++ (tag_errors normalized required_tags
            ++ (unless (has_signature normalized) CafError.no_signature
                ++ (range_errors (number_element (codes "D") normalized)
                      (number_element (codes "H") normalized)
                    ++ date_errors (date_element normalized)))))

-- `validateCafSurgicalRules`
unfoldable pub validate_caf_surgical_rules : List ℕ → List CafError
unfolding caf_errors
validate_caf_surgical_rules xml = caf_errors (trim xml)
