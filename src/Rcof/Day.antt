-- ===== src/Rcof/Day.antt =====
-- src/application/integrations/generate-rcof.use-case.ts: `consolidateDay` and its helpers. A document
-- is what they read of it: the XML as character codes, the date of its creation.
pub mod Ranges
pub mod Counts
use cmorflow_tax_api.Common.{
  strip_prefix, ◌&&◌, ◌||◌, ◌+◌, same_codes, plus, not, length, leb, is_some, ◌==◌, ◌++◌, map,
  if◌then◌else◌, filter, false, codes, Signed, ℕ, parse_int_codes, Option, List, Bool, [], ◌∷◌,
  none, some,
}
use cmorflow_tax_api.Request.{DteStatus}
use cmorflow_tax_api.Totals.{sum_signed}

pub record Boleta : Type 0 where
  pub type : ℕ
  pub folio : ℕ
  pub status : DteStatus
  pub xml_content : List ℕ
  pub created_on : Option (List ℕ)

pub record FolioRange : Type 0 where
  pub start : ℕ
  pub end : ℕ

pub record Summary : Type 0 where
  pub type : ℕ
  pub net_amount : Signed
  pub iva_amount : Signed
  pub exempt_amount : Signed
  pub total_amount : Signed
  pub folios_emitidos : ℕ
  pub folios_anulados : ℕ
  pub folios_utilizados : ℕ
  pub ranges : List FolioRange

-- `[^<]+` and the closing tag: `<` ends the value, so there is one way to match.
abbrev pub value_before : List ℕ → List ℕ → Option (List ℕ)
value_before close [] = none
value_before close (c ∷ cs) =
    let rest = value_before close cs in
    if c == b'<'
    then (if is_some (strip_prefix close (c ∷ cs)) then some [] else none)
    else elim rest [ none ↦ none | some v ↦ some (c ∷ v) ]

abbrev pub nonempty : Option (List ℕ) → Option (List ℕ)
nonempty none = none
nonempty (some []) = none
nonempty (some (c ∷ cs)) = some (c ∷ cs)

-- The match that starts at the first character.
abbrev pub match_at : List ℕ → List ℕ → Option (List ℕ)
match_at tag s = elim (strip_prefix (b'<' ∷ tag ++ b'>' ∷ []) s) [
  | none ↦ none
  | some rest ↦ nonempty (value_before (b'<' ∷ b'/' ∷ tag ++ b'>' ∷ []) rest)
]

-- `xml.match(...)?.[1]`: the first place that matches.
unfoldable pub extract_xml_value : List ℕ → List ℕ → Option (List ℕ)
extract_xml_value [] tag = none
extract_xml_value (c ∷ cs) tag =
    let later = extract_xml_value cs tag in
    elim (match_at tag (c ∷ cs)) [ none ↦ later | some v ↦ some v ]

abbrev pub number_or_zero : Option Signed → Signed
number_or_zero none = plus 0
number_or_zero (some n) = n

unfoldable pub xml_amount : List ℕ → List ℕ → Signed
unfolding extract_xml_value parse_int_codes
xml_amount xml tag = elim (extract_xml_value xml tag) [
  | none ↦ plus 0
  | some v ↦ number_or_zero (parse_int_codes v)
]

abbrev status_rank : DteStatus → ℕ
status_rank DteStatus.borrador = 0
status_rank DteStatus.firmado = 1
status_rank DteStatus.enviado = 2
status_rank DteStatus.aceptado = 3
status_rank DteStatus.reparo = 4
status_rank DteStatus.rechazado = 5
status_rank DteStatus.anulado = 6

abbrev pub has_status : DteStatus → Boleta → Bool
has_status s d = status_rank d.status == status_rank s

abbrev pub is_date : List ℕ → Option (List ℕ) → Bool
is_date date none = false
is_date date (some s) = same_codes s date

abbrev pub or_else : Option (List ℕ) → Option (List ℕ) → Option (List ℕ)
or_else none b = b
or_else (some a) b = some a

-- A boleta of the day that is not a draft.
unfoldable pub is_boleta_of : List ℕ → Boleta → Bool
unfolding extract_xml_value
is_boleta_of date d =
    ((d.type == 39) || (d.type == 41))
    && not (has_status DteStatus.borrador d)
    && is_date date (or_else (extract_xml_value d.xml_content (codes "FchEmis")) d.created_on)

-- `sort((a, b) => a - b)`
unfoldable pub insert : ℕ → List ℕ → List ℕ
insert x [] = x ∷ []
insert x (y ∷ ys) = let rest = insert x ys in if leb x y then x ∷ y ∷ ys else y ∷ rest

unfoldable pub sort : List ℕ → List ℕ
unfolding insert
sort [] = []
sort (x ∷ xs) = insert x (sort xs)

-- The loop with the range that is open, `start` and `prev`.
unfoldable pub ranges_from : ℕ → ℕ → List ℕ → List FolioRange
ranges_from start prev [] = record { start = start; end = prev } ∷ []
ranges_from start prev (folio ∷ folios) =
    let adjacent = folio == prev + 1 in
    let rest = ranges_from (if adjacent then start else folio) folio folios in
    if adjacent then rest else record { start = start; end = prev } ∷ rest

unfoldable pub folio_ranges : List ℕ → List FolioRange
unfolding ranges_from
folio_ranges [] = []
folio_ranges (folio ∷ folios) = ranges_from folio folio folios

-- `reduce((s, d) => s + xmlAmount(d.xmlContent, tag), 0)`
abbrev pub sum_amount : List ℕ → List Boleta → Signed
unfolding sum_signed xml_amount
sum_amount tag ds = sum_signed (plus 0) (map (λ d. xml_amount d.xml_content tag) ds)

-- The folios of the documents that are not annulled.
unfoldable pub active_folios : List Boleta → List ℕ
unfolding sort
active_folios ds = sort (map (λ d. d.folio) (filter (λ d. not (has_status DteStatus.anulado d)) ds))

unfoldable pub summary_of : ℕ → List Boleta → Summary
unfolding active_folios folio_ranges
summary_of type by_type = record {
  type = type;
  net_amount = sum_amount (codes "MntNeto") by_type;
  iva_amount = sum_amount (codes "IVA") by_type;
  exempt_amount = sum_amount (codes "MntExe") by_type;
  total_amount = sum_amount (codes "MntTotal") by_type;
  folios_emitidos = length by_type;
  folios_anulados = length (filter (has_status DteStatus.anulado) by_type);
  folios_utilizados = length (active_folios by_type);
  ranges = folio_ranges (active_folios by_type);
}

-- No summary for a type without boletas.
abbrev pub summaries_of : ℕ → List Boleta → List Summary
summaries_of type [] = []
summaries_of type (d ∷ ds) = summary_of type (d ∷ ds) ∷ []

unfoldable pub summarize : ℕ → List Boleta → List Summary
summarize type boletas = summaries_of type (filter (λ d. d.type == type) boletas)

unfoldable pub consolidate_day : List ℕ → List Boleta → List Summary
unfolding summarize is_boleta_of
consolidate_day date documents =
    let boletas = filter (is_boleta_of date) documents in
    summarize 39 boletas ++ summarize 41 boletas
