-- ===== src/Preflight.antt =====
-- src/infrastructure/framework/sii/sii-xsd.validator.ts: the checks of `validateSurgicalRules` on the
-- text of an EnvioDTE before it is sent, and the `<Totales>` that `buildDte` of
-- src/infrastructure/framework/sii/dte-xml.engine.ts writes. xmllint, which `validateEnvioDte` runs after
-- them where it is switched on, is outside.
pub mod Written
pub mod Blocks
pub mod Balance
pub mod Documents
pub mod Agreement
use cmorflow_tax_api.Common.{
  take, ◌-◌, ◌&&◌, map, if◌then◌else◌, ◌||◌, ◌==◌, ◌+◌, ◌++◌, true, not, none, minus, length,
  is_some, ◌∷◌, some, plus, false, codes, [], ℕ, Signed, Option, List, Bool, zero, suc,
}
use mathlib.Core.Option.{map as Option_map}
use cmorflow_tax_api.Totals.{add_signed, sum_signed, DteTotals, difference}
use cmorflow_tax_api.Xml.{
  lower, is_word, after_prefix, ends_word, after_angle, before, through, closing, trim,
  number_element,
}
use cmorflow_tax_api.Caf.{decimal_from, show}

-- `<name\b`
abbrev pub opens_at : List ℕ → List ℕ → Bool
opens_at name s = elim (after_prefix (b'<' ∷ name) s) [ none ↦ false | some rest ↦ ends_word rest ]

unfoldable pub opens : List ℕ → List ℕ → Bool
opens name [] = false
opens name (c ∷ cs) = let later = opens name cs in opens_at name (c ∷ cs) || later

-- `[^>]*\bID=`, after a character that is in a word or not.
abbrev pub has_id : Bool → List ℕ → Bool
has_id in_word [] = false
has_id in_word (c ∷ cs) =
    let later = has_id (is_word c) cs in
    (not in_word && is_some (after_prefix (codes "ID=") (c ∷ cs))) || (not (c == b'>') && later)

abbrev pub opens_id_at : List ℕ → List ℕ → Bool
opens_id_at name s = elim (after_prefix (b'<' ∷ name) s) [
  | none ↦ false
  | some rest ↦ ends_word rest && has_id true rest
]

-- `<name\b[^>]*\bID=`
unfoldable pub opens_id : List ℕ → List ℕ → Bool
opens_id name [] = false
opens_id name (c ∷ cs) = let later = opens_id name cs in opens_id_at name (c ∷ cs) || later

abbrev pub block_at : List ℕ → List ℕ → Option (List ℕ)
block_at name s = elim (after_prefix (b'<' ∷ name) s) [
  | none ↦ none
  | some rest ↦
      if ends_word rest
      then Option_map (λ v. take (length name + 1) s ++ v) (through (closing name) rest)
      else none
]

-- `xml.match(/<name\b[\s\S]*?<\/name>/gi)`: `k` characters of a block are passed over.
unfoldable pub blocks_from : ℕ → List ℕ → List ℕ → List (List ℕ)
blocks_from k name [] = []
blocks_from (suc k) name (c ∷ cs) = blocks_from k name cs
blocks_from zero name (c ∷ cs) = elim (block_at name (c ∷ cs)) [
  | some block ↦ block ∷ blocks_from (length block - 1) name cs
  | none ↦ blocks_from zero name cs
]

abbrev pub has_block : List ℕ → List ℕ → Bool
has_block name s = elim (blocks_from 0 name s) [ [] ↦ false | _ ∷ _ ↦ true ]

abbrev pub has_encoding : List ℕ → Bool
has_encoding [] = false
has_encoding (c ∷ cs) =
    let later = has_encoding cs in
    is_some (after_prefix (codes "encoding=\"ISO-8859-1\"") (c ∷ cs)) || (not (c == b'>') && later)

-- `/^<\?xml[^>]*encoding="ISO-8859-1"/i`, on the trimmed text.
unfoldable pub declares_encoding : List ℕ → Bool
declares_encoding xml = elim (after_prefix (codes "<?xml") (trim xml)) [
  | none ↦ false
  | some rest ↦ has_encoding rest
]

pub data PreflightError : Type 0 where
  no_encoding no_envio no_set no_signature no_dte : PreflightError
  no_document no_ted unsigned_dte no_total unbalanced : ℕ → PreflightError  -- of the DTE by its number

-- `errors.push` where a test fails.
abbrev pub unless : {E : Type 0} → Bool → E → List E
unless true e = []
unless false e = e ∷ []

-- `numberTag`
abbrev pub number_tag : List ℕ → List ℕ → Option ℕ
number_tag name xml = Option_map (decimal_from 0) (number_element name xml)

abbrev pub or_zero : Option ℕ → ℕ
or_zero none = 0
or_zero (some n) = n

abbrev pub total_errors : ℕ → ℕ → Option ℕ → List PreflightError
total_errors index sum none = no_total index ∷ []
total_errors index sum (some total) = unless (sum == total) (unbalanced index)

unfoldable pub check_totals : ℕ → List ℕ → List PreflightError
check_totals index xml =
    total_errors index
      (or_zero (number_tag (codes "MntNeto") xml)
        + or_zero (number_tag (codes "MntExe") xml)
        + or_zero (number_tag (codes "IVA") xml))
      (number_tag (codes "MntTotal") xml)

-- One turn of the `forEach` over the DTEs.
unfoldable pub check_dte : ℕ → List ℕ → List PreflightError
unfolding opens_id blocks_from check_totals
check_dte index xml =
    unless (opens_id (codes "Documento") xml) (no_document index)
    ++ (unless (has_block (codes "TED") xml) (no_ted index)
        ++ (unless (has_block (codes "Signature") xml) (unsigned_dte index)
            ++ check_totals index xml))

abbrev pub check_dtes : ℕ → List (List ℕ) → List PreflightError
check_dtes index [] = []
check_dtes index (dte ∷ dtes) = check_dte index dte ++ check_dtes (index + 1) dtes

abbrev pub is_nonempty_list {ℓ} : {A : Type ℓ} → List A → Bool
is_nonempty_list [] = false
is_nonempty_list (_ ∷ _) = true

-- The errors that `validateSurgicalRules` throws, none where it returns.
unfoldable pub validate_surgical_rules : List ℕ → List PreflightError
unfolding opens opens_id blocks_from declares_encoding check_dte
validate_surgical_rules xml =
    let dtes = blocks_from 0 (codes "DTE") xml in
    unless (declares_encoding xml) no_encoding
    ++ (unless (opens (codes "EnvioDTE") xml) no_envio
        ++ (unless (opens_id (codes "SetDTE") xml) no_set
            ++ (unless (has_block (codes "Signature") xml) no_signature
                ++ (unless (is_nonempty_list dtes) no_dte ++ check_dtes 1 dtes))))

-- A retention, its rate as the text that it prints.
pub record Retention : Type 0 where
  pub type : ℕ
  pub rate : Option (List ℕ)
  pub amount : Signed

unfoldable pub show_signed : Signed → List ℕ
show_signed (plus n) = show n
show_signed (minus zero) = show 0
show_signed (minus (suc n)) = b'-' ∷ show (suc n)

abbrev pub rate_xml : Option (List ℕ) → List ℕ → List ℕ
rate_xml none rest = rest
rate_xml (some rate) rest = codes "<TasaImp>" ++ (rate ++ (codes "</TasaImp>" ++ rest))

-- `imptoRetenXml`, before `rest`.
unfoldable pub retentions_xml : ℕ → List Retention → List ℕ → List ℕ
unfolding show_signed
retentions_xml number [] rest = rest
retentions_xml number (r ∷ rs) rest =
    codes "<ImptoReten><NroImpto>"
    ++ (show number
        ++ (codes "</NroImpto><TipoImp>"
            ++ (show r.type
                ++ (codes "</TipoImp>"
                    ++ rate_xml r.rate (
                        codes "<MontoImp>"
                        ++ (show_signed r.amount
                            ++ (codes "</MontoImp></ImptoReten>"
                                ++ retentions_xml (number + 1) rs rest)))))))

abbrev pub negated : Signed → Signed
negated (plus zero) = plus 0
negated (plus (suc n)) = minus (suc n)
negated (minus n) = plus n

-- `computedTotal`
unfoldable pub computed_total : DteTotals → List Retention → Signed
unfolding add_signed sum_signed
computed_total t [] = t.total_amount
computed_total t (r ∷ rs) =
    add_signed (plus (t.net_amount + t.exempt_amount + t.iva_amount))
      (negated (sum_signed (plus 0) (map Retention.amount (r ∷ rs))))

abbrev pub net_xml : ℕ → ℕ → List ℕ → List ℕ
net_xml zero iva rest = rest
net_xml (suc net) iva rest =
    codes "<MntNeto>"
    ++ (show (suc net)
        ++ (codes "</MntNeto><TasaIVA>19</TasaIVA><IVA>" ++ (show iva ++ (codes "</IVA>" ++ rest))))

abbrev pub exempt_xml : ℕ → List ℕ → List ℕ
exempt_xml zero rest = rest
exempt_xml (suc exempt) rest =
    codes "<MntExe>" ++ (show (suc exempt) ++ (codes "</MntExe>" ++ rest))

-- The `<Totales>` of a DTE, and what follows.
unfoldable pub totals_xml : DteTotals → List Retention → List ℕ → List ℕ
unfolding retentions_xml show_signed computed_total
totals_xml t retentions rest =
    codes "<Totales>"
    ++ net_xml t.net_amount t.iva_amount (
        exempt_xml t.exempt_amount (
          retentions_xml 1 retentions (
            codes "<MntTotal>"
            ++ (show_signed (computed_total t retentions)
                ++ (codes "</MntTotal></Totales>" ++ rest)))))
