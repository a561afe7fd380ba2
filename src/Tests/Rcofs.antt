-- ===== src/Tests/Rcofs.antt =====
-- The theorems on the daily report at a concrete day.
use cmorflow_tax_api.Common.{
  is_date_format, ◌∙◌, sym, ◌+◌, ◌≤◌, refl, filter, codes, ◌≡◌, ℕ, plus, parse_int_codes, length,
  List, All, none, some, [], ◌∷◌, true,
}
use cmorflow_tax_api.Rcof.Report.{
  Exchange, Reports, execute, is_report, continue_existing, generate, from_summaries,
  create_and_transmit, transmit, is_settled,
}
use cmorflow_tax_api.Request.{DteStatus}
use cmorflow_tax_api.Totals.{sum_signed, add_signed}
use cmorflow_tax_api.Rcof.Day.{
  Boleta, Summary, extract_xml_value, xml_amount, is_boleta_of, active_folios, sort, insert,
  folio_ranges, ranges_from, summary_of, summarize, consolidate_day,
}
use cmorflow_tax_api.Rcof.Day.Ranges.{expand, folio_ranges-expand}
use cmorflow_tax_api.Rcof.Day.Counts.{
  IsAccounted, of_type, total_issued, consolidate_day-AreAccounted,
}
use cmorflow_tax_api.Rcof.Report.Once.{Operation, generating, operate, operate-sends, lost_count}
use cmorflow_tax_api.Rcof.Report.Saved.{operate-recovers, IsSettled}

abbrev boleta_of : ℕ → DteStatus → Boleta
boleta_of folio status = record {
  type = 39;
  folio = folio;
  status = status;
  xml_content = codes "<DTE><FchEmis>2026-01-05</FchEmis><MntTotal>1190</MntTotal></DTE>";
  created_on = none;
}

abbrev day : List ℕ
day = codes "2026-01-05"

abbrev documents_1 : List Boleta
documents_1 =
    boleta_of 12 DteStatus.enviado
    ∷ boleta_of 10 DteStatus.aceptado
    ∷ boleta_of 13 DteStatus.anulado
    ∷ boleta_of 11 DteStatus.enviado
    ∷ boleta_of 20 DteStatus.enviado
    ∷ boleta_of 21 DteStatus.borrador
    ∷ []

abbrev summary_1 : Summary
summary_1 = record {
  type = 39;
  net_amount = plus 0;
  iva_amount = plus 0;
  exempt_amount = plus 0;
  total_amount = plus 5950;
  folios_emitidos = 5;
  folios_anulados = 1;
  folios_utilizados = 4;
  ranges = record { start = 10; end = 12 } ∷ record { start = 20; end = 20 } ∷ [];
}

consolidates : consolidate_day day documents_1 ≡ summary_1 ∷ []
unfolding consolidate_day summarize is_boleta_of extract_xml_value summary_of active_folios sort
    insert folio_ranges ranges_from xml_amount sum_signed add_signed parse_int_codes
consolidates = refl

folio_ranges-expand_example : expand (folio_ranges (10 ∷ 11 ∷ 20 ∷ [])) ≡ 10 ∷ 11 ∷ 20 ∷ []
folio_ranges-expand_example = folio_ranges-expand (10 ∷ 11 ∷ 20 ∷ [])

consolidate_day-AreAccounted_example :
    All
      (λ s. IsAccounted (of_type s.type (filter (is_boleta_of day) documents_1)) s)
      (consolidate_day day documents_1)
    × (total_issued (consolidate_day day documents_1)
        ≡ length (filter (is_boleta_of day) documents_1))
consolidate_day-AreAccounted_example = consolidate_day-AreAccounted day documents_1

-- The first envelope arrives, but its answer is lost.
abbrev lost_answer : Exchange
lost_answer = record {
  new_id = 7;
  found = true;
  documents = some documents_1;
  signed = some "<RCOF/>";
  created = true;
  token = true;
  arrives = true;
  answer = none;
  recorded = true;
  marked = true;
}

-- The second one is answered; its documents are not there any more.
abbrev answered : Exchange
answered = record lost_answer { documents = none; signed = none; answer = some "T7" }

abbrev no_reports : Reports
no_reports = record { rows = []; sends = [] }

abbrev twice : List Operation
twice = generating lost_answer ∷ generating answered ∷ generating answered ∷ []

sent_twice : (operate "t1" "2026-01-05" 1 twice no_reports).sends ≡ 7 ∷ 7 ∷ []
unfolding execute is_date_format is_report continue_existing generate from_summaries
    create_and_transmit transmit is_settled consolidate_day summarize is_boleta_of extract_xml_value
    summary_of active_folios sort insert folio_ranges ranges_from xml_amount sum_signed add_signed
    parse_int_codes
sent_twice = refl

operate-sends_example :
    length ((operate "t1" "2026-01-05" 1 twice no_reports).sends) ≤ 1 + lost_count twice
operate-sends_example = operate-sends "t1" "2026-01-05" 1 twice no_reports refl

first_sent : (operate "t1" "2026-01-05" 1 (generating lost_answer ∷ []) no_reports).sends ≡ 7 ∷ []
unfolding execute is_date_format is_report continue_existing generate from_summaries
    create_and_transmit transmit is_settled consolidate_day summarize is_boleta_of extract_xml_value
    summary_of active_folios sort insert folio_ranges ranges_from xml_amount sum_signed add_signed
    parse_int_codes
first_sent = refl

operate-recovers_example : IsSettled (
    execute answered "t1" "2026-01-05" 1
      (operate "t1" "2026-01-05" 1 (generating lost_answer ∷ []) no_reports))
unfolding is_date_format
operate-recovers_example =
    operate-recovers "t1" "2026-01-05" 1 (generating lost_answer ∷ []) answered no_reports refl
      (λ e. cc (sym first_sent ∙ e)) refl refl refl refl refl
