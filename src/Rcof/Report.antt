-- ===== src/Rcof/Report.antt =====
-- src/application/integrations/generate-rcof.use-case.ts: `execute`, `transmit` and `pollStatus`, over the
-- table of reports and what the SII has received. What the outside answers in one call is an
-- `Exchange`: each read, write and call runs or throws, and an envelope may arrive although its
-- answer is lost. The signing of the XML and the SII's token are part of it.
pub mod Table
pub mod Count
pub mod Once
pub mod Saved
use cmorflow_tax_api.Common.{
  is_date_format, ◌||◌, not, ◌&&◌, truthy, is_digit, find, ◌==◌, ◌++◌, str_eq, map, is_some, codes,
  all, ℕ, if◌then◌else◌, String, Result, Option, List, Bool, [], ◌∷◌, none, some, ok, err, true,
  false,
}
use cmorflow_tax_api.Rcof.Day.{Boleta, Summary, consolidate_day}

pub data RcofStatus : Type 0 where
  submitted accepted observed rejected failed : RcofStatus

pub record RcofSubmission : Type 0 where
  pub id : ℕ
  pub tenant_id : String
  pub period_date : String
  pub sequence : ℕ
  pub xml_content : String
  pub track_id : Option String
  pub status : RcofStatus

pub record Reports : Type 0 where
  pub rows : List RcofSubmission
  pub sends : List ℕ  -- the ids of the reports that arrived, the last first

pub record Exchange : Type 0 where
  pub new_id : ℕ
  pub found : Bool  -- the first read runs
  pub documents : Option (List Boleta)
  pub signed : Option String  -- the signed XML
  pub created : Bool
  pub token : Bool
  pub arrives : Bool  -- the envelope reaches the SII
  pub answer : Option String  -- its track id
  pub recorded : Bool  -- the update after the answer runs
  pub marked : Bool  -- the update of the `catch` runs

pub data RcofError : Type 0 where
  bad_date no_boletas failed_read failed_signature failed_create failed_transmission : RcofError

unfoldable pub is_report : String → String → ℕ → RcofSubmission → Bool
is_report tenant_id date sequence r =
    str_eq r.tenant_id tenant_id && str_eq r.period_date date && (r.sequence == sequence)

abbrev pub is_final : RcofStatus → Bool
is_final RcofStatus.submitted = false
is_final RcofStatus.accepted = true
is_final RcofStatus.observed = true
is_final RcofStatus.rejected = true
is_final RcofStatus.failed = false

-- `existing.trackId || [...].includes(existing.status)`
unfoldable pub is_settled : RcofSubmission → Bool
is_settled r = is_some (truthy r.track_id) || is_final r.status

-- `rcofSubmission.update`: the fields of a patch, on the row with the id.
abbrev pub update_report :
    ℕ → (RcofSubmission → RcofSubmission) → List RcofSubmission → List RcofSubmission
update_report id patch rows = map (λ r. if r.id == id then patch r else r) rows

abbrev pub as_sent : String → RcofSubmission → RcofSubmission
as_sent track_id r = record r { track_id = some track_id; status = RcofStatus.submitted }

abbrev pub as_failed : RcofSubmission → RcofSubmission
as_failed r = record r { status = RcofStatus.failed }

abbrev pub Answer : Type 0
Answer = Result RcofError RcofSubmission × Reports

-- The `catch` of `transmit`, which throws again.
abbrev pub transmission_failed : Exchange → ℕ → Reports → Answer
transmission_failed x id w = (
  err failed_transmission,
  if x.marked then record w { rows = update_report id as_failed w.rows } else w,
)

-- What follows the call of the SII.
abbrev pub after_answer : Exchange → RcofSubmission → Option String → Reports → Answer
after_answer x rcof none w = transmission_failed x rcof.id w
after_answer x rcof (some track_id) w =
    if x.recorded
    then (
      ok (as_sent track_id rcof),
      record w { rows = update_report rcof.id (as_sent track_id) w.rows },
    )
    else transmission_failed x rcof.id w

unfoldable pub transmit : Exchange → RcofSubmission → Reports → Answer
transmit x rcof w =
    if x.token
    then after_answer x rcof x.answer
        (if x.arrives then record w { sends = rcof.id ∷ w.sends } else w)
    else transmission_failed x rcof.id w

abbrev pub new_report : Exchange → String → String → ℕ → String → RcofSubmission
new_report x tenant_id date sequence xml = record {
  id = x.new_id;
  tenant_id = tenant_id;
  period_date = date;
  sequence = sequence;
  xml_content = xml;
  track_id = none;
  status = RcofStatus.submitted;
}

-- The report is saved before it is sent.
unfoldable pub create_and_transmit : Exchange → RcofSubmission → Reports → Answer
unfolding transmit
create_and_transmit x rcof w =
    if x.created
    then transmit x rcof (record w { rows = w.rows ++ rcof ∷ [] })
    else (err failed_create, w)

unfoldable pub from_summaries :
    Exchange → String → String → ℕ → Reports → Option String → List Summary → Answer
unfolding create_and_transmit
from_summaries x tenant_id date sequence w signed [] = (err no_boletas, w)
from_summaries x tenant_id date sequence w none (_ ∷ _) = (err failed_signature, w)
from_summaries x tenant_id date sequence w (some xml) (_ ∷ _) =
    create_and_transmit x (new_report x tenant_id date sequence xml) w

unfoldable pub generate : Exchange → String → String → ℕ → Reports → Option (List Boleta) → Answer
unfolding consolidate_day from_summaries
generate x tenant_id date sequence w none = (err failed_read, w)
generate x tenant_id date sequence w (some documents) =
    from_summaries x tenant_id date sequence w x.signed (consolidate_day (codes date) documents)

unfoldable pub continue_existing :
    Exchange → String → String → ℕ → Reports → Option RcofSubmission → Answer
unfolding is_settled transmit generate
continue_existing x tenant_id date sequence w none =
    generate x tenant_id date sequence w x.documents
continue_existing x tenant_id date sequence w (some existing) =
    if is_settled existing then (ok existing, w) else transmit x existing w

unfoldable pub execute : Exchange → String → String → ℕ → Reports → Answer
unfolding is_date_format is_report continue_existing
execute x tenant_id date sequence w =
    if is_date_format (codes date)
    then if x.found
      then continue_existing x tenant_id date sequence w
          (find (is_report tenant_id date sequence) w.rows)
      else (err failed_read, w)
    else (err bad_date, w)

-- The status that the SII's answer to a query stands for.
abbrev pub mapped_status : String → RcofStatus → RcofStatus
mapped_status reply status =
    if str_eq reply "ACEPTADO"
    then RcofStatus.accepted
    else if str_eq reply "REPARO"
    then RcofStatus.observed
    else if str_eq reply "RECHAZADO"
    then RcofStatus.rejected
    else status

abbrev pub status_rank : RcofStatus → ℕ
status_rank RcofStatus.submitted = 0
status_rank RcofStatus.accepted = 1
status_rank RcofStatus.observed = 2
status_rank RcofStatus.rejected = 3
status_rank RcofStatus.failed = 4

-- The update of a status that changes, where it runs.
abbrev pub save_status : Bool → RcofStatus → RcofSubmission → Reports → RcofSubmission × Reports
save_status updated mapped rcof w =
    if not (status_rank mapped == status_rank rcof.status) && updated
    then (
      record rcof { status = mapped },
      record w { rows = update_report rcof.id (λ r. record r { status = mapped }) w.rows },
    )
    else (rcof, w)

-- `pollStatus`: the reply of the SII, if the query runs, and whether the update does. Its errors are
-- only logged.
unfoldable pub poll_status :
    Option String → Bool → RcofSubmission → Reports → RcofSubmission × Reports
poll_status none updated rcof w = (rcof, w)
poll_status (some reply) updated rcof w =
    if is_some (truthy rcof.track_id)
    then save_status updated (mapped_status reply rcof.status) rcof w
    else (rcof, w)
