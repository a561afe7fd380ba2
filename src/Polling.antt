-- ===== src/Polling.antt =====
-- How the state of a transmitted document comes back: `pollSubmitted`, `pollRcofSubmitted` and
-- `requestsByTenant` of src/application/integrations/integration-processor.service.ts, for one request,
-- and `execute` of src/application/dte/query-dte-status.use-case.ts. The
-- tables are those of the tenant; what the writes and the SII answer is given, and the text of a
-- change of state leaves out its status and track id.
pub mod Final
pub mod Trail
pub mod Batch
use cmorflow_tax_api.Common.{
  is_some, ◌||◌, length, not, ltb, filter, ◌==◌, ◌&&◌, any, ◌++◌, truthy, str_eq, if◌then◌else◌,
  guard, find, ℕ, String, Result, Option, List, Bool, [], ◌∷◌, none, some, ok, err, true, false,
}
use cmorflow_tax_api.Request.{
  State, submitted, accepted, observed, rejected, cancelled, Kind, DteStatus, Request, Store,
  ErrorCode, map_dte_status_to_public, apply_state, includes, state_eq,
}
use cmorflow_tax_api.Rcof.Report.{RcofStatus, RcofSubmission, Reports, poll_status}

pub data SubmissionStatus : Type 0 where
  pendiente rechazado procesado : SubmissionStatus

pub record Submission : Type 0 where
  pub track_id : String
  pub status : SubmissionStatus

pub record Dte : Type 0 where
  pub id : ℕ
  pub track_id : Option String
  pub status : DteStatus
  pub status_history : List DteStatus

pub record Documents : Type 0 where
  pub submissions : List Submission
  pub dtes : List Dte

-- One query: the session, the SII's reply, and which of the three writes run.
pub record QueryAnswer : Type 0 where
  pub session : Bool
  pub reply : Option String
  pub submission_saved : Bool
  pub dte_saved : Bool
  pub audited : Bool

pub data QueryError : Type 0 where
  not_found no_session no_reply failed_write : QueryError

unfoldable pub submission_status : String → SubmissionStatus
submission_status reply =
    if str_eq reply "PROCESANDO"
    then pendiente
    else if str_eq reply "RECHAZADO"
    then rechazado
    else procesado

-- The replies that change the document.
unfoldable pub reported_status : String → Option DteStatus
reported_status reply =
    if str_eq reply "ACEPTADO"
    then some DteStatus.aceptado
    else if str_eq reply "RECHAZADO"
    then some DteStatus.rechazado
    else if str_eq reply "REPARO"
    then some DteStatus.reparo
    else none

abbrev pub is_track : String → Option String → Bool
is_track t none = false
is_track t (some s) = str_eq s t

abbrev pub with_report : Option DteStatus → Dte → Dte
with_report none d = d
with_report (some s) d = record d { status = s; status_history = d.status_history ++ s ∷ [] }

-- An update of the first row that passes the test.
abbrev pub update_first {ℓ} : {A : Type ℓ} → (A → Bool) → (A → A) → List A → List A
update_first p change [] = []
update_first p change (x ∷ xs) =
    let rest = update_first p change xs in if p x then change x ∷ xs else x ∷ rest

-- The writes of a query, joined.
unfoldable pub record_status : QueryAnswer → String → String → Documents → Documents
unfolding submission_status reported_status
record_status a track_id reply w = record {
  submissions =
      if a.submission_saved
      then update_first (λ s. str_eq s.track_id track_id)
          (λ s. record s { status = submission_status reply }) w.submissions
      else w.submissions;
  dtes =
      if a.dte_saved
      then update_first (λ d. is_track track_id d.track_id) (with_report (reported_status reply))
          w.dtes
      else w.dtes;
}

abbrev pub QueryResult : Type 0
QueryResult = Result QueryError (Unit {0}) × Documents

unfoldable pub after_reply : QueryAnswer → String → Documents → Option String → QueryResult
unfolding record_status
after_reply a track_id w none = (err no_reply, w)
after_reply a track_id w (some reply) = (
  guard (a.submission_saved && a.dte_saved && a.audited) failed_write,
  record_status a track_id reply w,
)

-- QueryDteStatusUseCase.execute.
unfoldable pub query_dte_status : QueryAnswer → String → Documents → QueryResult
unfolding after_reply
query_dte_status a track_id w =
    if any (λ s. str_eq s.track_id track_id) w.submissions
    then if a.session then after_reply a track_id w a.reply else (err no_session, w)
    else (err not_found, w)

abbrev pub get_dte : Option ℕ → Documents → Option Dte
get_dte none w = none
get_dte (some id) w = find (λ d. d.id == id) w.dtes

unfoldable pub public_of : Option Dte → Option State
unfolding map_dte_status_to_public
public_of none = none
public_of (some d) = map_dte_status_to_public (some d.status)

-- The states that a poll consolidates.
abbrev pub reported_states : List State
reported_states = accepted ∷ observed ∷ rejected ∷ cancelled ∷ []

abbrev pub reported : Option State → Option State
reported none = none
reported (some s) = if includes reported_states s then some s else none

-- What the row and the outbox are after a call that may be refused; the refusal is logged.
abbrev pub kept_store : Store → Result ErrorCode (Request × Store) → Store
kept_store store (ok (request, after)) = after
kept_store store (err e) = store

unfoldable pub consolidate_state : ℕ → Request → Option State → Store → Store
consolidate_state now request none store = store
consolidate_state now request (some s) store =
    kept_store store (apply_state now request s "SII responde" store)

-- After the query: the document is read again.
unfoldable pub after_query : ℕ → Request → QueryResult → Store → Store × Documents
unfolding consolidate_state public_of
after_query now request (err e, w) store = (store, w)
after_query now request (ok _, w) store =
    (consolidate_state now request (reported (public_of (get_dte request.dte_id w))) store, w)

unfoldable pub query_found :
    ℕ → QueryAnswer → Request → Option String → Store → Documents → Store × Documents
unfolding query_dte_status after_query
query_found now a request none store w = (store, w)
query_found now a request (some track_id) store w =
    after_query now request (query_dte_status a track_id w) store

abbrev pub track_of : Option Dte → Option String
track_of none = none
track_of (some d) = truthy d.track_id

-- The body of the loop of `pollSubmitted`.
unfoldable pub poll_request : ℕ → QueryAnswer → Request → Store → Documents → Store × Documents
unfolding query_found
poll_request now a request store w =
    query_found now a request (track_of (get_dte request.dte_id w)) store w

unfoldable pub public_of_report : RcofStatus → Option State
public_of_report RcofStatus.submitted = none
public_of_report RcofStatus.accepted = some accepted
public_of_report RcofStatus.observed = some observed
public_of_report RcofStatus.rejected = some rejected
public_of_report RcofStatus.failed = none

-- The report's status in the loop of `pollRcofSubmitted`: known, asked for, or left alone.
unfoldable pub refreshed_report :
    Option String → Bool → RcofSubmission → RcofStatus → Reports → Option RcofSubmission × Reports
unfolding poll_status
refreshed_report reply updated rcof RcofStatus.accepted w = (some rcof, w)
refreshed_report reply updated rcof RcofStatus.rejected w = (some rcof, w)
refreshed_report reply updated rcof RcofStatus.failed w = (none, w)
refreshed_report reply updated rcof RcofStatus.submitted w =
    let (r, w') = poll_status reply updated rcof w in (some r, w')
refreshed_report reply updated rcof RcofStatus.observed w =
    let (r, w') = poll_status reply updated rcof w in (some r, w')

unfoldable pub state_of_report : Option RcofSubmission → Option State
unfolding public_of_report
state_of_report none = none
state_of_report (some r) = public_of_report r.status

-- The body of the loop of `pollRcofSubmitted`, for the report that was read.
unfoldable pub poll_rcof_request :
    ℕ → Option String → Bool → Request → Option RcofSubmission → Store → Reports → Store × Reports
unfolding refreshed_report consolidate_state
poll_rcof_request now reply updated request none store w = (store, w)
poll_rcof_request now reply updated request (some rcof) store w =
    let (found, w') = refreshed_report reply updated rcof rcof.status w in
    (consolidate_state now request (state_of_report found) store, w')

abbrev kind_is_rcof : Kind → Bool
kind_is_rcof Kind.rcof = true
kind_is_rcof Kind.dte = false
kind_is_rcof Kind.credit_note = false
kind_is_rcof Kind.debit_note = false

-- The requests that a poll skips.
abbrev pub is_skipped : Bool → Request → Bool
is_skipped true r = not (kind_is_rcof r.kind) || not (is_some r.rcof_id)
is_skipped false r = kind_is_rcof r.kind

-- `addRequest`, on the list of the tenant.
abbrev pub add_request : ℕ → Bool → Request → List Request → List Request
add_request limit rcof_only r batch =
    if is_skipped rcof_only r
    then batch
    else if ltb (length batch) limit
    then batch ++ r ∷ []
    else batch

abbrev pub add_requests : ℕ → Bool → List Request → List Request → List Request
add_requests limit rcof_only [] batch = batch
add_requests limit rcof_only (r ∷ rs) batch =
    add_requests limit rcof_only rs (add_request limit rcof_only r batch)

-- The rows that the repository of a tenant finds in a state.
abbrev pub in_state : String → State → List Request → List Request
in_state tenant_id s rows = filter (λ r. str_eq r.tenant_id tenant_id && state_eq r.state s) rows

-- `requestsByTenant`, for one tenant: its requests that are submitted, then those observed.
unfoldable pub requests_of_tenant : ℕ → Bool → String → List Request → List Request
requests_of_tenant limit rcof_only tenant_id rows =
    add_requests limit rcof_only (in_state tenant_id observed rows)
      (add_requests limit rcof_only (in_state tenant_id submitted rows) [])
