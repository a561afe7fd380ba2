-- ===== src/Request.antt =====
-- src/application/integrations/integration-state.service.ts: the state machine of a B2B request, and
-- `IntegrationStateService`. Times are milliseconds since the epoch. The metrics and the log lines
-- are left out.
pub mod Transitions
pub mod Persist
pub mod Retry
use cmorflow_tax_api.Common.{
  text_append, length, get_or, ℕ, ◌+◌, ◌-◌, ◌*◌, min, String, Bool, true, false, ◌||◌, Option, none,
  some, List, [], ◌∷◌, ◌++◌, leb, ◌==◌, if◌then◌else◌, any, Result, ok, err,
}

pub data State : Type 0 where
  queued processing submitted accepted observed rejected failed cancelled : State

pub data Kind : Type 0 where
  dte credit_note debit_note rcof : Kind

-- The status column of a DTE document.
pub data DteStatus : Type 0 where
  borrador firmado enviado aceptado reparo rechazado anulado : DteStatus

pub State-discrete : Discrete State
State-discrete = hlevel

abbrev pub rank : State → ℕ
rank queued = 0
rank processing = 1
rank submitted = 2
rank accepted = 3
rank observed = 4
rank rejected = 5
rank failed = 6
rank cancelled = 7

-- `===` on states, which are strings in the source.
abbrev pub state_eq : State → State → Bool
state_eq a b = rank a == rank b

pub data ErrorCode : Type 0 where
  folio_exhausted sii_unavailable invalid_state_transition : ErrorCode

pub record RequestError : Type 0 where
  pub code : ErrorCode
  pub message : String
  pub retryable : Bool

pub record HistoryEntry : Type 0 where
  pub state : State
  pub timestamp : ℕ
  pub detail : String
  pub from : Option State

-- IntegrationRequestEntity.
pub record Request : Type 0 where
  pub id : String
  pub tenant_id : String
  pub kind : Kind
  pub document_type : ℕ
  pub state : State
  pub dte_id : Option ℕ
  pub rcof_id : Option ℕ
  pub origin_credential_id : Option String
  pub attempts : ℕ
  pub max_attempts : ℕ
  pub next_attempt_at : ℕ
  pub locked_at : Option ℕ
  pub last_error : Option RequestError
  pub state_history : List HistoryEntry
  pub transmission_started_at : Option ℕ
  pub submitted_at : Option ℕ
  pub finalized_at : Option ℕ

-- A webhook event of a request: its public state and detail.
pub record OutboxEvent : Type 0 where
  pub state : State
  pub detail : String

-- `null` where the status is not known.
unfoldable pub map_dte_status_to_public : Option DteStatus → Option State
map_dte_status_to_public none = none
map_dte_status_to_public (some DteStatus.borrador) = some processing
map_dte_status_to_public (some DteStatus.firmado) = some processing
map_dte_status_to_public (some DteStatus.enviado) = some submitted
map_dte_status_to_public (some DteStatus.aceptado) = some accepted
map_dte_status_to_public (some DteStatus.reparo) = some observed
map_dte_status_to_public (some DteStatus.rechazado) = some rejected
map_dte_status_to_public (some DteStatus.anulado) = some cancelled

unfoldable pub notifiable_states : List State
notifiable_states = submitted ∷ accepted ∷ observed ∷ rejected ∷ failed ∷ []

unfoldable pub terminal_states : List State
terminal_states = accepted ∷ rejected ∷ cancelled ∷ []

unfoldable pub allowed_transitions : State → List State
allowed_transitions queued = processing ∷ cancelled ∷ []
allowed_transitions processing = submitted ∷ failed ∷ cancelled ∷ []
allowed_transitions submitted = accepted ∷ observed ∷ rejected ∷ failed ∷ []
allowed_transitions accepted = []
allowed_transitions observed = accepted ∷ rejected ∷ []
allowed_transitions rejected = []
allowed_transitions failed = processing ∷ []
allowed_transitions cancelled = []

abbrev pub includes : List State → State → Bool
includes states s = any (state_eq s) states

unfoldable pub is_transition_allowed : State → State → Bool
unfolding allowed_transitions
is_transition_allowed from to = state_eq from to || includes (allowed_transitions from) to

-- What `persistState` returns and does: the request, whether it is written, the events dispatched.
pub record Persisted : Type 0 where
  pub request : Request
  pub written : Bool
  pub events : List OutboxEvent

-- The assignments of `persistState` to the request.
unfoldable pub moved : ℕ → Request → State → String → Request
unfolding terminal_states
moved now request new_state detail = record request {
  state = new_state;
  state_history =
      request.state_history
      ++ record { state = new_state; timestamp = now; detail = detail; from = some request.state }
        ∷ [];
  submitted_at = if state_eq new_state submitted then some now else request.submitted_at;
  finalized_at =
      if includes terminal_states new_state || state_eq new_state failed
      then some now
      else request.finalized_at;
}

-- The call of the dispatcher at its end.
unfoldable pub events_for : State → String → List OutboxEvent
unfolding notifiable_states
events_for new_state detail =
    if includes notifiable_states new_state
    then record { state = new_state; detail = detail } ∷ []
    else []

unfoldable pub persist_state : ℕ → Request → State → String → Result ErrorCode Persisted
persist_state now request new_state detail =
    if state_eq request.state new_state
    then ok (record { request = request; written = false; events = [] })
    else if is_transition_allowed request.state new_state
    then ok (record {
      request = moved now request new_state detail;
      written = true;
      events = events_for new_state detail;
    })
    else err invalid_state_transition

-- The row of the request and the events of the outbox.
pub record Store : Type 0 where
  pub row : Request
  pub outbox : List OutboxEvent

-- `applyState` on PostgreSQL: state and history come from the locked row, the other fields from the
-- request in memory; an error leaves the row and the outbox as they were.
unfoldable pub apply_state :
    ℕ → Request → State → String → Store → Result ErrorCode (Request × Store)
apply_state now request new_state detail store =
    let merged = record request {
      state = store.row.state;
      state_history = store.row.state_history;
    } in
    elim (persist_state now merged new_state detail) [
      | err e ↦ err e
      | ok saved ↦ ok (
        saved.request,
        record {
          row = if saved.written then saved.request else store.row;
          outbox = store.outbox ++ saved.events;
        },
      )
    ]

-- INTEGRATION_RETRY_BACKOFF_MS
abbrev pub integration_retry_backoff_ms : List ℕ
integration_retry_backoff_ms =
    60000 ∷ (5 * 60000) ∷ (15 * 60000) ∷ (60 * 60000) ∷ (6 * 60 * 60000) ∷ []

-- Its entry at `Math.min(attempts - 1, length - 1)`.
unfoldable pub retry_backoff_ms : ℕ → ℕ
retry_backoff_ms attempts =
    get_or integration_retry_backoff_ms
      (min (attempts - 1) (length integration_retry_backoff_ms - 1)) 0

-- `request.maxAttempts || 5`
abbrev pub attempt_limit : ℕ → ℕ
attempt_limit n = if n == 0 then 5 else n

-- `Reintentos agotados: ${error.message}`
abbrev pub exhausted_detail : RequestError → String
exhausted_detail error = text_append "Reintentos agotados: " error.message

-- The whole request in memory is written over the row, unless the attempts are used up.
unfoldable pub schedule_retry :
    ℕ → Request → RequestError → Store → Result ErrorCode (Request × Store)
schedule_retry now request error store =
    let tried = record request { attempts = request.attempts + 1; last_error = some error } in
    if leb (attempt_limit request.max_attempts) tried.attempts
    then apply_state now tried failed (exhausted_detail error) store
    else let waiting = record tried { next_attempt_at = now + retry_backoff_ms tried.attempts } in
      ok (waiting, record store { row = waiting })
