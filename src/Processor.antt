-- ===== src/Processor.antt =====
-- src/application/integrations/integration-processor.service.ts: how a worker serves a claimed request
-- of a DTE or a note, on PostgreSQL; and the claim of integration-queue.claimer.ts for one row. Rows
-- are never deleted, so the answers for a vanished request are left out, and so is `processRcof`.
pub mod Fence
use cmorflow_tax_api.Common.{
  ◌==◌, ◌&&◌, ◌||◌, true, ok, leb, ◌∷◌, ◌+◌, none, if◌then◌else◌, err, [], Bool, ℕ, some, false,
  String, Result, Option, List, codes,
}
use cmorflow_tax_api.Request.{
  State, processing, submitted, accepted, observed, rejected, failed, cancelled, queued, state_eq,
  includes, ErrorCode, folio_exhausted, sii_unavailable, invalid_state_transition, Request,
  RequestError, Store, map_dte_status_to_public, apply_state, schedule_retry,
}
use cmorflow_tax_api.Worker.{
  World, Database, Document, Outcome, returned, threw, died, M, ◌>>=◌, ◌>>◌, return, throw, tick,
  transaction, attempt, now, Fault,
}
use cmorflow_tax_api.Emit.{prepare, transmit as emit_transmit, get_document}

abbrev to_lower : ℕ → ℕ
to_lower c = if leb b'A' c && leb c b'Z' then c + 32 else c

abbrev starts_with : List ℕ → List ℕ → Bool
starts_with [] s = true
starts_with (p ∷ ps) [] = false
starts_with (p ∷ ps) (c ∷ s) = to_lower c == p && starts_with ps s

abbrev contains : List ℕ → List ℕ → Bool
contains p [] = starts_with p []
contains p (c ∷ s) = starts_with p (c ∷ s) || contains p s

-- `/caf|folio/i.test(message)`
unfoldable pub is_folio_issue : String → Bool
is_folio_issue message =
    contains (codes "caf") (codes message) || contains (codes "folio") (codes message)

abbrev pub store_of : World → Store
store_of w = record { row = w.db.row; outbox = w.db.outbox }

abbrev pub saved : Result ErrorCode (Request × Store) → M Request
saved (err e) w = (threw "Transición de estado no permitida.", w)
saved (ok (request, store)) w =
    (returned request, record w { db = record w.db { row = store.row; outbox = store.outbox } })

unfoldable pub apply : Request → State → String → M Request
apply request new_state detail = do
  tick
  λ w. saved (apply_state w.clock request new_state detail (store_of w)) w

unfoldable pub retry_later : Request → RequestError → M Request
retry_later request error = do
  tick
  λ w. saved (schedule_retry w.clock request error (store_of w)) w

unfoldable pub get_request : M Request
get_request = do tick; λ w. return w.db.row w

unfoldable pub update_request : (Request → Request) → M Request
update_request change = do
  tick
  λ w. return (change w.db.row) (record w { db = record w.db { row = change w.db.row } })

unfoldable pub handle_processing_error : Request → String → M Request
handle_processing_error fresh message = retry_later fresh (record {
  code = if is_folio_issue message then folio_exhausted else sii_unavailable;
  message = message;
  retryable = true;
})

abbrev ambiguous : RequestError
ambiguous = record {
  code = sii_unavailable;
  message = "Resultado de envío ambiguo; conciliar con SII antes de reintentar.";
  retryable = false;
}

unfoldable pub quarantine_transmission : Request → M Request
quarantine_transmission fresh =
    apply (record fresh { last_error = some ambiguous }) failed ambiguous.message

-- `markAttempt` once the fence of the latest row was read: the request as it is in memory afterwards,
-- or `none` for `false`.
unfoldable pub mark_fence : Request → Option ℕ → M (Option Request)
unfolding update_request
mark_fence fresh (some _) = return none
mark_fence fresh none = do
  time ← now
  _ ← update_request (λ r. record r { transmission_started_at = some time })
  return (some (record fresh { transmission_started_at = some time }))

unfoldable pub mark_attempt : Request → M (Option Request)
mark_attempt fresh = do
  tick  -- the row's lock
  latest ← get_request
  mark_fence fresh latest.transmission_started_at

-- After the `try` around the transmission.
unfoldable pub report : Request → Result String (Option String) → M Request
report started (err _) = quarantine_transmission started
report started (ok track_id) = apply started submitted "Transmitido al SII."

-- After the transaction of `markAttempt`.
unfoldable pub transmit_marked : Request → ℕ → Option Request → M Request
transmit_marked fresh dte_id none = quarantine_transmission fresh
transmit_marked fresh dte_id (some started) = do
  result ← attempt (emit_transmit dte_id)
  report started result

unfoldable pub transmit_from : Request → ℕ → Option ℕ → M Request
transmit_from fresh dte_id (some _) = quarantine_transmission fresh
transmit_from fresh dte_id none = do
  marked ← transaction (mark_attempt fresh)
  transmit_marked fresh dte_id marked

unfoldable pub transmit : Request → ℕ → M Request
unfolding transmit_from
transmit fresh dte_id = transmit_from fresh dte_id fresh.transmission_started_at

abbrev pub resolved_states : List State
resolved_states = accepted ∷ observed ∷ rejected ∷ cancelled ∷ []

abbrev pub resolved : Option State → Option State
resolved none = none
resolved (some s) = if includes resolved_states s then some s else none

-- The public state is consolidated, through `submitted` if the request is still in `processing`.
unfoldable pub consolidate : Request → State → M Request
consolidate fresh state = do
  sent ←
      if state_eq fresh.state processing
      then apply fresh submitted "DTE ya transmitido."
      else return fresh
  apply sent state "Estado SII"

unfoldable pub recover : Request → ℕ → Option String → M Request
recover fresh dte_id (some _) = apply fresh submitted "TrackID recuperado"
recover fresh dte_id none = transmit fresh dte_id

unfoldable pub finalize : Request → Document → Option State → M Request
finalize fresh dte (some state) = consolidate fresh state
finalize fresh dte none = recover fresh dte.id dte.track_id

unfoldable pub finalize_found : Request → Option Document → M Request
finalize_found fresh none = handle_processing_error fresh "DTE referenciado no existe"
finalize_found fresh (some dte) =
    finalize fresh dte (resolved (map_dte_status_to_public (some dte.status)))

unfoldable pub transmit_or_finalize : Request → ℕ → M Request
transmit_or_finalize fresh dte_id = do found ← get_document dte_id; finalize_found fresh found

-- The body of `prepareAndLink` on the request that it has read.
unfoldable pub link : Request → Option ℕ → M Request
link request (some _) = return request
link request none = do
  dte ← prepare request.document_type
  update_request (λ r. record r { dte_id = some dte.id })

-- Reserve and link, in one transaction that holds the row's lock.
unfoldable pub prepare_and_link : M Request
prepare_and_link = do
  tick  -- the row's lock
  request ← get_request
  link request request.dte_id

abbrev pub prepared_document : Option ℕ → M (Option Document)
prepared_document none = return none
prepared_document (some id) = get_document id

abbrev pub or_missing : Request → Option Document → M (Request × ℕ)
or_missing with_dte none = throw "DTE preparado no encontrado."
or_missing with_dte (some dte) = return (with_dte, dte.id)

-- The body of the `try` in `process`, up to the transmission, which it does not await.
unfoldable pub first_pass : M (Request × ℕ)
first_pass = do
  with_dte ← transaction prepare_and_link
  found ← prepared_document with_dte.dte_id
  or_missing with_dte found

-- After the `try` in `process`.
unfoldable pub after_first_pass : Request → Result String (Request × ℕ) → M Request
after_first_pass fresh (err message) = handle_processing_error fresh message
after_first_pass fresh (ok (with_dte, dte_id)) = transmit with_dte dte_id

unfoldable pub process_from : Request → Option ℕ → M Request
process_from fresh (some dte_id) = transmit_or_finalize fresh dte_id
process_from fresh none = do prepared ← attempt first_pass; after_first_pass fresh prepared

unfoldable pub process : M Request
process = do fresh ← get_request; process_from fresh fresh.dte_id

-- The condition of the claim's SELECT, at time `t`.
unfoldable pub is_claimable : ℕ → Request → Bool
is_claimable t r =
    state_eq r.state queued || (state_eq r.state processing && leb r.next_attempt_at t)

-- LOCK_TIMEOUT_SECONDS, in milliseconds.
abbrev pub lock_timeout_ms : ℕ
lock_timeout_ms = 600000

-- The claim's UPDATE.
unfoldable pub claimed : ℕ → Request → Request
claimed t r = record r {
  state = processing;
  locked_at = some t;
  next_attempt_at = t + lock_timeout_ms;
}

-- One pass of a worker over the request: its time, the faults that it meets and the SII's answers.
pub record Shift : Type 0 where
  pub time : ℕ
  pub faults : List Fault
  pub replies : List (Option String)

abbrev pub begin : Shift → World → World
begin shift w = record w { clock = shift.time; faults = shift.faults; replies = shift.replies }

-- `processDue` for this row: claim it if it is due, and process it. An exception is logged, and a
-- worker that dies leaves what it had committed.
unfoldable pub serve : Shift → World → World
serve shift w =
    if is_claimable shift.time w.db.row
    then (process
        (record (begin shift w) { db = record w.db { row = claimed shift.time w.db.row } })).1
    else begin shift w

unfoldable pub serve_all : List Shift → World → World
serve_all [] w = w
serve_all (shift ∷ shifts) w = serve_all shifts (serve shift w)
