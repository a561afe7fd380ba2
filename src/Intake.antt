-- ===== src/Intake.antt =====
-- src/application/integrations/integration-request.service.ts: `enqueue`, with the unique indexes of
-- the table (tenant, kind, resource and idempotency key; tenant and external reference). Two calls may
-- race: `seen` is what the first reads saw, and `rows` is the table when the call inserts. SHA-256 is a
-- parameter.
pub mod Idempotence
pub mod Payload
use cmorflow_tax_api.Common.{
  true, [], ◌∷◌, ◌||◌, ◌&&◌, ok, not, err, ◌==◌, str_eq, some, none, if◌then◌else◌, find, false,
  any, ℕ, String, Result, Option, List, Bool, truthy,
}
use cmorflow_tax_api.Request.{Request, Kind, State, queued, HistoryEntry}

pub record Entry : Type 0 where
  pub request : Request
  pub resource_key : String
  pub idempotency_key : String
  pub request_hash : String
  pub external_reference : Option String

-- EnqueueInput, with the document type of the payload.
pub record EnqueueInput : Type 0 where
  pub tenant_id : String
  pub credential_id : Option String
  pub kind : Kind
  pub idempotency_key : String
  pub resource_key : Option String
  pub raw_body : String
  pub document_type : ℕ
  pub external_reference : Option String

pub data IntakeError : Type 0 where
  idempotency_conflict external_reference_conflict unique_violation : IntakeError

abbrev kind_rank : Kind → ℕ
kind_rank Kind.dte = 0
kind_rank Kind.credit_note = 1
kind_rank Kind.debit_note = 2
kind_rank Kind.rcof = 3

abbrev pub kind_eq : Kind → Kind → Bool
kind_eq a b = kind_rank a == kind_rank b

abbrev pub or_empty : Option String → String
or_empty none = ""
or_empty (some s) = s

unfoldable pub is_same_key : EnqueueInput → Entry → Bool
is_same_key input e =
    str_eq e.request.tenant_id input.tenant_id
    && kind_eq e.request.kind input.kind
    && str_eq e.resource_key (or_empty input.resource_key)
    && str_eq e.idempotency_key input.idempotency_key

abbrev is_reference : String → Option String → Bool
is_reference r none = false
is_reference r (some s) = str_eq s r

unfoldable pub has_reference : String → String → Entry → Bool
has_reference tenant_id r e =
    str_eq e.request.tenant_id tenant_id && is_reference r e.external_reference

-- The row that `create` inserts; its id is drawn.
unfoldable pub new_entry : String → ℕ → String → EnqueueInput → Entry
new_entry hash now id input = record {
  request = record {
    id = id;
    tenant_id = input.tenant_id;
    kind = input.kind;
    document_type = input.document_type;
    state = queued;
    dte_id = none;
    rcof_id = none;
    origin_credential_id = input.credential_id;
    attempts = 0;
    max_attempts = 5;
    next_attempt_at = now;
    locked_at = none;
    last_error = none;
    state_history =
        record {
          state = queued;
          timestamp = now;
          detail = "Solicitud recibida (202).";
          from = none;
        }
        ∷ [];
    transmission_started_at = none;
    submitted_at = none;
    finalized_at = none;
  };
  resource_key = or_empty input.resource_key;
  idempotency_key = input.idempotency_key;
  request_hash = hash;
  external_reference = input.external_reference;
}

-- A reference that is there, empty or not, must be unique in the tenant.
abbrev reference_taken : String → Option String → List Entry → Bool
reference_taken tenant_id none rows = false
reference_taken tenant_id (some r) rows = any (has_reference tenant_id r) rows

-- The unique indexes refuse the row.
unfoldable pub violates : EnqueueInput → List Entry → Bool
violates input rows =
    any (is_same_key input) rows || reference_taken input.tenant_id input.external_reference rows

abbrev pub by_reference : String → Option String → List Entry → Option Entry
by_reference tenant_id none rows = none
by_reference tenant_id (some r) rows = find (has_reference tenant_id r) rows

-- The entry, whether it was there before, and the rows.
abbrev pub Answer : Type 0
Answer = Result IntakeError ((Entry × Bool) × List Entry)

-- A row with the same key: the same body is answered again, another is a conflict.
abbrev pub replay : String → List Entry → Entry → Answer
replay hash rows e =
    if str_eq e.request_hash hash then ok ((e, true), rows) else err idempotency_conflict

abbrev pub reference_race : Option Entry → Answer
reference_race (some other) = err external_reference_conflict
reference_race none = err unique_violation

-- The `catch` around `create`: the winner of the race answers, if it has the key.
abbrev pub after_violation : String → EnqueueInput → List Entry → Option Entry → Answer
after_violation hash input rows (some raced) = replay hash rows raced
after_violation hash input rows none =
    reference_race (by_reference input.tenant_id (truthy input.external_reference) rows)

unfoldable pub insert_entry : String → ℕ → String → EnqueueInput → List Entry → Answer
insert_entry hash now id input rows =
    if violates input rows
    then after_violation hash input rows (find (is_same_key input) rows)
    else ok ((new_entry hash now id input, false), new_entry hash now id input ∷ rows)

-- The check of the external reference, on what the read saw.
abbrev pub other_key : EnqueueInput → Option Entry → Bool
other_key input none = false
other_key input (some e) = not (str_eq e.idempotency_key input.idempotency_key)

abbrev pub after_read :
    String → ℕ → String → EnqueueInput → (seen rows : List Entry) → Option Entry → Answer
after_read hash now id input seen rows (some existing) = replay hash rows existing
after_read hash now id input seen rows none =
    if other_key input (by_reference input.tenant_id (truthy input.external_reference) seen)
    then err external_reference_conflict
    else insert_entry hash now id input rows

unfoldable pub enqueue :
    (String → String) → ℕ → String → EnqueueInput → (seen rows : List Entry) → Answer
enqueue sha256 now id input seen rows =
    after_read (sha256 input.raw_body) now id input seen rows (find (is_same_key input) seen)
