-- ===== src/Worker.antt =====
-- What a worker does to the world while it serves one request: the database of the tenant (the
-- request's row, the outbox of events, the configuration, the DTE documents), the envelopes that
-- reached the SII, and a list of faults that the environment chooses. Each database or network action
-- first meets one fault: it runs, throws, or the process dies. A transaction that does not return is
-- rolled back (src/infrastructure/framework/postgres/tenant-transaction.ts); what the SII received
-- stays received.
pub mod Rules
use cmorflow_tax_api.Common.{◌∷◌, err, [], ok, Option, ℕ, String, Result, List}
use cmorflow_tax_api.Folio.{TenantConfig}
use cmorflow_tax_api.Request.{Request, DteStatus, OutboxEvent}

-- DteDocumentEntity, without the XML and the party's data.
pub record Document : Type 0 where
  pub id : ℕ
  pub type : ℕ
  pub folio : ℕ
  pub status : DteStatus
  pub track_id : Option String

pub record Database : Type 0 where
  pub row : Request
  pub outbox : List OutboxEvent
  pub config : Option TenantConfig
  pub documents : List Document

pub data Fault : Type 0 where
  runs : Fault
  throws : String → Fault
  dies : Fault

-- `replies` are the SII's answers to the envelopes to come: a TrackID, or an error.
pub record World : Type 0 where
  pub db : Database
  pub sends : List ℕ
  pub replies : List (Option String)
  pub clock : ℕ
  pub faults : List Fault

-- An `Error`, by its message.
pub data Outcome (A : Type 0) : Type 0 where
  returned : A → Outcome A
  threw : String → Outcome A
  died : Outcome A

abbrev pub M : Type 0 → Type 0
M A = World → Outcome A × World

abbrev pub continue : {A B : Type 0} → Outcome A × World → (A → M B) → Outcome B × World
continue (returned a, w) f = f a w
continue (threw message, w) f = (threw message, w)
continue (died, w) f = (died, w)

infixl 5 ◌>>=◌ ◌>>◌
abbrev pub ◌>>=◌ : {A B : Type 0} → M A → (A → M B) → M B
◌>>=◌ m f w = continue (m w) f

abbrev pub ◌>>◌ : {B : Type 0} → M (Unit {0}) → M B → M B
m >> k = m >>= λ _. k

abbrev pub return : {A : Type 0} → A → M A
return a w = (returned a, w)

abbrev pub throw : {A : Type 0} → String → M A
throw message w = (threw message, w)

abbrev pub meet : List Fault → World → Outcome (Unit {0}) × World
meet [] w = (returned tt, w)
meet (runs ∷ fs) w = (returned tt, record w { faults = fs })
meet (throws message ∷ fs) w = (threw message, record w { faults = fs })
meet (dies ∷ fs) w = (died, record w { faults = fs })

-- The fault that an action meets.
unfoldable pub tick : M (Unit {0})
tick w = meet w.faults w

abbrev pub committed : {A : Type 0} → Database → Outcome A × World → Outcome A × World
committed before (returned a, w) = (returned a, w)
committed before (threw message, w) = (threw message, record w { db = before })
committed before (died, w) = (died, record w { db = before })

unfoldable pub transaction : {A : Type 0} → M A → M A
transaction m w = committed w.db (m w)

abbrev pub caught : {A : Type 0} → Outcome A × World → Outcome (Result String A) × World
caught (returned a, w) = (returned (ok a), w)
caught (threw message, w) = (returned (err message), w)
caught (died, w) = (died, w)

-- The `try` of a `try … catch`: a dead process runs no handler.
unfoldable pub attempt : {A : Type 0} → M A → M (Result String A)
attempt m w = caught (m w)

abbrev pub now : M ℕ
now w = (returned w.clock, w)
