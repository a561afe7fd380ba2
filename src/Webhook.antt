-- ===== src/Webhook.antt =====
-- src/application/integrations/integration-webhook.service.ts: the deliveries of an event, from
-- emitEvent through the claim of deliverDue to attemptDelivery, and redeliver. The HTTP exchange and
-- the decryption of the endpoint's secret are the environment's answers.
pub mod Snippet
pub mod Attempts
pub mod Endpoints
use cmorflow_tax_api.Common.{
  ◌>>=◌, ◌-◌, true, some, ok, none, ltb, err, any, [], ◌∷◌, ◌||◌, ◌==◌, ◌+◌, ◌&&◌, str_eq, length,
  leb, get_or, filter, false, Result, ℕ, if◌then◌else◌, String, Option, List, Bool, ◌++◌, take, map,
  min,
}

pub data DeliveryStatus : Type 0 where
  pending delivering delivered failed dead : DeliveryStatus

abbrev status_rank : DeliveryStatus → ℕ
status_rank pending = 0
status_rank delivering = 1
status_rank delivered = 2
status_rank failed = 3
status_rank dead = 4

abbrev pub status_eq : DeliveryStatus → DeliveryStatus → Bool
status_eq a b = status_rank a == status_rank b

pub record Delivery : Type 0 where
  pub tenant_id : String
  pub event_id : ℕ
  pub endpoint_id : ℕ
  pub attempt : ℕ
  pub max_attempts : ℕ
  pub status : DeliveryStatus
  pub next_attempt_at : ℕ
  pub response_status : Option ℕ
  pub response_snippet : Option (List ℕ)
  pub last_error : Option String
  pub delivered_at : Option ℕ

pub record Endpoint : Type 0 where
  pub id : ℕ
  pub tenant_id : String
  pub active : Bool
  pub events : List String

pub record WebhookEvent : Type 0 where
  pub id : ℕ
  pub tenant_id : String
  pub type : String

-- DELIVERY_BACKOFF_MS.
abbrev pub delivery_backoff_ms : List ℕ
delivery_backoff_ms = 60000 ∷ 300000 ∷ 900000 ∷ 1800000 ∷ 3600000 ∷ 21600000 ∷ []

unfoldable pub backoff_ms : ℕ → ℕ
backoff_ms attempt =
    get_or delivery_backoff_ms (min (attempt - 1) (length delivery_backoff_ms - 1)) 0

abbrev pub is_subscribed : String → WebhookEvent → Endpoint → Bool
is_subscribed tenant_id event e =
    str_eq e.tenant_id tenant_id && e.active && any (λ t. str_eq t event.type) e.events

-- The delivery that an event gets for an endpoint.
abbrev pub new_delivery : ℕ → String → ℕ → Endpoint → Delivery
new_delivery now tenant_id event_id endpoint = record {
  tenant_id = tenant_id;
  event_id = event_id;
  endpoint_id = endpoint.id;
  attempt = 0;
  max_attempts = length delivery_backoff_ms;
  status = pending;
  next_attempt_at = now;
  response_status = none;
  response_snippet = none;
  last_error = none;
  delivered_at = none;
}

-- The deliveries that `emitEvent` and `redeliver` create: one for each active endpoint of the tenant
-- that listens to the event's type.
unfoldable pub emit_event : ℕ → String → WebhookEvent → List Endpoint → List Delivery
emit_event now tenant_id event endpoints =
    map (new_delivery now tenant_id event.id) (filter (is_subscribed tenant_id event) endpoints)

-- `redeliver`, for the event that was found.
unfoldable pub redeliver :
    ℕ → String → Option WebhookEvent → List Endpoint → Result String (List Delivery)
redeliver now tenant_id none endpoints = err "Evento no encontrado."
redeliver now tenant_id (some event) endpoints =
    if str_eq event.tenant_id tenant_id
    then ok (emit_event now tenant_id event endpoints)
    else err "Evento no encontrado."

-- The condition and the update of the claim.
unfoldable pub is_due : ℕ → Delivery → Bool
is_due now d =
    (status_eq d.status pending || status_eq d.status delivering)
    && leb d.next_attempt_at now
    && ltb d.attempt d.max_attempts

unfoldable pub claimed_delivery : ℕ → Delivery → Delivery
claimed_delivery now d = record d { status = delivering; next_attempt_at = now + 600000 }

-- What the environment answers to an attempt: the secret cannot be decrypted, so that nothing is sent;
-- the attempt is refused before anything is sent (by `assertSafeWebhookUrl`, or by the lookup of the
-- connection); the POST brings no response; it brings a status, but its body breaks off; or it brings
-- a status and the chunks of its body. Messages are given without numbers.
pub data Reply : Type 0 where
  undecryptable : String → Reply
  refused : String → Reply
  no_response : String → Reply
  interrupted : ℕ → String → Reply
  responded : ℕ → List (List ℕ) → Reply

abbrev pub response_snippet_max : ℕ
response_snippet_max = 300

-- The loop of `readResponseSnippet`: what is read after `size` bytes.
unfoldable pub read_chunks : ℕ → ℕ → List (List ℕ) → List ℕ
read_chunks limit size [] = []
read_chunks limit size (chunk ∷ chunks) =
    let taken = take (limit - size) chunk in
    let rest = read_chunks limit (size + length taken) chunks in
    if ltb size limit
    then if ltb (length taken) (length chunk) || leb limit (size + length taken)
      then taken
      else taken ++ rest
    else []

abbrev pub read_response_snippet : List (List ℕ) → List ℕ
read_response_snippet chunks = read_chunks response_snippet_max 0 chunks

abbrev pub is_2xx : ℕ → Bool
is_2xx status = leb 200 status && ltb status 300

abbrev pub succeed : ℕ → Delivery → ℕ → List ℕ → Delivery
succeed now d status snippet = record d {
  attempt = d.attempt + 1;
  status = delivered;
  response_status = some status;
  response_snippet = some snippet;
  delivered_at = some now;
  last_error = none;
}

abbrev pub fail : ℕ → Delivery → Option ℕ → Option (List ℕ) → String → Delivery
fail now d status snippet error = record d {
  attempt = d.attempt + 1;
  status = if leb d.max_attempts (d.attempt + 1) then dead else pending;
  response_status = status;
  response_snippet = snippet;
  last_error = some error;
  next_attempt_at = now + backoff_ms (d.attempt + 1);
}

-- After the event and the endpoint were found: the row that the attempt leads to.
unfoldable pub post : ℕ → Delivery → Reply → Result String Delivery
post now d (undecryptable message) = err message
post now d (refused message) = ok (fail now d none none message)
post now d (no_response message) = ok (fail now d none none message)
post now d (interrupted status message) = ok (fail now d (some status) none message)
post now d (responded status chunks) =
    if is_2xx status
    then ok (succeed now d status (read_response_snippet chunks))
    else ok (fail now d (some status) (some (read_response_snippet chunks)) "HTTP")

abbrev pub is_open : Option WebhookEvent → Option Endpoint → Bool
is_open (some event) (some endpoint) = endpoint.active
is_open event endpoint = false

-- The update of the row at the end of an attempt: it runs, or throws with a message.
abbrev pub saved : Option String → Delivery → Result String Delivery
saved none d = ok d
saved (some message) d = err message

unfoldable pub attempt_delivery :
    ℕ
    → Delivery
    → Option WebhookEvent
    → Option Endpoint
    → Reply
    → Option String
    → Result String Delivery
attempt_delivery now d event endpoint reply lost =
    if is_open event endpoint
    then post now d reply >>= saved lost
    else saved lost
        (record d { status = failed; last_error = some "evento o endpoint inexistente/inactivo" })

-- The `catch` of `deliverClaimed`: its own update runs, or is given up and leaves the row.
unfoldable pub caught_delivery : ℕ → Bool → Delivery → Result String Delivery → Delivery
caught_delivery now recovers d (ok d') = d'
caught_delivery now recovers d (err message) =
    if recovers
    then record d {
      status = pending;
      last_error = some message;
      next_attempt_at = now + backoff_ms 1;
    }
    else d

-- One pass over the delivery, at its time, with what it finds and what answers, the error of the
-- final update if it throws, and whether the update of the `catch` runs.
pub record Pass : Type 0 where
  pub time : ℕ
  pub event : Option WebhookEvent
  pub endpoint : Option Endpoint
  pub reply : Reply
  pub lost : Option String
  pub recovers : Bool

-- `deliverDue` for this delivery: claim it if it is due, and deliver it.
unfoldable pub deliver : Pass → Delivery → Delivery
deliver pass d =
    if is_due pass.time d
    then caught_delivery pass.time pass.recovers (claimed_delivery pass.time d) (
        attempt_delivery pass.time (claimed_delivery pass.time d) pass.event pass.endpoint
          pass.reply pass.lost)
    else d

abbrev pub is_post : Reply → Bool
is_post (undecryptable message) = false
is_post (refused message) = false
is_post (no_response message) = true
is_post (interrupted status message) = true
is_post (responded status chunks) = true

abbrev pub is_refused : Reply → Bool
is_refused (undecryptable message) = false
is_refused (refused message) = true
is_refused (no_response message) = false
is_refused (interrupted status message) = false
is_refused (responded status chunks) = false

-- Whether the pass comes to an attempt.
abbrev is_tried : Pass → Delivery → Bool
is_tried pass d = is_due pass.time d && is_open pass.event pass.endpoint

-- Whether the pass makes a POST.
unfoldable pub is_posted : Pass → Delivery → Bool
is_posted pass d = is_tried pass d && is_post pass.reply

-- Whether the pass is refused before its POST.
unfoldable pub is_unsent : Pass → Delivery → Bool
is_unsent pass d = is_tried pass d && is_refused pass.reply

abbrev pub is_lost : Option String → Bool
is_lost none = false
is_lost (some message) = true

-- Whether the pass makes a POST, or is refused, and its update throws.
unfoldable pub is_uncounted : Pass → Delivery → Bool
is_uncounted pass d =
    is_tried pass d && (is_post pass.reply || is_refused pass.reply) && is_lost pass.lost
