-- ===== src/Webhook/Attempts.antt =====
-- How often a delivery is attempted.
use cmorflow_tax_api.Common.{
  ◌>>=◌, none, ◌||◌, some, err, String, ◌-◌, Bool, ◌&&◌, inr, ◌<◌, true, inl, Option, Bool-cases,
  refl, false, arith, ◌⊎◌, ◌+◌, if◌then◌else◌, [], ◌≡◌, ◌∷◌, ℕ, ◌≤◌, List,
}
use cmorflow_tax_api.Webhook.{
  is_post, is_2xx, delivered, failed, dead, Delivery, Pass, deliver, is_posted, is_due,
  claimed_delivery, post, attempt_delivery, Reply, WebhookEvent, Endpoint, is_open, undecryptable,
  no_response, interrupted, responded, caught_delivery, refused, is_refused, is_lost, is_unsent,
  is_uncounted, saved, succeed, fail, read_response_snippet,
}

-- The delivery after the passes of a worker that finishes each of them.
unfoldable pub deliver_all : List Pass → Delivery → Delivery
deliver_all [] d = d
deliver_all (pass ∷ passes) d = deliver_all passes (deliver pass d)

-- How many of the passes meet a test.
unfoldable pub passes_with : (Pass → Delivery → Bool) → List Pass → Delivery → ℕ
passes_with test [] d = 0
passes_with test (pass ∷ passes) d =
    (if test pass d then 1 else 0) + passes_with test passes (deliver pass d)

-- The POSTs that the passes make, the attempts that are refused before their POST, and those of both
-- whose update throws.
abbrev pub posts : List Pass → Delivery → ℕ
posts passes d = passes_with is_posted passes d

abbrev pub refusals : List Pass → Delivery → ℕ
refusals passes d = passes_with is_unsent passes d

abbrev pub uncounted : List Pass → Delivery → ℕ
uncounted passes d = passes_with is_uncounted passes d

-- What one pass does to the attempts: it makes a POST, is refused, loses its update, or none of these.
abbrev Counts : Bool → Bool → Bool → Delivery → Delivery → Type 0
Counts p r l d d' =
    (d'.attempt + (if l then 1 else 0) ≡ d.attempt + (if p then 1 else 0) + (if r then 1 else 0))
    × (d'.attempt ≤ d.max_attempts)
    × (d'.max_attempts ≡ d.max_attempts)

caught-Counts :
    (now : ℕ) (recovers : Bool) (d : Delivery) (message : String)
    → d.attempt < d.max_attempts
    → ((caught_delivery now recovers d (err message)).attempt ≡ d.attempt)
      × ((caught_delivery now recovers d (err message)).max_attempts ≡ d.max_attempts)
unfolding caught_delivery
caught-Counts now true d message h = (refl, refl)
caught-Counts now false d message h = (refl, refl)

-- An attempt that leads to a row: its update runs or throws.
saved-Counts :
    (now : ℕ) (recovers : Bool) (d d' : Delivery) (lost : Option String)
    → d.attempt < d.max_attempts
    → d'.attempt ≡ d.attempt + 1
    → d'.max_attempts ≡ d.max_attempts
    → ((caught_delivery now recovers d (saved lost d')).attempt + (if is_lost lost then 1 else 0)
        ≡ d.attempt + 1)
      × ((caught_delivery now recovers d (saved lost d')).attempt ≤ d.max_attempts)
      × ((caught_delivery now recovers d (saved lost d')).max_attempts ≡ d.max_attempts)
unfolding caught_delivery
saved-Counts now recovers d d' none h e m = (omega arith, omega arith, m)
saved-Counts now recovers d d' (some message) h e m =
    let (same, limit) = caught-Counts now recovers d message h in (omega arith, omega arith, limit)

post-Counts :
    (now : ℕ) (recovers : Bool) (d : Delivery) (reply : Reply) (lost : Option String)
    → d.attempt < d.max_attempts
    → Counts
        (is_post reply)
        (is_refused reply)
        ((is_post reply || is_refused reply) && is_lost lost)
        d
        (caught_delivery now recovers d (post now d reply >>= saved lost))
unfolding post
post-Counts now recovers d (undecryptable message) lost h =
    let (same, limit) = caught-Counts now recovers d message h in (omega arith, omega arith, limit)
post-Counts now recovers d (refused message) lost h =
    let (a, b, c) = saved-Counts now recovers d (fail now d none none message) lost h refl refl in
    (omega arith, b, c)
post-Counts now recovers d (no_response message) lost h =
    let (a, b, c) = saved-Counts now recovers d (fail now d none none message) lost h refl refl in
    (omega arith, b, c)
post-Counts now recovers d (interrupted status message) lost h =
    let (a, b, c) =
      saved-Counts now recovers d (fail now d (some status) none message) lost h refl refl in
    (omega arith, b, c)
post-Counts now recovers d (responded status chunks) lost h = elim (Bool-cases (is_2xx status)) [
  | inl e ↦
      let (a, b, c) =
        saved-Counts now recovers d (succeed now d status (read_response_snippet chunks)) lost h
          refl refl in
      rw (e, post) (omega arith, b, c)
  | inr e ↦
      let (a, b, c) =
        saved-Counts now recovers d
          (fail now d (some status) (some (read_response_snippet chunks)) "HTTP") lost h refl
          refl in
      rw (e, post) (omega arith, b, c)
]

-- The endpoint or the event is gone.
closed-Counts :
    (now : ℕ) (recovers : Bool) (d : Delivery) (lost : Option String)
    → d.attempt < d.max_attempts
    → Counts false false false d (
        caught_delivery now recovers d (
          saved lost (record d {
            status = failed;
            last_error = some "evento o endpoint inexistente/inactivo";
          })))
unfolding caught_delivery
closed-Counts now recovers d none h = (omega arith, omega arith, refl)
closed-Counts now recovers d (some message) h =
    let (same, limit) = caught-Counts now recovers d message h in (omega arith, omega arith, limit)

attempt_delivery-Counts :
    (now : ℕ) (recovers : Bool) (d : Delivery) (event : Option WebhookEvent)
    (endpoint : Option Endpoint) (reply : Reply) (lost : Option String)
    → d.attempt < d.max_attempts
    → Counts
        (is_open event endpoint && is_post reply)
        (is_open event endpoint && is_refused reply)
        (is_open event endpoint && (is_post reply || is_refused reply) && is_lost lost)
        d
        (caught_delivery now recovers d (attempt_delivery now d event endpoint reply lost))
unfolding attempt_delivery
attempt_delivery-Counts now recovers d event endpoint reply lost h =
    elim (Bool-cases (is_open event endpoint)) [
      | inl e ↦ rw (e, attempt_delivery) (post-Counts now recovers d reply lost h)
      | inr e ↦ rw (e, attempt_delivery) (closed-Counts now recovers d lost h)
    ]

due-attempts : (now : ℕ) (d : Delivery) → is_due now d ≡ true → d.attempt < d.max_attempts
unfolding is_due
due-attempts now d h = ground arith

deliver-Counts :
    (pass : Pass) (d : Delivery)
    → d.attempt ≤ d.max_attempts
    → Counts (is_posted pass d) (is_unsent pass d) (is_uncounted pass d) d (deliver pass d)
unfolding deliver is_posted is_unsent is_uncounted claimed_delivery
deliver-Counts pass d h = elim (Bool-cases (is_due pass.time d)) [
  | inl e ↦ rw e (
      attempt_delivery-Counts pass.time pass.recovers (claimed_delivery pass.time d) pass.event
        pass.endpoint pass.reply pass.lost (due-attempts pass.time d e))
  | inr e ↦ rw e (omega arith, h, refl)
]

closed-is_due :
    (now : ℕ) (d : Delivery)
    → (d.status ≡ delivered) ⊎ ((d.status ≡ failed) ⊎ (d.status ≡ dead))
    → is_due now d ≡ false
unfolding is_due
closed-is_due now d h = elim h [
  | inl e ↦ rw e refl
  | inr (inl e) ↦ rw e refl
  | inr (inr e) ↦ rw e refl
]

-- The POSTs of a delivery and the attempts refused before their POST, less those of both whose update
-- throws, are what its attempts count. From a row whose attempts do not exceed their limit, they never
-- do, so that no more POSTs are made than the limit leaves, but for the updates that throw.
pub posts_bounds :
    (passes : List Pass) (d : Delivery)
    → d.attempt ≤ d.max_attempts
    → ((deliver_all passes d).attempt + uncounted passes d
        ≡ d.attempt + posts passes d + refusals passes d)
      × ((deliver_all passes d).attempt ≤ d.max_attempts)
      × (posts passes d ≤ d.max_attempts - d.attempt + uncounted passes d)
unfolding deliver_all passes_with
posts_bounds [] d h = (omega arith, h, omega arith)
posts_bounds (pass ∷ passes) d h =
    let (counts, below, same) = deliver-Counts pass d h in
    let (later, bound, few) = posts_bounds passes (deliver pass d) (rw same below) in
    (
      omega (arith, counts, later),
      omega (arith, bound, same),
      omega (arith, counts, later, bound, same),
    )

-- A delivery that was delivered, failed or given up stays as it is, and is never posted again.
pub deliver_all_final :
    (passes : List Pass) (d : Delivery)
    → (d.status ≡ delivered) ⊎ ((d.status ≡ failed) ⊎ (d.status ≡ dead))
    → (deliver_all passes d ≡ d) × (posts passes d ≡ 0)
unfolding deliver_all passes_with deliver is_posted
deliver_all_final [] d h = (refl, refl)
deliver_all_final (pass ∷ passes) d h =
    let idle = closed-is_due pass.time d h in
    let (rest, silent) = deliver_all_final passes d h in rw idle (rest, omega (arith, silent))
