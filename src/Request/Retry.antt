-- ===== src/Request/Retry.antt =====
-- The retries of a request: how long each waits, and when the attempts are used up.
use cmorflow_tax_api.Common.{
  length-append, ap, ◌∙◌, refl, ◌++◌, length, ◌∷◌, [], get_or, ◌-◌, zero, true, false, min, leb,
  arith, some, ok, ◌≡◌, ◌<◌, suc, ◌≤◌, ◌+◌, ℕ, List,
}
use native.Mathlib.Decide.{dec_lt}
use cmorflow_tax_api.Request.{
  Request, RequestError, Store, processing, failed, attempt_limit, exhausted_detail,
  retry_backoff_ms, schedule_retry, apply_state, moved, events_for, is_transition_allowed,
}
use cmorflow_tax_api.Request.Persist.{apply_state-stay, apply_state-move, store_after}

late_retry : (n : ℕ) → 5 ≤ n → retry_backoff_ms n ≡ 21600000
unfolding retry_backoff_ms
late_retry n h = let last : min (n - 1) 4 ≡ 4 = omega arith in rw (last, get_or)

late_bounds :
    (n : ℕ)
    → 5 ≤ n
    → (60000 ≤ retry_backoff_ms n)
      × (retry_backoff_ms n ≤ retry_backoff_ms (suc n))
      × (retry_backoff_ms n ≤ 21600000)
late_bounds n h = omega (arith, late_retry n h, late_retry (suc n) (omega arith))

-- The wait never shrinks from one attempt to the next, is at least a minute and at most six hours.
pub retry_backoff_ms_bounds :
    (n : ℕ)
    → (60000 ≤ retry_backoff_ms n)
      × (retry_backoff_ms n ≤ retry_backoff_ms (suc n))
      × (retry_backoff_ms n ≤ 21600000)
unfolding retry_backoff_ms
retry_backoff_ms_bounds zero = omega arith
retry_backoff_ms_bounds (suc zero) = omega arith
retry_backoff_ms_bounds (suc (suc zero)) = omega arith
retry_backoff_ms_bounds (suc (suc (suc zero))) = omega arith
retry_backoff_ms_bounds (suc (suc (suc (suc zero)))) = omega arith
retry_backoff_ms_bounds (suc (suc (suc (suc (suc n))))) =
    late_bounds (suc (suc (suc (suc (suc n))))) (omega arith)

-- One failed attempt after another, each on the row that the one before left.
unfoldable pub after_failures : List (ℕ × RequestError) → Store → Store
after_failures [] store = store
after_failures ((now, e) ∷ es) store =
    after_failures es (store_after store (schedule_retry now store.row e store))

abbrev waiting : ℕ → RequestError → Store → Request
waiting now e store = record store.row {
  attempts = store.row.attempts + 1;
  last_error = some e;
  next_attempt_at = now + retry_backoff_ms (store.row.attempts + 1);
}

fail_waits :
    (now : ℕ) (e : RequestError) (store : Store)
    → store.row.attempts + 1 < attempt_limit store.row.max_attempts
    → schedule_retry now store.row e store
      ≡ ok (waiting now e store, record store { row = waiting now e store })
unfolding schedule_retry
fail_waits now e store h =
    let more : leb (attempt_limit store.row.max_attempts) (store.row.attempts + 1) ≡ false =
      ground arith in
    rw (more, schedule_retry)

fail_stops :
    (now : ℕ) (e : RequestError) (store : Store)
    → attempt_limit store.row.max_attempts ≤ store.row.attempts + 1
    → schedule_retry now store.row e store
      ≡ apply_state now
          (record store.row { attempts = store.row.attempts + 1; last_error = some e })
          failed
          (exhausted_detail e)
          store
unfolding schedule_retry
fail_stops now e store h =
    let over : leb (attempt_limit store.row.max_attempts) (store.row.attempts + 1) ≡ true =
      ground arith in
    rw (over, schedule_retry)

abbrev limit_of : Store → ℕ
limit_of store = attempt_limit store.row.max_attempts

-- While the failures are fewer than the attempts that are left, each counts one attempt, and none
-- changes the state, the outbox or the limit.
pub after_failures_short :
    (es : List (ℕ × RequestError)) (store : Store)
    → store.row.attempts + length es < attempt_limit store.row.max_attempts
    → let after = after_failures es store in
      (after.row.state ≡ store.row.state)
      × (after.row.attempts ≡ store.row.attempts + length es)
      × (after.outbox ≡ store.outbox)
      × (after.row.max_attempts ≡ store.row.max_attempts)
unfolding after_failures
after_failures_short [] store h = (refl, omega arith, refl, refl)
after_failures_short ((now, e) ∷ es) store h =
    let next : Store = record store { row = waiting now e store } in
    let (stays, counted, quiet, same) = after_failures_short es next (omega arith) in
    rw (fail_waits now e store (omega arith), after_failures)
      (stays, omega (arith, counted), quiet, same)

-- A failed request with no attempt left stays as it is.
failed_stays :
    (es : List (ℕ × RequestError)) (store : Store)
    → store.row.state ≡ failed
    → attempt_limit store.row.max_attempts ≤ store.row.attempts
    → after_failures es store ≡ store
unfolding after_failures
failed_stays [] store f h = refl
failed_stays ((now, e) ∷ es) store f h =
    rw
      (
        fail_stops now e store (omega arith),
        apply_state-stay now
            (record store.row { attempts = store.row.attempts + 1; last_error = some e }) failed
            (exhausted_detail e) store f,
      )
      (failed_stays es store f h)

last_failure :
    (now : ℕ) (e : RequestError) (store : Store)
    → store.row.state ≡ processing
    → attempt_limit store.row.max_attempts ≤ store.row.attempts + 1
    → let after = store_after store (schedule_retry now store.row e store) in
      (after.row.state ≡ failed)
      × (after.row.attempts ≡ store.row.attempts + 1)
      × (after.outbox ≡ store.outbox ++ record { state = failed; detail = exhausted_detail e } ∷ [])
      × (after.row.max_attempts ≡ store.row.max_attempts)
unfolding moved events_for is_transition_allowed
last_failure now e store f h =
    let fits : is_transition_allowed store.row.state failed ≡ true = rw f refl in
    rw
      (
        fail_stops now e store h,
        apply_state-move now
            (record store.row { attempts = store.row.attempts + 1; last_error = some e }) failed
            (exhausted_detail e) store (λ p. cc (p, f)) fits,
      )
      (refl, refl, refl, refl)

abbrev next : ℕ → RequestError → Store → Store
next now e store = store_after store (schedule_retry now store.row e store)

-- A request in `processing` with attempts left, whose attempts fail at least as often as the limit
-- allows, ends in `failed` with its attempts exactly at the limit, and exactly one event is added to
-- the outbox.
pub after_failures_exhausted :
    (es : List (ℕ × RequestError)) (store : Store)
    → store.row.state ≡ processing
    → store.row.attempts < attempt_limit store.row.max_attempts
    → attempt_limit store.row.max_attempts ≤ store.row.attempts + length es
    → let after = after_failures es store in
      (after.row.state ≡ failed)
      × (after.row.attempts ≡ attempt_limit store.row.max_attempts)
      × (length after.outbox ≡ length store.outbox + 1)
unfolding after_failures
after_failures_exhausted [] store p h many = absurd (omega arith)
after_failures_exhausted ((now, e) ∷ es) store p h many =
    elim (dec_lt (store.row.attempts + 1) (attempt_limit store.row.max_attempts)) [
      | yes more ↦
          rw (fail_waits now e store more, after_failures)
            (after_failures_exhausted es (record store { row = waiting now e store }) p more
              (omega arith))
      | no over ↦
          let (f, counted, told, same) = last_failure now e store p (omega arith) in
          let stop : attempt_limit (next now e store).row.max_attempts
              ≤ (next now e store).row.attempts =
            rw (same, counted) (omega arith) in
          rw (failed_stays es (next now e store) f stop)
            (f, omega (arith, counted), ap length told ∙ length-append store.outbox _)
    ]
