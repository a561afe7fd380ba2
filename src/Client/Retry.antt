-- ===== src/Client/Retry.antt =====
-- The attempts of an exchange with the SII.
use native.Mathlib.Decide.{dec_lt}
use cmorflow_tax_api.Common.{
  ==_iff, Bool-cases, sym, subst, ◌==◌, ok, Result, inr, inl, err, refl, false, ◌⊎◌, ◌<◌, ◌-◌, ◌+◌,
  true, ◌≤◌, ◌≡◌, Bool, ℕ, zero, suc, arith,
}
use cmorflow_tax_api.Client.{
  Response, Fetched, responded, aborted, failed, Attempt, SiiError, timeout, connection_error,
  Fetches, fetch_with_timeout, is_connection_error, fetch_from, fetch_with_retry, backoff_ms, one,
  after_failure,
}

abbrev pub has_response : Fetched → Bool
has_response (responded r) = true
has_response aborted = false
has_response failed = false

-- The attempts from `first` to `last`, three being the limit: all but the last stayed without an answer,
-- the last one's answer is the result, and the waits between them doubled.
pub record IsRetried (net : ℕ → Attempt) (first last : ℕ) (x : Fetches Response) : Type 0 where
  pub from : first ≤ last
  pub limit : last ≤ 3
  pub posts : x.posts ≡ suc last - first
  pub arrivals : x.arrivals ≤ x.posts
  pub unanswered : (i : ℕ) → first ≤ i → i < last → has_response (Attempt.fetched (net i)) ≡ false
  pub result : x.result ≡ fetch_with_timeout (Attempt.fetched (net last))
  pub stopped : last < 3 → has_response (Attempt.fetched (net last)) ≡ true
  pub waited : x.waited + backoff_ms first ≡ backoff_ms last

Fetched-cases :
    (f : Fetched)
    → ((r : Response) × (f ≡ responded r))
      ⊎ ((has_response f ≡ false)
          × ((e : SiiError) × (fetch_with_timeout f ≡ err e) × (is_connection_error e ≡ true)))
unfolding fetch_with_timeout is_connection_error
Fetched-cases (responded r) = inl (r, refl)
Fetched-cases aborted = inr (refl, (timeout, refl, refl))
Fetched-cases failed = inr (refl, (connection_error, refl, refl))

answered :
    (a : Attempt) (r : Response) → a.fetched ≡ responded r → fetch_with_timeout a.fetched ≡ ok r
unfolding fetch_with_timeout
answered a r e = rw e refl

doubled : (n : ℕ) → 1 ≤ n → n < 3 → backoff_ms (suc n) ≡ backoff_ms n + backoff_ms n
unfolding backoff_ms
doubled zero h k = absurd (omega arith)
doubled (suc zero) h k = refl
doubled (suc (suc zero)) h k = refl
doubled (suc (suc (suc n))) h k = absurd (omega arith)

module _ (net : ℕ → Attempt) where
  stops :
      (left attempt : ℕ) (r : Result SiiError Response)
      → fetch_with_timeout (net attempt).fetched ≡ r
      → ((a : Response) × (r ≡ ok a)) ⊎ (attempt ≡ 3)
      → fetch_from 3 (suc left) attempt net ≡ one (net attempt) r
  unfolding fetch_from
  stops left attempt (ok a) e h = rw (e, fetch_from) refl
  stops left attempt (err x) e (inl (a, h)) = cc h
  stops left attempt (err x) e (inr three) = rw (e, fetch_from) (rw three (ground arith))

  goes_on :
      (left attempt : ℕ) (e : SiiError)
      → fetch_with_timeout (net attempt).fetched ≡ err e
      → is_connection_error e ≡ true
      → (attempt == 3) ≡ false
      → fetch_from 3 (suc left) attempt net
        ≡ after_failure attempt (net attempt) (fetch_from 3 left (suc attempt) net)
  unfolding fetch_from
  goes_on left attempt e failure again more = rw (failure, again, more, fetch_from) refl

  stopped_here :
      (attempt : ℕ) (r : Result SiiError Response)
      → attempt ≤ 3
      → fetch_with_timeout (net attempt).fetched ≡ r
      → (attempt < 3 → has_response (net attempt).fetched ≡ true)
      → IsRetried net attempt attempt (one (net attempt) r)
  stopped_here attempt r h e done = record {
    from = omega arith;
    limit = h;
    posts = omega arith;
    arrivals = ground arith;
    unanswered = λ i low high. absurd (omega arith);
    result = sym e;
    stopped = done;
    waited = omega arith;
  }

  one_more :
      (attempt last : ℕ) (rest : Fetches Response)
      → 1 ≤ attempt
      → attempt < 3
      → has_response (net attempt).fetched ≡ false
      → IsRetried net (suc attempt) last rest
      → IsRetried net attempt last (after_failure attempt (net attempt) rest)
  one_more attempt last rest h below silent tail = record {
    from = omega (arith, tail.from);
    limit = tail.limit;
    posts = omega (arith, tail.posts, tail.from);
    arrivals = ground (arith, tail.arrivals);
    unanswered = λ i low high. elim (dec_lt attempt i) [
      | yes later ↦ tail.unanswered i later high
      | no here ↦
          let same : attempt ≡ i = omega (arith, here, low) in
          subst (λ j. has_response (Attempt.fetched (net j)) ≡ false) same silent
    ];
    result = tail.result;
    stopped = tail.stopped;
    waited = omega (arith, tail.waited, doubled attempt h below);
  }

  fetch_from-IsRetried :
      (left attempt : ℕ)
      → 1 ≤ attempt
      → attempt + left ≡ 4
      → 0 < left
      → (last : ℕ) × IsRetried net attempt last (fetch_from 3 left attempt net)
  fetch_from-IsRetried zero attempt h total some_left = absurd (omega arith)
  fetch_from-IsRetried (suc left) attempt h total some_left =
      elim (Fetched-cases (net attempt).fetched) [
        | inl (r, e) ↦
            let done : fetch_with_timeout (net attempt).fetched ≡ ok r =
              answered (net attempt) r e in
            (
              attempt,
              subst (IsRetried net attempt attempt)
                  (sym (stops left attempt (ok r) done (inl (r, refl))))
                  (stopped_here attempt (ok r) (omega arith) done (λ k. rw e refl)),
            )
        | inr (silent, (x, failure, again)) ↦ elim (Bool-cases (attempt == 3)) [
          | inl three ↦ (
            attempt,
            subst (IsRetried net attempt attempt)
                (sym (stops left attempt (err x) failure (inr ((==_iff attempt 3).0 three))))
                (stopped_here attempt (err x) (omega arith) failure
                  (λ k. ground (arith, three, k))),
          )
          | inr more ↦
              let below : attempt < 3 = ground (arith, more, total) in
              let (last, tail) =
                fetch_from-IsRetried left (suc attempt) (omega arith) (omega (arith, total))
                  (omega (arith, total, below)) in
              (
                last,
                subst (IsRetried net attempt last) (sym (goes_on left attempt x failure again more))
                    (one_more attempt last (fetch_from 3 left (suc attempt) net) h below silent
                      tail),
              )
        ]
      ]

  -- An exchange with the SII makes one to three attempts. All but the last stay without an answer, the
  -- last one's answer is its result, it gives up only after the third, and the waits between them are
  -- half a second and a second.
  pub fetch_with_retry-IsRetried : (last : ℕ) × IsRetried net 1 last (fetch_with_retry net)
  unfolding fetch_with_retry
  fetch_with_retry-IsRetried = fetch_from-IsRetried 3 1 (omega arith) (omega arith) (omega arith)
