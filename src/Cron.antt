-- ===== src/Cron.antt =====
-- src/infrastructure/guards/cron-hmac.guard.ts and
-- src/infrastructure/framework/postgres/cron-nonce.store.ts: the guard of the cron endpoints, on the
-- table of nonces. The HMAC is a parameter; times are milliseconds, a timestamp is in seconds.
use cmorflow_tax_api.Common.{
  ◌++◌, ◌&&◌, ◌>>◌, ◌+◌, any, ◌*◌, if◌then◌else◌, guard, ◌>>=◌, truthy, str_eq, leb, filter, Result,
  List, Bool, ℕ, String, Option, [], ◌∷◌, none, some, ok, err, false,
}

pub record CronRequest : Type 0 where
  pub timestamp : Option String
  pub seconds : Option ℕ  -- `Number(timestamp)` where it is an integer
  pub signature : Option String
  pub nonce : Option String
  pub raw_body : String

pub record CronNonce : Type 0 where
  pub nonce : String
  pub expires_at : ℕ

pub data CronError : Type 0 where
  missing out_of_window bad_signature nonce_used : CronError

abbrev pub cron_nonce_ttl_ms : ℕ
cron_nonce_ttl_ms = 300000

abbrev pub required : Option String → Result CronError String
required s = elim (truthy s) [ none ↦ err missing | some t ↦ ok t ]

-- `Math.abs(Date.now() / 1000 - ts) > 300` is false.
unfoldable pub is_in_window : ℕ → Option ℕ → Bool
is_in_window now none = false
is_in_window now (some ts) = leb now (1000 * ts + 300000) && leb (1000 * ts) (now + 300000)

abbrev pub is_nonce : String → CronNonce → Bool
is_nonce nonce row = str_eq row.nonce nonce

-- `tryConsume`: what has expired is deleted, and the nonce is inserted unless it is there.
unfoldable pub consume_nonce : ℕ → String → List CronNonce → Result CronError (List CronNonce)
consume_nonce now nonce rows =
    let live = filter (λ row. leb now row.expires_at) rows in
    if any (is_nonce nonce) live
    then err nonce_used
    else ok (live ++ record { nonce = nonce; expires_at = now + cron_nonce_ttl_ms } ∷ [])

-- The secret, and whether a signature fits the timestamp, the nonce and the body under it.
unfoldable pub can_activate :
    (String → String → String → String → String → Bool)
    → Option String
    → ℕ
    → CronRequest
    → List CronNonce
    → Result CronError (List CronNonce)
unfolding is_in_window consume_nonce
can_activate is_signed secret now request rows = required secret >>= λ key.
    required request.timestamp >>= λ timestamp. required request.signature >>= λ signature.
    required request.nonce >>= λ nonce.
    guard (is_in_window now request.seconds) out_of_window
    >> guard (is_signed key timestamp nonce request.raw_body signature) bad_signature
    >> consume_nonce now nonce rows
