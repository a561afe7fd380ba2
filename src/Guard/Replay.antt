-- ===== src/Guard/Replay.antt =====
-- Nonces and time: a request whose timestamp lies before the second of its arrival, and what the
-- nonce that it leaves does to its repetitions.
use cmorflow_tax_api.Common.{
  ok-inj, find, ap, subst, sym, ◌≢◌, leb, false, Signed, ◌*◌, ◌&&◌, str_eq_iff, some, refl,
  parse_int, err, arith, ◌∙◌, ◌/◌, ◌+◌, true, ok, any, [], Result, ◌≤◌, ◌≡◌, ◌∷◌, ◌<◌, str_eq, Bool,
  All, ℕ, String, List,
}
use cmorflow_tax_api.Guard.{
  Config, Crypto, Credential, NonceRow, HttpRequest, Gate, GuardError, Admitted, Headers, headers,
  is_key, distance, is_in_window, is_row, purge_nonces, authenticate, consume_nonce, create_nonce,
  can_activate, limited, consumed, authenticated,
}
use cmorflow_tax_api.Guard.Access.{IsPassed, can_activate-IsPassed}

-- What happens at the guard's database: a request arrives, with what its SELECT saw, or the
-- reconciler purges.
pub data Event : Type 0 where
  arrive : (seen : List NonceRow) → ℕ → HttpRequest → Event
  purge : ℕ → Event

abbrev pub time : Event → ℕ
time (arrive seen t request) = t
time (purge t) = t

unfoldable pub happen : Config → Crypto → Event → Gate → Gate
happen config crypto (arrive seen t request) gate =
    (can_activate config crypto seen t request gate).1
happen config crypto (purge t) gate = record gate { nonces = purge_nonces t gate.nonces }

unfoldable pub history : Config → Crypto → List Event → Gate → Gate
history config crypto [] gate = gate
history config crypto (e ∷ es) gate = history config crypto es (happen config crypto e gate)

-- The nonce is there, and a purge before `t` leaves it.
abbrev is_remembered : ℕ → String → ℕ → List NonceRow → Bool
is_remembered id nonce t rows = any (λ r. is_row id nonce r && leb t r.expires_at) rows

is_remembered-used :
    (id : ℕ) (nonce : String) (t : ℕ) (rows : List NonceRow)
    → is_remembered id nonce t rows ≡ true
    → any (is_row id nonce) rows ≡ true
is_remembered-used id nonce t [] h = h
is_remembered-used id nonce t (r ∷ rows) h = ground (arith, is_remembered-used id nonce t rows)

purge_nonces-is_remembered :
    (id : ℕ) (nonce : String) (t now : ℕ) (rows : List NonceRow)
    → now ≤ t
    → is_remembered id nonce t rows ≡ true
    → is_remembered id nonce t (purge_nonces now rows) ≡ true
unfolding purge_nonces
purge_nonces-is_remembered id nonce t now [] le h = h
purge_nonces-is_remembered id nonce t now (r ∷ rows) le h =
    ground (arith, purge_nonces-is_remembered id nonce t now rows le)

-- An arrival only adds a nonce, and does not touch the credentials.
module _ (config : Config) (crypto : Crypto) (id : ℕ) (nonce : String) (t : ℕ) where
  record IsKnown (gate after : Gate) : Type 0 where
    credentials : after.credentials ≡ gate.credentials
    remembered :
        is_remembered id nonce t gate.nonces ≡ true → is_remembered id nonce t after.nonces ≡ true

  consume_nonce-is_remembered :
      (seen : List NonceRow) (other : ℕ) (n : String) (now : ℕ) (rows after : List NonceRow)
      → consume_nonce seen other n config.window_seconds now rows ≡ ok after
      → is_remembered id nonce t rows ≡ true
      → is_remembered id nonce t after ≡ true
  unfolding consume_nonce create_nonce
  consume_nonce-is_remembered seen other n now rows after e h = ground arith

  can_activate-IsKnown :
      (seen : List NonceRow) (now : ℕ) (request : HttpRequest) (gate : Gate)
      → IsKnown gate (can_activate config crypto seen now request gate).1
  unfolding can_activate
  can_activate-IsKnown seen now request gate =
      go (authenticate config crypto now request gate.credentials)
    where
      limit :
          (c : Credential) (g : Gate) (x : List ℕ × Bool)
          → IsKnown gate g
          → IsKnown gate (limited request c g x).1
      limit c g (stamps, true) k = record { credentials = k.credentials; remembered = k.remembered }
      limit c g (stamps, false) k = record {
        credentials = k.credentials;
        remembered = k.remembered;
      }

      pass :
          (c : Credential) (n : String) (rows : Result GuardError (List NonceRow))
          → consume_nonce seen c.id n config.window_seconds now gate.nonces ≡ rows
          → IsKnown gate (consumed config now request c gate rows).1
      pass c n (err e) eq = record { credentials = refl; remembered = λ h. h }
      pass c n (ok rows) eq =
          limit c (record gate { nonces = rows }) _
            (record {
              credentials = refl;
              remembered = consume_nonce-is_remembered seen c.id n now gate.nonces rows eq;
            })

      go :
          (x : Result GuardError (Credential × Headers))
          → IsKnown gate (authenticated config seen now request gate x).1
      go (err e) = record { credentials = refl; remembered = λ h. h }
      go (ok (c, h)) = pass c h.nonce _ refl

  happen-IsKnown :
      (e : Event) (gate : Gate) → time e ≤ t → IsKnown gate (happen config crypto e gate)
  unfolding happen
  happen-IsKnown (arrive seen now request) gate le = can_activate-IsKnown seen now request gate
  happen-IsKnown (purge now) gate le = record {
    credentials = refl;
    remembered = purge_nonces-is_remembered id nonce t now gate.nonces le;
  }

  history-IsKnown :
      (es : List Event) (gate : Gate)
      → All (λ e. time e ≤ t) es
      → IsKnown gate (history config crypto es gate)
  unfolding history
  history-IsKnown [] gate h = record { credentials = refl; remembered = λ k. k }
  history-IsKnown (e ∷ es) gate h =
      let first = happen-IsKnown e gate h.0 in
      let later = history-IsKnown es (happen config crypto e gate) h.1 in
      record {
        credentials = later.credentials ∙ first.credentials;
        remembered = λ k. later.remembered (first.remembered k);
      }

str_eq_refl : (s : String) → str_eq s s ≡ true
str_eq_refl s = (str_eq_iff s s).1 refl

-- Within the window twice, and signed before the second of the first arrival: the second arrival comes
-- before the nonce expires.
window-short :
    (window t1 t2 ts : ℕ)
    → ts < t1 / 1000
    → is_in_window window (t2 / 1000) (some (Signed.plus ts)) ≡ true
    → t2 ≤ t1 + window * 1000
unfolding is_in_window distance
window-short window t1 t2 ts early h = ground arith

admitted-is_remembered :
    (config : Config) (crypto : Crypto) (now : ℕ) (request : HttpRequest) (gate after : Gate)
    (a : Admitted) (p : IsPassed config crypto now request gate after a) (t : ℕ)
    → t ≤ now + config.window_seconds * 1000
    → is_remembered p.credential.id p.sent.nonce t after.nonces ≡ true
admitted-is_remembered config crypto now request gate after a p t le =
    let same = str_eq_refl p.sent.nonce in rw (p.used, same) (ground arith)

-- A request whose timestamp lies before the second of its arrival and that the guard admits is never
-- admitted again: not after any arrivals of other requests and any purges of expired nonces, whenever
-- it is sent again after them, whatever its SELECT sees.
pub can_activate-refuses_replay :
    (config : Config) (crypto : Crypto) (seen again : List NonceRow) (t1 t2 ts : ℕ)
    (request : HttpRequest) (gate : Gate) (h : Headers) (a b : Admitted) (es : List Event)
    → headers request ≡ ok h
    → parse_int h.timestamp ≡ some (Signed.plus ts)
    → ts < t1 / 1000
    → (can_activate config crypto seen t1 request gate).0 ≡ ok a
    → All (λ e. time e ≤ t2) es
    → (can_activate config crypto again t2 request
        (history config crypto es (can_activate config crypto seen t1 request gate).1)).0
      ≢ ok b
can_activate-refuses_replay config crypto seen again t1 t2 ts request gate h a b es given parsed
      early first before second =
    let p1 = can_activate-IsPassed config crypto seen t1 request gate a first in
    let p2 = can_activate-IsPassed config crypto again t2 request later b second in
    let sent1 : h ≡ p1.sent = ok-inj (sym given ∙ p1.authentic.given) in
    let sent2 : h ≡ p2.sent = ok-inj (sym given ∙ p2.authentic.given) in
    let id : ℕ = p1.credential.id in
    let known = history-IsKnown config crypto id p1.sent.nonce t2 es gate1 before in
    let arrived = can_activate-IsKnown config crypto id p1.sent.nonce t2 seen t1 request gate in
    let late : t2 ≤ t1 + config.window_seconds * 1000 =
      window-short config.window_seconds t1 t2 ts early (
        subst (λ x. is_in_window config.window_seconds (t2 / 1000) x ≡ true) parsed
          (subst
            (λ x.
              is_in_window config.window_seconds (t2 / 1000) (parse_int (Headers.timestamp x))
              ≡ true)
            (sym sent2) p2.authentic.in_window)) in
    let kept =
      known.remembered (admitted-is_remembered config crypto t1 request gate gate1 a p1 t2 late) in
    let used = is_remembered-used id p1.sent.nonce t2 later.nonces kept in
    let owner : some p1.credential ≡ some p2.credential =
      sym p1.authentic.found
      ∙ ap (λ x. find (is_key (Headers.key_id x)) gate.credentials) (sym sent1 ∙ sent2)
      ∙ ap (λ x. find (is_key p2.sent.key_id) x) (sym (known.credentials ∙ arrived.credentials))
      ∙ p2.authentic.found in
    same_row p1.credential p2.credential p1.sent.nonce p2.sent.nonce later.nonces (some-inj owner)
      (ap (λ x. Headers.nonce x) (sym sent1 ∙ sent2)) used p2.unused
  where
    gate1 : Gate
    gate1 = (can_activate config crypto seen t1 request gate).1

    later : Gate
    later = history config crypto es gate1

    some-inj : {x y : Credential} → some x ≡ some y → x ≡ y
    some-inj e = cc e

    same_row :
        (c d : Credential) (m n : String) (rows : List NonceRow)
        → c ≡ d
        → m ≡ n
        → any (is_row c.id m) rows ≡ true
        → any (is_row d.id n) rows ≢ false
    same_row c d m n rows e f used unused = cc (e, f, used, unused)
