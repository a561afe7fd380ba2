-- ===== src/Guard/Access.antt =====
-- Who passes the guard.
use cmorflow_tax_api.Common.{
  truthy, ◌∷◌, ◌*◌, ◌+◌, sym, ◌∙◌, subst, arith, any, all, String, ◌/◌, refl, not, none, false,
  true, some, find, err, ok, ◌≡◌, List, ℕ, Result, Option, Bool, guard-ok, bind-ok, ok-inj,
}
use cmorflow_tax_api.Guard.{
  Config, Crypto, Credential, NonceRow, HttpRequest, Gate, GuardError, Admitted, Headers, headers,
  is_key, is_expired, is_in_window, parse_int, resolve_signing_key, safe_equals, canonical_string,
  includes_text, is_own_tenant, is_row, authenticate, authorize, consume_nonce, create_nonce,
  can_activate, or_unknown, limited, consumed, authenticated,
}

-- What the code promises of a request that passes, of its credential and of its headers.
pub record IsAuthentic (config : Config) (crypto : Crypto) (now : ℕ) (request : HttpRequest)
    (credentials : List Credential) (c : Credential) (h : Headers) : Type 0 where
  pub given : headers request ≡ ok h
  pub found : find (is_key h.key_id) credentials ≡ some c
  pub enabled : config.enabled ≡ true
  pub not_revoked : c.is_revoked ≡ false
  pub not_expired : is_expired now c.expires_at ≡ false
  pub in_window : is_in_window config.window_seconds (now / 1000) (parse_int h.timestamp) ≡ true
  pub key : String
  pub key_resolved : resolve_signing_key crypto c ≡ ok key
  pub signed :
      safe_equals h.signature (
        crypto.hmac key (
          canonical_string request.method request.path_with_query
            (crypto.sha256 request.raw_body)
            h.timestamp
            h.nonce))
      ≡ true

not-true : (b : Bool) → not b ≡ true → b ≡ false
not-true b h = ground arith

or_unknown-ok : (o : Option Credential) (c : Credential) → or_unknown o ≡ ok c → o ≡ some c
or_unknown-ok none c h = cc h
or_unknown-ok (some c) d h = cc h

pub authenticate-IsAuthentic :
    (config : Config) (crypto : Crypto) (now : ℕ) (request : HttpRequest)
    (credentials : List Credential) (x : Credential × Headers)
    → authenticate config crypto now request credentials ≡ ok x
    → IsAuthentic config crypto now request credentials x.0 x.1
unfolding authenticate
authenticate-IsAuthentic config crypto now request credentials x e0 =
    let (enabled, e1) = guard-ok config.enabled GuardError.api_disabled _ x e0 in
    let (h, given, e2) = bind-ok (headers request) _ x e1 in
    let (c, known, e3) = bind-ok (or_unknown (find (is_key h.key_id) credentials)) _ x e2 in
    let (alive, e4) = guard-ok (not c.is_revoked) GuardError.credential_revoked _ x e3 in
    let (fresh, e5) =
      guard-ok (not (is_expired now c.expires_at)) GuardError.credential_expired _ x e4 in
    let (timely, e6) = guard-ok _ GuardError.timestamp_out_of_window _ x e5 in
    let (key, resolved, e7) = bind-ok (resolve_signing_key crypto c) _ x e6 in
    let (signed, e8) = guard-ok _ GuardError.invalid_signature _ x e7 in
    subst (λ y. IsAuthentic config crypto now request credentials y.0 y.1) (ok-inj e8)
      (record {
        given = given;
        found = or_unknown-ok (find (is_key h.key_id) credentials) c known;
        enabled = enabled;
        not_revoked = not-true c.is_revoked alive;
        not_expired = not-true (is_expired now c.expires_at) fresh;
        in_window = timely;
        key = key;
        key_resolved = resolved;
        signed = signed;
      })

-- What passes the guard: an authentic request of a known credential, with a nonce that is consumed by
-- it, every permission of the endpoint and no other tenant's header.
pub record IsPassed (config : Config) (crypto : Crypto) (now : ℕ) (request : HttpRequest)
    (gate after : Gate) (a : Admitted) : Type 0 where
  pub credential : Credential
  pub sent : Headers
  pub authentic : IsAuthentic config crypto now request gate.credentials credential sent
  pub unused : any (is_row credential.id sent.nonce) gate.nonces ≡ false
  pub used :
      after.nonces
      ≡ record {
        credential_id = credential.id;
        nonce = sent.nonce;
        expires_at = now + config.window_seconds * 1000;
      }
        ∷ gate.nonces
  pub permitted : all (includes_text credential.permissions) request.required ≡ true
  pub same_tenant : is_own_tenant (truthy request.tenant_header) credential.tenant_id ≡ true
  pub whose : a ≡ record { tenant = credential.tenant_id; credential_id = credential.id }

consume_nonce-ok :
    (seen : List NonceRow) (id : ℕ) (nonce : String) (window now : ℕ) (rows after : List NonceRow)
    → consume_nonce seen id nonce window now rows ≡ ok after
    → (any (is_row id nonce) rows ≡ false)
      × (after
          ≡ record { credential_id = id; nonce = nonce; expires_at = now + window * 1000 } ∷ rows)
unfolding consume_nonce create_nonce
consume_nonce-ok seen id nonce window now rows after h = ground arith

authorize-ok :
    (request : HttpRequest) (c : Credential) (a : Admitted)
    → authorize request c ≡ ok a
    → (all (includes_text c.permissions) request.required ≡ true)
      × (is_own_tenant (truthy request.tenant_header) c.tenant_id ≡ true)
      × (a ≡ record { tenant = c.tenant_id; credential_id = c.id })
unfolding authorize
authorize-ok request c a h =
    let (permitted, e1) = guard-ok _ GuardError.permission_denied _ a h in
    let (same_tenant, e2) = guard-ok _ GuardError.tenant_mismatch _ a e1 in
    (permitted, same_tenant, sym (ok-inj e2))

-- A request that the guard admits carries a valid signature of a live credential, within the window,
-- with a nonce that the credential had not used and that is recorded with the admission; the
-- credential has every permission that the endpoint requires; and the tenant is the credential's,
-- whatever the request's header says.
pub can_activate-IsPassed :
    (config : Config) (crypto : Crypto) (seen : List NonceRow) (now : ℕ) (request : HttpRequest)
    (gate : Gate) (a : Admitted)
    → (can_activate config crypto seen now request gate).0 ≡ ok a
    → IsPassed config crypto now request gate (can_activate config crypto seen now request gate).1 a
unfolding can_activate
can_activate-IsPassed config crypto seen now request gate a h0 =
    go (authenticate config crypto now request gate.credentials)
      (λ x e. authenticate-IsAuthentic config crypto now request gate.credentials x e) h0
  where
    limit :
        (c : Credential) (h : Headers) (g : Gate) (x : List ℕ × Bool)
        → (limited request c g x).0 ≡ ok a
        → (authorize request c ≡ ok a) × ((limited request c g x).1.nonces ≡ g.nonces)
    limit c h g (stamps, true) e = (e, refl)
    limit c h g (stamps, false) e = cc e

    pass :
        (c : Credential) (h : Headers) (rows : Result GuardError (List NonceRow))
        → IsAuthentic config crypto now request gate.credentials c h
        → consume_nonce seen c.id h.nonce config.window_seconds now gate.nonces ≡ rows
        → (consumed config now request c gate rows).0 ≡ ok a
        → IsPassed config crypto now request gate (consumed config now request c gate rows).1 a
    pass c h (err e) authentic eq e0 = cc e0
    pass c h (ok rows) authentic eq e0 =
        let (unused, used) =
          consume_nonce-ok seen c.id h.nonce config.window_seconds now gate.nonces rows eq in
        let (allowed, same) = limit c h (record gate { nonces = rows }) _ e0 in
        let (permitted, same_tenant, whose) = authorize-ok request c a allowed in
        record {
          credential = c;
          sent = h;
          authentic = authentic;
          unused = unused;
          used = same ∙ used;
          permitted = permitted;
          same_tenant = same_tenant;
          whose = whose;
        }

    go :
        (x : Result GuardError (Credential × Headers))
        → ((y : Credential × Headers)
            → x ≡ ok y
            → IsAuthentic config crypto now request gate.credentials y.0 y.1)
        → (authenticated config seen now request gate x).0 ≡ ok a
        → IsPassed config crypto now request gate (authenticated config seen now request gate x).1 a
    go (err e) f e0 = cc e0
    go (ok (c, h)) f e0 = pass c h _ (f (c, h) refl) refl e0
