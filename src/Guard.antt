-- ===== src/Guard.antt =====
-- src/infrastructure/guards/integration-hmac.guard.ts, with resolveSigningKey, consumeNonce and
-- enforceRateLimit; the checks of integration-signature.util.ts; and `purgeNonces` of
-- src/application/integrations/integration-orchestrator.service.ts. Times are in milliseconds. SHA-256,
-- HMAC and AES are parameters, which the code takes from Node's `crypto`. The correlation id, the log
-- and `lastUsedAt`, which no later check reads, are left out.
pub mod Access
pub mod Replay
pub mod Limit
use cmorflow_tax_api.Common.{
  truthy, parse_int, ◌/◌, find, all, guard, ◌>>◌, ◌>>=◌, [], ◌++◌, ◌∷◌, ◌*◌, same_bytes, minus,
  length, ◌-◌, ◌+◌, ◌&&◌, plus, ok, not, none, leb, codes, ◌==◌, true, str_eq, some, ltb, is_hex64,
  if◌then◌else◌, filter, false, err, any, Signed, ℕ, String, Result, Option, List, Bool,
}
use Prim.Native.String.{◌++◌ as text_append}

pub data SigningVersion : Type 0 where
  v1 v2 : SigningVersion

pub record Encrypted : Type 0 where
  pub iv : String
  pub ciphertext : String
  pub auth_tag : String
  pub salt : Option String

pub data CredentialType : Type 0 where
  api admin : CredentialType

-- IntegrationCredentialEntity, less the fields that only the lists show. A name is its characters'
-- codes.
pub record Credential : Type 0 where
  pub id : ℕ
  pub key_id : String
  pub tenant_id : String
  pub secret_hash : String
  pub secret_encrypted : Option Encrypted
  pub signing_version : SigningVersion
  pub name : List ℕ
  pub credential_type : CredentialType
  pub permissions : List String
  pub is_revoked : Bool
  pub expires_at : Option ℕ
  pub revoked_at : Option ℕ

pub record NonceRow : Type 0 where
  pub credential_id : ℕ
  pub nonce : String
  pub expires_at : ℕ

-- The process's environment.
pub record Config : Type 0 where
  pub enabled : Bool
  pub window_seconds : ℕ
  pub rate_limit : ℕ

pub record HttpRequest : Type 0 where
  pub method : String  -- upper case, as Node gives it
  pub path_with_query : String
  pub raw_body : String
  pub api_key : Option String
  pub timestamp : Option String
  pub nonce : Option String
  pub signature : Option String
  pub tenant_header : Option String
  pub required : List String  -- the endpoint's permissions

-- The database and the guard's own map.
pub record Gate : Type 0 where
  pub credentials : List Credential
  pub nonces : List NonceRow
  pub stamps : ℕ → List ℕ

pub data GuardError : Type 0 where
  api_disabled missing_headers unknown_key credential_revoked credential_expired : GuardError
  timestamp_out_of_window invalid_signature nonce_replayed rate_limited : GuardError
  permission_denied tenant_mismatch internal_error : GuardError

-- What the guard writes to the request.
pub record Admitted : Type 0 where
  pub tenant : String
  pub credential_id : ℕ

-- What `crypto` and `Aes256Cipher` compute with the master key; `decrypt` fails on a wrong key or tag.
pub record Crypto : Type 0 where
  pub sha256 : String → String
  pub hmac : String → String → String
  pub decrypt : Encrypted → Option String
  pub encrypt : String → Encrypted

-- `Math.abs(now - ts)`.
unfoldable pub distance : ℕ → Signed → ℕ
distance now (plus ts) = (now - ts) + (ts - now)
distance now (minus ts) = now + ts

unfoldable pub is_in_window : ℕ → ℕ → Option Signed → Bool
is_in_window window now none = false
is_in_window window now (some ts) = leb (distance now ts) window

-- `safeEquals`: both are 64 hexadecimal digits and spell the same bytes.
unfoldable pub safe_equals : String → String → Bool
safe_equals a b = is_hex64 (codes a) && is_hex64 (codes b) && same_bytes (codes a) (codes b)

-- `[method, pathWithQuery, bodyHash, timestamp, nonce].join('\n')`
unfoldable pub canonical_string : String → String → String → String → String → String
canonical_string method path body_hash timestamp nonce = text_append method (
    text_append "\n" (
      text_append path (
        text_append "\n" (
          text_append body_hash
            (text_append "\n" (text_append timestamp (text_append "\n" nonce)))))))

module _ (crypto : Crypto) where
  unfoldable pub resolve_signing_key : Credential → Result GuardError String
  resolve_signing_key credential =
      with_secret credential.signing_version credential.secret_encrypted
    where
      decrypted : SigningVersion → Option String → Result GuardError String
      decrypted version none = err internal_error
      decrypted v2 (some secret) = ok secret
      decrypted v1 (some secret) = ok (crypto.sha256 secret)

      with_secret : SigningVersion → Option Encrypted → Result GuardError String
      with_secret v2 none = err invalid_signature
      with_secret v1 none = ok credential.secret_hash
      with_secret version (some encrypted) = decrypted version (crypto.decrypt encrypted)

abbrev pub is_key : String → Credential → Bool
is_key key_id c = str_eq c.key_id key_id

abbrev pub is_expired : ℕ → Option ℕ → Bool
is_expired now none = false
is_expired now (some t) = leb t now

abbrev pub is_row : ℕ → String → NonceRow → Bool
is_row credential_id nonce row = (row.credential_id == credential_id) && str_eq row.nonce nonce

-- The INSERT, which the unique index refuses for a nonce that is there.
unfoldable pub create_nonce : NonceRow → List NonceRow → Result GuardError (List NonceRow)
create_nonce row rows =
    if any (is_row row.credential_id row.nonce) rows then err nonce_replayed else ok (row ∷ rows)

-- `seen` is what the SELECT saw, before other requests inserted theirs.
unfoldable pub consume_nonce :
    (seen : List NonceRow) → ℕ → String → ℕ → ℕ → List NonceRow → Result GuardError (List NonceRow)
consume_nonce seen credential_id nonce window_seconds now rows =
    if any (is_row credential_id nonce) seen
    then err nonce_replayed
    else create_nonce
        (record {
          credential_id = credential_id;
          nonce = nonce;
          expires_at = now + window_seconds * 1000;
        })
        rows

-- `purgeNonces`.
unfoldable pub purge_nonces : ℕ → List NonceRow → List NonceRow
purge_nonces now rows = filter (λ row. not (ltb row.expires_at now)) rows

abbrev pub window_ms : ℕ
window_ms = 60000

-- `now - t < windowMs`, for a stamp of the past.
abbrev pub is_recent : ℕ → ℕ → Bool
is_recent now t = ltb (now - t) window_ms

-- The stamps that stay, and whether the request passes.
unfoldable pub enforce_rate_limit : ℕ → ℕ → List ℕ → List ℕ × Bool
enforce_rate_limit limit now stamps =
    let recent = filter (is_recent now) stamps in
    if leb limit (length recent) then (recent, false) else (recent ++ (now ∷ []), true)

pub record Headers : Type 0 where
  pub key_id : String
  pub timestamp : String
  pub nonce : String
  pub signature : String

abbrev all_of :
    Option String → Option String → Option String → Option String → Result GuardError Headers
all_of (some k) (some t) (some n) (some s) =
    ok (record { key_id = k; timestamp = t; nonce = n; signature = s })
all_of k t n s = err missing_headers

abbrev pub headers : HttpRequest → Result GuardError Headers
headers r = all_of (truthy r.api_key) (truthy r.timestamp) (truthy r.nonce) (truthy r.signature)

abbrev pub or_unknown : Option Credential → Result GuardError Credential
or_unknown none = err unknown_key
or_unknown (some c) = ok c

-- The checks 1 to 3, up to the signature.
unfoldable pub authenticate :
    Config → Crypto → ℕ → HttpRequest → List Credential → Result GuardError (Credential × Headers)
authenticate config crypto now request credentials = do
  guard config.enabled api_disabled
  h ← headers request
  credential ← or_unknown (find (is_key h.key_id) credentials)
  guard (not credential.is_revoked) credential_revoked
  guard (not (is_expired now credential.expires_at)) credential_expired
  guard (is_in_window config.window_seconds (now / 1000) (parse_int h.timestamp))
      timestamp_out_of_window
  key ← resolve_signing_key crypto credential
  guard
      (safe_equals h.signature (
        crypto.hmac key (
          canonical_string request.method request.path_with_query (crypto.sha256 request.raw_body)
            h.timestamp h.nonce)))
      invalid_signature
  ok (credential, h)

abbrev pub includes_text : List String → String → Bool
includes_text granted p = any (λ g. str_eq g p) granted

abbrev pub is_own_tenant : Option String → String → Bool
is_own_tenant none tenant = true
is_own_tenant (some t) tenant = str_eq t tenant

-- The checks 6 and 7.
unfoldable pub authorize : HttpRequest → Credential → Result GuardError Admitted
authorize request credential = do
  guard (all (includes_text credential.permissions) request.required) permission_denied
  guard (is_own_tenant (truthy request.tenant_header) credential.tenant_id) tenant_mismatch
  ok (record { tenant = credential.tenant_id; credential_id = credential.id })

abbrev set_stamps : ℕ → List ℕ → (ℕ → List ℕ) → ℕ → List ℕ
set_stamps id stamps all_stamps other = if other == id then stamps else all_stamps other

-- After the rate limit: its new stamps, and whether the request passes.
abbrev pub limited :
    HttpRequest → Credential → Gate → List ℕ × Bool → Result GuardError Admitted × Gate
limited request credential gate (stamps, true) = (
  authorize request credential,
  record gate { stamps = set_stamps credential.id stamps gate.stamps },
)
limited request credential gate (stamps, false) =
    (err rate_limited, record gate { stamps = set_stamps credential.id stamps gate.stamps })

-- After the nonce's consumption.
abbrev pub consumed :
    Config
    → ℕ
    → HttpRequest
    → Credential
    → Gate
    → Result GuardError (List NonceRow)
    → Result GuardError Admitted × Gate
consumed config now request credential gate (err e) = (err e, gate)
consumed config now request credential gate (ok rows) =
    limited request credential (record gate { nonces = rows })
      (enforce_rate_limit config.rate_limit now (gate.stamps credential.id))

-- After the signature.
abbrev pub authenticated :
    Config
    → (seen : List NonceRow) → ℕ
    → HttpRequest
    → Gate
    → Result GuardError (Credential × Headers)
    → Result GuardError Admitted × Gate
authenticated config seen now request gate (err e) = (err e, gate)
authenticated config seen now request gate (ok (credential, h)) =
    consumed config now request credential gate
      (consume_nonce seen credential.id h.nonce config.window_seconds now gate.nonces)

unfoldable pub can_activate :
    Config
    → Crypto
    → (seen : List NonceRow) → ℕ
    → HttpRequest
    → Gate
    → Result GuardError Admitted × Gate
can_activate config crypto seen now request gate =
    authenticated config seen now request gate
      (authenticate config crypto now request gate.credentials)
