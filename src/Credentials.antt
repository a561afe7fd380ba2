-- ===== src/Credentials.antt =====
-- src/application/integrations/integration-credentials.use-case.ts: create, rotate and revoke, on the
-- credentials of the database. What the code draws at random is an argument; the audit log, whose
-- failures are ignored, and the listing are left out.
use cmorflow_tax_api.Common.{
  any, ◌||◌, ◌*◌, ltb, all, ◌+◌, ◌&&◌, not, none, if◌then◌else◌, filter, [], ◌∷◌, ◌==◌, true,
  str_eq, some, skip_spaces, ok, length, guard, find, false, err, codes, ◌++◌, ℕ, String, Result,
  Option, List, Bool, ◌>>◌, ◌>>=◌,
}
pub mod Lockout
pub mod Permissions
use Prim.Native.String.{◌++◌ as text_append}
use mathlib.Core.List.{reverse}
use cmorflow_tax_api.Guard.{
  Credential, CredentialType, api, admin, Crypto, Encrypted, SigningVersion, v2, includes_text,
}

pub data CredentialError : Type 0 where
  bad_request not_found self_revoke_last_admin : CredentialError

-- INTEGRATION_PERMISSIONS.
abbrev pub integration_permissions : List String
integration_permissions =
    "dte:emit" ∷ "dte:read" ∷ "rcof:submit" ∷ "rcof:read" ∷ "artifacts:read" ∷ "webhooks:read"
    ∷ "webhooks:write" ∷ "credentials:read" ∷ "credentials:write" ∷ []

-- ADMIN_ONLY_PERMISSIONS.
abbrev pub admin_only_permissions : List String
admin_only_permissions =
    "credentials:read" ∷ "credentials:write" ∷ "webhooks:read" ∷ "webhooks:write" ∷ []

pub record CreateInput : Type 0 where
  pub name : List ℕ
  pub credential_type : CredentialType
  pub permissions : List String
  pub expires_in_days : Option ℕ

-- The id that the database gives, and the random parts of the key and of the secret.
pub record Draw : Type 0 where
  pub id : ℕ
  pub key_part : String
  pub secret_part : String

abbrev trim : List ℕ → List ℕ
trim s = reverse (skip_spaces (reverse (skip_spaces s)))

abbrev pub generate_key_id : CredentialType → String → String
generate_key_id admin part = text_append "cmor_admin_" part
generate_key_id api part = text_append "cmor_live_" part

abbrev pub generate_secret : String → String
generate_secret part = text_append "cmc_" part

abbrev pub is_admin : CredentialType → Bool
is_admin admin = true
is_admin api = false

abbrev day_ms : ℕ
day_ms = 86400000

abbrev expiry : ℕ → Option ℕ → Option ℕ
expiry now none = none
expiry now (some days) = if days == 0 then none else some (now + days * day_ms)

abbrev pub is_blank : List ℕ → Bool
is_blank s = length (trim s) == 0

-- The checks of `create`.
unfoldable pub check_input : CreateInput → Result CredentialError (Unit {0})
check_input input = do
  guard (not (is_blank input.name)) bad_request
  guard (all (includes_text integration_permissions) input.permissions) bad_request
  guard (not (length input.permissions == 0)) bad_request
  guard
      (is_admin input.credential_type
        || not (any (includes_text admin_only_permissions) input.permissions))
      bad_request
  ok tt

-- The row of `create`.
abbrev pub new_credential : Crypto → ℕ → Draw → String → CreateInput → Credential
new_credential crypto now draw tenant_id input = record {
  id = draw.id;
  key_id = generate_key_id input.credential_type draw.key_part;
  tenant_id = tenant_id;
  secret_hash = crypto.sha256 (generate_secret draw.secret_part);
  secret_encrypted = some (crypto.encrypt (generate_secret draw.secret_part));
  signing_version = v2;
  name = trim input.name;
  credential_type = input.credential_type;
  permissions = input.permissions;
  is_revoked = false;
  expires_at = expiry now input.expires_in_days;
  revoked_at = none;
}

-- The new row, the secret that is shown once, and the rows afterwards.
pub record Created : Type 0 where
  pub credential : Credential
  pub secret : String
  pub rows : List Credential

unfoldable pub create :
    Crypto → ℕ → Draw → String → CreateInput → List Credential → Result CredentialError Created
create crypto now draw tenant_id input rows = do
  check_input input
  ok (record {
    credential = new_credential crypto now draw tenant_id input;
    secret = generate_secret draw.secret_part;
    rows = new_credential crypto now draw tenant_id input ∷ rows;
  })

abbrev pub has_id : ℕ → Credential → Bool
has_id id c = c.id == id

abbrev pub or_not_found : Option Credential → Result CredentialError Credential
or_not_found none = err not_found
or_not_found (some c) = ok c

-- The row, if it is the tenant's.
unfoldable pub own : String → ℕ → List Credential → Result CredentialError Credential
own tenant_id id rows = do
  c ← or_not_found (find (has_id id) rows)
  guard (str_eq c.tenant_id tenant_id) not_found
  ok c

-- `update(id, change)`.
unfoldable pub update : ℕ → (Credential → Credential) → List Credential → List Credential
update id change [] = []
update id change (c ∷ cs) =
    let rest = update id change cs in if has_id id c then change c ∷ rest else c ∷ rest

-- ROTATION_GRACE_MS.
abbrev pub rotation_grace_ms : ℕ
rotation_grace_ms = 86400000

abbrev pub effective_expiry : ℕ → Option ℕ → ℕ
effective_expiry grace none = grace
effective_expiry grace (some t) = if ltb t grace then t else grace

-- What a rotation asks `create` for. " (rotada)" is given by its codes.
abbrev pub rotated_input : Credential → CreateInput
rotated_input old = record {
  name = old.name ++ codes " (rotada)";
  credential_type = old.credential_type;
  permissions = filter (λ p. not (str_eq p "dte:cancel")) old.permissions;
  expires_in_days = none;
}

abbrev pub expire : ℕ → Credential → Credential
expire t c = record c { expires_at = some t; revoked_at = some t }

unfoldable pub rotate :
    Crypto → ℕ → Draw → String → ℕ → List Credential → Result CredentialError Created
rotate crypto now draw tenant_id id rows = do
  old ← own tenant_id id rows
  created ← create crypto now draw tenant_id (rotated_input old) rows
  ok (record created {
    rows =
        update id (expire (effective_expiry (now + rotation_grace_ms) old.expires_at)) created.rows;
  })

abbrev pub is_live_admin : Credential → Bool
is_live_admin c = is_admin c.credential_type && not c.is_revoked

-- The active admin credentials among what `find({ where: { tenantId } })` answers.
abbrev pub is_active_admin : String → Credential → Bool
is_active_admin tenant_id c = str_eq c.tenant_id tenant_id && is_live_admin c

abbrev pub is_actor : ℕ → Option ℕ → Bool
is_actor id none = false
is_actor id (some actor) = actor == id

abbrev pub close : ℕ → Credential → Credential
close now c = record c { is_revoked = true; revoked_at = some now }

unfoldable pub revoke :
    ℕ → String → ℕ → Option ℕ → List Credential → Result CredentialError (List Credential)
revoke now tenant_id id actor rows = do
  c ← own tenant_id id rows
  guard
      (not (is_live_admin c)
        || (ltb 1 (length (filter (is_active_admin tenant_id) rows)) && not (is_actor id actor)))
      self_revoke_last_admin
  ok (update id (close now) rows)
