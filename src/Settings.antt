-- ===== src/Settings.antt =====
-- src/infrastructure/framework/sii/tenant-config.service.ts: the digital signature of a tenant, its status and
-- its use with the two-minute cache of one process. Certificates and ciphers are Node's, and parameters.
-- Times are milliseconds; `validTo` is a date, the start of its day.
pub mod Expiry
use cmorflow_tax_api.Common.{
  ◌>>◌, ◌==◌, ◌++◌, true, ltb, ◌+◌, some, not, minus, false, [], ◌∷◌, ◌||◌, plus, ok, none, leb,
  guard, err, codes, ℕ, if◌then◌else◌, String, Signed, Result, Option, List, Bool, ◌*◌, ◌-◌, ◌/◌,
}
use cmorflow_tax_api.Xml.{contains}
use cmorflow_tax_api.Guard.{Encrypted}

pub data CertificateType : Type 0 where
  real mock certification : CertificateType

pub record SignatureConfig : Type 0 where
  pub pfx_base64 : String
  pub password_encrypted : Encrypted
  pub subject_name : List ℕ
  pub issuer_name : List ℕ
  pub valid_to : ℕ
  pub type : CertificateType

-- What `CertificateUtils.extractMetadata` reads of a PFX.
pub record CertificateMeta : Type 0 where
  pub subject_name : List ℕ
  pub issuer_name : List ℕ
  pub valid_to : ℕ

pub record Signatures : Type 0 where
  pub signature : Option SignatureConfig
  pub signature_history : List SignatureConfig

pub data SettingsError : Type 0 where
  default_key bad_pfx expired_signature not_decrypted : SettingsError

-- `toLowerCase().includes(word)`; the Kelvin sign and the dotted I, which alone beyond ASCII have a letter
-- of ASCII below them, are not treated.
abbrev pub has_word : String → CertificateMeta → Bool
has_word word meta =
    contains (codes word) meta.issuer_name || contains (codes word) meta.subject_name

unfoldable pub certificate_type : CertificateMeta → CertificateType
certificate_type meta =
    if has_word "mock" meta || contains (codes "simulado") meta.issuer_name
    then mock
    else if has_word "prueba" meta || has_word "certificacion" meta
    then certification
    else real

-- The environment: production with the master key of the repository, a PFX's metadata, and the two
-- ciphers.
pub record Vault : Type 0 where
  pub is_default_key : Bool  -- in production
  pub extract_metadata : String → String → Option CertificateMeta
  pub encrypt : String → Encrypted
  pub decrypt : Encrypted → Option String

abbrev pub archived : Signatures → List SignatureConfig
archived s = elim s.signature [
  | none ↦ s.signature_history
  | some old ↦ s.signature_history ++ old ∷ []
]

abbrev pub new_signature : Vault → String → String → CertificateMeta → SignatureConfig
new_signature vault pfx_base64 password meta = record {
  pfx_base64 = pfx_base64;
  password_encrypted = vault.encrypt password;
  subject_name = meta.subject_name;
  issuer_name = meta.issuer_name;
  valid_to = meta.valid_to;
  type = certificate_type meta;
}

-- `saveSignature` on the row.
unfoldable pub save_signature :
    Vault → String → String → Signatures → Result SettingsError Signatures
unfolding certificate_type
save_signature vault pfx_base64 password s =
    guard (not vault.is_default_key) default_key
    >> elim (vault.extract_metadata pfx_base64 password) [
      | none ↦ err bad_pfx
      | some meta ↦ ok (record {
        signature = some (new_signature vault pfx_base64 password meta);
        signature_history = archived s;
      })
    ]

-- `Math.ceil(diffTime / (1000 * 60 * 60 * 24))`
unfoldable pub days_remaining : ℕ → ℕ → Signed
days_remaining valid_to now =
    if leb now valid_to
    then plus ((valid_to - now + 86399999) / 86400000)
    else minus ((now - valid_to) / 86400000)

pub record SignatureStatus : Type 0 where
  pub days : ℕ
  pub is_expiring_soon : Bool
  pub is_expired : Bool

abbrev pub is_negative : Signed → Bool
is_negative (plus n) = false
is_negative (minus n) = not (n == 0)

abbrev pub at_most_30 : Signed → Bool
at_most_30 (plus n) = leb n 30
at_most_30 (minus n) = true

-- `isExpired ? 0 : daysRemaining`
abbrev pub shown_days : Signed → ℕ
shown_days (plus n) = n
shown_days (minus n) = 0

unfoldable pub status_of : ℕ → SignatureConfig → SignatureStatus
unfolding days_remaining
status_of now s = record {
  days = shown_days (days_remaining s.valid_to now);
  is_expiring_soon = at_most_30 (days_remaining s.valid_to now);
  is_expired = is_negative (days_remaining s.valid_to now);
}

unfoldable pub get_signature_status : ℕ → Signatures → Option SignatureStatus
unfolding status_of
get_signature_status now s = elim s.signature [ none ↦ none | some sig ↦ some (status_of now sig) ]

-- What is handed out for signing.
pub record DecryptedSignature : Type 0 where
  pub pfx_base64 : String
  pub password : String
  pub valid_to : ℕ

pub record Cached : Type 0 where
  pub value : DecryptedSignature
  pub expires : ℕ

abbrev pub signature_ttl_ms : ℕ
signature_ttl_ms = 120000

abbrev pub with_password : SignatureConfig → Option String → Result SettingsError DecryptedSignature
with_password s none = err not_decrypted
with_password s (some password) =
    ok (record { pfx_base64 = s.pfx_base64; password = password; valid_to = s.valid_to })

abbrev pub decrypted : Vault → SignatureConfig → Result SettingsError DecryptedSignature
decrypted vault s = with_password s (vault.decrypt s.password_encrypted)

-- The process: the row as its `getConfig` gives it, and its cache.
pub record Process : Type 0 where
  pub row : Signatures
  pub cache : Option Cached

abbrev pub Use : Type 0
Use = Result SettingsError (Option DecryptedSignature) × Process

abbrev pub remember : ℕ → Process → Result SettingsError DecryptedSignature → Use
remember now p (err e) = (err e, p)
remember now p (ok d) = (
  ok (some d),
  record p { cache = some (record { value = d; expires = now + signature_ttl_ms }) },
)

abbrev pub use_row : Vault → ℕ → Process → Option SignatureConfig → Use
use_row vault now p none = (ok none, p)
use_row vault now p (some s) =
    if ltb s.valid_to now then (err expired_signature, p) else remember now p (decrypted vault s)

abbrev pub use_key : Vault → ℕ → Process → Bool → Use
use_key vault now p true = (err default_key, p)
use_key vault now p false = use_row vault now p p.row.signature

abbrev pub use_fresh : Vault → ℕ → Process → Use
use_fresh vault now p = use_key vault now p vault.is_default_key

abbrev pub use_cached : Vault → ℕ → Process → Option Cached → Use
use_cached vault now p none = use_fresh vault now p
use_cached vault now p (some c) =
    if ltb now c.expires then (ok (some c.value), p) else use_fresh vault now p

-- `getDecryptedSignature`, outside a transaction of the tenant.
unfoldable pub get_decrypted_signature : Vault → ℕ → Process → Use
get_decrypted_signature vault now p = use_cached vault now p p.cache

abbrev pub saved : Process → Result SettingsError Signatures → Process
saved p (err e) = p
saved p (ok row) = record { row = row; cache = none }

-- What happens to the process: a signature is saved here, another process changes the row, or the signature
-- is asked for.
pub data Event : Type 0 where
  save : String → String → Event
  elsewhere : Signatures → Event
  ask : ℕ → Event

unfoldable pub happen : Vault → Event → Process → Process
unfolding save_signature get_decrypted_signature
happen vault (save pfx_base64 password) p = saved p (save_signature vault pfx_base64 password p.row)
happen vault (elsewhere row) p = record p { row = row }
happen vault (ask now) p = (get_decrypted_signature vault now p).1

unfoldable pub history : Vault → List Event → Process → Process
unfolding happen
history vault [] p = p
history vault (e ∷ es) p = history vault es (happen vault e p)
