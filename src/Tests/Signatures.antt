-- ===== src/Tests/Signatures.antt =====
-- A signature on the day on which its validity ends.
use cmorflow_tax_api.Common.{
  ◌≡◌, ◌↔◌, ◌<◌, ◌+◌, ◌≤◌, List, refl, ok, err, none, some, true, false, codes, [], ◌∷◌,
}
use cmorflow_tax_api.Guard.{Encrypted}
use cmorflow_tax_api.Settings.{
  Vault, Process, Event, SignatureConfig, DecryptedSignature, expired_signature, real, save, ask,
  history, happen, save_signature, get_decrypted_signature, status_of, days_remaining,
}
use cmorflow_tax_api.Settings.Expiry.{get_decrypted_signature-live, expired_day}

abbrev sealed : Encrypted
sealed = record { iv = "i"; ciphertext = "c"; auth_tag = "a"; salt = none }

abbrev vault : Vault
vault = record {
  is_default_key = false;
  extract_metadata = λ pfx password. some (record {
    subject_name = codes "CN=Ana";
    issuer_name = codes "CN=E-CERT";
    valid_to = 100000000;
  });
  encrypt = λ password. sealed;
  decrypt = λ e. some "secret";
}

abbrev empty : Process
empty = record { row = record { signature = none; signature_history = [] }; cache = none }

-- Saved, and used for the last time just before its end.
abbrev events : List Event
events = save "pfx" "secret" ∷ ask 100000000 ∷ []

abbrev handed : DecryptedSignature
handed = record { pfx_base64 = "pfx"; password = "secret"; valid_to = 100000000 }

still_used :
    (get_decrypted_signature vault 100119999 (history vault events empty)).0 ≡ ok (some handed)
unfolding get_decrypted_signature history happen save_signature
still_used = refl

get_decrypted_signature-live_example : 100119999 < handed.valid_to + 120000
get_decrypted_signature-live_example =
    get_decrypted_signature-live vault events empty 100119999 handed refl still_used

abbrev kept_signature : SignatureConfig
kept_signature = record {
  pfx_base64 = "pfx";
  password_encrypted = sealed;
  subject_name = codes "CN=Ana";
  issuer_name = codes "CN=E-CERT";
  valid_to = 100000000;
  type = real;
}

abbrev holder : Process
holder = record {
  row = record { signature = some kept_signature; signature_history = [] };
  cache = none;
}

expired_day_example :
    (((get_decrypted_signature vault 150000000 holder).0 ≡ err expired_signature)
      ↔ (kept_signature.valid_to < 150000000))
    × (((status_of 150000000 kept_signature).is_expired ≡ true)
        ↔ (kept_signature.valid_to + 86400000 ≤ 150000000))
expired_day_example = expired_day vault 150000000 holder kept_signature refl refl refl

-- Fourteen hours after its end it is refused, and not yet shown as expired.
not_shown : (status_of 150000000 kept_signature).is_expired ≡ false
unfolding status_of days_remaining
not_shown = refl
