-- ===== src/Tests/Guards.antt =====
-- The theorems on the guard and on credentials at concrete credentials.
use cmorflow_tax_api.Guard.{
  Admitted, HttpRequest, GuardError, authenticate, is_in_window, distance, safe_equals,
  consume_nonce, create_nonce, enforce_rate_limit, authorize, CredentialType, api, admin,
  Credential, Gate, can_activate, resolve_signing_key,
}
use cmorflow_tax_api.Common.{
  Result, Signed, ◌∙◌, sym, refl, ◌≢◌, ℕ, ok, none, filter, arith, ◌≤◌, ◌≡◌, ◌∷◌, some, length, [],
  String, List, All, parse_int,
}
use cmorflow_tax_api.Guard.Access.{IsPassed, can_activate-IsPassed}
use cmorflow_tax_api.Guard.Replay.{Event, arrive, purge, history, can_activate-refuses_replay}
use cmorflow_tax_api.Guard.Limit.{passed, is_within, passed-limited}
use cmorflow_tax_api.Credentials.{
  CredentialError, own, check_input, Created, create, revoke, generate_secret, new_credential,
  close, update,
}
use cmorflow_tax_api.Credentials.Lockout.{active_admins, revoke-keeps_admin}
use cmorflow_tax_api.Credentials.Permissions.{
  IsValid, Operation, creates, rotates, revokes, perform_all, perform_all-IsValid,
  create-resolve_signing_key,
}
use cmorflow_tax_api.Tests.Samples.{
  crypto_1, credential_1, admin_1, admin_2, credentials_1, guard_config, gate_1, signed_request,
  sent_headers, admitted_1, create_input, draw_1,
}

passes : (can_activate guard_config crypto_1 [] 1000000 signed_request gate_1).0 ≡ ok admitted_1
unfolding can_activate authenticate is_in_window parse_int distance resolve_signing_key safe_equals
    consume_nonce create_nonce enforce_rate_limit authorize
passes = refl

abbrev gate_2 : Gate
gate_2 = (can_activate guard_config crypto_1 [] 1000000 signed_request gate_1).1

can_activate-IsPassed_example :
    IsPassed guard_config crypto_1 1000000 signed_request gate_1 gate_2 admitted_1
can_activate-IsPassed_example =
    can_activate-IsPassed guard_config crypto_1 [] 1000000 signed_request gate_1 admitted_1 passes

abbrev events : List Event
events = purge 1050000 ∷ arrive [] 1060000 (record signed_request { nonce = some "n2" }) ∷ []

parses : parse_int sent_headers.timestamp ≡ some (Signed.plus 995)
unfolding parse_int
parses = refl

can_activate-refuses_replay_example :
    (can_activate guard_config crypto_1 [] 1100000 signed_request
      (history guard_config crypto_1 events gate_2)).0
    ≢ ok admitted_1
can_activate-refuses_replay_example =
    can_activate-refuses_replay guard_config crypto_1 [] [] 1000000 1100000 995 signed_request
      gate_1 sent_headers admitted_1 admitted_1 events refl parses (omega arith) passes
      (omega arith, (omega arith, tt))

abbrev times : List ℕ
times = 1000 ∷ 2000 ∷ 3000 ∷ 62000 ∷ []

passed-limited_example : length (filter (is_within 1500) (passed 2 times [] [])) ≤ 2
passed-limited_example =
    passed-limited 2 1500 0 times (omega arith, (omega arith, (omega arith, (omega arith, tt))))

revoked :
    revoke 5000 "t1" 8 (some 9) credentials_1
    ≡ ok (credential_1 ∷ close 5000 admin_1 ∷ admin_2 ∷ [])
unfolding revoke own update
revoked = refl

revoke-keeps_admin_example :
    1 ≤ active_admins "t1" (credential_1 ∷ close 5000 admin_1 ∷ admin_2 ∷ [])
revoke-keeps_admin_example =
    revoke-keeps_admin 5000 "t1" 8 (some 9) credentials_1
      (credential_1 ∷ close 5000 admin_1 ∷ admin_2 ∷ []) (refl, (refl, (refl, tt))) (omega arith)
      revoked

cons-ne : (p : String) (ps : List String) → p ∷ ps ≢ []
cons-ne p ps e = cc e

admin-ne : Path CredentialType admin api → ⊥
admin-ne e = cc e

credentials_1-IsValid : All IsValid credentials_1
credentials_1-IsValid = (of_api, (of_admin admin_1 refl refl, (of_admin admin_2 refl refl, tt)))
  where
    of_api : IsValid credential_1
    of_api = record { known = refl; some_permission = cons-ne "dte:emit" []; separate = λ e. refl }

    of_admin :
        (c : Credential)
        → c.permissions ≡ "credentials:write" ∷ []
        → c.credential_type ≡ admin
        → IsValid c
    of_admin c e f = record {
      known = rw e refl;
      some_permission = λ g. cons-ne "credentials:write" [] (sym e ∙ g);
      separate = λ g. absurd (admin-ne (sym f ∙ g));
    }

abbrev operations : List Operation
operations =
    creates 5000 draw_1 "t1" create_input
    ∷ revokes 6000 "t1" 8 none
    ∷ rotates 7000 (record draw_1 { id = 11 }) "t1" 7
    ∷ []

perform_all-IsValid_example : All IsValid (perform_all crypto_1 operations credentials_1)
perform_all-IsValid_example =
    perform_all-IsValid crypto_1 operations credentials_1 credentials_1-IsValid

abbrev created_1 : Created
created_1 = record {
  credential = new_credential crypto_1 5000 draw_1 "t1" create_input;
  secret = generate_secret "ff";
  rows = new_credential crypto_1 5000 draw_1 "t1" create_input ∷ credentials_1;
}

creates_1 : create crypto_1 5000 draw_1 "t1" create_input credentials_1 ≡ ok created_1
unfolding create check_input
creates_1 = refl

create-resolve_signing_key_example :
    resolve_signing_key crypto_1 created_1.credential ≡ ok created_1.secret
create-resolve_signing_key_example =
    create-resolve_signing_key crypto_1 5000 draw_1 "t1" create_input credentials_1 created_1
      (λ s. refl) creates_1

-- A request that is stamped ahead of the clock passes twice: once at its arrival, and once after its
-- nonce has expired and was purged, while its timestamp is still within the window.
abbrev future_request : HttpRequest
future_request = record signed_request { timestamp = some "1200" }

passes_again : Result GuardError Admitted
passes_again =
    (can_activate guard_config crypto_1 [] 1400000 future_request (
      history guard_config crypto_1 (purge 1350000 ∷ [])
        (can_activate guard_config crypto_1 [] 1000000 future_request gate_1).1)).0

-- The only admin credential that still works is revoked, since a rotated one that has expired counts
-- as active.
only_expired_left : Result CredentialError (List Credential)
only_expired_left =
    revoke 900000 "t1" 9 none
      (record admin_1 { expires_at = some 800000; revoked_at = some 800000 } ∷ admin_2 ∷ [])
