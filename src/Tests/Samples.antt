-- ===== src/Tests/Samples.antt =====
-- Concrete data that the tests share.
use cmorflow_tax_api.Common.{codes, true, codes, List, false, ◌∷◌, some, none, []}
use cmorflow_tax_api.Folio.{CafData, TenantConfig}
use cmorflow_tax_api.Request.{
  Request, Kind, queued, processing, HistoryEntry, Store, RequestError, sii_unavailable,
}
use cmorflow_tax_api.Worker.{World}
use cmorflow_tax_api.Guard.{
  Credential, api, admin, Crypto, v2, Config, Gate, HttpRequest, Headers, Admitted,
}
use cmorflow_tax_api.Credentials.{CreateInput, Draw}

abbrev pub caf_33 : CafData
caf_33 = record {
  issuer_rut = codes "76123456-0";
  type = 33;
  range_from = 10;
  range_to = 12;
  authorization_date = codes "2026-01-02";
  raw_xml = codes "<CAF/>";
  last_used_folio = some 10;
}

abbrev pub caf_33_next : CafData
caf_33_next = record caf_33 { range_from = 20; range_to = 30; last_used_folio = none }

abbrev pub config_33 : TenantConfig
config_33 = record {
  cafs = caf_33 ∷ caf_33_next ∷ [];
  ai_enabled = false;
  can_issue_t46 = false;
  active_brand_profile_id = none;
}

abbrev pub created : HistoryEntry
created = record {
  state = queued;
  timestamp = 1000;
  detail = "Solicitud recibida (202).";
  from = none;
}

abbrev pub request_1 : Request
request_1 = record {
  id = "r1";
  tenant_id = "t1";
  kind = Kind.dte;
  document_type = 33;
  state = queued;
  dte_id = none;
  rcof_id = none;
  origin_credential_id = some "c1";
  attempts = 0;
  max_attempts = 5;
  next_attempt_at = 1000;
  locked_at = none;
  last_error = none;
  state_history = created ∷ [];
  transmission_started_at = none;
  submitted_at = none;
  finalized_at = none;
}

abbrev pub request_processing : Request
request_processing = record request_1 { state = processing }

abbrev pub store_1 : Store
store_1 = record { row = request_1; outbox = [] }

abbrev pub world_1 : World
world_1 = record {
  db = record { row = request_1; outbox = []; config = some config_33; documents = [] };
  sends = [];
  replies = [];
  clock = 0;
  faults = [];
}

abbrev pub error_1 : RequestError
error_1 = record { code = sii_unavailable; message = "timeout"; retryable = true }

abbrev pub processing_store : Store
processing_store = record { row = request_processing; outbox = [] }

-- A hash that answers 64 digits for everything, and a cipher that keeps its text.
abbrev pub crypto_1 : Crypto
crypto_1 = record {
  sha256 = λ s. s;
  hmac = λ key s. "aaaaaaaaaaaaaaaaaaaaaaaaaaaaaaaaaaaaaaaaaaaaaaaaaaaaaaaaaaaaaaaa";
  decrypt = λ e. some e.ciphertext;
  encrypt = λ s. record { iv = ""; ciphertext = s; auth_tag = ""; salt = none };
}

abbrev pub credential_1 : Credential
credential_1 = record {
  id = 7;
  key_id = "cmor_live_1";
  tenant_id = "t1";
  secret_hash = "";
  secret_encrypted = some (crypto_1.encrypt "cmc_1");
  signing_version = v2;
  name = codes "uno";
  credential_type = api;
  permissions = "dte:emit" ∷ [];
  is_revoked = false;
  expires_at = none;
  revoked_at = none;
}

abbrev pub admin_1 : Credential
admin_1 = record credential_1 {
  id = 8;
  key_id = "cmor_admin_1";
  credential_type = admin;
  permissions = "credentials:write" ∷ [];
}

abbrev pub admin_2 : Credential
admin_2 = record admin_1 { id = 9; key_id = "cmor_admin_2" }

abbrev pub credentials_1 : List Credential
credentials_1 = credential_1 ∷ admin_1 ∷ admin_2 ∷ []

abbrev pub guard_config : Config
guard_config = record { enabled = true; window_seconds = 300; rate_limit = 2 }

abbrev pub gate_1 : Gate
gate_1 = record { credentials = credentials_1; nonces = []; stamps = λ id. [] }

abbrev pub signed_request : HttpRequest
signed_request = record {
  method = "POST";
  path_with_query = "/api/v1/dtes";
  raw_body = "{}";
  api_key = some "cmor_live_1";
  timestamp = some "995";
  nonce = some "n1";
  signature = some "AAAAAAAAAAAAAAAAAAAAAAAAAAAAAAAAAAAAAAAAAAAAAAAAAAAAAAAAAAAAAAAA";
  tenant_header = none;
  required = "dte:emit" ∷ [];
}

abbrev pub sent_headers : Headers
sent_headers = record {
  key_id = "cmor_live_1";
  timestamp = "995";
  nonce = "n1";
  signature = "AAAAAAAAAAAAAAAAAAAAAAAAAAAAAAAAAAAAAAAAAAAAAAAAAAAAAAAAAAAAAAAA";
}

abbrev pub admitted_1 : Admitted
admitted_1 = record { tenant = "t1"; credential_id = 7 }

abbrev pub create_input : CreateInput
create_input = record {
  name = codes " dos ";
  credential_type = api;
  permissions = "dte:read" ∷ [];
  expires_in_days = some 30;
}

abbrev pub draw_1 : Draw
draw_1 = record { id = 10; key_part = "00"; secret_part = "ff" }
