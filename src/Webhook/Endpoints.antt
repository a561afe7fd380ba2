-- ===== src/Webhook/Endpoints.antt =====
-- src/application/integrations/integration-webhook.service.ts: registerEndpoint and deactivateEndpoint,
-- with the checks against private networks: assertSafeWebhookUrl, isPrivateAddress and safeLookup. The
-- parsers of URLs and of addresses and the resolver are a parameter.
pub mod Safety
use cmorflow_tax_api.Common.{
  ◌+◌, leb, codes, length, map, ltb, ◌==◌, ◌&&◌, all, ◌>>◌, guard, find, ℕ, str_eq, not, any,
  Result, if◌then◌else◌, String, Option, List, Bool, [], ◌∷◌, none, some, ok, err, true, false,
}
use cmorflow_tax_api.Webhook.{Endpoint}

pub record Url : Type 0 where
  pub protocol : String
  pub username : String
  pub password : String
  pub host : String  -- `hostname` without the brackets of an IPv6 address
  pub is_ip : Bool

-- `URL`, `isIP` and ipaddr.js, with its addresses `A`.
pub record Network (A : Type 0) : Type 0 where
  pub parse_url : String → Option Url
  pub parse_address : String → Option A
  pub is_mapped : A → Bool  -- an IPv6 address that stands for an IPv4 one
  pub to_ipv4 : A → A
  pub range : A → String

pub data WebhookError : Type 0 where
  invalid_url not_https failed_lookup private_network unresolved invalid_events no_events
        not_found :
      WebhookError

pub record EndpointInput : Type 0 where
  pub url : String
  pub events : List String

abbrev pub webhook_events : List String
webhook_events =
    "dte.submitted" ∷ "dte.accepted" ∷ "dte.observed" ∷ "dte.rejected" ∷ "dte.failed"
    ∷ "rcof.submitted" ∷ "rcof.accepted" ∷ "rcof.observed" ∷ "rcof.rejected" ∷ "rcof.failed" ∷ []

abbrev pub is_event : String → Bool
is_event e = any (λ t. str_eq t e) webhook_events

abbrev lower : ℕ → ℕ
lower c = if leb b'A' c && leb c b'Z' then c + 32 else c

abbrev starts_with : List ℕ → List ℕ → Bool
starts_with [] s = true
starts_with (p ∷ ps) [] = false
starts_with (p ∷ ps) (c ∷ s) = lower c == p && starts_with ps s

-- `/^https:\/\//i.test(url)`
unfoldable pub has_https : String → Bool
has_https url = starts_with (codes "https://") (codes url)

module _ {A : Type 0} (net : Network A) where
  abbrev as_ipv4 : A → A
  as_ipv4 a = if net.is_mapped a then net.to_ipv4 a else a

  abbrev is_public_range : Option A → Bool
  is_public_range none = false
  is_public_range (some a) = str_eq (net.range (as_ipv4 a)) "unicast"

  unfoldable pub is_private_address : String → Bool
  is_private_address address = not (is_public_range (net.parse_address address))

  -- The addresses that a lookup answers with; `none` where it throws.
  abbrev pub check_addresses : Option (List String) → Result WebhookError (Unit {0})
  check_addresses none = err failed_lookup
  check_addresses (some []) = err unresolved
  check_addresses (some (a ∷ as')) =
      guard (all (λ a. not (is_private_address a)) (a ∷ as')) private_network

  abbrev pub check_host : Bool → Option (List String) → Url → Result WebhookError (Unit {0})
  check_host is_test addresses url =
      if url.is_ip
      then guard (not (is_private_address url.host)) private_network
      else if is_test
      then ok tt
      else check_addresses addresses

  unfoldable pub assert_safe_webhook_url :
      Bool → Option (List String) → Option Url → Result WebhookError (Unit {0})
  unfolding is_private_address
  assert_safe_webhook_url is_test addresses none = err invalid_url
  assert_safe_webhook_url is_test addresses (some url) =
      guard (str_eq url.protocol "https:" && str_eq url.username "" && str_eq url.password "")
        not_https
      >> check_host is_test addresses url

  -- The endpoint that is created; its id is drawn.
  unfoldable pub register_endpoint :
      Bool → Option (List String) → ℕ → String → EndpointInput → Result WebhookError Endpoint
  unfolding assert_safe_webhook_url has_https
  register_endpoint is_test addresses id tenant_id input =
      assert_safe_webhook_url is_test addresses (net.parse_url input.url)
      >> guard (has_https input.url) not_https
      >> guard (all is_event input.events) invalid_events
      >> guard (ltb 0 (length input.events)) no_events
      >> ok (record { id = id; tenant_id = tenant_id; active = true; events = input.events })

  -- The address that the socket of a delivery connects to.
  unfoldable pub safe_lookup : List String → Result WebhookError String
  unfolding is_private_address
  safe_lookup addresses = elim (find (λ a. not (is_private_address a)) addresses) [
    | none ↦ err unresolved
    | some a ↦ ok a
  ]

unfoldable pub deactivate_endpoint :
    String → ℕ → List Endpoint → Result WebhookError (List Endpoint)
deactivate_endpoint tenant_id id endpoints = elim (find (λ e. e.id == id) endpoints) [
  | none ↦ err not_found
  | some e ↦
      if str_eq e.tenant_id tenant_id
      then ok (map (λ e. if e.id == id then record e { active = false } else e) endpoints)
      else err not_found
]
