-- ===== src/Webhook/Endpoints/Safety.antt =====
-- What a registered endpoint can reach.
use cmorflow_tax_api.Common.{
  ◌&&◌, Bool, refl, ok-inj, length, inr, ◌<◌, subst, not, inl, arith, ℕ, then_iff, str_eq,
  guard_iff, all, Bool-cases, ◌≡◌, List, String, Option, [], ◌∷◌, none, some, ok, true, false,
}
use cmorflow_tax_api.Webhook.{Endpoint}
use cmorflow_tax_api.Webhook.Endpoints.{
  Url, Network, EndpointInput, is_event, is_private_address, check_addresses, check_host,
  assert_safe_webhook_url, register_endpoint, safe_lookup, private_network,
}

and-left : (a b c : Bool) → (a && b && c) ≡ true → a ≡ true
and-left a b c h = ground (arith, h)

module _ {A : Type 0} (net : Network A) where
  abbrev IsPublic : String → Type 0
  IsPublic a = is_private_address net a ≡ false

  -- The host is a public address, or a name whose addresses, at least one, are all public.
  pub data Reaches (addresses : Option (List String)) (url : Url) : Type 0 where
    by_address : url.is_ip ≡ true → IsPublic url.host → Reaches addresses url
    by_name :
        (a : String) (others : List String)
        → url.is_ip ≡ false
        → addresses ≡ some (a ∷ others)
        → all (λ a. not (is_private_address net a)) (a ∷ others) ≡ true
        → Reaches addresses url

  check_addresses-ok :
      (addresses : Option (List String)) (url : Url)
      → url.is_ip ≡ false
      → check_addresses net addresses ≡ ok tt
      → Reaches addresses url
  check_addresses-ok none url name h = cc h
  check_addresses-ok (some []) url name h = cc h
  check_addresses-ok (some (a ∷ others)) url name h =
      by_name a others name refl ((guard_iff _ _).0 h)

  check_host-ok :
      (addresses : Option (List String)) (url : Url)
      → check_host net false addresses url ≡ ok tt
      → Reaches addresses url
  check_host-ok addresses url h = elim (Bool-cases url.is_ip) [
    | inl e ↦
        let shown =
          (guard_iff (not (is_private_address net url.host)) private_network).0 (cc (h, e)) in
        by_address e (ground (arith, shown))
    | inr e ↦ check_addresses-ok addresses url e (cc (h, e))
  ]

  pub record IsSafe (addresses : Option (List String)) (tenant_id : String) (input : EndpointInput)
      (e : Endpoint) : Type 0 where
    pub url : Url
    pub parsed : net.parse_url input.url ≡ some url
    pub https : str_eq url.protocol "https:" ≡ true
    pub reaches : Reaches addresses url
    pub events : all is_event e.events ≡ true
    pub some_event : 0 < length e.events
    pub tenant : e.tenant_id ≡ tenant_id

  -- What follows from a URL that passes.
  record IsChecked (addresses : Option (List String)) (parsed : Option Url) : Type 0 where
    pub url : Url
    pub split : parsed ≡ some url
    pub https : str_eq url.protocol "https:" ≡ true
    pub reaches : Reaches addresses url

  assert_safe_webhook_url-IsChecked :
      (addresses : Option (List String)) (parsed : Option Url)
      → assert_safe_webhook_url net false addresses parsed ≡ ok tt
      → IsChecked addresses parsed
  unfolding assert_safe_webhook_url
  assert_safe_webhook_url-IsChecked addresses none h = cc h
  assert_safe_webhook_url-IsChecked addresses (some url) h =
      let (secure, host) = (then_iff _ _ tt).0 h in
      let both = (guard_iff _ _).0 secure in
      record {
        url = url;
        split = refl;
        https =
            and-left (str_eq url.protocol "https:") (str_eq url.username "")
              (str_eq url.password "") both;
        reaches = check_host-ok addresses url host;
      }

  -- Outside tests, an endpoint is registered only for a URL that is HTTPS and whose host is a public
  -- address or resolves to public addresses alone, for the caller's tenant, and with events that are
  -- known, one at least.
  pub register_endpoint-IsSafe :
      (addresses : Option (List String)) (id : ℕ) (tenant_id : String) (input : EndpointInput)
      (e : Endpoint)
      → register_endpoint net false addresses id tenant_id input ≡ ok e
      → IsSafe addresses tenant_id input e
  unfolding register_endpoint
  register_endpoint-IsSafe addresses id tenant_id input e h =
      let (h, created) = (then_iff _ _ e).0 h in
      let (h, some_event) = (then_iff _ _ tt).0 h in
      let (h, events) = (then_iff _ _ tt).0 h in
      let (checked, raw) = (then_iff _ _ tt).0 h in
      let c = assert_safe_webhook_url-IsChecked addresses (net.parse_url input.url) checked in
      subst (IsSafe addresses tenant_id input) (ok-inj created) (record {
        url = c.url;
        parsed = c.split;
        https = c.https;
        reaches = c.reaches;
        events = (guard_iff _ _).0 events;
        some_event = ground (arith, (guard_iff _ _).0 some_event);
        tenant = refl;
      })

  -- The address that a delivery connects to is one that the lookup of that moment gave, and public.
  pub safe_lookup-IsPublic :
      (addresses : List String) (a : String)
      → safe_lookup net addresses ≡ ok a
      → is_private_address net a ≡ false
  unfolding safe_lookup
  safe_lookup-IsPublic [] a h = cc h
  safe_lookup-IsPublic (x ∷ rest) a h = elim (Bool-cases (is_private_address net x)) [
    | inl e ↦ safe_lookup-IsPublic rest a (cc (h, e))
    | inr e ↦ let y : x ≡ a = cc (h, e) in subst (λ y. is_private_address net y ≡ false) y e
  ]
