-- ===== src/Tests/Webhooks.antt =====
-- The theorems on webhooks at concrete deliveries.
use cmorflow_tax_api.Common.{
  ◌-◌, none, ok, err, false, String, arith, ◌≤◌, refl, [], ◌∷◌, ◌+◌, some, ◌≡◌, ℕ, true, List,
}
use cmorflow_tax_api.Webhook.{
  Endpoint, Delivery, WebhookEvent, Pass, Reply, delivered, new_delivery, undecryptable,
  no_response, responded, refused,
}
use cmorflow_tax_api.Webhook.Endpoints.{
  Network, EndpointInput, register_endpoint, assert_safe_webhook_url, is_private_address, has_https,
  private_network,
}
use cmorflow_tax_api.Webhook.Endpoints.Safety.{IsSafe, register_endpoint-IsSafe}
use cmorflow_tax_api.Webhook.Attempts.{deliver_all, posts, refusals, uncounted, posts_bounds}

abbrev endpoint_1 : Endpoint
endpoint_1 = record { id = 3; tenant_id = "t1"; active = true; events = "dte.accepted" ∷ [] }

abbrev event_1 : WebhookEvent
event_1 = record { id = 5; tenant_id = "t1"; type = "dte.accepted" }

abbrev delivery_1 : Delivery
delivery_1 = new_delivery 1000 "t1" 5 endpoint_1

abbrev pass_with : ℕ → Reply → Pass
pass_with time reply = record {
  time = time;
  event = some event_1;
  endpoint = some endpoint_1;
  reply = reply;
  lost = none;
  recovers = true;
}

abbrev passes : List Pass
passes =
    pass_with 2000 (no_response "timeout")
    ∷ pass_with 62500 (refused "host")
    ∷ pass_with 63000 (undecryptable "clave")
    ∷ record (pass_with 400000 (no_response "timeout")) { lost = some "db" }
    ∷ pass_with 500000 (responded 200 ((1 ∷ 2 ∷ []) ∷ []))
    ∷ []

posts_bounds_example :
    ((deliver_all passes delivery_1).attempt + uncounted passes delivery_1
      ≡ 0 + posts passes delivery_1 + refusals passes delivery_1)
    × ((deliver_all passes delivery_1).attempt ≤ 6)
    × (posts passes delivery_1 ≤ 6 - 0 + uncounted passes delivery_1)
posts_bounds_example = posts_bounds passes delivery_1 (omega arith)

abbrev done : Delivery
done = record delivery_1 { status = delivered; attempt = 1 }

abbrev chunks : List (List ℕ)
chunks = (1 ∷ 2 ∷ []) ∷ [] ∷ (3 ∷ []) ∷ []

-- Addresses are their ranges.
abbrev ranges : Network String
ranges = record {
  parse_url = λ s.
      some (record { protocol = "https:"; username = ""; password = ""; host = s; is_ip = false });
  parse_address = λ s. some s;
  is_mapped = λ s. false;
  to_ipv4 = λ s. s;
  range = λ s. s;
}

abbrev hook : EndpointInput
hook = record { url = "https://a.cl"; events = "dte.accepted" ∷ [] }

abbrev hook_endpoint : Endpoint
hook_endpoint = record { id = 3; tenant_id = "t1"; active = true; events = "dte.accepted" ∷ [] }

hook-registered :
    register_endpoint ranges false (some ("unicast" ∷ [])) 3 "t1" hook ≡ ok hook_endpoint
unfolding register_endpoint assert_safe_webhook_url is_private_address has_https
hook-registered = refl

register_endpoint-IsSafe_example : IsSafe ranges (some ("unicast" ∷ [])) "t1" hook hook_endpoint
register_endpoint-IsSafe_example =
    register_endpoint-IsSafe ranges (some ("unicast" ∷ [])) 3 "t1" hook hook_endpoint
      hook-registered

-- One private address among those of the name is enough.
private_refused :
    register_endpoint ranges false (some ("unicast" ∷ "loopback" ∷ [])) 3 "t1" hook
    ≡ err private_network
unfolding register_endpoint assert_safe_webhook_url is_private_address has_https
private_refused = refl
