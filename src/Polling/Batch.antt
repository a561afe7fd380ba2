-- ===== src/Polling/Batch.antt =====
-- The requests that one poll takes on.
use cmorflow_tax_api.Common.{
  All-append, length-append, ltb, inr, inl, arith, Bool-cases, All, ◌≤◌, ◌||◌, ◌≡◌, length, str_eq,
  List, String, ℕ, Bool, [], ◌∷◌, true, false,
}
use cmorflow_tax_api.Request.{State, submitted, observed, Request, state_eq}
use cmorflow_tax_api.Polling.{is_skipped, add_request, add_requests, in_state, requests_of_tenant}

-- A request of the tenant that waits for the SII, and of the kind that is polled.
pub record IsPolled (rcof_only : Bool) (tenant_id : String) (r : Request) : Type 0 where
  pub own : str_eq r.tenant_id tenant_id ≡ true
  pub waiting : (state_eq r.state submitted || state_eq r.state observed) ≡ true
  pub kind : is_skipped rcof_only r ≡ false

module _ (limit : ℕ) (rcof_only : Bool) (tenant_id : String) where
  abbrev IsBatch : List Request → Type 0
  IsBatch batch = (length batch ≤ limit) × All (IsPolled rcof_only tenant_id) batch

  add_request-IsBatch :
      (r : Request) (batch : List Request)
      → str_eq r.tenant_id tenant_id ≡ true
      → (state_eq r.state submitted || state_eq r.state observed) ≡ true
      → IsBatch batch
      → IsBatch (add_request limit rcof_only r batch)
  add_request-IsBatch r batch own waiting h = elim (Bool-cases (is_skipped rcof_only r)) [
    | inl e ↦ rw e h
    | inr e ↦ elim (Bool-cases (ltb (length batch) limit)) [
      | inr full ↦ rw e (rw full h)
      | inl room ↦ rw e (
          rw room (
            ground (arith, room, length-append batch (r ∷ [])),
            All-append (IsPolled rcof_only tenant_id) batch (r ∷ []) (h.1)
                (record { own = own; waiting = waiting; kind = e }, tt),
          ))
    ]
  ]

  add_requests-IsBatch :
      (s : State) (rows batch : List Request)
      → ((r : Request)
          → state_eq r.state s ≡ true
          → (state_eq r.state submitted || state_eq r.state observed) ≡ true)
      → IsBatch batch
      → IsBatch (add_requests limit rcof_only (in_state tenant_id s rows) batch)
  add_requests-IsBatch s [] batch waiting h = h
  add_requests-IsBatch s (r ∷ rows) batch waiting h =
      elim (Bool-cases (str_eq r.tenant_id tenant_id)) [
        | inr o ↦ rw o (add_requests-IsBatch s rows batch waiting h)
        | inl o ↦ elim (Bool-cases (state_eq r.state s)) [
          | inr e ↦ rw o (rw e (add_requests-IsBatch s rows batch waiting h))
          | inl e ↦ rw o (
              rw e (
                add_requests-IsBatch s rows (add_request limit rcof_only r batch) waiting
                  (add_request-IsBatch r batch o (waiting r e) h)))
        ]
      ]

  -- A poll takes on no more requests of a tenant than its limit, all of them the tenant's own, waiting
  -- for the SII, and of the kind that it polls.
  pub requests_of_tenant-IsBatch :
      (rows : List Request)
      → (length (requests_of_tenant limit rcof_only tenant_id rows) ≤ limit)
        × All (IsPolled rcof_only tenant_id) (requests_of_tenant limit rcof_only tenant_id rows)
  unfolding requests_of_tenant
  requests_of_tenant-IsBatch rows =
      add_requests-IsBatch observed rows _ (λ r e. ground (arith, e))
        (add_requests-IsBatch submitted rows [] (λ r e. ground (arith, e)) (omega arith, tt))
