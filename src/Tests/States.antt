-- ===== src/Tests/States.antt =====
-- The theorems on the states of a request at a concrete request.
use cmorflow_tax_api.Common.{◌∷◌, ◌++◌, ℕ, [], refl, inr, List}
use cmorflow_tax_api.Request.{
  notifiable_states, submitted, failed, Store, apply_state, RequestError,
}
use cmorflow_tax_api.Request.Persist.{
  IsTrail, AreInStep, store_after, apply_state-IsTrail, apply_state-AreInStep,
}
use cmorflow_tax_api.Tests.Samples.{request_processing, processing_store, error_1}

abbrev submitted_store : Store
submitted_store =
    store_after processing_store
      (apply_state 5000 request_processing submitted "Transmitido al SII." processing_store)

apply_state-IsTrail_example : IsTrail submitted_store.row.state_history submitted_store.row.state
apply_state-IsTrail_example =
    apply_state-IsTrail 5000 request_processing submitted "Transmitido al SII." processing_store
      (refl, inr (refl, refl))

processing_store-AreInStep : AreInStep processing_store
unfolding notifiable_states
processing_store-AreInStep = refl

apply_state-AreInStep_example : AreInStep (
    store_after processing_store
      (apply_state 5000 request_processing failed "timeout" processing_store))
apply_state-AreInStep_example =
    apply_state-AreInStep 5000 request_processing failed "timeout" processing_store
      processing_store-AreInStep

abbrev failures : List (ℕ × RequestError)
failures = (2000, error_1) ∷ (70000, error_1) ∷ []

abbrev many_failures : List (ℕ × RequestError)
many_failures = failures ++ failures ++ failures
