-- ===== src/Tests/Folios.antt =====
-- The theorems on folios and on the worker at a concrete configuration.
use cmorflow_tax_api.Common.{
  ◌&&◌, ◌==◌, ◌||◌, ◌≤◌, refl, ok, inl, false, [], ◌≡◌, ◌∷◌, ℕ, some, none, length, arith, List,
}
use cmorflow_tax_api.Folio.{
  select_caf, assign_folio, CafData, TenantConfig, reserve_folio_atomic, register_caf,
  current_last_used, overlaps,
}
use cmorflow_tax_api.Folio.Ranges.{AreConsistent, IsValid, is_used}
use cmorflow_tax_api.Folio.Reserve.{reserve_folio_atomic-fresh}
use cmorflow_tax_api.Folio.Register.{IsFresh, register_caf-keeps}
use cmorflow_tax_api.Folio.History.{
  Operation, reserve, upload, issued, issued-AreDistinct, AreDistinct,
}
use cmorflow_tax_api.Processor.{Shift, serve_all}
use cmorflow_tax_api.Processor.Fence.Serving.{serve_all-sends}
use cmorflow_tax_api.Worker.{runs, throws, dies}
use cmorflow_tax_api.Tests.Samples.{caf_33, caf_33_next, config_33, world_1}

config_33-AreConsistent : AreConsistent config_33.cafs
unfolding current_last_used
config_33-AreConsistent = (range_33, ((λ e. inl (omega arith)), tt), (next_33, tt, tt))
  where
    range_33 : IsValid caf_33
    range_33 = record {
      positive = omega arith;
      ordered = omega arith;
      started = omega arith;
      within = omega arith;
    }

    next_33 : IsValid caf_33_next
    next_33 = record {
      positive = omega arith;
      ordered = omega arith;
      started = omega arith;
      within = omega arith;
    }

abbrev config_11 : TenantConfig
config_11 = record config_33 {
  cafs = record caf_33 { last_used_folio = some 11 } ∷ caf_33_next ∷ [];
}

abbrev caf_34 : CafData
caf_34 = record caf_33_next { type = 34 }

caf_34-IsFresh : IsFresh caf_34
caf_34-IsFresh = record { positive = omega arith; ordered = omega arith; unused = refl }

abbrev operations : List Operation
operations = reserve 33 ∷ upload caf_34 ∷ reserve 33 ∷ reserve 34 ∷ reserve 33 ∷ []

issued-AreDistinct_example : AreDistinct (issued config_33 operations)
issued-AreDistinct_example =
    issued-AreDistinct config_33 operations config_33-AreConsistent
      (tt, (caf_34-IsFresh, (tt, (tt, (tt, tt)))))

reserves_11 : reserve_folio_atomic 33 (some config_33) ≡ ok (11, config_11)
unfolding reserve_folio_atomic select_caf assign_folio
reserves_11 = refl

reserve_folio_atomic-fresh_example :
    (is_used 33 11 config_33.cafs ≡ false)
    × ((u f : ℕ)
        → is_used u f config_11.cafs ≡ (is_used u f config_33.cafs || (u == 33 && f == 11)))
    × AreConsistent config_11.cafs
    × (config_11.ai_enabled ≡ config_33.ai_enabled)
    × (config_11.can_issue_t46 ≡ config_33.can_issue_t46)
    × (config_11.active_brand_profile_id ≡ config_33.active_brand_profile_id)
reserve_folio_atomic-fresh_example =
    reserve_folio_atomic-fresh 33 11 config_33 config_11 config_33-AreConsistent reserves_11

abbrev used_up : TenantConfig
used_up = record config_33 { cafs = record caf_33 { last_used_folio = some 12 } ∷ [] }

abbrev again : CafData
again = record caf_33 { last_used_folio = none }

abbrev config_again : TenantConfig
config_again = record config_33 { cafs = caf_33_next ∷ caf_33 ∷ [] }

registers : register_caf again config_33 ≡ ok config_again
unfolding register_caf overlaps
registers = refl

again-IsFresh : IsFresh again
again-IsFresh = record { positive = omega arith; ordered = omega arith; unused = refl }

register_caf-keeps_example :
    AreConsistent config_again.cafs
    × ((t f : ℕ) → is_used t f config_again.cafs ≡ is_used t f config_33.cafs)
    × (config_again.ai_enabled ≡ config_33.ai_enabled)
    × (config_again.can_issue_t46 ≡ config_33.can_issue_t46)
    × (config_again.active_brand_profile_id ≡ config_33.active_brand_profile_id)
register_caf-keeps_example =
    register_caf-keeps again config_33 config_again again-IsFresh config_33-AreConsistent registers

-- Ranges that end before they start are not refused: one of them takes the place of the range from which
-- folio 11 was handed out, so that the next upload of that range frees it.
abbrev backwards : CafData
backwards = record again { range_to = 1 }

issued_twice :
    issued
      (record config_33 { cafs = caf_33 ∷ [] })
      (reserve 33 ∷ upload backwards ∷ upload again ∷ reserve 33 ∷ reserve 33 ∷ [])
    ≡ (33, 11) ∷ (33, 10) ∷ (33, 11) ∷ []
unfolding issued reserve_folio_atomic select_caf assign_folio register_caf overlaps
    current_last_used
issued_twice = refl

abbrev crossing : CafData
crossing = record caf_33 { range_from = 12; range_to = 15; last_used_folio = none }

-- A worker that dies, one whose database fails, and one that succeeds.
abbrev shifts : List Shift
shifts =
    record { time = 2000; faults = runs ∷ runs ∷ runs ∷ dies ∷ []; replies = [] }
    ∷ record { time = 900000; faults = runs ∷ runs ∷ throws "timeout" ∷ []; replies = [] }
    ∷ record { time = 9000000; faults = []; replies = some "77" ∷ [] }
    ∷ []

serve_all-sends_example : length (serve_all shifts world_1).sends ≤ 1
serve_all-sends_example = serve_all-sends shifts world_1 refl
