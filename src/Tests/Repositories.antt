-- ===== src/Tests/Repositories.antt =====
-- The theorem on the repository at a table of two tenants.
use cmorflow_tax_api.Common.{◌+◌, refl, ◌≡◌, ℕ, String, List, none, some, err, [], ◌∷◌, true}
use cmorflow_tax_api.Repository.{
  Row, Patch, Call, get_all, create, update, find_rows, perform, tenant_call, save, select,
  save_merged, forbidden,
}
use cmorflow_tax_api.Repository.Rows.{own, others}
use cmorflow_tax_api.Repository.Tenancy.{tenant_calls, memory_calls, tenant_calls-refine}

abbrev row_of : String → String → ℕ → Row ℕ
row_of id tenant n = record { id = id; tenant_id = tenant; body = n }

abbrev table : List (Row ℕ)
table = row_of "a" "t1" 1 ∷ row_of "b" "t2" 2 ∷ []

abbrev add_one : Patch ℕ
add_one = record { tenant_id = none; change = λ n. n + 1 }

-- An update of one's own row and of another tenant's, a new row, and a search.
abbrev calls : List (Call ℕ)
calls =
    update "a" add_one
    ∷ update "b" add_one
    ∷ create "c" (record { id = none; tenant_id = some "t2"; body = 5 })
    ∷ find_rows (record { tenant_id = some "t2"; test = λ r. true; skip = none; take = some 1 })
    ∷ []

runs :
    (tenant_calls "t1" calls table).1
    ≡ row_of "a" "t1" 2 ∷ row_of "b" "t2" 2 ∷ row_of "c" "t1" 5 ∷ []
unfolding tenant_call save select save_merged
runs = refl

no_tenant : perform true (some "") get_all table ≡ err forbidden
unfolding perform
no_tenant = refl

tenant_calls-refine_example :
    ((tenant_calls "t1" calls table).0 ≡ (memory_calls "t1" calls (own "t1" table)).0)
    × (own "t1" (tenant_calls "t1" calls table).1 ≡ (memory_calls "t1" calls (own "t1" table)).1)
    × (others "t1" (tenant_calls "t1" calls table).1 ≡ others "t1" table)
unfolding tenant_call save select save_merged
tenant_calls-refine_example =
    tenant_calls-refine "t1" calls table (refl, (refl, tt)) (refl, (refl, (refl, (tt, tt))))

-- A patch that names another tenant hands the row over.
handed_over :
    (tenant_call "t1" (update "a" (record add_one { tenant_id = some "t2" })) table).1
    ≡ row_of "a" "t2" 2 ∷ row_of "b" "t2" 2 ∷ []
unfolding tenant_call save save_merged
handed_over = refl
