-- ===== src/Repository.antt =====
-- src/infrastructure/framework/postgres/postgres-generic-repository.ts and
-- memory/memory-generic-repository.ts: the repository of one entity. A row is its id, its tenant and
-- the rest; a table is read in its own order, and TypeORM's `save` writes by primary key. Row security
-- of the database comes on top of this and is left out.
pub mod Rows
pub mod Tenancy
use cmorflow_tax_api.Common.{
  zero, truthy, ◌&&◌, take, suc, str_eq, if◌then◌else◌, find, filter, Result, ℕ, String, Option,
  List, Bool, [], ◌∷◌, none, some, ok, err, true, false,
}

pub record Row (A : Type 0) : Type 0 where
  pub id : String
  pub tenant_id : String
  pub body : A

-- What `create` is given: the fields that may be missing, and the rest.
pub record Item (A : Type 0) : Type 0 where
  pub id : Option String
  pub tenant_id : Option String
  pub body : A

-- What `update` is given: a tenant, if it names one, and the other fields.
pub record Patch (A : Type 0) : Type 0 where
  pub tenant_id : Option String
  pub change : A → A

pub record Query (A : Type 0) : Type 0 where
  pub tenant_id : Option String
  pub test : Row A → Bool
  pub skip : Option ℕ
  pub take : Option ℕ

pub data RepositoryError : Type 0 where
  forbidden : RepositoryError

-- A call, with the id that is drawn for a new row.
pub data Call (A : Type 0) : Type 0 where
  get_all : Call A
  get : String → Call A
  create : String → Item A → Call A
  update : String → Patch A → Call A
  find_rows : Query A → Call A
  find_one : Query A → Call A

abbrev pub or_own : String → Option String → String
or_own t none = t
or_own t (some s) = s

module _ {A : Type 0} where
  abbrev pub has_id : String → Row A → Bool
  has_id id r = str_eq r.id id

  abbrev pub is_own : String → Row A → Bool
  is_own t r = str_eq r.tenant_id t

  abbrev pub as_list : Option (Row A) → List (Row A)
  as_list none = []
  as_list (some r) = r ∷ []

  -- Writing a row by its id: in its place, or at the end.
  unfoldable pub save : Row A → List (Row A) → List (Row A)
  save row [] = row ∷ []
  save row (r ∷ rows) = let rest = save row rows in if has_id row.id r then row ∷ rows else r ∷ rest

  abbrev pub drop : ℕ → List (Row A) → List (Row A)
  drop zero rows = rows
  drop (suc n) [] = []
  drop (suc n) (r ∷ rows) = drop n rows

  abbrev pub skipped : Option ℕ → List (Row A) → List (Row A)
  skipped none rows = rows
  skipped (some n) rows = drop n rows

  abbrev pub taken : Option ℕ → List (Row A) → List (Row A)
  taken none rows = rows
  taken (some n) rows = take n rows

  abbrev pub matches : Query A → Row A → Bool
  matches q r = (elim q.tenant_id [ none ↦ true | some t ↦ is_own t r ]) && q.test r

  unfoldable pub select : Query A → List (Row A) → List (Row A)
  select q rows = taken q.take (skipped q.skip (filter (matches q) rows))

  abbrev pub merged : String → Patch A → Row A → Row A
  merged id patch r = record {
    id = id;
    tenant_id = or_own r.tenant_id patch.tenant_id;
    body = patch.change r.body;
  }

  abbrev pub stored : String → String → Item A → Row A
  stored t new_id item = record { id = or_own new_id item.id; tenant_id = t; body = item.body }

  unfoldable pub save_merged :
      String → Patch A → Option (Row A) → List (Row A) → List (Row A) × List (Row A)
  unfolding save
  save_merged id patch none rows = ([], rows)
  save_merged id patch (some r) rows = (merged id patch r ∷ [], save (merged id patch r) rows)

  -- MemoryGenericRepository: what a call returns, and the items. The item that `create` is given names
  -- its tenant.
  unfoldable pub memory_call : Call A → List (Row A) → List (Row A) × List (Row A)
  unfolding save select save_merged
  memory_call get_all rows = (rows, rows)
  memory_call (get id) rows = (as_list (find (has_id id) rows), rows)
  memory_call (create new_id item) rows =
      let row = stored (or_own "" item.tenant_id) new_id item in (row ∷ [], save row rows)
  memory_call (update id patch) rows = save_merged id patch (find (has_id id) rows) rows
  memory_call (find_rows q) rows = (select q rows, rows)
  memory_call (find_one q) rows = (as_list (find (matches q) rows), rows)

  -- `where.tenantId = this.tenantId`
  abbrev pub scoped : String → Query A → Query A
  scoped t q = record q { tenant_id = some t }

  abbrev pub is_row_of : String → String → Row A → Bool
  is_row_of t id r = has_id id r && is_own t r

  -- PostgresGenericRepository of a tenant's entity, inside the tenant's transaction.
  unfoldable pub tenant_call : String → Call A → List (Row A) → List (Row A) × List (Row A)
  unfolding save select save_merged
  tenant_call t get_all rows = (filter (is_own t) rows, rows)
  tenant_call t (get id) rows = (as_list (find (is_row_of t id) rows), rows)
  tenant_call t (create new_id item) rows =
      let row = stored t new_id item in (row ∷ [], save row rows)
  tenant_call t (update id patch) rows = save_merged id patch (find (is_row_of t id) rows) rows
  tenant_call t (find_rows q) rows = (select (scoped t q) rows, rows)
  tenant_call t (find_one q) rows = (as_list (find (matches (scoped t q)) rows), rows)

  -- The call in its context: `assertTenantContext` first. An entity of no tenant has one table for all.
  unfoldable pub perform :
      Bool
      → Option String
      → Call A
      → List (Row A)
      → Result RepositoryError (List (Row A) × List (Row A))
  unfolding tenant_call memory_call
  perform false context call rows = ok (memory_call call rows)
  perform true context call rows = elim (truthy context) [
    | none ↦ err forbidden
    | some t ↦ ok (tenant_call t call rows)
  ]
