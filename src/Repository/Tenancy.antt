-- ===== src/Repository/Tenancy.antt =====
-- A tenant's repository, against a repository of its own in memory.
use cmorflow_tax_api.Common.{
  str_eq, ◌∙◌, sym, Option, subst, str_eq_iff, ap, refl, ◌≡◌, find, List, String, [], ◌∷◌, none,
  some, true,
}
use cmorflow_tax_api.Repository.{
  Row, Patch, Call, get_all, get, create, update, find_rows, find_one, has_id, is_own, as_list,
  or_own, select, save_merged, merged, stored, memory_call, tenant_call, is_row_of, skipped, taken,
}
use cmorflow_tax_api.Repository.Rows.{
  own, others, is_clear, save-own, find-own, find-own_left, filter-own, found-is, AreKeyed,
  keyed-clear, save-AreKeyed, and-right,
}

module _ {A : Type 0} (t : String) where
  -- What the tenant's calls may do: a new row's id is not in use by another tenant, and a patch names
  -- no other tenant.
  abbrev pub IsProper : Call A → List (Row A) → Type 0
  IsProper get_all rows = Unit
  IsProper (get id) rows = Unit
  IsProper (create new_id item) rows = is_clear t (or_own new_id item.id) rows ≡ true
  IsProper (update id patch) rows =
      is_own t (record { id = id; tenant_id = or_own t patch.tenant_id; body = tt }) ≡ true
  IsProper (find_rows q) rows = Unit
  IsProper (find_one q) rows = Unit

  -- The same call of a repository that holds nothing but the tenant's rows.
  abbrev pub private : Call A → Call A
  private get_all = get_all
  private (get id) = get id
  private (create new_id item) = create new_id (record item { tenant_id = some t })
  private (update id patch) = update id patch
  private (find_rows q) = find_rows (record q { tenant_id = none })
  private (find_one q) = find_one (record q { tenant_id = none })

  pub record IsPrivate (call : Call A) (rows : List (Row A)) (x : List (Row A) × List (Row A))
      : Type 0 where
    pub returned : x.0 ≡ (memory_call (private call) (own t rows)).0
    pub kept : own t x.1 ≡ (memory_call (private call) (own t rows)).1
    pub apart : others t x.1 ≡ others t rows

  update-IsPrivate :
      (id : String) (patch : Patch A) (rows : List (Row A)) (found : Option (Row A))
      → AreKeyed rows
      → IsProper (update id patch) rows
      → find (is_row_of t id) rows ≡ found
      → IsPrivate (update id patch) rows (save_merged id patch found rows)
  unfolding memory_call save_merged
  update-IsPrivate id patch rows none keyed proper h =
      let m = sym (find-own t (has_id id) rows) ∙ h in
      record { returned = rw m refl; kept = rw m refl; apart = refl }
  update-IsPrivate id patch rows (some r) keyed proper h =
      let m = sym (find-own t (has_id id) rows) ∙ h in
      let of_tenant : r.tenant_id ≡ t =
        (str_eq_iff r.tenant_id t).0 (and-right _ _ (found-is (is_row_of t id) rows r h)) in
      let mine = subst (λ s. str_eq (or_own s patch.tenant_id) t ≡ true) (sym of_tenant) proper in
      let saved = save-own t (merged id patch r) rows mine (keyed-clear t id rows r keyed h) in
      record { returned = rw m refl; kept = rw m (saved.0); apart = saved.1 }

  tenant_call-IsPrivate :
      (call : Call A) (rows : List (Row A))
      → AreKeyed rows
      → IsProper call rows
      → IsPrivate call rows (tenant_call t call rows)
  unfolding tenant_call memory_call select
  tenant_call-IsPrivate get_all rows keyed proper = record {
    returned = refl;
    kept = refl;
    apart = refl;
  }
  tenant_call-IsPrivate (get id) rows keyed proper = record {
    returned = ap as_list (find-own t (has_id id) rows);
    kept = refl;
    apart = refl;
  }
  tenant_call-IsPrivate (create new_id item) rows keyed proper =
      let saved = save-own t (stored t new_id item) rows ((str_eq_iff t t).1 refl) proper in
      record { returned = refl; kept = saved.0; apart = saved.1 }
  tenant_call-IsPrivate (update id patch) rows keyed proper =
      update-IsPrivate id patch rows (find (is_row_of t id) rows) keyed proper refl
  tenant_call-IsPrivate (find_rows q) rows keyed proper = record {
    returned = ap (λ rs. taken q.take (skipped q.skip rs)) (filter-own t q.test rows);
    kept = refl;
    apart = refl;
  }
  tenant_call-IsPrivate (find_one q) rows keyed proper = record {
    returned = ap as_list (find-own_left t q.test rows);
    kept = refl;
    apart = refl;
  }

  save_merged-AreKeyed :
      (id : String) (patch : Patch A) (found : Option (Row A)) (rows : List (Row A))
      → AreKeyed rows
      → AreKeyed ((save_merged id patch found rows).1)
  unfolding save_merged
  save_merged-AreKeyed id patch none rows keyed = keyed
  save_merged-AreKeyed id patch (some r) rows keyed = save-AreKeyed (merged id patch r) rows keyed

  tenant_call-AreKeyed :
      (call : Call A) (rows : List (Row A)) → AreKeyed rows → AreKeyed ((tenant_call t call rows).1)
  unfolding tenant_call
  tenant_call-AreKeyed get_all rows keyed = keyed
  tenant_call-AreKeyed (get id) rows keyed = keyed
  tenant_call-AreKeyed (create new_id item) rows keyed =
      save-AreKeyed (stored t new_id item) rows keyed
  tenant_call-AreKeyed (update id patch) rows keyed =
      save_merged-AreKeyed id patch (find (is_row_of t id) rows) rows keyed
  tenant_call-AreKeyed (find_rows q) rows keyed = keyed
  tenant_call-AreKeyed (find_one q) rows keyed = keyed

  -- A sequence of calls: what each returns, and the rows at the end.
  abbrev pub tenant_calls : List (Call A) → List (Row A) → List (List (Row A)) × List (Row A)
  tenant_calls [] rows = ([], rows)
  tenant_calls (call ∷ calls) rows =
      let rest = tenant_calls calls ((tenant_call t call rows).1) in
      ((tenant_call t call rows).0 ∷ rest.0, rest.1)

  abbrev pub memory_calls : List (Call A) → List (Row A) → List (List (Row A)) × List (Row A)
  memory_calls [] rows = ([], rows)
  memory_calls (call ∷ calls) rows =
      let rest = memory_calls calls ((memory_call (private call) rows).1) in
      ((memory_call (private call) rows).0 ∷ rest.0, rest.1)

  abbrev pub AreProper : List (Call A) → List (Row A) → Type 0
  AreProper [] rows = Unit
  AreProper (call ∷ calls) rows = IsProper call rows × AreProper calls ((tenant_call t call rows).1)

  -- Whatever a tenant calls, its repository on the common table returns and keeps for it what a
  -- repository in memory that holds only its rows does, and the rows of the others stay as they are: as
  -- long as the ids in the table are distinct, no new row takes the id of another tenant's, and no patch
  -- names another tenant.
  pub tenant_calls-refine :
      (calls : List (Call A)) (rows : List (Row A))
      → AreKeyed rows
      → AreProper calls rows
      → ((tenant_calls calls rows).0 ≡ (memory_calls calls (own t rows)).0)
        × (own t (tenant_calls calls rows).1 ≡ (memory_calls calls (own t rows)).1)
        × (others t (tenant_calls calls rows).1 ≡ others t rows)
  tenant_calls-refine [] rows keyed proper = (refl, refl, refl)
  tenant_calls-refine (call ∷ calls) rows keyed proper =
      let one = tenant_call-IsPrivate call rows keyed (proper.0) in
      let (returned, kept, apart) =
        tenant_calls-refine calls ((tenant_call t call rows).1)
          (tenant_call-AreKeyed call rows keyed) (proper.1) in
      rw (sym one.kept) (cc (one.returned, returned), kept, apart ∙ one.apart)
