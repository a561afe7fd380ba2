-- ===== src/Folio.antt =====
-- src/infrastructure/framework/sii/tenant-config.service.ts: the folio ranges (CAF) of a tenant,
-- `reserveFolioAtomic`, the registration of a CAF in `uploadCaf`, and the search of
-- `getDecryptedCafForFolio`. Both writers read and save the locked row inside one transaction, so an
-- operation is a function from the row's value to its new value. The encrypted key material of a CAF
-- is not a field here: no operation below reads it.
use cmorflow_tax_api.Common.{
  ℕ, ◌+◌, ◌-◌, max, String, Bool, not, ◌&&◌, ◌||◌, Option, none, some, List, [], ◌∷◌, ◌++◌, ltb,
  leb, ◌==◌, if◌then◌else◌, any, filter, find, Result, ok, err,
}
use mathlib.Core.Bool.{true, false}
pub mod Ranges
pub mod Reserve
pub mod Register
pub mod History

pub record CafData : Type 0 where
  pub issuer_rut : List ℕ
  pub type : ℕ
  pub range_from : ℕ
  pub range_to : ℕ
  pub authorization_date : List ℕ
  pub raw_xml : List ℕ
  pub last_used_folio : Option ℕ

-- The fields of the row's JSON that these operations meet.
pub record TenantConfig : Type 0 where
  pub cafs : List CafData
  pub ai_enabled : Bool
  pub can_issue_t46 : Bool  -- of the tax profile
  pub active_brand_profile_id : Option String

pub data FolioError : Type 0 where
  no_config no_cafs no_caf_for_type exhausted overlapping_range no_covering_caf : FolioError

-- `caf.lastUsedFolio !== undefined ? caf.lastUsedFolio : caf.rangeFrom - 1`; the subtraction does not stop
-- at 0 for a range that starts above 0.
unfoldable pub current_last_used : CafData → ℕ
current_last_used caf = elim caf.last_used_folio [ none ↦ caf.range_from - 1 | some last ↦ last ]

unfoldable pub has_room : CafData → Bool
unfolding current_last_used
has_room caf = ltb (current_last_used caf) caf.range_to

abbrev pub is_empty {ℓ} : {A : Type ℓ} → List A → Bool
is_empty [] = true
is_empty (_ ∷ _) = false

-- The filter by type, and the loop that stops at the first range with a folio left.
unfoldable pub select_caf : ℕ → List CafData → Option CafData
unfolding has_room
select_caf dte_type cafs = find has_room (filter (λ c. c.type == dte_type) cafs)

-- `selectedCaf.lastUsedFolio = nextFolio`: the selected object is the first one of `config.cafs` that
-- has the type and a folio left.
unfoldable pub assign_folio : ℕ → ℕ → List CafData → List CafData
unfolding has_room
assign_folio dte_type next [] = []
assign_folio dte_type next (c ∷ cs) =
    let rest = assign_folio dte_type next cs in
    if c.type == dte_type && has_room c
    then record c { last_used_folio = some next } ∷ cs
    else c ∷ rest

-- The row is `none` where the tenant has no configuration.
unfoldable pub reserve_folio_atomic : ℕ → Option TenantConfig → Result FolioError (ℕ × TenantConfig)
unfolding current_last_used
reserve_folio_atomic dte_type none = err no_config
reserve_folio_atomic dte_type (some config) =
    if is_empty config.cafs
    then err no_cafs
    else if is_empty (filter (λ c. c.type == dte_type) config.cafs)
    then err no_caf_for_type
    else elim (select_caf dte_type config.cafs) [
      | none ↦ err exhausted
      | some caf ↦
          let next_folio = current_last_used caf + 1 in
          ok (next_folio, record config { cafs = assign_folio dte_type next_folio config.cafs })
    ]

-- `c.type === d.type && c.rangeFrom <= d.rangeTo && c.rangeTo >= d.rangeFrom`
unfoldable pub overlaps : CafData → CafData → Bool
overlaps d c = c.type == d.type && leb c.range_from d.range_to && leb d.range_from c.range_to

abbrev pub other_range : CafData → CafData → Bool
other_range d c = not (c.range_from == d.range_from) || not (c.range_to == d.range_to)

-- `overlaps[0]?.lastUsedFolio ?? d.rangeFrom - 1`
abbrev pub inherited : CafData → List CafData → ℕ
inherited d [] = d.range_from - 1
inherited d (o ∷ _) = elim o.last_used_folio [ none ↦ d.range_from - 1 | some last ↦ last ]

abbrev pub is_kept : CafData → CafData → Bool
is_kept d c = not (c.type == d.type && c.range_from == d.range_from)

-- The mutation of `uploadCaf`.
unfoldable pub register_caf : CafData → TenantConfig → Result FolioError TenantConfig
unfolding current_last_used
register_caf d config =
    let clashing = filter (overlaps d) config.cafs in
    if any (other_range d) clashing
    then err overlapping_range
    else let d' = record d {
      last_used_folio = some (max (inherited d clashing) (current_last_used d));
    } in
      ok (record config { cafs = filter (is_kept d) config.cafs ++ d' ∷ [] })

-- The CAF that signs a folio.
unfoldable pub covering_caf : ℕ → ℕ → List CafData → Result FolioError CafData
covering_caf dte_type folio cafs =
    elim (find (λ c. c.type == dte_type && leb c.range_from folio && leb folio c.range_to) cafs) [
      | none ↦ err no_covering_caf
      | some caf ↦ ok caf
    ]
