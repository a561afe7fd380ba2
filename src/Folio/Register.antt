-- ===== src/Folio/Register.antt =====
-- What the registration of a CAF does to the folios handed out.
use cmorflow_tax_api.Common.{
  any-filter, ◌&&◌, ◌↔◌, ◌∙◌, suc, ok, err, All-filter, ◌⊎◌, All-append, ◌<◌, ◌++◌, inr, refl, inl,
  ap, Bool-cases, ◌∷◌, arith, [], ◌||◌, All, false, true, none, max, filter, ◌≡◌, some, any, ◌≤◌, ℕ,
  List,
}
use cmorflow_tax_api.Folio.{
  overlapping_range, CafData, TenantConfig, current_last_used, overlaps, other_range, inherited,
  is_kept, register_caf,
}
use cmorflow_tax_api.Folio.Ranges.{
  is_used-concat, IsValid, IsApart, AreConsistent, is_used_in, is_used,
}

-- A CAF with a range that starts above 0 and does not end before it starts, and with no folio used.
-- The parser sets no used folio, and does not check either condition on the range.
pub record IsFresh (d : CafData) : Type 0 where
  pub positive : 1 ≤ d.range_from
  pub ordered : d.range_from ≤ d.range_to
  pub unused : d.last_used_folio ≡ none

module _ (d : CafData) (fresh : IsFresh d) where
  -- The ranges that are apart from one with the range of `d` all stay, and none of them overlaps.
  apart-kept :
      (c : CafData) (cs : List CafData)
      → overlaps d c ≡ true
      → other_range d c ≡ false
      → All (IsApart c) cs
      → AreConsistent cs
      → (filter (is_kept d) cs ≡ cs) × (filter (overlaps d) cs ≡ [])
  unfolding overlaps
  apart-kept c [] o same apart valid = (refl, refl)
  apart-kept c (e ∷ cs) o same apart valid =
      let rest = apart-kept c cs o same apart.1 valid.2 in
      let kept : is_kept d e ≡ true = ground (arith, apart.0, valid.0.ordered) in
      let clear : overlaps d e ≡ false = ground (arith, apart.0, valid.0.ordered) in
      (rw kept (ap (λ r. e ∷ r) rest.0), rw clear rest.1)

  abbrev replacing : List CafData → CafData
  replacing cs = record d {
    last_used_folio = some (max (inherited d (filter (overlaps d) cs)) (current_last_used d));
  }

  is_used-register :
      (t f : ℕ) (cs : List CafData)
      → AreConsistent cs
      → any (other_range d) (filter (overlaps d) cs) ≡ false
      → (is_used t f (filter (is_kept d) cs) || is_used_in t f (replacing cs)) ≡ is_used t f cs
  unfolding is_used overlaps current_last_used
  is_used-register t f [] valid same = ground (arith, fresh.unused, fresh.positive)
  is_used-register t f (c ∷ cs) valid same = elim (Bool-cases (overlaps d c)) [
    | inl o ↦
        let equal : other_range d c ≡ false = ground arith in
        let rest = apart-kept c cs o equal valid.1 valid.2 in
        let dropped : is_kept d c ≡ false = ground arith in
        rw (o, dropped, rest.0) (ground (arith, fresh.unused, valid.0.started))
    | inr o ↦
        let kept : is_kept d c ≡ true = ground (arith, valid.0.ordered, fresh.ordered) in
        rw (o, kept) (ground (arith, is_used-register t f cs valid.2))
  ]

  -- A range that stays is apart from the new one.
  kept-IsApart :
      (c : CafData)
      → IsValid c
      → is_kept d c ≡ true
      → (overlaps d c ≡ true → other_range d c ≡ false)
      → c.type ≡ d.type
      → (c.range_to < d.range_from) ⊎ (d.range_to < c.range_from)
  unfolding overlaps
  kept-IsApart c valid kept same typed = ground (arith, same)

  head_same :
      (c : CafData) (cs : List CafData)
      → any (other_range d) (filter (overlaps d) (c ∷ cs)) ≡ false
      → overlaps d c ≡ true
      → other_range d c ≡ false
  head_same c cs same o = ground arith

  tail_same :
      (c : CafData) (cs : List CafData)
      → any (other_range d) (filter (overlaps d) (c ∷ cs)) ≡ false
      → any (other_range d) (filter (overlaps d) cs) ≡ false
  tail_same c cs same = ground arith

  AreConsistent-register :
      (e : CafData) (cs : List CafData)
      → IsValid e
      → e.type ≡ d.type
      → e.range_from ≡ d.range_from
      → e.range_to ≡ d.range_to
      → AreConsistent cs
      → any (other_range d) (filter (overlaps d) cs) ≡ false
      → AreConsistent (filter (is_kept d) cs ++ e ∷ [])
  AreConsistent-register e [] ok_e ty lo hi valid same = (ok_e, tt, tt)
  AreConsistent-register e (c ∷ cs) ok_e ty lo hi valid same = elim (Bool-cases (is_kept d c)) [
    | inr gone ↦ rw gone (AreConsistent-register e cs ok_e ty lo hi valid.2 (tail_same c cs same))
    | inl kept ↦ rw kept (
      valid.0,
      All-append (IsApart c) (filter (is_kept d) cs) (e ∷ [])
          (All-filter (IsApart c) (is_kept d) cs valid.1)
          (
            λ typed.
                let far = kept-IsApart c valid.0 kept (head_same c cs same) (typed ∙ ty) in
                omega arith,
            tt,
          ),
      AreConsistent-register e cs ok_e ty lo hi valid.2 (tail_same c cs same),
    )
  ]

  inherited_bounds :
      (cs : List CafData)
      → AreConsistent cs
      → any (other_range d) (filter (overlaps d) cs) ≡ false
      → (inherited d (filter (overlaps d) cs) ≤ d.range_to)
        × (d.range_from ≤ suc (inherited d (filter (overlaps d) cs)))
  inherited_bounds [] valid same = ground (arith, fresh.ordered)
  inherited_bounds (c ∷ cs) valid same = elim (Bool-cases (overlaps d c)) [
    | inl o ↦
        let equal = head_same c cs same o in
        rw o (unfold current_last_used in ground (arith, valid.0.within, valid.0.started))
    | inr o ↦ rw o (inherited_bounds cs valid.2 (tail_same c cs same))
  ]

  replacing-IsValid :
      (cs : List CafData)
      → AreConsistent cs
      → any (other_range d) (filter (overlaps d) cs) ≡ false
      → IsValid (replacing cs)
  unfolding current_last_used
  replacing-IsValid cs valid same =
      ground (arith, inherited_bounds cs valid same, fresh.unused, fresh.ordered, fresh.positive)

-- Registering a CAF without used folios, whose range starts above 0 and does not end before it
-- starts, over consistent ranges keeps the ranges consistent, and the
-- folios that count as handed out are the same before and after, for every type and folio: loading
-- the same range again does not free its folios. The other fields stay.
pub register_caf-keeps :
    (d : CafData) (config config' : TenantConfig)
    → IsFresh d
    → AreConsistent config.cafs
    → register_caf d config ≡ ok config'
    → AreConsistent config'.cafs
      × ((t f : ℕ) → is_used t f config'.cafs ≡ is_used t f config.cafs)
      × (config'.ai_enabled ≡ config.ai_enabled)
      × (config'.can_issue_t46 ≡ config.can_issue_t46)
      × (config'.active_brand_profile_id ≡ config.active_brand_profile_id)
unfolding register_caf
register_caf-keeps d config config' fresh valid e =
    let same : any (other_range d) (filter (overlaps d) config.cafs) ≡ false = ground arith in
    let saved : config'.cafs
        ≡ filter (is_kept d) config.cafs ++ replacing d fresh config.cafs ∷ [] =
      ground arith in
    rw saved (
      AreConsistent-register d fresh (replacing d fresh config.cafs) config.cafs
          (replacing-IsValid d fresh config.cafs valid same) refl refl refl valid same,
      λ t f.
          is_used-concat t f (filter (is_kept d) config.cafs) (replacing d fresh config.cafs)
          ∙ is_used-register d fresh t f config.cafs valid same,
      ground arith,
      ground arith,
      ground arith,
    )

-- The registration is refused exactly when a loaded range of the type meets the new one without
-- being equal to it.
pub register_caf-refused_iff :
    (d : CafData) (config : TenantConfig)
    → (register_caf d config ≡ err overlapping_range)
      ↔ (any (λ c. overlaps d c && other_range d c) config.cafs ≡ true)
unfolding register_caf
register_caf-refused_iff d config =
    ground (arith, any-filter (other_range d) (overlaps d) config.cafs)
