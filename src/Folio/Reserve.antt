-- ===== src/Folio/Reserve.antt =====
-- What `reserve_folio_atomic` does to the folios handed out.
use cmorflow_tax_api.Common.{
  not, ◌↔◌, ℕ, ◌+◌, ◌≤◌, ◌<◌, ◌≡◌, refl, subst, ◌⊎◌, true, false, ◌&&◌, ◌||◌, none, some, List, [],
  ◌∷◌, arith, ◌==◌, any, filter, All, ok, err, Bool-cases, Option-cases, inl, inr,
}
use cmorflow_tax_api.Folio.{
  is_empty, exhausted, CafData, TenantConfig, current_last_used, has_room, select_caf, assign_folio,
  reserve_folio_atomic,
}
use cmorflow_tax_api.Folio.Ranges.{IsValid, IsApart, AreConsistent, is_used}

select_caf-cons :
    (t : ℕ) (d : CafData) (cs : List CafData) (c : CafData)
    → select_caf t (d ∷ cs) ≡ some c
    → ((d.type ≡ t) × (current_last_used d < d.range_to) × (d ≡ c))
      ⊎ (((d.type == t && has_room d) ≡ false) × (select_caf t cs ≡ some c))
unfolding select_caf
select_caf-cons t d cs c e = ground arith

-- The selected range is one of the list, has the type, and has a folio left.
pub select_caf-All {κ} :
    (P : CafData → Type κ) (t : ℕ) (cafs : List CafData) (c : CafData)
    → select_caf t cafs ≡ some c
    → All P cafs
    → P c
select_caf-All P t [] c e h = absurd (unfold select_caf in ground arith)
select_caf-All P t (d ∷ cs) c e h = elim (select_caf-cons t d cs c e) [
  | inl (_, _, same) ↦ subst P same h.0
  | inr (_, later) ↦ select_caf-All P t cs c later h.1
]

pub select_caf-has_room :
    (t : ℕ) (cafs : List CafData) (c : CafData)
    → select_caf t cafs ≡ some c
    → (c.type ≡ t) × (current_last_used c < c.range_to)
select_caf-has_room t [] c e = absurd (unfold select_caf in ground arith)
select_caf-has_room t (d ∷ cs) c e = elim (select_caf-cons t d cs c e) [
  | inl (typed, room, same) ↦ rw (← same) (typed, room)
  | inr (_, later) ↦ select_caf-has_room t cs c later
]

AreConsistent-All : (cafs : List CafData) → AreConsistent cafs → All IsValid cafs
AreConsistent-All [] h = tt
AreConsistent-All (c ∷ cs) h = (h.0, AreConsistent-All cs h.2)

-- A folio of one range was handed out by none that is apart from it.
apart-not-used :
    (t f : ℕ) (c : CafData) (cs : List CafData)
    → c.type ≡ t
    → c.range_from ≤ f
    → f ≤ c.range_to
    → All (IsApart c) cs
    → AreConsistent cs
    → is_used t f cs ≡ false
unfolding is_used
apart-not-used t f c [] typed lo hi apart valid = refl
apart-not-used t f c (d ∷ cs) typed lo hi apart valid =
    ground (arith, apart-not-used t f c cs typed lo hi apart.1 valid.2, valid.0.within)

next-not-used :
    (t : ℕ) (cafs : List CafData) (c : CafData)
    → select_caf t cafs ≡ some c
    → AreConsistent cafs
    → is_used t (current_last_used c + 1) cafs ≡ false
unfolding is_used
next-not-used t [] c e valid = refl
next-not-used t (d ∷ cs) c e valid = elim (select_caf-cons t d cs c e) [
  | inl (typed, room, same) ↦
      let fresh =
        apart-not-used t (current_last_used d + 1) d cs typed (omega (arith, valid.0.started))
          (omega arith) valid.1 valid.2 in
      subst (λ x. is_used t (current_last_used x + 1) (d ∷ cs) ≡ false) same (ground (arith, fresh))
  | inr (other, later) ↦
      let (typed, room) = select_caf-has_room t cs c later in
      let ok_c = select_caf-All IsValid t cs c later (AreConsistent-All cs valid.2) in
      let apart = select_caf-All (IsApart d) t cs c later valid.1 in
      ground (arith, next-not-used t cs c later valid.2, ok_c.started, valid.0.within, apart)
]

is_used-assign_folio :
    (t u f : ℕ) (cafs : List CafData) (c : CafData)
    → select_caf t cafs ≡ some c
    → AreConsistent cafs
    → is_used u f (assign_folio t (current_last_used c + 1) cafs)
      ≡ (is_used u f cafs || (u == t && f == current_last_used c + 1))
unfolding is_used assign_folio current_last_used
is_used-assign_folio t u f [] c e valid = absurd (unfold select_caf in ground arith)
is_used-assign_folio t u f (d ∷ cs) c e valid = elim (select_caf-cons t d cs c e) [
  | inl (typed, room, same) ↦ rw (← same) (ground (arith, valid.0.started))
  | inr (other, later) ↦ ground (arith, is_used-assign_folio t u f cs c later valid.2)
]

-- A new last folio leaves a range apart from the others.
IsApart-assign_folio :
    (t n : ℕ) (d : CafData) (cafs : List CafData)
    → All (IsApart d) cafs
    → All (IsApart d) (assign_folio t n cafs)
unfolding assign_folio
IsApart-assign_folio t n d [] h = tt
IsApart-assign_folio t n d (c ∷ cs) h = elim (Bool-cases (c.type == t && has_room c)) [
  | inl e ↦ rw e h
  | inr e ↦ rw e (h.0, IsApart-assign_folio t n d cs h.1)
]

assign_folio-AreConsistent :
    (t : ℕ) (cafs : List CafData) (c : CafData)
    → select_caf t cafs ≡ some c
    → AreConsistent cafs
    → AreConsistent (assign_folio t (current_last_used c + 1) cafs)
unfolding assign_folio current_last_used
assign_folio-AreConsistent t [] c e valid = absurd (unfold select_caf in ground arith)
assign_folio-AreConsistent t (d ∷ cs) c e valid = elim (select_caf-cons t d cs c e) [
  | inl (typed, room, same) ↦
      let here : (d.type == t && has_room d) ≡ true = ground arith in
      subst (λ x. AreConsistent (assign_folio t (current_last_used x + 1) (d ∷ cs))) same
        (rw here (
          record {
            positive = valid.0.positive;
            ordered = valid.0.ordered;
            started = omega (arith, valid.0.started);
            within = omega arith;
          },
          valid.1,
          valid.2,
        ))
  | inr (other, later) ↦ rw other (
    valid.0,
    IsApart-assign_folio t (current_last_used c + 1) d cs valid.1,
    assign_folio-AreConsistent t cs c later valid.2,
  )
]

-- A reservation that succeeds hands out the next folio of the selected range.
reserve_folio_atomic-eq-ok :
    (t n : ℕ) (config config' : TenantConfig)
    → reserve_folio_atomic t (some config) ≡ ok (n, config')
    → (c : CafData) × (select_caf t config.cafs ≡ some c)
      × (n ≡ current_last_used c + 1)
      × (config' ≡ record config { cafs = assign_folio t n config.cafs })
unfolding reserve_folio_atomic
reserve_folio_atomic-eq-ok t n config config' e = elim (Option-cases (select_caf t config.cafs)) [
  | inl missing ↦ absurd (ground arith)
  | inr (c, found) ↦ (c, found, ground arith, ground arith)
]

-- From consistent ranges, a reservation that succeeds hands out a folio that was not used, marks
-- exactly that folio of that type as used and no other, keeps the ranges consistent, and leaves the
-- other fields of the configuration alone.
pub reserve_folio_atomic-fresh :
    (t n : ℕ) (config config' : TenantConfig)
    → AreConsistent config.cafs
    → reserve_folio_atomic t (some config) ≡ ok (n, config')
    → (is_used t n config.cafs ≡ false)
      × ((u f : ℕ) → is_used u f config'.cafs ≡ (is_used u f config.cafs || (u == t && f == n)))
      × AreConsistent config'.cafs
      × (config'.ai_enabled ≡ config.ai_enabled)
      × (config'.can_issue_t46 ≡ config.can_issue_t46)
      × (config'.active_brand_profile_id ≡ config.active_brand_profile_id)
reserve_folio_atomic-fresh t n config config' valid e =
    let (c, found, next, saved) = reserve_folio_atomic-eq-ok t n config config' e in
    rw (saved, next)
      (
        next-not-used t config.cafs c found valid,
        λ u f. is_used-assign_folio t u f config.cafs c found valid,
        assign_folio-AreConsistent t config.cafs c found valid,
        refl,
        refl,
        refl,
      )

select_caf-eq-none_iff :
    (t : ℕ) (cafs : List CafData)
    → (select_caf t cafs ≡ none) ↔ All (λ c. c.type ≡ t → c.range_to ≤ current_last_used c) cafs
unfolding select_caf
select_caf-eq-none_iff t [] = (λ e. tt, λ h. refl)
select_caf-eq-none_iff t (d ∷ cs) = grind (arith, select_caf-eq-none_iff t cs)

filter-not-nil :
    (t : ℕ) (cafs : List CafData)
    → is_empty (filter (λ c. c.type == t) cafs) ≡ not (any (λ c. c.type == t) cafs)
filter-not-nil t [] = refl
filter-not-nil t (c ∷ cs) = ground (arith, filter-not-nil t cs)

-- The reservation fails for want of folios exactly when some range has the type and every range of
-- the type is used up to its end.
pub reserve_folio_atomic-exhausted_iff :
    (t : ℕ) (config : TenantConfig)
    → (reserve_folio_atomic t (some config) ≡ err exhausted) ↔ (
        (any (λ c. c.type == t) config.cafs ≡ true)
        × All (λ c. c.type ≡ t → c.range_to ≤ current_last_used c) config.cafs)
unfolding reserve_folio_atomic
reserve_folio_atomic-exhausted_iff t config =
    grind (arith, filter-not-nil t config.cafs, select_caf-eq-none_iff t config.cafs)
