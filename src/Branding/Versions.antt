-- ===== src/Branding/Versions.antt =====
-- The versions of a tenant's visual identity, under competing administrators.
use cmorflow_tax_api.Common.{
  some, Result-cases, ap, Result, Option, subst, ok-inj, inr, inl, ◌∙◌, ◌+◌, true, str_eq_iff, ok,
  false, Bool-cases, ◌≤◌, ◌≡◌, ◌||◌, ◌<◌, ◌++◌, sym, any, String, List, Bool, refl, [], ◌∷◌, ℕ,
  arith, any-append,
}
use cmorflow_tax_api.Branding.{
  err, Profile, Look, BrandingError, Round, Rounds, Created, Brands, Input, Images, is_of,
  has_version, highest, new_profile, insert_version, create_next_version, attempts, look_of,
  activate, update,
}
use mathlib.Core.List.{append-nil, append_assoc}

-- No two rows of a tenant have the same version.
abbrev pub AreUnique : List Profile → Type 0
AreUnique [] = Unit
AreUnique (p ∷ ps) = (any (has_version p.tenant_id p.version) ps ≡ false) × AreUnique ps

-- What the others insert in each round goes through the same index.
abbrev pub AreIndexed : List Round → List Profile → Type 0
AreIndexed [] rows = Unit
AreIndexed (r ∷ rs) rows = AreUnique (rows ++ r.others) × AreIndexed rs (rows ++ r.others)

has_version-sym :
    (p : Profile) (tenant_id : String) (version : ℕ) (q : Profile)
    → q.tenant_id ≡ tenant_id
    → q.version ≡ version
    → has_version tenant_id version p ≡ false
    → has_version p.tenant_id p.version q ≡ false
unfolding has_version is_of
has_version-sym p tenant_id version q t v h =
    ground (arith, str_eq_iff p.tenant_id tenant_id, str_eq_iff q.tenant_id p.tenant_id, h)

or-none : (a b : Bool) → (a || b) ≡ false → (a ≡ false) × (b ≡ false)
or-none true b h = cc h
or-none false b h = (refl, h)

append-AreUnique :
    (rows : List Profile) (q : Profile)
    → any (has_version q.tenant_id q.version) rows ≡ false
    → AreUnique rows
    → AreUnique (rows ++ q ∷ [])
append-AreUnique [] q h u = (refl, tt)
append-AreUnique (p ∷ ps) q h u =
    let (here, later) = or-none (has_version q.tenant_id q.version p) _ h in
    (
      any-append (has_version p.tenant_id p.version) ps (q ∷ [])
          ∙ rw (u.0, has_version-sym p q.tenant_id q.version q refl refl here) refl,
      append-AreUnique ps q later (u.1),
    )

-- The version after the highest is free.
highest-free :
    (tenant_id : String) (rows : List Profile) (n : ℕ)
    → highest tenant_id rows < n
    → any (has_version tenant_id n) rows ≡ false
unfolding highest has_version
highest-free tenant_id [] n h = refl
highest-free tenant_id (p ∷ ps) n h = ground (arith, highest-free tenant_id ps n)

highest-append :
    (tenant_id : String) (rows others : List Profile)
    → highest tenant_id rows ≤ highest tenant_id (rows ++ others)
unfolding highest
highest-append tenant_id [] others = omega arith
highest-append tenant_id (p ∷ ps) others = ground (arith, highest-append tenant_id ps others)

-- A creation: the rows that were there stay, the index holds, and a new row is the last one, with the
-- tenant and the look that were asked for and a version above all that the tenant had.
pub record IsCreated (tenant_id : String) (look : Look) (rows : List Profile) (c : Created)
    : Type 0 where
  pub added : List Profile
  pub kept : c.1 ≡ rows ++ added
  pub unique : AreUnique c.1
  pub newer : (p : Profile) → c.0 ≡ ok p → highest tenant_id rows < p.version
  pub last :
      (p : Profile)
      → c.0 ≡ ok p
      → (front : List Profile) × (c.1 ≡ front ++ p ∷ [])
        × (p ≡ new_profile tenant_id p.version look p.id)

module _ (tenant_id : String) (look : Look) where
  create_next_version-IsCreated :
      (rounds : List Round) (rows : List Profile)
      → AreUnique rows
      → AreIndexed rounds rows
      → IsCreated tenant_id look rows (create_next_version tenant_id look rounds rows)
  unfolding create_next_version
  create_next_version-IsCreated [] rows u i = record {
    added = [];
    kept = sym (append-nil rows);
    unique = u;
    newer = λ p h. cc h;
    last = λ p h. cc h;
  }
  create_next_version-IsCreated (r ∷ rs) rows u i =
      elim (Bool-cases
        (any (has_version tenant_id (highest tenant_id rows + 1)) (rows ++ r.others))) [
          | inl taken ↦
              let ih = create_next_version-IsCreated rs (rows ++ r.others) (i.0) (i.1) in
              rw (taken, create_next_version, insert_version)
                (record {
                  added = r.others ++ ih.added;
                  kept = ih.kept ∙ append_assoc rows r.others ih.added;
                  unique = ih.unique;
                  newer =
                      λ p h. omega (arith, ih.newer p h, highest-append tenant_id rows r.others);
                  last = ih.last;
                })
          | inr free ↦ elim (Bool-cases r.fails) [
            | inl broken ↦
                rw (free, broken, create_next_version, insert_version)
                  (record {
                    added = r.others;
                    kept = refl;
                    unique = i.0;
                    newer = λ p h. cc h;
                    last = λ p h. cc h;
                  })
            | inr works ↦
                let q : Profile =
                  new_profile tenant_id (highest tenant_id rows + 1) look r.new_id in
                rw (free, works, create_next_version, insert_version)
                  (record {
                    added = r.others ++ q ∷ [];
                    kept = append_assoc rows r.others (q ∷ []);
                    unique = append-AreUnique (rows ++ r.others) q free (i.0);
                    newer = λ p h.
                        let e : q ≡ p = ok-inj h in
                        subst (λ (x : Profile). highest tenant_id rows < x.version) e (omega arith);
                    last = λ p h.
                        let e : q ≡ p = ok-inj h in
                        (
                          rows ++ r.others,
                          ap (λ x. (rows ++ r.others) ++ x ∷ []) e,
                          subst (λ (x : Profile). x ≡ new_profile tenant_id x.version look x.id) e
                              refl,
                        );
                  })
          ]
        ]

  -- A round in which nobody else inserts, on a database that works, creates a version.
  quiet_round :
      (r : Round) (rs : List Round) (rows : List Profile)
      → r.others ≡ []
      → r.fails ≡ false
      → (p : Profile) × ((create_next_version tenant_id look (r ∷ rs) rows).0 ≡ ok p)
  unfolding create_next_version
  quiet_round r rs rows quiet works =
      let free : any (has_version tenant_id (highest tenant_id rows + 1)) (rows ++ r.others)
          ≡ false =
        rw quiet (
          rw (append-nil rows)
            (highest-free tenant_id rows (highest tenant_id rows + 1) (omega arith))) in
      (
        new_profile tenant_id (highest tenant_id rows + 1) look r.new_id,
        rw (free, works, create_next_version, insert_version) refl,
      )

  after_round :
      (r : Round) (rs : List Round) (rows : List Profile)
      → r.fails ≡ false
      → ((rows' : List Profile)
          → (p : Profile) × ((create_next_version tenant_id look rs rows').0 ≡ ok p))
      → (p : Profile) × ((create_next_version tenant_id look (r ∷ rs) rows).0 ≡ ok p)
  unfolding create_next_version
  after_round r rs rows works later =
      elim (Bool-cases
        (any (has_version tenant_id (highest tenant_id rows + 1)) (rows ++ r.others))) [
          | inl taken ↦ rw (taken, create_next_version, insert_version) (later (rows ++ r.others))
          | inr free ↦ (
            new_profile tenant_id (highest tenant_id rows + 1) look r.new_id,
            rw (free, works, create_next_version, insert_version) refl,
          )
        ]

-- An update: the rows that were there stay as they are, the index holds, and where it succeeds its new row
-- is the last one and the active one, with a version above all that the tenant had; where it fails, the
-- active profile stays.
pub record IsUpdated (tenant_id : String) (b : Brands) (x : Result BrandingError Profile × Brands)
    : Type 0 where
  pub added : List Profile
  pub kept : x.1.rows ≡ b.rows ++ added
  pub unique : AreUnique x.1.rows
  pub refused : (e : BrandingError) → x.0 ≡ err e → x.1.active ≡ b.active
  pub newer :
      (p : Profile)
      → x.0 ≡ ok p
      → (highest tenant_id b.rows < p.version)
        × (p.tenant_id ≡ tenant_id)
        × (x.1.active ≡ some p.id)

activate-IsUpdated :
    (works : Bool) (tenant_id : String) (look : Look) (b : Brands) (c : Created)
    → IsCreated tenant_id look b.rows c
    → IsUpdated tenant_id b (activate works b c)
activate-IsUpdated works tenant_id look b (err e, rows) created = record {
  added = created.added;
  kept = created.kept;
  unique = created.unique;
  refused = λ e' h. refl;
  newer = λ p h. cc h;
}
activate-IsUpdated false tenant_id look b (ok q, rows) created = record {
  added = created.added;
  kept = created.kept;
  unique = created.unique;
  refused = λ e' h. refl;
  newer = λ p h. cc h;
}
activate-IsUpdated true tenant_id look b (ok q, rows) created = record {
  added = created.added;
  kept = created.kept;
  unique = created.unique;
  refused = λ e' h. cc h;
  newer = λ p h.
      let e : q ≡ p = ok-inj h in
      (
        created.newer p h,
        ap Profile.tenant_id ((created.last p h).2),
        ap (λ (x : Profile). some x.id) e,
      );
}

activated : (b : Brands) (c : Created) (p : Profile) → c.0 ≡ ok p → (activate true b c).0 ≡ ok p
activated b (err e, rows) p h = cc h
activated b (ok q, rows) p h = h

-- On a table with at most one row for each tenant and version, whatever others insert through the same
-- index between its reads and its insertions, a change of the visual identity never changes a row that is
-- there, keeps one row for each tenant and version, and activates a new row of the tenant with a version
-- above all it had; a change that is refused leaves the active one.
pub update-IsUpdated :
    (images : Images) (tenant_id : String) (input : Input) (credential_id : Option ℕ)
    (rounds : Rounds) (b : Brands)
    → AreUnique b.rows
    → AreIndexed (attempts rounds) b.rows
    → IsUpdated tenant_id b (update images tenant_id input credential_id rounds b)
unfolding update
update-IsUpdated images tenant_id input credential_id rounds b u i =
    elim (Result-cases (look_of images input credential_id)) [
      | inr (e, refused) ↦
          rw (refused, update)
            (record {
              added = [];
              kept = sym (append-nil b.rows);
              unique = u;
              refused = λ e' h. refl;
              newer = λ p h. cc h;
            })
      | inl (look, accepted) ↦
          rw (accepted, update)
            (activate-IsUpdated rounds.activates tenant_id look b
              (create_next_version tenant_id look (attempts rounds) b.rows)
              (create_next_version-IsCreated tenant_id look (attempts rounds) b.rows u i))
    ]

-- An accepted change succeeds on a database that works, if nobody else inserts in its third attempt
-- and the configuration is saved.
pub update-succeeds :
    (images : Images) (tenant_id : String) (input : Input) (credential_id : Option ℕ)
    (rounds : Rounds) (b : Brands) (look : Look)
    → look_of images input credential_id ≡ ok look
    → rounds.first.fails ≡ false
    → rounds.second.fails ≡ false
    → rounds.third.fails ≡ false
    → rounds.third.others ≡ []
    → rounds.activates ≡ true
    → (p : Profile) × ((update images tenant_id input credential_id rounds b).0 ≡ ok p)
unfolding update
update-succeeds images tenant_id input credential_id rounds b look accepted f1 f2 f3 quiet works =
    let (p, created) =
      after_round tenant_id look rounds.first (rounds.second ∷ rounds.third ∷ []) b.rows f1 (λ rows.
        after_round tenant_id look rounds.second (rounds.third ∷ []) rows f2
          (λ rows'. quiet_round tenant_id look rounds.third [] rows' quiet f3)) in
    (p, rw (accepted, works, update) (activated b _ p created))
