-- ===== src/Credentials/Lockout.antt =====
-- revoke of src/application/integrations/integration-credentials.use-case.ts: what a revocation leaves of
-- a tenant's administrative credentials, by their status and not their expiry.
use cmorflow_tax_api.Common.{
  err, guard, Result, true, ==_iff, subst, str_eq, inr, refl, inl, [], Option-cases, Bool-cases,
  some, ok, false, arith, ◌≡◌, suc, filter, ◌≤◌, ◌∷◌, length, find, any, Option, ℕ, String, List,
  ◌>>◌, ◌>>=◌, guard-ok, bind-ok, ok-inj,
}
use cmorflow_tax_api.Guard.{Credential}
use cmorflow_tax_api.Credentials.{
  CredentialError, not_found, self_revoke_last_admin, has_id, or_not_found, own, update,
  is_live_admin, is_active_admin, close, revoke,
}

-- The ids are distinct, as the primary key makes them.
abbrev pub AreDistinct : List Credential → Type 0
AreDistinct [] = Unit
AreDistinct (c ∷ cs) = (any (has_id c.id) cs ≡ false) × AreDistinct cs

abbrev pub active_admins : String → List Credential → ℕ
active_admins tenant_id rows = length (filter (is_active_admin tenant_id) rows)

update-absent :
    (id : ℕ) (change : Credential → Credential) (rows : List Credential)
    → any (has_id id) rows ≡ false
    → update id change rows ≡ rows
unfolding update
update-absent id change [] h = refl
update-absent id change (c ∷ rows) h = ground (arith, update-absent id change rows)

-- Revoking takes away one active admin at most.
update-active_admins :
    (tenant_id : String) (now id : ℕ) (rows : List Credential)
    → AreDistinct rows
    → active_admins tenant_id rows ≤ suc (active_admins tenant_id (update id (close now) rows))
unfolding update
update-active_admins tenant_id now id [] h = omega arith
update-active_admins tenant_id now id (c ∷ rows) (new, rest) = elim (Bool-cases (has_id id c)) [
  | inl e ↦
      let same =
        update-absent id (close now) rows
          (subst (λ x. any (has_id x) rows ≡ false) ((==_iff c.id id).0 e) new) in
      rw (e, same) (ground arith)
  | inr e ↦ rw e (ground (arith, update-active_admins tenant_id now id rows rest))
]

-- The row that is found is changed; if it is no active admin of the tenant, their number stays.
update-idle :
    (tenant_id : String) (now id : ℕ) (rows : List Credential) (c : Credential)
    → AreDistinct rows
    → find (has_id id) rows ≡ some c
    → is_live_admin c ≡ false
    → active_admins tenant_id (update id (close now) rows) ≡ active_admins tenant_id rows
unfolding update
update-idle tenant_id now id [] c h found idle = refl
update-idle tenant_id now id (d ∷ rows) c (new, rest) found idle = elim (Bool-cases (has_id id d)) [
  | inl e ↦
      let same =
        update-absent id (close now) rows
          (subst (λ x. any (has_id x) rows ≡ false) ((==_iff d.id id).0 e) new) in
      rw (e, same) (ground arith)
  | inr e ↦ rw e (ground (arith, update-idle tenant_id now id rows c rest))
]

-- What `get` and the tenant's check give.
pub own-found :
    (tenant_id : String) (id : ℕ) (rows : List Credential) (c : Credential)
    → own tenant_id id rows ≡ ok c
    → (find (has_id id) rows ≡ some c) × (str_eq c.tenant_id tenant_id ≡ true)
unfolding own
own-found tenant_id id rows c h = elim (Option-cases (find (has_id id) rows)) [
  | inl e ↦ absurd (err-ne (subst (λ x. (or_not_found x >>= after) ≡ ok c) e h))
  | inr (d, e) ↦
      let (mine, same) =
        guard-ok (str_eq d.tenant_id tenant_id) not_found (ok d) c
          (subst (λ x. (or_not_found x >>= after) ≡ ok c) e h) in
      subst
        (λ x. (find (has_id id) rows ≡ some x) × (str_eq (Credential.tenant_id x) tenant_id ≡ true))
        (ok-inj same) (e, mine)
]
  where
    after : Credential → Result CredentialError Credential
    after d = guard (str_eq d.tenant_id tenant_id) not_found >> ok d

    err-ne : Path (Result CredentialError Credential) (err not_found) (ok c) → ⊥
    err-ne e = cc e

-- A revocation that succeeds leaves the tenant an active admin credential, if it had one.
pub revoke-keeps_admin :
    (now : ℕ) (tenant_id : String) (id : ℕ) (actor : Option ℕ) (rows after : List Credential)
    → AreDistinct rows
    → 1 ≤ active_admins tenant_id rows
    → revoke now tenant_id id actor rows ≡ ok after
    → 1 ≤ active_admins tenant_id after
unfolding revoke
revoke-keeps_admin now tenant_id id actor rows after distinct some_admin h =
    let (c, owned, e1) = bind-ok (own tenant_id id rows) _ after h in
    let (allowed, e2) = guard-ok _ self_revoke_last_admin _ after e1 in
    let (found, mine) = own-found tenant_id id rows c owned in
    let fewer = update-active_admins tenant_id now id rows distinct in
    let left : 1 ≤ active_admins tenant_id (update id (close now) rows) =
      elim (Bool-cases (is_live_admin c)) [
        | inl e ↦ ground arith
        | inr e ↦ rw (update-idle tenant_id now id rows c distinct found e) some_admin
      ] in
    subst (λ x. 1 ≤ active_admins tenant_id x) (ok-inj e2) left
