-- ===== src/Credentials/Permissions.antt =====
-- What a credential may hold, and that it signs what it was created with.
use cmorflow_tax_api.Common.{
  ◌||◌, Bool, ◌==◌, false, length, inr, any, subst, refl, not, inl, err, ap, [], ◌≢◌, ◌∙◌, some, ok,
  Result-cases, Option, Bool-cases, ◌∷◌, true, sym, String, Result, All, ◌≡◌, ℕ, all, List,
  guard-ok, bind-ok, ok-inj,
}
use cmorflow_tax_api.Guard.{
  Credential, CredentialType, api, admin, Crypto, includes_text, resolve_signing_key,
}
use cmorflow_tax_api.Credentials.{
  CredentialError, bad_request, self_revoke_last_admin, has_id, own, update, is_admin, close,
  revoke, integration_permissions, admin_only_permissions, CreateInput, Draw, check_input,
  new_credential, Created, create, rotate, rotated_input, generate_secret, is_blank,
}

-- A row holds known permissions, at least one, and no administrative one unless it is an admin's.
pub record IsValid (c : Credential) : Type 0 where
  pub known : all (includes_text integration_permissions) c.permissions ≡ true
  pub some_permission : c.permissions ≢ []
  pub separate :
      c.credential_type ≡ api → any (includes_text admin_only_permissions) c.permissions ≡ false

check_input-IsValid :
    (crypto : Crypto) (now : ℕ) (draw : Draw) (tenant_id : String) (input : CreateInput)
    → check_input input ≡ ok tt
    → IsValid (new_credential crypto now draw tenant_id input)
unfolding check_input
check_input-IsValid crypto now draw tenant_id input h =
    let (named, e1) = guard-ok (not (is_blank input.name)) bad_request _ tt h in
    let (known, e2) =
      guard-ok (all (includes_text integration_permissions) input.permissions) bad_request _ tt
        e1 in
    let (filled, e3) = guard-ok (not (length input.permissions == 0)) bad_request _ tt e2 in
    let (apart, e4) =
      guard-ok
        (is_admin input.credential_type
          || not (any (includes_text admin_only_permissions) input.permissions))
        bad_request _ tt e3 in
    record {
      known = known;
      some_permission = nonempty input.permissions filled;
      separate = λ e.
          separated input.credential_type
            (any (includes_text admin_only_permissions) input.permissions) e apart;
    }
  where
    nonempty : (ps : List String) → not (length ps == 0) ≡ true → ps ≢ []
    nonempty [] h e = cc h
    nonempty (p ∷ ps) h e = cc e

    separated : (t : CredentialType) (b : Bool) → t ≡ api → (is_admin t || not b) ≡ true → b ≡ false
    separated admin b e h = cc e
    separated api true e h = cc h
    separated api false e h = refl

create-found :
    (crypto : Crypto) (now : ℕ) (draw : Draw) (tenant_id : String) (input : CreateInput)
    (rows : List Credential) (x : Created)
    → create crypto now draw tenant_id input rows ≡ ok x
    → (check_input input ≡ ok tt)
      × (x.credential ≡ new_credential crypto now draw tenant_id input)
      × (x.secret ≡ generate_secret draw.secret_part)
      × (x.rows ≡ new_credential crypto now draw tenant_id input ∷ rows)
unfolding create
create-found crypto now draw tenant_id input rows x h =
    let (_, checked, e) = bind-ok (check_input input) _ x h in
    (
      checked,
      ap (λ y. Created.credential y) (sym (ok-inj e)),
      ap (λ y. Created.secret y) (sym (ok-inj e)),
      ap (λ y. Created.rows y) (sym (ok-inj e)),
    )

pub create-IsValid :
    (crypto : Crypto) (now : ℕ) (draw : Draw) (tenant_id : String) (input : CreateInput)
    (rows : List Credential) (x : Created)
    → All IsValid rows
    → create crypto now draw tenant_id input rows ≡ ok x
    → All IsValid x.rows
create-IsValid crypto now draw tenant_id input rows x valid h =
    let (checked, same, _, after) = create-found crypto now draw tenant_id input rows x h in
    subst (λ y. All IsValid y) (sym after)
      (check_input-IsValid crypto now draw tenant_id input checked, valid)

update-IsValid :
    (id : ℕ) (change : Credential → Credential) (rows : List Credential)
    → ((c : Credential) → IsValid c → IsValid (change c))
    → All IsValid rows
    → All IsValid (update id change rows)
unfolding update
update-IsValid id change [] keep h = tt
update-IsValid id change (c ∷ rows) keep h = elim (Bool-cases (has_id id c)) [
  | inl e ↦ rw e (keep c h.0, update-IsValid id change rows keep h.1)
  | inr e ↦ rw e (h.0, update-IsValid id change rows keep h.1)
]

-- An operation of the credentials' life, with the outcome on an error: the rows as they were.
pub data Operation : Type 0 where
  creates : ℕ → Draw → String → CreateInput → Operation
  rotates : ℕ → Draw → String → ℕ → Operation
  revokes : ℕ → String → ℕ → Option ℕ → Operation

abbrev rows_or : List Credential → Result CredentialError Created → List Credential
rows_or rows (ok x) = x.rows
rows_or rows (err e) = rows

abbrev rows_or_same : List Credential → Result CredentialError (List Credential) → List Credential
rows_or_same rows (ok x) = x
rows_or_same rows (err e) = rows

unfoldable pub perform : Crypto → Operation → List Credential → List Credential
perform crypto (creates now draw tenant_id input) rows =
    rows_or rows (create crypto now draw tenant_id input rows)
perform crypto (rotates now draw tenant_id id) rows =
    rows_or rows (rotate crypto now draw tenant_id id rows)
perform crypto (revokes now tenant_id id actor) rows =
    rows_or_same rows (revoke now tenant_id id actor rows)

unfoldable pub perform_all : Crypto → List Operation → List Credential → List Credential
perform_all crypto [] rows = rows
perform_all crypto (o ∷ os) rows = perform_all crypto os (perform crypto o rows)

same-IsValid :
    (c d : Credential)
    → c.permissions ≡ d.permissions
    → c.credential_type ≡ d.credential_type
    → IsValid c
    → IsValid d
same-IsValid c d e f h = record {
  known = rw (sym e) h.known;
  some_permission = λ none_left. h.some_permission (e ∙ none_left);
  separate = λ g. rw (sym e) (h.separate (f ∙ g));
}

rotate-IsValid :
    (crypto : Crypto) (now : ℕ) (draw : Draw) (tenant_id : String) (id : ℕ) (rows : List Credential)
    (x : Created)
    → All IsValid rows
    → rotate crypto now draw tenant_id id rows ≡ ok x
    → All IsValid x.rows
unfolding rotate
rotate-IsValid crypto now draw tenant_id id rows x valid h =
    let (old, owned, e1) = bind-ok (own tenant_id id rows) _ x h in
    let (y, made, e2) =
      bind-ok (create crypto now draw tenant_id (rotated_input old) rows) _ x e1 in
    subst (λ z. All IsValid (Created.rows z)) (ok-inj e2)
      (update-IsValid id _ y.rows (λ c v. same-IsValid c _ refl refl v)
        (create-IsValid crypto now draw tenant_id (rotated_input old) rows y valid made))

revoke-IsValid :
    (now : ℕ) (tenant_id : String) (id : ℕ) (actor : Option ℕ) (rows after : List Credential)
    → All IsValid rows
    → revoke now tenant_id id actor rows ≡ ok after
    → All IsValid after
unfolding revoke
revoke-IsValid now tenant_id id actor rows after valid h =
    let (c, owned, e1) = bind-ok (own tenant_id id rows) _ after h in
    let (allowed, e2) = guard-ok _ self_revoke_last_admin _ after e1 in
    subst (λ x. All IsValid x) (ok-inj e2)
      (update-IsValid id (close now) rows (λ c v. same-IsValid c _ refl refl v) valid)

-- Whatever is created, rotated and revoked, and whatever of it fails: if every stored credential holds
-- known permissions, at least one, and administrative ones only as an admin credential, so it does
-- afterwards.
pub perform_all-IsValid :
    (crypto : Crypto) (os : List Operation) (rows : List Credential)
    → All IsValid rows
    → All IsValid (perform_all crypto os rows)
unfolding perform_all perform
perform_all-IsValid crypto [] rows h = h
perform_all-IsValid crypto (o ∷ os) rows h =
    perform_all-IsValid crypto os (perform crypto o rows) (one o)
  where
    one : (o : Operation) → All IsValid (perform crypto o rows)
    one (creates now draw tenant_id input) =
        elim (Result-cases (create crypto now draw tenant_id input rows)) [
          | inl (x, e) ↦ rw e (create-IsValid crypto now draw tenant_id input rows x h e)
          | inr (x, e) ↦ rw e h
        ]
    one (rotates now draw tenant_id id) =
        elim (Result-cases (rotate crypto now draw tenant_id id rows)) [
          | inl (x, e) ↦ rw e (rotate-IsValid crypto now draw tenant_id id rows x h e)
          | inr (x, e) ↦ rw e h
        ]
    one (revokes now tenant_id id actor) =
        elim (Result-cases (revoke now tenant_id id actor rows)) [
          | inl (x, e) ↦ rw e (revoke-IsValid now tenant_id id actor rows x h e)
          | inr (x, e) ↦ rw e h
        ]

-- If decryption undoes encryption, the guard verifies with a created credential's row the very secret
-- that its creation shows.
pub create-resolve_signing_key :
    (crypto : Crypto) (now : ℕ) (draw : Draw) (tenant_id : String) (input : CreateInput)
    (rows : List Credential) (x : Created)
    → ((s : String) → crypto.decrypt (crypto.encrypt s) ≡ some s)
    → create crypto now draw tenant_id input rows ≡ ok x
    → resolve_signing_key crypto x.credential ≡ ok x.secret
unfolding resolve_signing_key
create-resolve_signing_key crypto now draw tenant_id input rows x undone h =
    let (checked, same, shown, after) = create-found crypto now draw tenant_id input rows x h in
    rw (same, shown, undone) refl
