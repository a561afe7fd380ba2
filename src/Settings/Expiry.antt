-- ===== src/Settings/Expiry.antt =====
-- How long a signature is used.
use cmorflow_tax_api.Common.{
  ◌∙◌, ap, Bool, ◌≢◌, false, sym, inr, ◌↔◌, subst, ltb, inl, err, true, Result, Option-cases, List,
  Bool-cases, ◌+◌, ◌≤◌, ok, ◌≡◌, ◌<◌, Option, refl, [], ◌∷◌, ℕ, arith, none, some,
}
use cmorflow_tax_api.Settings.{
  Vault, Process, Cached, DecryptedSignature, SignatureConfig, Signatures, Event, save, elsewhere,
  ask, with_password, Use, use_row, remember, decrypted, use_key, use_cached,
  get_decrypted_signature, saved, happen, history, save_signature, status_of, days_remaining,
  SettingsError, expired_signature,
}

-- What the cache holds is dropped within two minutes of the end of its validity.
abbrev pub IsFresh : Option Cached → Type 0
IsFresh none = Unit
IsFresh (some c) = c.expires ≤ DecryptedSignature.valid_to c.value + 120000

-- A use keeps that, and hands out a signature no later.
pub record IsUse (now : ℕ) (u : Use) : Type 0 where
  pub fresh : IsFresh u.1.cache
  pub handed : (d : DecryptedSignature) → u.0 ≡ ok (some d) → now < d.valid_to + 120000

module _ (vault : Vault) (now : ℕ) where
  remember-IsUse :
      (p : Process) (valid_to : ℕ) (r : Result SettingsError DecryptedSignature)
      → ((d : DecryptedSignature) → r ≡ ok d → d.valid_to ≡ valid_to)
      → now ≤ valid_to
      → IsFresh p.cache
      → IsUse now (remember now p r)
  remember-IsUse p valid_to (err e) same live f = record { fresh = f; handed = λ d h. cc h }
  remember-IsUse p valid_to (ok d) same live f =
      let e : d.valid_to ≡ valid_to = same d refl in
      record { fresh = omega (arith, e, live); handed = λ d' h. ground (arith, h, e, live) }

  decrypted-valid_to :
      (s : SignatureConfig) (d : DecryptedSignature)
      → decrypted vault s ≡ ok d
      → d.valid_to ≡ s.valid_to
  decrypted-valid_to s d h = ground (arith, h)

  use_row-IsUse :
      (p : Process) (o : Option SignatureConfig)
      → IsFresh p.cache
      → IsUse now (use_row vault now p o)
  use_row-IsUse p none f = record { fresh = f; handed = λ d h. cc h }
  use_row-IsUse p (some s) f = elim (Bool-cases (ltb s.valid_to now)) [
    | inl over ↦ rw over (record { fresh = f; handed = λ d h. cc h })
    | inr live ↦ rw live (
        remember-IsUse p s.valid_to (decrypted vault s) (decrypted-valid_to s)
          (ground (arith, live)) f)
  ]

  use_key-IsUse : (p : Process) (k : Bool) → IsFresh p.cache → IsUse now (use_key vault now p k)
  use_key-IsUse p true f = record { fresh = f; handed = λ d h. cc h }
  use_key-IsUse p false f = use_row-IsUse p p.row.signature f

  use_cached-IsUse :
      (p : Process) (o : Option Cached)
      → IsFresh o
      → IsFresh p.cache
      → IsUse now (use_cached vault now p o)
  use_cached-IsUse p none held f = use_key-IsUse p vault.is_default_key f
  use_cached-IsUse p (some c) held f = elim (Bool-cases (ltb now c.expires)) [
    | inl before ↦ rw before (record { fresh = f; handed = λ d h. ground (arith, h, before, held) })
    | inr after ↦ rw after (use_key-IsUse p vault.is_default_key f)
  ]

  get_decrypted_signature-IsUse :
      (p : Process) → IsFresh p.cache → IsUse now (get_decrypted_signature vault now p)
  unfolding get_decrypted_signature
  get_decrypted_signature-IsUse p f = use_cached-IsUse p p.cache f f

module _ (vault : Vault) where
  saved-IsFresh :
      (p : Process) (r : Result SettingsError Signatures)
      → IsFresh p.cache
      → IsFresh (saved p r).cache
  saved-IsFresh p (err e) f = f
  saved-IsFresh p (ok row) f = tt

  history-IsFresh :
      (events : List Event) (p : Process) → IsFresh p.cache → IsFresh (history vault events p).cache
  unfolding history happen
  history-IsFresh [] p f = f
  history-IsFresh (save pfx password ∷ es) p f =
      history-IsFresh es (saved p (save_signature vault pfx password p.row))
        (saved-IsFresh p (save_signature vault pfx password p.row) f)
  history-IsFresh (elsewhere row ∷ es) p f = history-IsFresh es (record p { row = row }) f
  history-IsFresh (ask now ∷ es) p f =
      history-IsFresh es (get_decrypted_signature vault now p).1
        ((get_decrypted_signature-IsUse vault now p f).fresh)

  -- A process that starts with an empty cache, whatever signatures are saved in it or elsewhere and whenever
  -- they are asked for: a signature that it hands out is less than two minutes past the end of its validity.
  pub get_decrypted_signature-live :
      (events : List Event) (p : Process) (now : ℕ) (d : DecryptedSignature)
      → p.cache ≡ none
      → (get_decrypted_signature vault now (history vault events p)).0 ≡ ok (some d)
      → now < d.valid_to + 120000
  get_decrypted_signature-live events p now d empty h =
      (get_decrypted_signature-IsUse vault now (history vault events p)
          (history-IsFresh events p (subst IsFresh (sym empty) tt))).handed
        d h

  expired_iff :
      (now : ℕ) (s : SignatureConfig)
      → ((status_of now s).is_expired ≡ true) ↔ (s.valid_to + 86400000 ≤ now)
  unfolding status_of days_remaining
  expired_iff now s = (λ h. ground (arith, h), λ h. ground (arith, h))

  remember-expired :
      (now : ℕ) (p : Process) (s : SignatureConfig)
      → (remember now p (decrypted vault s)).0 ≢ err expired_signature
  remember-expired now p s h = elim (Option-cases (vault.decrypt s.password_encrypted)) [
    | inl e ↦ cc (subst (λ o. (remember now p (with_password s o)).0 ≡ err expired_signature) e h)
    | inr (password, e) ↦
        cc (subst (λ o. (remember now p (with_password s o)).0 ≡ err expired_signature) e h)
  ]

  refused_iff :
      (now : ℕ) (p : Process) (s : SignatureConfig)
      → ((use_row vault now p (some s)).0 ≡ err expired_signature) ↔ (s.valid_to < now)
  refused_iff now p s = elim (Bool-cases (ltb s.valid_to now)) [
    | inl e ↦ rw e (λ h. ground (arith, e), λ h. refl)
    | inr e ↦ rw e (λ h. absurd (remember-expired now p s h), λ h. absurd (ground (arith, e, h)))
  ]

  -- With an empty cache and a key that may be used, signing is refused as expired exactly after the end
  -- of the signature's validity; the status says that it has expired from one day later on.
  pub expired_day :
      (now : ℕ) (p : Process) (s : SignatureConfig)
      → p.cache ≡ none
      → p.row.signature ≡ some s
      → vault.is_default_key ≡ false
      → (((get_decrypted_signature vault now p).0 ≡ err expired_signature) ↔ (s.valid_to < now))
        × (((status_of now s).is_expired ≡ true) ↔ (s.valid_to + 86400000 ≤ now))
  unfolding get_decrypted_signature
  expired_day now p s empty stored key =
      let used : get_decrypted_signature vault now p ≡ use_row vault now p (some s) =
        ap (use_cached vault now p) empty
        ∙ (ap (use_key vault now p) key ∙ ap (use_row vault now p) stored) in
      (
        subst (λ (u : Use). (u.0 ≡ err expired_signature) ↔ (s.valid_to < now)) (sym used)
            (refused_iff now p s),
        expired_iff now s,
      )
