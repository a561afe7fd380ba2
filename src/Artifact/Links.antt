-- ===== src/Artifact/Links.antt =====
-- Whom a signed link serves, and how long.
use cmorflow_tax_api.Common.{
  Bool-cases, bind-ok, err, ◌+◌, ◌/◌, ok-inj, ltb, if◌then◌else◌, ◌*◌, subst, guard-ok, ap, String,
  ◌∙◌, ◌<◌, ok, Option, inr, inl, false, ◌==◌, true, not, Option-cases, ◌≢◌, ◌++◌, ◌&&◌, same_bytes,
  length, all, ◌≡◌, List, Bool, refl, [], ◌∷◌, ℕ, arith, none, some,
}
use cmorflow_tax_api.Artifact.{
  verify_split, is_hex, ArtifactKind, SignedArtifact, StoredDte, bad_token, expired, TokenCodec,
  own_document, payload_for, token_of, create_signed_url, split_dot, is_hex32,
  safe_equals_url_token, live, verify_parts, verify_signed_url, deliver, download,
}

-- What a link needs of the encodings: the body of its payload is read back, is not empty and has no dot,
-- as base64url has none, and its signature is 32 hexadecimal digits.
pub record IsCodec (codec : TokenCodec) (p : SignedArtifact) : Type 0 where
  pub round : codec.decode (codec.encode p) ≡ some p
  pub nonempty : codec.encode p ≢ []
  pub no_dot : all (λ c. not (c == b'.')) (codec.encode p) ≡ true
  pub hex : is_hex32 (codec.sign (codec.encode p)) ≡ true

and-right : (a b : Bool) → (a && b) ≡ true → b ≡ true
and-right true b h = h
and-right false b h = cc h

same_bytes_refl : (s : List ℕ) → same_bytes s s ≡ true
same_bytes_refl [] = refl
same_bytes_refl (c ∷ cs) = ground (arith, same_bytes_refl cs)

split_dot-none : (s : List ℕ) → all (λ c. not (c == b'.')) s ≡ true → split_dot s ≡ none
split_dot-none [] h = refl
split_dot-none (c ∷ cs) h = ground (arith, split_dot-none cs)

hex-no_dot : (s : List ℕ) → all is_hex s ≡ true → all (λ c. not (c == b'.')) s ≡ true
hex-no_dot [] h = refl
hex-no_dot (c ∷ cs) h = ground (arith, hex-no_dot cs)

split_dot-concat :
    (body sig : List ℕ) → split_dot sig ≡ none → split_dot (body ++ b'.' ∷ sig) ≡ some (body, sig)
split_dot-concat [] sig h = rw h refl
split_dot-concat (c ∷ cs) sig h = rw (split_dot-concat cs sig h) refl

split_dot-some :
    (token body sig : List ℕ) → split_dot token ≡ some (body, sig) → token ≡ body ++ b'.' ∷ sig
split_dot-some [] body sig h = cc h
split_dot-some (c ∷ cs) body sig h = elim (Option-cases (split_dot cs)) [
  | inl e ↦ ground (arith, h, e)
  | inr ((b, s), e) ↦ ground (arith, h, e, split_dot-some cs b s e)
]

module _ (codec : TokenCodec) where
  verify_parts-own :
      (now : ℕ) (body : List ℕ)
      → is_hex32 (codec.sign body) ≡ true
      → body ≢ []
      → verify_parts codec now body (codec.sign body) ≡ live now (codec.decode body)
  unfolding verify_parts safe_equals_url_token
  verify_parts-own now [] x h = absurd (h refl)
  verify_parts-own now (x ∷ xs) hex h =
      let same : (length (codec.sign (x ∷ xs)) == length (codec.sign (x ∷ xs))) ≡ true =
        ground arith in
      rw (same, hex, same_bytes_refl (codec.sign (x ∷ xs)), verify_parts) refl

  verify-token_of :
      (now : ℕ) (p : SignedArtifact) (c : IsCodec codec p)
      → verify_signed_url codec now (token_of codec p) ≡ live now (some p)
  unfolding verify_signed_url
  verify-token_of now p c =
      let sig : List ℕ = codec.sign (codec.encode p) in
      let plain : split_dot sig ≡ none =
        split_dot-none sig (hex-no_dot sig (and-right (length sig == 32) (all is_hex sig) c.hex)) in
      rw (split_dot-concat (codec.encode p) sig plain, verify_signed_url)
        (verify_parts-own now (codec.encode p) c.hex c.nonempty ∙ ap (live now) c.round)

  -- What a link that is accepted carries: the signature of its body, and a payload that lives.
  pub record IsSigned (now : ℕ) (token : List ℕ) (p : SignedArtifact) : Type 0 where
    pub body : List ℕ
    pub sig : List ℕ
    pub parts : token ≡ body ++ b'.' ∷ sig
    pub signature : safe_equals_url_token sig (codec.sign body) ≡ true
    pub payload : codec.decode body ≡ some p
    pub alive : now < p.exp * 1000

  live-ok :
      (now : ℕ) (o : Option SignedArtifact) (p : SignedArtifact)
      → live now o ≡ ok p
      → (o ≡ some p) × (now < p.exp * 1000)
  live-ok now none p h = cc h
  live-ok now (some q) p h =
      let (before, same) = guard-ok (ltb now (q.exp * 1000)) expired (ok q) p h in
      subst (λ (x : SignedArtifact). (some q ≡ some x) × (now < x.exp * 1000)) (ok-inj same)
        (refl, ground (arith, before))

  verify_parts-ok :
      (now : ℕ) (body sig : List ℕ) (p : SignedArtifact)
      → verify_parts codec now body sig ≡ ok p
      → (safe_equals_url_token sig (codec.sign body) ≡ true) × (live now (codec.decode body) ≡ ok p)
  unfolding verify_parts
  verify_parts-ok now [] sig p h = cc h
  verify_parts-ok now (c ∷ cs) sig p h =
      let (tests, rest) =
        guard-ok
          ((length sig == length (codec.sign (c ∷ cs)))
            && safe_equals_url_token sig (codec.sign (c ∷ cs)))
          bad_token (live now (codec.decode (c ∷ cs))) p h in
      (
        and-right (length sig == length (codec.sign (c ∷ cs)))
            (safe_equals_url_token sig (codec.sign (c ∷ cs))) tests,
        rest,
      )

  -- A link is accepted only with the signature of its body, before it expires, and stands for what its
  -- body says.
  pub verify_signed_url-IsSigned :
      (now : ℕ) (token : List ℕ) (p : SignedArtifact)
      → verify_signed_url codec now token ≡ ok p
      → IsSigned now token p
  unfolding verify_signed_url
  verify_signed_url-IsSigned now token p h = elim (Option-cases (split_dot token)) [
    | inl e ↦ cc (subst (λ o. verify_split codec now o ≡ ok p) e h)
    | inr ((body, sig), e) ↦
        let (signature, rest) =
          verify_parts-ok now body sig p (subst (λ o. verify_split codec now o ≡ ok p) e h) in
        let (payload, alive) = live-ok now (codec.decode body) p rest in
        record {
          body = body;
          sig = sig;
          parts = split_dot-some token body sig e;
          signature = signature;
          payload = payload;
          alive = alive;
        }
  ]

  module _ {Profile Pdf : Type 0} (profile_of : ℕ → Option Profile)
      (generate : StoredDte → Option Profile → Pdf) where
    -- A link that was created at `now`, with encodings that `IsCodec` describes, delivers to whoever holds
    -- it, for five minutes counted from the second of its creation, the document and the kind that it was
    -- created for, as the tenant it was created for would get it, and afterwards nothing.
    pub download-create_signed_url :
        (now later : ℕ) (tenant_id dte_id : String) (kind : ArtifactKind)
        (docs docs' : List StoredDte) (token : List ℕ)
        → IsCodec codec (payload_for now tenant_id dte_id kind)
        → create_signed_url codec now tenant_id dte_id kind docs ≡ ok token
        → download profile_of generate codec later token docs' ≡ (
            if ltb later ((now / 1000 + 300) * 1000)
            then deliver profile_of generate kind tenant_id dte_id docs'
            else err expired)
    unfolding create_signed_url download
    download-create_signed_url now later tenant_id dte_id kind docs docs' token c h =
        let (d, own, made) = bind-ok (own_document tenant_id dte_id docs) _ token h in
        let p : SignedArtifact = payload_for now tenant_id dte_id kind in
        subst
          (λ t. download profile_of generate codec later t docs' ≡ (
            if ltb later ((now / 1000 + 300) * 1000)
            then deliver profile_of generate kind tenant_id dte_id docs'
            else err expired))
          (ok-inj made)
          (rw (verify-token_of later p c, download)
            (elim (Bool-cases (ltb later ((now / 1000 + 300) * 1000))) [
              | inl e ↦ rw e refl
              | inr e ↦ rw e refl
            ]))
