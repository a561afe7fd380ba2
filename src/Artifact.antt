-- ===== src/Artifact.antt =====
-- src/application/integrations/integration-artifacts.service.ts and the endpoint of
-- src/controllers/artifacts.controller.ts: links to a document's XML or PDF that are signed and expire. The
-- JSON in base64url and the HMAC are Node's, and parameters; times are milliseconds, an expiry is in
-- seconds.
pub mod Links
use cmorflow_tax_api.Common.{
  ◌*◌, [], ◌>>◌, ltb, if◌then◌else◌, all, ◌==◌, str_eq, some, ok, guard, ◌∷◌, ◌>>=◌, ◌+◌, ◌&&◌,
  none, length, find, err, ◌/◌, ◌++◌, Result, Option, Bool, ℕ, String, List, same_bytes,
}
use cmorflow_tax_api.Branding.{is_hex}

pub data ArtifactKind : Type 0 where
  xml pdf : ArtifactKind

pub record SignedArtifact : Type 0 where
  pub dte_id : String
  pub kind : ArtifactKind
  pub tenant_id : String
  pub exp : ℕ

-- A document, as far as it is delivered, and the profile that it names.
pub record StoredDte : Type 0 where
  pub id : String
  pub tenant_id : String
  pub xml_content : List ℕ
  pub brand_profile_id : Option ℕ

pub data ArtifactError : Type 0 where
  not_found bad_token expired lost_profile : ArtifactError

-- The payload as the body of a token, what a body holds (`none` where it is no JSON), and
-- `signUrlToken` under the process's secret.
pub record TokenCodec : Type 0 where
  pub encode : SignedArtifact → List ℕ
  pub decode : List ℕ → Option SignedArtifact
  pub sign : List ℕ → List ℕ

abbrev pub url_ttl_seconds : ℕ
url_ttl_seconds = 300

-- `dteDocument.get`, and the test of the tenant.
unfoldable pub own_document : String → String → List StoredDte → Result ArtifactError StoredDte
own_document tenant_id dte_id docs = elim (find (λ d. str_eq (StoredDte.id d) dte_id) docs) [
  | none ↦ err not_found
  | some d ↦ guard (str_eq d.tenant_id tenant_id) not_found >> ok d
]

abbrev pub payload_for : ℕ → String → String → ArtifactKind → SignedArtifact
payload_for now tenant_id dte_id kind = record {
  dte_id = dte_id;
  kind = kind;
  tenant_id = tenant_id;
  exp = now / 1000 + url_ttl_seconds;
}

abbrev pub token_of : TokenCodec → SignedArtifact → List ℕ
token_of codec payload = let body = codec.encode payload in body ++ b'.' ∷ codec.sign body

unfoldable pub create_signed_url :
    TokenCodec → ℕ → String → String → ArtifactKind → List StoredDte → Result ArtifactError (List ℕ)
unfolding own_document
create_signed_url codec now tenant_id dte_id kind docs = own_document tenant_id dte_id docs >>= λ d.
    ok (token_of codec (payload_for now tenant_id dte_id kind))

-- `lastIndexOf('.')` and the two slices.
abbrev pub split_dot : List ℕ → Option (List ℕ × List ℕ)
split_dot [] = none
split_dot (c ∷ cs) = elim (split_dot cs) [
  | some (body, sig) ↦ some (c ∷ body, sig)
  | none ↦ if c == b'.' then some ([], cs) else none
]

abbrev pub is_hex32 : List ℕ → Bool
is_hex32 s = (length s == 32) && all is_hex s

-- `safeEqualsUrlToken`
unfoldable pub safe_equals_url_token : List ℕ → List ℕ → Bool
safe_equals_url_token a b = is_hex32 a && is_hex32 b && same_bytes a b

abbrev pub live : ℕ → Option SignedArtifact → Result ArtifactError SignedArtifact
live now none = err bad_token
live now (some payload) = guard (ltb now (payload.exp * 1000)) expired >> ok payload

unfoldable pub verify_parts : TokenCodec → ℕ → List ℕ → List ℕ → Result ArtifactError SignedArtifact
unfolding safe_equals_url_token
verify_parts codec now [] sig = err bad_token
verify_parts codec now (c ∷ cs) sig =
    guard
      ((length sig == length (codec.sign (c ∷ cs)))
        && safe_equals_url_token sig (codec.sign (c ∷ cs)))
      bad_token
    >> live now (codec.decode (c ∷ cs))

abbrev pub verify_split :
    TokenCodec → ℕ → Option (List ℕ × List ℕ) → Result ArtifactError SignedArtifact
verify_split codec now none = err bad_token
verify_split codec now (some (body, sig)) = verify_parts codec now body sig

unfoldable pub verify_signed_url : TokenCodec → ℕ → List ℕ → Result ArtifactError SignedArtifact
unfolding verify_parts
verify_signed_url codec now token = verify_split codec now (split_dot token)

unfoldable pub get_xml : String → String → List StoredDte → Result ArtifactError (List ℕ)
unfolding own_document
get_xml tenant_id dte_id docs = own_document tenant_id dte_id docs >>= λ d. ok d.xml_content

-- A PDF of a document, from it and the profile it names; the profiles that can be read are given by id.
unfoldable pub get_pdf :
    {Profile Pdf : Type 0}
    → (ℕ → Option Profile)
    → (StoredDte → Option Profile → Pdf)
    → String
    → String
    → List StoredDte
    → Result ArtifactError Pdf
unfolding own_document
get_pdf profile_of generate tenant_id dte_id docs = own_document tenant_id dte_id docs >>= λ d.
    elim d.brand_profile_id [
      | none ↦ ok (generate d none)
      | some id ↦ elim (profile_of id) [
        | none ↦ err lost_profile
        | some p ↦ ok (generate d (some p))
      ]
    ]

pub data Delivered (Pdf : Type 0) : Type 0 where
  xml_file : List ℕ → Delivered Pdf
  pdf_file : Pdf → Delivered Pdf

module _ {Profile Pdf : Type 0} (profile_of : ℕ → Option Profile)
    (generate : StoredDte → Option Profile → Pdf) where
  unfoldable pub deliver :
      ArtifactKind → String → String → List StoredDte → Result ArtifactError (Delivered Pdf)
  unfolding get_xml get_pdf
  deliver xml tenant_id dte_id docs = get_xml tenant_id dte_id docs >>= λ text. ok (xml_file text)
  deliver pdf tenant_id dte_id docs =
      get_pdf profile_of generate tenant_id dte_id docs >>= λ file. ok (pdf_file file)

  -- The endpoint: the tenant, the document and the kind are the token's.
  unfoldable pub download :
      TokenCodec → ℕ → List ℕ → List StoredDte → Result ArtifactError (Delivered Pdf)
  unfolding verify_signed_url deliver
  download codec now token docs = verify_signed_url codec now token >>= λ payload.
      deliver payload.kind payload.tenant_id payload.dte_id docs
