-- ===== src/Tests/Artifacts.antt =====
-- A link to a document of one tenant, used in time and too late.
use cmorflow_tax_api.Common.{
  ◌≡◌, List, ℕ, Option, refl, ok, err, none, some, codes, [], ◌∷◌, if◌then◌else◌, same_codes,
}
use cmorflow_tax_api.Artifact.{
  SignedArtifact, StoredDte, TokenCodec, expired, xml_file, xml, payload_for, own_document,
  create_signed_url, verify_signed_url, verify_parts, safe_equals_url_token, deliver, download,
  get_xml,
}
use cmorflow_tax_api.Artifact.Links.{
  IsCodec, IsSigned, verify_signed_url-IsSigned, download-create_signed_url,
}

abbrev signed_link : SignedArtifact
signed_link = payload_for 1700 "t1" "d1" xml

-- One payload alone is known.
abbrev codec : TokenCodec
codec = record {
  encode = λ p. codes "eyJk";
  decode = λ body. if same_codes body (codes "eyJk") then some signed_link else none;
  sign = λ body. codes "0123456789abcdef0123456789ABCDEF";
}

signed_link-IsCodec : IsCodec codec signed_link
signed_link-IsCodec = record { round = refl; nonempty = λ h. cc h; no_dot = refl; hex = refl }

abbrev docs : List StoredDte
docs =
    record { id = "d1"; tenant_id = "t1"; xml_content = codes "<DTE/>"; brand_profile_id = none }
    ∷ []

abbrev token : List ℕ
token = codes "eyJk.0123456789abcdef0123456789ABCDEF"

created : create_signed_url codec 1700 "t1" "d1" xml docs ≡ ok token
unfolding create_signed_url own_document
created = refl

abbrev no_profile : ℕ → Option ℕ
no_profile id = none

abbrev no_pdf : StoredDte → Option ℕ → ℕ
no_pdf d p = 0

download-create_signed_url_example :
    download no_profile no_pdf codec 300999 token docs
    ≡ deliver no_profile no_pdf xml "t1" "d1" docs
download-create_signed_url_example =
    download-create_signed_url codec no_profile no_pdf 1700 300999 "t1" "d1" xml docs docs token
      signed_link-IsCodec created

verified : verify_signed_url codec 300999 token ≡ ok signed_link
unfolding verify_signed_url verify_parts safe_equals_url_token
verified = refl

verify_signed_url-IsSigned_example : IsSigned codec 300999 token signed_link
verify_signed_url-IsSigned_example =
    verify_signed_url-IsSigned codec 300999 token signed_link verified

delivered : download no_profile no_pdf codec 300999 token docs ≡ ok (xml_file (codes "<DTE/>"))
unfolding download verify_signed_url verify_parts safe_equals_url_token deliver get_xml own_document
delivered = refl

too_late : download no_profile no_pdf codec 301000 token docs ≡ err expired
unfolding download verify_signed_url verify_parts safe_equals_url_token deliver get_xml own_document
too_late = refl
