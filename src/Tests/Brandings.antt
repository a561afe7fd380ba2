-- ===== src/Tests/Brandings.antt =====
-- A change of the visual identity that meets another administrator's.
use cmorflow_tax_api.Common.{
  ◌≡◌, List, ℕ, String, Result, refl, ok, err, none, some, true, false, codes, [], ◌∷◌,
}
use cmorflow_tax_api.Branding.{
  Images, png, Profile, Look, Input, Round, Rounds, Brands, BrandingError, attempts, look_of,
  update, normalize_primary, normalize_secondary, normalize_logo, decode_base64, normalize_raw,
  create_next_version, insert_version, highest, is_of, has_version, ensure_active, latest,
}
use cmorflow_tax_api.Branding.Versions.{
  AreUnique, AreIndexed, IsUpdated, update-IsUpdated, update-succeeds,
}
use cmorflow_tax_api.Branding.Accepted.{IsLook, look_of-IsLook}

abbrev images : Images
images = record {
  decode = λ s. s;
  encode = λ s. s;
  metadata = λ s. some (record { format = png; width = 2; height = 2; pages = 1 });
  normalize = λ s. some s;
  sha256 = λ s. [];
  has_contrast = λ s. true;
}

abbrev input : Input
input = record {
  logo = some (record { mime_type = png; base64 = codes "aWNv" });
  primary_color = codes " #36536b";
  secondary_color = codes "#64748B";
}

abbrev look : Look
look = record {
  logo = some (record { data_bytes = codes "aWNv"; sha256 = [] });
  primary_color = codes "#36536B";
  secondary_color = codes "#64748B";
  created_by_credential_id = some 3;
}

abbrev version_of : String → ℕ → ℕ → Profile
version_of tenant_id version id = record {
  id = id;
  tenant_id = tenant_id;
  version = version;
  logo = none;
  primary_color = codes "#000000";
  secondary_color = codes "#000000";
  created_by_credential_id = none;
}

abbrev brands : Brands
brands = record { rows = version_of "t1" 1 10 ∷ version_of "t2" 1 11 ∷ []; active = some 10 }

abbrev quiet : ℕ → Round
quiet id = record { others = []; fails = false; new_id = id }

-- In the first attempt another administrator takes version 2.
abbrev rounds : Rounds
rounds = record {
  first = record { others = version_of "t1" 2 12 ∷ []; fails = false; new_id = 13 };
  second = quiet 14;
  third = quiet 15;
  activates = true;
}

accepted_input : look_of images input (some 3) ≡ ok look
unfolding look_of normalize_primary normalize_secondary normalize_logo decode_base64 normalize_raw
accepted_input = refl

look_of-IsLook_example : IsLook images look
look_of-IsLook_example = look_of-IsLook images input (some 3) look accepted_input

rows-AreUnique : AreUnique brands.rows
unfolding has_version is_of
rows-AreUnique = (refl, (refl, tt))

rounds-AreIndexed : AreIndexed (attempts rounds) brands.rows
unfolding has_version is_of
rounds-AreIndexed =
    ((refl, (refl, (refl, tt))), ((refl, (refl, (refl, tt))), ((refl, (refl, (refl, tt))), tt)))

update-IsUpdated_example : IsUpdated "t1" brands (update images "t1" input (some 3) rounds brands)
update-IsUpdated_example =
    update-IsUpdated images "t1" input (some 3) rounds brands rows-AreUnique rounds-AreIndexed

update-succeeds_example :
    (p : Profile) × ((update images "t1" input (some 3) rounds brands).0 ≡ ok p)
update-succeeds_example =
    update-succeeds images "t1" input (some 3) rounds brands look accepted_input refl refl refl refl
      refl

abbrev version_and_id : Result BrandingError Profile → List ℕ
version_and_id (ok p) = p.version ∷ p.id ∷ []
version_and_id (err e) = []

third_version : version_and_id ((update images "t1" input (some 3) rounds brands).0) ≡ 3 ∷ 14 ∷ []
unfolding update look_of normalize_primary normalize_secondary normalize_logo decode_base64
    normalize_raw create_next_version insert_version highest is_of has_version
third_version = refl

-- Without an active profile, the latest version of the tenant becomes it.
latest_activated : (ensure_active "t1" rounds (record brands { active = none }) none).0 ≡ ok 10
unfolding ensure_active latest is_of
latest_activated = refl

abbrev failed : Rounds
failed = record rounds { activates = false }

-- A configuration that is not saved leaves the new version without effect.
not_activated : (update images "t1" input (some 3) failed brands).1.active ≡ some 10
unfolding update look_of normalize_primary normalize_secondary normalize_logo decode_base64
    normalize_raw create_next_version insert_version highest is_of has_version
not_activated = refl
