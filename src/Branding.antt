-- ===== src/Branding.antt =====
-- src/infrastructure/framework/sii/invoice-branding.service.ts: the versions of a tenant's visual identity.
-- The table holds the rows of every tenant, with the unique index on tenant and version; between a read
-- and an insertion other administrators may insert. sharp, base64, SHA-256 and the contrast of a colour, a
-- computation on doubles, are parameters. The audit entry is best effort and left out.
pub mod Versions
pub mod Accepted
use cmorflow_tax_api.Common.{
  ◌++◌, ◌%◌, zero, max, all, ◌||◌, ◌>>◌, ◌+◌, suc, not, ltb, length, leb, if◌then◌else◌, [], ◌∷◌,
  ◌>>=◌, ◌==◌, ◌&&◌, true, str_eq, some, same_codes, ok, map, is_digit, guard, false, err, codes,
  any, ℕ, none, String, Result, Option, List, Bool,
}
use cmorflow_tax_api.Xml.{trim}
use cmorflow_tax_api.Client.{upper}

pub data MimeType : Type 0 where
  png jpeg other_mime : MimeType

pub record Logo : Type 0 where
  pub data_bytes : List ℕ
  pub sha256 : List ℕ

-- InvoiceBrandProfileEntity; a logo is always a PNG.
pub record Profile : Type 0 where
  pub id : ℕ
  pub tenant_id : String
  pub version : ℕ
  pub logo : Option Logo
  pub primary_color : List ℕ
  pub secondary_color : List ℕ
  pub created_by_credential_id : Option ℕ

-- What a new version is to hold.
pub record Look : Type 0 where
  pub logo : Option Logo
  pub primary_color : List ℕ
  pub secondary_color : List ℕ
  pub created_by_credential_id : Option ℕ

pub data BrandingError : Type 0 where
  bad_color low_contrast bad_mime bad_base64 bad_size not_an_image mime_mismatch many_pages :
      BrandingError
  not_normalized too_large version_conflict failed_insert failed_activation : BrandingError

unfoldable pub is_of : String → Profile → Bool
is_of tenant_id p = str_eq p.tenant_id tenant_id

unfoldable pub has_version : String → ℕ → Profile → Bool
unfolding is_of
has_version tenant_id version p = is_of tenant_id p && (p.version == version)

-- `existing.reduce((highest, profile) => Math.max(highest, profile.version), 0)`
unfoldable pub highest : String → List Profile → ℕ
unfolding is_of
highest tenant_id [] = 0
highest tenant_id (p ∷ ps) =
    let rest = highest tenant_id ps in if is_of tenant_id p then max p.version rest else rest

-- One attempt: the rows that others insert between its read and its insertion, whether the insertion
-- fails for another reason, and the id that the database gives.
pub record Round : Type 0 where
  pub others : List Profile
  pub fails : Bool
  pub new_id : ℕ

abbrev pub new_profile : String → ℕ → Look → ℕ → Profile
new_profile tenant_id version look id = record {
  id = id;
  tenant_id = tenant_id;
  version = version;
  logo = look.logo;
  primary_color = look.primary_color;
  secondary_color = look.secondary_color;
  created_by_credential_id = look.created_by_credential_id;
}

abbrev pub Created : Type 0
Created = Result BrandingError Profile × List Profile

-- The insertion of a version, and `retry` where the index refuses it.
unfoldable pub insert_version :
    String → Look → Round → ℕ → List Profile → (List Profile → Created) → Created
unfolding has_version
insert_version tenant_id look round version rows retry =
    elim (any (has_version tenant_id version) rows) [
      | true ↦ retry rows
      | false ↦
          if round.fails
          then (err failed_insert, rows)
          else let p = new_profile tenant_id version look round.new_id in (ok p, rows ++ p ∷ [])
    ]

-- `createNextVersion` with the attempts that are left: the rounds say what happens in each. The last one
-- throws the conflict.
unfoldable pub create_next_version : String → Look → List Round → List Profile → Created
unfolding insert_version highest
create_next_version tenant_id look [] rows = (err version_conflict, rows)
create_next_version tenant_id look (round ∷ rounds) rows =
    insert_version tenant_id look round (highest tenant_id rows + 1) (rows ++ round.others)
      (create_next_version tenant_id look rounds)

-- The three attempts, and whether `setActiveBrandProfileId` then saves the configuration.
pub record Rounds : Type 0 where
  pub first : Round
  pub second : Round
  pub third : Round
  pub activates : Bool

abbrev pub attempts : Rounds → List Round
attempts r = r.first ∷ r.second ∷ r.third ∷ []

abbrev pub is_hex : ℕ → Bool
is_hex c = is_digit c || (leb b'a' c && leb c b'f') || (leb b'A' c && leb c b'F')

-- `HEX_COLOR`
abbrev pub is_hex_color : List ℕ → Bool
is_hex_color [] = false
is_hex_color (c ∷ cs) = (c == b'#') && (length cs == 6) && all is_hex cs

abbrev pub max_logo_input_bytes : ℕ
max_logo_input_bytes = 716800

abbrev pub max_logo_output_bytes : ℕ
max_logo_output_bytes = 524288

-- `4 * Math.ceil(MAX_LOGO_INPUT_BYTES / 3)`
abbrev pub max_logo_base64_length : ℕ
max_logo_base64_length = 955736

pub record Metadata : Type 0 where
  pub format : MimeType
  pub width : ℕ
  pub height : ℕ
  pub pages : ℕ

-- What the service takes from Node and from sharp. A colour has contrast where
-- `contrastRatio(color, '#FFFFFF') < 4.5` is false.
pub record Images : Type 0 where
  pub decode : List ℕ → List ℕ  -- `Buffer.from(base64, 'base64')`
  pub encode : List ℕ → List ℕ  -- `toString('base64')`
  pub metadata : List ℕ → Option Metadata
  pub normalize : List ℕ → Option (List ℕ)
  pub sha256 : List ℕ → List ℕ
  pub has_contrast : List ℕ → Bool

pub record LogoInput : Type 0 where
  pub mime_type : MimeType
  pub base64 : List ℕ

pub record Input : Type 0 where
  pub logo : Option LogoInput  -- `null` for none
  pub primary_color : List ℕ
  pub secondary_color : List ℕ

abbrev pub mime_rank : MimeType → ℕ
mime_rank png = 0
mime_rank jpeg = 1
mime_rank other_mime = 2

abbrev pub is_mime : MimeType → MimeType → Bool
is_mime a b = mime_rank a == mime_rank b

abbrev pub is_base64_char : ℕ → Bool
is_base64_char c =
    is_digit c
    || (leb b'a' c && leb c b'z')
    || (leb b'A' c && leb c b'Z')
    || (c == b'+')
    || (c == b'/')

-- `{0,2}` signs at the end.
abbrev pub is_padding : ℕ → List ℕ → Bool
is_padding n [] = true
is_padding zero (c ∷ cs) = false
is_padding (suc n) (c ∷ cs) = (c == b'=') && is_padding n cs

-- `/^[A-Za-z0-9+/]*={0,2}$/`
abbrev pub is_base64 : List ℕ → Bool
is_base64 [] = true
is_base64 (c ∷ cs) = let rest = is_base64 cs in (is_base64_char c && rest) || is_padding 2 (c ∷ cs)

abbrev pub same_text : List ℕ → List ℕ → Bool
same_text = same_codes

module _ (images : Images) where
  unfoldable pub decode_base64 : List ℕ → Result BrandingError (List ℕ)
  decode_base64 value =
      let base64 = trim value in
      guard
        (ltb 0 (length base64)
          && leb (length base64) max_logo_base64_length
          && (length base64 % 4 == 0)
          && is_base64 base64)
        bad_base64
      >> (guard (same_text (images.encode (images.decode base64)) base64) bad_base64
          >> ok (images.decode base64))

  abbrev pub check_metadata : MimeType → Option Metadata → Result BrandingError (Unit {0})
  check_metadata declared none = err not_an_image
  check_metadata declared (some m) =
      guard
        (not (is_mime m.format other_mime)
          && (is_mime m.format declared && (not (m.width == 0) && not (m.height == 0))))
        mime_mismatch
      >> guard (leb m.pages 1) many_pages

  abbrev pub normalized : Option (List ℕ) → Result BrandingError Logo
  normalized none = err not_normalized
  normalized (some bytes) =
      guard (leb (length bytes) max_logo_output_bytes) too_large
      >> ok (record { data_bytes = bytes; sha256 = images.sha256 bytes })

  -- The decoded input.
  unfoldable pub normalize_raw : MimeType → List ℕ → Result BrandingError Logo
  normalize_raw declared raw =
      guard (ltb 0 (length raw) && leb (length raw) max_logo_input_bytes) bad_size
      >> (check_metadata declared (images.metadata raw) >> normalized (images.normalize raw))

  unfoldable pub normalize_logo : LogoInput → Result BrandingError Logo
  unfolding decode_base64 normalize_raw
  normalize_logo input =
      guard (not (is_mime input.mime_type other_mime)) bad_mime
      >> (decode_base64 input.base64 >>= normalize_raw input.mime_type)

  abbrev pub color_of : List ℕ → List ℕ
  color_of value = map upper (trim value)

  unfoldable pub normalize_primary : List ℕ → Result BrandingError (List ℕ)
  normalize_primary value =
      guard (is_hex_color (trim value)) bad_color
      >> (guard (images.has_contrast (color_of value)) low_contrast >> ok (color_of value))

  unfoldable pub normalize_secondary : List ℕ → Result BrandingError (List ℕ)
  normalize_secondary value = guard (is_hex_color (trim value)) bad_color >> ok (color_of value)

  abbrev pub normalize_input_logo : Option LogoInput → Result BrandingError (Option Logo)
  normalize_input_logo none = ok none
  normalize_input_logo (some input) = normalize_logo input >>= λ logo. ok (some logo)

  unfoldable pub look_of : Input → Option ℕ → Result BrandingError Look
  unfolding normalize_primary normalize_secondary normalize_logo
  look_of input credential_id = normalize_primary input.primary_color >>= λ primary.
      normalize_secondary input.secondary_color >>= λ secondary.
      normalize_input_logo input.logo >>= λ logo. ok (record {
        logo = logo;
        primary_color = primary;
        secondary_color = secondary;
        created_by_credential_id = credential_id;
      })

-- The table, and the id of the active profile in the tenant's configuration.
pub record Brands : Type 0 where
  pub rows : List Profile
  pub active : Option ℕ

-- `setActiveBrandProfileId` for a profile of the table, whose id the database gave, so that the check of
-- its form passes: it saves the id, or throws and leaves the configuration.
abbrev pub set_active : Bool → Brands → Profile → Result BrandingError Profile × Brands
set_active true b p = (ok p, record b { active = some p.id })
set_active false b p = (err failed_activation, b)

abbrev pub activate : Bool → Brands → Created → Result BrandingError Profile × Brands
activate works b (err e, rows) = (err e, record b { rows = rows })
activate works b (ok p, rows) = set_active works (record b { rows = rows }) p

abbrev pub update_with :
    String → Rounds → Brands → Result BrandingError Look → Result BrandingError Profile × Brands
update_with tenant_id rounds b (err e) = (err e, b)
update_with tenant_id rounds b (ok look) =
    activate rounds.activates b (create_next_version tenant_id look (attempts rounds) b.rows)

unfoldable pub update :
    Images → String → Input → Option ℕ → Rounds → Brands → Result BrandingError Profile × Brands
unfolding look_of create_next_version
update images tenant_id input credential_id rounds b =
    update_with tenant_id rounds b (look_of images input credential_id)

-- The first of the highest version, as the stable sort puts it first.
unfoldable pub latest : String → List Profile → Option Profile
unfolding is_of
latest tenant_id [] = none
latest tenant_id (p ∷ ps) =
    let rest = latest tenant_id ps in
    if is_of tenant_id p
    then elim rest [ none ↦ some p | some q ↦ if ltb p.version q.version then some q else some p ]
    else rest

abbrev pub neutral : Look
neutral = record {
  logo = none;
  primary_color = codes "#36536B";
  secondary_color = codes "#64748B";
  created_by_credential_id = none;
}

abbrev pub ensured :
    String → Rounds → Brands → Option Profile → Result BrandingError Profile × Brands
ensured tenant_id rounds b none =
    activate rounds.activates b (create_next_version tenant_id neutral (attempts rounds) b.rows)
ensured tenant_id rounds b (some p) = set_active rounds.activates b p

abbrev pub ensured_id : Result BrandingError Profile × Brands → Result BrandingError ℕ × Brands
ensured_id (ok p, b) = (ok p.id, b)
ensured_id (err e, b) = (err e, b)

-- `ensureActiveBrandProfileIdForEmission`
unfoldable pub ensure_active : String → Rounds → Brands → Option ℕ → Result BrandingError ℕ × Brands
unfolding latest create_next_version
ensure_active tenant_id rounds b (some id) = (ok id, b)
ensure_active tenant_id rounds b none =
    ensured_id (ensured tenant_id rounds b (latest tenant_id b.rows))
