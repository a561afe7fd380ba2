-- ===== src/Branding/Accepted.antt =====
-- What a look that is accepted holds.
use cmorflow_tax_api.Common.{
  ◌>>◌, ◌>>=◌, guard, leb, guard-ok, ◌==◌, ltb, subst, ok-inj, guard_iff, false, ◌≤◌, ◌&&◌,
  then_iff, map, bind-ok, ◌<◌, true, ok, not, length, all, ◌≡◌, Option, List, Bool, refl, [], ◌∷◌,
  ℕ, arith, none, some,
}
use cmorflow_tax_api.Branding.{
  max_logo_output_bytes, too_large, normalize_raw, MimeType, other_mime, Logo, Look, LogoInput,
  Input, Images, Metadata, is_hex, is_hex_color, is_mime, decode_base64, check_metadata, normalized,
  normalize_logo, normalize_primary, normalize_secondary, normalize_input_logo, look_of,
  max_logo_input_bytes, bad_mime, bad_size, mime_mismatch, many_pages,
}
use cmorflow_tax_api.Xml.{trim}
use cmorflow_tax_api.Client.{upper}

not-false : (a b : Bool) → (not a && b) ≡ true → a ≡ false
not-false true b h = cc h
not-false false b h = refl

length-map : (f : ℕ → ℕ) (s : List ℕ) → length (map f s) ≡ length s
length-map f [] = refl
length-map f (c ∷ cs) = omega (arith, length-map f cs)

hex-upper : (s : List ℕ) → all is_hex s ≡ true → all is_hex (map upper s) ≡ true
hex-upper [] h = refl
hex-upper (c ∷ cs) h = ground (arith, hex-upper cs)

is_hex_color-upper : (s : List ℕ) → is_hex_color s ≡ true → is_hex_color (map upper s) ≡ true
is_hex_color-upper [] h = cc h
is_hex_color-upper (c ∷ cs) h = ground (arith, length-map upper cs, hex-upper cs)

module _ (images : Images) where
  -- A stored logo: a small PNG that sharp made of an input of at most 700 KB whose content is a still PNG
  -- or JPEG image, as it declared.
  pub record IsLogo (logo : Logo) : Type 0 where
    pub raw : List ℕ
    pub metadata : Metadata
    pub input_size : (0 < length raw) × (length raw ≤ 716800)
    pub image : images.metadata raw ≡ some metadata
    pub still : (metadata.pages ≤ 1) × (is_mime metadata.format other_mime ≡ false)
    pub made : images.normalize raw ≡ some logo.data_bytes
    pub output_size : length logo.data_bytes ≤ 524288
    pub hash : logo.sha256 ≡ images.sha256 logo.data_bytes

  check_metadata-ok :
      (declared : MimeType) (o : Option Metadata)
      → check_metadata images declared o ≡ ok tt
      → (m : Metadata) × (o ≡ some m) × (m.pages ≤ 1) × (is_mime m.format other_mime ≡ false)
  check_metadata-ok declared none h = cc h
  check_metadata-ok declared (some m) h =
      let others : Bool =
        is_mime m.format declared && (not (m.width == 0) && not (m.height == 0)) in
      let (same, single) =
        guard-ok (not (is_mime m.format other_mime) && others) mime_mismatch
          (guard (leb m.pages 1) many_pages) tt h in
      (
        m,
        refl,
        ground (arith, (guard_iff (leb m.pages 1) many_pages).0 single),
        not-false (is_mime m.format other_mime) others same,
      )

  normalized-ok :
      (o : Option (List ℕ)) (logo : Logo)
      → normalized images o ≡ ok logo
      → (o ≡ some logo.data_bytes)
        × (length logo.data_bytes ≤ 524288)
        × (logo.sha256 ≡ images.sha256 logo.data_bytes)
  normalized-ok none logo h = cc h
  normalized-ok (some bytes) logo h =
      let (small, made) =
        (then_iff (guard (leb (length bytes) max_logo_output_bytes) too_large)
            (ok (record { data_bytes = bytes; sha256 = images.sha256 bytes })) logo).0
          h in
      let within : leb (length bytes) max_logo_output_bytes ≡ true =
        (guard_iff (leb (length bytes) max_logo_output_bytes) too_large).0 small in
      subst
        (λ (l : Logo).
          (some bytes ≡ some l.data_bytes)
          × (length l.data_bytes ≤ 524288)
          × (l.sha256 ≡ images.sha256 l.data_bytes))
        (ok-inj made) (refl, ground (arith, within), refl)

  normalize_raw-IsLogo :
      (declared : MimeType) (raw : List ℕ) (logo : Logo)
      → normalize_raw images declared raw ≡ ok logo
      → IsLogo logo
  unfolding normalize_raw
  normalize_raw-IsLogo declared raw logo h =
      let (size, rest) =
        guard-ok (ltb 0 (length raw) && leb (length raw) max_logo_input_bytes) bad_size
          (check_metadata images declared (images.metadata raw)
            >> normalized images (images.normalize raw))
          logo h in
      let (checked, made) =
        (then_iff (check_metadata images declared (images.metadata raw))
            (normalized images (images.normalize raw)) logo).0
          rest in
      let (m, image, single, format) = check_metadata-ok declared (images.metadata raw) checked in
      let (data_bytes, small, hash) = normalized-ok (images.normalize raw) logo made in
      record {
        raw = raw;
        metadata = m;
        input_size = (ground (arith, size), ground (arith, size));
        image = image;
        still = (single, format);
        made = data_bytes;
        output_size = small;
        hash = hash;
      }

  normalize_logo-IsLogo :
      (input : LogoInput) (logo : Logo) → normalize_logo images input ≡ ok logo → IsLogo logo
  unfolding normalize_logo
  normalize_logo-IsLogo input logo h =
      let (known, rest) =
        guard-ok (not (is_mime input.mime_type other_mime)) bad_mime
          (decode_base64 images input.base64 >>= normalize_raw images input.mime_type) logo h in
      let (raw, decoded, made) =
        bind-ok (decode_base64 images input.base64) (normalize_raw images input.mime_type) logo
          rest in
      normalize_raw-IsLogo input.mime_type raw logo made

  pub record IsLook (look : Look) : Type 0 where
    pub primary : is_hex_color look.primary_color ≡ true
    pub contrast : images.has_contrast look.primary_color ≡ true
    pub secondary : is_hex_color look.secondary_color ≡ true
    pub logo : (l : Logo) → look.logo ≡ some l → IsLogo l

  input_logo-IsLogo :
      (o : Option LogoInput) (r : Option Logo)
      → normalize_input_logo images o ≡ ok r
      → (l : Logo) → r ≡ some l
      → IsLogo l
  input_logo-IsLogo none r h l e = cc (h, e)
  input_logo-IsLogo (some input) r h l e =
      let (logo, made, same) = bind-ok (normalize_logo images input) _ r h in
      normalize_logo-IsLogo input l (cc (made, same, e))

  -- A look that is accepted has two colours of the form #RRGGBB, the primary one with contrast to white,
  -- and no logo or one that `IsLogo` describes.
  pub look_of-IsLook :
      (input : Input) (credential_id : Option ℕ) (look : Look)
      → look_of images input credential_id ≡ ok look
      → IsLook look
  unfolding look_of normalize_primary normalize_secondary
  look_of-IsLook input credential_id look h =
      let (primary, p, rest) = bind-ok (normalize_primary images input.primary_color) _ look h in
      let (secondary, s, rest) =
        bind-ok (normalize_secondary images input.secondary_color) _ look rest in
      let (logo, l, made) = bind-ok (normalize_input_logo images input.logo) _ look rest in
      let (hex, p2) = (then_iff _ _ primary).0 p in
      let (contrast, p3) = (then_iff _ _ primary).0 p2 in
      let (hex2, s2) = (then_iff _ _ secondary).0 s in
      subst IsLook (ok-inj made) (record {
        primary =
            subst (λ c. is_hex_color c ≡ true) (ok-inj p3)
              (is_hex_color-upper (trim input.primary_color) ((guard_iff _ _).0 hex));
        contrast =
            subst (λ c. images.has_contrast c ≡ true) (ok-inj p3) ((guard_iff _ _).0 contrast);
        secondary =
            subst (λ c. is_hex_color c ≡ true) (ok-inj s2)
              (is_hex_color-upper (trim input.secondary_color) ((guard_iff _ _).0 hex2));
        logo = λ x e. input_logo-IsLogo input.logo logo l x e;
      })
