-- ===== src/OsBundle.antt =====
-- epilykos_os_update.py: `verify_bundle`, the last check of a download before RAUC sees it. The
-- checks of the trust module are those of OsTrust; a Python int may also be written with underscores,
-- which counts as no number here.
pub mod Agreed
pub mod Authorized
pub mod Sample
mod Examples
use epilykos_os.Base.{
  ℕ, ◌*◌, Bool, true, false, not, ◌&&◌, ◌||◌, ◌==◌, leb, ltb, if◌then◌else◌, Option, none, some,
  List, [], ◌∷◌, length, Text, codes, get, strip, is_digit, is_digits, to_int, all_chars, Result,
  ok, err, refuse, or_raise, caught, ◌>>=◌, ◌>>◌,
}
use epilykos_os.Json.{Json}
use epilykos_os.OsTrust.Bundle.{Bundle}
use epilykos_os.OsTrust.{Fault, Tools, Sections, check_bundle, check_manifest}

-- What `job['image']` records.
pub record SlotImage : Type 0 where
  pub size : ℕ
  pub sha256 : Text

-- A TrustError or another exception of the trust module, a ValueError of `int`, the OsUpdateError, or
-- a keyring that can not be written or removed.
pub data BundleError : Type 0 where
  distrusted : Fault → BundleError
  no_number no_fit keyring_failed : BundleError

-- trust.SLOT_BYTES
abbrev pub slot_bytes : ℕ
slot_bytes = 1536 * (1024 * 1024)

abbrev pub natural : Text → Option ℕ
natural s = if is_digits s then some (to_int s) else none

-- `int` of a text; below zero counts as zero, which fits no better.
abbrev pub int_of : Text → Option ℕ
int_of [] = none
int_of (c ∷ s) =
    if c == b'+'
    then natural s
    else (if c == b'-' then (if is_digits s then some 0 else none) else natural (c ∷ s))

-- `re.fullmatch('[0-9a-f]{64}', text)`
abbrev pub is_digest : Text → Bool
is_digest s = length s == 64 && all_chars (λ c. is_digit c || (leb b'a' c && leb c b'f')) s

abbrev pub text_or : Text → Option Text → Text
text_or other none = other
text_or other (some t) = t

abbrev pub pairs_of : Option (List (Text × Text)) → List (Text × Text)
pairs_of none = []
pairs_of (some pairs) = pairs

-- The image's section of the manifest.
abbrev pub image_pairs : Sections → List (Text × Text)
image_pairs parser = pairs_of (get (codes "image.rootfs") parser)

abbrev pub image_sha256 : Sections → Text
image_sha256 parser = text_or [] (get (codes "sha256") (image_pairs parser))

unfoldable pub image_size : Sections → Option ℕ
unfolding strip
image_size parser = int_of (strip (text_or (codes "0") (get (codes "size") (image_pairs parser))))

-- The identity of the image, if it fits a slot.
unfoldable pub fitting : Sections → ℕ → Result BundleError SlotImage
fitting parser size =
    refuse (not (ltb 0 size && leb size slot_bytes)) no_fit
    >> (refuse (not (is_digest (image_sha256 parser))) no_fit
        >> ok (record { size = size; sha256 = image_sha256 parser }))

unfoldable pub image_of : Json → Sections → Result BundleError SlotImage
unfolding image_size fitting
image_of entry parser =
    caught distrusted (check_manifest parser entry)
    >> (or_raise no_number (image_size parser) >>= fitting parser)

module _ (w : Tools) where
  -- `bundle_signer`: the manifest that the bundle's signature covers.
  unfoldable pub signed_manifest : Bundle → Result BundleError Sections
  signed_manifest bundle =
      or_raise (distrusted (Fault.trust_error "bundle signature does not verify")) bundle.signed
      >>= λ signed.
          or_raise (distrusted (Fault.trust_error "bundle manifest is malformed"))
            (w.read_manifest signed.0)

  -- With what happens to the keyring file.
  unfoldable pub verify_bundle : Bool → Bool → Bundle → Json → Json → Result BundleError SlotImage
  unfolding signed_manifest image_of
  verify_bundle write_fails remove_fails bundle entry policy =
      refuse write_fails keyring_failed
      >> (caught distrusted (check_bundle w bundle entry policy)
          >> (signed_manifest bundle >>= λ parser.
              refuse remove_fails keyring_failed >> image_of entry parser))
