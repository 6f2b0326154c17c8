-- ===== src/OsBundle/Authorized.antt =====
-- What a bundle is whose check returns an image.
use epilykos_os.OsBundle.Agreed.{Agrees}
use epilykos_os.Base.{
  ◌⊎◌, ◌++◌, length, Each, IsDigit, IsBetween, List, ◌∷◌, ◌≤◌, ◌<◌, ◌≡◌, Option, some, Text,
}
use epilykos_os.Json.{Json, text_of, str, int, field, listed}
use epilykos_os.OsTrust.Bundle.{Bundle}
use epilykos_os.OsTrust.{Tools, Sections}
use epilykos_os.OsBundle.{SlotImage, slot_bytes, image_sha256, image_size}

-- The text is that of a value of the list.
abbrev pub Lists : Text → List Json → Type 0
Lists t vs =
    (before : List Json) × ((v : Json) × ((after : List Json) × (vs ≡ before ++ (v ∷ after))
        × (text_of v ≡ t)))

-- 64 digits and letters from a to f.
abbrev pub IsDigest : Text → Type 0
IsDigest t = (length t ≡ 64) × Each (λ c. IsDigit c ⊎ IsBetween b'a' b'f' c) t

-- The bytes are those that the entry authorizes, a listed key signed this manifest, the manifest
-- agrees with the entry, and the image is the one that it describes.
pub record IsAuthorized (w : Tools) (bundle : Bundle) (entry policy : Json) (image : SlotImage)
    : Type 0 where
  pub signed : Text × Text
  pub parser : Sections
  pub exact :
      (field "size" (field "bundle" entry) ≡ int bundle.size)
      × (field "sha256" (field "bundle" entry) ≡ str bundle.sha256)
  pub by_listed :
      (bundle.signed ≡ some signed) × Lists signed.1 (listed (field "rauc_leaf_spki_sha256" policy))
  pub manifest : (w.read_manifest signed.0 ≡ some parser) × Agrees parser entry
  pub described : (image_size parser ≡ some image.size) × (image.sha256 ≡ image_sha256 parser)
  pub fits : (0 < image.size) × (image.size ≤ slot_bytes) × IsDigest image.sha256
