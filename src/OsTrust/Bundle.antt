-- ===== src/OsTrust/Bundle.antt =====
-- A downloaded bundle: who signed it, and whether its own manifest says what its entry says.
use epilykos_os.Base.{
  ℕ, String, Bool, true, false, not, ◌||◌, Option, none, some, List, [], ◌∷◌, Text, codes,
  same_codes, after_prefix, get, decimal, Result, ok, refuse, or_raise, ◌>>◌, ◌>>=◌,
}
use epilykos_os.Json.{Json, str, int, negative, field, is_int, is_str, listed}
use epilykos_os.OsTrust.Scalars.{Fault, trust_error, Tools}
use epilykos_os.OsTrust.Policy.{is_in, texts}

-- A downloaded bundle as `file_identity` and `bundle_signer` read it: the size and hash of the file,
-- the text that its CMS signs and the key that signed, if the signature verifies.
pub record Bundle : Type 0 where
  pub size : ℕ
  pub sha256 : Text
  pub signed : Option (Text × Text)

abbrev pub Sections : Type 0
Sections = List (Text × List (Text × Text))

-- `parser.get(section, key, fallback="")` is the text.
abbrev pub says : Sections → String → String → Text
says parser section key = elim (get (codes section) parser) [
  | none ↦ []
  | some pairs ↦ or_empty (get (codes key) pairs)
]
  where
    or_empty : Option Text → Text
    or_empty none = []
    or_empty (some t) = t

abbrev pub image_sections : Sections → List Text
image_sections [] = []
image_sections ((name, pairs) ∷ ss) =
    let rest = image_sections ss in
    elim (after_prefix (codes "image.") name) [ none ↦ rest | some _ ↦ name ∷ rest ]

abbrev pub has_section : Sections → String → Bool
has_section parser name = elim (get (codes name) parser) [ none ↦ false | some _ ↦ true ]

abbrev pub has_option : Sections → String → String → Bool
has_option parser section key = elim (get (codes section) parser) [
  | none ↦ false
  | some pairs ↦ is_there (get (codes key) pairs)
]
  where
    is_there : Option Text → Bool
    is_there none = false
    is_there (some _) = true

-- META_FIELDS
abbrev pub meta_fields : List String
meta_fields =
    "board" ∷ "channel" ∷ "sequence" ∷ "boot_protocol" ∷ "min_host_api" ∷ "trust_epoch" ∷ []

abbrev pub is_rootfs_only : List Text → Bool
is_rootfs_only (name ∷ []) = same_codes name (codes "image.rootfs")
is_rootfs_only _ = false

-- `str(value)` of the strings and numbers of a verified entry.
abbrev pub shown : Json → Text
shown (str s) = s
shown (int n) = decimal n
shown (negative n) = b'-' ∷ decimal n
shown _ = []

unfoldable pub check_meta : Sections → Json → List String → Result Fault (Unit {0})
check_meta parser entry [] = ok tt
check_meta parser entry (key ∷ keys) =
    refuse (not (same_codes (says parser "meta.epilykos" key) (shown (field key entry))))
      (trust_error "bundle and its authorization disagree")
    >> check_meta parser entry keys

unfoldable pub check_manifest : Sections → Json → Result Fault (Unit {0})
check_manifest parser entry =
    refuse (not (same_codes (says parser "update" "compatible") (codes "epilykos-raspberrypi3")))
      (trust_error "bundle is for another system")
    >> refuse (not (same_codes (says parser "bundle" "format") (codes "verity")))
        (trust_error "only verity bundles are accepted")
    >> refuse
        (not (is_rootfs_only (image_sections parser))
          || has_section parser "hooks"
          || has_option parser "image.rootfs" "hooks"
          || has_option parser "image.rootfs" "adaptive")
        (trust_error "bundle must carry exactly one rootfs image and no hooks")
    >> refuse (has_section parser "handler") (trust_error "bundle must not carry a custom handler")
    >> check_meta parser entry meta_fields

-- The exact bytes, and what the signature covers with its key.
unfoldable pub check_bytes : Bundle → Json → Result Fault (Text × Text)
check_bytes bundle entry =
    refuse
      (not (is_int bundle.size (field "size" (field "bundle" entry)))
        || not (is_str bundle.sha256 (field "sha256" (field "bundle" entry))))
      (trust_error "downloaded package differs from its authorization")
    >> or_raise (trust_error "bundle signature does not verify against the trust policy's CAs")
        bundle.signed

-- A key that the policy lists, and the manifest that is signed.
unfoldable pub check_signer : Tools → Json → Text × Text → Result Fault Sections
check_signer w policy signed =
    refuse (not (is_in signed.1 (texts (listed (field "rauc_leaf_spki_sha256" policy)))))
      (trust_error "bundle signed by a signer the trust policy does not list")
    >> or_raise (trust_error "bundle manifest is malformed") (w.read_manifest signed.0)

unfoldable pub check_signed_by : Tools → Json → Json → Text × Text → Result Fault Text
unfolding check_signer
check_signed_by w entry policy signed =
    check_signer w policy signed >>= λ parser. check_manifest parser entry >> ok signed.1

unfoldable pub check_bundle : Tools → Bundle → Json → Json → Result Fault Text
unfolding check_bytes check_signed_by
check_bundle w bundle entry policy = check_bytes bundle entry >>= check_signed_by w entry policy
