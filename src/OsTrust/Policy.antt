-- ===== src/OsTrust/Policy.antt =====
-- The policy that the offline root signs, and the platform that a slot was built as. A member that
-- is asked for is there: the set of members is checked first.
use epilykos_os.Base.{
  ℕ, String, Bool, true, false, not, ◌&&◌, ◌||◌, ◌==◌, leb, ltb, if◌then◌else◌, Option, none, some,
  List, [], ◌∷◌, Text, codes, same_codes, is_empty, is_digit, after_prefix, occurrences, length,
  all_chars, Result, ok, refuse, ◌>>◌, ◌>>=◌,
}
use epilykos_os.Json.{
  Json, int, field, has_fields, is_int, is_str, is_array, listed, matches, text_of, is_hex_of,
}
use epilykos_os.OsTrust.Scalars.{
  Fault, value_error, Tools, policy_max, integer, text, contains, strict_json, b64, require_ed25519,
  require_signature,
}

-- [A-Za-z0-9]
abbrev pub is_alphanumeric : ℕ → Bool
is_alphanumeric c = is_digit c || (leb b'A' c && leb c b'Z') || (leb b'a' c && leb c b'z')

-- [A-Za-z0-9+/=\n]
abbrev pub is_base64 : ℕ → Bool
is_base64 c = is_alphanumeric c || c == b'+' || c == b'/' || c == b'=' || c == 10

-- One or more base64 characters and then the ending; a hyphen stands in none of them, so the first
-- one starts the ending.
abbrev pub is_body : Text → Bool → Text → Bool
is_body ending seen [] = false
is_body ending seen (c ∷ s) =
    let rest = is_body ending true s in
    if is_base64 c then rest else seen && same_codes (c ∷ s) ending

abbrev pub is_pem : String → String → Text → Bool
is_pem start ending s = elim (after_prefix (codes start) s) [
  | none ↦ false
  | some body ↦ is_framed (codes ending) body
]
  where
    is_framed : Text → Text → Bool
    is_framed ending body = is_body ending false body

abbrev pub is_public_pem : Text → Bool
is_public_pem = is_pem "-----BEGIN PUBLIC KEY-----\n" "-----END PUBLIC KEY-----\n"

abbrev pub is_certificate_pem : Text → Bool
is_certificate_pem = is_pem "-----BEGIN CERTIFICATE-----\n" "-----END CERTIFICATE-----\n"

-- [A-Za-z0-9][A-Za-z0-9._-]{0,63}
abbrev pub is_key_id : Text → Bool
is_key_id [] = false
is_key_id (c ∷ s) =
    is_alphanumeric c
    && (leb (length s) 63
        && all_chars (λ d. is_alphanumeric d || d == b'.' || d == b'_' || d == b'-') s)

abbrev pub is_in : Text → List Text → Bool
is_in t [] = false
is_in t (s ∷ ss) = same_codes s t || is_in t ss

-- `len(set(texts)) == len(texts)`
abbrev pub is_distinct : List Text → Bool
is_distinct [] = true
is_distinct (t ∷ ts) = not (is_in t ts) && is_distinct ts

abbrev pub all_strings : (Text → Bool) → List Json → Bool
all_strings p [] = true
all_strings p (v ∷ vs) = matches p v && all_strings p vs

abbrev pub texts : List Json → List Text
texts [] = []
texts (v ∷ vs) = text_of v ∷ texts vs

-- `type(value) is list and lo <= len(value) <= hi`
abbrev pub has_length : ℕ → ℕ → Json → Bool
has_length lo hi v = is_array v && (leb lo (length (listed v)) && leb (length (listed v)) hi)

-- What was verified before: its exact bytes and its epoch.
pub record Current : Type 0 where
  pub raw : Text
  pub trust_epoch : ℕ

abbrev pub is_channel : Text → Bool
is_channel c = same_codes c (codes "dev") || same_codes c (codes "stable")

abbrev pub policy_fields : List String
policy_fields =
    "schema" ∷ "board" ∷ "channel" ∷ "trust_epoch" ∷ "index_keys" ∷ "rauc_cas"
    ∷ "rauc_leaf_spki_sha256" ∷ []

module _ (w : Tools) where
  -- The loop over the index keys, with the identifiers and keys that it has seen.
  unfoldable pub check_keys : List Json → List Text → List Text → Result Fault (Unit {0})
  check_keys [] ids public_keys = ok tt
  check_keys (key ∷ keys) ids public_keys =
      refuse (not (has_fields ("key_id" ∷ "public_key" ∷ []) key)) (value_error "index key schema")
      >> refuse (not (matches is_key_id (field "key_id" key))) (value_error "index key identifier")
      >> b64 w (field "public_key" key) 32
      >>= λ public.
          refuse (is_in (text_of (field "key_id" key)) ids || is_in public public_keys)
            (value_error "duplicate delegated key")
          >> check_keys keys (text_of (field "key_id" key) ∷ ids) (public ∷ public_keys)

  abbrev pub is_ca : Option Text → Bool
  is_ca none = false
  is_ca (some constraints) = contains (codes "CA:TRUE") constraints

  abbrev pub is_once : String → Text → Bool
  is_once line certificate = occurrences (codes line) 0 certificate == 1

  -- The loop over the certificates.
  unfoldable pub check_cas : List Json → Result Fault (Unit {0})
  check_cas [] = ok tt
  check_cas (certificate ∷ cas) =
      refuse
        (not (is_once "-----BEGIN CERTIFICATE-----" (text_of certificate))
          || not (is_once "-----END CERTIFICATE-----" (text_of certificate)))
        (value_error "expected one CA PEM certificate")
      >> refuse (not (is_certificate_pem (text_of certificate)))
          (value_error "invalid certificate PEM")
      >> refuse (not (is_ca (w.constraints_of (text_of certificate))))
          (value_error "RAUC trust anchor is not a CA")
      >> check_cas cas

  unfoldable pub check_signed : Text → Text → Text → Result Fault (Unit {0})
  check_signed raw signature root_pubkey =
      refuse (not (length signature == 64))
        (value_error "Ed25519 signature must contain exactly 64 bytes")
      >> refuse
          (is_empty root_pubkey
            || not (leb (length root_pubkey) 256)
            || not (is_public_pem root_pubkey))
          (value_error "expected pinned public PEM key")
      >> require_ed25519 w root_pubkey "offline root must be Ed25519"
      >> require_signature w root_pubkey raw signature

  abbrev pub check_members : Json → Result Fault (Unit {0})
  check_members policy =
      refuse (not (has_length 1 8 (field "index_keys" policy))) (value_error "index key count")
      >> check_keys (listed (field "index_keys" policy)) [] []
      >> refuse
          (not (has_length 1 4 (field "rauc_cas" policy))
            || not (all_strings (λ _. true) (listed (field "rauc_cas" policy)))
            || not (is_distinct (texts (listed (field "rauc_cas" policy)))))
          (value_error "RAUC CA count/duplicates")
      >> check_cas (listed (field "rauc_cas" policy))
      >> refuse
          (not (has_length 1 16 (field "rauc_leaf_spki_sha256" policy))
            || not (all_strings (is_hex_of 64) (listed (field "rauc_leaf_spki_sha256" policy)))
            || not (is_distinct (texts (listed (field "rauc_leaf_spki_sha256" policy)))))
          (value_error "RAUC leaf SPKI allowlist")

  -- Neither an older epoch nor another policy of the same.
  unfoldable pub check_epoch : Option Current → ℕ → Text → Result Fault (Unit {0})
  check_epoch none epoch raw = ok tt
  check_epoch (some current) epoch raw = integer (int current.trust_epoch) 1 >>= λ before.
      refuse (ltb epoch before || (epoch == before && not (same_codes raw current.raw)))
        (value_error "policy rollback or same-epoch mutation")

  -- With the epoch of the policy known: its signature, its keys and CAs, and the current policy.
  unfoldable pub authorize : Text → Text → Text → Option Current → Json → ℕ → Result Fault Json
  authorize raw signature root_pubkey current policy epoch =
      check_signed raw signature root_pubkey
      >> check_members policy
      >> check_epoch current epoch raw
      >> ok policy

  unfoldable pub check_policy :
      Text → Text → Text → Text → Text → Option Current → Json → Result Fault Json
  unfolding authorize
  check_policy raw signature root_pubkey board channel current policy =
      refuse (not (has_fields policy_fields policy) || not (is_int 1 (field "schema" policy)))
        (value_error "unsupported policy schema")
      >> refuse
          (not (same_codes board (codes "raspberrypi3"))
            || not (is_channel channel)
            || not (is_str board (field "board" policy))
            || not (is_str channel (field "channel" policy)))
          (value_error "policy board/channel mismatch")
      >> integer (field "trust_epoch" policy) 1
      >>= authorize raw signature root_pubkey current policy

  unfoldable pub verify_policy :
      Text → Text → Text → Text → Text → Option Current → Result Fault Json
  unfolding check_policy
  verify_policy raw signature root_pubkey board channel current =
      strict_json w raw policy_max >>= check_policy raw signature root_pubkey board channel current

abbrev pub platform_fields : List String
platform_fields =
    "schema" ∷ "board" ∷ "arch" ∷ "slot_layout" ∷ "boot_protocol" ∷ "channel" ∷ "os_version"
    ∷ "os_sequence" ∷ "source" ∷ "kernel" ∷ "host_api" ∷ "app_release" ∷ []

unfoldable pub validate_platform : Json → Result Fault Json
validate_platform platform =
    refuse (not (has_fields platform_fields platform)) (value_error "platform schema fields")
    >> refuse (not (is_int 1 (field "schema" platform))) (value_error "unsupported platform schema")
    >> refuse (not (is_str (codes "raspberrypi3") (field "board" platform)))
        (value_error "unsupported platform board")
    >> refuse (not (is_str (codes "arm64") (field "arch" platform)))
        (value_error "unsupported platform arch")
    >> refuse (not (is_str (codes "pi3-mbr-v1") (field "slot_layout" platform)))
        (value_error "unsupported platform slot_layout")
    >> refuse (not (is_int 2 (field "boot_protocol" platform)))
        (value_error "unsupported platform boot_protocol")
    >> refuse (not (matches is_channel (field "channel" platform))) (value_error "invalid channel")
    >> integer (field "os_sequence" platform) 1
    >> integer (field "host_api" platform) 2
    >> text (field "os_version" platform) 64
    >> text (field "kernel" platform) 128
    >> text (field "app_release" platform) 64
    >> refuse (not (matches (is_hex_of 40) (field "source" platform)))
        (value_error "source must be a full Git commit")
    >> ok platform
