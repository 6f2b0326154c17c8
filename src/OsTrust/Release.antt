-- ===== src/OsTrust/Release.antt =====
-- The signed entry of one package, whether it is offered, and the bundle that it authorizes.
use epilykos_os.Base.{
  ℕ, String, Bool, true, false, not, ◌||◌, leb, ltb, if◌then◌else◌, Option, none, some, List, [],
  ◌∷◌, Text, codes, after_prefix, Result, ok, err, refuse, or_raise, ◌>>◌, ◌>>=◌,
}
use epilykos_os.Json.{
  Json, field, has_fields, is_int, is_str, listed, matches, text_of, number_of, is_hex_of,
}
use epilykos_os.OsTrust.Scalars.{
  Fault, trust_error, value_error, Tools, entry_max, bundle_max, integer, text, strict_json, b64,
  ed25519_verify, raw_public_pem,
}

abbrev pub entry_fields : List String
entry_fields =
    "schema" ∷ "board" ∷ "channel" ∷ "sequence" ∷ "trust_epoch" ∷ "index_key_id" ∷ "version"
    ∷ "boot_protocol" ∷ "min_host_api" ∷ "bundle" ∷ "notes_url" ∷ []

-- `{key["key_id"]: key["public_key"] for key in index_keys}`, the key of an identifier.
unfoldable pub key_of : Text → List Json → Option Json
key_of id [] = none
key_of id (key ∷ keys) =
    let rest = key_of id keys in
    elim rest [
      | some k ↦ some k
      | none ↦ if is_str id (field "key_id" key) then some (field "public_key" key) else none
    ]

abbrev pub is_https : Text → Bool
is_https url = elim (after_prefix (codes "https://") url) [ none ↦ false | some _ ↦ true ]

-- `a == b` where b is known to be a string.
abbrev pub same_str : Json → Json → Bool
same_str a b = is_str (text_of b) a

-- An `except ValueError` that says another sentence; an OSError goes through.
abbrev pub as_trust_error : {A : Type 0} → String → Result Fault A → Result Fault A
as_trust_error message (ok a) = ok a
as_trust_error message (err (trust_error e)) = err (trust_error message)
as_trust_error message (err (value_error e)) = err (trust_error message)
as_trust_error message (err e) = err e

-- The same that leaves a TrustError as it is.
abbrev pub or_malformed : {A : Type 0} → Result Fault A → Result Fault A
or_malformed (err (value_error e)) = err (trust_error "OS release authorization is malformed")
or_malformed r = r

module _ (w : Tools) where
  -- The part of the check that is about the bundle's description.
  unfoldable pub check_description : Json → Text → Result Fault (Unit {0})
  check_description bundle notes =
      refuse (not (has_fields ("url" ∷ "size" ∷ "sha256" ∷ []) bundle))
        (trust_error "OS release bundle schema")
      >> text (field "url" bundle) 512
      >>= λ url.
          refuse (not (is_https url) || not (is_https notes))
            (trust_error "OS release links must use HTTPS")
          >> integer (field "size" bundle) 1
          >>= λ size.
              refuse (not (leb 1 size) || not (leb size bundle_max))
                (trust_error "OS release bundle size")
              >> refuse (not (matches (is_hex_of 64) (field "sha256" bundle)))
                  (trust_error "OS release bundle hash")

  -- The key that the policy lists under the identifier of the entry.
  abbrev pub listed_key : Json → Json → Option Json
  listed_key entry policy =
      if matches (λ _. true) (field "index_key_id" entry)
      then key_of (text_of (field "index_key_id" entry)) (listed (field "index_keys" policy))
      else none

  abbrev pub verify_with : Text → Text → Text → Result Fault (Unit {0})
  verify_with entry_bytes signature raw =
      ed25519_verify w (raw_public_pem w raw) entry_bytes signature

  unfoldable pub require_signed_by : Text → Text → Json → Result Fault (Unit {0})
  require_signed_by entry_bytes signature key =
      as_trust_error "OS release signature does not verify"
        (b64 w key 32 >>= verify_with entry_bytes signature)

  unfoldable pub check_authorized : Text → Text → Json → Json → Result Fault (Unit {0})
  unfolding require_signed_by
  check_authorized entry_bytes signature entry policy =
      or_raise (trust_error "OS release signed by a key the trust policy does not list")
        (listed_key entry policy)
      >>= require_signed_by entry_bytes signature

  -- From the epoch on.
  unfoldable pub check_terms : Text → Text → Json → Json → ℕ → Result Fault Json
  check_terms entry_bytes signature policy entry epoch =
      refuse (not (is_int epoch (field "trust_epoch" policy)))
        (trust_error "OS release was authorized under a different trust epoch")
      >> text (field "version" entry) 64
      >> (text (field "notes_url" entry) 512 >>= check_description (field "bundle" entry))
      >> check_authorized entry_bytes signature entry policy
      >> ok entry

  -- From the host that it needs on.
  unfoldable pub check_host : Text → Text → Json → Json → Json → ℕ → Result Fault Json
  unfolding check_terms
  check_host entry_bytes signature platform policy entry min_host_api =
      refuse (ltb (number_of (field "host_api" platform)) min_host_api)
        (trust_error "OS release needs a newer host")
      >> integer (field "trust_epoch" entry) 1
      >>= check_terms entry_bytes signature policy entry

  unfoldable pub check_entry : Text → Text → Json → Json → Json → Result Fault Json
  unfolding check_host
  check_entry entry_bytes signature platform policy entry =
      refuse (not (has_fields entry_fields entry) || not (is_int 1 (field "schema" entry)))
        (trust_error "unsupported OS release entry")
      >> refuse
          (not (same_str (field "board" entry) (field "board" platform))
            || not (same_str (field "channel" entry) (field "channel" platform)))
          (trust_error "OS release is for another board or channel")
      >> refuse
          (not (same_str (field "board" entry) (field "board" policy))
            || not (same_str (field "channel" entry) (field "channel" policy)))
          (trust_error "OS release does not match the trust policy")
      >> integer (field "sequence" entry) 1
      >> refuse (not (is_int 2 (field "boot_protocol" entry)))
          (trust_error "OS release needs a different boot protocol")
      >> integer (field "min_host_api" entry) 1
      >>= check_host entry_bytes signature platform policy entry

  -- `_verify_os_release`
  unfoldable pub verify_entry : Text → Text → Json → Json → Result Fault Json
  unfolding check_entry
  verify_entry entry_bytes signature platform policy =
      strict_json w entry_bytes entry_max >>= check_entry entry_bytes signature platform policy

  unfoldable pub verify_os_release : Text → Text → Json → Json → Result Fault Json
  unfolding verify_entry
  verify_os_release entry_bytes signature platform policy =
      or_malformed (verify_entry entry_bytes signature platform policy)

unfoldable pub admissible : Json → Json → ℕ → Result Fault Json
admissible entry platform floor =
    refuse
      (leb (number_of (field "sequence" entry)) floor
        || leb (number_of (field "sequence" entry)) (number_of (field "os_sequence" platform)))
      (trust_error "OS release is not newer than this box's system")
    >> ok entry
