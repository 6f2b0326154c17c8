-- ===== src/OsTrust/Examples.antt =====
-- The properties at the policy, the release and the tools of Sample.
use epilykos_os.Base.{
  ℕ, String, ◌≡◌, refl, ◌≤◌, ◌<◌, ◌⊎◌, inl, inr, Bool, true, false, ◌++◌, if◌then◌else◌, Option,
  none, some, List, [], ◌∷◌, Text, codes, same_codes, length, to_int, Result, ok, err, arith,
}
use epilykos_os.Json.{
  Json, int, str, array, object, Elements, empty, element, Members, end, member, field, number_of,
  text_of, is_str, is_unique,
}
use epilykos_os.OsTrust.{
  Fault, os_error, Tools, ed25519_spki, strict_json, verify_os_release, admissible, Trust, Board,
  keyring_pem, keyring_state, keyring_main,
}
use epilykos_os.OsTrust.Canonical.{strict_json-same}
use epilykos_os.OsTrust.Offered.{IsSigned, admissible-IsSigned}
use epilykos_os.OsTrust.Sample.{signature, policy_of, entry, platform, tools}

strict_json-same_example : codes "entry" ≡ codes "entry"
unfolding strict_json is_unique field
strict_json-same_example =
    strict_json-same tools (codes "entry") (codes "entry") 100 200 entry refl refl

is_verified : verify_os_release tools (codes "entry") signature platform (policy_of 2) ≡ ok entry
unfolding verify_os_release strict_json is_unique field epilykos_os.OsTrust.integer
    epilykos_os.OsTrust.text epilykos_os.OsTrust.check_description
    epilykos_os.OsTrust.check_authorized epilykos_os.OsTrust.key_of epilykos_os.OsTrust.b64
    epilykos_os.OsTrust.ed25519_verify
is_verified = refl

is_admissible : admissible entry platform 5 ≡ ok entry
unfolding admissible field
is_admissible = refl

admissible-IsSigned_example :
    IsSigned tools (codes "entry") signature entry (policy_of 2)
    × (number_of (field "trust_epoch" (policy_of 2)) ≡ number_of (field "trust_epoch" entry))
    × (is_str (text_of (field "channel" (policy_of 2))) (field "channel" entry) ≡ true)
    × (is_str (text_of (field "channel" platform)) (field "channel" entry) ≡ true)
    × (5 < number_of (field "sequence" entry))
    × (number_of (field "os_sequence" platform) < number_of (field "sequence" entry))
admissible-IsSigned_example =
    admissible-IsSigned tools (codes "entry") signature platform (policy_of 2) entry entry 5
      is_verified is_admissible
