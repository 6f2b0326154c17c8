-- ===== src/OsOffer/Examples.antt =====
-- A release that the server publishes with a newer policy.
use epilykos_os.Base.{◌≡◌, refl, ◌<◌, true, false, some, codes, ok}
use epilykos_os.Json.{field, number_of}
use epilykos_os.OsTrust.{verify_os_release}
use epilykos_os.OsTrust.Sample.{tools, root_pem, platform, policy_of, entry, signature, before}
use epilykos_os.OsOffer.{Published, Offer, verify_release}
use epilykos_os.OsOffer.Verified.{verify_release-Verifies}

abbrev files : Published
files = record {
  entry = codes "entry";
  entry_sig = signature;
  policy = codes "policy";
  policy_sig = signature;
}

abbrev offer : Offer
offer = record { entry = entry; policy = policy_of 2; is_newer = true }

is_offered : verify_release tools files platform before (some root_pem) ≡ ok offer
unfolding verify_release verify_os_release epilykos_os.OsTrust.verify_policy
    epilykos_os.OsTrust.strict_json epilykos_os.Json.is_unique field epilykos_os.OsTrust.integer
    epilykos_os.OsTrust.text epilykos_os.OsTrust.check_description
    epilykos_os.OsTrust.check_authorized epilykos_os.OsTrust.key_of epilykos_os.OsTrust.b64
    epilykos_os.OsTrust.ed25519_verify epilykos_os.OsTrust.check_signed
    epilykos_os.OsTrust.require_ed25519 epilykos_os.OsTrust.require_signature
    epilykos_os.OsTrust.check_keys epilykos_os.OsTrust.check_cas epilykos_os.OsTrust.check_epoch
    epilykos_os.OsTrust.authorize epilykos_os.OsTrust.check_policy epilykos_os.Json.find
is_offered = refl

verify_release-Verifies_example :
    (verify_os_release tools (codes "entry") signature platform (policy_of 2) ≡ ok entry)
    × (tools.accepts root_pem (codes "policy") signature ≡ true)
    × (true ≡ false → codes "policy" ≡ codes "old")
    × (true ≡ true → before.trust_epoch < number_of (field "trust_epoch" (policy_of 2)))
verify_release-Verifies_example =
    verify_release-Verifies tools files platform before root_pem offer is_offered
