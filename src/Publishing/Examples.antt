-- ===== src/Publishing/Examples.antt =====
-- The gates on one build of main, and on the same build as a retest.
use epilykos_os.Base.{◌≡◌, refl, ◌↔◌, true, [], ◌∷◌}
use epilykos_os.Publishing.{ImageContext, decide_image, OsContext, decide_os}
use epilykos_os.Base.{false, some, codes, ok, err}
use epilykos_os.Json.{boolean}
use epilykos_os.OsTrust.{value_error}
use epilykos_os.OsTrust.Sample.{tools}
use epilykos_os.Publishing.Sequence.{next_sequence, check_sequence, is_used}
use epilykos_os.Publishing.Gate.{IsReleasable, decide_image_lem, IsPublishable, decide_os_lem}

abbrev main_build : ImageContext
main_build = record {
  validation = "success";
  build = "success";
  artifact = "true";
  channel = "stable";
  event = "push";
  ref = "refs/heads/main";
  new_version = "true";
  source_on_main = "true";
  image_from_run = "";
  image_sha256 = "0123456789abcdef0123456789abcdef0123456789abcdef0123456789abcdef";
  boot_protocol = "1";
  os_publish = "false";
}

abbrev main_package : OsContext
main_package = record {
  channel = "stable";
  ref = "refs/tags/v1.20";
  event = "release";
  source_on_main = "true";
  boot_protocol = "2";
  trust_label = "maintainer-trust";
  build = "success";
  rootfs_uploaded = "true";
  sequence = "17";
  publication_enabled = "true";
  image_from_run = "";
}

decide_image_lem_example :
    (((decide_image main_build).publish ≡ true) ↔ IsReleasable main_build)
    × (((decide_image main_build).publish ≡ true) ↔ ((decide_image main_build).blocking ≡ []))
decide_image_lem_example = decide_image_lem main_build

decide_os_lem_example :
    (((decide_os main_package).publish ≡ true) ↔ IsPublishable main_package)
    × (((decide_os main_package).publish ≡ true) ↔ ((decide_os main_package).blocking ≡ []))
decide_os_lem_example = decide_os_lem main_package

main_build_published :
    ((decide_image main_build).publish ≡ true)
    × ((decide_image (record main_build { image_from_run = "12" })).blocking
        ≡ ("not_a_retest" ∷ []))
unfolding decide_image
main_build_published = (refl, refl)

main_package_published :
    ((decide_os main_package).publish ≡ true)
    × ((decide_os (record main_package { ref = "refs/tags/v1." })).blocking
        ≡ ("authorized_source_for_channel" ∷ []))
unfolding decide_os
main_package_published = (refl, refl)

-- The published pointer is the release of sequence 9: the next sequence is 10, which the check lets
-- pass, and 9 is refused.
sequence_proposed :
    (next_sequence tools (some (codes "entry")) (codes "stable") ≡ ok 10)
    × (check_sequence tools (λ _ _. false) (some (codes "entry")) (codes "stable") 10 ≡ ok tt)
    × (check_sequence tools (λ _ _. false) (some (codes "entry")) (codes "stable") 9
        ≡ err (value_error "the sequence is not above the published pointer"))
unfolding next_sequence check_sequence epilykos_os.OsTrust.strict_json epilykos_os.Json.is_unique
    epilykos_os.Json.field epilykos_os.OsTrust.integer
sequence_proposed = (refl, refl, refl)

-- A pointer whose sequence is True counts as 1.
boolean_used : is_used tools (λ _ _. false) 1 (boolean true) ≡ ok true
boolean_used = refl
