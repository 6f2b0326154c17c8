-- ===== src/Publishing/Gate.antt =====
-- What the two gates let through, written out, and that a refusal names what is missing.
use epilykos_os.Base.{
  and_iff, or_iff, String, ◌≡◌, refl, ◌⊎◌, ◌↔◌, Bool, true, false, ◌&&◌, ◌||◌, List, [], ◌∷◌,
  same_text, same_text_iff, codes,
}
use epilykos_os.Publishing.Texts.{
  IsSha256, is_sha256_iff, IsNumber, is_number_iff, IsVersionTag, is_version_ref_iff,
}
use epilykos_os.Publishing.{
  is_version_ref, all_hold, failing, ImageContext, image_conditions, decide_image, OsContext,
  authorized_source, os_conditions, decide_os,
}

last_iff : {P : Type 0} (b : Bool) → (b ≡ true) ↔ P → ((b && true) ≡ true) ↔ P
last_iff true p = p
last_iff false p = p

-- A gate is open just when nothing is named as missing.
failing-all_hold : (cs : List (String × Bool)) → (all_hold cs ≡ true) ↔ (failing cs ≡ [])
failing-all_hold [] = (λ _. refl, λ _. refl)
failing-all_hold ((name, true) ∷ cs) = failing-all_hold cs
failing-all_hold ((name, false) ∷ cs) = (λ h. cc, λ h. cc)

-- A push or a run by hand.
abbrev pub IsRun : String → Type 0
IsRun event = (event ≡ "push") ⊎ (event ≡ "workflow_dispatch")

IsRun-iff :
    (event : String)
    → ((same_text event "push" || same_text event "workflow_dispatch") ≡ true) ↔ IsRun event
IsRun-iff event = or_iff _ _ (same_text_iff event "push") (same_text_iff event "workflow_dispatch")

-- A release made by hand, of a version tag.
abbrev pub IsTagRelease : String → String → Type 0
IsTagRelease event ref = (event ≡ "release") × IsVersionTag (codes ref)

IsTagRelease-iff :
    (event ref : String)
    → ((same_text event "release" && is_version_ref ref) ≡ true) ↔ IsTagRelease event ref
IsTagRelease-iff event ref = and_iff _ _ (same_text_iff event "release") (is_version_ref_iff ref)

-- An image that may be released.
abbrev pub IsReleasable : ImageContext → Type 0
IsReleasable c =
    (c.validation ≡ "success")
    × ((c.build ≡ "success")
        × ((c.artifact ≡ "true")
            × (IsSha256 (codes c.image_sha256)
                × ((c.channel ≡ "stable")
                    × ((c.source_on_main ≡ "true")
                        × (((IsRun c.event × (c.ref ≡ "refs/heads/main"))
                              ⊎ IsTagRelease c.event c.ref)
                            × (((c.new_version ≡ "true") ⊎ (c.event ≡ "release"))
                                × ((c.image_from_run ≡ "")
                                    × (((c.boot_protocol ≡ "") ⊎ (c.boot_protocol ≡ "1"))
                                        ⊎ ((c.boot_protocol ≡ "2")
                                            × (c.os_publish ≡ "true")))))))))))

-- The image workflow publishes just the builds of the stable channel that passed their validation
-- and their build, whose image was uploaded and its hash recorded, from a source on main, that are no
-- retest, that are a new version or an explicit release, and that ran on main or for a version tag;
-- and one of boot protocol 2 only if its update package may be published too. It publishes just
-- when it names no condition as blocking.
pub decide_image_lem :
    (c : ImageContext)
    → (((decide_image c).publish ≡ true) ↔ IsReleasable c)
      × (((decide_image c).publish ≡ true) ↔ ((decide_image c).blocking ≡ []))
unfolding decide_image
decide_image_lem c = (
  and_iff _ _ (same_text_iff c.validation "success") (
      and_iff _ _ (same_text_iff c.build "success") (
        and_iff _ _ (same_text_iff c.artifact "true") (
          and_iff _ _ (is_sha256_iff (codes c.image_sha256)) (
            and_iff _ _ (same_text_iff c.channel "stable") (
              and_iff _ _ (same_text_iff c.source_on_main "true") (
                and_iff _ _
                  (or_iff _ _
                    (and_iff _ _ (IsRun-iff c.event) (same_text_iff c.ref "refs/heads/main"))
                    (IsTagRelease-iff c.event c.ref))
                  (and_iff _ _
                    (or_iff _ _ (same_text_iff c.new_version "true")
                      (same_text_iff c.event "release"))
                    (and_iff _ _ (same_text_iff c.image_from_run "") (
                      last_iff _ (
                        or_iff _ _
                          (or_iff _ _ (same_text_iff c.boot_protocol "")
                            (same_text_iff c.boot_protocol "1"))
                          (and_iff _ _ (same_text_iff c.boot_protocol "2")
                            (same_text_iff c.os_publish "true")))))))))))),
  failing-all_hold (image_conditions c),
)

-- A package that may be published.
abbrev pub IsPublishable : OsContext → Type 0
IsPublishable c =
    (c.boot_protocol ≡ "2")
    × ((c.trust_label ≡ "maintainer-trust")
        × ((((c.channel ≡ "stable")
                × ((IsRun c.event × ((c.ref ≡ "refs/heads/main") × (c.source_on_main ≡ "true")))
                    ⊎ IsTagRelease c.event c.ref))
              ⊎ ((c.channel ≡ "dev")
                  × ((c.event ≡ "workflow_dispatch") × (c.ref ≡ "refs/heads/dev"))))
            × ((c.build ≡ "success")
                × ((c.rootfs_uploaded ≡ "true")
                    × (IsNumber 18 (codes c.sequence)
                        × ((c.publication_enabled ≡ "true") × (c.image_from_run ≡ "")))))))

-- An OS update package is published just for a protocol-2 build with the maintainer's trust that
-- passed, whose root file system was uploaded, that has a sequence, that is no retest, once
-- publication is enabled, and from an authorized source: for the stable channel a run of main whose
-- source is on main or a release of a version tag, for the dev channel a run by hand of dev. It is
-- published just when no condition is named as blocking.
pub decide_os_lem :
    (c : OsContext)
    → (((decide_os c).publish ≡ true) ↔ IsPublishable c)
      × (((decide_os c).publish ≡ true) ↔ ((decide_os c).blocking ≡ []))
unfolding decide_os
decide_os_lem c = (
  and_iff _ _ (same_text_iff c.boot_protocol "2") (
      and_iff _ _ (same_text_iff c.trust_label "maintainer-trust") (
        and_iff _ _ (authorized_iff c) (
          and_iff _ _ (same_text_iff c.build "success") (
            and_iff _ _ (same_text_iff c.rootfs_uploaded "true") (
              and_iff _ _ (is_number_iff 18 (codes c.sequence)) (
                and_iff _ _ (same_text_iff c.publication_enabled "true")
                  (last_iff _ (same_text_iff c.image_from_run "")))))))),
  failing-all_hold (os_conditions c),
)
  where
    authorized_iff :
        (c : OsContext)
        → (authorized_source c ≡ true) ↔ (
            ((c.channel ≡ "stable")
              × ((IsRun c.event × ((c.ref ≡ "refs/heads/main") × (c.source_on_main ≡ "true")))
                  ⊎ IsTagRelease c.event c.ref))
            ⊎ ((c.channel ≡ "dev")
                × ((c.event ≡ "workflow_dispatch") × (c.ref ≡ "refs/heads/dev"))))
    authorized_iff c =
        or_iff _ _
          (and_iff _ _ (same_text_iff c.channel "stable") (
            or_iff _ _
              (and_iff _ _ (IsRun-iff c.event) (
                and_iff _ _ (same_text_iff c.ref "refs/heads/main")
                  (same_text_iff c.source_on_main "true")))
              (IsTagRelease-iff c.event c.ref)))
          (and_iff _ _ (same_text_iff c.channel "dev") (
            and_iff _ _ (same_text_iff c.event "workflow_dispatch")
              (same_text_iff c.ref "refs/heads/dev")))
