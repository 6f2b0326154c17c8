-- ===== src/Publishing.antt =====
-- tools/image_release_policy.py and tools/os_release.py: which builds may be published. The inputs
-- are the texts that the workflow passes; an input that it does not pass is the empty text.
pub mod Texts
pub mod Gate
pub mod Sequence
mod Examples
use epilykos_os.Base.{
  ℕ, suc, String, Bool, true, false, ◌&&◌, ◌||◌, ◌==◌, not, if◌then◌else◌, List, [], ◌∷◌, leb,
  length, same_text, codes, is_digit, is_digits, all_chars,
}

-- The character classes of the patterns.
abbrev pub is_hex : ℕ → Bool
is_hex c = is_digit c || leb 97 c && leb c 102

-- [0-9a-f]{64}
abbrev pub is_sha256 : List ℕ → Bool
is_sha256 s = (length s == 64) && all_chars is_hex s

-- [1-9][0-9]{0,n}
abbrev pub is_number : ℕ → List ℕ → Bool
is_number n [] = false
is_number n (c ∷ s) = (leb 49 c && leb c 57) && (leb (length s) n && all_chars is_digit s)

-- [0-9]+\.[0-9]+, where `seen` tells whether there was a digit.
abbrev pub is_version : Bool → List ℕ → Bool
is_version seen [] = false
is_version seen (c ∷ s) =
    let rest = is_version true s in if is_digit c then rest else seen && (c == 46 && is_digits s)

-- refs/tags/v[0-9]+\.[0-9]+
abbrev pub is_tag_after : List ℕ → List ℕ → Bool
is_tag_after [] s = is_version false s
is_tag_after (p ∷ ps) [] = false
is_tag_after (p ∷ ps) (c ∷ s) = c == p && is_tag_after ps s

abbrev pub is_version_ref : String → Bool
is_version_ref ref = is_tag_after (codes "refs/tags/v") (codes ref)

-- The conditions of a gate, with their names.
abbrev pub all_hold : List (String × Bool) → Bool
all_hold [] = true
all_hold ((name, b) ∷ cs) = b && all_hold cs

abbrev pub failing : List (String × Bool) → List String
failing [] = []
failing ((name, b) ∷ cs) = let rest = failing cs in if b then rest else name ∷ rest

pub record ImageContext : Type 0 where
  pub validation : String
  pub build : String
  pub artifact : String
  pub channel : String
  pub event : String
  pub ref : String
  pub new_version : String
  pub source_on_main : String
  pub image_from_run : String
  pub image_sha256 : String
  pub boot_protocol : String
  pub os_publish : String

pub record ImageDecision : Type 0 where
  pub publish : Bool
  pub diagnose : Bool
  pub blocking : List String

-- `event in ('push', 'workflow_dispatch') and ref == 'refs/heads/main' or event == 'release' and ...`
abbrev pub authorized_event : String → String → Bool
authorized_event event ref =
    ((same_text event "push" || same_text event "workflow_dispatch")
      && same_text ref "refs/heads/main")
    || (same_text event "release" && is_version_ref ref)

-- `protocol in ('', '1')`
abbrev pub is_first_protocol : String → Bool
is_first_protocol protocol = same_text protocol "" || same_text protocol "1"

abbrev pub image_conditions : ImageContext → List (String × Bool)
image_conditions c =
    ("validation_passed", same_text c.validation "success")
    ∷ ("build_passed", same_text c.build "success")
    ∷ ("image_uploaded", same_text c.artifact "true")
    ∷ ("image_hash_recorded", is_sha256 (codes c.image_sha256))
    ∷ ("stable_channel", same_text c.channel "stable")
    ∷ ("source_on_main", same_text c.source_on_main "true")
    ∷ ("authorized_event", authorized_event c.event c.ref)
    ∷ ("new_or_explicit_release", same_text c.new_version "true" || same_text c.event "release")
    ∷ ("not_a_retest", same_text c.image_from_run "")
    ∷ (
      "releasable_protocol",
      is_first_protocol c.boot_protocol
          || (same_text c.boot_protocol "2" && same_text c.os_publish "true"),
    )
    ∷ []

-- `decide` of image_release_policy.py.
unfoldable pub decide_image : ImageContext → ImageDecision
decide_image c = record {
  publish = all_hold (image_conditions c);
  diagnose =
      same_text c.validation "success"
      && ((is_number 19 (codes c.image_from_run) || same_text c.artifact "true")
          && is_first_protocol c.boot_protocol);
  blocking = failing (image_conditions c);
}

pub record OsContext : Type 0 where
  pub channel : String
  pub ref : String
  pub event : String
  pub source_on_main : String
  pub boot_protocol : String
  pub trust_label : String
  pub build : String
  pub rootfs_uploaded : String
  pub sequence : String
  pub publication_enabled : String
  pub image_from_run : String

pub record OsDecision : Type 0 where
  pub publish : Bool
  pub blocking : List String

-- `authorized`
abbrev pub authorized_source : OsContext → Bool
authorized_source c =
    (same_text c.channel "stable"
      && (((same_text c.event "push" || same_text c.event "workflow_dispatch")
            && (same_text c.ref "refs/heads/main" && same_text c.source_on_main "true"))
          || (same_text c.event "release" && is_version_ref c.ref)))
    || (same_text c.channel "dev"
        && (same_text c.event "workflow_dispatch" && same_text c.ref "refs/heads/dev"))

abbrev pub os_conditions : OsContext → List (String × Bool)
os_conditions c =
    ("protocol_2_image", same_text c.boot_protocol "2")
    ∷ ("maintainer_trust", same_text c.trust_label "maintainer-trust")
    ∷ ("authorized_source_for_channel", authorized_source c)
    ∷ ("build_passed", same_text c.build "success")
    ∷ ("rootfs_uploaded", same_text c.rootfs_uploaded "true")
    ∷ ("sequence_assigned", is_number 18 (codes c.sequence))
    ∷ ("publication_enabled", same_text c.publication_enabled "true")
    ∷ ("not_a_retest", same_text c.image_from_run "")
    ∷ []

-- `decide` of os_release.py.
unfoldable pub decide_os : OsContext → OsDecision
decide_os c = record { publish = all_hold (os_conditions c); blocking = failing (os_conditions c) }
