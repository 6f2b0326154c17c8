-- ===== src/AppCompat.antt =====
-- epilykos_app_compat.py: whether an app image or container cooperates with maintenance and OS
-- updates, by what podman's inspection says of it.
pub mod Filtered
pub mod Cooperation
mod Examples
use epilykos_os.Base.{
  ℕ, String, Bool, true, false, not, ◌&&◌, ◌||◌, ◌==◌, leb, ◌*◌, if◌then◌else◌, Option, none, some,
  List, [], ◌∷◌, Text, codes, after_prefix, same_codes, length, Result, ok, err, refuse, ◌>>◌,
  ◌>>=◌,
}
use epilykos_os.Json.{
  Json, array, object, listed, field, is_object, is_array, is_str, is_boolean, matches, text_of,
  is_hex_of,
}

-- CompatibilityError, by its sentence.
pub data CompatibilityError : Type 0 where
  no_lock_protocol no_object wrong_platform unreadable not_one bad_image_id : CompatibilityError
  lock_not_set bad_mounts no_lock_mount no_guard_protocol guard_not_set : CompatibilityError
  no_guard_mount : CompatibilityError

abbrev pub Checked : Type 0
Checked = Result CompatibilityError (Unit {0})

-- LABEL, PROTOCOL and the other constants.
abbrev pub label : String
label = "io.epilykos.maintenance-lock"

abbrev pub protocol : String
protocol = "flock-v1"

abbrev pub lock_env : String
lock_env = "EPILYKOS_MAINTENANCE_LOCK=/app/data/.maintenance.lock"

abbrev pub guard_label : String
guard_label = "io.epilykos.os-update-guard"

abbrev pub guard_protocol : String
guard_protocol = "guard-v1"

abbrev pub guard_env : String
guard_env = "EPILYKOS_OS_UPDATE_GUARD=/run/epilykos-os-updater/guard.json"

abbrev pub guard_source : String
guard_source = "/data/epilykos/os-updater/public"

abbrev pub guard_destination : String
guard_destination = "/run/epilykos-os-updater"

abbrev pub names : String → Json → String → Bool
names key value what = is_str (codes what) (field key value)

-- `_labels`
unfoldable pub labels : Json → Checked
labels config =
    refuse
      (not (is_object config)
        || not (is_object (field "Labels" config))
        || not (names label (field "Labels" config) protocol))
      no_lock_protocol

unfoldable pub oci_config : Json → Checked
unfolding labels
oci_config config =
    refuse (not (is_object config)) no_object
    >> refuse (not (names "os" config "linux") || not (names "architecture" config "arm64"))
        wrong_platform
    >> labels (field "config" config)

-- The one object of an inspection that could be read.
abbrev pub only_object : List Json → Result CompatibilityError Json
only_object (object ms ∷ []) = ok (object ms)
only_object _ = err not_one

unfoldable pub inspection : (Text → Option Json) → Text → Result CompatibilityError Json
inspection loads raw =
    if leb (length raw) (4 * 1024 * 1024)
    then (elim (loads raw) [ none ↦ err unreadable | some value ↦ only_object (listed value) ])
    else err unreadable

unfoldable pub candidate_image : Json → Result CompatibilityError Text
unfolding labels
candidate_image info =
    refuse (not (names "Os" info "linux") || not (names "Architecture" info "arm64")) wrong_platform
    >> labels (field "Config" info)
    >> refuse (not (matches (is_hex_of 64) (field "Id" info))) bad_image_id
    >> ok (text_of (field "Id" info))

-- The values of a list that are strings with a prefix.
unfoldable pub starting : Text → List Json → List Text
starting prefix [] = []
starting prefix (v ∷ vs) =
    let rest = starting prefix vs in
    elim (after_prefix prefix (text_of v)) [ none ↦ rest | some _ ↦ text_of v ∷ rest ]

abbrev pub is_only : Text → List Text → Bool
is_only t (s ∷ []) = same_codes s t
is_only t _ = false

-- The mounts of a list that have a destination.
unfoldable pub mounted_at : String → List Json → List Json
mounted_at destination [] = []
mounted_at destination (v ∷ vs) =
    let rest = mounted_at destination vs in
    if is_object v && names "Destination" v destination then v ∷ rest else rest

-- Exactly one mount, a bind mount of this source, writable or not as told.
abbrev pub is_bind : String → Bool → List Json → Bool
is_bind source writable (m ∷ []) =
    names "Type" m "bind" && (names "Source" m source && is_boolean writable (field "RW" m))
is_bind source writable _ = false

abbrev pub has_any : List Json → Bool
has_any [] = false
has_any (_ ∷ _) = true

unfoldable pub running_container : Json → Checked
unfolding labels starting mounted_at
running_container info =
    let config : Json = field "Config" info in
    let mounts : Json = field "Mounts" info in
    labels config
    >> refuse
        (not (
            is_only (codes lock_env)
              (starting (codes "EPILYKOS_MAINTENANCE_LOCK=") (listed (field "Env" config))))
          || not (is_boolean true (field "Running" (field "State" info))))
        lock_not_set
    >> refuse (not (is_array mounts)) bad_mounts
    >> refuse
        (not (is_bind "/data/epilykos/app-data" true (mounted_at "/app/data" (listed mounts)))
          || has_any (mounted_at "/app/data/.maintenance.lock" (listed mounts)))
        no_lock_mount

unfoldable pub os_update_guard : Json → Checked
unfolding running_container starting mounted_at
os_update_guard info =
    let config : Json = field "Config" info in
    running_container info
    >> refuse (not (names guard_label (field "Labels" config) guard_protocol)) no_guard_protocol
    >> refuse
        (not (
          is_only (codes guard_env)
            (starting (codes "EPILYKOS_OS_UPDATE_GUARD=") (listed (field "Env" config)))))
        guard_not_set
    >> refuse
        (not (
          is_bind guard_source false (mounted_at guard_destination (listed (field "Mounts" info)))))
        no_guard_mount
