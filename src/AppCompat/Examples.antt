-- ===== src/AppCompat/Examples.antt =====
-- A container that takes part in OS updates.
use epilykos_os.Base.{String, refl, Bool, true, false, codes}
use epilykos_os.Json.{
  Json, boolean, str, array, object, Elements, empty, element, Members, end, member,
}
use epilykos_os.AppCompat.{
  os_update_guard, label, protocol, guard_label, guard_protocol, lock_env, guard_env, guard_source,
  guard_destination,
}
use epilykos_os.AppCompat.Cooperation.{SharesLock, SeesGuard, os_update_guard-SeesGuard}

abbrev text : String → Json
text s = str (codes s)

abbrev a_member : String → Json → Members → Members
a_member k v ms = member (codes k) v ms

abbrev mount : String → String → Bool → Json
mount source destination writable = object (
    a_member "Type" (text "bind") (
      a_member "Source" (text source)
        (a_member "Destination" (text destination) (a_member "RW" (boolean writable) end))))

abbrev container : Json
container = object (
    a_member "State" (object (a_member "Running" (boolean true) end)) (
      a_member "Config"
        (object (
          a_member "Labels"
            (object
              (a_member label (text protocol) (a_member guard_label (text guard_protocol) end)))
            (a_member "Env" (array (element (text lock_env) (element (text guard_env) empty)))
              end)))
        (a_member "Mounts"
          (array (
            element (mount "/data/epilykos/app-data" "/app/data" true)
              (element (mount guard_source guard_destination false) empty)))
          end)))

os_update_guard-SeesGuard_example : SharesLock container × SeesGuard container
unfolding os_update_guard epilykos_os.Json.field
os_update_guard-SeesGuard_example = os_update_guard-SeesGuard container refl
