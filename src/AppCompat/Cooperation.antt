-- ===== src/AppCompat/Cooperation.antt =====
-- What an app that takes part in OS updates is known to have.
use epilykos_os.AppCompat.Filtered.{
  SetsOnce, NoneAt, BindsAt, is_str-str, is_boolean-boolean, is_only-one, has_any-none,
  is_bind-Binds, starting-SetsOnce, mounted_at-none, mounted_at-BindsAt,
}
use epilykos_os.Base.{
  neither, is_so, String, ◌≡◌, true, false, List, codes, ok, then-ok, refuse-done,
}
use epilykos_os.Json.{Json, str, boolean, listed, field}
use epilykos_os.AppCompat.{
  lock_not_set, no_lock_mount, label, protocol, guard_label, guard_protocol, lock_env, guard_env,
  guard_source, guard_destination, labels, running_container, os_update_guard,
}

-- The environment and mounts of a container.
abbrev pub env_of : Json → List Json
env_of info = listed (field "Env" (field "Config" info))

abbrev pub mounts_of : Json → List Json
mounts_of info = listed (field "Mounts" info)

abbrev pub label_of : String → Json → Json
label_of name info = field name (field "Labels" (field "Config" info))

abbrev pub SharesLock : Json → Type 0
SharesLock info =
    (label_of label info ≡ str (codes protocol))
    × SetsOnce (codes "EPILYKOS_MAINTENANCE_LOCK=") (codes lock_env) (env_of info)
    × (field "Running" (field "State" info) ≡ boolean true)
    × BindsAt "/app/data" "/data/epilykos/app-data" true (mounts_of info)
    × NoneAt "/app/data/.maintenance.lock" (mounts_of info)

abbrev pub SeesGuard : Json → Type 0
SeesGuard info =
    (label_of guard_label info ≡ str (codes guard_protocol))
    × SetsOnce (codes "EPILYKOS_OS_UPDATE_GUARD=") (codes guard_env) (env_of info)
    × BindsAt guard_destination guard_source false (mounts_of info)

labels_str :
    (config : Json)
    → labels config ≡ ok tt
    → field label (field "Labels" config) ≡ str (codes protocol)
unfolding labels
labels_str config h = is_str-str _ _ (is_so _ (neither _ _ ((refuse-done _ _).0 h)).1)

running_container-SharesLock : (info : Json) → running_container info ≡ ok tt → SharesLock info
unfolding running_container
running_container-SharesLock info h =
    let a = then-ok _ _ _ h in
    let b = then-ok _ _ _ a.0 in
    let c = then-ok _ _ _ b.0 in
    let runs = neither _ _ ((refuse-done _ lock_not_set).0 c.1) in
    let mount = neither _ _ ((refuse-done _ no_lock_mount).0 a.1) in
    (
      labels_str _ c.0,
      starting-SetsOnce (codes "EPILYKOS_MAINTENANCE_LOCK=") _ _ (env_of info)
          (is_only-one (codes lock_env) _ (is_so _ runs.0)),
      is_boolean-boolean _ _ (is_so _ runs.1),
      mounted_at-BindsAt "/app/data" "/data/epilykos/app-data" true _
          (is_bind-Binds "/data/epilykos/app-data" true _ (is_so _ mount.0)),
      mounted_at-none "/app/data/.maintenance.lock" _ (has_any-none _ mount.1),
    )

-- A container that is accepted for OS updates runs, has both labels, has the lock and the guard once
-- each in its environment with the paths that the host uses, shares the app's data writable with
-- nothing mounted over the lock, and sees the host's guard directory read-only; each by exactly one
-- mount.
pub os_update_guard-SeesGuard :
    (info : Json) → os_update_guard info ≡ ok tt → SharesLock info × SeesGuard info
unfolding os_update_guard
os_update_guard-SeesGuard info h =
    let a = then-ok _ _ _ h in
    let b = then-ok _ _ _ a.0 in
    let c = then-ok _ _ _ b.0 in
    (
      running_container-SharesLock info c.0,
      (
        is_str-str _ _ (is_so _ ((refuse-done _ _).0 c.1)),
        starting-SetsOnce (codes "EPILYKOS_OS_UPDATE_GUARD=") _ _ (env_of info)
            (is_only-one (codes guard_env) _ (is_so _ ((refuse-done _ _).0 b.1))),
        mounted_at-BindsAt guard_destination guard_source false _
            (is_bind-Binds guard_source false _ (is_so _ ((refuse-done _ _).0 a.1))),
      ),
    )
