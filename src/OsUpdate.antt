-- ===== src/OsUpdate.antt =====
-- epilykos_os_update.py: the guard, what it blocks, and the slot checks after an installation.
pub mod Slots
pub mod Reconciling
pub mod Completion
pub mod Reboots
use epilykos_os.Base.{
  ℕ, Bool, true, false, not, ◌&&◌, if◌then◌else◌, Option, none, some, List, [], ◌∷◌, leb, length,
  take, Result, ok, err,
}
use epilykos_os.OsBox.{
  enter, left_of, Slot, is_slot, Env, left, JobState, installing, ready, restarting, failed,
  is_working, is_terminal, Message, says, noted, Job, GuardState, idle, active, pending, Guard,
  Error, os_update_error, trust_error, Action, ◌>>=◌, ◌>>◌, pure, raise, raise_if, gets, try_except,
  try_else, spend, Host, Platform, same_number, required, journal, save, set_guard, finish,
  read_env, mark_bad, worker_active, start_worker, layout,
}

-- `(env.get('BOOT_ORDER') or '').split()[:1] == [slot]`
abbrev pub starts_by : Option Slot → List Slot → Bool
starts_by slot [] = false
starts_by slot (s ∷ _) = is_slot slot s

-- `guard()['state']`: a guard file that is missing or malformed reads as `reconciling`.
abbrev pub guard_state : Option Guard → GuardState
guard_state none = GuardState.reconciling
guard_state (some g) = g.state

-- `except OsUpdateError: ...`
abbrev pub or_os_update_error : {A : Type 0} → (Message → Action A) → Error → Action A
or_os_update_error handler (os_update_error m) = handler m
or_os_update_error handler e = raise e

-- WORKING + ('installing',)
abbrev pub is_installing_or_working : JobState → Bool
is_installing_or_working installing = true
is_installing_or_working s = is_working s

-- What `blocking` reports for the job of an idle guard.
abbrev pub queued_guard : Option Job → GuardState
queued_guard none = idle
queued_guard (some j) = if is_installing_or_working j.state then active else idle

abbrev pub is_idle : GuardState → Bool
is_idle idle = true
is_idle _ = false

abbrev pub is_active_or_reconciling : GuardState → Bool
is_active_or_reconciling active = true
is_active_or_reconciling GuardState.reconciling = true
is_active_or_reconciling _ = false

abbrev pub is_pending : GuardState → Bool
is_pending pending = true
is_pending _ = false

-- The jobs that only their own Restart or Discard may end.
abbrev pub holds_reboot : Option Job → Bool
holds_reboot none = true
holds_reboot (some j) = elim j.state [ ready ↦ true | restarting ↦ true | _ ↦ false ]

abbrev pub device_bytes : Option (List ℕ) → Action (List ℕ)
device_bytes none = raise (os_update_error (says "Could not read back the installed system"))
device_bytes (some bytes) = pure bytes

-- What a call returned, or the exception that it raised.
abbrev pub settled : {A : Type 0} → Result Error A → Action A
settled (ok a) = pure a
settled (err e) = raise e

abbrev pub is_unbootable : Job → Env → Bool
is_unbootable job env =
    same_number (left_of job.target env) (some 0) && starts_by job.source env.boot_order

-- `except trust.TrustError: ...`
abbrev pub or_trust_error : {A : Type 0} → Action A → Error → Action A
or_trust_error handler (trust_error m) = handler
or_trust_error handler e = raise e

-- The `if` chain of `reconcile`.
abbrev pub guard_for : JobState → GuardState
guard_for ready = pending
guard_for JobState.reconciling = GuardState.reconciling
guard_for s = if is_terminal s then idle else active

module _ (h : Host) where
  unfoldable pub platform : Action (Option Platform)
  platform b = settled (h.platform b.power) b

  -- The part of `blocking` behind the platform check.
  blocking_job : GuardState → Action GuardState
  blocking_job idle =
      try_except (do job ← journal; pure (queued_guard job))
        (or_os_update_error λ _. pure GuardState.reconciling)
  blocking_job state = pure state

  blocking_card : Option Platform → Action GuardState
  unfolding blocking_job
  blocking_card none = pure idle
  blocking_card (some _) = do state ← gets λ b. guard_state b.guard; blocking_job state

  -- `None` for a protocol-1 card. A platform record that is invalid blocks everything.
  unfoldable pub blocking : Action GuardState
  unfolding blocking_card platform
  blocking = try_else platform blocking_card (or_os_update_error λ _. pure GuardState.reconciling)

  unfoldable pub refuse_if : (GuardState → Bool) → Action (Unit {0})
  unfolding blocking
  refuse_if states = do
    state ← blocking
    raise_if (states state) (os_update_error (says "not possible. Use Settings > Updates."))

  -- The second half of `refuse_reboot`, for a guard that is pending or not.
  refuse_ready : Bool → Action (Unit {0})
  refuse_ready false = pure tt
  refuse_ready true = do
    job ← try_except journal (or_os_update_error λ _. pure none)
    raise_if (holds_reboot job) (
        os_update_error
          (says "An OS update is ready: use Restart to finish or Discard in Settings > Updates."))

  unfoldable pub refuse_reboot : Action (Unit {0})
  unfolding refuse_if blocking refuse_ready
  refuse_reboot = do
    refuse_if is_active_or_reconciling
    state ← blocking
    refuse_ready (is_pending state)

  -- What is read from the device of a slot, up to the size of the image, hashes to the image.
  abbrev pub image_matches : ℕ → Option ℕ → List ℕ → Bool
  image_matches size sha256 bytes =
      leb size (length bytes) && same_number (some (h.sha256 (take size bytes))) sha256

  unfoldable pub read_device : Slot → Action (List ℕ)
  read_device s = spend λ b. device_bytes (h.device b.power s) b

  unfoldable pub verify_target : Job → Action (Unit {0})
  unfolding read_device
  verify_target job = do
    env ← read_env h
    raise_if (not (is_unbootable job env))
        (os_update_error (says "The installed system is unexpectedly bootable"))
    image ← required job.image
    size ← required image.size
    slot ← required job.target
    bytes ← read_device slot
    raise_if (not (image_matches size image.sha256 bytes))
        (os_update_error (says "The installed system does not match the signed image"))

  unfoldable pub failed_install : Job → Message → Bool → Action ℕ
  failed_install job message false = do
    save h (
        enter JobState.reconciling (some (noted message "; the other system slot needs checking"))
          job)
    set_guard h GuardState.reconciling (some job.id)
    pure 1
  failed_install job message true = do finish h job failed (some message); pure 1

  -- What `fail_install` finds out: whether the target is shown to be unbootable.
  unfoldable pub shown_bad : Job → Action Bool
  shown_bad job = do
    slot ← required job.target
    mark_bad h slot
    try_except (do env ← read_env h; pure (is_unbootable job env)) (or_trust_error (pure false))

  unfoldable pub fail_install : Job → Message → Action ℕ
  unfolding shown_bad failed_install
  fail_install job message = do safe ← shown_bad job; failed_install job message safe

  unfoldable pub complete_install : Job → Action ℕ
  unfolding verify_target
  complete_install job =
      try_else (verify_target job)
        (λ _. do save h (enter ready job.error job); set_guard h pending (some job.id); pure 0)
        (or_os_update_error (fail_install job))

  -- The guard that `reconcile` gives to a job; a job for the worker starts it again.
  unfoldable pub guard_job : ℕ → GuardState → Action (Unit {0})
  guard_job id idle = set_guard h idle none
  guard_job id pending = set_guard h pending (some id)
  guard_job id GuardState.reconciling = set_guard h GuardState.reconciling (some id)
  guard_job id active = do
    set_guard h active (some id)
    running ← worker_active h
    if running then pure tt else start_worker h

  unfoldable pub reconcile_job : Option Job → Action (Unit {0})
  unfolding guard_job
  reconcile_job none = set_guard h idle none
  reconcile_job (some job) = guard_job job.id (guard_for job.state)

  -- An unreadable journal closes the guard.
  unfoldable pub close_guard : {A : Type 0} → Message → Action A
  close_guard m = set_guard h GuardState.reconciling none >> raise (os_update_error m)

  unfoldable pub reconcile : Action (Unit {0})
  unfolding reconcile_job close_guard
  reconcile = do
    layout h
    job ← try_except journal (or_os_update_error close_guard)
    reconcile_job job
