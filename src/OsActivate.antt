-- ===== src/OsActivate.antt =====
-- epilykos_os_activate.py: Restart and Discard, the activation of a ready job, and its confirmation
-- by a healthy trial. `view` only reports, so the actions return nothing here.
pub mod Safety
pub mod Dropped
pub mod Restarted
use epilykos_os.Base.{
  ℕ, Bool, true, false, not, ◌==◌, ◌||◌, ◌&&◌, if◌then◌else◌, Option, none, some, List, [], ◌∷◌,
  leb, Result, ok, err,
}
use epilykos_os.Storage.{admit, StorageError, Space}
use epilykos_os.OsBox.{
  left_of, enter, Slot, Phase, activation_intent, activated, Env, JobState, ready, restarting,
  discarded, Message, says, space, noted, Documents, Image, Job, GuardState, pending, Error,
  os_update_error, trust_error, storage_error, done, Action, ◌>>=◌, ◌>>◌, pure, raise, raise_if,
  try_except, try_else, spend, Update, set_pending, set_target, set_from, set_target_sequence,
  set_target_sha256, set_phase, set_trial_started, Host, Platform, TrustState, Entry, same_number,
  is_phase, required, journal, save, set_guard, finish, read_env, set_env, clear_pending,
  mark_active, target_bad, worker_active, start_worker, reboot,
}
use epilykos_os.OsUpdate.{starts_by, platform, verify_target, settled}

-- `not job or job['id'] != job_id or job['state'] != 'ready'`
abbrev pub is_ready_job : ℕ → Option Job → Bool
is_ready_job id none = false
is_ready_job id (some j) = j.id == id && elim j.state [ ready ↦ true | _ ↦ false ]

-- TRIAL_PHASES
abbrev pub is_trial_phase : Option Phase → Bool
is_trial_phase none = false
is_trial_phase (some activation_intent) = false
is_trial_phase (some _) = true

-- trust.SLOT_BYTES, the space that activation reserves for the import of the app image.
abbrev pub oci_allowance : ℕ
oci_allowance = 1610612736

-- `except (osu.OsUpdateError, trust.TrustError, storage.StorageError) as exc`
abbrev pub or_refused : {A : Type 0} → (Message → Action A) → Error → Action A
or_refused handler (os_update_error m) = handler m
or_refused handler (trust_error m) = handler m
or_refused handler (storage_error m) = handler m
or_refused handler e = raise e

-- `except (osu.OsUpdateError, trust.TrustError)`
abbrev pub or_unanswered : {A : Type 0} → Action A → Error → Action A
or_unanswered handler (os_update_error m) = handler
or_unanswered handler (trust_error m) = handler
or_unanswered handler e = raise e

-- `env.get('epk_os_pending') not in (None, '', job['id'])`
abbrev pub is_foreign : Option ℕ → ℕ → Bool
is_foreign none id = false
is_foreign (some p) id = not (p == id)

-- The refusal of `storage.admit`.
abbrev pub admitted : Result StorageError Space → Action (Unit {0})
admitted (ok _) = pure tt
admitted (err e) = raise (storage_error (space e))

-- trust.admissible
abbrev pub is_stale : Entry → Platform → ℕ → Bool
is_stale entry plat floor = leb entry.sequence floor || leb entry.sequence plat.os_sequence

unfoldable pub raise_first : List Message → Action (Unit {0})
raise_first [] = pure tt
raise_first (m ∷ _) = raise (os_update_error m)

abbrev pub intent : Job → Image → List Update
intent job image =
    set_pending (some job.id)
    ∷ set_target job.target
    ∷ set_from job.source
    ∷ set_target_sequence (some job.sequence)
    ∷ set_target_sha256 image.sha256
    ∷ set_phase (some activation_intent)
    ∷ set_trial_started none
    ∷ []

-- `[:1] != [target] or env.get(f'BOOT_{target}_LEFT') != '3'`, negated.
abbrev pub is_activated : Option Slot → Env → Bool
is_activated target env =
    starts_by target env.boot_order && same_number (left_of target env) (some 3)

module _ (h : Host) where
  unfoldable pub restart : ℕ → Action (Unit {0})
  restart job_id = do
    found ← journal
    raise_if (not (is_ready_job job_id found))
        (os_update_error (says "There is no OS update ready to finish"))
    job ← required found
    busy ← worker_active h
    raise_if busy (os_update_error (says "The OS update is busy; try again shortly"))
    save h (enter restarting none job)
    start_worker h

  -- `osu.worker_active() or trust.read_env().get('epk_os_pending')`
  unfoldable pub is_being_activated : Action Bool
  is_being_activated = do
    busy ← worker_active h
    if busy then pure true else (do env ← read_env h; pure (not (same_number env.pending none)))

  unfoldable pub discard : ℕ → Action (Unit {0})
  unfolding is_being_activated
  discard job_id = do
    found ← journal
    raise_if (not (is_ready_job job_id found))
        (os_update_error (says "There is no OS update ready to discard"))
    job ← required found
    activating ← is_being_activated
    raise_if activating
        (os_update_error (says "The OS update is being activated and can no longer be discarded"))
    bad ← target_bad h job.target
    raise_if (not bad)
        (os_update_error (says "Could not make sure the other system slot stays unused"))
    finish h job discarded none

  unfoldable pub current_state : Platform → Action TrustState
  current_state plat = spend λ b. settled (h.current_state b.power plat b.env) b

  unfoldable pub verify_os_release : Documents → Platform → TrustState → Action Entry
  verify_os_release files plat state = settled (h.verify_os_release files plat state.policy)

  unfoldable pub admit_space : ℕ → Action (Unit {0})
  admit_space size = spend λ b. admitted (admit size (h.usage b.power)) b

  unfoldable pub app_blockers : Action (List Message)
  app_blockers = spend λ b. (done (h.app_blockers b.power), b)

  unfoldable pub revalidate : Job → Action (Unit {0})
  unfolding current_state verify_os_release raise_first admit_space app_blockers
  revalidate job = do
    found ← platform h
    plat ← required found
    state ← current_state plat
    files ← required job.documents
    entry ← verify_os_release files plat state
    raise_if (is_stale entry plat state.floor)
        (trust_error (says "OS release is not newer than this box's system"))
    blockers ← app_blockers
    raise_first blockers
    admit_space oci_allowance
    verify_target h job

  -- The end of `back_to_ready`, where the target was shown to be non-bootable or not.
  unfoldable pub settle : Job → Message → Bool → Action ℕ
  settle job error false = do
    save h (enter JobState.reconciling (some (noted error "; the system state needs checking")) job)
    set_guard h GuardState.reconciling (some job.id)
    pure 1
  settle job error true = do
    save h (enter ready (some error) job)
    set_guard h pending (some job.id)
    pure 1

  -- `safe = target_bad(...); if safe: clear_pending()`
  unfoldable pub make_safe : Option Slot → Action Bool
  make_safe target = do
    safe ← target_bad h target
    if safe then clear_pending h >> pure true else pure false

  unfoldable pub back_to_ready : Job → Message → Action ℕ
  unfolding settle make_safe
  back_to_ready job error = do
    safe ← try_except (make_safe job.target) (or_unanswered (pure false))
    settle job error safe

  -- The `try` block of `activate`.
  unfoldable pub record_intent : Job → Action (Unit {0})
  record_intent job = do
    revalidate job
    env ← read_env h
    raise_if (is_foreign env.pending job.id)
        (os_update_error (says "Another OS update is recorded in the system state"))
    image ← required job.image
    set_env h (intent job image)
    pure tt

  -- What follows the read-back of mark-active.
  unfoldable pub switch_over : Job → Bool → Action ℕ
  switch_over job false =
      back_to_ready job (says "The system could not be set to start the new version")
  switch_over job true = do
    set_env h (set_phase (some activated) ∷ [])
    save h (record job { progress = record { phase = restarting; activated = true } })
    reboot h
    pure 0

  -- From mark-active on, with the intent recorded.
  unfoldable pub finish_activation : Job → Action ℕ
  unfolding switch_over
  finish_activation job = do
    slot ← required job.target
    mark_active h slot
    env ← read_env h
    switch_over job (is_activated job.target env)

  -- A job that was activated before, with only the reboot missing.
  unfoldable pub is_only_reboot : Bool → Action Bool
  is_only_reboot false = pure false
  is_only_reboot true = do env ← read_env h; pure (is_phase env.phase activated)

  unfoldable pub activate_from : Job → Bool → Action ℕ
  unfolding finish_activation record_intent
  activate_from job true = reboot h >> pure 0
  activate_from job false =
      try_else (record_intent job) (λ _. finish_activation job) (or_refused (back_to_ready job))

  unfoldable pub activate : Job → Action ℕ
  unfolding activate_from is_only_reboot
  activate job = do again ← is_only_reboot job.progress.activated; activate_from job again
