-- ===== src/OsBoot.antt =====
-- epilykos_os_activate.py: `reconcile_boot`, run by hostd at every start, before the app. It makes
-- the journal and the guard agree with the environment and the booted slot. The result is the word
-- that it returns for the log, with `none` for 'none'.
pub mod Armed
pub mod Booted
pub mod Pending
pub mod Safety
pub mod Interrupted
use epilykos_os.Base.{ℕ, Bool, true, false, not, ◌==◌, ◌&&◌, if◌then◌else◌, Option, none, some, leb}
use epilykos_os.OsBox.{
  enter, Slot, is_slot, Env, JobState, ready, restarting, trying, confirmed, rolled_back, failed,
  is_for_worker, Message, says, Job, GuardState, idle, pending, Error, os_update_error, trust_error,
  Action, ◌>>=◌, ◌>>◌, pure, raise, try_except, Host, same_number, required, journal, booted_slot,
  save, set_guard, finish, read_env, clear_pending, mark_active, target_bad, worker_active,
}
use epilykos_os.OsUpdate.{starts_by, reconcile}
use epilykos_os.OsActivate.{back_to_ready}
use epilykos_os.OsConfirm.{rebuild, or_zero}

abbrev pub Found : Type 0
Found = Option JobState

-- `job['state'] == state`, for the states that `reconcile_boot` asks about.
abbrev pub is_restarting : JobState → Bool
is_restarting restarting = true
is_restarting _ = false

abbrev pub is_trying : JobState → Bool
is_trying trying = true
is_trying _ = false

abbrev pub is_confirmed : JobState → Bool
is_confirmed confirmed = true
is_confirmed _ = false

abbrev pub is_rolled_back : JobState → Bool
is_rolled_back rolled_back = true
is_rolled_back _ = false

abbrev pub is_ready_or_restarting : JobState → Bool
is_ready_or_restarting ready = true
is_ready_or_restarting restarting = true
is_ready_or_restarting _ = false

abbrev interrupted : Message
interrupted = says "The restart was interrupted; restart again to finish"

-- `slot == job['target'] and int(env.get('epk_os_floor', '0')) >= job['sequence']`
abbrev pub is_confirmed_by : Job → Slot → Env → Bool
is_confirmed_by job slot env = is_slot job.target slot && leb job.sequence (or_zero env.floor)

-- `job and job.get('id') == pending and job['state'] in ('restarting', 'ready')`
abbrev pub is_unfinished : ℕ → Option Job → Bool
is_unfinished id none = false
is_unfinished id (some job) = job.id == id && is_ready_or_restarting job.state

module _ (h : Host) where
  -- `job and job['state'] in WORKING + (...) and osu.worker_active()`
  unfoldable pub is_carried_on : Option Job → Action Bool
  is_carried_on none = pure false
  is_carried_on (some job) = if is_for_worker job.state then worker_active h else pure false

  -- A `trying` job of an environment with nothing pending.
  unfoldable pub end_trial : Job → Bool → Action Found
  end_trial job true = do finish h job confirmed none; pure (some confirmed)
  end_trial job false = do
    finish h job failed (some (says "The OS update ended without a result"))
    pure (some failed)

  -- `osu.journal()['state']`
  unfoldable pub journal_state : Action Found
  journal_state = do found ← journal; job ← required found; pure (some job.state)

  unfoldable pub interrupted_restart : Job → Action Found
  unfolding journal_state
  interrupted_restart job = back_to_ready h job interrupted >> journal_state

  -- Any other job is for `osu.reconcile()`.
  unfoldable pub plain_reconcile : Action Found
  plain_reconcile = reconcile h >> pure none

  unfoldable pub without_pending : Option Job → Slot → Env → Action Found
  unfolding end_trial interrupted_restart plain_reconcile
  without_pending none slot env = plain_reconcile
  without_pending (some job) slot env =
      if is_restarting job.state
      then interrupted_restart job
      else if is_trying job.state
      then end_trial job (is_confirmed_by job slot env)
      else plain_reconcile

  -- What the running target does with its job.
  unfoldable pub trial_job : Job → Bool → Action Found
  trial_job job true = do clear_pending h; set_guard h idle none; pure (some confirmed)
  trial_job job false = do
    save h (enter trying job.error job)
    set_guard h pending (some job.id)
    pure (some trying)

  unfoldable pub on_target : Option Job → Env → Action Found
  unfolding trial_job
  on_target found env = do job ← rebuild h env found; trial_job job (is_confirmed job.state)

  unfoldable pub needs_checking : Env → Action Found
  needs_checking env = do
    set_guard h GuardState.reconciling env.pending
    pure (some JobState.reconciling)

  -- `if (env.get('BOOT_ORDER') or '').split()[:1] != [slot]: ...`
  unfoldable pub make_primary : Slot → Bool → Action (Unit {0})
  make_primary slot true = pure tt
  make_primary slot false = mark_active h slot >> pure tt

  -- `if job['state'] != 'rolled_back': ...`
  unfoldable pub end_rolled_back : Job → Bool → Action (Unit {0})
  end_rolled_back job true = pure tt
  end_rolled_back job false =
      finish h job rolled_back
        (some (says "The new version did not start properly, so the previous one is running"))

  -- The trial ran and the loader fell back.
  unfoldable pub roll_back : Job → Slot → Env → Bool → Action Found
  unfolding needs_checking make_primary end_rolled_back
  roll_back job slot env false = needs_checking env
  roll_back job slot env true = do
    make_primary slot (starts_by (some slot) env.boot_order)
    end_rolled_back job (is_rolled_back job.state)
    clear_pending h
    pure (some rolled_back)

  unfoldable pub after_trial : Option Job → Slot → Env → Action Found
  unfolding roll_back
  after_trial found slot env = do
    job ← rebuild h env found
    bad ← target_bad h env.target
    roll_back job slot env bad

  -- A job that was lost, or is in no state to be finished: it ends.
  unfoldable pub end_untried : Job → Env → Bool → Action Found
  unfolding needs_checking
  end_untried job env false = needs_checking env
  end_untried job env true = do
    finish h job failed (some (says "The OS update was interrupted before it started"))
    clear_pending h
    pure (some failed)

  -- Activation never reached a trial. The test is whether the journal has the job, to be finished.
  unfoldable pub untried : Option Job → Env → Bool → Action Found
  unfolding end_untried
  untried found env true = do
    job ← required found
    back_to_ready h job interrupted
    pure (some ready)
  untried found env false = do
    job ← rebuild h env found
    bad ← target_bad h env.target
    end_untried job env bad

  unfoldable pub with_pending : ℕ → Option Job → Slot → Env → Action Found
  unfolding on_target needs_checking after_trial untried
  with_pending id found slot env =
      if is_slot env.target slot
      then on_target found env
      else if not (is_slot env.from_slot slot)
      then needs_checking env
      else if same_number env.trial_started (some id)
      then after_trial found slot env
      else untried found env (is_unfinished id found)

  -- `except (osu.OsUpdateError, trust.TrustError): ...; raise`
  unfoldable pub close_and_raise : {A : Type 0} → Error → Action A
  close_and_raise (os_update_error m) =
      set_guard h GuardState.reconciling none >> raise (os_update_error m)
  close_and_raise (trust_error m) = set_guard h GuardState.reconciling none >> raise (trust_error m)
  close_and_raise e = raise e

  unfoldable pub guarded : {A : Type 0} → Action A → Action A
  unfolding close_and_raise
  guarded m = try_except m close_and_raise

  unfoldable pub by_pending : Option ℕ → Option Job → Slot → Env → Action Found
  unfolding without_pending with_pending
  by_pending none found slot env = without_pending found slot env
  by_pending (some id) found slot env = with_pending id found slot env

  -- What was read, and whether the worker carries on with the job.
  unfoldable pub reconcile_with : Option Job → Slot → Env → Bool → Action Found
  unfolding by_pending
  reconcile_with found slot env true = do job ← required found; pure (some job.state)
  reconcile_with found slot env false = by_pending env.pending found slot env

  unfoldable pub reconcile_boot : Action Found
  unfolding reconcile_with is_carried_on guarded
  reconcile_boot = do
    env ← guarded (read_env h)
    found ← guarded journal
    slot ← guarded booted_slot
    carried_on ← is_carried_on found
    reconcile_with found slot env carried_on
