-- ===== src/OsWorker.antt =====
-- epilykos_os_update.py: the worker of an update, from the job in the journal to the installed slot:
-- `run_worker`, `work` and `install_bundle`. A job in memory keeps the state that was last assigned
-- to it, also where the save failed, and `work`'s handler looks at that state: each stage has the
-- handler that it meets there. A Crew is what the worker finds outside, a Delivery one download.
mod Fetching
pub mod Fetched
pub mod Saved
pub mod Worked
pub mod Safe
pub mod Kept
pub mod Sample
mod Examples
pub use Fetching.*
use epilykos_os.Base.{
  ℕ, zero, suc, Bool, true, false, ◌==◌, ◌&&◌, if◌then◌else◌, Option, none, some, List, [], ◌∷◌,
}
use epilykos_os.OsBox.{
  JobState, ready, installing, restarting, cancelled, failed, is_working, is_for_worker, Message,
  says, noted, Job, Image, pending, active, Box, Error, os_update_error, trust_error, storage_error,
  os_error, other_error, done, cut, Action, ◌>>=◌, ◌>>◌, pure, raise, try_except, try_else, spend,
  Host, same_number, enter, journal, save, set_guard, finish,
}
use epilykos_os.OsUpdate.{platform, settled, verify_target, shown_bad, failed_install, fail_install}
use epilykos_os.OsActivate.{activate}
use epilykos_os.OsJobs.Install.{Shop}
use epilykos_os.OsRauc.{Bus, rauc_identity, reconcile_install}

-- `except (OsUpdateError, trust.TrustError, storage.StorageError, ValueError, OSError) as exc`
abbrev pub or_failed : {A : Type 0} → (Message → Action A) → Error → Action A
or_failed handler (os_update_error m) = handler m
or_failed handler (trust_error m) = handler m
or_failed handler (storage_error m) = handler m
or_failed handler os_error = handler (says "The OS update failed (OSError)")
or_failed handler other_error = raise other_error

-- What RAUC prints: where it can be started, a line for each member, which is true where the line has
-- a percentage and two seconds have passed since the last save.
abbrev pub started_rauc : Option (List Bool) → Action (List Bool)
started_rauc none = raise os_error
started_rauc (some lines) = pure lines

-- The last line of RAUC's output, where it has one.
abbrev pub refused_message : Option Message → Message
refused_message none = says "The system updater refused or failed the OS update"
refused_message (some m) = m

abbrev pub is_installing : JobState → Bool
is_installing installing = true
is_installing _ = false

module _ (h : Host) (bus : Bus) (shop : Shop) (crew : Crew) where
  -- `finish(job, 'cancelled', None); return 0`
  unfoldable pub end_cancelled : Job → Action ℕ
  end_cancelled job = do finish h job cancelled none; pure 0

  -- `finish(job, 'failed', message); return 1`
  unfoldable pub end_failed : Job → Message → Action ℕ
  end_failed job m = do finish h job failed (some m); pure 1

  -- `cancelled`
  abbrev pub is_cancelled : Job → Action Bool
  is_cancelled job b =
      (done (crew.cancel_readable b.power && same_number b.cancel (some job.id)), b)

  -- RAUC goes on with its installation, and may change the environment.
  unfoldable pub rauc_goes_on : Action (Unit {0})
  rauc_goes_on = spend λ b. (done tt, record b { env = crew.rauc_writes b.power b.env })

  -- The loop over the lines.
  unfoldable pub follow : Job → List Bool → Action (Unit {0})
  unfolding rauc_goes_on
  follow job [] = pure tt
  follow job (saves ∷ lines) =
      rauc_goes_on >> ((if saves then save_phase h installing job else pure tt) >> follow job lines)

  -- The `with` block: RAUC has ended when it is left, also by an exception.
  unfoldable pub run_rauc : Job → Action ℕ
  unfolding follow
  run_rauc job = do
    lines ← spend λ b. started_rauc (crew.rauc b.power) b
    try_except (follow job lines) (λ e. rauc_goes_on >> raise e)
    rauc_goes_on
    spend λ b. (done (crew.exit_code b.power), b)

  -- `fail_install`, called in the `try` block of `work`. The actions from here to `install_bundle` give
  -- what `work` returns: 0 from its `try` block, whatever `install_bundle` answered, and 1 from the
  -- handler.
  unfoldable pub fail_in_work : Job → Message → Action ℕ
  unfolding end_failed
  fail_in_work job m =
      try_else (shown_bad h job)
        (λ safe. try_except (do failed_install h job m safe; pure 0) (or_failed (end_failed job)))
        (or_failed (fail_install h job))

  abbrev pub unverified : Job → Error → Action ℕ
  unverified job (os_update_error m) = fail_in_work job m
  unverified job e = or_failed (fail_install h job) e

  -- `complete_install`, called there.
  unfoldable pub complete_in_work : Job → Action ℕ
  unfolding fail_in_work
  complete_in_work job =
      try_else (verify_target h job)
        (λ _.
          try_except
            (do save h (enter ready job.error job); set_guard h pending (some job.id); pure 0)
            (or_failed (end_failed job)))
        (unverified job)

  unfoldable pub end_rauc : Job → ℕ → Action ℕ
  unfolding fail_in_work complete_in_work
  end_rauc job code = if code == 0 then complete_in_work job else (do
    last ← spend λ b. (done (crew.last_line b.power), b)
    fail_in_work job (refused_message last))

  -- From `step(job, 'installing')` on, with the job in that phase: it is durable before RAUC is called.
  unfoldable pub install_phase : Job → Action ℕ
  unfolding run_rauc end_rauc
  install_phase job =
      try_else (do save h job; run_rauc job) (end_rauc job) (or_failed (fail_install h job))

  -- `install_bundle`
  unfoldable pub install_bundle : Job → Action ℕ
  unfolding install_phase
  install_bundle job =
      try_else (rauc_identity bus) (λ writer. install_phase (at_phase installing job))
        (or_failed (end_failed job))

  unfoldable pub unless_stopped : Job → Action ℕ
  unfolding install_bundle end_cancelled
  unless_stopped job = do
    stop ← is_cancelled job
    if stop then end_cancelled job else install_bundle job

  unfoldable pub after_fetch : Job → Option Image → Action ℕ
  unfolding unless_stopped
  after_fetch job none = end_cancelled job
  after_fetch job (some image) = unless_stopped (record job { image = some image })

  -- `work`
  unfoldable pub work : Job → Action ℕ
  unfolding after_fetch
  work job = do
    plat ← platform h
    try_else (fetch_image h bus shop crew job plat) (after_fetch job) (or_failed (end_failed job))

  -- `maintenance.acquire()`, once every five seconds where RAUC may still write; every try spends
  -- power, so that the power bounds the rounds.
  unfoldable pub acquire_rounds : Bool → ℕ → Action (Option Message)
  acquire_rounds waits zero = λ b. (cut, b)
  acquire_rounds waits (suc n) = do
    busy ← spend λ b. settled (crew.lease b.power) b
    elim busy [
      | none ↦ pure none
      | some m ↦ if waits then acquire_rounds waits n else pure (some m)
    ]

  unfoldable pub acquire : Bool → Action (Option Message)
  unfolding acquire_rounds
  acquire waits b = acquire_rounds waits b.power b

  -- What is done under the lease, by the state of the job.
  unfoldable pub by_state : Job → JobState → Action ℕ
  unfolding work
  by_state job installing = reconcile_install bus h (crew.recorded job.id) crew.started job
  by_state job restarting = activate h job
  by_state job _ = work job

  unfoldable pub under_lease : Job → Option Message → Action ℕ
  unfolding by_state
  under_lease job (some m) = end_failed job m
  under_lease job none = do set_guard h active (some job.id); by_state job job.state

  unfoldable pub run_held : Job → Bool → Action ℕ
  unfolding under_lease acquire
  run_held job true = end_cancelled job
  run_held job false = do busy ← acquire (is_installing job.state); under_lease job busy

  unfoldable pub run_found : Option Job → Action ℕ
  unfolding run_held
  run_found none = pure 0
  run_found (some job) =
      if is_for_worker job.state
      then (do stop ← is_cancelled job; run_held job (is_working job.state && stop))
      else pure 0

  -- `run_worker`
  unfoldable pub run_worker : Action ℕ
  unfolding run_found
  run_worker = do found ← journal; run_found found
