-- ===== src/OsConfirm.antt =====
-- epilykos_os_activate.py: the confirmation of a healthy trial, with the promotion of its app.
pub mod Promotion
pub mod Trial
pub mod Promoting
pub mod Confirmation
use epilykos_os.Base.{
  ℕ, zero, suc, max, Bool, true, false, not, ◌==◌, ◌||◌, ◌&&◌, if◌then◌else◌, Option, none, some,
  [], ◌∷◌, leb,
}
use epilykos_os.OsBox.{
  raise, Error, Slot, is_slot, activated, confirming, promoting, Env, left, trying, confirmed, says,
  Job, Release, os_update_error, trust_error, os_error, done, raised, cut, Action, ◌>>=◌, ◌>>◌,
  pure, raise_if, try_except, gets, set_phase, set_floor, Host, same_number, is_phase, required,
  journal, booted_slot, write_atomic, save, finish, read_env, set_env, clear_pending, mark_good,
}
use epilykos_os.OsActivate.{is_trial_phase}

-- The checks of `confirm_candidate` on the environment.
abbrev pub is_trial_of : ℕ → Slot → Env → Bool
is_trial_of job_id slot env =
    same_number env.pending (some job_id)
    && is_slot env.target slot
    && same_number env.trial_started (some job_id)
    && is_trial_phase env.phase

-- The job that `rebuild` makes up from the environment.
abbrev pub rebuilt : ℕ → ℕ → Env → Job
rebuilt id sequence env = record {
  id = id;
  request_id = none;
  state = trying;
  sequence = sequence;
  sha256 = none;
  size = none;
  source = env.from_slot;
  target = env.target;
  documents = none;
  image = some (record { size = none; sha256 = env.target_sha256 });
  progress = record { phase = trying; activated = false };
  error = none;
  reconstructed = true;
}

-- `job and job.get('id') == pending`
abbrev pub is_job : ℕ → Option Job → Bool
is_job id none = false
is_job id (some j) = j.id == id

-- `bool(current) and current.get('channel') == base['channel']`
abbrev pub is_same_channel : Option Release → Release → Bool
is_same_channel none base = false
is_same_channel (some c) base = c.channel == base.channel

abbrev pub sequence_of : Option Release → ℕ
sequence_of none = 0
sequence_of (some r) = r.sequence

-- The early returns of `promote_app`.
abbrev pub is_promoted : Option Release → Release → Bool
is_promoted current base =
    base.sequence == 0 || is_same_channel current base && leb base.sequence (sequence_of current)

abbrev pub or_zero : Option ℕ → ℕ
or_zero none = 0
or_zero (some n) = n

-- `except (osu.OsUpdateError, trust.TrustError, OSError): ...`
abbrev pub or_again : {A : Type 0} → Action A → Error → Action A
or_again again (os_update_error _) = again
or_again again (trust_error _) = again
or_again again os_error = again
or_again again e = raise e

module _ (h : Host) where
  -- `update._write` of one of the files of the promoted app; `_set_active` writes `active`.
  unfoldable pub write_previous : Option Release → Action (Unit {0})
  write_previous r = write_atomic h λ b. record b { app = record b.app { previous = r } }

  unfoldable pub write_current : Option Release → Action (Unit {0})
  write_current r = write_atomic h λ b. record b { app = record b.app { current = r } }

  unfoldable pub write_active : Option Release → Action (Unit {0})
  write_active r = write_atomic h λ b. record b { app = record b.app { active = r } }

  unfoldable pub write_floor : ℕ → Action (Unit {0})
  write_floor n = write_atomic h λ b. record b { app = record b.app { floor = some n } }

  -- `if same: update._write_json('previous.json', current)`
  unfoldable pub keep_previous : Bool → Option Release → Action (Unit {0})
  unfolding write_previous
  keep_previous true current = write_previous current
  keep_previous false current = pure tt

  -- `update._read_json('current.json')`
  unfoldable pub read_current : Action (Option Release)
  read_current = gets λ b. b.app.current

  -- The app's floor, with zero for a file that is missing or holds no number.
  unfoldable pub read_floor : Action ℕ
  read_floor = gets λ b. or_zero b.app.floor

  -- The writes of `promote_app`, unless the app that runs is as new.
  unfoldable pub promote_unless : Bool → Release → Option Release → Action (Unit {0})
  unfolding keep_previous write_current write_floor write_active read_floor
  promote_unless true base current = pure tt
  promote_unless false base current = do
    keep_previous (is_same_channel current base) current
    write_current (some base)
    stored ← read_floor
    write_floor (max stored base.sequence)
    write_active (some base)

  unfoldable pub promote_base : Release → Action (Unit {0})
  unfolding read_current promote_unless
  promote_base base = do
    current ← read_current
    promote_unless (is_promoted current base) base current

  unfoldable pub promote_found : Option Release → Action (Unit {0})
  unfolding promote_base
  promote_found none = pure tt
  promote_found (some base) = promote_base base

  unfoldable pub promote_app : Action (Unit {0})
  unfolding promote_found
  promote_app = promote_found h.baseline

  unfoldable pub make_job : Env → ℕ → Action Job
  make_job env id = do
    sequence ← required env.target_sequence
    save h (rebuilt id sequence env)
    pure (rebuilt id sequence env)

  unfoldable pub rebuild_as : Env → Option Job → ℕ → Bool → Action Job
  unfolding make_job
  rebuild_as env found id true = required found
  rebuild_as env found id false = make_job env id

  -- `epk_os_pending` is set wherever this is called.
  unfoldable pub rebuild : Env → Option Job → Action Job
  unfolding rebuild_as
  rebuild env found = do id ← required env.pending; rebuild_as env found id (is_job id found)

  -- `if env['epk_os_phase'] == 'activated': ...`
  unfoldable pub to_confirming : Env → Action Env
  to_confirming env =
      if is_phase env.phase activated
      then set_env h (set_phase (some confirming) ∷ [])
      else pure env

  -- The confirmation itself: mark-good, then the floor and the phase in one batch.
  unfoldable pub raise_floor : Slot → ℕ → Env → Action Env
  raise_floor slot sequence env = do
    code ← mark_good h slot
    raise_if (not (code == 0)) (os_update_error (says "Could not confirm the new system"))
    floor ← required env.floor
    set_env h (set_floor (some (max floor sequence)) ∷ set_phase (some promoting) ∷ [])

  unfoldable pub to_promoting : Slot → ℕ → Env → Action Env
  unfolding raise_floor
  to_promoting slot sequence env =
      if is_phase env.phase confirming then raise_floor slot sequence env else pure env

  -- What follows the check of the attempts.
  unfoldable pub conclude : Env → Action ℕ
  conclude env = do
    promote_app
    found ← journal
    job ← rebuild env found
    finish h job confirmed none
    clear_pending h
    pure 0

  -- What follows the check that this is the trial.
  unfoldable pub confirm_trial : Slot → ℕ → Env → Action ℕ
  unfolding to_confirming to_promoting conclude
  confirm_trial slot sequence first = do
    second ← to_confirming first
    env ← to_promoting slot sequence second
    raise_if (not (same_number (left slot env) (some 3)))
        (os_update_error (says "The confirmed system did not keep its attempts"))
    conclude env

  unfoldable pub confirm_candidate : ℕ → Action ℕ
  unfolding confirm_trial
  confirm_candidate job_id = do
    first ← read_env h
    slot ← booted_slot
    raise_if (not (is_trial_of job_id slot first))
        (os_update_error (says "This boot is not the trial of that OS update"))
    sequence ← required first.target_sequence
    confirm_trial slot sequence first

  -- The three attempts of `confirm_main`, for a well-formed command line.
  unfoldable pub confirm_attempts : ℕ → ℕ → Action ℕ
  confirm_attempts zero job_id = pure 1
  confirm_attempts (suc n) job_id =
      let again = confirm_attempts n job_id in
      try_except (confirm_candidate job_id) (or_again again)
