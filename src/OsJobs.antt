-- ===== src/OsJobs.antt =====
-- epilykos_os_update.py: the actions of hostd on the job: `view`, `cancel` and `dismiss`; `install`
-- is in OsJobs/Install. What they answer is the View; the version, the channel and the link to the
-- notes are left out.
pub mod Install
pub mod Check
pub mod Untouched
mod Views
pub mod Ordered
pub mod Admitted
pub mod Ended
mod Examples
use epilykos_os.Base.{
  ℕ, ◌+◌, Bool, true, false, not, ◌==◌, ◌||◌, ◌&&◌, if◌then◌else◌, Option, none, some, List, [],
  ◌∷◌, ◌++◌, String, Result, ok, err,
}
use epilykos_os.OsBox.{
  enter, Slot, same_slot, other, Env, Journal, JobState, queued, cancelled, is_working, is_terminal,
  is_for_worker, Message, says, Documents, Progress, Job, GuardState, Error, os_update_error,
  trust_error, os_error, done, Action, ◌>>=◌, ◌>>◌, pure, raise, raise_if, gets, try_except,
  try_else, spend, Host, Platform, TrustState, Entry, same_number, required, journal, booted_slot,
  write_atomic, remove, save, finish, read_env, worker_active, start_worker,
}
use epilykos_os.OsUpdate.{starts_by, guard_state, is_idle, or_os_update_error, platform, settled}
use epilykos_os.OsActivate.{
  oci_allowance, is_stale, current_state, verify_os_release, raise_first, admit_space, app_blockers,
}

-- What a job shows of itself.
pub record PublicJob : Type 0 where
  pub id : ℕ
  pub request_id : Option ℕ
  pub state : JobState
  pub sequence : ℕ
  pub size : Option ℕ
  pub progress : Progress
  pub error : Option Message
  pub source : Option Slot
  pub target : Option Slot

abbrev pub public : Option Job → Option PublicJob
public none = none
public (some j) = some (record {
  id = j.id;
  request_id = j.request_id;
  state = j.state;
  sequence = j.sequence;
  size = j.size;
  progress = j.progress;
  error = j.error;
  source = j.source;
  target = j.target;
})

-- `{'supported': False, 'reason': ...}`, or the guard with the job or the sentence why there is none.
pub data View : Type 0 where
  unsupported : Message → View
  supported : GuardState → Option PublicJob → View
  without_job : GuardState → Message → View

abbrev pub old_card : Message
old_card = says "This card was made before OS updates from Settings."

abbrev pub is_resumable : Option Job → Bool
is_resumable none = false
is_resumable (some j) = is_for_worker j.state

-- `not job or job['id'] != job_id`, negated.
abbrev pub is_named : ℕ → Option Job → Bool
is_named id none = false
is_named id (some j) = j.id == id

abbrev pub is_cancellable : Option Job → Bool
is_cancellable none = false
is_cancellable (some j) = is_working j.state

abbrev pub has_ended : Option Job → Bool
has_ended none = false
has_ended (some j) = is_terminal j.state

module _ (h : Host) where
  unfoldable pub ensure_worker : Option Job → Action (Unit {0})
  ensure_worker job =
      if is_resumable job
      then (do running ← worker_active h; if running then pure tt else start_worker h)
      else pure tt

  -- The part of `view` behind the platform; with `resume`, a look starts a worker that went away.
  unfoldable pub view_job : Bool → GuardState → Action View
  unfolding ensure_worker
  view_job resume g =
      try_except
        (do
          job ← journal
          if resume then ensure_worker job else pure tt
          pure (supported g (public job)))
        (or_os_update_error λ m. pure (without_job g m))

  unfoldable pub view_card : Bool → Option Platform → Action View
  unfolding view_job
  view_card resume none = pure (unsupported old_card)
  view_card resume (some _) = do g ← gets λ b. guard_state b.guard; view_job resume g

  unfoldable pub view : Bool → Action View
  unfolding view_card
  view resume =
      try_else (platform h) (view_card resume) (or_os_update_error λ m. pure (unsupported m))

  unfoldable pub cancel : ℕ → Action View
  cancel job_id = do
    found ← journal
    raise_if (not (is_named job_id found)) (os_update_error (says "That OS update is not running"))
    raise_if (not (is_cancellable found)) (
        os_update_error
          (says "The OS update can no longer be cancelled; it will finish installing first"))
    job ← required found
    write_atomic h λ b. record b { cancel = some job_id }
    running ← worker_active h
    if running then pure tt else finish h job cancelled none
    view false

  unfoldable pub dismiss : ℕ → Action View
  dismiss job_id = do
    found ← journal
    raise_if (not (is_named job_id found && has_ended found))
        (os_update_error (says "There is no finished OS update to dismiss"))
    remove h λ b. record b { journal = Journal.absent }
    view true
