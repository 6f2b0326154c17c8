-- ===== src/OsBox/Calls.antt =====
-- The functions of epilykos_os_update.py and epilykos_os_activate.py that touch the durable state
-- or call a tool: everything else is written with these. Time stamps and log lines are left out.
use epilykos_os.Base.{
  ℕ, Bool, true, false, not, ◌==◌, if◌then◌else◌, Option, none, some, List, [], ◌∷◌,
}
use epilykos_os.OsBox.State.{
  Slot, same_slot, Phase, activation_intent, activated, confirming, promoting, Env, left, JobState,
  is_terminal, Message, says, Job, Journal, absent, unreadable, holds, GuardState, idle, Box,
}
use epilykos_os.OsBox.Machine.{
  os_update_error, trust_error, os_error, other_error, Outcome, done, raised, Action, ◌>>=◌, ◌>>◌,
  pure, raise, raise_if, spend,
}
use epilykos_os.OsBox.Outside.{
  Reply, no_answer, exit, Update, set_pending, set_target, set_from, set_target_sequence,
  set_target_sha256, set_phase, set_trial_started, set_floor, written, refused, unsynced, Disk,
  Host,
}

-- `!=` between what `env.get` gives and what was to be stored, by the kind of value.
abbrev pub same_number : Option ℕ → Option ℕ → Bool
same_number none none = true
same_number (some a) (some b) = a == b
same_number _ _ = false

abbrev pub same_slot? : Option Slot → Option Slot → Bool
same_slot? none none = true
same_slot? (some a) (some b) = same_slot a b
same_slot? _ _ = false

abbrev pub same_phase : Phase → Phase → Bool
same_phase activation_intent activation_intent = true
same_phase activated activated = true
same_phase confirming confirming = true
same_phase promoting promoting = true
same_phase _ _ = false

abbrev pub is_phase : Option Phase → Phase → Bool
is_phase none p = false
is_phase (some q) p = same_phase q p

abbrev pub same_phase? : Option Phase → Option Phase → Bool
same_phase? none none = true
same_phase? (some a) (some b) = same_phase a b
same_phase? _ _ = false

abbrev pub is_stored : Update → Env → Bool
is_stored (set_pending v) e = same_number e.pending v
is_stored (set_target v) e = same_slot? e.target v
is_stored (set_from v) e = same_slot? e.from_slot v
is_stored (set_target_sequence v) e = same_number e.target_sequence v
is_stored (set_target_sha256 v) e = same_number e.target_sha256 v
is_stored (set_phase v) e = same_phase? e.phase v
is_stored (set_trial_started v) e = same_number e.trial_started v
is_stored (set_floor v) e = same_number e.floor v

-- The keys of SLOTS: any other value raises KeyError.
abbrev pub required : {A : Type 0} → Option A → Action A
required none = raise other_error
required (some a) = pure a

-- `_run`: a command that does not answer raises.
abbrev pub answered : Reply → Outcome ℕ
answered no_answer = raised (os_update_error (says "did not answer"))
answered (exit code) = done code

abbrev pub journal_job : Journal → Action (Option Job)
journal_job absent = pure none
journal_job unreadable = raise (
    os_update_error
      (says "The OS update record is unreadable; OS updates are off until it is repaired"))
journal_job (holds j) = pure (some j)

-- `journal`
unfoldable pub journal : Action (Option Job)
journal b = journal_job b.journal b

abbrev pub known_slot : Option Slot → Action Slot
known_slot none = raise (os_update_error (says "Could not tell which system slot is running"))
known_slot (some s) = pure s

-- `booted_slot`
unfoldable pub booted_slot : Action Slot
booted_slot b = known_slot b.slot b

-- `job['state'] = state; job['progress'] = {'phase': state}`
abbrev pub enter : JobState → Option Message → Job → Job
enter state error job = record job {
  state = state;
  error = error;
  progress = record { phase = state; activated = false };
}

-- How each call ends, by what the disk or the tool answers.
abbrev pub wrote : Disk → (Box → Box) → Action (Unit {0})
wrote written change b = (done tt, change b)
wrote refused change b = (raised os_error, b)
wrote unsynced change b = (raised os_error, change b)

abbrev pub removed : Disk → (Box → Box) → Action (Unit {0})
removed refused change b = (raised os_error, b)
removed _ change b = (done tt, change b)

abbrev pub printed : Option Env → Action Env
printed none = raise (trust_error (says "system state is unreadable; OS updates are off"))
printed (some e) = pure e

abbrev pub is_active : Reply → Action Bool
is_active no_answer = raise (os_update_error (says "did not answer"))
is_active (exit code) = pure (code == 0)

abbrev pub started : Reply → Action (Unit {0})
started no_answer b = (raised (os_update_error (says "did not answer")), b)
started (exit code) b =
    if code == 0
    then (done tt, record b { worker_asked = true })
    else (raised (os_update_error (says "Could not start the OS update")), b)

-- The files `<job id>.*` of the staging directory.
abbrev pub drop_staged : ℕ → List ℕ → List ℕ
drop_staged id [] = []
drop_staged id (j ∷ js) = if j == id then drop_staged id js else j ∷ drop_staged id js

-- The loop of `set_env` over what was to be stored.
abbrev pub read_back : List Update → Env → Action (Unit {0})
read_back [] e = pure tt
read_back (u ∷ us) e =
    raise_if (not (is_stored u e))
      (os_update_error (says "The saved OS update state did not read back"))
    >> read_back us e

-- PENDING
abbrev pub cleared : List Update
cleared =
    set_pending none
    ∷ set_target none
    ∷ set_from none
    ∷ set_target_sequence none
    ∷ set_target_sha256 none
    ∷ set_phase none
    ∷ set_trial_started none
    ∷ []

module _ (h : Host) where
  unfoldable pub layout : Action (Unit {0})
  layout = spend λ b.
      raise_if (not (h.layout_usable b.power))
        (os_update_error (says "The OS update state directory is not usable")) b

  unfoldable pub write_atomic : (Box → Box) → Action (Unit {0})
  write_atomic change = spend λ b. wrote (h.disk b.power) change b

  -- `_remove`: a file that is not there is fine.
  unfoldable pub remove : (Box → Box) → Action (Unit {0})
  remove change = spend λ b. removed (h.disk b.power) change b

  unfoldable pub save : Job → Action (Unit {0})
  save job = do layout; write_atomic λ b. record b { journal = holds job }

  unfoldable pub set_guard : GuardState → Option ℕ → Action (Unit {0})
  set_guard state job = do
    layout
    write_atomic λ b. record b { guard = some (record { state = state; job = job }) }

  -- What `finish` does for a job that has ended.
  unfoldable pub release_job : ℕ → Bool → Action (Unit {0})
  release_job id true = do
    remove λ b. record b { staging = drop_staged id b.staging }
    set_guard idle none
  release_job id false = pure tt

  unfoldable pub finish : Job → JobState → Option Message → Action (Unit {0})
  unfolding release_job
  finish job state error = do save (enter state error job); release_job job.id (is_terminal state)

  -- trust.read_env
  unfoldable pub read_env : Action Env
  read_env = spend λ b. printed (h.fw_printenv b.power b.env) b

  unfoldable pub fw_setenv : List Update → Action ℕ
  fw_setenv values = spend λ b.
      let (reply, e) = h.fw_setenv b.power values b.env in (answered reply, record b { env = e })

  unfoldable pub set_env : List Update → Action Env
  set_env values = do
    code ← fw_setenv values
    raise_if (not (code == 0)) (os_update_error (says "Could not save the OS update state"))
    env ← read_env
    read_back values env
    pure env

  unfoldable pub clear_pending : Action Env
  clear_pending = set_env cleared

  -- `rauc status mark-bad <slot>`, and the other two marks.
  unfoldable pub mark_bad : Slot → Action ℕ
  mark_bad s =
      spend
        λ b. let (reply, e) = h.mark_bad b.power s b.env in (answered reply, record b { env = e })

  unfoldable pub mark_active : Slot → Action ℕ
  mark_active s =
      spend λ b.
        let (reply, e) = h.mark_active b.power s b.env in (answered reply, record b { env = e })

  unfoldable pub mark_good : Slot → Action ℕ
  mark_good s =
      spend
        λ b. let (reply, e) = h.mark_good b.power s b.env in (answered reply, record b { env = e })

  unfoldable pub target_bad : Option Slot → Action Bool
  target_bad target = do
    s ← required target
    mark_bad s
    env ← read_env
    pure (same_number (left s env) (some 0))

  unfoldable pub worker_active : Action Bool
  worker_active = spend λ b. is_active (h.is_active b.power) b

  unfoldable pub start_worker : Action (Unit {0})
  start_worker = spend λ b. started (h.start_worker b.power) b

  unfoldable pub reboot : Action ℕ
  reboot = spend λ b. (answered (h.reboot b.power), record b { reboot_asked = true })
