-- ===== src/BootHealth/Record.antt =====
-- The supervisor's state, what it asks of the outside, and what it knows of a boot.
use epilykos_os.Base.{
  ℕ, ◌+◌, ◌*◌, Bool, true, false, not, ◌&&◌, ◌==◌, leb, if◌then◌else◌, Option, none, some, List, [],
  ◌∷◌, Text, codes, same_codes, same_codes?, is_empty, strip, split_words, after_prefix, get,
  is_digits, to_int,
}

abbrev pub second : ℕ
second = 1000000

-- DEADLINE_S, REBOOT_FORCE_S and REBOOT_SYSRQ_S.
abbrev pub deadline_time : ℕ
deadline_time = 1200 * second

abbrev pub force_time : ℕ
force_time = 120 * second

abbrev pub sysrq_time : ℕ
sysrq_time = 60 * second

-- The commands that the loop polls.
pub data Task : Type 0 where
  is_failed podman_info inspect printenv mark_good stop_app : Task
  coordinate : Text → Task

-- BOUNDS
abbrev pub bound : Task → ℕ
bound is_failed = 15 * second
bound printenv = 15 * second
bound podman_info = 60 * second
bound inspect = 20 * second
bound mark_good = 60 * second
bound (coordinate job) = 300 * second
bound stop_app = 60 * second

-- The commands that are only started.
pub data Request : Type 0 where
  reboot force_reboot : Request

-- The clock as it is read within a tick, the start of a command, the answer of `poll` with the
-- output, the mount of DATA, and the coordinator's file.
pub record World : Type 0 where
  pub clock : ℕ → ℕ
  pub spawns : ℕ → Task → Bool
  pub poll : ℕ → Task → Option (ℕ × Text)
  pub is_mounted : ℕ → Bool
  pub has_coordinator : ℕ → Bool
  pub requests : ℕ → Request → Bool
  pub resets : ℕ → Bool

-- A Command: its process is missing if it could not be started.
pub record Command : Type 0 where
  pub task : Task
  pub started : ℕ
  pub runs : Bool

-- What `result` gives: an exit status and output, or 'timeout'.
pub data Finished : Type 0 where
  exited : ℕ → Text → Finished
  timeout : Finished

abbrev pub is_ok : Finished → Bool
is_ok (exited code out) = code == 0
is_ok timeout = false

abbrev pub output : Finished → Text
output (exited code out) = out
output timeout = []

pub data State : Type 0 where
  checking confirming done rebooting : State

pub data Reason : Type 0 where
  data_failed not_healthy : Reason

-- An attribute that `hasattr` does not find is none. `beats` counts the heartbeats, `recorded` the
-- calls of `record`, and `sent` has the reboots that were asked for, the newest first.
pub record Supervisor : Type 0 where
  pub deadline : ℕ
  pub slot : Option Text
  pub mount_check : Option Command
  pub mount_checked : Option ℕ
  pub mount_failed : Bool
  pub state : State
  pub podman : Option Command
  pub health : Option Command
  pub env_read : Option Command
  pub env : Option (List (Text × Text))
  pub finish : Option Command
  pub reason : Option Reason
  pub reboot_at : ℕ
  pub stage : ℕ
  pub stopping : Option Command
  pub beats : ℕ
  pub recorded : List (Option Text)
  pub sent : List Request
  pub reset : Bool

-- A step returns the state that it names, or raises where a Popen does.
pub data Step : Type 0 where
  returned : State → Supervisor → Step
  raised : Supervisor → Step

-- The slot that the kernel was started with.
unfoldable pub slot_of : List Text → Option Text
slot_of [] = none
slot_of (word ∷ words) = elim (after_prefix (codes "rauc.slot=") word) [
  | some slot ↦ some slot
  | none ↦ slot_of words
]

unfoldable pub booted_slot : Text → Option Text
unfolding slot_of split_words
booted_slot cmdline = slot_of (split_words cmdline)

-- The answer of systemctl as microseconds.
unfoldable pub userspace_start : Finished → Option ℕ
unfolding strip
userspace_start result =
    let word = strip (output result) in
    if is_ok result && (is_digits word && leb 1 (to_int word)) then some (to_int word) else none

-- A new supervisor of a boot whose userspace started at `start`.
abbrev pub supervise : ℕ → Text → Supervisor
supervise start cmdline = record {
  deadline = start + deadline_time;
  slot = booted_slot cmdline;
  mount_check = none;
  mount_checked = none;
  mount_failed = false;
  state = checking;
  podman = none;
  health = none;
  env_read = none;
  env = none;
  finish = none;
  reason = none;
  reboot_at = 0;
  stage = 0;
  stopping = none;
  beats = 0;
  recorded = [];
  sent = [];
  reset = false;
}

-- `hasattr`, with the command that is made where it is missing.
abbrev pub or_new : Option Command → Command → Command
or_new none c = c
or_new (some c) new = c

-- `env.get(name, '')` and `env.get(name)`.
abbrev pub get_or : Text → List (Text × Text) → Text
get_or name env = elim (get name env) [ none ↦ [] | some v ↦ v ]

abbrev pub pending_of : List (Text × Text) → Text
pending_of env = get_or (codes "epk_os_pending") env

abbrev pub same_texts : Option Text → Option Text → Bool
same_texts none none = true
same_texts (some s) (some t) = same_codes s t
same_texts _ _ = false

abbrev pub is_trial : Option Text → List (Text × Text) → Bool
is_trial slot env =
    not (is_empty (pending_of env))
    && (same_texts slot (get (codes "epk_os_target") env)
        && same_codes? (get (codes "epk_os_trial_started") env) (pending_of env))
