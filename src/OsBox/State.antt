-- ===== src/OsBox/State.antt =====
-- The durable state of an OS update: the job in journal.json, the guard in guard.json, the
-- variables of the redundant U-Boot environment, and the app's promotion record.
-- Identifiers, digests and request IDs are only compared, so they are numbers.
use epilykos_os.Base.{ℕ, String, Bool, true, false, Option, none, some, List}
use epilykos_os.Storage.{StorageError}

pub data Slot : Type 0 where
  slot_a slot_b : Slot

abbrev pub same_slot : Slot → Slot → Bool
same_slot slot_a slot_a = true
same_slot slot_b slot_b = true
same_slot _ _ = false

-- `env.get(...) == slot`: a variable that is missing or names no slot equals none.
abbrev pub is_slot : Option Slot → Slot → Bool
is_slot none s = false
is_slot (some t) s = same_slot t s

-- `osu.other`
abbrev pub other : Slot → Slot
other slot_a = slot_b
other slot_b = slot_a

pub data Phase : Type 0 where
  activation_intent activated confirming promoting : Phase

-- The variables that the two modules read and write; `none` is a variable that is not set. The
-- guarded environment holds numbers as canonical decimals, so they are numbers here.
pub record Env : Type 0 where
  pub pending : Option ℕ
  pub target : Option Slot
  pub from_slot : Option Slot
  pub target_sequence : Option ℕ
  pub target_sha256 : Option ℕ
  pub phase : Option Phase
  pub trial_started : Option ℕ
  pub floor : Option ℕ
  pub boot_order : List Slot
  pub left_a : Option ℕ
  pub left_b : Option ℕ

-- BOOT_<slot>_LEFT, the attempts that the loader has for a slot.
abbrev pub left : Slot → Env → Option ℕ
left slot_a e = e.left_a
left slot_b e = e.left_b

-- `env.get(f'BOOT_{target}_LEFT')`
abbrev pub left_of : Option Slot → Env → Option ℕ
left_of none e = none
left_of (some s) e = left s e

pub data JobState : Type 0 where
  queued downloading verifying installing ready restarting trying reconciling : JobState
  confirmed rolled_back failed cancelled discarded : JobState

-- WORKING
abbrev pub is_working : JobState → Bool
is_working queued = true
is_working downloading = true
is_working verifying = true
is_working _ = false

-- WORKING + ('installing', 'restarting')
abbrev pub is_for_worker : JobState → Bool
is_for_worker installing = true
is_for_worker restarting = true
is_for_worker s = is_working s

-- TERMINAL
abbrev pub is_terminal : JobState → Bool
is_terminal confirmed = true
is_terminal rolled_back = true
is_terminal failed = true
is_terminal cancelled = true
is_terminal discarded = true
is_terminal _ = false

abbrev pub is_ready : JobState → Bool
is_ready ready = true
is_ready _ = false

-- The sentences of the exceptions, as `job['error']` records them.
pub data Message : Type 0 where
  says : String → Message
  space : StorageError → Message
  noted : Message → String → Message

-- The signed documents of a job, in base64 on DATA; they are only handed on.
pub record Documents : Type 0 where
  pub entry : ℕ
  pub entry_sig : ℕ
  pub policy : ℕ
  pub policy_sig : ℕ

-- `job['image']`: the size is missing from a job that was rebuilt from the environment.
pub record Image : Type 0 where
  pub size : Option ℕ
  pub sha256 : Option ℕ

pub record Progress : Type 0 where
  pub phase : JobState
  pub activated : Bool

pub record Job : Type 0 where
  pub id : ℕ
  pub request_id : Option ℕ
  pub state : JobState
  pub sequence : ℕ
  pub sha256 : Option ℕ
  pub size : Option ℕ
  pub source : Option Slot
  pub target : Option Slot
  pub documents : Option Documents
  pub image : Option Image
  pub progress : Progress
  pub error : Option Message
  pub reconstructed : Bool

pub data Journal : Type 0 where
  absent unreadable : Journal
  holds : Job → Journal

pub data GuardState : Type 0 where
  idle active pending reconciling : GuardState

pub record Guard : Type 0 where
  pub state : GuardState
  pub job : Option ℕ

-- An application release, as current.json and previous.json hold it.
pub record Release : Type 0 where
  pub release : ℕ
  pub channel : ℕ
  pub sequence : ℕ
  pub digest : ℕ
  pub image_id : ℕ

-- The files of epilykos_update that a confirmed OS update writes.
pub record AppFiles : Type 0 where
  pub current : Option Release
  pub previous : Option Release
  pub floor : Option ℕ
  pub active : Option Release

-- `power` counts the writes and outside calls that are left before the power fails. `staging` lists
-- the jobs that own files there, `cancel` is the job that the cancel request names. `reboot_asked`
-- and `worker_asked` record what systemd was told.
pub record Box : Type 0 where
  pub power : ℕ
  pub slot : Option Slot
  pub env : Env
  pub journal : Journal
  pub guard : Option Guard
  pub cancel : Option ℕ
  pub staging : List ℕ
  pub app : AppFiles
  pub reboot_asked : Bool
  pub worker_asked : Bool
