-- ===== src/OsBox/Outside.antt =====
-- What the two modules call and do not implement: fw_setenv and fw_printenv, RAUC, systemd, podman,
-- the disk and the trust checks. A call is told its number, so that the same call may end
-- differently at another time.
use epilykos_os.Base.{ℕ, ◌≡◌, ◌⊎◌, Option, some, List, [], ◌∷◌, Bool, Result}
use epilykos_os.Storage.{Usage}
use epilykos_os.OsBox.State.{Slot, Phase, Env, left, Message, Release, Documents}
use epilykos_os.OsBox.Machine.{Error}

-- A command that did not answer, or its exit status.
pub data Reply : Type 0 where
  no_answer : Reply
  exit : ℕ → Reply

-- One line of the script for fw_setenv; `none` deletes the variable.
pub data Update : Type 0 where
  set_pending : Option ℕ → Update
  set_target : Option Slot → Update
  set_from : Option Slot → Update
  set_target_sequence : Option ℕ → Update
  set_target_sha256 : Option ℕ → Update
  set_phase : Option Phase → Update
  set_trial_started : Option ℕ → Update
  set_floor : Option ℕ → Update

abbrev pub assign : Update → Env → Env
assign (set_pending v) e = record e { pending = v }
assign (set_target v) e = record e { target = v }
assign (set_from v) e = record e { from_slot = v }
assign (set_target_sequence v) e = record e { target_sequence = v }
assign (set_target_sha256 v) e = record e { target_sha256 = v }
assign (set_phase v) e = record e { phase = v }
assign (set_trial_started v) e = record e { trial_started = v }
assign (set_floor v) e = record e { floor = v }

abbrev pub assign_all : List Update → Env → Env
assign_all [] e = e
assign_all (u ∷ us) e = assign_all us (assign u e)

-- How `_write_atomic` ended: written; nothing changed; changed, but the directory was not synced.
pub data Disk : Type 0 where
  written refused unsynced : Disk

-- What trust.current_state, trust.verify_os_release and the platform record give to this code.
pub record Platform : Type 0 where
  pub os_sequence : ℕ

pub record TrustState : Type 0 where
  pub policy : ℕ
  pub floor : ℕ

pub record Entry : Type 0 where
  pub sequence : ℕ
  pub bundle_size : ℕ
  pub bundle_sha256 : ℕ

pub record Host : Type 0 where
  pub fw_setenv : ℕ → List Update → Env → Reply × Env
  pub fw_printenv : ℕ → Env → Option Env
  pub mark_bad : ℕ → Slot → Env → Reply × Env
  pub mark_active : ℕ → Slot → Env → Reply × Env
  pub mark_good : ℕ → Slot → Env → Reply × Env
  pub is_active : ℕ → Reply
  pub start_worker : ℕ → Reply
  pub reboot : ℕ → Reply
  pub layout_usable : ℕ → Bool
  pub disk : ℕ → Disk
  pub platform : ℕ → Result Error (Option Platform)
  pub current_state : ℕ → Platform → Env → Result Error TrustState
  pub verify_os_release : Documents → Platform → ℕ → Result Error Entry
  pub app_blockers : ℕ → List Message
  pub usage : ℕ → Usage
  pub device : ℕ → Slot → Option (List ℕ)
  pub sha256 : List ℕ → ℕ
  pub baseline : Option Release

-- The variables that RAUC does not touch.
abbrev pub SameRecord : Env → Env → Type 0
SameRecord e e' =
    (e'.pending ≡ e.pending)
    × (e'.target ≡ e.target)
    × (e'.from_slot ≡ e.from_slot)
    × (e'.target_sequence ≡ e.target_sequence)
    × (e'.target_sha256 ≡ e.target_sha256)
    × (e'.phase ≡ e.phase)
    × (e'.trial_started ≡ e.trial_started)
    × (e'.floor ≡ e.floor)

-- The documented behaviour of the tools: fw_printenv prints the environment, fw_setenv applies its
-- script whole or not at all whatever it answers, the marks of RAUC touch only the BOOT_
-- variables, and mark-bad gives no slot an attempt.
pub record IsFaithful (h : Host) : Type 0 where
  pub printed : (t : ℕ) (e : Env) {e' : Env} → h.fw_printenv t e ≡ some e' → e' ≡ e
  pub atomic :
      (t : ℕ) (us : List Update) (e : Env)
      → ((h.fw_setenv t us e).1 ≡ e) ⊎ ((h.fw_setenv t us e).1 ≡ assign_all us e)
  pub bad_record : (t : ℕ) (s : Slot) (e : Env) → SameRecord e (h.mark_bad t s e).1
  pub bad_left :
      (t : ℕ) (s r : Slot) (e : Env)
      → (left r (h.mark_bad t s e).1 ≡ left r e) ⊎ (left r (h.mark_bad t s e).1 ≡ some 0)
  pub active_record : (t : ℕ) (s : Slot) (e : Env) → SameRecord e (h.mark_active t s e).1
  pub good_record : (t : ℕ) (s : Slot) (e : Env) → SameRecord e (h.mark_good t s e).1
