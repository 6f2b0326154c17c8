-- ===== src/Samples/Bench.antt =====
-- A host whose tools always answer and do what is asked, and a card that it runs.
use epilykos_os.Base.{
  ℕ, ◌≡◌, refl, ◌⊎◌, inl, inr, true, false, Option, none, some, [], ◌∷◌, arith, ok,
}
use epilykos_os.OsBox.{
  Slot, slot_a, slot_b, other, Env, left, restarting, Job, holds, pending, activated, Box, Host,
  IsFaithful, exit, assign_all, written, ready,
}

-- A slot's attempts, as RAUC sets them.
abbrev with_left : Slot → Option ℕ → Env → Env
with_left slot_a n e = record e { left_a = n }
with_left slot_b n e = record e { left_b = n }

abbrev pub bench : Host
bench = record {
  fw_setenv = λ t us e. (exit 0, assign_all us e);
  fw_printenv = λ t e. some e;
  mark_bad = λ t s e. (exit 0, with_left s (some 0) e);
  mark_active =
      λ t s e. (exit 0, with_left s (some 3) (record e { boot_order = s ∷ other s ∷ [] }));
  mark_good = λ t s e. (exit 0, with_left s (some 3) e);
  is_active = λ t. exit 3;
  start_worker = λ t. exit 0;
  reboot = λ t. exit 0;
  layout_usable = λ t. true;
  disk = λ t. written;
  platform = λ t. ok (some (record { os_sequence = 7 }));
  current_state = λ t p e. ok (record { policy = 1; floor = 7 });
  verify_os_release =
      λ d p policy. ok (record { sequence = 8; bundle_size = 1000; bundle_sha256 = 5 });
  app_blockers = λ t. [];
  usage = λ t. record { total = 32000000000; free = 20000000000 };
  device = λ t s. some (1 ∷ 2 ∷ 3 ∷ []);
  sha256 = λ bytes. 6;
  baseline = none;
}

bad_left :
    (s r : Slot) (e : Env)
    → (left r (with_left s (some 0) e) ≡ left r e) ⊎ (left r (with_left s (some 0) e) ≡ some 0)
bad_left slot_a slot_a e = inr refl
bad_left slot_a slot_b e = inl refl
bad_left slot_b slot_a e = inl refl
bad_left slot_b slot_b e = inr refl

-- The marks of the bench touch only the attempts and the order.
abbrev Untouched : Env → Env → Type 0
Untouched e e' =
    (e'.pending ≡ e.pending)
    × (e'.target ≡ e.target)
    × (e'.from_slot ≡ e.from_slot)
    × (e'.target_sequence ≡ e.target_sequence)
    × (e'.target_sha256 ≡ e.target_sha256)
    × (e'.phase ≡ e.phase)
    × (e'.trial_started ≡ e.trial_started)
    × (e'.floor ≡ e.floor)

with_left-Untouched : (s : Slot) (n : Option ℕ) (e : Env) → Untouched e (with_left s n e)
with_left-Untouched slot_a n e = (refl, refl, refl, refl, refl, refl, refl, refl)
with_left-Untouched slot_b n e = (refl, refl, refl, refl, refl, refl, refl, refl)

pub bench-IsFaithful : IsFaithful bench
bench-IsFaithful = record {
  printed = λ t e {e'} h. ground arith;
  atomic = λ t us e. inr refl;
  bad_record = λ t s e. with_left-Untouched s (some 0) e;
  bad_left = λ t s r e. bad_left s r e;
  active_record =
      λ t s e. with_left-Untouched s (some 3) (record e { boot_order = s ∷ other s ∷ [] });
  good_record = λ t s e. with_left-Untouched s (some 3) e;
}

-- Slot A runs with its attempts, slot B holds the installed image and has none.
abbrev pub installed_env : Env
installed_env = record {
  pending = none;
  target = none;
  from_slot = none;
  target_sequence = none;
  target_sha256 = none;
  phase = none;
  trial_started = none;
  floor = some 7;
  boot_order = slot_a ∷ slot_b ∷ [];
  left_a = some 3;
  left_b = some 0;
}

abbrev pub restarting_job : Job
restarting_job = record {
  id = 41;
  request_id = some 1;
  state = restarting;
  sequence = 8;
  sha256 = some 5;
  size = some 1000;
  source = some slot_a;
  target = some slot_b;
  documents = some (record { entry = 1; entry_sig = 2; policy = 3; policy_sig = 4 });
  image = some (record { size = some 3; sha256 = some 6 });
  progress = record { phase = restarting; activated = false };
  error = none;
  reconstructed = false;
}

abbrev pub card : Box
card = record {
  power = 100;
  slot = some slot_a;
  env = installed_env;
  journal = holds restarting_job;
  guard = some (record { state = pending; job = some 41 });
  cancel = none;
  staging = 41 ∷ [];
  app = record { current = none; previous = none; floor = none; active = none };
  reboot_asked = false;
  worker_asked = true;
}

-- Slot B runs for the first time with the new system.
abbrev pub trial_env : Env
trial_env = record installed_env {
  pending = some 41;
  target = some slot_b;
  from_slot = some slot_a;
  target_sequence = some 8;
  target_sha256 = some 6;
  phase = some activated;
  trial_started = some 41;
  boot_order = slot_b ∷ slot_a ∷ [];
  left_b = some 2;
}

abbrev pub trial_card : Box
trial_card = record card { slot = some slot_b; env = trial_env; worker_asked = false }

-- The trial of slot B used up its attempts, and the loader fell back to slot A.
abbrev pub fallen_card : Box
fallen_card = record card { env = record trial_env { left_b = some 0 }; worker_asked = false }

-- The job before Restart.
abbrev pub ready_job : Job
ready_job = record restarting_job { state = ready }

abbrev pub ready_card : Box
ready_card = record card { journal = holds ready_job }
