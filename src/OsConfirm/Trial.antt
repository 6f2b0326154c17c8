-- ===== src/OsConfirm/Trial.antt =====
-- What holds of the environment and the journal during the trial of a new system, and once it is
-- confirmed.
use epilykos_os.Base.{
  ℕ, ◌≡◌, refl, ◌⊎◌, Bool, true, false, not, ◌||◌, Option, none, some, arith, ◌≤◌, max, leb, leb→le,
  ◌&&◌,
}
use epilykos_os.OsBox.{
  Slot, slot_a, slot_b, Env, Phase, activated, confirming, promoting, confirmed, Job, holds, idle,
  assign_all, cleared, same_number, same_phase?, is_phase, Predicate, on_guard, left, is_slot,
}
use epilykos_os.OsActivate.{is_trial_phase}
use epilykos_os.OsConfirm.{or_zero}

-- Once the phase is `promoting`, the floor is at least the sequence.
abbrev pub is_raised : ℕ → Env → Bool
is_raised seq e = not (is_phase e.phase promoting) || leb seq (or_zero e.floor)

-- The environment during the trial of a job with this sequence; `n` is a bound of the floor.
abbrev pub InTrial : ℕ → ℕ → Slot → ℕ → Predicate
InTrial id seq slot n e j g =
    (e.pending ≡ some id)
    × (e.trial_started ≡ some id)
    × (e.target ≡ some slot)
    × (e.target_sequence ≡ some seq)
    × (is_trial_phase e.phase ≡ true)
    × (is_raised seq e ≡ true)
    × (n ≤ or_zero e.floor)

-- The journal has the job confirmed, the floor has been raised, and the slot kept its attempts.
abbrev pub IsConfirmed : ℕ → ℕ → Slot → ℕ → Predicate
IsConfirmed id seq slot n e j g =
    (k : Job) × (j ≡ holds k)
    × (k.id ≡ id)
    × (k.state ≡ confirmed)
    × (seq ≤ or_zero e.floor)
    × (n ≤ or_zero e.floor)
    × (left slot e ≡ some 3)

-- What a cut may leave.
abbrev pub Resumable : ℕ → ℕ → Slot → ℕ → Predicate
Resumable id seq slot n e j g = InTrial id seq slot n e j g ⊎ IsConfirmed id seq slot n e j g

-- How a confirmation ends that returns `code`.
abbrev pub Confirms : ℕ → ℕ → Slot → ℕ → ℕ → Predicate
Confirms id seq slot n code e j g =
    (IsConfirmed id seq slot n e j g × (g ≡ on_guard idle none)) × (e.pending ≡ none) × (code ≡ 0)

pub stored_confirming :
    (o : Option Phase) → same_phase? o (some confirming) ≡ true → is_phase o activated ≡ false
stored_confirming o e = ground arith

pub stored_promoting :
    (o : Option Phase) → same_phase? o (some promoting) ≡ true → is_phase o promoting ≡ true
stored_promoting o e = ground arith

pub leb-max : (s f : ℕ) → leb s (max f s) ≡ true
leb-max s f = ground arith

pub le_max : (n f s : ℕ) → n ≤ f → n ≤ max f s
le_max n f s h = ground arith

pub is_raised_le :
    (seq : ℕ) (e : Env)
    → is_phase e.phase promoting ≡ true
    → is_raised seq e ≡ true
    → seq ≤ or_zero e.floor
is_raised_le seq e phase raised =
    leb→le _ _ (raised_leb (is_phase e.phase promoting) _ phase raised)
  where
    raised_leb : (p l : Bool) → p ≡ true → (not p || l) ≡ true → l ≡ true
    raised_leb p l h r = ground arith

pub kept_three : (o : Option ℕ) → not (same_number o (some 3)) ≡ false → o ≡ some 3
kept_three o h = ground arith

pub same_some : (o : Option ℕ) (a b : ℕ) → o ≡ some a → o ≡ some b → a ≡ b
same_some o a b h k = ground arith

pub is_last :
    (o : Option Phase)
    → is_trial_phase o ≡ true
    → is_phase o activated ≡ false
    → is_phase o confirming ≡ false
    → is_phase o promoting ≡ true
is_last o trial a c = ground arith

pub second_of : (a b c d : Bool) → not (a && b && c && d) ≡ false → b ≡ true
second_of a b c d h = ground arith

pub is_slot-eq : (o : Option Slot) (t s : Slot) → o ≡ some t → is_slot o s ≡ true → t ≡ s
is_slot-eq o slot_a slot_a at h = refl
is_slot-eq o slot_b slot_b at h = refl
is_slot-eq o slot_a slot_b at h = ground arith
is_slot-eq o slot_b slot_a at h = ground arith

pub stored_none : (o : Option ℕ) → same_number o none ≡ true → o ≡ none
stored_none o h = ground arith

pub left-cleared : (s : Slot) (e : Env) → left s (assign_all cleared e) ≡ left s e
left-cleared slot_a e = refl
left-cleared slot_b e = refl
