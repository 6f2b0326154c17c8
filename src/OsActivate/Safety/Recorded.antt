-- ===== src/OsActivate/Safety/Recorded.antt =====
-- When a job that is ready or restarting is safe: its target has no attempts left, or the
-- environment names the job as pending, so that the next boot knows of the trial.
use epilykos_os.Base.{
  ℕ, ◌≡◌, ◌⊎◌, Bool, true, false, not, ◌||◌, Option, none, some, arith, subst, sym,
}
use epilykos_os.OsBox.{
  Slot, slot_a, slot_b, Env, left, left_of, JobState, ready, restarting, Job, Journal, absent,
  unreadable, holds, Guard, SameRecord, same_number, Predicate,
}

-- `job['state'] in ('restarting', 'ready')`
abbrev pub is_awaiting : JobState → Bool
is_awaiting ready = true
is_awaiting restarting = true
is_awaiting _ = false

abbrev pub is_zero : Option Slot → Env → Bool
is_zero target e = same_number (left_of target e) (some 0)

abbrev pub is_recorded : Env → Job → Bool
is_recorded e j =
    not (is_awaiting j.state) || (is_zero j.target e || same_number e.pending (some j.id))

abbrev pub IsSafe : Predicate
IsSafe e (holds j) g = is_recorded e j ≡ true
IsSafe e absent g = Unit {0}
IsSafe e unreadable g = Unit {0}

-- The journal holds the job, up to fields that safety does not read.
abbrev pub HasJob : Job → Predicate
HasJob job e j g = (j₀ : Job) × (j ≡ holds j₀) × (j₀.id ≡ job.id) × (j₀.target ≡ job.target)

-- What mark-bad may do to the attempts.
abbrev pub FewerAttempts : Env → Env → Type 0
FewerAttempts e e' = (r : Slot) → (left r e' ≡ left r e) ⊎ (left r e' ≡ some 0)

is_zero-fewer :
    (t : Option Slot) (e e' : Env) → FewerAttempts e e' → is_zero t e ≡ true → is_zero t e' ≡ true
is_zero-fewer none e e' l z = z
is_zero-fewer (some slot_a) e e' l z = ground (arith, l slot_a)
is_zero-fewer (some slot_b) e e' l z = ground (arith, l slot_b)

is_recorded-fewer :
    (e e' : Env) (j : Job)
    → SameRecord e e'
    → FewerAttempts e e'
    → is_recorded e j ≡ true
    → is_recorded e' j ≡ true
is_recorded-fewer e e' j r l s = ground (arith, is_zero-fewer j.target e e' l, r.0)

pub IsSafe-fewer :
    (e e' : Env) (j : Journal) (g : Option Guard)
    → SameRecord e e'
    → FewerAttempts e e'
    → IsSafe e j g
    → IsSafe e' j g
IsSafe-fewer e e' (holds j) g r l s = is_recorded-fewer e e' j r l s
IsSafe-fewer e e' absent g r l s = s
IsSafe-fewer e e' unreadable g r l s = s

or_left : (a b c : Bool) → b ≡ true → (a || (b || c)) ≡ true
or_left a b c h = ground arith

or_right : (a b c : Bool) → c ≡ true → (a || (b || c)) ≡ true
or_right a b c h = ground arith

same_some : (n : ℕ) → same_number (some n) (some n) ≡ true
same_some n = ground arith

-- A job without attempts is safe whatever the environment records.
pub IsSafe-of_zero :
    (job : Job) (e : Env) (j : Journal) (g : Option Guard)
    → HasJob job e j g
    → is_zero job.target e ≡ true
    → IsSafe e j g
IsSafe-of_zero job e j g (k, at, same, target) z =
    rw at (or_left _ _ _ (subst (λ t. is_zero t e ≡ true) (sym target) z))

-- So is a job that is recorded as pending.
pub IsSafe-of_pending :
    (job : Job) (e : Env) (j : Journal) (g : Option Guard)
    → HasJob job e j g
    → e.pending ≡ some job.id
    → IsSafe e j g
IsSafe-of_pending job e j g (k, at, same, target) p = rw at (
    or_right (not (is_awaiting k.state)) (is_zero k.target e) (same_number e.pending (some k.id))
      (rw (p, same) (same_some job.id)))
