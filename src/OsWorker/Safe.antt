-- ===== src/OsWorker/Safe.antt =====
-- When what the worker leaves is safe: only a job that is ready or restarting needs its target looked
-- at.
use epilykos_os.Base.{ℕ, ◌≡◌, refl, inl, inr, true, false, Option, none, some, arith}
use epilykos_os.OsBox.{
  JobState, installing, failed, cancelled, is_working, is_terminal, enter, Job, Journal, absent,
  unreadable, holds, held, Env, Guard, GuardState, Host, IsFaithful, On, Implies, on_guard, Triple,
  Triple-weaken,
}
use epilykos_os.OsActivate.{activate}
use epilykos_os.OsActivate.Safety.{
  IsSafe, is_awaiting, Kept, Activates, activate-Triple, IsActivated-IsSafe,
}
use epilykos_os.OsBoot.Booted.{Returned-IsWaiting}
use epilykos_os.OsUpdate.Completion.{IsInstalled, Completing, Completes}
use epilykos_os.OsWorker.Fetching.{Crew, at_phase}
use epilykos_os.OsWorker.Saved.{
  Leaves, before, ended, begun, unclear, installed, Works, was_cancelled, has_failed, is_unclear,
  was_installed,
}

-- A job in another state than ready or restarting is safe.
pub other-IsSafe :
    (k : Job) (e : Env) (j : Journal) (g : Option Guard)
    → is_awaiting k.state ≡ false
    → j ≡ holds k
    → IsSafe e j g
other-IsSafe k e j g s at = rw at (ground (arith, s))

ready-IsSafe :
    (k : Job) (e : Env) (j : Journal) (g : Option Guard) → IsInstalled k e j g → IsSafe e j g
ready-IsSafe k e j g (at, ((t, target, none_left), first)) =
    rw at (ground (arith, target, none_left))

pub working-waits : (s : JobState) → is_working s ≡ true → is_awaiting s ≡ false
working-waits s w = ground (arith, w)

pub ended-waits : (s : JobState) → is_terminal s ≡ true → is_awaiting s ≡ false
ended-waits s w = ground (arith, w)

pub held_journal : (j : Journal) (job : Job) → held j ≡ some job → j ≡ holds job
held_journal absent job e = cc
held_journal unreadable job e = cc
held_journal (holds k) job e = ground (arith, e)

-- Safety does not look at the guard.
pub held_on :
    (job : Job) (e : Env) (j : Journal) (g : Option Guard) (state : GuardState) (id : Option ℕ)
    → IsSafe e j g × (j ≡ holds job)
    → IsSafe e j (on_guard state id) × (j ≡ holds job)
held_on job e absent g state id p = p
held_on job e unreadable g state id p = p
held_on job e (holds k) g state id p = p

Activates-IsSafe : (job : Job) (code : ℕ) → Implies (Activates job code) IsSafe
Activates-IsSafe job code e j g (inl p) = IsActivated-IsSafe job e j g p.1
Activates-IsSafe job code e j g (inr (one, error, p)) = (Returned-IsWaiting job error e j g p).0

pub activate-IsSafe :
    {h : Host} (f : IsFaithful h) (job : Job)
    → Triple (On (Kept job)) (activate h job) (λ _. On IsSafe) (On IsSafe)
activate-IsSafe f job =
    Triple-weaken (activate-Triple f job) (λ b p. p)
      (λ code b p. elim p [
        | inl a ↦ Activates-IsSafe job code b.env b.journal b.guard a
        | inr r ↦ r.3
      ])
      (λ b p. p)

module _ (h : Host) (crew : Crew) (job : Job) (waits : is_awaiting job.state ≡ false) where
  pub Leaves-IsSafe : Implies (Leaves h crew (holds job) job) IsSafe
  Leaves-IsSafe e j g (before (inl p)) = other-IsSafe job e j g waits p
  Leaves-IsSafe e j g (before (inr (s, w, p))) =
      other-IsSafe (at_phase s job) e j g (working-waits s w) p
  Leaves-IsSafe e j g (ended k s m of t p) = other-IsSafe (enter s m k) e j g (ended-waits s t) p
  Leaves-IsSafe e j g (begun k has p) = other-IsSafe (at_phase installing k) e j g refl p
  Leaves-IsSafe e j g (unclear k m has p) = other-IsSafe _ e j g refl p
  Leaves-IsSafe e j g (installed k has p) = ready-IsSafe k e j g p

  pub Works-IsSafe : (code : ℕ) → Implies (Works h crew (holds job) job code) IsSafe
  Works-IsSafe code e j g (was_cancelled k of p i) =
      other-IsSafe (enter cancelled none k) e j g refl p
  Works-IsSafe code e j g (has_failed k m of p i) =
      other-IsSafe (enter failed (some m) k) e j g refl p
  Works-IsSafe code e j g (is_unclear k m has p i) = other-IsSafe _ e j g refl p
  Works-IsSafe code e j g (was_installed k has p i) = ready-IsSafe k e j g p

  pub Completing-IsSafe : Implies (Completing (holds job) job) IsSafe
  Completing-IsSafe e j g (inl p) = other-IsSafe job e j g waits p
  Completing-IsSafe e j g (inr (inl p)) = ready-IsSafe job e j g p
  Completing-IsSafe e j g (inr (inr (m, inl p))) =
      other-IsSafe (enter failed (some m) job) e j g refl p.0
  Completing-IsSafe e j g (inr (inr (m, inr p))) = other-IsSafe _ e j g refl p

  pub Completes-IsSafe : (code : ℕ) → Implies (Completes job code) IsSafe
  Completes-IsSafe code e j g (inl p) = ready-IsSafe job e j g p.1
  Completes-IsSafe code e j g (inr (one, (m, inl p))) =
      other-IsSafe (enter failed (some m) job) e j g refl p.0.0
  Completes-IsSafe code e j g (inr (one, (m, inr p))) = other-IsSafe _ e j g refl p.0
