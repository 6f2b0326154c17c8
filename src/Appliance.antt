-- ===== src/Appliance.antt =====
-- The life of a card: the actions of hostd on the job and the worker (epilykos_os_update.py), Restart,
-- Discard, the activation and hostd's start (epilykos_os_activate.py), in any order, each cut by a
-- power failure anywhere, and the boot loader between.
mod Examples
use epilykos_os.Base.{
  ℕ, suc, ◌+◌, ◌≤◌, ◌≡◌, refl, Bool, true, false, Option, none, some, ◌∙◌, ◌||◌, not, arith, ap,
  inl, inr,
}
use epilykos_os.OsBox.{
  Action, enter, JobState, Slot, slot_a, slot_b, Env, left, Job, Journal, holds, absent, unreadable,
  Box, Host, IsFaithful, On, Triple, Triple-always, Triple-weaken, Triple-raise, same_number, Guard,
  Implies,
}
use epilykos_os.OsActivate.{restart, discard, activate}
use epilykos_os.OsActivate.Safety.{
  IsSafe, HasJob, Kept, Activates, is_zero, is_recorded, is_awaiting, activate-Triple,
  IsActivated-IsSafe,
}
use epilykos_os.OsActivate.Dropped.{discard-Triple, IsDropped-IsSafe}
use epilykos_os.OsActivate.Restarted.{restart-Triple}
use epilykos_os.OsJobs.Check.{Feed, check}
use epilykos_os.OsJobs.Untouched.{check-Triple}
use epilykos_os.OsJobs.Install.{Order, Shop, install}
use epilykos_os.OsJobs.Admitted.{install-Triple, Same, Admits}
use epilykos_os.OsJobs.Ended.{cancel-Triple, dismiss-Triple}
use epilykos_os.OsJobs.{cancel, dismiss}
use epilykos_os.OsRauc.{Bus}
use epilykos_os.OsWorker.{Crew, run_worker}
use epilykos_os.OsWorker.Safe.{other-IsSafe, activate-IsSafe}
use epilykos_os.OsWorker.Kept.{run_worker-IsSafe}
use epilykos_os.OsBoot.{reconcile_boot}
use epilykos_os.OsBoot.Safety.{reconcile_boot-Triple}

-- What the loader may do to the environment: take attempts away and record that a trial started.
abbrev pub IsLoaded : Env → Env → Type 0
IsLoaded e e' = (e'.pending ≡ e.pending) × ((s : Slot) → left s e ≡ some 0 → left s e' ≡ some 0)

-- A clock of the wait for RAUC that goes on by five seconds a round.
abbrev pub IsTimed : Bus → ℕ → Type 0
IsTimed bus start = (start ≤ bus.clock 0) × ((k : ℕ) → bus.clock k + 5 ≤ bus.clock (suc k))

pub data Step (h : Host) : Box → Box → Type 0 where
  restarted : (b : Box) (id : ℕ) → Step h b (restart h id b).1
  discarded : (b : Box) (id : ℕ) → Step h b (discard h id b).1
  activated : (b : Box) (job : Job) → b.journal ≡ holds job → Step h b (activate h job b).1
  worked :
      (b : Box) (bus : Bus) (shop : Shop) (crew : Crew)
      → IsTimed bus crew.started
      → Step h b (run_worker h bus shop crew b).1
  installed : (b : Box) (shop : Shop) (order : Option Order) → Step h b (install h shop order b).1
  checked : (b : Box) (shop : Shop) (feed : Feed) → Step h b (check h shop feed b).1
  called_off : (b : Box) (id : ℕ) → Step h b (cancel h id b).1
  dismissed : (b : Box) (id : ℕ) → Step h b (dismiss h id b).1
  reconciled : (b : Box) → Step h b (reconcile_boot h b).1
  loaded :
      (b : Box) (n : ℕ) (s : Option Slot) (e : Env)
      → IsLoaded b.env e
      → Step h b (record b { power = n; slot = s; env = e })

pub data Reaches (h : Host) : Box → Box → Type 0 where
  here : {b : Box} → Reaches h b b
  next : {a b c : Box} → Reaches h a b → Step h b c → Reaches h a c

is_zero-loaded :
    (t : Option Slot) (e e' : Env) → IsLoaded e e' → is_zero t e ≡ true → is_zero t e' ≡ true
is_zero-loaded none e e' l z = z
is_zero-loaded (some s) e e' l z = rw (l.1 s (stored_zero (left s e) z)) refl
  where
    stored_zero : (o : Option ℕ) → same_number o (some 0) ≡ true → o ≡ some 0
    stored_zero o h = ground arith

recorded_loaded :
    (a z z' p p' : Bool)
    → p' ≡ p
    → (z ≡ true → z' ≡ true)
    → (not a || (z || p)) ≡ true
    → (not a || (z' || p')) ≡ true
recorded_loaded a z z' p p' same keep h = ground (arith, keep)

IsSafe-loaded :
    (e e' : Env) (j : Journal) (g : Option Guard) → IsLoaded e e' → IsSafe e j g → IsSafe e' j g
IsSafe-loaded e e' (holds job) g l s =
    recorded_loaded (is_awaiting job.state) (is_zero job.target e) (is_zero job.target e') _ _
      (ap (λ o. same_number o (some job.id)) l.0) (is_zero-loaded job.target e e' l) s
IsSafe-loaded e e' absent g l s = s
IsSafe-loaded e e' unreadable g l s = s

-- An action with a rule for each box that it starts from.
keeping :
    {A : Type 0} {m : Action A}
    → ((b : Box)
        → On IsSafe b
        → Triple (On (Same b.env b.journal b.guard)) m (λ _. On IsSafe) (On IsSafe))
    → Triple (On IsSafe) m (λ _. On IsSafe) (On IsSafe)
keeping t = record { at = λ b s. (t b s).at b (refl, refl, refl) }

Same-IsSafe :
    (b : Box) → On IsSafe b → (c : Box) → On (Same b.env b.journal b.guard) c → On IsSafe c
Same-IsSafe b s c (j, g, e) = rw e (rw j (rw g s))

Admits-IsSafe :
    (order : Order) (b c : Box) → On (Admits order b.env b.journal b.guard) c → On IsSafe c
Admits-IsSafe order b c (free, (job, at, is), g) =
    other-IsSafe job c.env c.journal c.guard (rw (is.0) refl) at

module _ {h : Host} (f : IsFaithful h) where
  -- An order changes nothing of a job that has not ended, and makes one that is queued.
  install-IsSafe :
      (shop : Shop) (order : Option Order)
      → Triple (On IsSafe) (install h shop order) (λ _. On IsSafe) (On IsSafe)
  unfolding install
  install-IsSafe shop none = Triple-raise _ λ b p. p
  install-IsSafe shop (some order) = keeping λ b s.
      Triple-weaken (install-Triple f shop order b.env b.journal b.guard) (λ c p. p)
        (λ _ c p. elim p [ inl q ↦ Same-IsSafe b s c q.2 | inr q ↦ Admits-IsSafe order b c q ])
        (λ c p. elim p [ inl q ↦ Same-IsSafe b s c q | inr q ↦ Admits-IsSafe order b c q ])

  dismiss-IsSafe : (id : ℕ) → Triple (On IsSafe) (dismiss h id) (λ _. On IsSafe) (On IsSafe)
  dismiss-IsSafe id = keeping λ b s.
      Triple-weaken (dismiss-Triple f id b.env b.journal b.guard) (λ c p. p) (λ _ c p. rw (p.2) tt)
        (λ c p. elim p [ inl q ↦ Same-IsSafe b s c q | inr q ↦ rw (q.2) tt ])

  cancel-IsSafe : (id : ℕ) → Triple (On IsSafe) (cancel h id) (λ _. On IsSafe) (On IsSafe)
  cancel-IsSafe id = keeping λ b s.
      Triple-weaken (cancel-Triple f id b.env b.journal b.guard) (λ c p. p)
        (λ _ c p. elim p.1 [
          | inl q ↦ Same-IsSafe b s c q.0
          | inr q ↦
              other-IsSafe (enter JobState.cancelled none p.0) c.env c.journal c.guard refl q.0.3
        ])
        (λ c p. elim p [
          | inl q ↦ Same-IsSafe b s c q
          | inr q ↦
              other-IsSafe (enter JobState.cancelled none q.0) c.env c.journal c.guard refl q.1.3
        ])

  Step-IsSafe : {a b : Box} → Step h a b → On IsSafe a → On IsSafe b
  Step-IsSafe (restarted b id) s =
      Triple-always (Triple-weaken (restart-Triple h id) (λ b p. p) (λ _ b p. p.0) (λ b p. p)) b s
  Step-IsSafe (discarded b id) s =
      Triple-always
        (Triple-weaken (discard-Triple f id) (λ b p. p)
          (λ _ b p. IsDropped-IsSafe id b.env b.journal b.guard p.0) (λ b p. p))
        b s
  Step-IsSafe (activated b job at) s =
      Triple-always (activate-IsSafe f job) b (s, (job, at, refl, refl))
  Step-IsSafe (worked b bus shop crew (begun, ticks)) s =
      Triple-always (run_worker-IsSafe f bus shop crew begun ticks) b s
  Step-IsSafe (installed b shop order) s = Triple-always (install-IsSafe shop order) b s
  Step-IsSafe (checked b shop feed) s =
      Triple-always (check-Triple f shop feed IsSafe IsSafe (λ e j g p. p)) b s
  Step-IsSafe (called_off b id) s = Triple-always (cancel-IsSafe id) b s
  Step-IsSafe (dismissed b id) s = Triple-always (dismiss-IsSafe id) b s
  Step-IsSafe (reconciled b) s =
      Triple-always (Triple-weaken (reconcile_boot-Triple f) (λ b p. p) (λ _ b p. p.0) (λ b p. p)) b
        s
  Step-IsSafe (loaded b n t e l) s = IsSafe-loaded b.env e b.journal b.guard l s

  -- With the environment read and written faithfully, and a clock of the wait for RAUC that goes on
  -- by five seconds a round: after any sequence of checks, orders, cancellations, dismissals, runs of
  -- the worker, restarts, discards, activations of the job in the journal, starts of hostd and runs
  -- of the boot loader, each of them cut by a power failure anywhere or not, a job that is ready or
  -- restarting has a target without attempts or is recorded as pending, if that was so at the start.
  pub Reaches-IsSafe : {a b : Box} → Reaches h a b → On IsSafe a → On IsSafe b
  Reaches-IsSafe here s = s
  Reaches-IsSafe (next r t) s = Step-IsSafe t (Reaches-IsSafe r s)
