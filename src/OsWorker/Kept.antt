-- ===== src/OsWorker/Kept.antt =====
-- `run_worker` keeps the safety of activation: a job that is ready or restarting has a target without
-- attempts or is recorded as pending.
use epilykos_os.Base.{
  ℕ, zero, suc, ◌+◌, ◌≤◌, ◌≡◌, refl, inl, inr, Bool, true, false, ◌&&◌, Option, none, some,
  Bool-cases, both, if◌then◌else◌,
}
use epilykos_os.OsBox.{
  JobState, queued, downloading, verifying, installing, ready, restarting, trying, confirmed,
  rolled_back, failed, cancelled, discarded, is_working, is_for_worker, enter, Message, Job, holds,
  held, active, Host, IsFaithful, Action, pure, Predicate, On, Implies, Triple, Triple-pure,
  Triple-bind, Triple-weaken, Triple-if, journal-Triple, set_guard-Triple, reads-Triple,
  looks-Triple, finish-Triple,
}
use epilykos_os.OsUpdate.Slots.{settled_box}
use epilykos_os.OsActivate.Safety.{IsSafe, is_awaiting}
use epilykos_os.OsJobs.Install.{Shop}
use epilykos_os.OsRauc.{Bus, reconcile_install}
use epilykos_os.OsRauc.Ended.{reconcile_install-Triple}
use epilykos_os.OsWorker.{
  work, acquire_rounds, acquire, by_state, under_lease, run_held, run_found, run_worker,
  end_cancelled, end_failed, is_cancelled, is_installing,
}
use epilykos_os.OsWorker.Fetching.{Crew}
use epilykos_os.OsWorker.Saved.{before, end_cancelled-Triple}
use epilykos_os.OsWorker.Worked.{work-Triple}
use epilykos_os.OsWorker.Safe.{
  other-IsSafe, working-waits, held_journal, held_on, activate-IsSafe, Leaves-IsSafe, Works-IsSafe,
  Completing-IsSafe, Completes-IsSafe,
}

module _ {h : Host} (f : IsFaithful h) (bus : Bus) (shop : Shop) (crew : Crew) where
  -- The journal holds this job, and the box is safe.
  abbrev Held : Job → Predicate
  Held job e j g = IsSafe e j g × (j ≡ holds job)

  safe : (job : Job) → Implies (Held job) IsSafe
  safe job e j g p = p.0

  work-IsSafe :
      (job : Job)
      → is_awaiting job.state ≡ false
      → Triple (On (Held job)) (work h bus shop crew job) (λ _. On IsSafe) (On IsSafe)
  work-IsSafe job waits =
      Triple-weaken (work-Triple f bus shop crew (holds job) job) (λ b p. p.1)
        (λ code b. Works-IsSafe h crew job waits code b.env b.journal b.guard)
        (λ b. Leaves-IsSafe h crew job waits b.env b.journal b.guard)

  cancels-IsSafe :
      (job : Job)
      → is_awaiting job.state ≡ false
      → Triple (On (Held job)) (end_cancelled h bus shop crew job) (λ _. On IsSafe) (On IsSafe)
  cancels-IsSafe job waits =
      Triple-weaken (end_cancelled-Triple h crew (holds job) job bus shop job (inl refl))
        (λ b p. before (inl p.1))
        (λ code b. Works-IsSafe h crew job waits code b.env b.journal b.guard)
        (λ b. Leaves-IsSafe h crew job waits b.env b.journal b.guard)

  -- A job that does not get the lease fails, a restarting one too.
  fails-IsSafe :
      (job : Job) (m : Message)
      → Triple (On (Held job)) (end_failed h bus shop crew job m) (λ _. On IsSafe) (On IsSafe)
  unfolding end_failed
  fails-IsSafe job m =
      Triple-bind
        (finish-Triple h (Held job) (λ e j g. j ≡ holds (enter failed (some m) job)) IsSafe IsSafe
          job failed (some m) refl (safe job)
          (λ e j g. other-IsSafe (enter failed (some m) job) e j g refl) (λ e j g p. p)
          (λ e j g p. refl) (λ e j g. other-IsSafe (enter failed (some m) job) e j _ refl))
        λ _. Triple-pure 1 λ b p. p

  busy-Triple :
      (job : Job) (waits : Bool) (again : Action (Option Message))
      → Triple (On (Held job)) again (λ _. On (Held job)) (On IsSafe)
      → (busy : Option Message)
      → Triple {A = Option Message}
          (On (Held job))
          (elim busy as (λ _. Action (Option Message)) [
            | none ↦ pure none
            | some m ↦ if waits then again else pure (some m)
          ])
          (λ _. On (Held job))
          (On IsSafe)
  busy-Triple job waits again t none = Triple-pure {A = Option Message} none λ b p. p
  busy-Triple job waits again t (some m) =
      Triple-if waits _ _ (λ _. t) λ _. Triple-pure (some m) λ b p. p

  acquire-Triple :
      (job : Job) (waits : Bool) (n : ℕ)
      → Triple
          (On (Held job))
          (acquire_rounds h bus shop crew waits n)
          (λ _. On (Held job))
          (On IsSafe)
  unfolding acquire_rounds
  acquire-Triple job waits zero = record { at = λ b p. p.0 }
  acquire-Triple job waits (suc n) =
      Triple-bind
        (looks-Triple (Held job) IsSafe _ (safe job) (λ b. settled_box (crew.lease b.power) b))
        (busy-Triple job waits (acquire_rounds h bus shop crew waits n)
          (acquire-Triple job waits n))

  module _ (begun : crew.started ≤ bus.clock 0)
      (ticks : (k : ℕ) → bus.clock k + 5 ≤ bus.clock (suc k)) where
    reconcile-IsSafe :
        (job : Job)
        → is_awaiting job.state ≡ false
        → Triple
            (On (Held job))
            (reconcile_install bus h (crew.recorded job.id) crew.started job)
            (λ _. On IsSafe)
            (On IsSafe)
    reconcile-IsSafe job waits =
        Triple-weaken
          (reconcile_install-Triple f bus (crew.recorded job.id) (holds job) job crew.started begun
            ticks)
          (λ b p. p.1)
          (λ code b p. Completes-IsSafe h crew job waits code b.env b.journal b.guard p.0)
          (λ b. Completing-IsSafe h crew job waits b.env b.journal b.guard)

    by_state-IsSafe :
        (job : Job) (s : JobState)
        → job.state ≡ s
        → is_for_worker s ≡ true
        → Triple (On (Held job)) (by_state h bus shop crew job s) (λ _. On IsSafe) (On IsSafe)
    unfolding by_state
    by_state-IsSafe job installing at w = reconcile-IsSafe job (rw at refl)
    by_state-IsSafe job restarting at w =
        Triple-weaken (activate-IsSafe f job) (λ b p. (p.0, (job, p.1, refl, refl))) (λ code b p. p)
          (λ b p. p)
    by_state-IsSafe job queued at w = work-IsSafe job (rw at refl)
    by_state-IsSafe job downloading at w = work-IsSafe job (rw at refl)
    by_state-IsSafe job verifying at w = work-IsSafe job (rw at refl)
    by_state-IsSafe job ready at w = cc
    by_state-IsSafe job trying at w = cc
    by_state-IsSafe job JobState.reconciling at w = cc
    by_state-IsSafe job confirmed at w = cc
    by_state-IsSafe job rolled_back at w = cc
    by_state-IsSafe job failed at w = cc
    by_state-IsSafe job cancelled at w = cc
    by_state-IsSafe job discarded at w = cc

    under_lease-IsSafe :
        (job : Job) (busy : Option Message)
        → is_for_worker job.state ≡ true
        → Triple (On (Held job)) (under_lease h bus shop crew job busy) (λ _. On IsSafe) (On IsSafe)
    unfolding under_lease
    under_lease-IsSafe job (some m) w = fails-IsSafe job m
    under_lease-IsSafe job none w =
        Triple-bind
          (set_guard-Triple h (Held job) IsSafe (safe job) (Held job) active (some job.id)
            (λ e j g. held_on job e j g active (some job.id)) (safe job))
          λ _. by_state-IsSafe job job.state refl w

    run_held-IsSafe :
        (job : Job) (stop : Bool)
        → is_for_worker job.state ≡ true
        → Triple
            (On (Held job))
            (run_held h bus shop crew job (is_working job.state && stop))
            (λ _. On IsSafe)
            (On IsSafe)
    unfolding run_held acquire
    run_held-IsSafe job stop w = elim (Bool-cases (is_working job.state && stop)) [
      | inl e ↦
          rw e (cancels-IsSafe job (working-waits job.state (both (is_working job.state) stop e).0))
      | inr e ↦ rw e (
          Triple-bind
            (record { at = λ b p. (acquire-Triple job (is_installing job.state) b.power).at b p })
            λ busy. under_lease-IsSafe job busy w)
    ]

    run_found-IsSafe :
        (found : Option Job)
        → Triple
            (On λ e j g. IsSafe e j g × (held j ≡ found))
            (run_found h bus shop crew found)
            (λ _. On IsSafe)
            (On IsSafe)
    unfolding run_found
    run_found-IsSafe none = Triple-pure 0 λ b p. p.0
    run_found-IsSafe (some job) =
        Triple-if (is_for_worker job.state) _ _
          (λ w.
            Triple-bind {Q = λ stop. On (Held job)}
              (Triple-weaken
                (reads-Triple (Held job) IsSafe (is_cancelled h bus shop crew job) (safe job)
                  λ b. refl)
                (λ b p. (p.0, held_journal b.journal job p.1)) (λ _ b p. p) (λ b p. p))
              λ stop. run_held-IsSafe job stop w)
          λ _. Triple-pure 0 λ b p. p.0

    -- With the environment read and written faithfully, and a clock that goes on by at least five
    -- seconds a round of the wait for RAUC: whatever the journal holds, the worker, whether it
    -- returns, raises or is cut at any point, leaves a job that is ready or restarting with a target
    -- without attempts or recorded as pending, if that was so at the start.
    pub run_worker-IsSafe :
        Triple (On IsSafe) (run_worker h bus shop crew) (λ _. On IsSafe) (On IsSafe)
    unfolding run_worker
    run_worker-IsSafe = Triple-bind (journal-Triple h IsSafe IsSafe (λ e j g p. p)) run_found-IsSafe
