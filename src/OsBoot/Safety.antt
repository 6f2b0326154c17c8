-- ===== src/OsBoot/Safety.antt =====
-- `reconcile_boot` never leaves a bootable target that the environment does not know, wherever it is
-- cut; and a job that it reports as ended has ended, with nothing pending.
use epilykos_os.Base.{
  ℕ, ◌≡◌, refl, sym, ◌∙◌, ap, ◌⊎◌, inl, inr, Bool, true, false, Option, none, some,
}
use epilykos_os.OsBox.{
  Slot, Env, JobState, confirmed, failed, is_for_worker, is_terminal, Message, Job, Journal, holds,
  held, GuardState, Box, Error, os_update_error, trust_error, storage_error, os_error, other_error,
  Host, IsFaithful, Action, pure, Predicate, On, Implies, enter, finish, worker_active, Triple,
  Triple-pure, Triple-raise, Triple-bind, Triple-weaken, Triple-if, Triple-required, Triple-given,
  Triple-try_except, finish-Triple, worker_active-Triple, journal-Triple, booted_slot-Triple,
  read_env-Triple,
}
use epilykos_os.OsUpdate.Reconciling.{reconcile-Triple, guard-Triple}
use epilykos_os.OsActivate.Safety.{IsSafe}
use epilykos_os.OsBoot.{
  is_restarting, is_trying, is_confirmed_by, is_carried_on, end_trial, journal_state,
  interrupted_restart, plain_reconcile, without_pending, close_and_raise, guarded, by_pending,
  reconcile_with, reconcile_boot,
}
use epilykos_os.OsBoot.Armed.{Known, IsOver, IsWaiting, IsOver-IsSafe}
use epilykos_os.OsBoot.Booted.{Booted, IsSafe-any, IsSafe-itself, is_for_worker-runs}
use epilykos_os.OsBoot.Pending.{known_back-Triple, with_pending-Triple}

module _ {h : Host} (f : IsFaithful h) where
  plain_reconcile-Triple :
      (I : Predicate)
      → Implies I IsSafe
      → Triple (On I) (plain_reconcile h) (λ r. On (Booted r)) (On IsSafe)
  unfolding plain_reconcile
  plain_reconcile-Triple I x =
      Triple-weaken
        (Triple-bind (reconcile-Triple h IsSafe IsSafe IsSafe-itself IsSafe-any)
          λ _. Triple-pure none λ b p. (p, inl refl))
        (λ b p. x _ _ _ p) (λ _ b p. p) (λ b p. p)

  -- What the journal of a job that waits says.
  journal_state-Triple :
      Triple
        (On λ e j g. IsSafe e j g × IsWaiting e j g)
        (journal_state h)
        (λ r. On (Booted r))
        (On IsSafe)
  unfolding journal_state
  journal_state-Triple =
      Triple-bind
        (journal-Triple h (λ e j g. IsSafe e j g × IsWaiting e j g) IsSafe (λ e j g p. p.0))
        λ found.
          Triple-bind {Q = λ job b. On (Booted (some job.state)) b}
            (Triple-required found (λ b p. p.0.0)
              λ job at b p. (p.0.0, inl (runs p.0.1.0 job b.journal p.0.1.1 p.0.1.2 (p.1 ∙ at))))
            λ job. Triple-pure (some job.state) λ b p. p
    where
      state_ended : Option Job → Bool
      state_ended none = false
      state_ended (some k) = is_terminal k.state

      runs :
          (k job : Job) (j : Journal)
          → j ≡ holds k
          → is_terminal k.state ≡ false
          → held j ≡ some job
          → is_terminal job.state ≡ false
      runs k job j at waits is = ap state_ended (sym is ∙ ap held at) ∙ waits

  -- A trial that ended while nothing was pending.
  end_trial-Triple :
      (found : Option Job) (v : Env) (job : Job) (good : Bool)
      → v.pending ≡ none
      → Triple (On (Known v found)) (end_trial h job good) (λ r. On (Booted r)) (On IsSafe)
  unfolding end_trial
  end_trial-Triple found v job good clear = ended good
    where
      Gone : Predicate
      Gone e j g = IsOver e j g × (e.pending ≡ none)

      Gone-IsSafe : Implies Gone IsSafe
      Gone-IsSafe e j g p = IsOver-IsSafe e j g p.0

      gone :
          (state : JobState) (error : Option Message)
          → is_terminal state ≡ true
          → Triple (On (Known v found)) (finish h job state error) (λ _. On Gone) (On IsSafe)
      gone state error t =
          finish-Triple h (Known v found) Gone Gone IsSafe job state error t (λ e j g p. p.0)
            Gone-IsSafe Gone-IsSafe
            (λ e j g p. ((enter state error job, refl, t), ap (λ v. v.pending) (sym p.1) ∙ clear))
            (λ e j g p. p)

      ended :
          (good : Bool)
          → Triple (On (Known v found)) (end_trial h job good) (λ r. On (Booted r)) (On IsSafe)
      ended true =
          Triple-bind (gone confirmed none refl)
            λ _. Triple-pure (some confirmed) λ b p. (Gone-IsSafe _ _ b.guard p, inr p)
      ended false =
          Triple-bind (gone failed _ refl)
            λ _. Triple-pure (some failed) λ b p. (Gone-IsSafe _ _ b.guard p, inr p)

  without_pending-Triple :
      (found : Option Job) (slot : Slot) (v : Env)
      → v.pending ≡ none
      → Triple
          (On (Known v found))
          (without_pending h found slot v)
          (λ r. On (Booted r))
          (On IsSafe)
  unfolding without_pending interrupted_restart
  without_pending-Triple none slot v clear = plain_reconcile-Triple (Known v none) (λ e j g p. p.0)
  without_pending-Triple (some job) slot v clear =
      Triple-if (is_restarting job.state) _ _
        (λ _.
          Triple-bind
            (Triple-weaken (known_back-Triple f (some job) v job) (λ b p. (p, refl)) (λ _ b p. p)
              (λ b p. p))
            λ _. journal_state-Triple)
        λ _.
          Triple-if (is_trying job.state) _ _
            (λ _. end_trial-Triple (some job) v job (is_confirmed_by job slot v) clear)
            λ _. plain_reconcile-Triple (Known v (some job)) (λ e j g p. p.0)

  by_pending-Triple :
      (pending : Option ℕ) (found : Option Job) (slot : Slot) (v : Env)
      → v.pending ≡ pending
      → Triple
          (On (Known v found))
          (by_pending h pending found slot v)
          (λ r. On (Booted r))
          (On IsSafe)
  unfolding by_pending
  by_pending-Triple none found slot v at = without_pending-Triple found slot v at
  by_pending-Triple (some id) found slot v at = with_pending-Triple f id found slot v

  -- The worker carries on only with a job that has not ended.
  abbrev Carried : Option Job → Bool → Type 0
  Carried found on =
      (on ≡ false) ⊎ ((job : Job) × (found ≡ some job) × (is_terminal job.state ≡ false))

  is_carried_on-Triple :
      (v : Env) (found : Option Job)
      → Triple
          (On (Known v found))
          (is_carried_on h found)
          (λ on b. On (Known v found) b × Carried found on)
          (On IsSafe)
  unfolding is_carried_on
  is_carried_on-Triple v none = Triple-pure false λ b p. (p, inl refl)
  is_carried_on-Triple v (some job) =
      Triple-if (is_for_worker job.state) (worker_active h) (pure false)
        (λ working.
          Triple-weaken (worker_active-Triple h (Known v (some job)) IsSafe (λ e j g p. p.0))
            (λ b p. p) (λ on b p. (p, inr (job, refl, is_for_worker-runs job.state working)))
            (λ b p. p))
        λ _. Triple-pure false λ b p. (p, inl refl)

  reconcile_with-Triple :
      (found : Option Job) (slot : Slot) (v : Env) (on : Bool)
      → Carried found on
      → Triple
          (On (Known v found))
          (reconcile_with h found slot v on)
          (λ r. On (Booted r))
          (On IsSafe)
  unfolding reconcile_with
  reconcile_with-Triple found slot v false c = by_pending-Triple v.pending found slot v refl
  reconcile_with-Triple found slot v true (inl never) = cc
  reconcile_with-Triple found slot v true (inr (job, at, runs)) =
      Triple-bind {Q = λ k b. On (Booted (some k.state)) b}
        (Triple-required found (λ b p. p.0) (λ k is b p. (p.0, inl (still k is))))
        λ k. Triple-pure (some k.state) λ b p. p
    where
      state_ended : Option Job → Bool
      state_ended none = false
      state_ended (some k) = is_terminal k.state

      still : (k : Job) → found ≡ some k → is_terminal k.state ≡ false
      still k is = ap state_ended (sym is ∙ at) ∙ runs

  close_and_raise-Triple :
      {A : Type 0} (Q : A → Box → Type 0) (e : Error)
      → Triple (On IsSafe) (close_and_raise h e) Q (On IsSafe)
  unfolding close_and_raise
  close_and_raise-Triple Q (os_update_error m) =
      Triple-bind
        (guard-Triple h IsSafe IsSafe IsSafe-itself IsSafe-any GuardState.reconciling none)
        λ _. Triple-raise _ λ b p. p
  close_and_raise-Triple Q (trust_error m) =
      Triple-bind
        (guard-Triple h IsSafe IsSafe IsSafe-itself IsSafe-any GuardState.reconciling none)
        λ _. Triple-raise _ λ b p. p
  close_and_raise-Triple Q (storage_error m) = Triple-raise _ λ b p. p
  close_and_raise-Triple Q os_error = Triple-raise _ λ b p. p
  close_and_raise-Triple Q other_error = Triple-raise _ λ b p. p

  guarded-Triple :
      {A : Type 0} {P : Box → Type 0} {m : Action A} {Q : A → Box → Type 0}
      → Triple P m Q (On IsSafe)
      → Triple P (guarded h m) Q (On IsSafe)
  unfolding guarded
  guarded-Triple {Q} t = Triple-try_except t (close_and_raise-Triple Q) (λ b p. p)

  -- With the environment read and written faithfully: if a job that is ready or restarting has a
  -- target without attempts or is recorded as pending, then the same holds after `reconcile_boot`,
  -- whether it returns, raises or is cut at any point. When it returns the state of a job that has
  -- ended, then the job in the journal has ended and nothing is pending.
  pub reconcile_boot-Triple :
      Triple (On IsSafe) (reconcile_boot h) (λ found. On (Booted found)) (On IsSafe)
  unfolding reconcile_boot
  reconcile_boot-Triple =
      Triple-bind (guarded-Triple (read_env-Triple f IsSafe IsSafe IsSafe-itself)) λ v.
        Triple-bind {Q = λ found. On (Known v found)}
          (guarded-Triple (
            Triple-weaken
              (journal-Triple h (λ e j g. IsSafe e j g × (v ≡ e)) IsSafe (λ e j g p. p.0))
              (λ b p. p) (λ found b p. (p.0.0, p.0.1, p.1)) (λ b p. p)))
          λ found.
            Triple-bind {Q = λ _. On (Known v found)}
              (guarded-Triple (
                Triple-weaken (booted_slot-Triple h (Known v found) IsSafe (λ e j g p. p.0))
                  (λ b p. p) (λ _ b p. p.0) (λ b p. p)))
              λ slot.
                Triple-bind (is_carried_on-Triple v found)
                  λ on. Triple-given (reconcile_with-Triple found slot v on)
