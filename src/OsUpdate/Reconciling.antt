-- ===== src/OsUpdate/Reconciling.antt =====
-- What `reconcile` of epilykos_os_update.py leaves alone: it sets the guard and starts the worker.
use epilykos_os.Base.{ℕ, Option, none, some}
use epilykos_os.OsBox.{
  Env, Message, Job, Journal, GuardState, idle, active, pending, Guard, Box, Error, os_update_error,
  trust_error, storage_error, os_error, other_error, Host, Predicate, On, Implies, start_worker,
  set_guard, pure, Triple, Triple-pure, Triple-raise, Triple-bind, Triple-weaken, Triple-if,
  Triple-try_except, layout-Triple, journal-Triple, set_guard-Triple, worker_active-Triple,
  start_worker-Triple,
}
use epilykos_os.OsUpdate.{
  guard_job, guard_for, reconcile_job, close_guard, reconcile, or_os_update_error,
}

module _ (h : Host) (I X : Predicate) (x : Implies I X)
    (any : (e : Env) (j : Journal) (g g' : Option Guard) → I e j g → I e j g') where
  pub guard-Triple :
      (state : GuardState) (job : Option ℕ)
      → Triple (On I) (set_guard h state job) (λ _. On I) (On X)
  guard-Triple state job = set_guard-Triple h I X x I state job (λ e j g p. any e j g _ p) x

  guard_job-Triple :
      (id : ℕ) (state : GuardState) → Triple (On I) (guard_job h id state) (λ _. On I) (On X)
  unfolding guard_job
  guard_job-Triple id idle = guard-Triple idle none
  guard_job-Triple id pending = guard-Triple pending (some id)
  guard_job-Triple id GuardState.reconciling = guard-Triple GuardState.reconciling (some id)
  guard_job-Triple id active = Triple-bind (guard-Triple active (some id)) λ _.
      Triple-bind (worker_active-Triple h I X x) λ running.
        Triple-if running (pure tt) (start_worker h) (λ on. Triple-pure tt λ b p. p)
          λ off. start_worker-Triple h I X x

  reconcile_job-Triple : (job : Option Job) → Triple (On I) (reconcile_job h job) (λ _. On I) (On X)
  unfolding reconcile_job
  reconcile_job-Triple none = guard-Triple idle none
  reconcile_job-Triple (some job) = guard_job-Triple job.id (guard_for job.state)

  pub close_guard-Triple :
      {A : Type 0} (Q : A → Box → Type 0) (m : Message) → Triple (On I) (close_guard h m) Q (On X)
  unfolding close_guard
  close_guard-Triple Q m =
      Triple-bind (guard-Triple GuardState.reconciling none) λ _. Triple-raise _ λ b p. x _ _ _ p

  unreadable-Triple :
      {A : Type 0} (Q : A → Box → Type 0) (e : Error)
      → Triple (On I) (or_os_update_error (close_guard h) e) Q (On X)
  unreadable-Triple Q (os_update_error m) = close_guard-Triple Q m
  unreadable-Triple Q (trust_error m) = Triple-raise _ λ b p. x _ _ _ p
  unreadable-Triple Q (storage_error m) = Triple-raise _ λ b p. x _ _ _ p
  unreadable-Triple Q os_error = Triple-raise _ λ b p. x _ _ _ p
  unreadable-Triple Q other_error = Triple-raise _ λ b p. x _ _ _ p

  pub reconcile-Triple : Triple (On I) (reconcile h) (λ _. On I) (On X)
  unfolding reconcile
  reconcile-Triple = Triple-bind (layout-Triple h I X x) λ _.
      Triple-bind {Q = λ _. On I}
        (Triple-try_except
          (Triple-weaken (journal-Triple h I I (λ e j g p. p)) (λ b p. p) (λ _ b p. p.0) (λ b p. p))
          (unreadable-Triple (λ _. On I)) (λ b p. x _ _ _ p))
        reconcile_job-Triple
