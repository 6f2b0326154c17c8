-- ===== src/OsJobs/Views.antt =====
-- `view` reports: it changes none of the environment, the journal and the guard.
use epilykos_os.Base.{◌≡◌, refl, Bool, Option, none, some, if◌then◌else◌}
use epilykos_os.OsBox.{
  Message, Job, GuardState, Box, Error, os_update_error, trust_error, storage_error, os_error,
  other_error, Platform, Host, IsFaithful, Predicate, On, Implies, pure, gets, start_worker, Triple,
  Triple-pure, Triple-raise, Triple-bind, Triple-weaken, Triple-if, Triple-try_except,
  Triple-try_else, journal-Triple, worker_active-Triple, start_worker-Triple,
}
use epilykos_os.OsUpdate.{or_os_update_error}
use epilykos_os.OsUpdate.Slots.{platform-Triple}
use epilykos_os.OsJobs.{
  View, unsupported, without_job, is_resumable, ensure_worker, view_job, view_card, view,
}

-- A value read from the box.
pub gets-Triple :
    {A : Type 0} (I X : Predicate) (g : Box → A)
    → Triple (On I) (gets g) (λ a b. On I b × (a ≡ g b)) (On X)
gets-Triple I X g = record { at = λ b p. (p, refl) }

module _ {h : Host} (f : IsFaithful h) (I X : Predicate) (x : Implies I X) where
  -- A handler that answers an OsUpdateError.
  answer-Triple :
      (a : Message → View) (e : Error)
      → Triple (On I) (or_os_update_error (λ m. pure (a m)) e) (λ _. On I) (On X)
  answer-Triple a (os_update_error m) = Triple-pure _ λ b p. p
  answer-Triple a (trust_error m) = Triple-raise _ λ b p. x _ _ _ p
  answer-Triple a (storage_error m) = Triple-raise _ λ b p. x _ _ _ p
  answer-Triple a os_error = Triple-raise _ λ b p. x _ _ _ p
  answer-Triple a other_error = Triple-raise _ λ b p. x _ _ _ p

module _ {h : Host} (f : IsFaithful h) (I X : Predicate) (x : Implies I X) where
  start-Triple :
      (running : Bool)
      → Triple (On I) (if running then pure tt else start_worker h) (λ _. On I) (On X)
  start-Triple running =
      Triple-if running (pure tt) (start_worker h) (λ on. Triple-pure tt λ b p. p)
        λ off. start_worker-Triple h I X x

  ensure_worker-Triple : (job : Option Job) → Triple (On I) (ensure_worker h job) (λ _. On I) (On X)
  unfolding ensure_worker
  ensure_worker-Triple job =
      Triple-if (is_resumable job) _ _
        (λ on. Triple-bind (worker_active-Triple h I X x) start-Triple)
        λ off. Triple-pure tt λ b p. p

module _ {h : Host} (f : IsFaithful h) (I X : Predicate) (x : Implies I X) where
  look-Triple :
      (resume : Bool) (job : Option Job)
      → Triple (On I) (if resume then ensure_worker h job else pure tt) (λ _. On I) (On I)
  look-Triple resume job =
      Triple-if resume _ _ (λ on. ensure_worker-Triple f I I (λ e j g p. p) job)
        λ off. Triple-pure tt λ b p. p

  view_job-Triple :
      (resume : Bool) (g : GuardState) → Triple (On I) (view_job h resume g) (λ _. On I) (On X)
  unfolding view_job
  view_job-Triple resume g =
      Triple-try_except
        (Triple-bind {Q = λ _. On I}
          (Triple-weaken (journal-Triple h I I (λ e j g p. p)) (λ b p. p) (λ _ b p. p.0) (λ b p. p))
          λ job. Triple-bind (look-Triple resume job) λ _. Triple-pure _ λ b p. p)
        (answer-Triple f I X x (without_job g)) (λ b p. x _ _ _ p)

  view_card-Triple :
      (resume : Bool) (plat : Option Platform)
      → Triple (On I) (view_card h resume plat) (λ _. On I) (On X)
  unfolding view_card
  view_card-Triple resume none = Triple-pure _ λ b p. p
  view_card-Triple resume (some plat) =
      Triple-bind {Q = λ _. On I}
        (Triple-weaken (gets-Triple I X _) (λ b p. p) (λ _ b p. p.0) (λ b p. p))
        (view_job-Triple resume)

  pub view-Triple : (resume : Bool) → Triple (On I) (view h resume) (λ _. On I) (On X)
  unfolding view
  view-Triple resume =
      Triple-try_else (platform-Triple f I I (λ e j g p. p)) (view_card-Triple resume)
        (answer-Triple f I X x unsupported) (λ b p. x _ _ _ p)
