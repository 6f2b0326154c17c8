-- ===== src/OsActivate/Dropped.antt =====
-- Discard: the job ends as discarded only once its target was shown to have no attempts.
use epilykos_os.Base.{ℕ, ◌≡◌, refl, ◌∙◌, Bool, true, false, not, Option, none, some, arith}
use epilykos_os.OsBox.{
  discarded, idle, Job, Journal, absent, unreadable, holds, held, Host, IsFaithful, Predicate, On,
  Implies, on_guard, enter, finish, target_bad, Triple, Triple-pure, Triple-bind, Triple-weaken,
  Triple-if, Triple-raise_if, Triple-required, journal-Triple, worker_active-Triple,
  read_env-Triple, target_bad-Triple, finish-Triple,
}
use epilykos_os.OsActivate.{is_ready_job, is_being_activated, discard}
use epilykos_os.OsActivate.Safety.{IsSafe, is_zero, IsSafe-fewer}

-- The job with this identifier was ready, and it was discarded with its target non-bootable.
abbrev pub IsDropped : ℕ → Predicate
IsDropped id e j g =
    (k : Job) × (j ≡ holds (enter discarded none k)) × (k.id ≡ id) × (is_zero k.target e ≡ true)

pub holds-eq : (j : Journal) (k : Job) → held j ≡ some k → j ≡ holds k
holds-eq (holds j) k e = ground arith
holds-eq absent k e = cc
holds-eq unreadable k e = cc

pub named :
    (id : ℕ) (found : Option Job) (k : Job)
    → not (is_ready_job id found) ≡ false
    → found ≡ some k
    → k.id ≡ id
named id none k is at = cc
named id (some m) k is at = ground arith

pub IsDropped-IsSafe : (id : ℕ) → Implies (IsDropped id) IsSafe
IsDropped-IsSafe id e j g (k, at, same, zero) = rw at refl

not-eq : (b c : Bool) → not b ≡ false → b ≡ c → c ≡ true
not-eq b c h k = ground arith

module _ {h : Host} (f : IsFaithful h) (id : ℕ) where
  -- The ready job that was found.
  abbrev Ready : Job → Predicate
  Ready job e j g = IsSafe e j g × (j ≡ holds job) × (job.id ≡ id)

  being_activated-Triple :
      (job : Job) → Triple (On (Ready job)) (is_being_activated h) (λ _. On (Ready job)) (On IsSafe)
  unfolding is_being_activated
  being_activated-Triple job =
      Triple-bind (worker_active-Triple h (Ready job) IsSafe (λ e j g p. p.0)) λ busy.
        Triple-if busy _ _ (λ _. Triple-pure true λ b p. p)
          λ _.
            Triple-bind
              (Triple-weaken (read_env-Triple f (Ready job) IsSafe (λ e j g p. p.0)) (λ b p. p)
                (λ _ b p. p.0) (λ b p. p))
              λ env. Triple-pure _ λ b p. p

  -- The ready job, with its target non-bootable.
  abbrev Unused : Job → Predicate
  Unused job e j g = Ready job e j g × (is_zero job.target e ≡ true)

  ready_bad-Triple :
      (job : Job)
      → Triple
          (On (Ready job))
          (target_bad h job.target)
          (λ bad. On λ e j g. Ready job e j g × (bad ≡ is_zero job.target e))
          (On IsSafe)
  ready_bad-Triple job =
      target_bad-Triple f (Ready job) IsSafe (λ e j g p. p.0) (Ready job) job.target
        (λ e j g p. p.0) (λ e e' j g r l p. (IsSafe-fewer e e' j g r l p.0, p.1, p.2))

  drop-Triple :
      (job : Job)
      → Triple
          (On (Unused job))
          (finish h job discarded none)
          (λ _. On λ e j g. IsDropped id e j g × (g ≡ on_guard idle none))
          (On IsSafe)
  drop-Triple job =
      finish-Triple h (Unused job) (IsDropped id)
        (λ e j g. IsDropped id e j g × (g ≡ on_guard idle none)) IsSafe job discarded none refl
        (λ e j g p. p.0.0) (IsDropped-IsSafe id) (λ e j g p. IsDropped-IsSafe id e j g p.0)
        (λ e j g p. (job, refl, p.0.2, p.1)) (λ e j g p. (p, refl))

  -- A discard that returns has ended the job with this identifier as discarded, its target has no
  -- attempts, and the guard is idle. If it raises or is cut at any point, then a job that is ready or
  -- restarting is still safe: its target has no attempts, or it is recorded as pending.
  pub discard-Triple :
      Triple
        (On IsSafe)
        (discard h id)
        (λ _. On λ e j g. IsDropped id e j g × (g ≡ on_guard idle none))
        (On IsSafe)
  unfolding discard
  discard-Triple = Triple-bind (journal-Triple h IsSafe IsSafe (λ e j g p. p)) λ found.
      Triple-bind (Triple-raise_if (not (is_ready_job id found)) _ (λ b p. p.0)) λ _.
        Triple-bind {Q = λ job. On (Ready job)}
          (Triple-required found (λ b p. p.0.0)
            (λ job at b p. (p.0.0, holds-eq b.journal job (p.0.1 ∙ at), named id found job p.1 at)))
          λ job. Triple-bind (being_activated-Triple job) λ activating.
            Triple-bind {Q = λ _. On (Ready job)}
              (Triple-weaken (Triple-raise_if activating _ (λ b p. p.0)) (λ b p. p) (λ _ b p. p.0)
                (λ b p. p))
              λ _. Triple-bind (ready_bad-Triple job) λ bad.
                Triple-bind {Q = λ _. On (Unused job)}
                  (Triple-weaken (Triple-raise_if (not bad) _ (λ b p. p.0.0)) (λ b p. p)
                    (λ _ b p. (p.0.0, not-eq bad _ p.1 p.0.1)) (λ b p. p))
                  λ _. drop-Triple job
