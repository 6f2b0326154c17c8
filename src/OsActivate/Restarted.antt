-- ===== src/OsActivate/Restarted.antt =====
-- Restart: a ready job is handed to the worker, and stays as safe as it was.
use epilykos_os.Base.{
  ℕ, ◌≡◌, refl, ◌∙◌, subst, Bool, true, false, not, ◌||◌, Option, none, some, arith,
}
use epilykos_os.OsBox.{
  Env, restarting, Job, Journal, holds, Guard, Host, Predicate, On, enter, same_number, Triple,
  Triple-bind, Triple-weaken, Triple-raise_if, Triple-required, journal-Triple,
  worker_active-Triple, save-Triple, start_worker-Triple,
}
use epilykos_os.OsActivate.{is_ready_job, restart}
use epilykos_os.OsActivate.Safety.{IsSafe, is_zero, is_awaiting}
use epilykos_os.OsActivate.Dropped.{holds-eq, named}

-- The job with this identifier is restarting.
abbrev pub IsRestarting : ℕ → Predicate
IsRestarting id e j g =
    (k : Job) × (j ≡ holds (enter restarting none k)) × (k.id ≡ id) × (is_awaiting k.state ≡ true)

was_awaiting :
    (id : ℕ) (found : Option Job) (k : Job)
    → not (is_ready_job id found) ≡ false
    → found ≡ some k
    → is_awaiting k.state ≡ true
was_awaiting id none k is at = cc
was_awaiting id (some m) k is at =
    subst (λ j. is_awaiting j.state ≡ true) (some_eq m k at) (ready_awaits id m is)
  where
    some_eq : (m k : Job) → ◌≡◌ {A = Option Job} (some m) (some k) → m ≡ k
    some_eq m k e = ground arith

    ready_awaits :
        (id : ℕ) (m : Job) → not (is_ready_job id (some m)) ≡ false → is_awaiting m.state ≡ true
    ready_awaits id m h = ground arith

recorded : (a r : Bool) → a ≡ true → (not a || r) ≡ true → (not true || r) ≡ true
recorded a r h k = ground arith

module _ (h : Host) (id : ℕ) where
  -- The ready job that was found.
  abbrev Ready : Job → Predicate
  Ready job e j g = IsSafe e j g × (j ≡ holds job) × (job.id ≡ id) × (is_awaiting job.state ≡ true)

  abbrev Handed : Predicate
  Handed e j g = IsSafe e j g × IsRestarting id e j g

  Ready-Handed :
      (job : Job) (e : Env) (j : Journal) (g : Option Guard)
      → Ready job e j g
      → Handed e (holds (enter restarting none job)) g
  Ready-Handed job e j g p = (
    recorded (is_awaiting job.state) (is_zero job.target e || same_number e.pending (some job.id))
        p.3 (subst (λ j. IsSafe e j g) p.1 p.0),
    (job, refl, p.2, p.3),
  )

  -- Where a job that is ready or restarting has a target without attempts or is recorded as pending,
  -- a restart keeps that, whether it returns, raises or is cut at any point. If it returns, the job
  -- with this identifier, which was ready or restarting, is restarting.
  pub restart-Triple :
      Triple
        (On IsSafe)
        (restart h id)
        (λ _. On λ e j g. IsSafe e j g × IsRestarting id e j g)
        (On IsSafe)
  unfolding restart
  restart-Triple = Triple-bind (journal-Triple h IsSafe IsSafe (λ e j g p. p)) λ found.
      Triple-bind (Triple-raise_if (not (is_ready_job id found)) _ (λ b p. p.0)) λ _.
        Triple-bind {Q = λ job. On (Ready job)}
          (Triple-required found (λ b p. p.0.0)
            (λ job at b p. (
              p.0.0,
              holds-eq b.journal job (p.0.1 ∙ at),
              named id found job p.1 at,
              was_awaiting id found job p.1 at,
            )))
          λ job. Triple-bind (worker_active-Triple h (Ready job) IsSafe (λ e j g p. p.0)) λ busy.
            Triple-bind {Q = λ _. On (Ready job)}
              (Triple-weaken (Triple-raise_if busy _ (λ b p. p.0)) (λ b p. p) (λ _ b p. p.0)
                (λ b p. p))
              λ _.
                Triple-bind
                  (save-Triple h (Ready job) IsSafe (λ e j g p. p.0) Handed
                    (enter restarting none job) (Ready-Handed job) (λ e j g p. p.0))
                  λ _. start_worker-Triple h Handed IsSafe (λ e j g p. p.0)
