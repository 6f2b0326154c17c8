-- ===== src/OsBoot/Armed.antt =====
-- What `reconcile_boot` knows of the journal and the environment on its way.
use epilykos_os.Base.{
  ℕ, ◌≡◌, refl, sym, ◌∙◌, ap, Bool, true, false, not, ◌||◌, Option, none, some, arith,
}
use epilykos_os.OsBox.{
  Env, JobState, is_terminal, Message, Job, Journal, absent, unreadable, holds, held, cleared, Host,
  IsFaithful, Predicate, On, Implies, enter, finish, clear_pending, Triple, Triple-pure,
  Triple-bind, Triple-weaken, Triple-required, save-Triple, finish-Triple, set_env-Triple,
}
use epilykos_os.OsConfirm.{is_job, rebuilt, make_job, rebuild_as, rebuild}
use epilykos_os.OsConfirm.Promotion.{is_job-id}
use epilykos_os.OsConfirm.Trial.{stored_none}
use epilykos_os.OsActivate.Safety.{IsSafe, IsSafe-of_pending, is_awaiting}

-- What was read at the start is what is there.
abbrev pub Known : Env → Option Job → Predicate
Known v found e j g = IsSafe e j g × (v ≡ e) × (held j ≡ found)

-- The journal has the pending job.
abbrev pub Armed : Job → Predicate
Armed job e j g = (j ≡ holds job) × (e.pending ≡ some job.id)

-- The job in the journal has ended.
abbrev pub IsOver : Predicate
IsOver e j g = (k : Job) × (j ≡ holds k) × (is_terminal k.state ≡ true)

-- The job in the journal has not ended.
abbrev pub IsWaiting : Predicate
IsWaiting e j g = (k : Job) × (j ≡ holds k) × (is_terminal k.state ≡ false)

pub held-holds : (j : Journal) (k : Job) → held j ≡ some k → j ≡ holds k
held-holds (holds j) k e = ground arith
held-holds absent k e = cc
held-holds unreadable k e = cc

pub Armed-IsSafe : (job : Job) → Implies (Armed job) IsSafe
Armed-IsSafe job e j g (at, p) = IsSafe-of_pending job e j g (job, at, refl, refl) p

not_awaiting : (s : JobState) (b : Bool) → is_terminal s ≡ true → (not (is_awaiting s) || b) ≡ true
not_awaiting s b h = ground arith

pub IsOver-IsSafe : Implies IsOver IsSafe
IsOver-IsSafe e j g (k, at, over) = rw at (not_awaiting k.state _ over)

module _ (h : Host) (v : Env) (found : Option Job) (id : ℕ) where
  abbrev Named : Predicate
  Named e j g = Known v found e j g × (v.pending ≡ some id)

  rebuild_as-Armed :
      (same : Bool)
      → is_job id found ≡ same
      → Triple (On Named) (rebuild_as h v found id same) (λ job. On (Armed job)) (On IsSafe)
  unfolding rebuild_as make_job
  rebuild_as-Armed true s =
      Triple-required found (λ b p. p.0.0)
        λ job at b p. (
          held-holds b.journal job (p.0.2 ∙ at),
          ap (λ v. v.pending) (sym p.0.1) ∙ p.1 ∙ ap some (sym (is_job-id id found job s at)),
        )
  rebuild_as-Armed false s =
      Triple-bind {Q = λ _. On Named}
        (Triple-required v.target_sequence (λ b p. p.0.0) (λ a e b p. p))
        λ seq.
          Triple-bind
            (save-Triple h Named IsSafe (λ e j g p. p.0.0) (Armed (rebuilt id seq v))
              (rebuilt id seq v) (λ e j g p. (refl, ap (λ v. v.pending) (sym p.0.1) ∙ p.1))
              (Armed-IsSafe (rebuilt id seq v)))
            λ _. Triple-pure _ λ b p. p

-- `rebuild` leaves the pending job in the journal.
pub rebuild-Armed :
    (h : Host) (v : Env) (found : Option Job)
    → Triple (On (Known v found)) (rebuild h v found) (λ job. On (Armed job)) (On IsSafe)
unfolding rebuild
rebuild-Armed h v found =
    Triple-bind {Q = λ id. On (Named h v found id)}
      (Triple-required v.pending (λ b p. p.0) (λ id e b p. (p, e)))
      λ id. rebuild_as-Armed h v found id (is_job id found) refl

-- A job that is finished is over.
pub finish-IsOver :
    (h : Host) (I : Predicate)
    → Implies I IsSafe
    → (job : Job) (state : JobState) (error : Option Message) → is_terminal state ≡ true
    → Triple (On I) (finish h job state error) (λ _. On IsOver) (On IsSafe)
finish-IsOver h I x job state error t =
    finish-Triple h I IsOver IsOver IsSafe job state error t x IsOver-IsSafe IsOver-IsSafe
      (λ e j g p. (enter state error job, refl, t)) (λ e j g p. p)

-- So it may be cleared.
pub clear-IsOver :
    {h : Host} (f : IsFaithful h)
    → Triple
        (On IsOver)
        (clear_pending h)
        (λ _. On λ e j g. IsOver e j g × (e.pending ≡ none))
        (On IsSafe)
unfolding clear_pending
clear-IsOver f =
    Triple-weaken
      (set_env-Triple f IsOver IsSafe IsOver-IsSafe IsOver cleared IsOver-IsSafe (λ e j g p. p)
        (λ e j g p. p))
      (λ b p. p) (λ v b p. (p.0, stored_none b.env.pending p.2.0)) (λ b p. p)
