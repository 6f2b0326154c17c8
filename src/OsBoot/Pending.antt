-- ===== src/OsBoot/Pending.antt =====
-- The branches of `reconcile_boot` for an environment with a pending job.
use epilykos_os.Base.{
  ℕ, ◌≡◌, refl, ◌∙◌, inl, inr, Bool, true, false, not, Option, none, some, arith,
}
use epilykos_os.OsBox.{
  target_bad, Slot, Env, JobState, confirmed, rolled_back, failed, ready, trying, is_slot,
  same_number, is_terminal, Job, idle, pending, GuardState, Host, IsFaithful, pure, ◌>>◌, Predicate,
  On, Implies, enter, clear_pending, Triple, Triple-pure, Triple-bind, Triple-weaken, Triple-if,
  Triple-required, save-Triple, mark_active-Triple, target_bad-Triple,
}
use epilykos_os.OsUpdate.{starts_by}
use epilykos_os.OsUpdate.Reconciling.{guard-Triple}
use epilykos_os.OsActivate.{back_to_ready}
use epilykos_os.OsActivate.Safety.{IsSafe, back_to_ready-Triple}
use epilykos_os.OsBoot.{
  is_confirmed, is_rolled_back, is_unfinished, interrupted, trial_job, on_target, needs_checking,
  make_primary, end_rolled_back, roll_back, after_trial, end_untried, untried, with_pending,
}
use epilykos_os.OsBoot.Armed.{
  Known, Armed, IsOver, IsWaiting, held-holds, Armed-IsSafe, IsOver-IsSafe, rebuild-Armed,
  finish-IsOver, clear-IsOver,
}
use epilykos_os.OsBoot.Booted.{Booted, Returned-IsWaiting, IsSafe-any, IsSafe-itself, Armed-moved}

module _ {h : Host} (f : IsFaithful h) where
  needs_checking-Triple :
      (I : Predicate) (v : Env)
      → Implies I IsSafe
      → Triple (On I) (needs_checking h v) (λ found. On (Booted found)) (On IsSafe)
  unfolding needs_checking
  needs_checking-Triple I v x =
      Triple-weaken
        (Triple-bind
          (guard-Triple h IsSafe IsSafe IsSafe-itself IsSafe-any GuardState.reconciling v.pending)
          λ _. Triple-pure (some JobState.reconciling) λ b p. (p, inl refl))
        (λ b p. x _ _ _ p) (λ _ b p. p) (λ b p. p)

  -- The end of a job: the journal says so, and then nothing is pending.
  clear_and_report-Triple :
      (state : JobState)
      → Triple
          (On IsOver)
          (clear_pending h >> pure (some state))
          (λ found. On (Booted found))
          (On IsSafe)
  clear_and_report-Triple state =
      Triple-bind (clear-IsOver f)
        λ _. Triple-pure (some state) λ b p. (IsOver-IsSafe _ _ _ p.0, inr p)

  trial_job-Triple :
      (job : Job) (ended : Bool)
      → is_confirmed job.state ≡ ended
      → Triple (On (Armed job)) (trial_job h job ended) (λ found. On (Booted found)) (On IsSafe)
  unfolding trial_job
  trial_job-Triple job true s =
      Triple-weaken
        (Triple-bind (clear-IsOver f) λ _.
          Triple-bind
            (guard-Triple h _ IsSafe (λ e j g p. IsOver-IsSafe e j g p.0) (λ e j g g' p. p) idle
              none)
            λ _. Triple-pure (some confirmed) λ b p. (IsOver-IsSafe _ _ _ p.0, inr p))
        (λ b p. (job, p.0, is_confirmed-ended job.state s)) (λ _ b p. p) (λ b p. p)
    where
      is_confirmed-ended : (s : JobState) → is_confirmed s ≡ true → is_terminal s ≡ true
      is_confirmed-ended s e = ground arith
  trial_job-Triple job false s =
      Triple-bind
        (save-Triple h (Armed job) IsSafe (Armed-IsSafe job) IsSafe (enter trying job.error job)
          (λ e j g p. refl) IsSafe-itself)
        λ _.
          Triple-bind (guard-Triple h IsSafe IsSafe IsSafe-itself IsSafe-any pending (some job.id))
            λ _. Triple-pure (some trying) λ b p. (p, inl refl)

  on_target-Triple :
      (found : Option Job) (v : Env)
      → Triple (On (Known v found)) (on_target h found v) (λ r. On (Booted r)) (On IsSafe)
  unfolding on_target
  on_target-Triple found v =
      Triple-bind (rebuild-Armed h v found)
        λ job. trial_job-Triple job (is_confirmed job.state) refl

  make_primary-Triple :
      (job : Job) (slot : Slot) (first : Bool)
      → Triple (On (Armed job)) (make_primary h slot first) (λ _. On (Armed job)) (On IsSafe)
  unfolding make_primary
  make_primary-Triple job slot true = Triple-pure tt λ b p. p
  make_primary-Triple job slot false =
      Triple-bind
        (mark_active-Triple f (Armed job) IsSafe (Armed-IsSafe job) (Armed job) slot
          (Armed-IsSafe job) (Armed-moved job))
        λ _. Triple-pure tt λ b p. p

  end_rolled_back-Triple :
      (job : Job) (already : Bool)
      → is_rolled_back job.state ≡ already
      → Triple (On (Armed job)) (end_rolled_back h job already) (λ _. On IsOver) (On IsSafe)
  unfolding end_rolled_back
  end_rolled_back-Triple job true s =
      Triple-pure tt λ b p. (job, p.0, is_rolled_back-ended job.state s)
    where
      is_rolled_back-ended : (s : JobState) → is_rolled_back s ≡ true → is_terminal s ≡ true
      is_rolled_back-ended s e = ground arith
  end_rolled_back-Triple job false s =
      finish-IsOver h (Armed job) (Armed-IsSafe job) job rolled_back _ refl

  roll_back-Triple :
      (job : Job) (slot : Slot) (v : Env) (bad : Bool)
      → Triple (On (Armed job)) (roll_back h job slot v bad) (λ r. On (Booted r)) (On IsSafe)
  unfolding roll_back
  roll_back-Triple job slot v false = needs_checking-Triple (Armed job) v (Armed-IsSafe job)
  roll_back-Triple job slot v true =
      Triple-bind (make_primary-Triple job slot (starts_by (some slot) v.boot_order)) λ _.
        Triple-bind (end_rolled_back-Triple job (is_rolled_back job.state) refl)
          λ _. clear_and_report-Triple rolled_back

  armed_bad-Triple :
      (job : Job) (target : Option Slot)
      → Triple (On (Armed job)) (target_bad h target) (λ _. On (Armed job)) (On IsSafe)
  armed_bad-Triple job target =
      Triple-weaken
        (target_bad-Triple f (Armed job) IsSafe (Armed-IsSafe job) (Armed job) target
          (Armed-IsSafe job) (λ e e' j g r l p. Armed-moved job e e' j g r p))
        (λ b p. p) (λ _ b p. p.0) (λ b p. p)

  after_trial-Triple :
      (found : Option Job) (slot : Slot) (v : Env)
      → Triple (On (Known v found)) (after_trial h found slot v) (λ r. On (Booted r)) (On IsSafe)
  unfolding after_trial
  after_trial-Triple found slot v =
      Triple-bind (rebuild-Armed h v found)
        λ job. Triple-bind (armed_bad-Triple job v.target) λ bad. roll_back-Triple job slot v bad

  end_untried-Triple :
      (job : Job) (v : Env) (bad : Bool)
      → Triple (On (Armed job)) (end_untried h job v bad) (λ r. On (Booted r)) (On IsSafe)
  unfolding end_untried
  end_untried-Triple job v false = needs_checking-Triple (Armed job) v (Armed-IsSafe job)
  end_untried-Triple job v true =
      Triple-bind (finish-IsOver h (Armed job) (Armed-IsSafe job) job failed _ refl)
        λ _. clear_and_report-Triple failed

  -- A job of the journal goes back to ready, or needs checking.
  pub known_back-Triple :
      (found : Option Job) (v : Env) (job : Job)
      → Triple
          (λ b. On (Known v found) b × (found ≡ some job))
          (back_to_ready h job interrupted)
          (λ _. On λ e j g. IsSafe e j g × IsWaiting e j g)
          (On IsSafe)
  known_back-Triple found v job =
      Triple-weaken (back_to_ready-Triple f job interrupted)
        (λ b p. (p.0.0, (job, held-holds b.journal job (p.0.2 ∙ p.1), refl, refl)))
        (λ code b p. Returned-IsWaiting job interrupted b.env b.journal b.guard p.1) (λ b p. p)

  untried-Triple :
      (found : Option Job) (v : Env) (unfinished : Bool)
      → Triple (On (Known v found)) (untried h found v unfinished) (λ r. On (Booted r)) (On IsSafe)
  unfolding untried
  untried-Triple found v true =
      Triple-bind {Q = λ job b. On (Known v found) b × (found ≡ some job)}
        (Triple-required found (λ b p. p.0) (λ job at b p. (p, at)))
        λ job.
          Triple-bind (known_back-Triple found v job)
            λ _. Triple-pure (some ready) λ b p. (p.0, inl refl)
  untried-Triple found v false =
      Triple-bind (rebuild-Armed h v found)
        λ job. Triple-bind (armed_bad-Triple job v.target) λ bad. end_untried-Triple job v bad

  pub with_pending-Triple :
      (id : ℕ) (found : Option Job) (slot : Slot) (v : Env)
      → Triple
          (On (Known v found))
          (with_pending h id found slot v)
          (λ r. On (Booted r))
          (On IsSafe)
  unfolding with_pending
  with_pending-Triple id found slot v =
      Triple-if (is_slot v.target slot) _ _ (λ _. on_target-Triple found v)
        λ _.
          Triple-if (not (is_slot v.from_slot slot)) _ _
            (λ _. needs_checking-Triple (Known v found) v (λ e j g p. p.0))
            λ _.
              Triple-if (same_number v.trial_started (some id)) _ _
                (λ _. after_trial-Triple found slot v)
                λ _. untried-Triple found v (is_unfinished id found)
