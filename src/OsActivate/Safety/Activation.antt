-- ===== src/OsActivate/Safety/Activation.antt =====
-- `activate`: intent is recorded before RAUC makes the target bootable, so that no power cut leaves
-- a bootable target that the environment does not know.
use epilykos_os.Base.{
  ℕ, ◌≡◌, refl, ◌∙◌, ◌⊎◌, inl, inr, Bool, true, false, Option, none, some, List, [], ◌∷◌, arith,
  Result, ok, err,
}
use epilykos_os.Storage.{StorageError, Space}
use epilykos_os.OsBox.{
  Env, Phase, activated, restarting, Message, says, Documents, Platform, TrustState, Job, holds,
  Box, Error, os_update_error, trust_error, storage_error, os_error, other_error, Host, IsFaithful,
  same_number, same_phase?, is_phase, Predicate, On, Implies, AllStored, Triple, Triple-pure,
  Triple-raise, Triple-bind, Triple-weaken, Triple-required, Triple-raise_if, Triple-try_else,
  reads-Triple, looks-Triple, save-Triple, set_env-Triple, read_env-Triple, mark_active-Triple,
  reboot-Triple, set_phase,
}
use epilykos_os.OsUpdate.Slots.{settled-Triple, platform-Triple, verify_target-Triple, settled_box}
use epilykos_os.OsActivate.{
  intent, is_stale, is_foreign, is_activated, admitted, revalidate, current_state,
  verify_os_release, raise_first, admit_space, app_blockers, record_intent, switch_over,
  finish_activation, is_only_reboot, activate_from, activate, back_to_ready, or_refused,
  oci_allowance,
}
use epilykos_os.OsActivate.Safety.Recorded.{IsSafe, HasJob, IsSafe-of_pending}
use epilykos_os.OsActivate.Safety.Settling.{Kept, IsReadyAgain, NeedsChecking, back_to_ready-Triple}

admitted_box : (r : Result StorageError Space) (b : Box) → (admitted r b).1 ≡ b
admitted_box (ok s) b = refl
admitted_box (err e) b = refl

pub raise_first_box : (ms : List Message) (b : Box) → (raise_first ms b).1 ≡ b
unfolding raise_first
raise_first_box [] b = refl
raise_first_box (m ∷ ms) b = refl

module _ {h : Host} (f : IsFaithful h) (I X : Predicate) (x : Implies I X) where
  pub current_state-Triple :
      (plat : Platform) → Triple (On I) (current_state h plat) (λ _. On I) (On X)
  unfolding current_state
  current_state-Triple plat =
      looks-Triple I X _ x (λ b. settled_box (h.current_state b.power plat b.env) b)

  pub verify_os_release-Triple :
      (files : Documents) (plat : Platform) (state : TrustState)
      → Triple (On I) (verify_os_release h files plat state) (λ _. On I) (On X)
  unfolding verify_os_release
  verify_os_release-Triple files plat state = settled-Triple f I X x _

  pub admit_space-Triple : (size : ℕ) → Triple (On I) (admit_space h size) (λ _. On I) (On X)
  unfolding admit_space
  admit_space-Triple size = looks-Triple I X _ x (λ b. admitted_box _ b)

  pub app_blockers-Triple : Triple (On I) (app_blockers h) (λ _. On I) (On X)
  unfolding app_blockers
  app_blockers-Triple = looks-Triple I X _ x (λ b. refl)

  -- Revalidation only looks.
  pub revalidate-Triple : (job : Job) → Triple (On I) (revalidate h job) (λ _. On I) (On X)
  unfolding revalidate
  revalidate-Triple job = Triple-bind (platform-Triple f I X x) λ found.
      Triple-bind {Q = λ _. On I} (Triple-required found (λ b. x _ _ _) (λ a e b p. p)) λ plat.
        Triple-bind (current_state-Triple plat) λ state.
          Triple-bind {Q = λ _. On I} (Triple-required job.documents (λ b. x _ _ _) (λ a e b p. p))
            λ files. Triple-bind (verify_os_release-Triple files plat state) λ entry.
              Triple-bind {Q = λ _. On I}
                (Triple-weaken
                  (Triple-raise_if (is_stale entry plat state.floor)
                    (trust_error (says "OS release is not newer than this box's system"))
                    (λ b. x _ _ _))
                  (λ b p. p) (λ _ b p. p.0) (λ b p. p))
                λ _. Triple-bind app_blockers-Triple λ blockers.
                  Triple-bind (reads-Triple I X (raise_first blockers) x (raise_first_box blockers))
                    λ _. Triple-bind (admit_space-Triple oci_allowance) λ _.
                      Triple-weaken (verify_target-Triple f I X x job) (λ b p. p) (λ _ b p. p.0)
                        (λ b p. p)

-- The job is in the journal and recorded as pending.
abbrev pub Pending : Job → Predicate
Pending job e j g = HasJob job e j g × (e.pending ≡ some job.id)

Pending-IsSafe : (job : Job) → Implies (Pending job) IsSafe
Pending-IsSafe job e j g (has, p) = IsSafe-of_pending job e j g has p

Pending-Kept : (job : Job) → Implies (Pending job) (Kept job)
Pending-Kept job e j g (has, p) = (IsSafe-of_pending job e j g has p, has)

stored_number : (o : Option ℕ) (n : ℕ) → same_number o (some n) ≡ true → o ≡ some n
stored_number none n h = cc
stored_number (some m) n h = ground arith

stored_activated : (o : Option Phase) → same_phase? o (some activated) ≡ true → o ≡ some activated
stored_activated o h = ground arith

-- An activation that came to its end: the trial is recorded, and the journal says so.
abbrev pub IsActivated : Job → Predicate
IsActivated job e j g =
    (e.pending ≡ some job.id)
    × (e.phase ≡ some activated)
    × (j ≡ holds (record job { progress = record { phase = restarting; activated = true } }))

-- How `activate` ends for a job that was not activated before, by what it returns.
abbrev pub Activates : Job → ℕ → Predicate
Activates job code e j g =
    ((code ≡ 0) × IsActivated job e j g)
    ⊎ ((code ≡ 1)
        × (error : Message) × (IsReadyAgain job error e j g ⊎ NeedsChecking job error e j g))

pub IsActivated-IsSafe : (job : Job) → Implies (IsActivated job) IsSafe
IsActivated-IsSafe job e j g (p, phase, at) =
    IsSafe-of_pending job e j g
      (record job { progress = record { phase = restarting; activated = true } }, at, refl, refl) p

recorded_phase :
    (o : Option Phase)
    → (is_phase o activated ≡ false) ⊎ ((◌≡◌ {A = Bool} true true) × (o ≡ some activated))
recorded_phase o = ground arith

-- What `is_only_reboot` found out.
abbrev Reboots : Job → Bool → Bool → Predicate
Reboots job before again e j g =
    Kept job e j g × ((again ≡ false) ⊎ ((before ≡ true) × (e.phase ≡ some activated)))

-- After the phase was stored.
abbrev Stored : Job → Env → Predicate
Stored job v e j g = Pending job e j g × (v ≡ e) × AllStored (set_phase (some activated) ∷ []) e

module _ {h : Host} (f : IsFaithful h) (job : Job) where
  record_intent-Triple :
      Triple (On (Kept job)) (record_intent h job) (λ _. On (Pending job)) (On (Kept job))
  unfolding record_intent
  record_intent-Triple =
      let keep : Implies (Kept job) (Kept job) = λ e j g p. p in
      Triple-bind (revalidate-Triple f (Kept job) (Kept job) keep job) λ _.
        Triple-bind (read_env-Triple f (Kept job) (Kept job) keep) λ v.
          Triple-bind {Q = λ _. On (Kept job)}
            (Triple-weaken (Triple-raise_if (is_foreign v.pending job.id) _ (λ b p. p)) (λ b p. p.0)
              (λ _ b p. p.0) (λ b p. p))
            λ _.
              Triple-bind {Q = λ _. On (Kept job)}
                (Triple-required job.image (λ b p. p) (λ a e b p. p))
                λ image.
                  Triple-bind
                    (set_env-Triple f (Kept job) (Kept job) keep (Kept job) (intent job image) keep
                      keep (λ e j g p. Pending-Kept job _ j g (p.1, refl)))
                    λ v'. Triple-pure tt λ b p. (p.0.1, stored_number _ job.id p.2.0)

  switch_over-Triple :
      (switched : Bool)
      → Triple
          (On (Pending job))
          (switch_over h job switched)
          (λ code. On (Activates job code))
          (On IsSafe)
  unfolding switch_over
  switch_over-Triple false =
      Triple-weaken
        (back_to_ready-Triple f job (says "The system could not be set to start the new version"))
        (λ b p. Pending-Kept job _ _ _ p) (λ code b p. inr (p.0, _, p.1)) (λ b p. p)
  switch_over-Triple true =
      Triple-bind
        (set_env-Triple f (Pending job) IsSafe (Pending-IsSafe job) (Pending job)
          (set_phase (some activated) ∷ []) (Pending-IsSafe job) (λ e j g p. p) (λ e j g p. p))
        λ v.
          Triple-bind
            (save-Triple h (Stored job v) IsSafe (λ e j g p. Pending-IsSafe job e j g p.0)
              (IsActivated job) _ (λ e j g p. (p.0.1, stored_activated _ p.2.0, refl))
              (IsActivated-IsSafe job))
            λ _.
              Triple-bind (reboot-Triple h (IsActivated job) IsSafe (IsActivated-IsSafe job))
                λ _. Triple-pure 0 λ b p. inl (refl, p)

  finish_activation-Triple :
      Triple
        (On (Pending job))
        (finish_activation h job)
        (λ code. On (Activates job code))
        (On IsSafe)
  unfolding finish_activation
  finish_activation-Triple =
      Triple-bind {Q = λ _. On (Pending job)}
        (Triple-required job.target (λ b. Pending-IsSafe job _ _ _) (λ a e b p. p))
        λ slot.
          Triple-bind
            (mark_active-Triple f (Pending job) IsSafe (Pending-IsSafe job) (Pending job) slot
              (Pending-IsSafe job) (λ e e' j g r p. (p.0, r.0 ∙ p.1)))
            λ _. Triple-bind (read_env-Triple f (Pending job) IsSafe (Pending-IsSafe job)) λ v.
              Triple-weaken (switch_over-Triple (is_activated job.target v)) (λ b p. p.0)
                (λ _ b p. p) (λ b p. p)

  refused :
      (m : Message)
      → Triple (On (Kept job)) (back_to_ready h job m) (λ code. On (Activates job code)) (On IsSafe)
  refused m =
      Triple-weaken (back_to_ready-Triple f job m) (λ b p. p) (λ code b p. inr (p.0, m, p.1))
        (λ b p. p)

  handler-Triple :
      (e : Error)
      → Triple
          (On (Kept job))
          (or_refused (back_to_ready h job) e)
          (λ code. On (Activates job code))
          (On IsSafe)
  handler-Triple (os_update_error m) = refused m
  handler-Triple (trust_error m) = refused m
  handler-Triple (storage_error m) = refused m
  handler-Triple os_error = Triple-raise _ λ b p. p.0
  handler-Triple other_error = Triple-raise _ λ b p. p.0

  only_reboot-Triple :
      (before : Bool)
      → Triple
          (On (Kept job))
          (is_only_reboot h before)
          (λ again. On (Reboots job before again))
          (On IsSafe)
  unfolding is_only_reboot
  only_reboot-Triple false = Triple-pure false λ b p. (p, inl refl)
  only_reboot-Triple true = Triple-bind (read_env-Triple f (Kept job) IsSafe (λ e j g p. p.0)) λ v.
      Triple-pure (is_phase v.phase activated) λ b p. (p.0, rw (p.1) (recorded_phase b.env.phase))

  activate_from-Triple :
      (before again : Bool)
      → Triple
          (On (Reboots job before again))
          (activate_from h job again)
          (λ code. On λ e j g.
            Activates job code e j g
            ⊎ ((before ≡ true) × (code ≡ 0) × (e.phase ≡ some activated) × IsSafe e j g))
          (On IsSafe)
  unfolding activate_from
  activate_from-Triple before false =
      Triple-weaken
        (Triple-try_else record_intent-Triple (λ _. finish_activation-Triple) handler-Triple
          (λ b p. p.0))
        (λ b p. p.0) (λ code b p. inl p) (λ b p. p)
  activate_from-Triple before true =
      Triple-bind (reboot-Triple h (Reboots job before true) IsSafe (λ e j g p. p.0.0))
        λ _. Triple-pure 0 λ b p. again_ends b p.1 p.0.0
    where
      again_ends :
          (b : Box)
          → (◌≡◌ {A = Bool} true false) ⊎ ((before ≡ true) × (b.env.phase ≡ some activated))
          → On IsSafe b
          → Activates job 0 b.env b.journal b.guard
            ⊎ ((before ≡ true) × (◌≡◌ {A = ℕ} 0 0) × (b.env.phase ≡ some activated) × On IsSafe b)
      again_ends b (inl never) safe = cc
      again_ends b (inr (old, phase)) safe = inr (old, refl, phase, safe)

  -- An activation that starts from a safe job ends in one of four ways. It returns 0 with the
  -- trial recorded in the environment and in the journal. It returns 1 with the job ready again,
  -- its target without attempts and nothing pending, or with a job and a guard that say that the
  -- system needs checking. It returns 0 for a job that was already activated, the recorded phase
  -- still being `activated`. Or it raises or is cut by a power failure, at any point, and then a
  -- job that is ready or restarting has a target without attempts or is recorded as pending.
  pub activate-Triple :
      Triple
        (On (Kept job))
        (activate h job)
        (λ code. On λ e j g.
          Activates job code e j g
          ⊎ ((job.progress.activated ≡ true)
              × (code ≡ 0)
              × (e.phase ≡ some activated)
              × IsSafe e j g))
        (On IsSafe)
  unfolding activate
  activate-Triple =
      Triple-bind (only_reboot-Triple job.progress.activated)
        λ again. activate_from-Triple job.progress.activated again
