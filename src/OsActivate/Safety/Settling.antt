-- ===== src/OsActivate/Safety/Settling.antt =====
-- `back_to_ready`: whatever stopped an activation, the job ends ready with its target non-bootable
-- and nothing pending, or needs checking; and it is safe at every point on the way.
use epilykos_os.Base.{ℕ, ◌≡◌, refl, ◌⊎◌, inl, inr, Bool, true, false, Option, none, some, sym, ◌∙◌}
use epilykos_os.OsBox.{
  Slot, slot_a, slot_b, Env, JobState, ready, Message, noted, Job, Journal, holds, GuardState,
  pending, Guard, Error, os_update_error, trust_error, storage_error, os_error, other_error,
  assign_all, cleared, Host, IsFaithful, pure, ◌>>◌, same_number, enter, Predicate, On, Implies,
  on_guard, Triple, Triple-pure, Triple-raise, Triple-bind, Triple-weaken, Triple-if,
  Triple-try_except, save-Triple, set_guard-Triple, set_env-Triple, target_bad-Triple,
  clear_pending,
}
use epilykos_os.OsActivate.{back_to_ready, make_safe, settle, or_unanswered}
use epilykos_os.OsActivate.Safety.Recorded.{is_zero, IsSafe, HasJob, IsSafe-fewer, IsSafe-of_zero}

-- How `back_to_ready` leaves a job.
abbrev pub IsReadyAgain : Job → Message → Predicate
IsReadyAgain job error e j g =
    (j ≡ holds (enter ready (some error) job))
    × (g ≡ on_guard pending (some job.id))
    × (is_zero job.target e ≡ true)
    × (e.pending ≡ none)

abbrev pub checking : Message → Job → Job
checking error = enter JobState.reconciling (some (noted error "; the system state needs checking"))

abbrev pub NeedsChecking : Job → Message → Predicate
NeedsChecking job error e j g =
    (j ≡ holds (checking error job)) × (g ≡ on_guard GuardState.reconciling (some job.id))

is_zero-cleared :
    (t : Option Slot) (e : Env) → is_zero t e ≡ true → is_zero t (assign_all cleared e) ≡ true
is_zero-cleared none e z = z
is_zero-cleared (some slot_a) e z = z
is_zero-cleared (some slot_b) e z = z

not_pending : (o : Option ℕ) → same_number o none ≡ true → o ≡ none
not_pending none h = refl
not_pending (some n) h = cc

-- The job is in the journal, and safe.
abbrev pub Kept : Job → Predicate
Kept job e j g = IsSafe e j g × HasJob job e j g

-- Its target is non-bootable, and perhaps nothing is pending.
abbrev Unarmed : Job → Predicate
Unarmed job e j g = HasJob job e j g × (is_zero job.target e ≡ true)

abbrev pub Released : Job → Predicate
Released job e j g = Unarmed job e j g × (e.pending ≡ none)

Unarmed-Kept : (job : Job) → Implies (Unarmed job) (Kept job)
Unarmed-Kept job e j g (has, zero) = (IsSafe-of_zero job e j g has zero, has)

abbrev pub Either : Job → Bool → Predicate
Either job safe e j g = Kept job e j g × ((safe ≡ false) ⊎ Released job e j g)

-- What `settle` has saved, before it sets the guard.
abbrev SavedReady : Job → Message → Predicate
SavedReady job error e j g =
    (j ≡ holds (enter ready (some error) job)) × (is_zero job.target e ≡ true) × (e.pending ≡ none)

abbrev SavedChecking : Job → Message → Predicate
SavedChecking job error e j g = j ≡ holds (checking error job)

saved_ready :
    (job : Job) (error : Message) (e : Env) (j : Journal) (g : Option Guard)
    → (◌≡◌ {A = Bool} true false) ⊎ Released job e j g
    → SavedReady job error e (holds (enter ready (some error) job)) g
saved_ready job error e j g (inl never) = cc
saved_ready job error e j g (inr r) = (refl, r.0.1, r.1)

SavedReady-IsSafe : (job : Job) (error : Message) → Implies (SavedReady job error) IsSafe
SavedReady-IsSafe job error e j g (at, zero, p) =
    IsSafe-of_zero job e j g (enter ready (some error) job, at, refl, refl) zero

SavedChecking-IsSafe : (job : Job) (error : Message) → Implies (SavedChecking job error) IsSafe
SavedChecking-IsSafe job error e j g at = rw at refl

module _ {h : Host} (f : IsFaithful h) (job : Job) where
  clear-Triple :
      Triple
        (On (Unarmed job))
        (clear_pending h >> pure true)
        (λ safe. On (Either job safe))
        (On (Kept job))
  unfolding clear_pending
  clear-Triple =
      Triple-bind
        (set_env-Triple f (Unarmed job) (Kept job) (Unarmed-Kept job) (Unarmed job) cleared
          (Unarmed-Kept job) (λ e j g p. p) (λ e j g p. (p.0, is_zero-cleared job.target e p.1)))
        λ v. Triple-pure true λ b p. (Unarmed-Kept job _ _ _ p.0, inr (p.0, not_pending _ p.2.0))

  pub make_safe-Triple :
      Triple (On (Kept job)) (make_safe h job.target) (λ safe. On (Either job safe)) (On (Kept job))
  unfolding make_safe
  make_safe-Triple =
      Triple-bind
        (target_bad-Triple f (Kept job) (Kept job) (λ e j g p. p) (Kept job) job.target
          (λ e j g p. p) (λ e e' j g r l p. (IsSafe-fewer e e' j g r l p.0, p.1)))
        λ safe.
          Triple-if safe _ _
            (λ yes_safe.
              Triple-weaken clear-Triple (λ b p. (p.0.1, sym p.1 ∙ yes_safe)) (λ _ b p. p)
                (λ b p. p))
            (λ not_safe. Triple-pure false λ b p. (p.0, inl refl))

  handler-Triple :
      (e : Error)
      → Triple
          (On (Kept job))
          (or_unanswered (pure false) e)
          (λ safe. On (Either job safe))
          (On (Kept job))
  handler-Triple (os_update_error m) = Triple-pure false λ b p. (p, inl refl)
  handler-Triple (trust_error m) = Triple-pure false λ b p. (p, inl refl)
  handler-Triple (storage_error m) = Triple-raise _ λ b p. p
  handler-Triple os_error = Triple-raise _ λ b p. p
  handler-Triple other_error = Triple-raise _ λ b p. p

  settle-Triple :
      (error : Message) (safe : Bool)
      → Triple
          (On (Either job safe))
          (settle h job error safe)
          (λ code.
            On λ e j g. (code ≡ 1) × (IsReadyAgain job error e j g ⊎ NeedsChecking job error e j g))
          (On IsSafe)
  unfolding settle
  settle-Triple error true =
      Triple-bind
        (save-Triple h (Either job true) IsSafe (λ e j g p. p.0.0) (SavedReady job error)
          (enter ready (some error) job) (λ e j g p. saved_ready job error e j g p.1)
          (SavedReady-IsSafe job error))
        λ _.
          Triple-bind
            (set_guard-Triple h (SavedReady job error) IsSafe (SavedReady-IsSafe job error)
              (IsReadyAgain job error) pending (some job.id) (λ e j g p. (p.0, refl, p.1, p.2))
              (λ e j g p. SavedReady-IsSafe job error e j g (p.0, p.2, p.3)))
            λ _. Triple-pure 1 λ b p. (refl, inl p)
  settle-Triple error false =
      Triple-bind
        (save-Triple h (Either job false) IsSafe (λ e j g p. p.0.0) (SavedChecking job error)
          (checking error job) (λ e j g p. refl) (SavedChecking-IsSafe job error))
        λ _.
          Triple-bind
            (set_guard-Triple h (SavedChecking job error) IsSafe (SavedChecking-IsSafe job error)
              (NeedsChecking job error) GuardState.reconciling (some job.id) (λ e j g p. (p, refl))
              (λ e j g p. SavedChecking-IsSafe job error e j g p.0))
            λ _. Triple-pure 1 λ b p. (refl, inr p)

  -- Whatever stopped the activation, `back_to_ready` ends with the job ready, its target without
  -- attempts and nothing pending, or with a job that needs checking; and when it raises or the power
  -- fails on the way, a job that is ready or restarting is still safe.
  pub back_to_ready-Triple :
      (error : Message)
      → Triple
          (On (Kept job))
          (back_to_ready h job error)
          (λ code.
            On λ e j g. (code ≡ 1) × (IsReadyAgain job error e j g ⊎ NeedsChecking job error e j g))
          (On IsSafe)
  unfolding back_to_ready
  back_to_ready-Triple error =
      Triple-bind
        (Triple-weaken (Triple-try_except make_safe-Triple handler-Triple (λ b p. p)) (λ b p. p)
          (λ _ b p. p) (λ b p. p.0))
        λ safe. settle-Triple error safe
