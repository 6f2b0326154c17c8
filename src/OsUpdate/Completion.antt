-- ===== src/OsUpdate/Completion.antt =====
-- The end of an installation: `complete_install` and `fail_install`.
use epilykos_os.Base.{
  ℕ, ◌≡◌, refl, sym, ◌⊎◌, inl, inr, Bool, true, false, none, some, Option, List, [], ◌∷◌, both,
  arith,
}
use epilykos_os.OsBox.{
  Slot, slot_a, slot_b, Env, left, left_of, same_number, JobState, ready, failed, Message, noted,
  Job, Journal, holds, GuardState, pending, idle, Error, os_update_error, trust_error,
  storage_error, os_error, other_error, Host, IsFaithful, pure, ◌>>=◌, Predicate, On, on_guard,
  enter, read_env, Triple, Triple-pure, Triple-raise, Triple-bind, Triple-weaken, Triple-required,
  Triple-try_except, Triple-try_else, save-Triple, set_guard-Triple, finish-Triple, mark_bad-Triple,
  read_env-Triple,
}
use epilykos_os.OsUpdate.{
  is_unbootable, starts_by, or_trust_error, or_os_update_error, shown_bad, failed_install,
  fail_install, complete_install,
}
use epilykos_os.OsUpdate.Slots.{verify_target-Triple}

-- The job's target has no attempts left.
abbrev pub HasNoAttempts : Job → Env → Type 0
HasNoAttempts job e = (t : Slot) × (job.target ≡ some t) × (left t e ≡ some 0)

-- The job's source is the first slot of the boot order.
abbrev pub IsSourceFirst : Job → Env → Type 0
IsSourceFirst job e =
    (s : Slot) × ((rest : List Slot) × (job.source ≡ some s) × (e.boot_order ≡ s ∷ rest))

abbrev pub IsUnbootable : Job → Env → Type 0
IsUnbootable job e = HasNoAttempts job e × IsSourceFirst job e

no_attempts :
    (t : Option Slot) (e : Env)
    → same_number (left_of t e) (some 0) ≡ true
    → (s : Slot) × (t ≡ some s) × (left s e ≡ some 0)
no_attempts none e p = cc
no_attempts (some t) e p = (t, refl, same_number_eq (left t e) p)
  where
    same_number_eq : (o : Option ℕ) → same_number o (some 0) ≡ true → o ≡ some 0
    same_number_eq none p = cc
    same_number_eq (some n) p = ground (arith, p)

source_first :
    (s : Option Slot) (order : List Slot)
    → starts_by s order ≡ true
    → (t : Slot) × ((rest : List Slot) × (s ≡ some t) × (order ≡ t ∷ rest))
source_first s [] p = cc
source_first none (t ∷ rest) p = cc
source_first (some slot_a) (slot_a ∷ rest) p = (slot_a, (rest, refl, refl))
source_first (some slot_b) (slot_b ∷ rest) p = (slot_b, (rest, refl, refl))
source_first (some slot_a) (slot_b ∷ rest) p = cc
source_first (some slot_b) (slot_a ∷ rest) p = cc

pub unbootable_lem : (job : Job) (e : Env) → is_unbootable job e ≡ true → IsUnbootable job e
unbootable_lem job e p = (
  no_attempts job.target e (both (same_number (left_of job.target e) (some 0)) _ p).0,
  source_first job.source e.boot_order (both (same_number (left_of job.target e) (some 0)) _ p).1,
)

-- Ready: the target has no attempts, and the slot that runs is first in the order.
abbrev pub IsInstalled : Job → Predicate
IsInstalled job e j g = (j ≡ holds (enter ready job.error job)) × IsUnbootable job e

abbrev pub IsFailed : Job → Message → Predicate
IsFailed job m e j g = (j ≡ holds (enter failed (some m) job)) × IsUnbootable job e

-- The other slot could not be shown to be unused.
abbrev pub IsUnclear : Job → Message → Predicate
IsUnclear job m e j g =
    j
    ≡ holds
        (enter JobState.reconciling (some (noted m "; the other system slot needs checking")) job)

-- What a cut may leave: the journal as it was, or one of the three.
abbrev pub Completing : Journal → Job → Predicate
Completing j₀ job e j g =
    (j ≡ j₀)
    ⊎ (IsInstalled job e j g ⊎ ((m : Message) × (IsFailed job m e j g ⊎ IsUnclear job m e j g)))

-- How `fail_install` ends.
abbrev pub Fails : Job → Predicate
Fails job e j g =
    (m : Message) × ((IsFailed job m e j g × (g ≡ on_guard idle none))
      ⊎ (IsUnclear job m e j g × (g ≡ on_guard GuardState.reconciling (some job.id))))

-- How `complete_install` ends, by what it returns.
abbrev pub Completes : Job → ℕ → Predicate
Completes job code e j g =
    ((code ≡ 0) × IsInstalled job e j g × (g ≡ on_guard pending (some job.id)))
    ⊎ ((code ≡ 1) × Fails job e j g)

module _ {h : Host} (f : IsFaithful h) (j₀ : Journal) (job : Job) where
  abbrev X : Predicate
  X = Completing j₀ job

  abbrev Start : Predicate
  Start e j g = j ≡ j₀

  -- What was found out about the slots.
  abbrev pub Looked : Bool → Predicate
  Looked safe e j g = (j ≡ j₀) × ((safe ≡ false) ⊎ (is_unbootable job e ≡ true))

  look_again-Triple :
      Triple
        (On Start)
        (do env ← read_env h; pure (is_unbootable job env))
        (λ safe. On (Looked safe))
        (On Start)
  look_again-Triple = Triple-bind (read_env-Triple f Start Start (λ e j g p. p)) λ v.
      Triple-pure _
        λ b p. (p.0, either (is_unbootable job v) (is_unbootable job b.env) (rw (p.1) refl))
    where
      either : (c d : Bool) → c ≡ d → (c ≡ false) ⊎ (d ≡ true)
      either true d e = inr (sym e)
      either false d e = inl refl

  unread-Triple :
      (e : Error)
      → Triple (On Start) (or_trust_error (pure false) e) (λ safe. On (Looked safe)) (On Start)
  unread-Triple (trust_error m) = Triple-pure false λ b p. (p, inl refl)
  unread-Triple (os_update_error m) = Triple-raise _ λ b p. p
  unread-Triple (storage_error m) = Triple-raise _ λ b p. p
  unread-Triple os_error = Triple-raise _ λ b p. p
  unread-Triple other_error = Triple-raise _ λ b p. p

  pub failed_install-Triple :
      (m : Message) (safe : Bool)
      → Triple
          (On (Looked safe))
          (failed_install h job m safe)
          (λ code. On λ e j g. (code ≡ 1) × Fails job e j g)
          (On X)
  unfolding failed_install
  failed_install-Triple m true =
      Triple-bind
        (finish-Triple h (Looked true) (IsFailed job m)
          (λ e j g. IsFailed job m e j g × (g ≡ on_guard idle none)) X job failed (some m) refl
          (λ e j g p. inl p.0) (λ e j g p. inr (inr (m, inl p))) (λ e j g p. inr (inr (m, inl p.0)))
          (λ e j g p. (refl, unbootable_lem job e (sure p.1))) (λ e j g p. (p, refl)))
        λ _. Triple-pure 1 λ b p. (refl, (m, inl p))
    where
      sure : {d : Bool} → (◌≡◌ {A = Bool} true false) ⊎ (d ≡ true) → d ≡ true
      sure (inl never) = cc
      sure (inr d) = d
  failed_install-Triple m false =
      Triple-bind
        (save-Triple h (Looked false) X (λ e j g p. inl p.0) (IsUnclear job m) _ (λ e j g p. refl)
          (λ e j g p. inr (inr (m, inr p))))
        λ _.
          Triple-bind
            (set_guard-Triple h (IsUnclear job m) X (λ e j g p. inr (inr (m, inr p)))
              (λ e j g. IsUnclear job m e j g × (g ≡ on_guard GuardState.reconciling (some job.id)))
              GuardState.reconciling (some job.id) (λ e j g p. (p, refl))
              (λ e j g p. inr (inr (m, inr p.0))))
            λ _. Triple-pure 1 λ b p. (refl, (m, inr p))

  pub shown_bad-Triple : Triple (On Start) (shown_bad h job) (λ safe. On (Looked safe)) (On Start)
  unfolding shown_bad
  shown_bad-Triple =
      Triple-bind {Q = λ _. On Start} (Triple-required job.target (λ b p. p) (λ a e b p. p)) λ slot.
        Triple-bind
          (mark_bad-Triple f Start Start (λ e j g p. p) Start slot (λ e j g p. p)
            (λ e e' j g r l p. p))
          λ _. Triple-try_except look_again-Triple unread-Triple (λ b p. p)

  pub fail_install-Triple :
      (m : Message)
      → Triple
          (On Start)
          (fail_install h job m)
          (λ code. On λ e j g. (code ≡ 1) × Fails job e j g)
          (On X)
  unfolding fail_install
  fail_install-Triple m =
      Triple-bind (Triple-weaken shown_bad-Triple (λ b p. p) (λ safe b p. p) (λ b p. inl p))
        λ safe. failed_install-Triple m safe

  refused-Triple :
      (e : Error)
      → Triple
          (On Start)
          (or_os_update_error (fail_install h job) e)
          (λ code. On (Completes job code))
          (On X)
  refused-Triple (os_update_error m) =
      Triple-weaken (fail_install-Triple m) (λ b p. p) (λ code b p. inr p) (λ b p. p)
  refused-Triple (trust_error m) = Triple-raise _ λ b p. inl p
  refused-Triple (storage_error m) = Triple-raise _ λ b p. inl p
  refused-Triple os_error = Triple-raise _ λ b p. inl p
  refused-Triple other_error = Triple-raise _ λ b p. inl p

  -- Whatever the journal was, `complete_install` ends in one of three ways. It returns 0: the job is
  -- ready, its target has no attempts, the source is first in the boot order, and the guard is
  -- pending. It returns 1 with the job failed, the same of the slots, and the guard idle; or with the
  -- job and the guard saying that the other slot needs checking. If it raises or is cut at any point,
  -- the journal is as it was, or the job is ready or failed with such slots, or needs checking.
  pub complete_install-Triple :
      Triple
        (On λ e j g. j ≡ j₀)
        (complete_install h job)
        (λ code. On (Completes job code))
        (On (Completing j₀ job))
  unfolding complete_install
  complete_install-Triple =
      Triple-try_else (verify_target-Triple f Start Start (λ e j g p. p) job)
        (λ _.
          Triple-bind
            (save-Triple h (λ e j g. Start e j g × (is_unbootable job e ≡ true)) X
              (λ e j g p. inl p.0) (IsInstalled job) (enter ready job.error job)
              (λ e j g p. (refl, unbootable_lem job e p.1)) (λ e j g p. inr (inl p)))
            λ _.
              Triple-bind
                (set_guard-Triple h (IsInstalled job) X (λ e j g p. inr (inl p))
                  (λ e j g. IsInstalled job e j g × (g ≡ on_guard pending (some job.id))) pending
                  (some job.id) (λ e j g p. (p, refl)) (λ e j g p. inr (inl p.0)))
                λ _. Triple-pure 0 λ b p. inl (refl, p.0, p.1))
        refused-Triple (λ b p. inl p)
