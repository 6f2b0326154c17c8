-- ===== src/OsWorker/Saved.antt =====
-- What the worker leaves in the journal, and the two ends of a job that RAUC did not get.
use epilykos_os.Base.{ℕ, ◌≡◌, refl, ◌⊎◌, inl, inr, true, Option, none, some}
use epilykos_os.OsBox.{
  Host, JobState, installing, cancelled, failed, is_terminal, Message, Job, Image, Journal, holds,
  Env, Box, Guard, GuardState, idle, pending, Error, os_update_error, trust_error, storage_error,
  os_error, other_error, Host, Action, Predicate, On, Implies, on_guard, enter, Triple, Triple-pure,
  Triple-raise, Triple-bind, Triple-weaken, finish-Triple,
}
use epilykos_os.OsUpdate.Completion.{IsInstalled, IsUnclear, Fails, Completing}
use epilykos_os.OsJobs.Install.{Shop}
use epilykos_os.OsRauc.{Bus}
use epilykos_os.OsWorker.{or_failed, end_cancelled, end_failed}
use epilykos_os.OsWorker.Fetching.{Crew, at_phase}
use epilykos_os.OsWorker.Fetched.{IsChecked, Early}

module _ (h : Host) (crew : Crew) (j₀ : Journal) (job : Job) where
  -- The job with an image that was checked.
  abbrev pub HasImage : Job → Type 0
  HasImage k =
      (image : Image) × IsChecked h crew job image × (k ≡ record job { image = some image })

  abbrev pub IsOf : Job → Type 0
  IsOf k = (k ≡ job) ⊎ HasImage k

  -- The journal at any point: the first phases, the job cancelled or failed, the installation begun
  -- or the slot unclear for a checked image, or a checked image installed in a slot that can not boot.
  pub data Leaves : Env → Journal → Option Guard → Type 0 where
    before : {e : Env} {j : Journal} {g : Option Guard} → Early j₀ job e j g → Leaves e j g
    ended :
        {e : Env} {j : Journal} {g : Option Guard} (k : Job) (s : JobState) (m : Option Message)
        → IsOf k
        → is_terminal s ≡ true
        → j ≡ holds (enter s m k)
        → Leaves e j g
    begun :
        {e : Env} {j : Journal} {g : Option Guard} (k : Job)
        → HasImage k
        → j ≡ holds (at_phase installing k)
        → Leaves e j g
    unclear :
        {e : Env} {j : Journal} {g : Option Guard} (k : Job) (m : Message)
        → HasImage k
        → IsUnclear k m e j g
        → Leaves e j g
    installed :
        {e : Env} {j : Journal} {g : Option Guard} (k : Job)
        → HasImage k
        → IsInstalled k e j g
        → Leaves e j g

  -- How `work` ends, by what it returns.
  pub data Works : ℕ → Env → Journal → Option Guard → Type 0 where
    was_cancelled :
        {e : Env} {j : Journal} {g : Option Guard} (k : Job)
        → IsOf k
        → j ≡ holds (enter cancelled none k)
        → g ≡ on_guard idle none
        → Works 0 e j g
    has_failed :
        {code : ℕ} {e : Env} {j : Journal} {g : Option Guard} (k : Job) (m : Message)
        → IsOf k
        → j ≡ holds (enter failed (some m) k)
        → g ≡ on_guard idle none
        → Works code e j g
    is_unclear :
        {code : ℕ} {e : Env} {j : Journal} {g : Option Guard} (k : Job) (m : Message)
        → HasImage k
        → IsUnclear k m e j g
        → g ≡ on_guard GuardState.reconciling (some k.id)
        → Works code e j g
    was_installed :
        {e : Env} {j : Journal} {g : Option Guard} (k : Job)
        → HasImage k
        → IsInstalled k e j g
        → g ≡ on_guard pending (some k.id)
        → Works 0 e j g

  Fails-Works :
      (k : Job)
      → HasImage k
      → (code : ℕ) (e : Env) (j : Journal) (g : Option Guard) → Fails (at_phase installing k) e j g
      → Works code e j g
  Fails-Works k has code e j g (m, inl p) = has_failed k m (inr has) p.0.0 p.1
  Fails-Works k has code e j g (m, inr p) = is_unclear k m has p.0 p.1

  pub Works-zero : (code : ℕ) → Implies (Works code) (Works 0)
  Works-zero code e j g (was_cancelled k of p i) = was_cancelled k of p i
  Works-zero code e j g (has_failed k m of p i) = has_failed k m of p i
  Works-zero code e j g (is_unclear k m has p i) = is_unclear k m has p i
  Works-zero code e j g (was_installed k has p i) = was_installed k has p i

  Completing-Leaves :
      (k : Job)
      → HasImage k
      → (j₁ : Journal) → Implies (λ e j g. j ≡ j₁) Leaves
      → Implies (Completing j₁ (at_phase installing k)) Leaves
  Completing-Leaves k has j₁ first e j g (inl p) = first e j g p
  Completing-Leaves k has j₁ first e j g (inr (inl p)) = installed k has p
  Completing-Leaves k has j₁ first e j g (inr (inr (m, inl p))) =
      ended k failed (some m) (inr has) refl p.0
  Completing-Leaves k has j₁ first e j g (inr (inr (m, inr p))) = unclear k m has p

  -- An action that ends as `fail_install` does.
  pub failing-Triple :
      (P : Predicate) (k : Job)
      → HasImage k
      → (j₁ : Journal) → Implies (λ e j g. j ≡ j₁) Leaves
      → {m : Action ℕ}
      → Triple
          (On P)
          m
          (λ code. On λ e j g. (code ≡ 1) × Fails (at_phase installing k) e j g)
          (On (Completing j₁ (at_phase installing k)))
      → Triple (On P) m (λ code. On (Works code)) (On Leaves)
  failing-Triple P k has j₁ first t =
      Triple-weaken t (λ b p. p) (λ code b p. Fails-Works k has code b.env b.journal b.guard p.1)
        (λ b p. Completing-Leaves k has j₁ first b.env b.journal b.guard p)

  module _ (bus : Bus) (shop : Shop) where
    -- A job that is finished as cancelled or as failed, whatever the journal held before.
    pub end_cancelled-Triple :
        (k : Job)
        → IsOf k
        → Triple (On Leaves) (end_cancelled h bus shop crew k) (λ code. On (Works code)) (On Leaves)
    unfolding end_cancelled
    end_cancelled-Triple k of =
        Triple-bind
          (finish-Triple h Leaves (λ e j g. j ≡ holds (enter cancelled none k))
            (λ e j g. (j ≡ holds (enter cancelled none k)) × (g ≡ on_guard idle none)) Leaves k
            cancelled none refl (λ e j g p. p) (λ e j g p. ended k cancelled none of refl p)
            (λ e j g p. ended k cancelled none of refl p.0) (λ e j g p. refl)
            (λ e j g p. (p, refl)))
          λ _. Triple-pure 0 λ b p. was_cancelled k of p.0 p.1

    pub end_failed-Triple :
        (k n : Job) (m : Message)
        → IsOf k
        → enter failed (some m) n ≡ enter failed (some m) k
        → Triple (On Leaves) (end_failed h bus shop crew n m) (λ code. On (Works code)) (On Leaves)
    unfolding end_failed
    end_failed-Triple k n m of same =
        Triple-bind
          (finish-Triple h Leaves (λ e j g. j ≡ holds (enter failed (some m) k))
            (λ e j g. (j ≡ holds (enter failed (some m) k)) × (g ≡ on_guard idle none)) Leaves n
            failed (some m) refl (λ e j g p. p) (λ e j g p. ended k failed (some m) of refl p)
            (λ e j g p. ended k failed (some m) of refl p.0) (λ e j g p. rw same refl)
            (λ e j g p. (p, refl)))
          λ _. Triple-pure 1 λ b p. has_failed k m of p.0 p.1

-- The `except` line of `work`, with the handler of its stage.
pub or_failed-Triple :
    {A : Type 0} {P : Predicate} {Q : A → Box → Type 0} {X : Predicate}
    (handler : Message → Action A)
    → Implies P X
    → ((m : Message) → Triple (On P) (handler m) Q (On X))
    → (e : Error) → Triple (On P) (or_failed handler e) Q (On X)
or_failed-Triple handler x t (os_update_error m) = t m
or_failed-Triple handler x t (trust_error m) = t m
or_failed-Triple handler x t (storage_error m) = t m
or_failed-Triple handler x t os_error = t _
or_failed-Triple handler x t other_error = Triple-raise _ λ b p. x _ _ _ p
