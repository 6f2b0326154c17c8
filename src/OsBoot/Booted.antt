-- ===== src/OsBoot/Booted.antt =====
-- How `reconcile_boot` ends, and what its calls leave of that.
use epilykos_os.Base.{◌≡◌, refl, ◌∙◌, ◌⊎◌, inl, inr, Bool, true, false, Option, none, some, arith}
use epilykos_os.OsBox.{
  absent, unreadable, Env, JobState, ready, is_for_worker, is_terminal, Message, Job, Journal,
  holds, Guard, SameRecord, Predicate, Implies, enter,
}
use epilykos_os.OsActivate.Safety.{IsSafe, IsReadyAgain, NeedsChecking, IsSafe-of_zero}
use epilykos_os.OsBoot.{Found}
use epilykos_os.OsBoot.Armed.{Armed, IsOver, IsWaiting}

-- The states that `reconcile_boot` returns for a job that has ended.
abbrev pub is_over : Found → Bool
is_over none = false
is_over (some s) = is_terminal s

-- What is reported agrees with the journal and the environment.
abbrev pub Booted : Found → Predicate
Booted found e j g = IsSafe e j g × ((is_over found ≡ false) ⊎ (IsOver e j g × (e.pending ≡ none)))

-- How `back_to_ready` ends, whatever the error.
abbrev pub Returned : Job → Message → Predicate
Returned job error e j g = IsReadyAgain job error e j g ⊎ NeedsChecking job error e j g

pub Returned-IsWaiting :
    (job : Job) (error : Message)
    → Implies (Returned job error) (λ e j g. IsSafe e j g × IsWaiting e j g)
Returned-IsWaiting job error e j g (inl p) = (
  IsSafe-of_zero job e j g (enter ready (some error) job, p.0, refl, refl) p.2,
  (enter ready (some error) job, p.0, refl),
)
Returned-IsWaiting job error e j g (inr p) = (rw (p.0) refl, (_, p.0, refl))

pub IsSafe-any : (e : Env) (j : Journal) (g g' : Option Guard) → IsSafe e j g → IsSafe e j g'
IsSafe-any e (holds j) g g' p = p
IsSafe-any e absent g g' p = p
IsSafe-any e unreadable g g' p = p

pub IsSafe-itself : Implies IsSafe IsSafe
IsSafe-itself e j g p = p

pub Armed-moved :
    (job : Job) (e e' : Env) (j : Journal) (g : Option Guard)
    → SameRecord e e'
    → Armed job e j g
    → Armed job e' j g
Armed-moved job e e' j g r p = (p.0, r.0 ∙ p.1)

pub is_for_worker-runs : (s : JobState) → is_for_worker s ≡ true → is_terminal s ≡ false
is_for_worker-runs s h = ground arith
