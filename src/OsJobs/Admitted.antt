-- ===== src/OsJobs/Admitted.antt =====
-- `install`: a job is admitted only where nothing is in progress, and once for a request.
use epilykos_os.Base.{
  ◌≡◌, refl, ◌⊎◌, inl, inr, true, false, not, Option, none, some, subst, ◌∙◌, is_so, ap,
}
use epilykos_os.OsBox.{
  Env, says, Job, Journal, holds, held, Guard, GuardState, Box, os_update_error, Host, Platform,
  IsFaithful, Predicate, On, Triple, Triple-raise, Triple-bind, Triple-weaken, Triple-if,
  Triple-raise_if, Triple-given, journal-Triple, remove-Triple, save-Triple, start_worker-Triple,
}
use epilykos_os.OsUpdate.{guard_state, is_idle}
use epilykos_os.OsUpdate.Slots.{platform-Triple}
use epilykos_os.OsJobs.Install.{
  Order, Shop, is_for, is_same_package, is_unfinished, begin_job, install_new, install_found,
  install_on, install,
}
use epilykos_os.OsJobs.Views.{gets-Triple, view-Triple}
use epilykos_os.OsJobs.Ordered.{IsOrdered, admit_order-Triple}

-- The journal, the guard and the environment as they were.
abbrev pub Same : Env → Journal → Option Guard → Predicate
Same e₀ j₀ g₀ e j g = (j ≡ j₀) × (g ≡ g₀) × (e ≡ e₀)

-- Nothing is in progress: the last job has ended and the guard is idle.
abbrev pub IsFree : Journal → Option Guard → Type 0
IsFree j₀ g₀ = (is_unfinished (held j₀) ≡ false) × (is_idle (guard_state g₀) ≡ true)

abbrev pub Admits : Order → Env → Journal → Option Guard → Predicate
Admits order e₀ j₀ g₀ e j g =
    IsFree j₀ g₀ × ((job : Job) × (j ≡ holds job) × IsOrdered order job) × (g ≡ g₀)

-- The request had been admitted before, for the same package.
abbrev Repeats : Order → Env → Journal → Option Guard → Predicate
Repeats order e₀ j₀ g₀ e j g =
    (is_for order (held j₀) ≡ true) × (is_same_package order (held j₀) ≡ true) × Same e₀ j₀ g₀ e j g

abbrev pub Installs : Order → Env → Journal → Option Guard → Predicate
Installs order e₀ j₀ g₀ e j g = Repeats order e₀ j₀ g₀ e j g ⊎ Admits order e₀ j₀ g₀ e j g

abbrev pub Leaves : Order → Env → Journal → Option Guard → Predicate
Leaves order e₀ j₀ g₀ e j g = Same e₀ j₀ g₀ e j g ⊎ Admits order e₀ j₀ g₀ e j g

module _ {h : Host} (f : IsFaithful h) (shop : Shop) (order : Order) (e₀ : Env) (j₀ : Journal)
    (g₀ : Option Guard) where
  abbrev Ready : Predicate
  Ready e j g = Same e₀ j₀ g₀ e j g × IsFree j₀ g₀

  begin_job-Triple :
      (job : Job)
      → Triple
          (λ b. On Ready b × IsOrdered order job)
          (begin_job h job)
          (λ _. On (Installs order e₀ j₀ g₀))
          (On (Leaves order e₀ j₀ g₀))
  unfolding begin_job
  begin_job-Triple job = Triple-given λ is.
      Triple-bind (remove-Triple h Ready (Leaves order e₀ j₀ g₀) (λ e j g p. inl p.0) _ (λ b p. p))
        λ _.
          Triple-bind
            (save-Triple h Ready (Leaves order e₀ j₀ g₀) (λ e j g p. inl p.0)
              (Admits order e₀ j₀ g₀) job (λ e j g p. (p.1, (job, refl, is), p.0.1))
              (λ e j g p. inr p))
            λ _.
              Triple-bind
                (start_worker-Triple h (Admits order e₀ j₀ g₀) (Leaves order e₀ j₀ g₀)
                  (λ e j g p. inr p))
                λ _.
                  Triple-weaken
                    (view-Triple f (Admits order e₀ j₀ g₀) (Leaves order e₀ j₀ g₀)
                      (λ e j g p. inr p) false)
                    (λ b p. p) (λ _ b p. inr p) (λ b p. p)

  install_new-Triple :
      (plat : Platform) (found : Option Job)
      → Triple
          (On λ e j g. (Same e₀ j₀ g₀) e j g × (held j₀ ≡ found))
          (install_new h shop order plat found)
          (λ _. On (Installs order e₀ j₀ g₀))
          (On (Leaves order e₀ j₀ g₀))
  unfolding install_new
  install_new-Triple plat found =
      Triple-bind {Q = λ _. On λ e j g. (Same e₀ j₀ g₀) e j g × (is_unfinished (held j₀) ≡ false)}
        (Triple-weaken (Triple-raise_if (is_unfinished found) _ (λ b p. inl p.0)) (λ b p. p)
          (λ _ b p. (p.0.0, ap is_unfinished p.0.1 ∙ p.1)) (λ b p. p))
        λ _.
          Triple-bind
            (gets-Triple (λ e j g. (Same e₀ j₀ g₀) e j g × (is_unfinished (held j₀) ≡ false))
              (Leaves order e₀ j₀ g₀) _)
            λ g.
              Triple-bind {Q = λ _. On Ready}
                (Triple-weaken
                  (Triple-raise_if (not (is_idle g))
                    (os_update_error (says "An OS update needs checking before another can start"))
                    (λ b p. inl p.0.0))
                  (λ b p. p) (λ _ b p. ready b g p.0.0.0 p.0.0.1 p.0.1 p.1) (λ b p. p))
                λ _.
                  Triple-bind
                    (admit_order-Triple f shop Ready (Leaves order e₀ j₀ g₀) (λ e j g p. inl p.0)
                      order plat)
                    (begin_job-Triple)
    where
      ready :
          (b : Box) (g : GuardState)
          → On (Same e₀ j₀ g₀) b
          → is_unfinished (held j₀) ≡ false
          → g ≡ guard_state b.guard
          → not (is_idle g) ≡ false
          → On Ready b
      ready b g same ended at idle = (
        same,
        (
          ended,
          subst (λ o. is_idle (guard_state o) ≡ true) same.1
              (subst (λ k. is_idle k ≡ true) at (is_so (is_idle g) idle)),
        ),
      )

  install_found-Triple :
      (plat : Platform) (found : Option Job)
      → Triple
          (On λ e j g. (Same e₀ j₀ g₀) e j g × (held j₀ ≡ found))
          (install_found h shop order plat found)
          (λ _. On (Installs order e₀ j₀ g₀))
          (On (Leaves order e₀ j₀ g₀))
  unfolding install_found
  install_found-Triple plat found =
      Triple-if (is_for order found) _ _
        (λ same.
          Triple-bind {Q = λ _. On (Repeats order e₀ j₀ g₀)}
            (Triple-weaken (Triple-raise_if (not (is_same_package order found)) _ (λ b p. inl p.0))
              (λ b p. p)
              (λ _ b p. (
                ap (is_for order) p.0.1 ∙ same,
                ap (is_same_package order) p.0.1 ∙ is_so (is_same_package order found) p.1,
                p.0.0,
              ))
              (λ b p. p))
            λ _.
              Triple-weaken
                (view-Triple f (Repeats order e₀ j₀ g₀) (Leaves order e₀ j₀ g₀) (λ e j g p. inl p.2)
                  true)
                (λ b p. p) (λ _ b p. inl p) (λ b p. p))
        λ other. install_new-Triple plat found

  install_on-Triple :
      (plat : Option Platform)
      → Triple
          (On (Same e₀ j₀ g₀))
          (install_on h shop order plat)
          (λ _. On (Installs order e₀ j₀ g₀))
          (On (Leaves order e₀ j₀ g₀))
  unfolding install_on
  install_on-Triple none = Triple-raise _ λ b p. inl p
  install_on-Triple (some plat) =
      Triple-bind {Q = λ found. On λ e j g. (Same e₀ j₀ g₀) e j g × (held j₀ ≡ found)}
        (Triple-weaken (journal-Triple h (Same e₀ j₀ g₀) (Leaves order e₀ j₀ g₀) (λ e j g p. inl p))
          (λ b p. p) (λ found b p. (p.0, subst (λ j. held j ≡ found) p.0.0 p.1)) (λ b p. p))
        (install_found-Triple plat)

  -- Whatever the journal and the guard are: an installation that returns has admitted the order, with
  -- the last job ended and the guard idle, and the journal holds its queued job, which is to install
  -- in the slot that does not run; or the same request for the same package was admitted before, and
  -- the journal, the guard and the environment are as they were. If it raises or is cut at any point,
  -- they are as they were, or the order has been admitted under the same conditions.
  pub install-Triple :
      Triple
        (On (Same e₀ j₀ g₀))
        (install h shop (some order))
        (λ _. On (Installs order e₀ j₀ g₀))
        (On (Leaves order e₀ j₀ g₀))
  unfolding install
  install-Triple =
      Triple-bind (platform-Triple f (Same e₀ j₀ g₀) (Leaves order e₀ j₀ g₀) (λ e j g p. inl p))
        install_on-Triple
