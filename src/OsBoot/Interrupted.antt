-- ===== src/OsBoot/Interrupted.antt =====
-- A roll-back whose `finish` was cut after the journal was saved and before the guard was set: what
-- `reconcile_boot` does with it at the next boot.
use epilykos_os.Base.{◌≡◌, refl, Bool, true, false, Option, none, some}
use epilykos_os.OsBox.{
  Slot, Env, rolled_back, Job, Journal, Guard, cleared, Host, IsFaithful, Predicate, On,
  clear_pending, Triple, Triple-pure, Triple-bind, mark_active-Triple, set_env-Triple,
}
use epilykos_os.OsUpdate.{starts_by}
use epilykos_os.OsConfirm.Trial.{stored_none}
use epilykos_os.OsBoot.{make_primary, end_rolled_back, is_rolled_back, roll_back}

module _ {h : Host} (f : IsFaithful h) (g₀ : Option Guard) (j₀ : Journal) where
  -- The guard and the journal are those that were there.
  abbrev Untouched : Predicate
  Untouched e j g = (g ≡ g₀) × (j ≡ j₀)

  primary-Triple :
      (slot : Slot) (first : Bool)
      → Triple (On Untouched) (make_primary h slot first) (λ _. On Untouched) (On Untouched)
  unfolding make_primary
  primary-Triple slot true = Triple-pure tt λ b p. p
  primary-Triple slot false =
      Triple-bind
        (mark_active-Triple f Untouched Untouched (λ e j g p. p) Untouched slot (λ e j g p. p)
          (λ e e' j g r p. p))
        λ _. Triple-pure tt λ b p. p

  skipped-Triple :
      (job : Job) (already : Bool)
      → already ≡ true
      → Triple (On Untouched) (end_rolled_back h job already) (λ _. On Untouched) (On Untouched)
  unfolding end_rolled_back
  skipped-Triple job true at = Triple-pure tt λ b p. p
  skipped-Triple job false at = cc

  -- Where the journal says already that the job was rolled back, the roll-back clears what is
  -- pending and reports it, but leaves the guard as it finds it, also a guard that is `pending`, and
  -- the journal too; the same if it raises or is cut.
  pub roll_back-guard :
      (job : Job) (slot : Slot) (v : Env)
      → is_rolled_back job.state ≡ true
      → Triple
          (On λ e j g. (g ≡ g₀) × (j ≡ j₀))
          (roll_back h job slot v true)
          (λ found.
            On λ e j g. (found ≡ some rolled_back) × (e.pending ≡ none) × (g ≡ g₀) × (j ≡ j₀))
          (On λ e j g. (g ≡ g₀) × (j ≡ j₀))
  unfolding roll_back clear_pending
  roll_back-guard job slot v at =
      Triple-bind (primary-Triple slot (starts_by (some slot) v.boot_order)) λ _.
        Triple-bind (skipped-Triple job (is_rolled_back job.state) at) λ _.
          Triple-bind
            (set_env-Triple f Untouched Untouched (λ e j g p. p) Untouched cleared (λ e j g p. p)
              (λ e j g p. p) (λ e j g p. p))
            λ w.
              Triple-pure (some rolled_back)
                λ b p. (refl, stored_none b.env.pending p.2.0, p.0.0, p.0.1)
