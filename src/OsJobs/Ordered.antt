-- ===== src/OsJobs/Ordered.antt =====
-- The checks of an order, and the job that it makes.
use epilykos_os.Base.{ℕ, ◌≡◌, refl, Bool, not, Option, none, some, subst, sym}
use epilykos_os.OsBox.{
  Slot, other, queued, Documents, Job, Box, Error, os_update_error, trust_error, storage_error,
  os_error, other_error, Host, Platform, TrustState, IsFaithful, Predicate, On, Implies, Triple,
  Triple-pure, Triple-raise, Triple-bind, Triple-weaken, Triple-raise_if, Triple-try_except,
  reads-Triple, looks-Triple, booted_slot-Triple, read_env-Triple, raise_if,
}
use epilykos_os.OsUpdate.Slots.{settled-Triple}
use epilykos_os.OsActivate.{raise_first, is_stale}
use epilykos_os.OsActivate.Safety.{
  current_state-Triple, verify_os_release-Triple, admit_space-Triple, app_blockers-Triple,
  raise_first_box,
}
use epilykos_os.OsJobs.Install.{
  Order, Shop, is_ordered, new_job, or_policy_error, checked_files, read_checked, verify_offer,
  all_blockers, admit_order,
}
use epilykos_os.OsJobs.Views.{gets-Triple}

-- The job that an order makes: it is to install in the slot that does not run.
abbrev pub IsOrdered : Order → Job → Type 0
IsOrdered order job =
    (job.state ≡ queued)
    × (job.request_id ≡ some order.request_id)
    × (job.sequence ≡ order.sequence)
    × (job.sha256 ≡ some order.sha256)
    × ((s : Slot) × (job.source ≡ some s) × (job.target ≡ some (other s)))

checked_box : (o : Option Documents) (b : Box) → (checked_files o b).1 ≡ b
checked_box none b = refl
checked_box (some files) b = refl

module _ (I X : Predicate) (x : Implies I X) where
  refused-Triple : (e : Error) → Triple (On I) (or_policy_error {A = ℕ} e) (λ _. On I) (On X)
  refused-Triple (os_update_error m) = Triple-raise _ λ b p. x _ _ _ p
  refused-Triple (trust_error m) = Triple-raise _ λ b p. x _ _ _ p
  refused-Triple (storage_error m) = Triple-raise _ λ b p. x _ _ _ p
  refused-Triple os_error = Triple-raise _ λ b p. x _ _ _ p
  refused-Triple other_error = Triple-raise _ λ b p. x _ _ _ p

module _ {h : Host} (f : IsFaithful h) (shop : Shop) (I X : Predicate) (x : Implies I X) where
  pub verify_offer-Triple :
      (files : Documents) (plat : Platform) (state : TrustState)
      → Triple (On I) (verify_offer h shop files plat state) (λ _. On I) (On X)
  unfolding verify_offer
  verify_offer-Triple files plat state =
      Triple-bind
        (Triple-try_except
          (settled-Triple f I I (λ e j g p. p) (shop.verify_policy files plat state))
          (refused-Triple I X x) (λ b p. x _ _ _ p))
        λ policy. verify_os_release-Triple f I X x files plat _

  blockers-Triple : (slot : Slot) → Triple (On I) (all_blockers h shop slot) (λ _. On I) (On X)
  unfolding all_blockers
  blockers-Triple slot =
      Triple-bind {Q = λ _. On I}
        (Triple-weaken (read_env-Triple f I X x) (λ b p. p) (λ _ b p. p.0) (λ b p. p))
        λ env.
          Triple-bind (looks-Triple I X _ x (λ b. refl))
            λ health. Triple-bind (app_blockers-Triple f I X x) λ app. Triple-pure _ λ b p. p

  -- A check that only refuses.
  pub check-Triple : (c : Bool) (e : Error) → Triple (On I) (raise_if c e) (λ _. On I) (On X)
  check-Triple c e =
      Triple-weaken (Triple-raise_if c e (λ b p. x _ _ _ p)) (λ b p. p) (λ _ b p. p.0) (λ b p. p)

  pub admit_order-Triple :
      (order : Order) (plat : Platform)
      → Triple (On I) (admit_order h shop order plat) (λ job b. On I b × IsOrdered order job) (On X)
  unfolding admit_order read_checked
  admit_order-Triple order plat =
      Triple-bind (looks-Triple I X _ x (λ b. checked_box (shop.checked b.power) b)) λ files.
        Triple-bind (current_state-Triple f I X x plat) λ state.
          Triple-bind (verify_offer-Triple files plat state) λ entry.
            Triple-bind (check-Triple (not (is_ordered order entry)) _) λ _.
              Triple-bind (check-Triple (is_stale entry plat state.floor) _) λ _.
                Triple-bind {Q = λ _. On I}
                  (Triple-weaken (booted_slot-Triple h I X x) (λ b p. p) (λ _ b p. p.0) (λ b p. p))
                  λ slot. Triple-bind (blockers-Triple slot) λ blockers.
                    Triple-bind
                      (reads-Triple I X (raise_first blockers) x (raise_first_box blockers))
                      λ _. Triple-bind (admit_space-Triple f I X x _) λ _.
                        Triple-weaken
                          (gets-Triple I X
                            λ b. new_job (shop.new_id b.power) order entry slot files)
                          (λ b p. p)
                          (λ job b p. (
                            p.0,
                            subst (IsOrdered order) (sym p.1)
                                (refl, refl, refl, refl, (slot, refl, refl)),
                          ))
                          (λ b p. p)
