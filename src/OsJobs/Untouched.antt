-- ===== src/OsJobs/Untouched.antt =====
-- `check` leaves the environment, the journal and the guard alone.
use epilykos_os.Base.{ℕ, ltb, Bool, true, false, refl, ◌≡◌, Option, none, some}
use epilykos_os.OsBox.{
  Documents, Box, Host, Platform, TrustState, Entry, IsFaithful, Predicate, On, Implies, Triple,
  Triple-pure, Triple-bind, Triple-weaken, Triple-if, looks-Triple, booted_slot-Triple,
  read_env-Triple, layout-Triple, write_atomic-Triple,
}
use epilykos_os.OsUpdate.Slots.{platform-Triple}
use epilykos_os.OsActivate.{is_stale}
use epilykos_os.OsActivate.Safety.{current_state-Triple, app_blockers-Triple}
use epilykos_os.OsJobs.{View}
use epilykos_os.OsJobs.Install.{Shop}
use epilykos_os.OsJobs.Ordered.{verify_offer-Triple}
use epilykos_os.OsJobs.Views.{view-Triple}
use epilykos_os.OsJobs.Check.{
  Feed, unless_large, fetched_document, fetch_document, fetch_release, found_blockers,
  offer_release, check_on, check,
}

large_box : (c : Bool) (document : ℕ) (b : Box) → (unless_large c document b).1 ≡ b
large_box true document b = refl
large_box false document b = refl

fetched_box :
    (maximum : ℕ) (reply : Option (ℕ × ℕ)) (b : Box) → (fetched_document maximum reply b).1 ≡ b
fetched_box maximum none b = refl
fetched_box maximum (some (size, document)) b = large_box (ltb maximum size) document b

module _ {h : Host} (f : IsFaithful h) (shop : Shop) (feed : Feed) (I X : Predicate)
    (x : Implies I X) where
  fetch_document-Triple :
      (maximum : ℕ) (reply : ℕ → Option (ℕ × ℕ))
      → Triple (On I) (fetch_document maximum reply) (λ _. On I) (On X)
  unfolding fetch_document
  fetch_document-Triple maximum reply =
      looks-Triple I X _ x (λ b. fetched_box maximum (reply b.power) b)

  fetch_release-Triple : Triple (On I) (fetch_release h shop feed) (λ _. On I) (On X)
  unfolding fetch_release
  fetch_release-Triple = Triple-bind (fetch_document-Triple _ feed.index) λ entry.
      Triple-bind (fetch_document-Triple _ feed.index_sig) λ entry_sig.
        Triple-bind (fetch_document-Triple _ feed.policy) λ policy.
          Triple-bind (fetch_document-Triple _ feed.policy_sig) λ policy_sig. Triple-pure _ λ b p. p

  found_blockers-Triple : Triple (On I) (found_blockers h shop feed) (λ _. On I) (On X)
  unfolding found_blockers
  found_blockers-Triple =
      Triple-bind {Q = λ _. On I}
        (Triple-weaken (read_env-Triple f I X x) (λ b p. p) (λ _ b p. p.0) (λ b p. p))
        λ env.
          Triple-bind {Q = λ _. On I}
            (Triple-weaken (booted_slot-Triple h I X x) (λ b p. p) (λ _ b p. p.0) (λ b p. p))
            λ slot.
              Triple-bind (looks-Triple I X _ x (λ b. refl))
                λ health. Triple-bind (app_blockers-Triple f I X x) λ app. Triple-pure _ λ b p. p

  offer_release-Triple :
      (files : Documents) (state : TrustState) (entry : Entry) (result : View)
      → Triple (On I) (offer_release h shop feed files state entry result) (λ _. On I) (On X)
  unfolding offer_release
  offer_release-Triple files state entry result = Triple-bind found_blockers-Triple λ blockers.
      Triple-bind (looks-Triple I X _ x (λ b. refl)) λ room.
        Triple-bind (layout-Triple h I X x) λ _.
          Triple-bind (write_atomic-Triple h I X x I (λ b. b) (λ b p. p) x)
            λ _. Triple-pure _ λ b p. p

  check_on-Triple :
      (plat : Option Platform) → Triple (On I) (check_on h shop feed plat) (λ _. On I) (On X)
  unfolding check_on
  check_on-Triple none = Triple-bind (view-Triple f I X x true) λ result. Triple-pure _ λ b p. p
  check_on-Triple (some plat) = Triple-bind (current_state-Triple f I X x plat) λ state.
      Triple-bind fetch_release-Triple λ files.
        Triple-bind (verify_offer-Triple f shop I X x files plat state) λ entry.
          Triple-bind (view-Triple f I X x true) λ result.
            Triple-if (is_stale entry plat state.floor) _ _ (λ _. Triple-pure _ λ b p. p)
              λ _. offer_release-Triple files state entry result

  -- Whatever holds of the environment, the journal and the guard holds after a check, however it ends.
  pub check-Triple : Triple (On I) (check h shop feed) (λ _. On I) (On X)
  unfolding check
  check-Triple = Triple-bind (platform-Triple f I X x) check_on-Triple
