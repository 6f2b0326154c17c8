-- ===== src/OsWorker/Worked.antt =====
-- `work`: what an installation leaves, however it ends.
use epilykos_os.Base.{
  ℕ, ◌==◌, ◌≡◌, refl, sym, subst, ◌⊎◌, inl, inr, Bool, true, Option, none, some, List, [], ◌∷◌,
}
use epilykos_os.OsBox.{
  installing, ready, failed, Message, Job, Image, Journal, holds, Box, pending, Error,
  os_update_error, trust_error, storage_error, os_error, other_error, Host, IsFaithful, Predicate,
  On, Implies, on_guard, enter, Triple, Triple-pure, Triple-raise, Triple-bind, Triple-weaken,
  Triple-if, Triple-given, Triple-try_except, Triple-try_else, spend-Triple, looks-Triple,
  reads-Triple, save-Triple, set_guard-Triple,
}
use epilykos_os.OsUpdate.{is_unbootable, fail_install}
use epilykos_os.OsUpdate.Slots.{platform-Triple, verify_target-Triple}
use epilykos_os.OsUpdate.Completion.{
  IsInstalled, unbootable_lem, Looked, shown_bad-Triple, failed_install-Triple, fail_install-Triple,
}
use epilykos_os.OsJobs.Install.{Shop}
use epilykos_os.OsRauc.{Bus}
use epilykos_os.OsWorker.{
  or_failed, end_failed, end_cancelled, started_rauc, refused_message, rauc_goes_on, follow,
  run_rauc, fail_in_work, unverified, complete_in_work, end_rauc, install_phase, install_bundle,
  unless_stopped, after_fetch, work, is_cancelled,
}
use epilykos_os.OsWorker.Fetching.{Crew, at_phase, save_phase}
use epilykos_os.OsWorker.Fetched.{Early, Found, rauc_identity-Triple, fetch_image-Triple}
use epilykos_os.OsWorker.Saved.{
  HasImage, IsOf, Leaves, before, begun, installed, was_installed, Works, Works-zero,
  failing-Triple, end_cancelled-Triple, end_failed-Triple, or_failed-Triple,
}

started_box : (o : Option (List Bool)) (b : Box) → (started_rauc o b).1 ≡ b
started_box none b = refl
started_box (some lines) b = refl

module _ {h : Host} (f : IsFaithful h) (bus : Bus) (shop : Shop) (crew : Crew) (j₀ : Journal)
    (job : Job) where
  abbrev L : Predicate
  L = Leaves h crew j₀ job

  abbrev W : ℕ → Predicate
  W = Works h crew j₀ job

  keep : Implies L L
  keep e j g p = p

  -- From `step(job, 'installing')` on, with the job and its image.
  module _ (k : Job) (has : HasImage h crew j₀ job k) where
    abbrev J : Job
    J = at_phase installing k

    abbrev Begun : Predicate
    Begun e j g = j ≡ holds J

    left : Implies Begun L
    left e j g p = begun k has p

    rauc_step-Triple : Triple (On Begun) (rauc_goes_on h bus shop crew) (λ _. On Begun) (On Begun)
    unfolding rauc_goes_on
    rauc_step-Triple = spend-Triple Begun Begun (λ _. On Begun) _ (λ e j g p. p) λ b p. p

    follow-Triple :
        (lines : List Bool)
        → Triple (On Begun) (follow h bus shop crew J lines) (λ _. On Begun) (On Begun)
    unfolding follow save_phase
    follow-Triple [] = Triple-pure tt λ b p. p
    follow-Triple (saves ∷ lines) = Triple-bind rauc_step-Triple λ _.
        Triple-bind {Q = λ _. On Begun}
          (Triple-if saves _ _
            (λ _. save-Triple h Begun Begun (λ e j g p. p) Begun J (λ e j g p. refl) (λ e j g p. p))
            λ _. Triple-pure tt λ b p. p)
          λ _. follow-Triple lines

    run_rauc-Triple : Triple (On Begun) (run_rauc h bus shop crew J) (λ _. On Begun) (On Begun)
    unfolding run_rauc
    run_rauc-Triple =
        Triple-bind
          (looks-Triple Begun Begun _ (λ e j g p. p) (λ b. started_box (crew.rauc b.power) b))
          λ lines.
            Triple-bind
              (Triple-try_except (follow-Triple lines)
                (λ e. Triple-bind rauc_step-Triple λ _. Triple-raise e λ b p. p) (λ b p. p))
              λ _.
                Triple-bind rauc_step-Triple
                  λ _. looks-Triple Begun Begun _ (λ e j g p. p) (λ b. refl)

    -- The step to the phase may have been refused, or saved and reported as failed.
    abbrev Entering : Predicate
    Entering e j g = Early j₀ job e j g ⊎ (j ≡ holds J)

    entering : Implies Entering L
    entering e j g (inl p) = before p
    entering e j g (inr p) = begun k has p

    fails-Triple :
        (m : Message) → Triple (On Entering) (fail_install h J m) (λ code. On (W code)) (On L)
    fails-Triple m = record {
      at = λ b p.
          (failing-Triple h crew j₀ job (λ e j g. j ≡ b.journal) k has b.journal
              (λ e j g same. entering e j g (subst (λ j. Entering b.env j b.guard) (sym same) p))
              (fail_install-Triple f b.journal J m)).at
            b refl;
    }

    -- A record that can not be saved ends the job as failed.
    unsaved-Triple :
        (n : Job)
        → ((m : Message) → enter failed (some m) n ≡ enter failed (some m) k)
        → (e : Error)
        → Triple (On L) (or_failed (end_failed h bus shop crew n) e) (λ code. On (W code)) (On L)
    unsaved-Triple n same =
        or_failed-Triple (end_failed h bus shop crew n) keep
          λ m. end_failed-Triple h crew j₀ job bus shop k n m (inr has) (same m)

    stopped-Triple :
        (e : Error)
        → Triple (On Entering) (or_failed (fail_install h J) e) (λ code. On (W code)) (On L)
    stopped-Triple = or_failed-Triple (fail_install h J) entering fails-Triple

    interrupted-Triple :
        (e : Error)
        → Triple (On Begun) (or_failed (fail_install h J) e) (λ code. On (W code)) (On L)
    interrupted-Triple e =
        Triple-weaken (stopped-Triple e) (λ b p. inr p) (λ code b p. p) (λ b p. p)

    fail_in_work-Triple :
        (m : Message)
        → Triple (On Begun) (fail_in_work h bus shop crew J m) (λ code. On (W code)) (On L)
    unfolding fail_in_work
    fail_in_work-Triple m =
        Triple-try_else (shown_bad-Triple f (holds J) J)
          (λ safe.
            Triple-try_except
              (Triple-bind
                (failing-Triple h crew j₀ job (Looked f (holds J) J safe) k has (holds J) left
                  (failed_install-Triple f (holds J) J m safe))
                λ code. Triple-pure 0 λ b. Works-zero h crew j₀ job code b.env b.journal b.guard)
              (unsaved-Triple J λ m. refl) (λ b p. p))
          interrupted-Triple (λ b p. left b.env b.journal b.guard p)

    unverified-Triple :
        (e : Error)
        → Triple (On Begun) (unverified h bus shop crew J e) (λ code. On (W code)) (On L)
    unverified-Triple (os_update_error m) = fail_in_work-Triple m
    unverified-Triple (trust_error m) = interrupted-Triple (trust_error m)
    unverified-Triple (storage_error m) = interrupted-Triple (storage_error m)
    unverified-Triple os_error = interrupted-Triple os_error
    unverified-Triple other_error = interrupted-Triple other_error

    complete-Triple :
        Triple (On Begun) (complete_in_work h bus shop crew J) (λ code. On (W code)) (On L)
    unfolding complete_in_work
    complete-Triple =
        Triple-try_else (verify_target-Triple f Begun Begun (λ e j g p. p) J)
          (λ _.
            Triple-try_except
              (Triple-bind
                (save-Triple h (λ e j g. Begun e j g × (is_unbootable k e ≡ true)) L
                  (λ e j g p. begun k has p.0) (IsInstalled k) (enter ready k.error J)
                  (λ e j g p. (refl, unbootable_lem k e p.1)) (λ e j g p. installed k has p))
                λ _.
                  Triple-bind
                    (set_guard-Triple h (IsInstalled k) L (λ e j g p. installed k has p)
                      (λ e j g. IsInstalled k e j g × (g ≡ on_guard pending (some k.id))) pending
                      (some k.id) (λ e j g p. (p, refl)) (λ e j g p. installed k has p.0))
                    λ _. Triple-pure 0 λ b p. was_installed k has p.0 p.1)
              (unsaved-Triple J λ m. refl) (λ b p. p))
          unverified-Triple (λ b p. left b.env b.journal b.guard p)

    end_rauc-Triple :
        (code : ℕ)
        → Triple (On Begun) (end_rauc h bus shop crew J code) (λ code. On (W code)) (On L)
    unfolding end_rauc
    end_rauc-Triple code =
        Triple-if (code == 0) _ _ (λ _. complete-Triple)
          λ _.
            Triple-bind (looks-Triple Begun L _ left (λ b. refl))
              λ last. fail_in_work-Triple (refused_message last)

    install_phase-Triple :
        Triple (On (Early j₀ job)) (install_phase h bus shop crew J) (λ code. On (W code)) (On L)
    unfolding install_phase
    install_phase-Triple =
        Triple-try_else {Q = λ _. On Begun} {Y = On Entering}
          (Triple-bind
            (save-Triple h (Early j₀ job) Entering (λ e j g p. inl p) Begun J (λ e j g p. refl)
              (λ e j g p. inr p))
            λ _. Triple-weaken run_rauc-Triple (λ b p. p) (λ _ b p. p) (λ b p. inr p))
          end_rauc-Triple stopped-Triple (λ b p. entering _ _ _ p)

    install_bundle-Triple :
        Triple (On (Early j₀ job)) (install_bundle h bus shop crew k) (λ code. On (W code)) (On L)
    unfolding install_bundle
    install_bundle-Triple =
        Triple-try_else {Q = λ _. On (Early j₀ job)} {Y = On L}
          (rauc_identity-Triple bus (Early j₀ job) L (λ e j g p. before p))
          (λ writer. install_phase-Triple) (unsaved-Triple k λ m. refl) (λ b p. p)

  cancels-Triple :
      (k : Job)
      → IsOf h crew j₀ job k
      → Triple (On (Early j₀ job)) (end_cancelled h bus shop crew k) (λ code. On (W code)) (On L)
  cancels-Triple k of =
      Triple-weaken (end_cancelled-Triple h crew j₀ job bus shop k of) (λ b p. before p)
        (λ code b p. p) (λ b p. p)

  after_fetch-Triple :
      (found : Option Image)
      → Triple
          (λ b. On (Early j₀ job) b × Found h crew job found)
          (after_fetch h bus shop crew job found)
          (λ code. On (W code))
          (On L)
  unfolding after_fetch unless_stopped
  after_fetch-Triple none = Triple-given λ _. cancels-Triple job (inl refl)
  after_fetch-Triple (some image) = Triple-given λ checked.
      let k : Job = record job { image = some image } in
      let has : HasImage h crew j₀ job k = (image, checked, refl) in
      Triple-bind
        (reads-Triple (Early j₀ job) L (is_cancelled h bus shop crew k) (λ e j g p. before p)
          λ b. refl)
        λ stop.
          Triple-if stop _ _ (λ _. cancels-Triple k (inr has)) λ _. install_bundle-Triple k has

  -- Whatever the journal is: where `work` returns, the job is cancelled and the guard idle; or ready in
  -- a target without attempts, with the guard pending and an image that was checked; or failed and
  -- the guard idle; or the job and the guard say that the other slot needs checking. It returns 0 in
  -- the first two cases. If it raises or is cut at any point, the journal is as it was, or holds the
  -- job in a phase before the installation, or cancelled or failed; or it holds the job with a checked
  -- image, in the installation, needing checking, or ready in such a target. An image is checked if
  -- `verify_bundle` accepts it, with the entry that the job's documents hold as its release and the
  -- policy under which that entry is signed, of the bytes of a download of the entry's size.
  pub work-Triple :
      Triple
        (On λ e j g. j ≡ j₀)
        (work h bus shop crew job)
        (λ code. On (Works h crew j₀ job code))
        (On (Leaves h crew j₀ job))
  unfolding work
  work-Triple =
      Triple-bind (platform-Triple f (λ e j g. j ≡ j₀) L (λ e j g p. before (inl p))) λ plat.
        Triple-try_else {Y = On L}
          (Triple-weaken (fetch_image-Triple f bus shop crew j₀ job plat) (λ b p. inl p)
            (λ image b p. p) (λ b p. before p))
          after_fetch-Triple
          (or_failed-Triple (end_failed h bus shop crew job) keep
            λ m. end_failed-Triple h crew j₀ job bus shop job job m (inl refl) refl)
          (λ b p. p)
