-- ===== src/AppUpdate/Floor.antt =====
-- The floor of the app's updates through everything that an update does.
use epilykos_os.Base.{
  ℕ, max, ◌≤◌, ◌<◌, Bool, true, false, ◌||◌, ◌==◌, if◌then◌else◌, Option, none, some, Text,
  same_codes, arith,
}
use epilykos_os.AppCompat.{candidate_image, inspection}
use epilykos_os.AppUpdate.{
  UpdateError, Candidate, AppRelease, Chosen, promoted, baseline, release_of, AppJob, Store,
  Outside, says, ◌>>=◌, ◌>>◌, pure, raise, answered, compatible, floor, or_zero, set_active,
  inspected, inspect_image, restart_app, remove_image, release_with, prepare, keep_previous,
  drop_image, promote, start_candidate, restarted_if, put_back, clean_up, run_job, current_of,
}
use epilykos_os.AppUpdate.Keeps.{
  Keeps, Keeps-pure, Keeps-raise, Keeps-raise_if, Keeps-answered, Keeps-compatible, Keeps-bind,
  Keeps-try_then, Keeps-try_except, Keeps-try_finally, Keeps-spend, Keeps-change, Keeps-write,
  Keeps-remove,
}

module _ (h : Outside) (n : ℕ) where
  -- The floor is at least n.
  abbrev AtLeast : Option ℕ → Type 0
  AtLeast o = n ≤ max (or_zero h o) h.base.sequence

  inspected-AtLeast : (o : Option (ℕ × Text)) → Keeps AtLeast (inspected h o)
  inspected-AtLeast none = Keeps-raise _
  inspected-AtLeast (some (code, out)) = by_code (code == 0)
    where
      by_code :
          (b : Bool)
          → Keeps AtLeast (
              if b
              then compatible (inspection h.verifier.loads out)
              else raise (says "Could not verify the app maintenance configuration"))
      by_code true = Keeps-compatible (inspection h.verifier.loads out)
      by_code false = Keeps-raise (says "Could not verify the app maintenance configuration")

  inspect_image-AtLeast : (c : Candidate) → Keeps AtLeast (inspect_image h c)
  inspect_image-AtLeast c =
      Keeps-spend {m = λ k. inspected h (h.inspect_image k c)}
        λ k. inspected-AtLeast (h.inspect_image k c)

  restart_app-AtLeast : Keeps AtLeast (restart_app h)
  restart_app-AtLeast =
      Keeps-spend {m = λ k. answered (h.restart k) >>= λ code. pure (code == 0)}
        λ k. Keeps-bind (Keeps-answered _) λ code. Keeps-pure _

  set_active-AtLeast : (r : Chosen) → Keeps AtLeast (set_active h r)
  unfolding set_active
  set_active-AtLeast (baseline r) = Keeps-remove h _ λ s q. q
  set_active-AtLeast (promoted r) = Keeps-write h _ λ s q. q

  prepare-AtLeast : (c : Candidate) (job : AppJob) → Keeps AtLeast (prepare h c job)
  unfolding prepare
  prepare-AtLeast c job =
      Keeps-bind (Keeps-spend {m = λ k. answered (h.pull k c)} λ k. Keeps-answered _) λ code.
        Keeps-bind (Keeps-bind (Keeps-raise_if _ _) λ _. inspect_image-AtLeast c) λ info.
          Keeps-bind (Keeps-compatible (candidate_image info)) λ id.
            Keeps-bind (Keeps-bind (Keeps-write h _ λ s q. q) λ _. set_active-AtLeast _)
              λ _. Keeps-pure _

  drop_image-AtLeast :
      (old : Option AppRelease) (cand : AppRelease) (before : Chosen)
      → Keeps AtLeast (drop_image h old cand before)
  drop_image-AtLeast none cand before = Keeps-pure tt
  drop_image-AtLeast (some old) cand before = by_use (
      same_codes old.image_id cand.image_id
      || same_codes old.image_id (release_of before).image_id
      || same_codes old.image_id h.base.image_id)
    where
      by_use :
          (b : Bool) → Keeps AtLeast (if b then pure tt else remove_image h old.image_id >> pure tt)
      by_use true = Keeps-pure tt
      by_use false =
          Keeps-bind
            (Keeps-spend {m = λ k. answered (h.remove_image k old.image_id)} λ k. Keeps-answered _)
            λ _. Keeps-pure tt

  keep_previous-AtLeast : (before : Chosen) → Keeps AtLeast (keep_previous h before)
  keep_previous-AtLeast (baseline r) = Keeps-pure tt
  keep_previous-AtLeast (promoted r) = Keeps-write h _ λ s q. q

  module _ (cand : AppRelease) (newer : n ≤ cand.sequence) where
    promote-AtLeast : (before : Chosen) → Keeps AtLeast (promote h cand before)
    unfolding promote
    promote-AtLeast before = record {
      at = λ s q.
          (Keeps-bind
              (Keeps-bind
                (Keeps-bind
                  (Keeps-bind (keep_previous-AtLeast before) λ _. Keeps-write h _ λ t r. r)
                  λ _. Keeps-write h _ λ t r. ground arith)
                λ _. Keeps-write h _ λ t r. r)
              λ _. drop_image-AtLeast s.previous cand before).at
            s q;
    }

    start_candidate-AtLeast : (before : Chosen) → Keeps AtLeast (start_candidate h cand before)
    unfolding start_candidate
    start_candidate-AtLeast before =
        Keeps-bind (Keeps-try_except restart_app-AtLeast λ _. Keeps-pure false)
          λ healthy. Keeps-bind (Keeps-raise_if _ _) λ _. promote-AtLeast before

  restarted_if-AtLeast : (b : Bool) → Keeps AtLeast (restarted_if h b)
  restarted_if-AtLeast true = restart_app-AtLeast
  restarted_if-AtLeast false = Keeps-pure true

  put_back-AtLeast :
      (c : Candidate) (before : Chosen) (started : Bool) (e : UpdateError)
      → Keeps AtLeast (put_back h c before started e)
  unfolding put_back
  put_back-AtLeast c before started e =
      Keeps-bind
        (Keeps-try_except (Keeps-bind (set_active-AtLeast before) λ _. restarted_if-AtLeast started)
          λ _. Keeps-pure false)
        λ back. Keeps-write h _ λ s q. q

  clean_up-AtLeast : Keeps AtLeast (clean_up h)
  unfolding clean_up
  clean_up-AtLeast =
      Keeps-try_finally (Keeps-bind (Keeps-remove h _ λ s q. q) λ _. Keeps-remove h _ λ s q. q)
        (Keeps-change (λ s. record s { held = false; running = false }) λ s q. q)

-- An installation, however it ends, a power failure at any point included, leaves a floor that is at
-- least what it was, if the candidate was above it, as `apply` requires.
pub run_job-floor :
    (h : Outside) (c : Candidate) (job : AppJob) (s : Store)
    → floor h s < c.sequence
    → floor h s ≤ floor h (run_job h c job s).1
unfolding floor run_job
run_job-floor h c job s newer =
    (Keeps-try_finally
        (Keeps-try_then (prepare-AtLeast h (floor h s) c job)
          (λ id.
            Keeps-try_except
              (start_candidate-AtLeast h (floor h s) (release_with c id) (ground arith)
                (current_of h s))
              (put_back-AtLeast h (floor h s) c (current_of h s) true))
          (put_back-AtLeast h (floor h s) c (current_of h s) false))
        (clean_up-AtLeast h (floor h s))).at
      s (ground arith)
