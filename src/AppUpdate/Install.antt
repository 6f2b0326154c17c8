-- ===== src/AppUpdate/Install.antt =====
-- The thread that installs, and the recovery when hostd starts.
use epilykos_os.Base.{
  ℕ, Bool, true, false, not, ◌||◌, ◌==◌, if◌then◌else◌, Option, none, some, Text, same_codes,
  Result, ok, err,
}
use epilykos_os.Json.{Json}
use epilykos_os.AppCompat.{CompatibilityError, inspection, candidate_image}
use epilykos_os.AppUpdate.Manifest.{UpdateError, says, Candidate, verify}
use epilykos_os.AppUpdate.State.{
  AppRelease, Chosen, promoted, baseline, release_of, AppJob, starting, installed, failed, Verified,
  Outside, done, Action, ◌>>=◌, ◌>>◌, pure, raise, try_except, try_then, try_finally, change,
  raise_if, spend, answered, write, remove, current_of, set_active,
}

-- A result of a function that writes nothing. A CompatibilityError becomes an UpdateError.
abbrev pub lifted : {A : Type 0} → Result UpdateError A → Action A
lifted (ok a) = pure a
lifted (err e) = raise e

abbrev pub compatible : {A : Type 0} → Result CompatibilityError A → Action A
compatible (ok a) = pure a
compatible (err e) = raise (says "The app is not compatible")

abbrev pub is_some : {A : Type 0} → Option A → Bool
is_some none = false
is_some (some _) = true

abbrev pub is_zero : Option ℕ → Bool
is_zero none = false
is_zero (some code) = code == 0

abbrev pub release_with : Candidate → Text → AppRelease
release_with c image_id = record {
  release = c.release;
  sequence = c.sequence;
  digest = c.digest;
  image_id = image_id;
}

module _ (h : Outside) where
  -- `_inspect_app`, of an output that has come.
  abbrev pub inspected : Option (ℕ × Text) → Action Json
  inspected none = raise (says "Could not verify the app maintenance configuration")
  inspected (some (code, out)) =
      if code == 0
      then compatible (inspection h.verifier.loads out)
      else raise (says "Could not verify the app maintenance configuration")

  abbrev pub inspect_image : Candidate → Action Json
  inspect_image c = spend λ s. inspected (h.inspect_image s.power c) s

  abbrev pub inspect_app : Action Json
  inspect_app = spend λ s. inspected (h.inspect_app s.power) s

  abbrev pub pull : Candidate → Action ℕ
  pull c = spend λ s. answered (h.pull s.power c) s

  -- `_restart_app`: whether it succeeded; a time-out raises.
  abbrev pub restart_app : Action Bool
  restart_app = spend λ s. (answered (h.restart s.power) >>= λ code. pure (code == 0)) s

  abbrev pub remove_image : Text → Action ℕ
  remove_image id = spend λ s. answered (h.remove_image s.power id) s

  -- `fetch_latest`
  abbrev pub fetched : Option Verified → Action (Candidate × Verified)
  fetched none = raise (says "Could not reach the update server")
  fetched (some v) = lifted (verify h.verifier v.manifest v.signature) >>= λ c. pure (c, v)

  unfoldable pub fetch_latest : Action (Candidate × Verified)
  fetch_latest = spend λ s. fetched (h.fetch s.power) s

  -- Download, inspect and make the candidate the image that starts next; its image ID.
  unfoldable pub prepare : Candidate → AppJob → Action Text
  prepare c job = pull c >>= λ code.
      raise_if (not (code == 0)) (says "Could not download the update")
      >> inspect_image c
      >>= λ info. compatible (candidate_image info) >>= λ image_id.
          write h (λ s. record s { job = some (record job { state = starting }) })
          >> set_active h (promoted (release_with c image_id))
          >> pure image_id

  abbrev pub keep_previous : Chosen → Action (Unit {0})
  keep_previous (baseline r) = pure tt
  keep_previous (promoted r) = write h λ s. record s { previous = some r }

  -- The old previous image, if neither release nor the baseline uses it.
  abbrev pub drop_image : Option AppRelease → AppRelease → Chosen → Action (Unit {0})
  drop_image none cand before = pure tt
  drop_image (some old) cand before =
      if same_codes old.image_id cand.image_id
        || same_codes old.image_id (release_of before).image_id
        || same_codes old.image_id h.base.image_id
      then pure tt
      else remove_image old.image_id >> pure tt

  unfoldable pub promote : AppRelease → Chosen → Action (Unit {0})
  promote cand before s =
      (keep_previous before
          >> write h (λ t. record t { current = some cand })
          >> write h (λ t. record t { stored_floor = some cand.sequence })
          >> write h (λ t. record t { result = some (installed cand.release cand.sequence) })
          >> drop_image s.previous cand before)
        s

  -- A time-out of the restart counts as not healthy.
  unfoldable pub start_candidate : AppRelease → Chosen → Action (Unit {0})
  unfolding promote
  start_candidate cand before = try_except restart_app (λ _. pure false) >>= λ healthy.
      raise_if (not healthy)
        (says "The new version did not start, so the previous version was put back")
      >> promote cand before

  abbrev pub restarted_if : Bool → Action Bool
  restarted_if true = restart_app
  restarted_if false = pure true

  -- The handler of `_run`.
  unfoldable pub put_back : Candidate → Chosen → Bool → UpdateError → Action (Unit {0})
  put_back c before started error =
      try_except (set_active h before >> restarted_if started) (λ _. pure false) >>= λ rolled_back.
      write h λ s. record s { result = some (failed error rolled_back c.release) }

  abbrev pub release_lease : Action (Unit {0})
  release_lease = change λ s. record s { held = false; running = false }

  unfoldable pub clean_up : Action (Unit {0})
  clean_up =
      try_finally
        (remove h (λ s. record s { job = none }) >> remove h λ s. record s { verified = none })
        release_lease

  -- `_run`; `current` raises nothing, so the old version is known in every handler.
  unfoldable pub run_job : Candidate → AppJob → Action (Unit {0})
  unfolding prepare start_candidate put_back clean_up
  run_job c job s =
      let before : Chosen = current_of h s in
      try_finally
        (try_then (prepare c job)
          (λ image_id.
            try_except (start_candidate (release_with c image_id) before) (put_back c before true))
          (put_back c before false))
        clean_up s

  unfoldable pub interrupted : Text → Action (Unit {0})
  interrupted release s =
      (set_active h (current_of h s)
          >> write h (λ t. record t {
            result = some (
                failed (says "The update was interrupted, so the previous version was kept") true
                  release);
          })
          >> remove h λ t. record t { job = none })
        s

  unfoldable pub recover : Action (Unit {0})
  unfolding interrupted
  recover s = elim s.job [ none ↦ (done tt, s) | some job ↦ interrupted job.release s ]
