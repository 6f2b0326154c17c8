-- ===== src/AppUpdate/Apply.antt =====
-- apply and check, which the Settings page calls.
use epilykos_os.Base.{
  ℕ, Bool, true, false, not, ◌&&◌, ◌||◌, ◌==◌, leb, ltb, if◌then◌else◌, Option, none, some, Text,
  same_codes, ok, err,
}
use epilykos_os.AppCompat.{running_container}
use epilykos_os.AppUpdate.Manifest.{says, other_error, Candidate, verify}
use epilykos_os.AppUpdate.State.{
  release_of, AppJob, downloading, Store, Outside, done, Action, ◌>>=◌, ◌>>◌, pure, raise,
  try_except, try_finally, change, raise_if, spend, write, remove, current_of, floor,
}
use epilykos_os.AppUpdate.Install.{compatible, is_some, inspect_app, fetch_latest}

-- What `apply` returns.
pub data Applied : Type 0 where
  applying already_attempted up_to_date : Applied

module _ (h : Outside) where
  -- The candidate of `apply`: the release that was verified, else the newest.
  unfoldable pub candidate : Action Candidate
  candidate s = elim s.verified [
    | none ↦ (fetch_latest h >>= λ r. pure r.0) s
    | some v ↦ elim (verify h.verifier v.manifest v.signature) [
      | ok c ↦ (done c, s)
      | err e ↦ (fetch_latest h >>= λ r. pure r.0) s
    ]
  ]

  abbrev pub job_of : Candidate → AppJob
  job_of c = record {
    state = downloading;
    release = c.release;
    sequence = c.sequence;
    digest = c.digest;
  }

  abbrev pub note_attempt : Bool → Candidate → Action (Unit {0})
  note_attempt automatic c =
      if automatic then write h (λ s. record s { attempt = some c.sequence }) else pure tt

  abbrev pub started : Bool → Action (Unit {0})
  started true = pure tt
  started false = raise other_error

  -- What `apply` does with the lease; it gives everything back if anything raises.
  unfoldable pub begin : Bool → Candidate → Action (Unit {0})
  begin automatic c =
      try_except
        (inspect_app h >>= λ info.
          compatible (running_container info)
          >> note_attempt automatic c
          >> write h (λ s. record s { job = some (job_of c) })
          >> change (λ s. record s { running = true })
          >> spend λ s. started (h.start_thread s.power) s)
        (λ e.
          change (λ s. record s { running = false })
          >> try_finally (remove h λ s. record s { job = none })
              (change λ s. record s { held = false })
          >> raise e)

  abbrev pub leased : Bool → Action (Unit {0})
  leased false = raise (says "Another maintenance operation is running")
  leased true = change λ s. record s { held = true }

  abbrev pub or_none : Option ℕ → ℕ
  or_none none = 0
  or_none (some n) = n

  -- Nothing newer, or the same image.
  abbrev pub is_current : Candidate → Store → Bool
  is_current c s =
      leb c.sequence (floor h s) || same_codes c.digest (release_of (current_of h s)).digest

  unfoldable pub apply_candidate : Bool → Candidate → Action Applied
  unfolding begin
  apply_candidate automatic c s =
      if automatic && leb c.sequence (or_none s.attempt)
      then (done already_attempted, s)
      else if is_current c s
      then (done up_to_date, s)
      else ((spend λ t. leased (h.acquire t.power) t) >> begin automatic c >> pure applying) s

  -- An automatic update names the release that it was decided for.
  abbrev pub is_changed : Option (ℕ × Text) → Candidate → Bool
  is_changed none c = false
  is_changed (some (sequence, digest)) c =
      not (c.sequence == sequence) || not (same_codes c.digest digest)

  -- `apply` of the app.
  unfoldable pub apply : Option (ℕ × Text) → Action Applied
  unfolding candidate apply_candidate
  apply automatic s =
      (raise_if (s.running || is_some s.job) (says "An update is already running")
          >> candidate
          >>= λ c.
              raise_if (is_changed automatic c)
                (says "The verified release changed; check for updates again")
              >> apply_candidate (is_some automatic) c)
        s

  -- `check`, of a release that could be fetched: whether it is newer.
  unfoldable pub check : Action Bool
  unfolding fetch_latest
  check = fetch_latest h >>= λ r s.
      if ltb (floor h s) r.0.sequence
        && not (same_codes r.0.digest (release_of (current_of h s)).digest)
      then (write h (λ t. record t { verified = some r.1 }) >> pure true) s
      else (done false, s)
