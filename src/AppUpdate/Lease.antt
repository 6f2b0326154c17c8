-- ===== src/AppUpdate/Lease.antt =====
-- How an installation gives the lease back.
use epilykos_os.Base.{◌≡◌, refl, false, arith}
use epilykos_os.AppUpdate.{
  Candidate, AppJob, Store, Outside, Ending, done, raised, cut, Action, try_finally, ending_with,
  release_lease, clean_up, run_job,
}

-- Unless the power failed, the lease is given back and no installation runs.
abbrev pub IsReleased : Ending (Unit {0}) × Store → Type 0
IsReleased (cut, s) = Unit {0}
IsReleased (done a, s) = (s.held ≡ false) × (s.running ≡ false)
IsReleased (raised e, s) = (s.held ≡ false) × (s.running ≡ false)

last_IsReleased :
    (o : Ending (Unit {0})) (r : Ending (Unit {0}) × Store)
    → IsReleased r
    → ¬ (o ≡ cut)
    → IsReleased (ending_with o r)
last_IsReleased (done a) (done _, s) p n = p
last_IsReleased (done a) (raised e, s) p n = p
last_IsReleased (done a) (cut, s) p n = tt
last_IsReleased (raised e) (done _, s) p n = p
last_IsReleased (raised e) (raised f, s) p n = p
last_IsReleased (raised e) (cut, s) p n = tt
last_IsReleased cut r p n = absurd (n refl)

finally_IsReleased :
    (k : Action (Unit {0}))
    → ((s : Store) → IsReleased (k s))
    → (o : Ending (Unit {0})) (t : Store) → IsReleased (try_finally (λ _. (o, t)) k t)
finally_IsReleased k p (done a) t = last_IsReleased (done a) (k t) (p t) λ e. ground (arith, e)
finally_IsReleased k p (raised e) t = last_IsReleased (raised e) (k t) (p t) λ e. ground (arith, e)
finally_IsReleased k p cut t = tt

module _ (h : Outside) where
  clean_up-IsReleased : (s : Store) → IsReleased (clean_up h s)
  unfolding clean_up
  clean_up-IsReleased s = finally_IsReleased (release_lease h) (λ t. (refl, refl)) _ _

  -- An installation gives the maintenance lease back and clears the running mark however it ends,
  -- whatever raised, unless the power fails.
  pub run_job-IsReleased :
      (c : Candidate) (job : AppJob) (s : Store) → IsReleased (run_job h c job s)
  unfolding run_job
  run_job-IsReleased c job s = finally_IsReleased (clean_up h) clean_up-IsReleased _ _
