-- ===== src/BootHealth/Trials.antt =====
-- Which command ends a boot: a trial is confirmed by the coordinator alone.
use epilykos_os.Base.{
  ℕ, ◌≡◌, ◌≢◌, refl, sym, subst, ◌⊎◌, ◌↔◌, inl, inr, Bool, true, false, leb, Option, none, some,
  List, [], ◌∷◌, arith, Text, parse_env, get, codes, ap, same_codes, same_codes?, same_codes_iff,
  both, not, is_empty, ◌&&◌, if◌then◌else◌,
}
use epilykos_os.BootHealth.{
  World, Command, Task, Finished, is_ok, output, State, checking, confirming, done, rebooting,
  Supervisor, Step, returned, raised, or_new, is_trial, same_texts, command, pending_of, mark_good,
  coordinate, result, is_healthy, poll_check, data_mount_failed, start_finish, end_boot,
  poll_finish, confirm_with, read_finished, read_first, confirm, check_health, check_podman, check,
  request, stop_first, continue_reboot, step_checking, step_state, step, run, supervise,
}
use epilykos_os.BootHealth.Branches.{After, After-if, After-option}

-- The environment says that a boot of this slot is the trial of this job: the job is pending, the
-- slot is its target, and the trial that has started is the job's.
abbrev pub IsTrialOf : Text → Option Text → List (Text × Text) → Type 0
IsTrialOf id slot env =
    (id ≢ [])
    × (get (codes "epk_os_pending") env ≡ some id)
    × (slot ≡ get (codes "epk_os_target") env)
    × (get (codes "epk_os_trial_started") env ≡ some id)

-- The task that may end a boot of this slot with this environment.
abbrev pub Finishes : Option Text → List (Text × Text) → Task → Type 0
Finishes slot env task =
    ((id : Text) × (IsTrialOf id slot env × (task ≡ coordinate id)))
    ⊎ (((id : Text) → ¬ IsTrialOf id slot env) × (task ≡ mark_good))

same_texts_iff : (s t : Option Text) → (same_texts s t ≡ true) ↔ (s ≡ t)
same_texts_iff none none = (λ _. refl, λ _. refl)
same_texts_iff none (some t) = (λ h. cc, λ h. cc)
same_texts_iff (some s) none = (λ h. cc, λ h. cc)
same_texts_iff (some s) (some t) =
    (λ h. ap some ((same_codes_iff s t).0 h), λ h. (same_codes_iff s t).1 (ground (arith, h)))

-- The test on the three values that are read from the environment.
abbrev is_trial_of : Option Text → Option Text → Option Text → Option Text → Bool
is_trial_of slot pending target trial =
    let id : Text = elim pending [ none ↦ [] | some v ↦ v ] in
    not (is_empty id) && (same_texts slot target && same_codes? trial id)

abbrev or_empty : Option Text → Text
or_empty none = []
or_empty (some v) = v

shown_trial :
    (slot p t s : Option Text)
    → is_trial_of slot p t s ≡ true
    → (id : Text) × (or_empty p ≡ id) × (id ≢ []) × (p ≡ some id) × (slot ≡ t) × (s ≡ some id)
shown_trial slot none t s h = cc
shown_trial slot (some []) t s h = cc
shown_trial slot (some (c ∷ v)) t none h =
    absurd (ground (arith, (both (same_texts slot t) false h).1))
shown_trial slot (some (c ∷ v)) t (some x) h =
    let is = both (same_texts slot t) (same_codes x (c ∷ v)) h in
    (
      c ∷ v,
      refl,
      λ e. cc,
      refl,
      (same_texts_iff slot t).0 is.0,
      ap some ((same_codes_iff x (c ∷ v)).0 is.1),
    )

trial_test :
    (slot p t s : Option Text) (id : Text)
    → (id ≢ []) × (p ≡ some id) × (slot ≡ t) × (s ≡ some id)
    → is_trial_of slot p t s ≡ true
trial_test slot p t s [] is = absurd (is.0 refl)
trial_test slot p t s (c ∷ v) is =
    rw (is.1) rw (is.2) rw (is.3) rw ((same_texts_iff t t).1 refl)
      ((same_codes_iff (c ∷ v) (c ∷ v)).1 refl)

abbrev pub Fits : Option Text → Option (List (Text × Text)) → Option Command → Type 0
Fits slot env none = Unit
Fits slot none (some c) = ⊥
Fits slot (some env) (some c) = Finishes slot env c.task

-- The command that ends the boot, where there is one, fits the environment that was read.
abbrev pub IsHonest : Supervisor → Type 0
IsHonest s = Fits s.slot s.env s.finish

module _ (w : World) (now : ℕ) where
  abbrev Honest : Step → Type 0
  Honest x = After (λ _ t. IsHonest t) x

  poll_finish-Honest :
      (s : Supervisor) (env : _) (c : Command)
      → s.env ≡ some env
      → Finishes s.slot env c.task
      → Honest (poll_finish w now s c)
  unfolding poll_finish end_boot
  poll_finish-Honest s env c is p =
      After-option (λ _ t. IsHonest t) (result w now c) _ _
        (λ _. subst (λ o. Fits s.slot o (some c)) (sym is) p)
        λ r _. subst (λ o. Fits s.slot o (some c)) (sym is) p

  start_finish-Finishes :
      (s : Supervisor) (env : _) (c : Command)
      → start_finish w now s env ≡ some c
      → Finishes s.slot env c.task
  unfolding start_finish
  start_finish-Finishes s env c h = by_trial (is_trial s.slot env) refl (w.has_coordinator now) h
    where
      by_trial :
          (trial : Bool)
          → is_trial s.slot env ≡ trial
          → (coordinated : Bool)
          → (if trial
              then (if coordinated
                  then some (command w now (coordinate (pending_of env)))
                  else none)
              else some (command w now mark_good))
            ≡ some c
          → Finishes s.slot env c.task
      by_trial true is true h =
          let (id, at, some_id, pends, targets, started) =
            shown_trial s.slot (get (codes "epk_os_pending") env) (get (codes "epk_os_target") env)
              (get (codes "epk_os_trial_started") env) is in
          inl (id, ((some_id, pends, targets, started), ground (arith, h, at)))
      by_trial true is false h = cc
      by_trial false is coordinated h = inr (
        λ id q. absurd (
            ground (
              arith,
              is,
              trial_test s.slot (get (codes "epk_os_pending") env) (get (codes "epk_os_target") env)
                  (get (codes "epk_os_trial_started") env) id q,
            )),
        ground (arith, h),
      )

  confirm_with-Honest :
      (s : Supervisor) (env : _) (c : Option Command)
      → s.finish ≡ c
      → s.env ≡ some env
      → IsHonest s
      → Honest (confirm_with w now s env c)
  unfolding confirm_with
  confirm_with-Honest s env none nil is p =
      After-option (λ _ t. IsHonest t) (start_finish w now s env) _ _ (λ _. p)
        λ c e. poll_finish-Honest s env c is (start_finish-Finishes s env c e)
  confirm_with-Honest s env (some c) has is p =
      poll_finish-Honest s env c is
        (subst (λ o. Fits s.slot o (some c)) is (subst (λ o. Fits s.slot s.env o) has p))

  -- No command is started before the environment is read.
  unread_IsFresh :
      (slot : Option Text) (env : Option (List (Text × Text))) (c : Option Command)
      → env ≡ none
      → Fits slot env c
      → c ≡ none
  unread_IsFresh slot env none nil p = refl
  unread_IsFresh slot none (some c) nil p = absurd p
  unread_IsFresh slot (some env) (some c) nil p = ground (arith, nil)

  read_finished-Honest :
      (s : Supervisor) (r : Finished) → s.env ≡ none → IsHonest s → Honest (read_finished w now s r)
  unfolding read_finished
  read_finished-Honest s r nil p =
      After-if (λ _ t. IsHonest t) (is_ok r) _ _
        (λ _.
          confirm_with-Honest (record s { env = some (parse_env (output r)) }) _ _ refl refl
            (subst (λ o. Fits s.slot (some (parse_env (output r))) o)
              (sym (unread_IsFresh s.slot s.env s.finish nil p)) _))
        λ _. p

  confirm-Honest : (s : Supervisor) → IsHonest s → Honest (confirm w now s)
  unfolding confirm read_first
  confirm-Honest s p =
      After-option (λ _ t. IsHonest t) s.env _ _
        (λ nil.
          After-option (λ _ t. IsHonest t) (result w now (or_new s.env_read _)) _ _ (λ _. p)
            λ r _.
              read_finished-Honest (record s { env_read = some (or_new s.env_read _) }) r nil p)
        λ env is. confirm_with-Honest s env s.finish refl is p

  check_health-Honest :
      (s : Supervisor) (c : Command) → IsHonest s → Honest (check_health w now s c)
  unfolding check_health
  check_health-Honest s c p =
      After-option (λ _ t. IsHonest t) (result w now c) _ _ (λ _. p)
        λ r _.
          After-if (λ _ t. IsHonest t) (is_healthy w r) _ _
            (λ _. confirm-Honest (record s { health = none; state = confirming }) p) λ _. p

  check_podman-Honest :
      (s : Supervisor) (c : Command) → IsHonest s → Honest (check_podman w now s c)
  unfolding check_podman
  check_podman-Honest s c p =
      After-option (λ _ t. IsHonest t) (result w now c) _ _ (λ _. p)
        λ r _.
          After-if (λ _ t. IsHonest t) (is_ok r) _ _
            (λ _. check_health-Honest (record s { podman = some c }) _ p) λ _. p

  check-Honest : (s : Supervisor) → IsHonest s → Honest (check w now s)
  unfolding check
  check-Honest s p =
      After-if (λ _ t. IsHonest t) (w.is_mounted now) _ _ (λ _. check_podman-Honest s _ p) λ _. p

  mount-IsHonest : (s : Supervisor) → IsHonest s → IsHonest (data_mount_failed w now s).1
  unfolding data_mount_failed poll_check
  mount-IsHonest s p = ground (arith, p)

  checking-Honest : (x : Bool × Supervisor) → IsHonest x.1 → Honest (step_checking w now x)
  unfolding step_checking
  checking-Honest (true, s) p = p
  checking-Honest (false, s) p =
      After-if (λ _ t. IsHonest t) (leb s.deadline now) _ _ (λ _. p) λ _. check-Honest s p

  continue-Honest : (s : Supervisor) → IsHonest s → Honest (continue_reboot w now s)
  unfolding continue_reboot stop_first request
  continue-Honest s p = ground (arith, p)

  state-Honest : (s : Supervisor) (state : State) → IsHonest s → Honest (step_state w now state s)
  unfolding step_state
  state-Honest s checking p = checking-Honest _ (mount-IsHonest s p)
  state-Honest s confirming p = confirm-Honest s p
  state-Honest s done p = p
  state-Honest s rebooting p = continue-Honest s p

  step-Honest : (s : Supervisor) → IsHonest s → Honest (step w now s)
  unfolding step
  step-Honest s p = state-Honest _ s.state p

abbrev pub left_by : Step → Supervisor
left_by (returned state t) = t
left_by (raised t) = t

module _ (w : World) where
  run_on-Honest :
      (ticks : List ℕ) (x : Step)
      → After (λ _ t. IsHonest t) x
      → ((s : Supervisor) → IsHonest s → After (λ _ t. IsHonest t) (run w ticks s))
      → After
          (λ _ t. IsHonest t)
          (elim x [
            | raised t ↦ raised t
            | returned state t ↦ elim state [ done ↦ returned done t | _ ↦ run w ticks t ]
          ])
  run_on-Honest ticks (raised t) p rest = p
  run_on-Honest ticks (returned checking t) p rest = rest t p
  run_on-Honest ticks (returned confirming t) p rest = rest t p
  run_on-Honest ticks (returned done t) p rest = p
  run_on-Honest ticks (returned rebooting t) p rest = rest t p

  run-Honest :
      (ticks : List ℕ) (s : Supervisor) → IsHonest s → After (λ _ t. IsHonest t) (run w ticks s)
  unfolding run
  run-Honest [] s p = p
  run-Honest (now ∷ ticks) s p =
      run_on-Honest ticks (step w now s) (step-Honest w now s p) (run-Honest ticks)

  -- However a boot runs, over whatever ticks and answers: the command that it starts to end the boot
  -- is the coordinator's, for the pending job, when the environment that was read says that this boot
  -- is the trial of that job, and marks the slot good when it says that it is not.
  pub supervise-Honest :
      (start : ℕ) (cmdline : Text) (ticks : List ℕ) (env : List (Text × Text)) (c : Command)
      → (left_by (run w ticks (supervise start cmdline))).env ≡ some env
      → (left_by (run w ticks (supervise start cmdline))).finish ≡ some c
      → Finishes (left_by (run w ticks (supervise start cmdline))).slot env c.task
  supervise-Honest start cmdline ticks env c e f =
      fits (run w ticks (supervise start cmdline)) (run-Honest ticks (supervise start cmdline) _) e
        f
    where
      of :
          (t : Supervisor)
          → IsHonest t
          → t.env ≡ some env
          → t.finish ≡ some c
          → Finishes t.slot env c.task
      of t p e f = subst (λ o. Fits t.slot o (some c)) e (subst (λ o. Fits t.slot t.env o) f p)

      fits :
          (x : Step)
          → After (λ _ t. IsHonest t) x
          → (left_by x).env ≡ some env
          → (left_by x).finish ≡ some c
          → Finishes (left_by x).slot env c.task
      fits (returned state t) p = of t p
      fits (raised t) p = of t p
