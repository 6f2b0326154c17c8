-- ===== src/BootHealth/Branches.antt =====
-- What each branch of a tick leaves of the supervisor.
use epilykos_os.Base.{
  ℕ, ◌≡◌, refl, sym, ◌⊎◌, inl, inr, Bool, true, false, if◌then◌else◌, Option, none, some, ◌∷◌,
  arith, parse_env,
}
use epilykos_os.BootHealth.{
  World, Command, Finished, is_ok, output, State, checking, confirming, done, rebooting, Supervisor,
  Step, returned, raised, result, is_healthy, end_boot, poll_finish, confirm_with, read_finished,
  read_first, confirm, check_health, check_podman, check, request, stop_first, continue_reboot,
}

-- What holds of the supervisor that a step leaves.
abbrev pub After : (State → Supervisor → Type 0) → Step → Type 0
After P (returned state t) = P state t
After P (raised t) = P t.state t

module _ (P : State → Supervisor → Type 0) where
  pub After-option :
      {A : Type 0} (o : Option A) (x : Step) (f : A → Step)
      → (o ≡ none → After P x)
      → ((a : A) → o ≡ some a → After P (f a))
      → After P (elim o [ none ↦ x | some a ↦ f a ])
  After-option none x f h k = h refl
  After-option (some a) x f h k = k a refl

  pub After-if :
      (b : Bool) (x y : Step)
      → (b ≡ true → After P x)
      → (b ≡ false → After P y)
      → After P (if b then x else y)
  After-if true x y h k = h refl
  After-if false x y h k = k refl

-- What the confirmation leaves: the slot is recorded only as the boot ends.
abbrev pub Confirms : Supervisor → State → Supervisor → Type 0
Confirms s state t =
    (state ≡ t.state)
    × (t.slot ≡ s.slot)
    × (t.beats ≡ s.beats)
    × (((t.state ≡ confirming) × (t.recorded ≡ s.recorded))
        ⊎ ((t.state ≡ done) × ((t.recorded ≡ s.recorded) ⊎ (t.recorded ≡ s.slot ∷ s.recorded))))

module _ (w : World) (now : ℕ) where
  poll_finish-Confirms :
      (s : Supervisor) (c : Command)
      → s.state ≡ confirming
      → After (Confirms s) (poll_finish w now s c)
  unfolding poll_finish end_boot
  poll_finish-Confirms s c at = ground arith

  confirm_with-Confirms :
      (s : Supervisor) (env : _) (c : Option Command)
      → s.state ≡ confirming
      → After (Confirms s) (confirm_with w now s env c)
  unfolding confirm_with
  confirm_with-Confirms s env none at = ground (arith, poll_finish-Confirms s)
  confirm_with-Confirms s env (some c) at = poll_finish-Confirms s c at

  read_finished-Confirms :
      (s : Supervisor) (r : Finished)
      → s.state ≡ confirming
      → After (Confirms s) (read_finished w now s r)
  unfolding read_finished
  read_finished-Confirms s r at = ground (
    arith,
    confirm_with-Confirms (record s { env = some (parse_env (output r)) }) (parse_env (output r))
        s.finish at,
  )

  read_first-Confirms :
      (s : Supervisor) (c : Command)
      → s.state ≡ confirming
      → After (Confirms s) (read_first w now s c)
  unfolding read_first
  read_first-Confirms s c at =
      After-option (Confirms s) (result w now c) _ _ (λ _. (sym at, refl, refl, inl (at, refl)))
        λ r _. read_finished-Confirms (record s { env_read = some c }) r at

  pub confirm-Confirms :
      (s : Supervisor) → s.state ≡ confirming → After (Confirms s) (confirm w now s)
  unfolding confirm
  confirm-Confirms s at =
      After-option (Confirms s) s.env _ _ (λ _. read_first-Confirms s _ at)
        λ env _. confirm_with-Confirms s env s.finish at

-- What a tick does to a boot that is being checked.
abbrev pub Checks : Supervisor → State → Supervisor → Type 0
Checks s state t =
    (state ≡ t.state)
    × (t.slot ≡ s.slot)
    × (t.beats ≡ s.beats)
    × (((t.state ≡ checking) × (t.recorded ≡ s.recorded))
        ⊎ (((t.state ≡ confirming) × (t.recorded ≡ s.recorded))
            ⊎ ((t.state ≡ done)
                × ((t.recorded ≡ s.recorded) ⊎ (t.recorded ≡ s.slot ∷ s.recorded)))))

module _ (w : World) (now : ℕ) where
  widen : (s : Supervisor) (x : Step) → After (Confirms s) x → After (Checks s) x
  widen s (returned state t) p = (p.0, p.1, p.2, inr p.3)
  widen s (raised t) p = (p.0, p.1, p.2, inr p.3)

  check_health-Checks :
      (s : Supervisor) (c : Command)
      → s.state ≡ checking
      → After (Checks s) (check_health w now s c)
  unfolding check_health
  check_health-Checks s c at =
      After-option (Checks s) (result w now c) _ _ (λ _. (sym at, refl, refl, inl (at, refl)))
        λ r _.
          After-if (Checks s) (is_healthy w r) _ _
            (λ _.
              widen s _
                (confirm-Confirms w now (record s { health = none; state = confirming }) refl))
            λ _. (sym at, refl, refl, inl (at, refl))

  check_podman-Checks :
      (s : Supervisor) (c : Command)
      → s.state ≡ checking
      → After (Checks s) (check_podman w now s c)
  unfolding check_podman
  check_podman-Checks s c at =
      After-option (Checks s) (result w now c) _ _ (λ _. (sym at, refl, refl, inl (at, refl)))
        λ r _.
          After-if (Checks s) (is_ok r) _ _
            (λ _. check_health-Checks (record s { podman = some c }) _ at)
            λ _. (sym at, refl, refl, inl (at, refl))

  pub check-Checks : (s : Supervisor) → s.state ≡ checking → After (Checks s) (check w now s)
  unfolding check
  check-Checks s at =
      After-if (Checks s) (w.is_mounted now) _ _ (λ _. check_podman-Checks s _ at)
        λ _. (sym at, refl, refl, inl (at, refl))

-- The reboot is under way; it may raise, but never ends.
abbrev pub Reboots : Supervisor → State → Supervisor → Type 0
Reboots s state t =
    (state ≡ t.state)
    × (t.slot ≡ s.slot)
    × (t.beats ≡ s.beats)
    × (t.recorded ≡ s.recorded)
    × (t.state ≡ rebooting)

module _ (w : World) (now : ℕ) where
  pub continue_reboot-Reboots :
      (s : Supervisor) → s.state ≡ rebooting → After (Reboots s) (continue_reboot w now s)
  unfolding continue_reboot stop_first request
  continue_reboot-Reboots s at = ground arith
