-- ===== src/BootHealth/Diagram.antt =====
-- The states of a boot and how a tick moves between them.
use epilykos_os.Base.{
  ℕ, ◌+◌, ◌≡◌, refl, sym, ◌⊎◌, inl, inr, Bool, true, false, leb, Option, none, some, ◌∷◌, arith,
  ◌∙◌, subst,
}
use epilykos_os.BootHealth.{
  World, Command, State, checking, confirming, done, rebooting, Reason, data_failed, not_healthy,
  Supervisor, Step, returned, raised, start_check, start_reboot, poll_check, data_mount_failed,
  check, step_checking, step_state, step,
}
use epilykos_os.BootHealth.Branches.{
  After, After-if, Confirms, Checks, Reboots, confirm-Confirms, check-Checks,
  continue_reboot-Reboots,
}

-- The arrows of the diagram.
pub data Leads : State → State → Type 0 where
  stay : {a : State} → Leads a a
  healthy : Leads checking confirming
  confirmed : Leads confirming done
  skipped : Leads checking done
  late : Leads checking rebooting

-- What one tick does: it beats once, it follows an arrow, and it records the slot at most as it ends.
abbrev pub Ticks : Supervisor → State → Supervisor → Type 0
Ticks s state t =
    (state ≡ t.state)
    × (t.slot ≡ s.slot)
    × (t.beats ≡ s.beats + 1)
    × Leads s.state t.state
    × ((t.recorded ≡ s.recorded) ⊎ ((t.state ≡ done) × (t.recorded ≡ s.slot ∷ s.recorded)))

along : {a b c : State} → Leads b c → a ≡ b → (d : State) → d ≡ c → Leads a d
along l e d f = subst (λ a. Leads a d) (sym e) (subst (Leads _) (sym f) l)

module _ (w : World) (now : ℕ) (s : Supervisor) where
  abbrev beaten : Supervisor
  beaten = record s { beats = s.beats + 1 }

  of_check :
      (t : Supervisor) (state : State)
      → s.state ≡ checking
      → Checks beaten state t
      → Ticks s state t
  of_check t state at (e, slot, beats, inl (c, r)) = (e, slot, beats, along stay at _ c, inl r)
  of_check t state at (e, slot, beats, inr (inl (c, r))) =
      (e, slot, beats, along healthy at _ c, inl r)
  of_check t state at (e, slot, beats, inr (inr (d, inl r))) =
      (e, slot, beats, along skipped at _ d, inl r)
  of_check t state at (e, slot, beats, inr (inr (d, inr r))) =
      (e, slot, beats, along skipped at _ d, inr (d, r))

  of_confirm :
      (t : Supervisor) (state : State)
      → s.state ≡ confirming
      → Confirms beaten state t
      → Ticks s state t
  of_confirm t state at (e, slot, beats, inl (c, r)) = (e, slot, beats, along stay at _ c, inl r)
  of_confirm t state at (e, slot, beats, inr (d, inl r)) =
      (e, slot, beats, along confirmed at _ d, inl r)
  of_confirm t state at (e, slot, beats, inr (d, inr r)) =
      (e, slot, beats, along confirmed at _ d, inr (d, r))

-- What the mount check leaves alone.
abbrev pub Same : Supervisor → Supervisor → Type 0
Same s t =
    (t.state ≡ s.state)
    × (t.slot ≡ s.slot)
    × (t.beats ≡ s.beats)
    × (t.recorded ≡ s.recorded)
    × (t.deadline ≡ s.deadline)

module _ (w : World) (now : ℕ) where
  poll_check-Same : (s : Supervisor) (c : Option Command) → Same s (poll_check w now s c)
  unfolding poll_check
  poll_check-Same s none = (refl, refl, refl, refl, refl)
  poll_check-Same s (some c) = ground arith

  pub mount-Same : (s : Supervisor) → Same s (data_mount_failed w now s).1
  unfolding data_mount_failed
  mount-Same s = ground (arith, poll_check-Same s (start_check w now s))

  Checks-Same :
      (s t u : Supervisor) (state : State) → Same s t → Checks t state u → Checks s state u
  Checks-Same s t u state same p = ground arith

  late-Ticks :
      (s t : Supervisor) (reason : Reason)
      → s.state ≡ checking
      → Same (record s { beats = s.beats + 1 }) t
      → After (Ticks s) (start_reboot w now reason t)
  late-Ticks s t reason at same = (refl, same.1, same.2, along late at rebooting refl, inl same.3)

  checking-Ticks :
      (s t : Supervisor) (failed : Bool)
      → s.state ≡ checking
      → Same (record s { beats = s.beats + 1 }) t
      → After (Ticks s) (step_checking w now (failed, t))
  unfolding step_checking
  checking-Ticks s t true at same = late-Ticks s t data_failed at same
  checking-Ticks s t false at same =
      After-if (Ticks s) (leb t.deadline now) _ _ (λ _. late-Ticks s t not_healthy at same)
        λ _. widened (check w now t) (check-Checks w now t (same.0 ∙ at))
    where
      widened : (x : Step) → After (Checks t) x → After (Ticks s) x
      widened (returned state u) p =
          of_check w now s u state at
            (Checks-Same (record s { beats = s.beats + 1 }) t u state same p)
      widened (raised u) p =
          of_check w now s u u.state at
            (Checks-Same (record s { beats = s.beats + 1 }) t u u.state same p)

  state-Ticks :
      (s : Supervisor) (state : State)
      → s.state ≡ state
      → After (Ticks s) (step_state w now state (record s { beats = s.beats + 1 }))
  unfolding step_state
  state-Ticks s checking at =
      checking-Ticks s _ _ at (mount-Same (record s { beats = s.beats + 1 }))
  state-Ticks s done at = (sym at, refl, refl, stay, inl refl)
  state-Ticks s confirming at =
      widened _ (confirm-Confirms w now (record s { beats = s.beats + 1 }) at)
    where
      widened :
          (x : Step) → After (Confirms (record s { beats = s.beats + 1 })) x → After (Ticks s) x
      widened (returned state u) p = of_confirm w now s u state at p
      widened (raised u) p = of_confirm w now s u u.state at p
  state-Ticks s rebooting at =
      widened _ (continue_reboot-Reboots w now (record s { beats = s.beats + 1 }) at)
    where
      widened :
          (x : Step) → After (Reboots (record s { beats = s.beats + 1 })) x → After (Ticks s) x
      widened (returned state u) p = (p.0, p.1, p.2, along stay at _ p.4, inl p.3)
      widened (raised u) p = (p.0, p.1, p.2, along stay at _ p.4, inl p.3)

  -- Every tick, whether it returns or raises, beats the watchdog exactly once, keeps the slot, and
  -- either leaves the state or follows an arrow: from checking to confirming, done or rebooting, and
  -- from confirming to done. It returns the state that it leaves. It adds nothing to what is recorded
  -- but the slot itself, and that only as the boot is done.
  pub step-Ticks : (s : Supervisor) → After (Ticks s) (step w now s)
  unfolding step
  step-Ticks s = state-Ticks s s.state refl
