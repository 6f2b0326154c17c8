-- ===== src/BootHealth/Escalation.antt =====
-- A reboot that is not carried out is forced, and then the machine is reset, within a bound.
use epilykos_os.Base.{
  ℕ, ◌+◌, ◌*◌, ◌≤◌, ◌<◌, ◌≡◌, refl, sym, ap, subst, ◌⊎◌, inl, inr, Bool, true, false, ◌==◌,
  if◌then◌else◌, Option, none, some, List, [], ◌∷◌, arith,
}
use epilykos_os.BootHealth.{
  World, Command, State, checking, confirming, done, rebooting, Reason, Supervisor, Step, returned,
  raised, stop_app, result_of, Request, reboot, force_reboot, command, result, start_reboot,
  request, stop_first, continue_reboot, step_state, step, run, force_time, sysrq_time, second,
}

-- What holds of the supervisor where the step returns, as it must.
abbrev pub Returns : (State → Supervisor → Type 0) → Step → Type 0
Returns P (returned state t) = P state t
Returns P (raised t) = ⊥

module _ (P : State → Supervisor → Type 0) where
  Returns-option :
      {A : Type 0} (o : Option A) (x : Step) (f : A → Step)
      → (o ≡ none → Returns P x)
      → ((a : A) → o ≡ some a → Returns P (f a))
      → Returns P (elim o [ none ↦ x | some a ↦ f a ])
  Returns-option none x f h k = h refl
  Returns-option (some a) x f h k = k a refl

  Returns-if :
      (b : Bool) (x y : Step)
      → (b ≡ true → Returns P x)
      → (b ≡ false → Returns P y)
      → Returns P (if b then x else y)
  Returns-if true x y h k = h refl
  Returns-if false x y h k = k refl

-- Ticks that follow each other in time, at most `d` apart, from one time to another.
pub data Ascends (d : ℕ) : ℕ → List ℕ → ℕ → Type 0 where
  end : {a : ℕ} → Ascends d a [] a
  next :
      {a b n : ℕ} {ticks : List ℕ}
      → a ≤ n
      → n ≤ a + d
      → Ascends d n ticks b
      → Ascends d a (n ∷ ticks) b

module _ (d t₀ : ℕ) where
  -- The app is still being stopped, since `t₀`.
  abbrev Stops : ℕ → Supervisor → Type 0
  Stops a s =
      (s.stage ≡ 0)
      × ((c : Command) × (s.stopping ≡ some c) × (c.started ≡ t₀) × (c.task ≡ stop_app))
      × (s.sent ≡ [])
      × (a ≤ t₀ + 60 * second)

  -- The reboot was asked for.
  abbrev Asked : ℕ → Supervisor → Type 0
  Asked a s =
      (s.stage ≡ 1)
      × (s.sent ≡ reboot ∷ [])
      × (s.reboot_at ≤ t₀ + 60 * second + d)
      × (a ≤ s.reboot_at + force_time)

  -- It was forced.
  abbrev Forced : ℕ → Supervisor → Type 0
  Forced a s =
      (s.stage ≡ 2)
      × (s.sent ≡ force_reboot ∷ reboot ∷ [])
      × (s.reboot_at ≤ t₀ + 180 * second + 2 * d)
      × (a ≤ s.reboot_at + sysrq_time)

  abbrev Reset : Supervisor → Type 0
  Reset s = (s.stage ≡ 3) × (s.sent ≡ force_reboot ∷ reboot ∷ []) × (s.reset ≡ true)

  abbrev Escalates : ℕ → State → Supervisor → Type 0
  Escalates a state s =
      (state ≡ rebooting)
      × (s.state ≡ rebooting)
      × (Stops a s ⊎ (Asked a s ⊎ (Forced a s ⊎ Reset s)))

module _ (w : World) (now a d t₀ : ℕ) (answers : (t : ℕ) (r : Request) → w.requests t r ≡ true)
    (resets : (t : ℕ) → w.resets t ≡ true) (forward : (t : ℕ) → t ≤ w.clock t) (after : a ≤ now)
    (soon : now ≤ a + d) where
  ask_Escalates :
      (s : Supervisor)
      → s.state ≡ rebooting
      → s.sent ≡ []
      → a ≤ t₀ + 60 * second
      → Returns (Escalates d t₀ now) (request w now reboot s 1)
  unfolding request
  ask_Escalates s at sent early =
      Returns-if (Escalates d t₀ now) (w.requests now reboot) _ _
        (λ _. (refl, at, inr (inl (refl, ap (λ l. reboot ∷ l) sent, ground arith, ground arith))))
        λ e. ground (arith, answers now reboot)

  -- The time in which the app is stopped is over once the command has an answer.
  waits : (c : Command) → c.task ≡ stop_app → result w now c ≡ none → now ≤ c.started + 60 * second
  unfolding result result_of
  waits c task r = ground (arith, forward now)

  continue-Escalates :
      (s : Supervisor) (state : State)
      → Escalates d t₀ a state s
      → Returns (Escalates d t₀ now) (continue_reboot w now s)
  unfolding continue_reboot stop_first
  continue-Escalates s state (e, at, inl (stage, (c, is, since, task), sent, early)) =
      Returns-if (Escalates d t₀ now) (s.stage == 0) _ _
        (λ _.
          subst (λ o. Returns (Escalates d t₀ now) (stop_first w now s o)) (sym is)
            (Returns-option (Escalates d t₀ now) (result w now c) _ _
              (λ r.
                (refl, at, inl (stage, (c, is, since, task), sent, ground (arith, waits c task r))))
              λ _ _. ask_Escalates s at sent early))
        λ no. absurd (ground arith)
  continue-Escalates s state (e, at, inr (inl (stage, sent, asked, early))) =
      ground (arith, answers now force_reboot)
  continue-Escalates s state (e, at, inr (inr (inl p))) = ground (arith, p, resets now)
  continue-Escalates s state (e, at, inr (inr (inr p))) = ground (arith, p)

module _ (w : World) (d t₀ : ℕ) (answers : (t : ℕ) (r : Request) → w.requests t r ≡ true)
    (resets : (t : ℕ) → w.resets t ≡ true) (forward : (t : ℕ) → t ≤ w.clock t) where
  step-Escalates :
      (now a : ℕ) (s : Supervisor)
      → a ≤ now
      → now ≤ a + d
      → Escalates d t₀ a s.state s
      → Returns (Escalates d t₀ now) (step w now s)
  unfolding step step_state
  step-Escalates now a s after soon p =
      subst
        (λ x. Returns (Escalates d t₀ now) (step_state w now x (record s { beats = s.beats + 1 })))
        (sym p.1)
        (continue-Escalates w now a d t₀ answers resets forward after soon
          (record s { beats = s.beats + 1 }) s.state p)

  run_on-Escalates :
      (b : ℕ) (ticks : List ℕ) (x : Step) (now : ℕ)
      → Returns (Escalates d t₀ now) x
      → ((s : Supervisor)
          → Escalates d t₀ now s.state s
          → Returns (Escalates d t₀ b) (run w ticks s))
      → Returns (Escalates d t₀ b) (elim x [
        | raised t ↦ raised t
        | returned state t ↦ elim state [ done ↦ returned done t | _ ↦ run w ticks t ]
      ])
  run_on-Escalates b ticks (raised t) now p rest = absurd p
  run_on-Escalates b ticks (returned checking t) now p rest = absurd (ground (arith, p.0))
  run_on-Escalates b ticks (returned confirming t) now p rest = absurd (ground (arith, p.0))
  run_on-Escalates b ticks (returned done t) now p rest = absurd (ground (arith, p.0))
  run_on-Escalates b ticks (returned rebooting t) now p rest = rest t (p.1, p.1, p.2)

  run-Escalates :
      {a b : ℕ} {ticks : List ℕ}
      → Ascends d a ticks b
      → (s : Supervisor) → Escalates d t₀ a s.state s
      → Returns (Escalates d t₀ b) (run w ticks s)
  unfolding run
  run-Escalates end s p = p
  run-Escalates (next after soon more) s p =
      run_on-Escalates _ _ _ _ (step-Escalates _ _ s after soon p) (run-Escalates more)

  -- After a boot is given up with nothing asked for yet, with ticks at most `d` apart, a clock that
  -- does not run backwards within a tick, requests that can be started and a reset that can be written: once the ticks have gone on
  -- for 240 seconds and twice `d` after the stop of the app was started, a reboot and then a forced
  -- reboot have been asked for, once each and in that order, and the machine's reset has been written.
  pub start_reboot-run :
      {b : ℕ} {ticks : List ℕ} (now : ℕ) (reason : Reason) (s : Supervisor)
      → s.sent ≡ []
      → t₀ ≡ w.clock now
      → Ascends d now ticks b
      → w.clock now + 240 * second + 2 * d < b
      → Returns
          (λ _ t. (t.sent ≡ force_reboot ∷ reboot ∷ []) × (t.reset ≡ true))
          (elim (start_reboot w now reason s) [
            | returned state t ↦ run w ticks t
            | raised t ↦ raised t
          ])
  start_reboot-run {b = b} now reason s sent at ticks late = grown _ (
      run-Escalates ticks _
        (refl, refl, inl (refl, (command w now stop_app, refl, sym at, refl), sent, begun)))
    where
      begun : now ≤ t₀ + 60 * second
      begun = ground (arith, forward now)

      grown :
          (x : Step)
          → Returns (Escalates d t₀ b) x
          → Returns (λ _ t. (t.sent ≡ force_reboot ∷ reboot ∷ []) × (t.reset ≡ true)) x
      grown (returned state t) p = ground arith
      grown (raised t) p = p
