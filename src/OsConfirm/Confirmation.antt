-- ===== src/OsConfirm/Confirmation.antt =====
-- `confirm_candidate` and power cuts: the floor and the phase `promoting` are one batch, the journal
-- is confirmed before the pending state is cleared, so that every cut leaves a trial that can be
-- confirmed again, or a confirmed job.
use epilykos_os.Base.{
  ℕ, ◌≡◌, refl, ◌∙◌, ap, inl, inr, true, false, not, Option, none, some, ◌≤◌, subst,
}
use epilykos_os.OsBox.{
  Slot, Env, promoting, confirmed, Job, Journal, idle, Guard, Box, assign_all, cleared, Host,
  IsFaithful, same_number, is_phase, Action, Predicate, On, Implies, on_guard, Triple, Triple-pure,
  Triple-bind, Triple-weaken, Triple-given, Triple-required, Triple-raise_if, finish-Triple,
  set_env-Triple, read_env-Triple, journal-Triple, booted_slot-Triple, enter, clear_pending, left,
  is_slot, finish,
}
use epilykos_os.OsConfirm.Promotion.{promote_app-Triple, rebuild-Triple}
use epilykos_os.OsConfirm.{is_trial_of, or_zero, confirm_candidate, conclude, confirm_trial}
use epilykos_os.OsConfirm.Trial.{
  InTrial, Confirms, IsConfirmed, Resumable, is_raised_le, kept_three, same_some, second_of,
  is_slot-eq, stored_none, left-cleared,
}
use epilykos_os.OsConfirm.Promoting.{to_confirming-Triple, to_promoting-Triple}

module _ {h : Host} (f : IsFaithful h) (id seq : ℕ) (slot : Slot) (n : ℕ) where
  abbrev S : Predicate
  S = InTrial id seq slot n

  abbrev SeenAs : Env → Predicate
  SeenAs v e j g = S e j g × (v ≡ e)

  -- The trial after the check of the attempts.
  abbrev Checked : Predicate
  Checked e j g = S e j g × (seq ≤ or_zero e.floor) × (left slot e ≡ some 3)

  Checked-Resumable : Implies Checked (Resumable id seq slot n)
  Checked-Resumable e j g p = inl p.0

  abbrev Ended : Predicate
  Ended e j g = IsConfirmed id seq slot n e j g × (g ≡ on_guard idle none)

  check-Checked :
      (w e : Env) (j : Journal) (g : Option Guard)
      → SeenAs w e j g
      → is_phase e.phase promoting ≡ true
      → not (same_number (left slot w) (some 3)) ≡ false
      → Checked e j g
  check-Checked w e j g (p, same) phase kept = (
    p,
    is_raised_le seq e phase p.5,
    subst (λ v. left slot v ≡ some 3) same (kept_three (left slot w) kept),
  )

  cleared-Ended :
      (e : Env) (j : Journal) (g : Option Guard) → Ended e j g → Ended (assign_all cleared e) j g
  cleared-Ended e j g ((k, at, same, state, raised, floor, three), rest) =
      ((k, at, same, state, raised, floor, left-cleared slot e ∙ three), rest)

  clear-Triple :
      Triple
        (On Ended)
        (clear_pending h)
        (λ v. On λ e j g. Ended e j g × (e.pending ≡ none))
        (On (Resumable id seq slot n))
  unfolding clear_pending
  clear-Triple =
      Triple-weaken
        (set_env-Triple f Ended (Resumable id seq slot n) (λ e j g p. inr p.0) Ended cleared
          (λ e j g p. inr p.0) (λ e j g p. p) cleared-Ended)
        (λ b p. p) (λ v b p. (p.0, stored_none b.env.pending p.2.0)) (λ b p. p)

  -- The same, with the environment that was read before.
  abbrev CheckedAs : Env → Predicate
  CheckedAs w e j g = Checked e j g × (w ≡ e)

  abbrev R : Predicate
  R = Resumable id seq slot n

  CheckedAs-R : (w : Env) → Implies (CheckedAs w) R
  CheckedAs-R w e j g p = inl p.0.0

  -- The job that is finished is the one that the environment names.
  found_id :
      (w e : Env) (j : Journal) (g : Option Guard) (k : ℕ)
      → CheckedAs w e j g
      → w.pending ≡ some k
      → k ≡ id
  found_id w e j g k p at = same_some w.pending k id at (ap (λ v. v.pending) p.1 ∙ p.0.0.0)

  finish_trial-Triple :
      (job : Job)
      → job.id ≡ id
      → Triple (On Checked) (finish h job confirmed none) (λ _. On Ended) (On R)
  finish_trial-Triple job same =
      finish-Triple h Checked (IsConfirmed id seq slot n) Ended R job confirmed none refl
        Checked-Resumable (λ e j g p. inr p) (λ e j g p. inr p.0)
        (λ e j g p. (enter confirmed none job, refl, same, refl, p.1, p.0.6, p.2))
        (λ e j g p. (p, refl))

  conclude-Triple :
      (w : Env)
      → Triple (On (CheckedAs w)) (conclude h w) (λ code. On (Confirms id seq slot n code)) (On R)
  unfolding conclude
  conclude-Triple w = Triple-bind (promote_app-Triple h (CheckedAs w) R (CheckedAs-R w)) λ _.
      Triple-bind
        (Triple-weaken (journal-Triple h (CheckedAs w) R (CheckedAs-R w)) (λ b p. p) (λ _ b p. p.0)
          (λ b p. p))
        λ found.
          Triple-bind {Q = λ job b. On Checked b × (job.id ≡ id)}
            (Triple-weaken
              (rebuild-Triple h (CheckedAs w) R (CheckedAs-R w) (λ job e j g p. p) w found)
              (λ b p. p) (λ job b p. (p.0.0, found_id w b.env b.journal b.guard job.id p.0 p.1))
              (λ b p. p))
            λ job.
              Triple-bind (Triple-given (finish_trial-Triple job))
                λ _. Triple-bind clear-Triple λ _. Triple-pure 0 λ b p. (p.0, p.1, refl)

  confirm_trial-Triple :
      (v : Env)
      → Triple
          (On (SeenAs v))
          (confirm_trial h slot seq v)
          (λ code. On (Confirms id seq slot n code))
          (On R)
  unfolding confirm_trial
  confirm_trial-Triple v =
      Triple-bind (or_resumed (to_confirming-Triple f id seq slot n v)) λ second.
        Triple-bind (or_resumed (to_promoting-Triple f id seq slot n second)) λ w.
          Triple-bind {Q = λ _. On (CheckedAs w)}
            (Triple-weaken
              (Triple-raise_if (not (same_number (left slot w) (some 3))) _ (λ b p. inl p.0.0))
              (λ b p. p)
              (λ _ b p. (check-Checked w b.env b.journal b.guard p.0.0 p.0.1 p.1, p.0.0.1))
              (λ b p. p))
            λ _. conclude-Triple w
    where
      or_resumed :
          {A : Type 0} {P : Box → Type 0} {m : Action A} {Q : A → Box → Type 0}
          → Triple P m Q (On S)
          → Triple P m Q (On R)
      or_resumed t = Triple-weaken t (λ b p. p) (λ a b p. p) (λ b p. inl p)

  -- What the checks at the start give.
  is_trial-slot :
      (s : Slot) (v e : Env)
      → v ≡ e
      → e.target ≡ some slot
      → not (is_trial_of id s v) ≡ false
      → slot ≡ s
  is_trial-slot s v e same at checked =
      is_slot-eq v.target slot s (ap (λ v. v.target) same ∙ at)
        (second_of (same_number v.pending (some id)) (is_slot v.target s) _ _ checked)

  -- A confirmation that starts in the trial of job `id` in this slot, with the environment read and
  -- written faithfully, ends in one of two ways. It returns 0: the journal has the job confirmed,
  -- nothing is pending, the guard is idle, the slot has its three attempts, and the floor is at
  -- least the release's sequence and no lower than it was. Or it raises or is cut at any point: then
  -- the environment is still that of the trial, with the floor raised if the phase is `promoting`, or
  -- the job is confirmed with the floor raised and the attempts kept. The floor is never lowered.
  pub confirm_candidate-Triple :
      Triple
        (On (InTrial id seq slot n))
        (confirm_candidate h id)
        (λ code. On (Confirms id seq slot n code))
        (On (Resumable id seq slot n))
  unfolding confirm_candidate
  confirm_candidate-Triple = Triple-bind (read_env-Triple f S R (λ e j g p. inl p)) λ first.
      Triple-bind {Q = λ s. On (SeenAs first)}
        (Triple-weaken (booted_slot-Triple h (SeenAs first) R (λ e j g p. inl p.0)) (λ b p. p)
          (λ s b p. p.0) (λ b p. p))
        λ s.
          Triple-bind {Q = λ _ b. On (SeenAs first) b × (slot ≡ s)}
            (Triple-weaken (Triple-raise_if (not (is_trial_of id s first)) _ (λ b p. inl p.0))
              (λ b p. p) (λ _ b p. (p.0, is_trial-slot s first b.env p.0.1 p.0.0.2 p.1)) (λ b p. p))
            λ _. Triple-given λ here.
              Triple-bind {Q = λ q b. On (SeenAs first) b × (seq ≡ q)}
                (Triple-required first.target_sequence (λ b p. inl p.0)
                  (λ q at b p. (
                    p,
                    same_some first.target_sequence seq q (ap (λ v. v.target_sequence) p.1 ∙ p.0.3)
                        at,
                  )))
                λ q. Triple-given λ same.
                  subst
                    (λ t.
                      Triple (On (SeenAs first)) (confirm_trial h t q first)
                        (λ code. On (Confirms id seq slot n code)) (On R))
                    here
                    (subst
                      (λ t.
                        Triple (On (SeenAs first)) (confirm_trial h slot t first)
                          (λ code. On (Confirms id seq slot n code)) (On R))
                      same (confirm_trial-Triple first))
