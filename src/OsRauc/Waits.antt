-- ===== src/OsRauc/Waits.antt =====
-- What the commands and the wait tell: the wait ends by its deadline, and what it ends with was seen.
use epilykos_os.Base.{
  ℕ, zero, suc, ◌+◌, ◌*◌, ◌≤◌, ◌<◌, ◌≡◌, refl, subst, ◌⊎◌, inl, inr, Bool, true, false, ◌&&◌, ◌==◌,
  ltb, both, Option, none, some, Text, codes, same_codes?, strip, arith, ltb→lt,
}
use epilykos_os.OsBox.{
  Box, Predicate, On, Implies, Ends, Triple, Triple-pure, Triple-bind, Triple-if, Triple-given,
  spend-Triple, pure,
}
use epilykos_os.OsRauc.{
  Bus, Writer, Seen, answer_of, run_command, if_done, busctl_string, operation_of, rauc_operation,
  same?, is_same, look, goes_on, wait,
}

-- The command gave this reply at some time.
abbrev pub Said : (ℕ → Option (ℕ × Text)) → ℕ × Text → Type 0
Said reply r = (p : ℕ) × (reply p ≡ some r)

module _ (I X : Predicate) (x : Implies I X) where
  answer-Ends :
      (o : Option (ℕ × Text)) (b : Box) (Q : ℕ × Text → Box → Type 0)
      → On I b
      → ((r : ℕ × Text) → o ≡ some r → Q r b)
      → Ends Q (On X) (answer_of o b).0 (answer_of o b).1
  answer-Ends none b Q p q = x _ _ _ p
  answer-Ends (some r) b Q p q = q r refl

  pub run_command-Triple :
      (reply : ℕ → Option (ℕ × Text))
      → Triple (On I) (run_command reply) (λ r b. On I b × Said reply r) (On X)
  unfolding run_command
  run_command-Triple reply =
      spend-Triple I X (λ r b. On I b × Said reply r) _ x
        λ b p. answer-Ends (reply b.power) b _ p (λ r e. (p, (b.power, e)))

module _ (bus : Bus) where
  -- The writer of the record was on the bus, and this is what its operation read as.
  abbrev pub WasSeen : Writer → Option Text → Type 0
  WasSeen recorded operation =
      (owner : Text) × (out : ℕ × Text) × (reply : ℕ × Text) × (Said bus.name_owner (0, owner)
        × (Said bus.invocation out
            × (Said bus.operation reply
                × ((same? (busctl_string owner) recorded.bus_owner ≡ true)
                    × ((same? (some (strip out.1)) recorded.invocation ≡ true)
                        × (operation ≡ if_done reply))))))

  -- What a look answers: the recorded writer was seen, or it is not the same.
  abbrev pub IsSeen : Writer → Bool × Option Text → Type 0
  IsSeen recorded (false, operation) = Unit {0}
  IsSeen recorded (true, operation) = WasSeen recorded operation

  -- What `rauc_operation` answers: no owner, or what the two commands said.
  abbrev Observed : Seen → Type 0
  Observed s =
      (s.owner ≡ none)
      ⊎ ((owner : Text) × (reply : ℕ × Text) × (Said bus.name_owner (0, owner)
            × (Said bus.operation reply
                × ((s.owner ≡ busctl_string owner) × (s.operation ≡ if_done reply)))))

  seen-IsSeen :
      (recorded : Writer) (s : Seen) (out : ℕ × Text)
      → Observed s
      → Said bus.invocation out
      → (b : Bool) → is_same recorded s out.1 ≡ b
      → IsSeen recorded (b, s.operation)
  unfolding is_same
  seen-IsSeen recorded s out seen said false e = tt
  seen-IsSeen recorded s out (inl gone) said true e =
      absurd (ground (arith, subst (λ o. same? o recorded.bus_owner ≡ true) gone (both _ _ e).0))
  seen-IsSeen recorded s out (inr (owner, reply, (a, (b, (c, d))))) said true e =
      let t =
        both (same? s.owner recorded.bus_owner) (same? (some (strip out.1)) recorded.invocation)
          e in
      (
        owner,
        out,
        reply,
        (a, (said, (b, (subst (λ o. same? o recorded.bus_owner ≡ true) c t.0, (t.1, d))))),
      )

  goes_on-early :
      (s : Bool × Option Text) (deadline k : ℕ)
      → goes_on bus deadline k s ≡ true
      → bus.clock k < deadline
  goes_on-early (same, operation) deadline k e =
      let timed =
        both same (same_codes? operation (codes "installing") && ltb (bus.clock k) deadline) e in
      ltb→lt (bus.clock k) deadline
        (both (same_codes? operation (codes "installing")) (ltb (bus.clock k) deadline) timed.1).1

  -- The wait has ended with what a look saw.
  abbrev pub Decided : Writer → Option (Bool × Option Text) → Type 0
  Decided recorded none = ⊥
  Decided recorded (some s) = IsSeen recorded s

  module _ (I X : Predicate) (x : Implies I X) where
    operation_of-Triple :
        (r : ℕ × Text)
        → Said bus.name_owner r
        → Triple (On I) (operation_of bus r) (λ s b. On I b × Observed s) (On X)
    unfolding operation_of
    operation_of-Triple (code, out) said =
        Triple-if (code == 0) _ _
          (λ e. Triple-bind (run_command-Triple I X x bus.operation) λ reply. Triple-pure _ λ b p. (
            p.0,
            inr (
              out,
              reply,
              (
                subst (λ c. Said bus.name_owner (c, out)) (zero_of code e) said,
                (p.1, (refl, refl)),
              ),
            ),
          ))
          λ e. Triple-pure _ λ b p. (p, inl refl)
      where
        zero_of : (code : ℕ) → (code == 0) ≡ true → code ≡ 0
        zero_of code e = ground (arith, e)

    look-Triple :
        (recorded : Writer)
        → Triple (On I) (look bus recorded) (λ s b. On I b × IsSeen recorded s) (On X)
    unfolding look rauc_operation
    look-Triple recorded =
        Triple-bind
          (Triple-bind (run_command-Triple I X x bus.name_owner)
            λ owner. Triple-given λ said. operation_of-Triple owner said)
          λ s. Triple-given λ seen.
            Triple-bind (run_command-Triple I X x bus.invocation)
              λ out. Triple-pure _ λ b p. (p.0, seen-IsSeen recorded s out seen p.1 _ refl)

    -- With a clock that goes on by five seconds a round, and rounds for the time that is left and one
    -- more: the wait ends before its rounds do, with what was seen last.
    pub wait-Triple :
        (recorded : Writer) (deadline : ℕ)
        → ((k : ℕ) → bus.clock k + 5 ≤ bus.clock (suc k))
        → (n k : ℕ) → 1 ≤ n
        → deadline + 5 ≤ bus.clock k + 5 * n
        → Triple (On I) (wait bus recorded deadline n k) (λ o b. On I b × Decided recorded o) (On X)
    unfolding wait
    wait-Triple recorded deadline ticks zero k some_left enough = absurd (omega arith)
    wait-Triple recorded deadline ticks (suc n) k some_left enough =
        Triple-bind (look-Triple recorded) λ s. Triple-given λ seen.
          by_test s seen (goes_on bus deadline k s) refl
            (wait-Triple recorded deadline ticks n (suc k))
      where
        by_test :
            (s : Bool × Option Text)
            → IsSeen recorded s
            → (c : Bool) → goes_on bus deadline k s ≡ c
            → (1 ≤ n
                → deadline + 5 ≤ bus.clock (suc k) + 5 * n
                → Triple
                    (On I)
                    (wait bus recorded deadline n (suc k))
                    (λ o b. On I b × Decided recorded o)
                    (On X))
            → Triple
                (On I)
                (elim c [ true ↦ wait bus recorded deadline n (suc k) | false ↦ pure (some s) ])
                (λ o b. On I b × Decided recorded o)
                (On X)
        by_test s seen false e next = Triple-pure _ λ b p. (p, seen)
        by_test s seen true e next =
            let early = goes_on-early s deadline k e in
            next (omega (arith, early, enough)) (omega (arith, early, enough, ticks k))
