-- ===== src/OsRauc/Ended.antt =====
-- `reconcile_install`: only the writer that was recorded completes an installation.
use epilykos_os.Base.{
  ℕ, suc, ◌+◌, ◌≤◌, ◌≡◌, ◌⊎◌, inl, inr, subst, Bool, true, false, Option, [], Text, codes,
  same_codes?, arith,
}
use epilykos_os.OsBox.{
  Message, Job, Journal, Host, IsFaithful, Predicate, On, Triple, Triple-bind, Triple-weaken,
  Triple-if, Triple-given, Triple-required,
}
use epilykos_os.OsUpdate.{complete_install, fail_install}
use epilykos_os.OsUpdate.Completion.{
  Completes, Completing, complete_install-Triple, fail_install-Triple,
}
use epilykos_os.OsRauc.{
  Bus, Writer, if_done, install_wait, settle_idle, settle_wait, reconcile_install,
}
use epilykos_os.OsRauc.Waits.{Said, WasSeen, IsSeen, Decided, run_command-Triple, wait-Triple}

module _ (bus : Bus) (recorded : Writer) where
  -- The recorded writer was seen idle, and then said that it had no error.
  abbrev pub HasFinished : Type 0
  HasFinished =
      (operation : Option Text) × (reply : ℕ × Text) × (WasSeen bus recorded operation
        × ((same_codes? operation (codes "idle") ≡ true)
            × (Said bus.last_error reply × (same_codes? (if_done reply) [] ≡ true))))

  -- How the installation ends; it returns 0 only for the recorded writer.
  abbrev pub Concludes : Job → ℕ → Predicate
  Concludes job code e j g = Completes job code e j g × ((code ≡ 1) ⊎ HasFinished)

module _ {h : Host} (f : IsFaithful h) (bus : Bus) (recorded : Writer) (j₀ : Journal)
    (job : Job) where
  abbrev Start : Predicate
  Start e j g = j ≡ j₀

  failed-Triple :
      (m : Message)
      → Triple
          (On Start)
          (fail_install h job m)
          (λ code. On (Concludes bus recorded job code))
          (On (Completing j₀ job))
  failed-Triple m =
      Triple-weaken (fail_install-Triple f j₀ job m) (λ b p. p) (λ code b p. (inr p, inl p.0))
        (λ b p. p)

  completed-Triple :
      HasFinished bus recorded
      → Triple
          (On Start)
          (complete_install h job)
          (λ code. On (Concludes bus recorded job code))
          (On (Completing j₀ job))
  completed-Triple done =
      Triple-weaken (complete_install-Triple f j₀ job) (λ b p. p) (λ code b p. (p, inr done))
        (λ b p. p)

  settle_idle-Triple :
      (reply : ℕ × Text)
      → (same_codes? (if_done reply) [] ≡ true → HasFinished bus recorded)
      → Triple
          (On Start)
          (settle_idle bus h job reply)
          (λ code. On (Concludes bus recorded job code))
          (On (Completing j₀ job))
  unfolding settle_idle
  settle_idle-Triple reply done =
      Triple-if (same_codes? (if_done reply) []) _ _ (λ clean. completed-Triple (done clean))
        λ unclean. failed-Triple _

  settle_wait-Triple :
      (s : Bool × Option Text)
      → IsSeen bus recorded s
      → Triple
          (On Start)
          (settle_wait bus h job s)
          (λ code. On (Concludes bus recorded job code))
          (On (Completing j₀ job))
  unfolding settle_wait
  settle_wait-Triple (false, operation) seen = failed-Triple _
  settle_wait-Triple (true, operation) seen =
      Triple-if (same_codes? operation (codes "idle")) _ _
        (λ idle.
          Triple-bind
            (run_command-Triple Start (Completing j₀ job) (λ e j g p. inl p) bus.last_error)
            λ reply. Triple-given λ said.
              settle_idle-Triple reply λ clean. (operation, reply, (seen, (idle, (said, clean)))))
        λ busy. failed-Triple _

  -- With a clock that goes on by at least five seconds a round: the wait for RAUC ends, and the
  -- installation with it as `complete_install` ends. It is reported as completed only if the writer
  -- that was recorded before the worker went away, by its owner on the bus and its invocation, was
  -- seen idle and then named no error; with any other writer it fails or needs checking.
  pub reconcile_install-Triple :
      (start : ℕ)
      → start ≤ bus.clock 0
      → ((k : ℕ) → bus.clock k + 5 ≤ bus.clock (suc k))
      → Triple
          (On Start)
          (reconcile_install bus h recorded start job)
          (λ code. On (Concludes bus recorded job code))
          (On (Completing j₀ job))
  unfolding reconcile_install
  reconcile_install-Triple start begun ticks =
      Triple-bind
        (wait-Triple bus Start (Completing j₀ job) (λ e j g p. inl p) recorded
          (start + install_wait) ticks 2881 0 (omega arith) (omega (arith, begun)))
        λ found. Triple-given λ decided.
          Triple-bind {Q = λ s b. On Start b × IsSeen bus recorded s}
            (Triple-required found (λ b p. inl p)
              (λ s at b p. (p, subst (Decided bus recorded) at decided)))
            λ s. Triple-given λ seen. settle_wait-Triple s seen
