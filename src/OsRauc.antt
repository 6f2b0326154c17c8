-- ===== src/OsRauc.antt =====
-- epilykos_os_update.py: the state of RAUC on the bus, and `reconcile_install`, which waits for the
-- writer that was recorded before the worker went away. The commands are a Bus; what `job['rauc']`
-- holds is a Writer. The wait counts its rounds, and the clock is read by the round.
pub mod Waits
pub mod Ended
mod Examples
use epilykos_os.Base.{
  ℕ, zero, suc, ◌+◌, Bool, true, false, ◌&&◌, ◌==◌, ltb, if◌then◌else◌, Option, none, some, List,
  [], ◌∷◌, Text, codes, same_codes, same_codes?, is_empty, is_space, strip, strip_start, partition,
}
use epilykos_os.OsBox.{
  says, Job, os_update_error, Action, ◌>>=◌, ◌>>◌, pure, raise, raise_if, spend, Host, required,
}
use epilykos_os.OsUpdate.{complete_install, fail_install}

-- What a command answers: nothing, or its exit status and output. Each is told its number.
pub record Bus : Type 0 where
  pub name_owner : ℕ → Option (ℕ × Text)
  pub operation : ℕ → Option (ℕ × Text)
  pub invocation : ℕ → Option (ℕ × Text)
  pub last_error : ℕ → Option (ℕ × Text)
  pub start_rauc : ℕ → Option (ℕ × Text)
  pub restart_rauc : ℕ → Option (ℕ × Text)
  pub clock : ℕ → ℕ

pub record Writer : Type 0 where
  pub bus_owner : Option Text
  pub invocation : Option Text

-- `INSTALL_WAIT_S`
abbrev pub install_wait : ℕ
install_wait = 14400

-- What stands between two quotes that end the text.
abbrev pub quoted : Text → Option Text
quoted [] = none
quoted (c ∷ s) =
    if c == b'"'
    then (let (inside, rest) = partition b'"' s in
        elim rest [ none ↦ none | some r ↦ if is_empty r then some inside else none ])
    else none

abbrev pub after_type : Text → Option Text
after_type [] = none
after_type (c ∷ s) = if is_space c then quoted (strip_start s) else none

-- `_busctl_string`
unfoldable pub busctl_string : Text → Option Text
unfolding strip partition strip_start
busctl_string text = elim (strip text) [
  | [] ↦ none
  | c ∷ s ↦ if c == b's' then after_type s else none
]

abbrev pub answer_of : Option (ℕ × Text) → Action (ℕ × Text)
answer_of none = raise (os_update_error (says "did not answer"))
answer_of (some reply) = pure reply

-- `_run`
unfoldable pub run_command : (ℕ → Option (ℕ × Text)) → Action (ℕ × Text)
run_command reply = spend λ b. answer_of (reply b.power) b

-- The operation of RAUC and the owner of its name.
pub record Seen : Type 0 where
  pub operation : Option Text
  pub owner : Option Text

unfoldable pub if_done : ℕ × Text → Option Text
unfolding busctl_string
if_done (code, out) = if code == 0 then busctl_string out else none

-- `operation not in ('idle', None)`
abbrev pub is_busy : Option Text → Bool
is_busy none = false
is_busy (some o) = if same_codes o (codes "idle") then false else true

abbrev pub is_present : Option Text → Bool
is_present none = false
is_present (some s) = if is_empty s then false else true

abbrev pub same? : Option Text → Option Text → Bool
same? none _ = false
same? (some s) t = same_codes? t s

-- The same owner and the same invocation as recorded.
unfoldable pub is_same : Writer → Seen → Text → Bool
unfolding strip
is_same recorded seen out =
    same? seen.owner recorded.bus_owner && same? (some (strip out)) recorded.invocation

module _ (bus : Bus) where
  unfoldable pub operation_of : ℕ × Text → Action Seen
  unfolding run_command if_done
  operation_of (code, out) =
      if code == 0
      then (do
        reply ← run_command bus.operation
        pure (record { operation = if_done reply; owner = busctl_string out }))
      else pure (record { operation = none; owner = none })

  unfoldable pub rauc_operation : Action Seen
  unfolding operation_of
  rauc_operation = do owner ← run_command bus.name_owner; operation_of owner

  unfoldable pub restart_rauc : Action (Unit {0})
  unfolding rauc_operation
  restart_rauc = do
    seen ← rauc_operation
    raise_if (is_busy seen.operation)
        (os_update_error (says "The system updater is busy; try again shortly"))
    reply ← run_command bus.restart_rauc
    raise_if (if reply.0 == 0 then false else true)
        (os_update_error (says "Could not restart the system updater with the new trust policy"))

  unfoldable pub rauc_identity : Action Writer
  unfolding rauc_operation
  rauc_identity = do
    started ← run_command bus.start_rauc
    raise_if (if started.0 == 0 then false else true)
        (os_update_error (says "The system updater did not start"))
    seen ← rauc_operation
    reply ← run_command bus.invocation
    raise_if
        (if same_codes? seen.operation (codes "idle")
            && (is_present seen.owner && (reply.0 == 0 && is_present (some (strip reply.1))))
          then false
          else true)
        (os_update_error (says "The system updater is busy or unavailable"))
    pure (record { bus_owner = seen.owner; invocation = some (strip reply.1) })

  -- One round of the wait: what is seen, and whether it is the recorded writer.
  unfoldable pub look : Writer → Action (Bool × Option Text)
  unfolding rauc_operation is_same
  look recorded = do
    seen ← rauc_operation
    reply ← run_command bus.invocation
    pure (is_same recorded seen reply.1, seen.operation)

  abbrev pub goes_on : ℕ → ℕ → Bool × Option Text → Bool
  goes_on deadline k (same, operation) =
      same && (same_codes? operation (codes "installing") && ltb (bus.clock k) deadline)

  -- The `while` loop; `none` where the rounds that are given do not suffice.
  unfoldable pub wait : Writer → ℕ → ℕ → ℕ → Action (Option (Bool × Option Text))
  unfolding look
  wait recorded deadline zero k = pure none
  wait recorded deadline (suc n) k = do
    seen ← look recorded
    elim (goes_on deadline k seen) [
      | true ↦ wait recorded deadline n (suc k)
      | false ↦ pure (some seen)
    ]

  module _ (h : Host) where
    -- RAUC is idle again, by what it says of its last error.
    unfoldable pub settle_idle : Job → ℕ × Text → Action ℕ
    unfolding if_done
    settle_idle job reply =
        if same_codes? (if_done reply) []
        then complete_install h job
        else fail_install h job (says "The system updater failed the OS update")

    unfoldable pub settle_wait : Job → Bool × Option Text → Action ℕ
    unfolding settle_idle
    settle_wait job (false, operation) =
        fail_install h job (says "The OS update was interrupted while installing")
    settle_wait job (true, operation) =
        if same_codes? operation (codes "idle")
        then (do reply ← run_command bus.last_error; settle_idle job reply)
        else fail_install h job (says "The system updater did not finish in time")

    -- One round every five seconds, and one more, are enough for the deadline.
    unfoldable pub reconcile_install : Writer → ℕ → Job → Action ℕ
    unfolding wait settle_wait
    reconcile_install recorded start job = do
      found ← wait recorded (start + install_wait) 2881 0
      seen ← required found
      settle_wait job seen
