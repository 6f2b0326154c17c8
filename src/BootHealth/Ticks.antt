-- ===== src/BootHealth/Ticks.antt =====
-- One tick of the supervisor: its method `step` and what that calls.
use epilykos_os.Base.{
  ℕ, ◌+◌, ◌*◌, Bool, true, false, ◌&&◌, ◌==◌, leb, ltb, if◌then◌else◌, Option, none, some, List, [],
  ◌∷◌, Text, codes, same_codes, strip, parse_env,
}
use epilykos_os.BootHealth.Record.{
  Command, Finished, Reason, Request, State, Step, Supervisor, Task, World, bound, checking,
  confirming, coordinate, data_failed, done, exited, force_reboot, force_time, inspect, is_failed,
  is_ok, is_trial, mark_good, not_healthy, or_new, output, pending_of, podman_info, printenv,
  raised, reboot, rebooting, returned, second, stop_app, sysrq_time, timeout,
}

module _ (w : World) where
  abbrev pub command : ℕ → Task → Command
  command now task = record { task = task; started = w.clock now; runs = w.spawns now task }

  -- Command.result, at a tick; none while it runs.
  unfoldable pub result_of : ℕ → Command → Option (ℕ × Text) → Option Finished
  result_of now c (some (code, out)) = some (exited code out)
  result_of now c none = if ltb (c.started + bound c.task) (w.clock now) then some timeout else none

  unfoldable pub result : ℕ → Command → Option Finished
  unfolding result_of
  result now c = if c.runs then result_of now c (w.poll now c.task) else some (exited 127 [])

  -- `mount_checked is None or now - mount_checked >= 10`
  abbrev pub is_due : ℕ → Option ℕ → Bool
  is_due now none = true
  is_due now (some t) = leb (t + 10 * second) now

  abbrev pub start_check : ℕ → Supervisor → Option Command
  start_check now s = elim s.mount_check [
    | some c ↦ some c
    | none ↦ if is_due now s.mount_checked then some (command now is_failed) else none
  ]

  unfoldable pub poll_check : ℕ → Supervisor → Option Command → Supervisor
  poll_check now s none = record s { mount_check = none }
  poll_check now s (some c) = elim (result now c) [
    | none ↦ record s { mount_check = some c }
    | some r ↦ record s { mount_check = none; mount_checked = some now; mount_failed = is_ok r }
  ]

  -- The answer is the flag of the supervisor that is returned, unless DATA is mounted.
  unfoldable pub data_mount_failed : ℕ → Supervisor → Bool × Supervisor
  unfolding poll_check
  data_mount_failed now s =
      let t : Supervisor = poll_check now s (start_check now s) in
      if w.is_mounted now then (false, s) else (t.mount_failed, t)

  abbrev pub start_reboot : ℕ → Reason → Supervisor → Step
  start_reboot now reason s = returned rebooting (record s {
    state = rebooting;
    reason = some reason;
    reboot_at = now;
    stage = 0;
    stopping = some (command now stop_app);
  })

  -- The command that finishes the boot, by whether it is a trial.
  unfoldable pub start_finish : ℕ → Supervisor → List (Text × Text) → Option Command
  start_finish now s env =
      if is_trial s.slot env
      then (if w.has_coordinator now
          then some (command now (coordinate (pending_of env)))
          else none)
      else some (command now mark_good)

  -- What an answer of that command does.
  unfoldable pub end_boot : Supervisor → Finished → Step
  end_boot s r =
      returned done
        (record s { state = done; recorded = if is_ok r then s.slot ∷ s.recorded else s.recorded })

  unfoldable pub poll_finish : ℕ → Supervisor → Command → Step
  unfolding end_boot
  poll_finish now s c = elim (result now c) [
    | none ↦ returned confirming (record s { finish = some c })
    | some r ↦ end_boot (record s { finish = some c }) r
  ]

  -- With the environment read.
  unfoldable pub confirm_with : ℕ → Supervisor → List (Text × Text) → Option Command → Step
  unfolding poll_finish start_finish
  confirm_with now s env (some c) = poll_finish now s c
  confirm_with now s env none = elim (start_finish now s env) [
    | none ↦ returned done (record s { state = done })
    | some c ↦ poll_finish now s c
  ]

  unfoldable pub read_finished : ℕ → Supervisor → Finished → Step
  unfolding confirm_with
  read_finished now s r =
      let env : List (Text × Text) = parse_env (output r) in
      if is_ok r
      then confirm_with now (record s { env = some env }) env s.finish
      else returned done (record s { state = done })

  unfoldable pub read_first : ℕ → Supervisor → Command → Step
  unfolding read_finished
  read_first now s c = elim (result now c) [
    | none ↦ returned confirming (record s { env_read = some c })
    | some r ↦ read_finished now (record s { env_read = some c }) r
  ]

  unfoldable pub confirm : ℕ → Supervisor → Step
  unfolding read_first confirm_with
  confirm now s = elim s.env [
    | none ↦ read_first now s (or_new s.env_read (command now printenv))
    | some env ↦ confirm_with now s env s.finish
  ]

  -- `result[1].strip() != 'healthy'`, negated.
  abbrev pub is_healthy : Finished → Bool
  is_healthy r = is_ok r && same_codes (strip (output r)) (codes "healthy")

  unfoldable pub check_health : ℕ → Supervisor → Command → Step
  unfolding confirm
  check_health now s c = elim (result now c) [
    | none ↦ returned checking (record s { health = some c })
    | some r ↦
        if is_healthy r
        then confirm now (record s { health = none; state = confirming })
        else returned checking (record s { health = none })
  ]

  unfoldable pub check_podman : ℕ → Supervisor → Command → Step
  unfolding check_health
  check_podman now s c = elim (result now c) [
    | none ↦ returned checking (record s { podman = some c })
    | some r ↦
        if is_ok r
        then check_health now (record s { podman = some c }) (or_new s.health (command now inspect))
        else returned checking (record s { podman = none })
  ]

  unfoldable pub check : ℕ → Supervisor → Step
  unfolding check_podman
  check now s =
      if w.is_mounted now
      then check_podman now s (or_new s.podman (command now podman_info))
      else returned checking s

  -- A reboot is asked for, or its Popen raises.
  unfoldable pub request : ℕ → Request → Supervisor → ℕ → Step
  request now r s stage =
      if w.requests now r
      then returned rebooting (record s { stage = stage; reboot_at = now; sent = r ∷ s.sent })
      else raised s

  unfoldable pub stop_first : ℕ → Supervisor → Option Command → Step
  unfolding request
  stop_first now s none = raised s
  stop_first now s (some c) = elim (result now c) [
    | none ↦ returned rebooting s
    | some r ↦ request now reboot s 1
  ]

  unfoldable pub continue_reboot : ℕ → Supervisor → Step
  unfolding stop_first request
  continue_reboot now s =
      if s.stage == 0
      then stop_first now s s.stopping
      else if (s.stage == 1) && ltb (s.reboot_at + force_time) now
      then request now force_reboot s 2
      else if (s.stage == 2) && ltb (s.reboot_at + sysrq_time) now
      then returned rebooting (record s { stage = 3; reset = w.resets now })
      else returned rebooting s

  unfoldable pub step_checking : ℕ → Bool × Supervisor → Step
  unfolding check
  step_checking now (true, s) = start_reboot now data_failed s
  step_checking now (false, s) =
      if leb s.deadline now then start_reboot now not_healthy s else check now s

  -- After the heartbeat.
  unfoldable pub step_state : ℕ → State → Supervisor → Step
  unfolding continue_reboot step_checking data_mount_failed confirm
  step_state now rebooting s = continue_reboot now s
  step_state now done s = returned done s
  step_state now checking s = step_checking now (data_mount_failed now s)
  step_state now confirming s = confirm now s

  unfoldable pub step : ℕ → Supervisor → Step
  unfolding step_state
  step now s = step_state now s.state (record s { beats = s.beats + 1 })

  -- The loop of `main` over the ticks that it is given, until it is done or raises.
  unfoldable pub run : List ℕ → Supervisor → Step
  unfolding step
  run [] s = returned s.state s
  run (now ∷ ticks) s = elim (step now s) [
    | raised t ↦ raised t
    | returned state t ↦ elim state [ done ↦ returned done t | _ ↦ run ticks t ]
  ]
