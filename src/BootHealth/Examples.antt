-- ===== src/BootHealth/Examples.antt =====
-- The properties of a boot's supervisor at concrete boots.
use epilykos_os.Base.{
  ℕ, ◌+◌, ◌*◌, ◌≤◌, ◌<◌, ◌≡◌, refl, ◌⊎◌, inl, inr, Bool, true, false, ◌==◌, leb, Option, none, some,
  List, [], ◌∷◌, arith, Text, codes, ◌↔◌,
}
use epilykos_os.BootHealth.{
  World, Command, Task, is_failed, podman_info, inspect, printenv, mark_good, coordinate, stop_app,
  State, checking, confirming, done, rebooting, Reason, not_healthy, Supervisor, Step, returned,
  raised, second, reboot, force_reboot, data_mount_failed, start_reboot, step, run, supervise,
}
use epilykos_os.BootHealth.Branches.{After}
use epilykos_os.BootHealth.Diagram.{Ticks, step-Ticks}
use epilykos_os.BootHealth.Escalation.{next, end, Returns, start_reboot-run}
use epilykos_os.BootHealth.Trials.{Finishes, supervise-Honest}

-- Every command can be started and answers at once, as `says` has it.
abbrev answering : (Task → Option (ℕ × Text)) → World
answering says = record {
  clock = λ t. t;
  spawns = λ _ _. true;
  poll = λ _ task. says task;
  is_mounted = λ _. true;
  has_coordinator = λ _. true;
  requests = λ _ _. true;
  resets = λ _. true;
}

abbrev trial_env : Text
trial_env = codes "epk_os_pending=7\nepk_os_target=A\nepk_os_trial_started=7\n"

-- A healthy boot, of the trial of job 7 where the slot is A.
abbrev well : Task → Option (ℕ × Text)
well is_failed = some (1, codes "inactive")
well inspect = some (0, codes "healthy\n")
well printenv = some (0, trial_env)
well _ = some (0, [])

-- Nothing answers.
abbrev stuck : Task → Option (ℕ × Text)
stuck _ = none

abbrev cmdline : Text
cmdline = codes "quiet rauc.slot=A"

abbrev pending : List (Text × Text)
pending =
    (codes "epk_os_trial_started", codes "7")
    ∷ (codes "epk_os_target", codes "A")
    ∷ (codes "epk_os_pending", codes "7")
    ∷ []

step-Ticks_example :
    After (Ticks (supervise 0 cmdline)) (step (answering well) 1 (supervise 0 cmdline))
step-Ticks_example = step-Ticks (answering well) 1 (supervise 0 cmdline)

start_reboot-run_example :
    Returns
      (λ _ t. (t.sent ≡ force_reboot ∷ reboot ∷ []) × (t.reset ≡ true))
      (run
        (answering stuck)
        (100 * second ∷ 230 * second ∷ 330 * second ∷ 470 * second ∷ 600 * second ∷ [])
        (record (supervise 0 cmdline) {
          state = rebooting;
          reason = some not_healthy;
          reboot_at = 0;
          stage = 0;
          stopping = some (record { task = stop_app; started = 0; runs = true });
        }))
start_reboot-run_example =
    start_reboot-run (answering stuck) (150 * second) 0 (λ _ _. refl) (λ _. refl)
      (λ t. ground arith) 0 not_healthy (supervise 0 cmdline) refl refl
      (next (ground arith) (ground arith) (
        next (ground arith) (ground arith) (
          next (ground arith) (ground arith)
            (next (ground arith) (ground arith) (next (ground arith) (ground arith) end)))))
      (ground arith)

supervise-Honest_example : Finishes (some (codes "A")) pending (coordinate (codes "7"))
unfolding run epilykos_os.BootHealth.result epilykos_os.Base.strip epilykos_os.Base.parse_env
    epilykos_os.BootHealth.booted_slot
supervise-Honest_example =
    supervise-Honest (answering well) 0 cmdline (1 ∷ []) pending
      (record { task = coordinate (codes "7"); started = 1; runs = true }) refl refl
