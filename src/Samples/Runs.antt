-- ===== src/Samples/Runs.antt =====
-- The theorems about the OS update code at the bench, and runs of it.
use epilykos_os.Base.{◌≡◌, refl, ◌⊎◌, true, some, none, arith}
use epilykos_os.OsBox.{
  rolled_back, activated, On, Ends, done, read_env, set_env, fw_setenv, mark_active, save, layout,
  write_atomic, reboot, mark_good, finish, remove, journal, booted_slot, slot_b, set_guard,
  clear_pending, worker_active, target_bad, mark_bad,
}
use epilykos_os.Storage.{admit}
use epilykos_os.OsUpdate.{platform, verify_target}
use epilykos_os.OsActivate.{activate, revalidate}
use epilykos_os.OsActivate.Safety.{IsSafe, Activates, activate-Triple}
use epilykos_os.OsConfirm.{
  confirm_candidate, confirm_trial, conclude, raise_floor, promote_app, rebuild,
}
use epilykos_os.OsConfirm.Trial.{Confirms, Resumable}
use epilykos_os.OsConfirm.Confirmation.{confirm_candidate-Triple}
use epilykos_os.OsBoot.{reconcile_boot}
use epilykos_os.OsBoot.Booted.{Booted}
use epilykos_os.OsBoot.Safety.{reconcile_boot-Triple}
use epilykos_os.Samples.Bench.{
  fallen_card, bench, bench-IsFaithful, restarting_job, card, trial_card,
}

activate-Triple_example :
    Ends
      (λ code. On λ e j g.
        Activates restarting_job code e j g
        ⊎ ((restarting_job.progress.activated ≡ true)
            × (code ≡ 0)
            × (e.phase ≡ some activated)
            × IsSafe e j g))
      (On IsSafe)
      (activate bench restarting_job card).0
      (activate bench restarting_job card).1
activate-Triple_example =
    (activate-Triple bench-IsFaithful restarting_job).at card
      (refl, (restarting_job, refl, refl, refl))

-- The bench activates the job and asks for the reboot.
activate_runs :
    let (o, b) = activate bench restarting_job card in
    (o ≡ done 0) × (b.env.pending ≡ some 41) × (b.reboot_asked ≡ true)
unfolding activate revalidate platform admit verify_target read_env set_env fw_setenv mark_active
    save layout write_atomic reboot
activate_runs = (refl, refl, refl)

confirm_candidate-Triple_example :
    Ends
      (λ code. On (Confirms 41 8 slot_b 7 code))
      (On (Resumable 41 8 slot_b 7))
      (confirm_candidate bench 41 trial_card).0
      (confirm_candidate bench 41 trial_card).1
confirm_candidate-Triple_example =
    (confirm_candidate-Triple bench-IsFaithful 41 8 slot_b 7).at trial_card
      (refl, refl, refl, refl, refl, refl, omega arith)

-- The bench confirms the trial, raises the floor and clears what is pending.
confirm_runs :
    let (o, b) = confirm_candidate bench 41 trial_card in
    (o ≡ done 0) × (b.env.pending ≡ none) × (b.env.floor ≡ some 8) × (b.env.left_b ≡ some 3)
unfolding confirm_candidate confirm_trial conclude raise_floor promote_app finish read_env set_env
    fw_setenv mark_good save layout write_atomic remove rebuild journal booted_slot set_guard
    clear_pending
confirm_runs = (refl, refl, refl, refl)

-- The card with slot A running again after the trial of slot B.
reconcile_boot-Triple_example :
    Ends
      (λ found. On (Booted found))
      (On IsSafe)
      (reconcile_boot bench fallen_card).0
      (reconcile_boot bench fallen_card).1
reconcile_boot-Triple_example = (reconcile_boot-Triple bench-IsFaithful).at fallen_card refl

-- The bench rolls back: slot A stays, the job has ended and nothing is pending.
reconcile_boot_runs :
    let (o, b) = reconcile_boot bench fallen_card in
    (o ≡ done (some rolled_back)) × (b.env.pending ≡ none) × (b.env.left_b ≡ some 0)
unfolding reconcile_boot read_env journal booted_slot worker_active rebuild target_bad mark_bad
    mark_active finish save layout write_atomic remove set_guard clear_pending set_env fw_setenv
reconcile_boot_runs = (refl, refl, refl)
