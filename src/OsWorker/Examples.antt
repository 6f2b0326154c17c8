-- ===== src/OsWorker/Examples.antt =====
-- The worker at the bench: a bundle that is there is checked and installed; and a result that can not
-- be saved.
use epilykos_os.Base.{◌≡◌, refl, ◌==◌, if◌then◌else◌, Option, some, none, decimal, strip}
use epilykos_os.OsBox.{
  On, Ends, ready, failed, holds, idle, on_guard, written, unsynced, exit, done, says, Box, Host,
  Journal, JobState, pending, journal, set_guard, layout, write_atomic, save, read_env, mark_bad,
  finish, remove,
}
use epilykos_os.OsUpdate.{platform, verify_target, shown_bad, failed_install}
use epilykos_os.OsActivate.{current_state, verify_os_release}
use epilykos_os.OsJobs.Install.{verify_offer}
use epilykos_os.OsBundle.{verify_bundle}
use epilykos_os.OsDownload.Attempts.{download}
use epilykos_os.OsTrust.{check_bundle, check_manifest, check_meta}
use epilykos_os.Json.{field}
use epilykos_os.OsRauc.{rauc_identity}
use epilykos_os.OsWorker.{work, run_worker, fail_in_work}
use epilykos_os.OsWorker.Fetching.{save_phase, fetch_image}
use epilykos_os.OsWorker.Saved.{Leaves, Works}
use epilykos_os.OsWorker.Sample.{bus, shop, crew, shelf, shelf-IsFaithful, queued_job, queued_card}
use epilykos_os.OsWorker.Worked.{work-Triple}
use epilykos_os.Samples.Bench.{bench, card, restarting_job}

work-Triple_example :
    Ends
      (λ code. On (Works shelf crew (holds queued_job) queued_job code))
      (On (Leaves shelf crew (holds queued_job) queued_job))
      (work shelf bus shop crew queued_job queued_card).0
      (work shelf bus shop crew queued_job queued_card).1
work-Triple_example =
    (work-Triple shelf-IsFaithful bus shop crew (holds queued_job) queued_job).at queued_card refl

abbrev state_of : Journal → Option JobState
state_of (holds j) = some j.state
state_of _ = none

-- The queued job is installed, and waits for Restart.
queued_installs :
    let (outcome, b) = run_worker shelf bus shop crew queued_card in
    (outcome ≡ done 0)
    × (state_of b.journal ≡ some ready)
    × (b.guard ≡ on_guard pending (some 41))
    × (b.env.left_b ≡ some 0)
unfolding run_worker journal set_guard layout write_atomic save platform current_state
    verify_os_release verify_offer save_phase verify_bundle check_bundle field check_manifest
    check_meta decimal download rauc_identity read_env verify_target strip fetch_image
queued_installs = (refl, refl, refl, refl)

-- A host on which mark-bad does nothing, and one write is reported as failed after it was made.
abbrev torn : Host
torn = record bench {
  mark_bad = λ t s e. (exit 0, e);
  disk = λ t. if t == 96 then unsynced else written;
}

abbrev bootable_card : Box
bootable_card = record queued_card { env = record card.env { left_b = some 3 } }

-- The slot can still boot, and needs checking; but the job ends as failed, with the guard idle.
unclear_forgotten :
    let (outcome, b) =
      fail_in_work torn bus shop crew restarting_job (says "refused") bootable_card in
    (outcome ≡ done 1)
    × (state_of b.journal ≡ some failed)
    × (b.guard ≡ on_guard idle none)
    × (b.env.left_b ≡ some 3)
unfolding fail_in_work shown_bad mark_bad read_env failed_install save layout write_atomic finish
    set_guard remove
unclear_forgotten = (refl, refl, refl, refl)
