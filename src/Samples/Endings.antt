-- ===== src/Samples/Endings.antt =====
-- The theorems about discarding, completing and rolling back at the bench.
use epilykos_os.Base.{◌≡◌, refl, true, none, some}
use epilykos_os.OsBox.{
  slot_a, On, Ends, installing, rolled_back, Job, holds, pending, active, idle, on_guard, Box,
}
use epilykos_os.OsUpdate.{complete_install}
use epilykos_os.OsUpdate.Completion.{Completes, Completing, complete_install-Triple}
use epilykos_os.OsActivate.{discard}
use epilykos_os.OsActivate.Safety.{IsSafe}
use epilykos_os.OsActivate.Dropped.{IsDropped, discard-Triple}
use epilykos_os.OsBoot.{roll_back}
use epilykos_os.OsBoot.Interrupted.{roll_back-guard}
use epilykos_os.Samples.Bench.{
  ready_card, bench, bench-IsFaithful, restarting_job, card, trial_env, fallen_card,
}

abbrev installing_job : Job
installing_job = record restarting_job { state = installing }

abbrev installing_card : Box
installing_card = record card { journal = holds installing_job; guard = on_guard active (some 41) }

abbrev rolled_back_job : Job
rolled_back_job = record restarting_job { state = rolled_back }

-- The roll-back was cut before the guard was set.
abbrev cut_card : Box
cut_card = record fallen_card { journal = holds rolled_back_job }

discard-Triple_example :
    Ends
      (λ _. On λ e j g. IsDropped 41 e j g × (g ≡ on_guard idle none))
      (On IsSafe)
      (discard bench 41 ready_card).0
      (discard bench 41 ready_card).1
discard-Triple_example = (discard-Triple bench-IsFaithful 41).at ready_card refl

complete_install-Triple_example :
    Ends
      (λ code. On (Completes installing_job code))
      (On (Completing (holds installing_job) installing_job))
      (complete_install bench installing_job installing_card).0
      (complete_install bench installing_job installing_card).1
complete_install-Triple_example =
    (complete_install-Triple bench-IsFaithful (holds installing_job) installing_job).at
      installing_card refl

roll_back-guard_example :
    Ends
      (λ found. On λ e j g.
        (found ≡ some rolled_back)
        × (e.pending ≡ none)
        × (g ≡ on_guard pending (some 41))
        × (j ≡ holds rolled_back_job))
      (On λ e j g. (g ≡ on_guard pending (some 41)) × (j ≡ holds rolled_back_job))
      (roll_back bench rolled_back_job slot_a trial_env true cut_card).0
      (roll_back bench rolled_back_job slot_a trial_env true cut_card).1
roll_back-guard_example =
    (roll_back-guard bench-IsFaithful (on_guard pending (some 41)) (holds rolled_back_job)
        rolled_back_job slot_a trial_env refl).at
      cut_card (refl, refl)
