-- ===== src/OsJobs/Examples.antt =====
-- The actions of hostd at the bench: an order after a failed job, a cancelled job, a dismissed one.
use epilykos_os.Base.{◌≡◌, ◌↔◌, true, none, some, ok}
use epilykos_os.OsBox.{slot_a, downloading, failed, Job, holds, idle, active, on_guard, Box, done}
use epilykos_os.OsUpdate.{refuse_reboot}
use epilykos_os.OsUpdate.Reboots.{ByPlatform, refuse_reboot_lem}
use epilykos_os.OsJobs.Install.{Order, Shop}
use epilykos_os.Samples.Bench.{bench, card, ready_card, restarting_job}

abbrev failed_job : Job
failed_job = record restarting_job { state = failed }

abbrev free_card : Box
free_card = record card { journal = holds failed_job; guard = on_guard idle none }

abbrev shop : Shop
shop = record {
  checked = λ t. some (record { entry = 1; entry_sig = 2; policy = 3; policy_sig = 4 });
  health = λ t. some (true, slot_a);
  verify_policy = λ files plat state. ok 1;
  new_id = λ t. 42;
}

abbrev order : Order
order = record { sequence = 8; sha256 = 5; request_id = 2 }

abbrev working_job : Job
working_job = record restarting_job { state = downloading }

abbrev working_card : Box
working_card = record card { journal = holds working_job; guard = on_guard active (some 41) }

refuse_reboot_lem_example :
    (refuse_reboot bench ready_card ≡ (done tt, ready_card))
    ↔ ByPlatform (bench.platform 100) ready_card.guard ready_card.journal
refuse_reboot_lem_example = refuse_reboot_lem bench ready_card
