-- ===== src/Appliance/Examples.antt =====
-- One history at the bench: the worker installs, Restart is asked for, the worker activates, the loader
-- starts slot A again, and hostd starts.
use epilykos_os.Base.{refl, some}
use epilykos_os.OsBox.{slot_a, On, Box}
use epilykos_os.OsActivate.{restart}
use epilykos_os.OsActivate.Safety.{IsSafe}
use epilykos_os.OsBoot.{reconcile_boot}
use epilykos_os.OsWorker.{run_worker}
use epilykos_os.OsWorker.Sample.{bus, shop, crew, shelf, shelf-IsFaithful, queued_card, bus-IsTimed}
use epilykos_os.Appliance.{worked, restarted, loaded, reconciled, here, next, Reaches-IsSafe}

abbrev installed_card : Box
installed_card = (run_worker shelf bus shop crew queued_card).1

abbrev asked_card : Box
asked_card = (restart shelf 41 installed_card).1

abbrev activated_card : Box
activated_card = (run_worker shelf bus shop crew asked_card).1

-- The card after the activation, started again in slot A.
abbrev restarted_card : Box
restarted_card = record activated_card { power = 50; slot = some slot_a }

Reaches-IsSafe_example : On IsSafe (reconcile_boot shelf restarted_card).1
Reaches-IsSafe_example =
    Reaches-IsSafe shelf-IsFaithful
      (next
        (next
          (next
            (next (next here (worked queued_card bus shop crew bus-IsTimed))
              (restarted installed_card 41))
            (worked asked_card bus shop crew bus-IsTimed))
          (loaded activated_card 50 (some slot_a) activated_card.env (refl, λ s z. z)))
        (reconciled restarted_card))
      refl
