-- ===== src/Samples/Restarts.antt =====
-- Restart of the ready job at the bench.
use epilykos_os.Base.{refl, true, ◌≡◌}
use epilykos_os.OsBox.{
  On, Ends, done, journal, worker_active, save, layout, write_atomic, start_worker,
}
use epilykos_os.OsActivate.{restart}
use epilykos_os.OsActivate.Safety.{IsSafe}
use epilykos_os.OsActivate.Restarted.{IsRestarting, restart-Triple}
use epilykos_os.Samples.Bench.{bench, ready_card}

restart-Triple_example :
    Ends
      (λ _. On λ e j g. IsSafe e j g × IsRestarting 41 e j g)
      (On IsSafe)
      (restart bench 41 ready_card).0
      (restart bench 41 ready_card).1
restart-Triple_example = (restart-Triple bench 41).at ready_card refl

restart_runs :
    ((restart bench 41 ready_card).0 ≡ done tt)
    × ((restart bench 41 ready_card).1.worker_asked ≡ true)
unfolding restart journal worker_active save layout write_atomic start_worker
restart_runs = (refl, refl)
