-- ===== src/Block/Stopping/Tests.antt =====
-- The stop of a block of utils/src/Block.cpp in a concrete state.
use distributed_computing_fr.Prelude.{◌≡◌, refl, [], ◌∷◌}
use distributed_computing_fr.Block.Stopping.{
  busy, done, stopped, is_stopped, at_check, at_work, Worker, new_worker, worker_step, worker_runs,
  assigned, turn, run,
}
use distributed_computing_fr.Block.Stopping.Effect.{IsStopped, assigned-IsStopped}

abbrev working : Worker
working = record { state = busy; place = at_work; rounds = 4 }

-- A new block that is stopped before its thread runs does no round; one that runs first does.
stop_first :
    run (assigned stopped ∷ worker_runs ∷ worker_runs ∷ worker_runs ∷ []) new_worker
    ≡ record { state = stopped; place = at_check; rounds = 0 }
unfolding run turn worker_step is_stopped
stop_first = refl

stop_late :
    run (worker_runs ∷ assigned stopped ∷ worker_runs ∷ worker_runs ∷ []) new_worker
    ≡ record { state = done; place = at_check; rounds = 1 }
unfolding run turn worker_step is_stopped
stop_late = refl

assigned-IsStopped_example : IsStopped 2 at_work (turn (assigned stopped) working)
assigned-IsStopped_example = assigned-IsStopped 2 working
