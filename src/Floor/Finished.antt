-- ===== src/Floor/Finished.antt =====
-- About a turn of services/station-simulator-service/app/simulator/worker.py whose requests all succeed.
use dark_kitchen_simulator.Prelude.{ℕ, suc, ◌+◌, ◌∷◌, ◌≡◌, refl, some, none, List}
use dark_kitchen_simulator.Prelude.Exec.{ok}
use dark_kitchen_simulator.Simulator.Kds as Kds
use dark_kitchen_simulator.Simulator.Kds.{KdsTask, ClaimResponse, CompleteResponse}
use dark_kitchen_simulator.Simulator.Duration.{Floats}
use dark_kitchen_simulator.Simulator.Counts.{duration_of}
use dark_kitchen_simulator.Simulator.Worker.{
  World, Env, idle, polls, claims, completes, sleeps, claim_attempts, claim_success,
  completed_tasks, task_duration, select_displayed_task, complete_with_retry, rounds, cook, claim,
  poll, run_once,
}

module _ (fs : Floats) (env : Env fs) (w : World fs) (task : KdsTask) (d : fs.Float) where
  -- The state after such a turn.
  abbrev pub finished_world : World fs
  finished_world = record {
    state = record w.state {
      status = idle;
      current_task_id = none;
      last_poll_at = some env.now;
      completed_tasks_count = w.state.completed_tasks_count + 1;
    };
    actions =
        completed_tasks
        ∷ completes task.task_id
        ∷ sleeps d
        ∷ task_duration d
        ∷ claim_success
        ∷ claims task.task_id
        ∷ claim_attempts
        ∷ polls
        ∷ w.actions;
  }

  pub run_once_finishes :
      (tasks : List KdsTask) (claimed : ClaimResponse) (completed : CompleteResponse) (n : ℕ)
      → Kds.get_station_tasks env.poll_reply ≡ ok tasks
      → select_displayed_task tasks ≡ some task
      → Kds.claim_task env.claim_reply ≡ ok claimed
      → duration_of fs env task ≡ ok d
      → env.complete_retry_attempts ≡ suc n
      → Kds.complete_task (env.complete_reply 1) ≡ ok completed
      → run_once fs env w ≡ finished_world
  unfolding run_once poll claim cook complete_with_retry rounds
  run_once_finishes tasks claimed completed n polled found took lasts tries done =
      rw (polled, found, took, lasts, tries, done) refl
