-- ===== src/Kitchen/Tests.antt =====
-- The theorems about the kitchen service at concrete stations and tasks, and runs of its handlers.
use dark_kitchen_simulator.Prelude.{
  ◌≤◌, ◌≡◌, ◌↔◌, refl, true, false, none, some, [], ◌∷◌, find, count, arith, ◌-◌,
}
use dark_kitchen_simulator.Prelude.Exec.{ok}
use dark_kitchen_simulator.Prelude.Time.{aware}
use dark_kitchen_simulator.Kitchen.Models.{Station, KdsStationTask, World, grill}
use dark_kitchen_simulator.Kitchen.Client
use dark_kitchen_simulator.Kitchen.Client.{HttpReply, timeout, response}
use dark_kitchen_simulator.Kitchen.Repositories.{
  get_station, get_by_task_id, get_by_idempotency_key, find_by_key, visible_backlog_size,
  create_task, new_task, is_candidate,
}
use dark_kitchen_simulator.Kitchen.Session.{Env, or_else}
use dark_kitchen_simulator.Kitchen.Kds.{
  deliver_task, claim_begin, claim_finish, claim_task, complete_task, complete_commit,
}
use dark_kitchen_simulator.Kitchen.Rules.{
  validate_claim, validate_delivery_station, claimed_row, occupied, completed_row,
  validate_complete, released,
}
use dark_kitchen_simulator.Kitchen.Kds.Busy.{BusyIsClaimed}
use dark_kitchen_simulator.Kitchen.Kds.Claims.{
  claim_task-BusyIsClaimed, complete_task-BusyIsClaimed,
}
use dark_kitchen_simulator.Kitchen.Kds.Exclusion.{Free, claim_task_granted}
use dark_kitchen_simulator.Kitchen.Kds.Delivery.{
  deliver_task-deliver_task, deliver_task_within_limit,
}
use dark_kitchen_simulator.Kitchen.Kds.Candidates.{is_candidate_iff_delivered}
use dark_kitchen_simulator.Kitchen.Kds.Stale.{complete_commit_stale}
use dark_kitchen_simulator.Kitchen.Samples.{
  station, task, world, env, accepted, env-IsApart, env-IsSteady, world-BusyIsClaimed, claim,
  completion, delivery, claimed_task,
}

claim_begin_run :
    (claim_begin (env accepted) 4 10 claim none (world (task ∷ []))).0
    ≡ ok (claimed_task, occupied station)
unfolding claim_begin get_station get_by_task_id find validate_claim
claim_begin_run = refl

claim_run : (claim_task (env accepted) 4 10 claim none (world (task ∷ []))).0 ≡ ok claimed_task
unfolding claim_task claim_begin claim_finish get_station get_by_task_id find validate_claim
    Client.start_task Client.post_transition
claim_run = refl

deliver_run :
    (deliver_task (env accepted) 4 delivery none (world (task ∷ []))).0
    ≡ ok (new_task 6 (aware 9) 4 delivery, true)
unfolding deliver_task get_by_idempotency_key find_by_key get_station get_by_task_id find
    validate_delivery_station visible_backlog_size count create_task
deliver_run = refl

claim_task-BusyIsClaimed_example :
    BusyIsClaimed (claim_task (env accepted) 4 10 claim none (world (task ∷ []))).1.db
claim_task-BusyIsClaimed_example =
    claim_task-BusyIsClaimed (env accepted) (env-IsSteady accepted) 4 10 (env-IsApart accepted 4 10)
      none (world (task ∷ [])) world-BusyIsClaimed claim

abbrev after_claim : World
after_claim = (claim_task (env accepted) 4 10 claim none (world (task ∷ []))).1

complete_task-BusyIsClaimed_example :
    BusyIsClaimed (complete_task (env accepted) 4 10 completion none after_claim).1.db
complete_task-BusyIsClaimed_example =
    complete_task-BusyIsClaimed (env accepted) (env-IsSteady accepted) 4 10
      (env-IsApart accepted 4 10) none after_claim claim_task-BusyIsClaimed_lem completion
  where
    claim_task-BusyIsClaimed_lem : BusyIsClaimed after_claim.db
    claim_task-BusyIsClaimed_lem =
        claim_task-BusyIsClaimed (env accepted) (env-IsSteady accepted) 4 10
          (env-IsApart accepted 4 10) none (world (task ∷ [])) world-BusyIsClaimed claim

claim_task_granted_example :
    (s : Station) × (t : KdsStationTask) × Free 4 10 (world (task ∷ [])).db s t
    × (claimed_task ≡ claimed_row claim (or_else claim.claimed_at (aware 9)) t)
    × (Client.start_task accepted ≡ none)
claim_task_granted_example =
    claim_task_granted (env accepted) 4 10 claim none (world (task ∷ [])) claimed_task claim_run

task-Free : Free 4 10 (world (task ∷ [])).db station task
unfolding get_station get_by_task_id find
task-Free = record {
  station_found = refl;
  task_found = refl;
  on_station = refl;
  is_available = refl;
  is_displayed = refl;
  has_room = omega arith;
}

deliver_task-deliver_task_example :
    let w' = (deliver_task (env accepted) 4 delivery none (world (task ∷ []))).1 in
    deliver_task (env accepted) 4 delivery none w'
    ≡ (ok (new_task 6 (aware 9) 4 delivery, false), w')
deliver_task-deliver_task_example =
    deliver_task-deliver_task (env accepted) (env accepted) 4 4 delivery delivery none none
      (world (task ∷ [])) (new_task 6 (aware 9) 4 delivery) true deliver_run refl

deliver_task_within_limit_example :
    (s : Station) × (get_station 4 (world (task ∷ [])).db ≡ some s)
    × (validate_delivery_station s delivery ≡ none)
    × (visible_backlog_size 4 (deliver_task (env accepted) 4 delivery none (world (task ∷ []))).1.db
        ≤ s.visible_backlog_limit)
deliver_task_within_limit_example =
    deliver_task_within_limit (env accepted) 4 delivery none (world (task ∷ []))
      (new_task 6 (aware 9) 4 delivery) (λ v. omega arith) deliver_run

is_candidate_iff_delivered_example :
    (is_candidate 7 grill station (visible_backlog_size 4 (world (task ∷ [])).db) ≡ true) ↔ (
      (deliver_task (env accepted) 4 delivery none (world (task ∷ []))).0
      ≡ ok (new_task 6 (aware 9) 4 delivery, true))
unfolding get_station get_by_idempotency_key get_by_task_id find find_by_key
is_candidate_iff_delivered_example =
    is_candidate_iff_delivered (env accepted) 4 delivery none (world (task ∷ [])) station
      (λ v. refl) (λ v. refl) refl refl refl

-- The session shows the stations that it loaded.
abbrev stale_env : Env
stale_env = record (env accepted) { seen_station = λ instance row. instance }

-- The row of the station has two more busy slots than the session has loaded.
abbrev busier_world : World
busier_world = record {
  db = record {
    kitchens = [];
    stations = record station { busy_slots = 3 } ∷ [];
    tasks = claimed_task ∷ [];
  };
  metrics = [];
  events = [];
}

stale_run :
    (complete_commit stale_env 4 10 completion none (claimed_task, occupied station) busier_world).0
    ≡ ok (completed_row (aware 9) claimed_task)
unfolding complete_commit get_station get_by_task_id find validate_complete released
    visible_backlog_size
stale_run = refl

complete_commit_stale_example :
    (row : Station) × (get_station 4 busier_world.db ≡ some row)
    × (get_station 4
          (complete_commit stale_env 4 10 completion none
            (claimed_task, occupied station)
            busier_world).1.db
        ≡ some (record row { busy_slots = (occupied station).busy_slots - 1 }))
complete_commit_stale_example =
    complete_commit_stale stale_env 4 10 completion none claimed_task (occupied station)
      busier_world (completed_row (aware 9) claimed_task) (λ row. refl) (omega arith) stale_run
