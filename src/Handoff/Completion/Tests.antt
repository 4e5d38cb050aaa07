-- ===== src/Handoff/Completion/Tests.antt =====
-- The theorems about a completion across the services at concrete states, and its run.
use dark_kitchen_simulator.Prelude.{◌≡◌, refl, none, some, [], ◌∷◌, ◌≢◌, find, save, count}
use dark_kitchen_simulator.Prelude.Exec.{ok, err}
use dark_kitchen_simulator.Prelude.Time.{aware}
use dark_kitchen_simulator.Fulfillment.Domain.{can_transition}
use dark_kitchen_simulator.Fulfillment.Models as Orders
use dark_kitchen_simulator.Fulfillment.Repositories.{
  get_task, get_order, save_task, all_order_tasks_done,
}
use dark_kitchen_simulator.Fulfillment.Schemas.{CompleteTaskResponse}
use dark_kitchen_simulator.Fulfillment.Transitions as Service
use dark_kitchen_simulator.Fulfillment.Responses.{complete_response}
use dark_kitchen_simulator.Fulfillment.Samples as Order
use dark_kitchen_simulator.Kitchen.Models.{
  Station, KdsStationTask, KdsTaskCompleteRequest, KdsTaskStatus, World, domain,
  fulfillment_service_unavailable,
}
use dark_kitchen_simulator.Kitchen.Client
use dark_kitchen_simulator.Kitchen.Samples.{
  station, world, env, env-IsSteady, accepted, completion, claimed_task,
}
use dark_kitchen_simulator.Kitchen.Repositories.{get_station, get_by_task_id}
use dark_kitchen_simulator.Kitchen.Rules.{completed_row, released, validate_complete}
use dark_kitchen_simulator.Kitchen.Kds.{
  complete_begin, complete_finish, complete_commit, complete_task,
}
use dark_kitchen_simulator.Handoff.{answers, loses_reply, loses_request}
use dark_kitchen_simulator.Handoff.Completion.{complete_body, complete_across}
use dark_kitchen_simulator.Handoff.Completion.Calls.{DoneAt}
use dark_kitchen_simulator.Kitchen.Kds.Held.{Held}
use dark_kitchen_simulator.Handoff.Completion.Agreement.{
  complete_across_agrees, complete_across_atomic, complete_across_recovers,
}

abbrev busy : Station
busy = record station { busy_slots = 1 }

abbrev kitchen : World
kitchen = record (world []) {
  db = record { kitchens = []; stations = busy ∷ []; tasks = claimed_task ∷ [] };
}

-- The task has been cooking since the microsecond 2000000.
abbrev orders : Orders.World
orders = Order.world Order.cooking []

-- The completion names its time, after the start.
abbrev finished : KdsTaskCompleteRequest
finished = record completion { completed_at = some (aware 62000000) }

abbrev completed_task : KdsStationTask
completed_task = completed_row (aware 62000000) claimed_task

across_run :
    (complete_across answers (env accepted) 4 10 finished none (kitchen, orders)).0
    ≡ ok completed_task
unfolding complete_across complete_task complete_begin complete_finish complete_commit get_station
    find get_by_task_id validate_complete Client.complete_task Client.post_transition
    Service.complete_task get_task get_order can_transition released all_order_tasks_done count
    save_task save
across_run = refl

complete_across_agrees_example :
    let (r, w', f') = complete_across answers (env accepted) 4 10 finished none (kitchen, orders) in
    (s : Station) × (t : KdsStationTask) × Held 4 10 "w" kitchen.db s t
    × (completed_task.status ≡ KdsTaskStatus.completed)
    × (get_by_task_id 10 w'.db ≡ some completed_task)
    × DoneAt 10 4 t.id f'
complete_across_agrees_example =
    complete_across_agrees answers (env accepted) 4 10 finished none kitchen orders completed_task
      across_run

unavailable_run :
    (complete_across loses_request (env accepted) 4 10 finished none (kitchen, orders)).0
    ≡ err (domain fulfillment_service_unavailable 503)
unfolding complete_across complete_task complete_begin complete_finish get_station find
    get_by_task_id validate_complete Client.complete_task Client.post_transition
unavailable_run = refl

not_lost : loses_request ≢ loses_reply
not_lost e = cc

complete_across_atomic_example :
    ((complete_across loses_request (env accepted) 4 10 finished none (kitchen, orders)).1.db
      ≡ kitchen.db)
    × ((complete_across loses_request (env accepted) 4 10 finished none (kitchen, orders)).2
        ≡ orders)
complete_across_atomic_example =
    complete_across_atomic loses_request (env accepted) 4 10 finished none kitchen orders
      (domain fulfillment_service_unavailable 503) not_lost (env-IsSteady accepted) (λ v. refl)
      unavailable_run

task-Held : Held 4 10 "w" kitchen.db busy claimed_task
unfolding get_station get_by_task_id find
task-Held = record {
  station_found = refl;
  task_found = refl;
  on_station = refl;
  is_claimed = refl;
  by_worker = refl;
}

abbrev done : CompleteTaskResponse
done = complete_response (Service.completed_row (aware 2000000) (aware 62000000) Order.cooking)

complete_run :
    (Service.complete_task 10 (complete_body (env accepted) finished claimed_task busy) orders).0
    ≡ ok done
unfolding Service.complete_task get_task get_order find can_transition all_order_tasks_done count
    save_task save
complete_run = refl

complete_across_recovers_example :
    let (r, w', f') =
      complete_across loses_reply (env accepted) 4 10 finished none (kitchen, orders) in
    let (r', w'', f'') = complete_across answers (env accepted) 4 10 finished none (w', f') in
    (r ≡ err (domain fulfillment_service_unavailable 503))
    × (w'.db ≡ kitchen.db)
    × DoneAt 10 4 5 f'
    × (r' ≡ ok completed_task)
    × (f'' ≡ f')
complete_across_recovers_example =
    complete_across_recovers (env accepted) (env accepted) 4 10 finished finished none none kitchen
      orders busy claimed_task done (env-IsSteady accepted) (λ v. refl) (λ v. refl) (λ v. refl) refl
      task-Held complete_run
