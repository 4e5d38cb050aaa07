-- ===== src/Fulfillment/Tests.antt =====
-- The theorems about the fulfillment service at concrete orders, and runs of its handlers.
use dark_kitchen_simulator.Prelude.{
  ℕ, ◌+◌, ◌-◌, ◌/◌, ◌≤◌, ◌≡◌, ◌↔◌, refl, true, false, Option, some, List, [], ◌∷◌, find, save,
  count, map,
}
use dark_kitchen_simulator.Prelude.Exec.{ok}
use dark_kitchen_simulator.Prelude.Time.{aware}
use dark_kitchen_simulator.Fulfillment.Domain.{
  OrderStatus, TaskStatus, can_transition, is_dispatchable,
}
use dark_kitchen_simulator.Fulfillment.Models.{OrderItem, KitchenTask}
use dark_kitchen_simulator.Fulfillment.Schemas.{
  MarkDisplayedResponse, StartTaskResponse, CompleteTaskResponse, RecipeSnapshot,
  DispatchReadinessResponse,
}
use dark_kitchen_simulator.Fulfillment.Repositories.{
  get_order, get_task, save_task, save_order, is_unfinished, insert_sorted, unfinished_rows,
  unfinished_dependencies, all_order_tasks_done, completed_order_tasks_count,
}
use dark_kitchen_simulator.Fulfillment.Transitions.{
  mark_displayed, start_task, complete_task, dispatch_readiness,
}
use dark_kitchen_simulator.Fulfillment.Responses.{readiness}
use dark_kitchen_simulator.Fulfillment.Transitions.Requests.{
  Request, mark_displayed_request, start_request, complete_request, displayed_reply, handle, serve,
}
use dark_kitchen_simulator.Fulfillment.Transitions.Effects.{Loaded}
use dark_kitchen_simulator.Fulfillment.Transitions.Lifecycle.{Moves, status_of, handle-Moves}
use dark_kitchen_simulator.Fulfillment.Transitions.Replay.{handle-handle}
use dark_kitchen_simulator.Fulfillment.Transitions.Ready.{ReadyIsDone, serve-ReadyIsDone}
use dark_kitchen_simulator.Fulfillment.Transitions.Timing.{delay_of_completed}
use dark_kitchen_simulator.Fulfillment.Transitions.Dispatch.{Satisfied, dispatch_readiness_iff}
use dark_kitchen_simulator.Fulfillment.Builder.{
  BuiltTasks, build, build_units, build_unit, new_task, link, sort_steps, insert_step,
}
use dark_kitchen_simulator.Fulfillment.Builder.Chains.{Numbered}
use dark_kitchen_simulator.Fulfillment.Builder.Steps.{work_of, all_work, all_chains, build_lem}
use dark_kitchen_simulator.Fulfillment.Samples.{
  order, queued, displayed, cooking, waiting, world, display, start, finish,
}

abbrev displayed_answer : MarkDisplayedResponse
displayed_answer = record {
  task_id = 10;
  status = TaskStatus.displayed;
  station_id = some 4;
  kds_task_id = some 5;
  displayed_at = some (aware 1000000);
}

abbrev started_answer : StartTaskResponse
started_answer = record {
  task_id = 10;
  status = TaskStatus.in_progress;
  station_id = some 4;
  kds_task_id = some 5;
  started_at = some (aware 2000000);
  sla_deadline_at = some (aware 62000000);
}

abbrev completed_answer : CompleteTaskResponse
completed_answer = record {
  task_id = 10;
  status = TaskStatus.done;
  station_id = some 4;
  kds_task_id = some 5;
  started_at = some (aware 2000000);
  completed_at = some (aware 72500000);
  actual_duration_seconds = some 70;
  delay_seconds = some 10;
}

displayed_run :
    (handle (mark_displayed_request 10 display) (world queued [])).0
    ≡ ok (displayed_reply displayed_answer)
unfolding handle mark_displayed get_task get_order find can_transition
displayed_run = refl

started_run : (start_task 10 start (world displayed [])).0 ≡ ok started_answer
unfolding start_task get_task get_order find can_transition
started_run = refl

completed_run :
    (complete_task 10 finish (start_task 10 start (world displayed [])).1).0 ≡ ok completed_answer
unfolding start_task complete_task get_task get_order save_task save_order find save can_transition
    all_order_tasks_done completed_order_tasks_count count
completed_run = refl

finished_run : (complete_task 10 finish (world cooking [])).0 ≡ ok completed_answer
unfolding complete_task get_task get_order save_task save_order find save can_transition
    all_order_tasks_done completed_order_tasks_count count
finished_run = refl

handle-Moves_example :
    Moves
      (status_of 10 (world queued []))
      (status_of 10 (handle (mark_displayed_request 10 display) (world queued [])).1)
handle-Moves_example = handle-Moves (mark_displayed_request 10 display) (world queued []) 10

done_is_final : (d : TaskStatus) → can_transition TaskStatus.done d ≡ false
unfolding can_transition
done_is_final TaskStatus.created = refl
done_is_final _ = refl

handle-handle_example :
    handle
      (mark_displayed_request 10 display)
      (handle (mark_displayed_request 10 display) (world queued [])).1
    ≡ handle (mark_displayed_request 10 display) (world queued [])
handle-handle_example =
    handle-handle (mark_displayed_request 10 display) (world queued [])
      (displayed_reply displayed_answer) displayed_run

abbrev requests : List Request
requests =
    mark_displayed_request 10 display ∷ start_request 10 start ∷ complete_request 10 finish ∷ []

serve-ReadyIsDone_example : ReadyIsDone (serve requests (world queued (waiting ∷ []))).db
serve-ReadyIsDone_example = serve-ReadyIsDone requests (world queued (waiting ∷ [])) (λ e. cc, tt)

-- The order of the example is ready after it.
ready_run :
    get_order 1 (complete_task 10 finish (world cooking [])).1.db
    ≡ some (record order { status = OrderStatus.ready_for_pickup })
unfolding complete_task get_task get_order save_task save_order find save can_transition
    all_order_tasks_done completed_order_tasks_count count
ready_run = refl

displayed-Loaded : Loaded 10 (world displayed []) displayed order
unfolding get_task get_order find
displayed-Loaded = record { task_found = refl; order_found = refl }

delay_of_completed_example :
    (2000000 ≤ 72500000)
    × (completed_answer.actual_duration_seconds ≡ some ((72500000 - 2000000) / 1000000))
    × (completed_answer.delay_seconds ≡ some ((72500000 - 2000000) / 1000000 - 60))
delay_of_completed_example =
    delay_of_completed 10 (world displayed []) displayed order start started_answer finish
      completed_answer displayed-Loaded refl started_run completed_run

abbrev not_ready : DispatchReadinessResponse
not_ready = readiness 11 (10 ∷ [])

dispatch_readiness_iff_example :
    ((false ≡ true) ↔ (
      (is_dispatchable TaskStatus.queued ≡ true) × Satisfied 11 (world queued (waiting ∷ [])).db))
    × ((dispatch_readiness 11 (world queued (waiting ∷ []))).1 ≡ world queued (waiting ∷ []))
unfolding dispatch_readiness get_task find unfinished_dependencies unfinished_rows is_unfinished
    insert_sorted
dispatch_readiness_iff_example =
    dispatch_readiness_iff 11 (world queued (waiting ∷ [])) waiting not_ready refl refl

-- Two burgers of two steps, given out of order.
abbrev recipes : ℕ → Option RecipeSnapshot
recipes _ = some (record {
  menu_item_id = 3;
  steps =
      record {
        station_type = "packaging";
        operation = "box";
        duration_seconds = 30;
        step_order = 2;
      }
      ∷ record { station_type = "grill"; operation = "sear"; duration_seconds = 60; step_order = 1 }
      ∷ [];
})

abbrev items : List OrderItem
items = record { id = 2; order_id = 1; menu_item_id = 3; quantity = 2 } ∷ []

abbrev count_up : ℕ → ℕ
count_up n = n + 100

abbrev burger : ℕ → ℕ → KitchenTask
burger id unit = record queued {
  id = id;
  status = TaskStatus.created;
  attempts = 0;
  item_unit_index = unit;
}

abbrev boxed : ℕ → ℕ → KitchenTask
boxed id unit = record (burger id unit) {
  station_type = "packaging";
  operation = "box";
  estimated_duration_seconds = 30;
  recipe_step_order = 2;
}

abbrev burgers : BuiltTasks
burgers = record {
  tasks = burger 100 1 ∷ boxed 101 1 ∷ burger 102 2 ∷ boxed 103 2 ∷ [];
  dependencies =
      record { task_id = 101; depends_on_task_id = 100 }
      ∷ record { task_id = 103; depends_on_task_id = 102 }
      ∷ [];
}

burgers_run : build count_up (aware 0) 1 recipes 0 items ≡ some burgers
unfolding build build_units build_unit new_task link sort_steps insert_step
burgers_run = refl

build_lem_example :
    Numbered count_up (aware 0) 1 0 burgers.tasks
    × (map work_of burgers.tasks ≡ all_work recipes items)
    × (burgers.dependencies ≡ all_chains count_up recipes 0 items)
build_lem_example = build_lem count_up (aware 0) 1 recipes 0 items burgers burgers_run
