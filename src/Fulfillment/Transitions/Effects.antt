-- ===== src/Fulfillment/Transitions/Effects.antt =====
-- About the answers of class TaskTransitionService, services/fulfillment-service/app/services.py, to the
-- requests that it accepts, and the states that it leaves.
use dark_kitchen_simulator.Prelude.{ℕ, ◌≡◌, ◌≢◌, true, false, some, none, arith, ◌∷◌, List, Bool}
use dark_kitchen_simulator.Prelude.Exec.{ok}
use dark_kitchen_simulator.Prelude.Time.{Datetime, to_utc, is_before, seconds_since}
use dark_kitchen_simulator.Fulfillment.Domain.{
  OrderStatus, is_displayed, is_in_progress, is_done, is_failed,
}
use dark_kitchen_simulator.Fulfillment.Models.{
  Order, KitchenTask, World, tasks_displayed_total, tasks_started_total, Metric,
  tasks_completed_total, tasks_failed_total, task_actual_duration_seconds, task_delay_seconds,
  orders_ready_total, task_displayed, task_started, task_completed, task_dispatch_failed,
  order_ready_for_pickup,
}
use dark_kitchen_simulator.Fulfillment.Schemas.{
  MarkDisplayedRequest, StartTaskRequest, CompleteTaskRequest, DispatchFailedRequest,
  MarkDisplayedResponse, StartTaskResponse, CompleteTaskResponse, TaskSnapshotResponse,
}
use dark_kitchen_simulator.Fulfillment.Repositories.{
  get_task, get_order, save_task, save_order, all_order_tasks_done, completed_order_tasks_count,
}
use dark_kitchen_simulator.Fulfillment.Transitions.{
  mark_displayed, start_task, complete_task, dispatch_failed, same_id, displayed_row, started_row,
  completed_row, failed_row, delay,
}
use dark_kitchen_simulator.Fulfillment.Responses.{
  as_utc, displayed_response, start_response, complete_response, snapshot,
}

-- The task and the order that a request meets.
pub record Loaded (id : ℕ) (w : World) (task : KitchenTask) (order : Order) : Type 0 where
  pub task_found : get_task id w.db ≡ some task
  pub order_found : get_order task.order_id w.db ≡ some order

-- The states that accepted requests leave.
abbrev pub displayed_world : MarkDisplayedRequest → KitchenTask → Order → World → World
displayed_world p task order w = record {
  db = save_task (displayed_row p task) w.db;
  messages = w.messages;
  metrics = tasks_displayed_total order.kitchen_id task.station_type ∷ w.metrics;
  events = task_displayed (displayed_row p task) p.dispatcher_id ∷ w.events;
}

abbrev pub started_world : StartTaskRequest → KitchenTask → Order → World → World
started_world p task order w = record {
  db =
      save_order (record order { status = OrderStatus.cooking })
        (save_task (started_row p task) w.db);
  messages = w.messages;
  metrics = tasks_started_total order.kitchen_id task.station_type ∷ w.metrics;
  events = task_started (started_row p task) p.station_worker_id ∷ w.events;
}

abbrev pub completed_metrics : Datetime → Datetime → KitchenTask → Order → List Metric → List Metric
completed_metrics s c task order ms =
    task_delay_seconds order.kitchen_id task.station_type (delay (as_utc task.sla_deadline_at) c)
    ∷ task_actual_duration_seconds order.kitchen_id task.station_type (seconds_since c s)
    ∷ tasks_completed_total order.kitchen_id task.station_type
    ∷ ms

-- `ready` tells whether the order has no other task left.
abbrev pub completed_world :
    Bool → ℕ → CompleteTaskRequest → Datetime → KitchenTask → Order → World → World
completed_world true n p s task order w =
    let c = to_utc p.completed_at in
    let row = completed_row s c task in
    let order' = record order { status = OrderStatus.ready_for_pickup } in
    record {
      db = save_order order' (save_task row w.db);
      messages = w.messages;
      metrics = orders_ready_total order.kitchen_id ∷ completed_metrics s c task order w.metrics;
      events = order_ready_for_pickup order' n ∷ task_completed row p.station_worker_id ∷ w.events;
    }
completed_world false n p s task order w =
    let c = to_utc p.completed_at in
    let row = completed_row s c task in
    record {
      db = save_task row w.db;
      messages = w.messages;
      metrics = completed_metrics s c task order w.metrics;
      events = task_completed row p.station_worker_id ∷ w.events;
    }

abbrev pub failed_world : DispatchFailedRequest → KitchenTask → Order → World → World
failed_world p task order w = record {
  db = save_task (failed_row p task) w.db;
  messages = w.messages;
  metrics = tasks_failed_total order.kitchen_id task.station_type ∷ w.metrics;
  events = task_dispatch_failed (failed_row p task) p.reason p.dispatcher_id ∷ w.events;
}

module _ (id : ℕ) (w : World) (task : KitchenTask) (order : Order)
    (l : Loaded id w task order) where
  pub mark_displayed_again :
      (p : MarkDisplayedRequest)
      → is_displayed task.status ≡ true
      → same_id task.station_id p.station_id ≡ true
      → same_id task.kds_task_id p.kds_task_id ≡ true
      → mark_displayed id p w ≡ (ok (displayed_response task), w)
  unfolding mark_displayed
  mark_displayed_again p a b c = ground arith

  pub start_again :
      (p : StartTaskRequest)
      → is_in_progress task.status ≡ true
      → same_id task.station_id p.station_id ≡ true
      → same_id task.kds_task_id p.kds_task_id ≡ true
      → start_task id p w ≡ (ok (start_response task), w)
  unfolding start_task
  start_again p a b c = ground arith

  pub complete_again :
      (p : CompleteTaskRequest)
      → is_done task.status ≡ true
      → same_id task.station_id p.station_id ≡ true
      → same_id task.kds_task_id p.kds_task_id ≡ true
      → complete_task id p w ≡ (ok (complete_response task), w)
  unfolding complete_task
  complete_again p a b c = ground arith

  pub dispatch_failed_again :
      (p : DispatchFailedRequest)
      → is_failed task.status ≡ true
      → dispatch_failed id p w ≡ (ok (snapshot task order), w)
  unfolding dispatch_failed
  dispatch_failed_again p a = ground arith

  pub mark_displayed_fresh :
      (p : MarkDisplayedRequest) (x : MarkDisplayedResponse)
      → is_displayed task.status ≡ false
      → (mark_displayed id p w).0 ≡ ok x
      → mark_displayed id p w
        ≡ (ok (displayed_response (displayed_row p task)), displayed_world p task order w)
  unfolding mark_displayed
  mark_displayed_fresh p x a h = ground arith

  -- An accepted request names the station and the KDS task of the row.
  pub displayed_ids :
      (p : MarkDisplayedRequest) (x : MarkDisplayedResponse)
      → is_displayed task.status ≡ true
      → (mark_displayed id p w).0 ≡ ok x
      → (same_id task.station_id p.station_id ≡ true)
        × (same_id task.kds_task_id p.kds_task_id ≡ true)
  unfolding mark_displayed
  displayed_ids p x a h = ground arith

  pub start_ids :
      (p : StartTaskRequest) (x : StartTaskResponse)
      → (start_task id p w).0 ≡ ok x
      → (same_id task.station_id p.station_id ≡ true)
        × (same_id task.kds_task_id p.kds_task_id ≡ true)
  unfolding start_task
  start_ids p x h = ground arith

  pub start_fresh :
      (p : StartTaskRequest) (x : StartTaskResponse)
      → is_in_progress task.status ≡ false
      → (start_task id p w).0 ≡ ok x
      → start_task id p w ≡ (ok (start_response (started_row p task)), started_world p task order w)
  unfolding start_task
  start_fresh p x a h = ground arith

  pub complete_ids :
      (p : CompleteTaskRequest) (x : CompleteTaskResponse)
      → (complete_task id p w).0 ≡ ok x
      → (same_id task.station_id p.station_id ≡ true)
        × (same_id task.kds_task_id p.kds_task_id ≡ true)
  unfolding complete_task
  complete_ids p x h = ground arith

  -- A task that never started is not completed.
  pub complete_started :
      (p : CompleteTaskRequest) (x : CompleteTaskResponse)
      → is_done task.status ≡ false
      → (complete_task id p w).0 ≡ ok x
      → as_utc task.started_at ≢ none
  unfolding complete_task
  complete_started p x a h e = ground arith

  pub complete_in_order :
      (p : CompleteTaskRequest) (x : CompleteTaskResponse) (s : Datetime)
      → as_utc task.started_at ≡ some s
      → is_done task.status ≡ false
      → (complete_task id p w).0 ≡ ok x
      → is_before (to_utc p.completed_at) s ≡ false
  unfolding complete_task
  complete_in_order p x s e a h = ground arith

  pub complete_fresh :
      (p : CompleteTaskRequest) (x : CompleteTaskResponse) (s : Datetime)
      → as_utc task.started_at ≡ some s
      → is_done task.status ≡ false
      → (complete_task id p w).0 ≡ ok x
      → let row = completed_row s (to_utc p.completed_at) task in
        let db' = save_task row w.db in
        complete_task id p w ≡ (
          ok (complete_response row),
          completed_world
              (all_order_tasks_done task.order_id db')
              (completed_order_tasks_count task.order_id db')
              p
              s
              task
              order
              w,
        )
  unfolding complete_task
  complete_fresh p x s e a h = ground arith

  pub dispatch_failed_fresh :
      (p : DispatchFailedRequest) (x : TaskSnapshotResponse)
      → is_failed task.status ≡ false
      → (dispatch_failed id p w).0 ≡ ok x
      → dispatch_failed id p w
        ≡ (ok (snapshot (failed_row p task) order), failed_world p task order w)
  unfolding dispatch_failed
  dispatch_failed_fresh p x a h = ground arith
