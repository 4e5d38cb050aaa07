-- ===== src/Fulfillment/Transitions.antt =====
-- services/fulfillment-service/app/services.py, class TaskTransitionService. A request runs alone on the
-- database: of two completions of the same order at once, each would not see the other's task done, since
-- the code locks the row of its own task only; that race is not modelled.
pub mod Requests
pub mod Effects
pub mod Writes
pub mod Atomic
pub mod Lifecycle
pub mod Replay
pub mod Timing
pub mod Ready
pub mod Dispatch
use dark_kitchen_simulator.Prelude.{
  ℕ, ◌∷◌, [], List, Bool, true, false, not, Option, none, some, ◌==◌, ltb, if◌then◌else◌,
}
use dark_kitchen_simulator.Prelude.Exec.{
  Exec, pure, raise, gets, modify, raise_if, or_raise, ◌>>=◌, ◌>>◌,
}
use dark_kitchen_simulator.Prelude.Time.{Datetime, to_utc, add_seconds, is_before, seconds_since}
use dark_kitchen_simulator.Fulfillment.Domain.{
  OrderStatus, TaskStatus, can_transition, is_displayed, is_in_progress, is_done, is_failed,
  is_dispatchable, Error,
}
use dark_kitchen_simulator.Fulfillment.Models.{
  Order, KitchenTask, Metric, Event, World, tasks_displayed_total, tasks_started_total,
  tasks_completed_total, tasks_failed_total, task_actual_duration_seconds, task_delay_seconds,
  orders_ready_total, task_displayed, task_started, task_completed, task_dispatch_failed,
  order_ready_for_pickup,
}
use dark_kitchen_simulator.Fulfillment.Schemas.{
  TaskSnapshotResponse, DispatchReadinessResponse, Reason, MarkDisplayedRequest,
  MarkDisplayedResponse, StartTaskRequest, StartTaskResponse, CompleteTaskRequest,
  CompleteTaskResponse, DispatchFailedRequest, task_status_not_dispatchable,
  waiting_for_dependencies,
}
use dark_kitchen_simulator.Fulfillment.Repositories.{
  get_order, get_task, save_task, save_order, unfinished_dependencies, all_order_tasks_done,
  completed_order_tasks_count,
}
use dark_kitchen_simulator.Fulfillment.Responses.{
  as_utc, snapshot, displayed_response, start_response, complete_response, readiness,
}
use dark_kitchen_simulator.Fulfillment.Session.{
  Handler, write_task, write_order, observe, safe_event_write, get_task_for_transition, order_of,
}

abbrev pub same_id : Option ℕ → ℕ → Bool
same_id none k = false
same_id (some j) k = j == k

-- `_validate_same_station_and_kds`, with the error of each of its two tests: the error type that
-- the caller passes stands for both.
abbrev pub validate_same_station_and_kds : KitchenTask → ℕ → ℕ → Error → Error → Handler (Unit {0})
validate_same_station_and_kds task station_id kds_task_id wrong_station wrong_kds_task = do
  raise_if (not (same_id task.station_id station_id)) wrong_station
  raise_if (not (same_id task.kds_task_id kds_task_id)) wrong_kds_task

abbrev pub require_transition : TaskStatus → TaskStatus → Handler (Unit {0})
require_transition current target =
    raise_if (not (can_transition current target))
      (Error.invalid_task_status_transition current target)

unfoldable pub get_snapshot : ℕ → Handler TaskSnapshotResponse
get_snapshot task_id = do
  task ← get_task_for_transition task_id
  order ← order_of task
  pure (snapshot task order)

unfoldable pub dispatch_readiness : ℕ → Handler DispatchReadinessResponse
dispatch_readiness task_id = do
  task ← get_task_for_transition task_id
  if is_dispatchable task.status
      then (do
        waiting_for ← gets (λ (w : World). unfinished_dependencies task.id w.db)
        pure (readiness task.id waiting_for))
      else pure (record {
        task_id = task.id;
        ready_to_dispatch = false;
        waiting_for = [];
        reason = some task_status_not_dispatchable;
      })

-- The row after `mark_displayed`.
abbrev pub displayed_row : MarkDisplayedRequest → KitchenTask → KitchenTask
displayed_row payload task = record task {
  station_id = some payload.station_id;
  kds_task_id = some payload.kds_task_id;
  displayed_at = some payload.displayed_at;
  status = TaskStatus.displayed;
}

unfoldable pub mark_displayed : ℕ → MarkDisplayedRequest → Handler MarkDisplayedResponse
mark_displayed task_id payload = do
  task ← get_task_for_transition task_id
  order ← order_of task
  if is_displayed task.status
      then (do
        validate_same_station_and_kds task payload.station_id payload.kds_task_id
            Error.task_already_displayed Error.task_already_displayed
        pure (displayed_response task))
      else (do
        require_transition task.status TaskStatus.displayed
        let row = displayed_row payload task
        write_task row
        observe (tasks_displayed_total order.kitchen_id task.station_type)
        safe_event_write (task_displayed row payload.dispatcher_id)
        pure (displayed_response row))

-- The row after `start_task`.
abbrev pub started_row : StartTaskRequest → KitchenTask → KitchenTask
started_row payload task = record task {
  started_at = some payload.started_at;
  sla_deadline_at = some (add_seconds payload.started_at task.estimated_duration_seconds);
  status = TaskStatus.in_progress;
}

unfoldable pub start_task : ℕ → StartTaskRequest → Handler StartTaskResponse
start_task task_id payload = do
  task ← get_task_for_transition task_id
  order ← order_of task
  if is_in_progress task.status
      then (do
        validate_same_station_and_kds task payload.station_id payload.kds_task_id
            Error.task_already_started Error.task_already_started
        pure (start_response task))
      else (do
        require_transition task.status TaskStatus.in_progress
        validate_same_station_and_kds task payload.station_id payload.kds_task_id
            Error.station_mismatch Error.kds_task_mismatch
        let row = started_row payload task
        write_task row
        write_order (record order { status = OrderStatus.cooking })
        observe (tasks_started_total order.kitchen_id task.station_type)
        safe_event_write (task_started row payload.station_worker_id)
        pure (start_response row))

-- `task.delay_seconds`
abbrev pub delay : Option Datetime → Datetime → ℕ
delay none completed_at = 0
delay (some sla_deadline_at) completed_at = seconds_since completed_at sla_deadline_at

-- The row after `complete_task`, from the two times in UTC.
abbrev pub completed_row : Datetime → Datetime → KitchenTask → KitchenTask
completed_row started_at completed_at task = record task {
  completed_at = some completed_at;
  actual_duration_seconds = some (seconds_since completed_at started_at);
  delay_seconds = some (delay (as_utc task.sla_deadline_at) completed_at);
  status = TaskStatus.done;
}

-- `started_at is None or completed_at < started_at` raises; else the start
abbrev pub checked_start : Option Datetime → Datetime → Handler Datetime
checked_start none completed_at = raise Error.invalid_completion_time
checked_start (some started_at) completed_at =
    raise_if (is_before completed_at started_at) Error.invalid_completion_time >> pure started_at

-- The order is ready when no task of it is left: its status, its metric and its event.
abbrev pub mark_order_ready : Bool → Order → Handler (Unit {0})
mark_order_ready order_ready order =
    if order_ready
    then write_order (record order { status = OrderStatus.ready_for_pickup })
    else pure tt

abbrev pub observe_ready : Bool → Order → Handler (Unit {0})
observe_ready order_ready order =
    if order_ready then observe (orders_ready_total order.kitchen_id) else pure tt

abbrev pub announce_ready : Bool → Order → ℕ → Handler (Unit {0})
announce_ready order_ready order completed_count =
    if order_ready
    then safe_event_write (
        order_ready_for_pickup (record order { status = OrderStatus.ready_for_pickup })
          completed_count)
    else pure tt

unfoldable pub complete_task : ℕ → CompleteTaskRequest → Handler CompleteTaskResponse
complete_task task_id payload = do
  task ← get_task_for_transition task_id
  order ← order_of task
  if is_done task.status
      then (do
        validate_same_station_and_kds task payload.station_id payload.kds_task_id
            Error.task_already_completed Error.task_already_completed
        pure (complete_response task))
      else (do
        require_transition task.status TaskStatus.done
        validate_same_station_and_kds task payload.station_id payload.kds_task_id
            Error.station_mismatch Error.kds_task_mismatch
        let completed_at = to_utc payload.completed_at
        started_at ← checked_start (as_utc task.started_at) completed_at
        let row = completed_row started_at completed_at task
        write_task row
        order_ready ← gets (λ (w : World). all_order_tasks_done task.order_id w.db)
        completed_count ← gets (λ (w : World). completed_order_tasks_count task.order_id w.db)
        mark_order_ready order_ready order
        observe (tasks_completed_total order.kitchen_id task.station_type)
        observe (
            task_actual_duration_seconds order.kitchen_id task.station_type
              (seconds_since completed_at started_at))
        observe (
            task_delay_seconds order.kitchen_id task.station_type
              (delay (as_utc task.sla_deadline_at) completed_at))
        observe_ready order_ready order
        safe_event_write (task_completed row payload.station_worker_id)
        announce_ready order_ready order completed_count
        pure (complete_response row))

-- `payload.attempts is not None and payload.attempts > task.attempts`
abbrev pub raised_attempts : Option ℕ → ℕ → ℕ
raised_attempts none attempts = attempts
raised_attempts (some n) attempts = if ltb attempts n then n else attempts

-- The row after `dispatch_failed`.
abbrev pub failed_row : DispatchFailedRequest → KitchenTask → KitchenTask
failed_row payload task = record task {
  attempts = raised_attempts payload.attempts task.attempts;
  status = TaskStatus.failed;
}

unfoldable pub dispatch_failed : ℕ → DispatchFailedRequest → Handler TaskSnapshotResponse
dispatch_failed task_id payload = do
  task ← get_task_for_transition task_id
  order ← order_of task
  if is_failed task.status then pure (snapshot task order) else (do
    require_transition task.status TaskStatus.failed
    let row = failed_row payload task
    write_task row
    observe (tasks_failed_total order.kitchen_id task.station_type)
    safe_event_write (task_dispatch_failed row payload.reason payload.dispatcher_id)
    pure (snapshot row order))
