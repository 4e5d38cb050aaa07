-- ===== src/Fulfillment/Responses.antt =====
-- services/fulfillment-service/app/services.py, class TaskTransitionService: the responses, with their
-- times in UTC.
use dark_kitchen_simulator.Prelude.{ℕ, ◌∷◌, [], List, true, false, Option, none, some}
use dark_kitchen_simulator.Prelude.Time.{Datetime, to_utc}
use dark_kitchen_simulator.Fulfillment.Models.{Order, KitchenTask}
use dark_kitchen_simulator.Fulfillment.Schemas.{
  TaskSnapshotResponse, DispatchReadinessResponse, MarkDisplayedResponse, StartTaskResponse,
  CompleteTaskResponse, waiting_for_dependencies,
}

abbrev pub as_utc : Option Datetime → Option Datetime
as_utc none = none
as_utc (some value) = some (to_utc value)

abbrev pub snapshot : KitchenTask → Order → TaskSnapshotResponse
snapshot task order = record {
  task_id = task.id;
  order_id = task.order_id;
  kitchen_id = order.kitchen_id;
  menu_item_id = task.menu_item_id;
  station_type = task.station_type;
  station_id = task.station_id;
  kds_task_id = task.kds_task_id;
  operation = task.operation;
  status = task.status;
  estimated_duration_seconds = task.estimated_duration_seconds;
  pickup_deadline = as_utc order.pickup_deadline;
  attempts = task.attempts;
  displayed_at = as_utc task.displayed_at;
  started_at = as_utc task.started_at;
  sla_deadline_at = as_utc task.sla_deadline_at;
  completed_at = as_utc task.completed_at;
  actual_duration_seconds = task.actual_duration_seconds;
  delay_seconds = task.delay_seconds;
}

abbrev pub displayed_response : KitchenTask → MarkDisplayedResponse
displayed_response task = record {
  task_id = task.id;
  status = task.status;
  station_id = task.station_id;
  kds_task_id = task.kds_task_id;
  displayed_at = as_utc task.displayed_at;
}

abbrev pub start_response : KitchenTask → StartTaskResponse
start_response task = record {
  task_id = task.id;
  status = task.status;
  station_id = task.station_id;
  kds_task_id = task.kds_task_id;
  started_at = as_utc task.started_at;
  sla_deadline_at = as_utc task.sla_deadline_at;
}

abbrev pub complete_response : KitchenTask → CompleteTaskResponse
complete_response task = record {
  task_id = task.id;
  status = task.status;
  station_id = task.station_id;
  kds_task_id = task.kds_task_id;
  started_at = as_utc task.started_at;
  completed_at = as_utc task.completed_at;
  actual_duration_seconds = task.actual_duration_seconds;
  delay_seconds = task.delay_seconds;
}

abbrev pub readiness : ℕ → List ℕ → DispatchReadinessResponse
readiness task_id [] = record {
  task_id = task_id;
  ready_to_dispatch = true;
  waiting_for = [];
  reason = none;
}
readiness task_id (d ∷ ds) = record {
  task_id = task_id;
  ready_to_dispatch = false;
  waiting_for = d ∷ ds;
  reason = some waiting_for_dependencies;
}
