-- ===== src/Floor/Views.antt =====
-- What the client of services/station-simulator-service (app/kds_client) reads in the responses of
-- services/kitchen-service (app/api/routes.py and app/errors.py).
use dark_kitchen_simulator.Prelude.{ℕ, String, Option, none, some, List, map}
use dark_kitchen_simulator.Kitchen.Models.{
  KdsTaskStatus, Code, displayed, claimed, failed, removed, kitchen_not_found,
  kitchen_already_exists, station_already_exists, station_not_found, kds_task_not_found,
  station_not_available, station_kitchen_mismatch, station_type_mismatch,
  visible_backlog_limit_exceeded, kds_task_already_exists, kds_task_station_mismatch,
  task_already_claimed, task_not_displayed, station_capacity_exceeded, task_already_completed,
  task_not_claimed, task_claimed_by_another_worker, fulfillment_service_unavailable,
  fulfillment_start_rejected, fulfillment_complete_rejected,
}
use dark_kitchen_simulator.Kitchen.Routes.{
  Body, Response, tasks_read, claim_read, complete_read, detail, error_body, validation_errors,
}
use dark_kitchen_simulator.Kitchen.Routes.Schemas.{KdsStationTaskResponse}
use dark_kitchen_simulator.Simulator.Kds.{
  KdsTask, ClaimResponse, CompleteResponse, HttpReply, response,
}

-- The texts of ids: uuid.UUID of a text, the number that a task's text stands for, `str` of a UUID, and
-- the `str` of the list of errors of a 422.
pub record Texts : Type 0 where
  pub uuid : String → Option ℕ
  pub named : String → ℕ
  pub text_of : ℕ → String
  pub errors_text : String

-- The members of the kitchen's KdsTaskStatus, a StrEnum.
abbrev pub status_text : KdsTaskStatus → String
status_text displayed = "displayed"
status_text claimed = "claimed"
status_text KdsTaskStatus.completed = "completed"
status_text failed = "failed"
status_text removed = "removed"

abbrev pub code_text : Code → String
code_text kitchen_not_found = "kitchen_not_found"
code_text kitchen_already_exists = "kitchen_already_exists"
code_text station_already_exists = "station_already_exists"
code_text station_not_found = "station_not_found"
code_text kds_task_not_found = "kds_task_not_found"
code_text station_not_available = "station_not_available"
code_text station_kitchen_mismatch = "station_kitchen_mismatch"
code_text station_type_mismatch = "station_type_mismatch"
code_text visible_backlog_limit_exceeded = "visible_backlog_limit_exceeded"
code_text kds_task_already_exists = "kds_task_already_exists"
code_text kds_task_station_mismatch = "kds_task_station_mismatch"
code_text task_already_claimed = "task_already_claimed"
code_text task_not_displayed = "task_not_displayed"
code_text station_capacity_exceeded = "station_capacity_exceeded"
code_text task_already_completed = "task_already_completed"
code_text task_not_claimed = "task_not_claimed"
code_text task_claimed_by_another_worker = "task_claimed_by_another_worker"
code_text fulfillment_service_unavailable = "fulfillment_service_unavailable"
code_text fulfillment_start_rejected = "fulfillment_start_rejected"
code_text fulfillment_complete_rejected = "fulfillment_complete_rejected"

-- `_error_reason`: the field `error`, else `detail`; the text of a 500 is no JSON. It is read of error
-- responses only.
abbrev pub error_reason : Texts → Body → String
error_reason texts (error_body code) = code_text code
error_reason texts (detail code) = code_text code
error_reason texts validation_errors = texts.errors_text
error_reason texts _ = "http_500"

abbrev pub seen_task : KdsStationTaskResponse → KdsTask
seen_task t = record {
  kds_task_id = t.kds_task_id;
  task_id = t.task_id;
  order_id = t.order_id;
  station_id = t.station_id;
  operation = t.operation;
  menu_item_name = t.menu_item_name;
  status = status_text t.status;
  estimated_duration_seconds = t.estimated_duration_seconds;
  pickup_deadline = t.pickup_deadline;
  displayed_at = t.displayed_at;
}

-- `model_validate` of the body.
abbrev pub tasks_of : Body → Option (List KdsTask)
tasks_of (tasks_read ts) = some (map seen_task ts)
tasks_of _ = none

abbrev pub claim_of : Body → Option ClaimResponse
claim_of (claim_read r) = some (record {
  kds_task_id = r.kds_task_id;
  task_id = r.task_id;
  station_id = r.station_id;
  status = status_text r.status;
  claimed_by = r.claimed_by;
  claimed_at = r.claimed_at;
})
claim_of _ = none

abbrev pub completion_of : Body → Option CompleteResponse
completion_of (complete_read r) = some (record {
  kds_task_id = r.kds_task_id;
  task_id = r.task_id;
  station_id = r.station_id;
  status = status_text r.status;
  claimed_by = r.claimed_by;
  completed_at = r.completed_at;
})
completion_of _ = none

-- The reply of httpx, with what the client reads in it.
abbrev pub seen : {A : Type 0} → Texts → (Body → Option A) → Response → HttpReply A
seen texts read r = response r.status (error_reason texts r.body) (read r.body)
