-- ===== src/Kitchen/Rules.antt =====
-- services/kitchen-service/app/services.py, class KdsService: the validations of its requests, and the
-- rows that they write.
use dark_kitchen_simulator.Prelude.{
  ℕ, ◌+◌, ◌-◌, String, Bool, false, not, Option, none, some, ◌==◌, leb, str_eq, if◌then◌else◌,
}
use dark_kitchen_simulator.Prelude.Time.{Datetime}
use dark_kitchen_simulator.Kitchen.Models.{
  Station, KdsStationTask, KdsTaskStatus, KdsTaskDeliveryRequest, KdsTaskClaimRequest, Code,
  station_not_available, station_kitchen_mismatch, station_type_mismatch, kds_task_station_mismatch,
  task_already_claimed, task_not_displayed, station_capacity_exceeded, task_already_completed,
  task_not_claimed, task_claimed_by_another_worker, fulfillment_service_unavailable, displayed,
  claimed,
}
use dark_kitchen_simulator.Kitchen.Repositories.{
  same_type, is_available, is_displayed, is_claimed, is_completed,
}

abbrev pub same_worker : Option String → String → Bool
same_worker none worker = false
same_worker (some w) worker = str_eq w worker

-- The three validations: the code that is raised, if one is.
unfoldable pub validate_delivery_station : Station → KdsTaskDeliveryRequest → Option Code
validate_delivery_station station payload =
    if not (is_available station.status)
    then some station_not_available
    else if not (station.kitchen_id == payload.kitchen_id)
    then some station_kitchen_mismatch
    else if not (same_type station.station_type payload.station_type)
    then some station_type_mismatch
    else none

unfoldable pub validate_claim : Station → KdsStationTask → Option Code
validate_claim station task =
    if not (task.station_id == station.id)
    then some kds_task_station_mismatch
    else if not (is_available station.status)
    then some station_not_available
    else if is_claimed task.status
    then some task_already_claimed
    else if not (is_displayed task.status)
    then some task_not_displayed
    else if leb station.capacity station.busy_slots
    then some station_capacity_exceeded
    else none

unfoldable pub validate_complete : Station → KdsStationTask → String → Option Code
validate_complete station task worker =
    if not (task.station_id == station.id)
    then some kds_task_station_mismatch
    else if is_completed task.status
    then some task_already_completed
    else if not (is_claimed task.status)
    then some task_not_claimed
    else if not (same_worker task.claimed_by worker)
    then some task_claimed_by_another_worker
    else none

-- The rows that a claim writes.
abbrev pub claimed_row : KdsTaskClaimRequest → Datetime → KdsStationTask → KdsStationTask
claimed_row payload claimed_at task = record task {
  status = claimed;
  claimed_by = some payload.station_worker_id;
  claimed_at = some claimed_at;
}

abbrev pub occupied : Station → Station
occupied station = record station { busy_slots = station.busy_slots + 1 }

-- `station.busy_slots = max(0, station.busy_slots - 1)` on the instance that the session shows, as
-- the UPDATE of the row: an attribute that has not changed is not written.
unfoldable pub released : Station → Station → Station
released seen row =
    if seen.busy_slots - 1 == seen.busy_slots
    then row
    else record row { busy_slots = seen.busy_slots - 1 }

-- The row that a compensation writes.
abbrev pub unclaimed_row : KdsStationTask → KdsStationTask
unclaimed_row task = record task { status = displayed; claimed_by = none; claimed_at = none }

abbrev pub code_status : Code → ℕ
code_status fulfillment_service_unavailable = 503
code_status _ = 409

-- The row that a completion writes.
abbrev pub completed_row : Datetime → KdsStationTask → KdsStationTask
completed_row completed_at task = record task {
  status = KdsTaskStatus.completed;
  completed_at = some completed_at;
}
