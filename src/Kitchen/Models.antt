-- ===== src/Kitchen/Models.antt =====
-- services/kitchen-service/app/models.py and app/schemas.py: the rows, the requests, and the state
-- that a handler works on. A UUID is a number, and so is the text of one (the columns `task_id` and
-- `order_id`): both are only compared. `updated_at` is read by no code; it is left out.
use dark_kitchen_simulator.Prelude.{ℕ, String, Option, List}
use dark_kitchen_simulator.Prelude.Time.{Datetime}

pub data KitchenStatus : Type 0 where
  active inactive : KitchenStatus

pub data StationType : Type 0 where
  grill fryer packaging cold drinks assembly : StationType

pub data StationStatus : Type 0 where
  available unavailable maintenance : StationStatus

pub data KdsTaskStatus : Type 0 where
  displayed claimed completed failed removed : KdsTaskStatus

pub record Kitchen : Type 0 where
  pub id : ℕ
  pub name : String
  pub status : KitchenStatus
  pub created_at : Datetime

-- `capacity`, `busy_slots` and `visible_backlog_limit` are INTEGER columns: the writes of
-- Kitchen.Stations refuse what they cannot hold.
pub record Station : Type 0 where
  pub id : ℕ
  pub kitchen_id : ℕ
  pub name : String
  pub station_type : StationType
  pub status : StationStatus
  pub capacity : ℕ
  pub busy_slots : ℕ
  pub visible_backlog_limit : ℕ
  pub created_at : Datetime

pub record KdsStationTask : Type 0 where
  pub id : ℕ
  pub task_id : ℕ
  pub order_id : ℕ
  pub kitchen_id : ℕ
  pub station_id : ℕ
  pub station_type : StationType
  pub operation : String
  pub menu_item_name : Option String
  pub status : KdsTaskStatus
  pub estimated_duration_seconds : ℕ
  pub pickup_deadline : Option Datetime
  pub displayed_at : Datetime
  pub claimed_by : Option String
  pub claimed_at : Option Datetime
  pub completed_at : Option Datetime
  pub idempotency_key : String
  pub created_at : Datetime

pub record KitchenCreate : Type 0 where
  pub id : Option ℕ
  pub name : String

pub record StationCreate : Type 0 where
  pub id : Option ℕ
  pub name : String
  pub station_type : StationType
  pub capacity : ℕ
  pub visible_backlog_limit : ℕ

pub record KdsTaskDeliveryRequest : Type 0 where
  pub task_id : ℕ
  pub order_id : ℕ
  pub kitchen_id : ℕ
  pub station_type : StationType
  pub operation : String
  pub menu_item_name : Option String
  pub estimated_duration_seconds : ℕ
  pub pickup_deadline : Option Datetime
  pub idempotency_key : String

pub record KdsTaskClaimRequest : Type 0 where
  pub station_worker_id : String
  pub claimed_at : Option Datetime

pub record KdsTaskCompleteRequest : Type 0 where
  pub station_worker_id : String
  pub completed_at : Option Datetime

pub record DispatchCandidateResponse : Type 0 where
  pub station_id : ℕ
  pub station_type : StationType
  pub status : StationStatus
  pub capacity : ℕ
  pub busy_slots : ℕ
  pub visible_backlog_size : ℕ
  pub visible_backlog_limit : ℕ
  pub health : String

-- The tables of kitchens, of stations and of display tasks.
pub record Db : Type 0 where
  pub kitchens : List Kitchen
  pub stations : List Station
  pub tasks : List KdsStationTask

-- The codes of `NotFoundError`, `ConflictError` and `KdsDomainError`, and those of
-- `FulfillmentClientError`.
pub data Code : Type 0 where
  kitchen_not_found kitchen_already_exists station_already_exists : Code
  station_not_found kds_task_not_found : Code
  station_not_available station_kitchen_mismatch station_type_mismatch : Code
  visible_backlog_limit_exceeded kds_task_already_exists kds_task_station_mismatch : Code
  task_already_claimed task_not_displayed station_capacity_exceeded : Code
  task_already_completed task_not_claimed task_claimed_by_another_worker : Code
  fulfillment_service_unavailable fulfillment_start_rejected fulfillment_complete_rejected : Code

-- A `NotFoundError`, a `ConflictError`, a `KdsDomainError` with its status code; `integrity_error`
-- and `data_error`, a value that its column cannot hold, are the database's own.
pub data Error : Type 0 where
  not_found conflict : Code → Error
  domain : Code → ℕ → Error
  integrity_error data_error : Error

-- What app/metrics/business_metrics.py observes, with its labels.
pub data Metric : Type 0 where
  kds_claim_attempts_total kds_claim_success_total : ℕ → ℕ → StationType → Metric
  kds_claim_conflicts_total : ℕ → ℕ → StationType → Code → Metric
  station_gauges : Station → Option ℕ → Metric

pub data KdsEvent : Type 0 where
  kds_task_claimed kds_task_completed : Datetime → KdsEvent
  kds_task_claim_rejected : Code → KdsEvent

pub data SlotEvent : Type 0 where
  station_created station_capacity_changed station_status_changed : SlotEvent
  station_busy_slot_occupied : SlotEvent
  released_by_completion released_by_compensation : SlotEvent

pub data Call : Type 0 where
  start_call complete_call : Call

-- The documents that the event writer of app/events.py is asked to write.
pub data Event : Type 0 where
  task_displayed : KdsStationTask → Option String → Event
  kds_event : KdsEvent → KdsStationTask → String → Option String → Event
  station_event : SlotEvent → Station → Option String → Event
  audit_event : Call → Code → KdsStationTask → Station → Option String → Event

-- What a handler reads and changes: the tables, the metrics observed and the events written, both
-- with the latest first.
pub record World : Type 0 where
  pub db : Db
  pub metrics : List Metric
  pub events : List Event
