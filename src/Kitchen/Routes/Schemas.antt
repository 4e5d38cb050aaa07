-- ===== src/Kitchen/Routes/Schemas.antt =====
-- services/kitchen-service/app/schemas.py: what the fields of a request admit, and the responses of the
-- KDS. A negative number is refused as 0 is, and has no value here.
use dark_kitchen_simulator.Prelude.{ℕ, String, Option, none, some, Bool, true, ◌&&◌, leb}
use Prim.Native.String.{count as str_length}
use dark_kitchen_simulator.Prelude.Time.{Datetime}
use dark_kitchen_simulator.Kitchen.Models.{
  KdsStationTask, KdsTaskStatus, KitchenCreate, StationCreate, KdsTaskDeliveryRequest,
  KdsTaskClaimRequest, KdsTaskCompleteRequest,
}

pub record KdsTaskDeliveryResponse : Type 0 where
  pub kds_task_id : ℕ
  pub task_id : ℕ
  pub station_id : ℕ
  pub status : KdsTaskStatus

pub record KdsStationTaskResponse : Type 0 where
  pub kds_task_id : ℕ
  pub task_id : ℕ
  pub order_id : ℕ
  pub station_id : ℕ
  pub operation : String
  pub menu_item_name : Option String
  pub status : KdsTaskStatus
  pub estimated_duration_seconds : ℕ
  pub pickup_deadline : Option Datetime
  pub displayed_at : Datetime

pub record KdsTaskClaimResponse : Type 0 where
  pub kds_task_id : ℕ
  pub task_id : ℕ
  pub station_id : ℕ
  pub status : KdsTaskStatus
  pub claimed_by : String
  pub claimed_at : Datetime

pub record KdsTaskCompleteResponse : Type 0 where
  pub kds_task_id : ℕ
  pub task_id : ℕ
  pub station_id : ℕ
  pub status : KdsTaskStatus
  pub claimed_by : String
  pub completed_at : Datetime

abbrev pub kds_task_delivery_response : KdsStationTask → KdsTaskDeliveryResponse
kds_task_delivery_response task = record {
  kds_task_id = task.id;
  task_id = task.task_id;
  station_id = task.station_id;
  status = task.status;
}

abbrev pub kds_station_task_response : KdsStationTask → KdsStationTaskResponse
kds_station_task_response task = record {
  kds_task_id = task.id;
  task_id = task.task_id;
  order_id = task.order_id;
  station_id = task.station_id;
  operation = task.operation;
  menu_item_name = task.menu_item_name;
  status = task.status;
  estimated_duration_seconds = task.estimated_duration_seconds;
  pickup_deadline = task.pickup_deadline;
  displayed_at = task.displayed_at;
}

-- `task.claimed_by or ""`
abbrev pub or_empty : Option String → String
or_empty none = ""
or_empty (some s) = s

-- `none` is the ValidationError of a time that is missing.
abbrev pub claim_response_at : KdsStationTask → Option Datetime → Option KdsTaskClaimResponse
claim_response_at task none = none
claim_response_at task (some claimed_at) = some (record {
  kds_task_id = task.id;
  task_id = task.task_id;
  station_id = task.station_id;
  status = task.status;
  claimed_by = or_empty task.claimed_by;
  claimed_at = claimed_at;
})

abbrev pub kds_task_claim_response : KdsStationTask → Option KdsTaskClaimResponse
kds_task_claim_response task = claim_response_at task task.claimed_at

abbrev pub complete_response_at : KdsStationTask → Option Datetime → Option KdsTaskCompleteResponse
complete_response_at task none = none
complete_response_at task (some completed_at) = some (record {
  kds_task_id = task.id;
  task_id = task.task_id;
  station_id = task.station_id;
  status = task.status;
  claimed_by = or_empty task.claimed_by;
  completed_at = completed_at;
})

abbrev pub kds_task_complete_response : KdsStationTask → Option KdsTaskCompleteResponse
kds_task_complete_response task = complete_response_at task task.completed_at

-- `Field(min_length=1, max_length=high)`
abbrev pub is_text : ℕ → String → Bool
is_text high s = leb 1 (str_length s) && leb (str_length s) high

abbrev pub is_short : Option String → Bool
is_short none = true
is_short (some s) = leb (str_length s) 120

unfoldable pub accepts_kitchen : KitchenCreate → Bool
accepts_kitchen p = is_text 120 p.name

unfoldable pub accepts_station : StationCreate → Bool
accepts_station p = is_text 120 p.name && (leb 1 p.capacity && leb 1 p.visible_backlog_limit)

unfoldable pub accepts_capacity : ℕ → Bool
accepts_capacity capacity = leb 1 capacity

unfoldable pub accepts_delivery : KdsTaskDeliveryRequest → Bool
accepts_delivery p =
    is_text 120 p.operation
    && (is_short p.menu_item_name
        && (leb 1 p.estimated_duration_seconds && is_text 200 p.idempotency_key))

-- `limit: int = Query(default=100, ge=1, le=500)`
unfoldable pub accepts_page : ℕ → Bool
accepts_page limit = leb 1 limit && leb limit 500

unfoldable pub accepts_claim : KdsTaskClaimRequest → Bool
accepts_claim p = is_text 120 p.station_worker_id

unfoldable pub accepts_complete : KdsTaskCompleteRequest → Bool
accepts_complete p = is_text 120 p.station_worker_id
