-- ===== src/Fulfillment/Schemas.antt =====
-- services/fulfillment-service/app/schemas.py: the requests and the responses.
use dark_kitchen_simulator.Prelude.{ℕ, String, Bool, Option, List}
use dark_kitchen_simulator.Prelude.Time.{Datetime}
use dark_kitchen_simulator.Fulfillment.Domain.{OrderStatus, TaskStatus}

pub record OrderItemCreate : Type 0 where
  pub menu_item_id : ℕ
  pub quantity : ℕ

pub record OrderCreate : Type 0 where
  pub kitchen_id : ℕ
  pub pickup_deadline : Option Datetime
  pub items : List OrderItemCreate

pub record KitchenMenuItemSnapshot : Type 0 where
  pub id : ℕ
  pub name : String
  pub status : String
  pub is_available : Bool

pub record RecipeStepSnapshot : Type 0 where
  pub station_type : String
  pub operation : String
  pub duration_seconds : ℕ
  pub step_order : ℕ

pub record RecipeSnapshot : Type 0 where
  pub menu_item_id : ℕ
  pub steps : List RecipeStepSnapshot

pub record TaskSnapshotResponse : Type 0 where
  pub task_id : ℕ
  pub order_id : ℕ
  pub kitchen_id : ℕ
  pub menu_item_id : ℕ
  pub station_type : String
  pub station_id : Option ℕ
  pub kds_task_id : Option ℕ
  pub operation : String
  pub status : TaskStatus
  pub estimated_duration_seconds : ℕ
  pub pickup_deadline : Option Datetime
  pub attempts : ℕ
  pub displayed_at : Option Datetime
  pub started_at : Option Datetime
  pub sla_deadline_at : Option Datetime
  pub completed_at : Option Datetime
  pub actual_duration_seconds : Option ℕ
  pub delay_seconds : Option ℕ

-- The two texts of `DispatchReadinessResponse.reason`.
pub data Reason : Type 0 where
  task_status_not_dispatchable waiting_for_dependencies : Reason

pub record DispatchReadinessResponse : Type 0 where
  pub task_id : ℕ
  pub ready_to_dispatch : Bool
  pub waiting_for : List ℕ
  pub reason : Option Reason

pub record MarkDisplayedRequest : Type 0 where
  pub station_id : ℕ
  pub kds_task_id : ℕ
  pub displayed_at : Datetime
  pub dispatcher_id : String

pub record MarkDisplayedResponse : Type 0 where
  pub task_id : ℕ
  pub status : TaskStatus
  pub station_id : Option ℕ
  pub kds_task_id : Option ℕ
  pub displayed_at : Option Datetime

pub record StartTaskRequest : Type 0 where
  pub station_id : ℕ
  pub kds_task_id : ℕ
  pub station_worker_id : String
  pub started_at : Datetime

pub record StartTaskResponse : Type 0 where
  pub task_id : ℕ
  pub status : TaskStatus
  pub station_id : Option ℕ
  pub kds_task_id : Option ℕ
  pub started_at : Option Datetime
  pub sla_deadline_at : Option Datetime

pub record CompleteTaskRequest : Type 0 where
  pub station_id : ℕ
  pub kds_task_id : ℕ
  pub station_worker_id : String
  pub completed_at : Datetime

pub record CompleteTaskResponse : Type 0 where
  pub task_id : ℕ
  pub status : TaskStatus
  pub station_id : Option ℕ
  pub kds_task_id : Option ℕ
  pub started_at : Option Datetime
  pub completed_at : Option Datetime
  pub actual_duration_seconds : Option ℕ
  pub delay_seconds : Option ℕ

pub record DispatchFailedRequest : Type 0 where
  pub reason : String
  pub failed_at : Datetime
  pub dispatcher_id : String
  pub attempts : Option ℕ

pub record KitchenSnapshot : Type 0 where
  pub id : ℕ
  pub status : String

pub record OrderItemRead : Type 0 where
  pub id : ℕ
  pub menu_item_id : ℕ
  pub quantity : ℕ

pub record OrderCreatedRead : Type 0 where
  pub id : ℕ
  pub kitchen_id : ℕ
  pub status : OrderStatus
  pub pickup_deadline : Option Datetime
  pub items : List OrderItemRead
  pub tasks_count : ℕ
  pub queued_tasks_count : ℕ
  pub created_at : Datetime
