-- ===== src/Fulfillment/Models.antt =====
-- services/fulfillment-service/app/models.py: the rows, and the state that a handler works on.
-- A UUID is a number. `updated_at` is kept by the database and read by no code; it is left out.
use dark_kitchen_simulator.Prelude.{ℕ, String, Option, List}
use dark_kitchen_simulator.Prelude.Time.{Datetime}
use dark_kitchen_simulator.Fulfillment.Domain.{OrderStatus, TaskStatus}

pub record Order : Type 0 where
  pub id : ℕ
  pub kitchen_id : ℕ
  pub status : OrderStatus
  pub pickup_deadline : Option Datetime
  pub created_at : Datetime

pub record OrderItem : Type 0 where
  pub id : ℕ
  pub order_id : ℕ
  pub menu_item_id : ℕ
  pub quantity : ℕ

pub record KitchenTask : Type 0 where
  pub id : ℕ
  pub order_id : ℕ
  pub order_item_id : ℕ
  pub menu_item_id : ℕ
  pub station_type : String
  pub station_id : Option ℕ
  pub kds_task_id : Option ℕ
  pub operation : String
  pub status : TaskStatus
  pub estimated_duration_seconds : ℕ
  pub displayed_at : Option Datetime
  pub started_at : Option Datetime
  pub sla_deadline_at : Option Datetime
  pub completed_at : Option Datetime
  pub actual_duration_seconds : Option ℕ
  pub delay_seconds : Option ℕ
  pub attempts : ℕ
  pub queued_at : Option Datetime
  pub redis_stream : Option String
  pub redis_message_id : Option String
  pub recipe_step_order : ℕ
  pub item_unit_index : ℕ
  pub created_at : Datetime

pub record TaskDependency : Type 0 where
  pub task_id : ℕ
  pub depends_on_task_id : ℕ

-- The tables.
pub record Db : Type 0 where
  pub orders : List Order
  pub order_items : List OrderItem
  pub tasks : List KitchenTask
  pub dependencies : List TaskDependency

-- The counters and histograms of app/metrics/business_metrics.py, with their labels.
pub data Metric : Type 0 where
  orders_created_total orders_ready_total : ℕ → Metric
  tasks_queued_total tasks_displayed_total tasks_started_total : ℕ → String → Metric
  tasks_completed_total tasks_failed_total : ℕ → String → Metric
  task_actual_duration_seconds task_delay_seconds : ℕ → String → ℕ → Metric

-- The documents that the event writers of app/events/task_events.py are asked to write.
pub data Event : Type 0 where
  order_created kitchen_tasks_created : Order → ℕ → Event
  task_queued : KitchenTask → Order → String → String → Event
  task_displayed : KitchenTask → String → Event
  task_started : KitchenTask → String → Event
  task_completed : KitchenTask → String → Event
  task_dispatch_failed : KitchenTask → String → String → Event
  order_ready_for_pickup : Order → ℕ → Event

-- The message of app/redis/streams.py for one task, with the stream that it is added to. The numbers
-- and times stand for their text; the correlation id is left out.
pub record TaskMessage : Type 0 where
  pub stream : String
  pub task_id : ℕ
  pub order_id : ℕ
  pub kitchen_id : ℕ
  pub station_type : String
  pub operation : String
  pub menu_item_id : ℕ
  pub menu_item_name : String
  pub estimated_duration_seconds : ℕ
  pub pickup_deadline : Option Datetime
  pub attempt : ℕ
  pub created_at : Datetime
  pub recipe_step_order : ℕ
  pub item_unit_index : ℕ

-- What a handler reads and changes: the tables, the metrics observed, the events written and the
-- messages published, these three with the latest first.
pub record World : Type 0 where
  pub db : Db
  pub metrics : List Metric
  pub events : List Event
  pub messages : List TaskMessage
