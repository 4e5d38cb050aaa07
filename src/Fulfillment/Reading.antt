-- ===== src/Fulfillment/Reading.antt =====
-- services/fulfillment-service/app/services.py: `get_order_read` and `list_order_tasks`, with
-- `list_by_order` of app/repositories.py and their responses of app/schemas.py.
pub mod Ordering
mod Tests
use dark_kitchen_simulator.Prelude.{
  ℕ, String, Option, List, map, Bool, true, false, ltb, leb, ◌==◌, select, if◌then◌else◌,
}
use dark_kitchen_simulator.Prelude.Exec.{pure, gets, or_raise, ◌>>=◌}
use dark_kitchen_simulator.Prelude.Sort.{sort}
use dark_kitchen_simulator.Prelude.Time.{Datetime}
use dark_kitchen_simulator.Fulfillment.Domain.{OrderStatus, TaskStatus, Error}
use dark_kitchen_simulator.Fulfillment.Models.{
  Order, OrderItem, KitchenTask, TaskDependency, Db, World,
}
use dark_kitchen_simulator.Fulfillment.Schemas.{OrderItemRead}
use dark_kitchen_simulator.Fulfillment.Repositories as Repositories
use dark_kitchen_simulator.Fulfillment.Session.{Handler}
use dark_kitchen_simulator.Fulfillment.Orders.{item_read}

pub record OrderRead : Type 0 where
  pub id : ℕ
  pub kitchen_id : ℕ
  pub status : OrderStatus
  pub pickup_deadline : Option Datetime
  pub items : List OrderItemRead
  pub created_at : Datetime

pub record KitchenTaskRead : Type 0 where
  pub id : ℕ
  pub order_id : ℕ
  pub menu_item_id : ℕ
  pub station_type : String
  pub operation : String
  pub status : TaskStatus
  pub estimated_duration_seconds : ℕ
  pub station_id : Option ℕ
  pub kds_task_id : Option ℕ
  pub attempts : ℕ
  pub queued_at : Option Datetime
  pub redis_stream : Option String
  pub redis_message_id : Option String
  pub recipe_step_order : ℕ
  pub item_unit_index : ℕ
  pub depends_on_task_ids : List ℕ
  pub created_at : Datetime

-- `get_order`
abbrev pub found_order : ℕ → Handler Order
found_order order_id = do
  found ← gets (λ (w : World). Repositories.get_order order_id w.db)
  or_raise found Error.order_not_found

-- `order.items`
abbrev pub items_of : ℕ → Db → List OrderItem
items_of order_id db = select (λ (i : OrderItem). i.order_id == order_id) db.order_items

unfoldable pub get_order_read : ℕ → Handler OrderRead
get_order_read order_id = do
  order ← found_order order_id
  items ← gets (λ (w : World). items_of order.id w.db)
  pure (record {
    id = order.id;
    kitchen_id = order.kitchen_id;
    status = order.status;
    pickup_deadline = order.pickup_deadline;
    items = map item_read items;
    created_at = order.created_at;
  })

-- ORDER BY order_item_id, item_unit_index, recipe_step_order
abbrev pub task_le : KitchenTask → KitchenTask → Bool
task_le a b =
    if a.order_item_id == b.order_item_id
    then (if a.item_unit_index == b.item_unit_index
        then leb a.recipe_step_order b.recipe_step_order
        else ltb a.item_unit_index b.item_unit_index)
    else ltb a.order_item_id b.order_item_id

abbrev pub of_order : ℕ → KitchenTask → Bool
of_order order_id task = task.order_id == order_id

unfoldable pub list_by_order : ℕ → Db → List KitchenTask
list_by_order order_id db = sort task_le (select (of_order order_id) db.tasks)

-- `[dependency.depends_on_task_id for dependency in task.dependencies]`
abbrev pub depends_on : ℕ → Db → List ℕ
depends_on task_id db =
    map (λ (d : TaskDependency). d.depends_on_task_id)
      (select (λ (d : TaskDependency). d.task_id == task_id) db.dependencies)

abbrev pub task_read : Db → KitchenTask → KitchenTaskRead
task_read db task = record {
  id = task.id;
  order_id = task.order_id;
  menu_item_id = task.menu_item_id;
  station_type = task.station_type;
  operation = task.operation;
  status = task.status;
  estimated_duration_seconds = task.estimated_duration_seconds;
  station_id = task.station_id;
  kds_task_id = task.kds_task_id;
  attempts = task.attempts;
  queued_at = task.queued_at;
  redis_stream = task.redis_stream;
  redis_message_id = task.redis_message_id;
  recipe_step_order = task.recipe_step_order;
  item_unit_index = task.item_unit_index;
  depends_on_task_ids = depends_on task.id db;
  created_at = task.created_at;
}

unfoldable pub list_order_tasks : ℕ → Handler (List KitchenTaskRead)
list_order_tasks order_id = do
  order ← found_order order_id
  gets (λ (w : World). map (task_read w.db) (list_by_order order_id w.db))
