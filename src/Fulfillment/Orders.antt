-- ===== src/Fulfillment/Orders.antt =====
-- services/fulfillment-service/app/services.py, class OrderCreationService, with the inserts of
-- app/repositories.py and the publisher of app/redis/streams.py.
pub mod Failures
pub mod Publishing
pub mod Guards
mod Tests
use dark_kitchen_simulator.Prelude.{
  ℕ, suc, ◌∷◌, [], List, ◌++◌, String, Bool, true, false, not, ◌&&◌, ◌||◌, Option, none, some, ◌==◌,
  str_eq, map, length, if◌then◌else◌,
}
use dark_kitchen_simulator.Prelude.Exec.{
  Exec, Result, ok, err, pure, raise, gets, modify, lift, raise_if, or_raise, ◌>>=◌, ◌>>◌,
}
use dark_kitchen_simulator.Prelude.Time.{Datetime}
use dark_kitchen_simulator.Fulfillment.Domain.{OrderStatus, TaskStatus, Error}
use dark_kitchen_simulator.Fulfillment.Models.{
  Order, OrderItem, KitchenTask, TaskMessage, Db, World, orders_created_total, tasks_queued_total,
  order_created, kitchen_tasks_created, task_queued,
}
use dark_kitchen_simulator.Fulfillment.Schemas.{
  OrderCreate, OrderItemCreate, OrderItemRead, OrderCreatedRead, KitchenSnapshot,
  KitchenMenuItemSnapshot, RecipeSnapshot,
}
use dark_kitchen_simulator.Fulfillment.Clients.{
  HttpReply, get_kitchen, get_kitchen_menu, get_recipe, with_steps,
}
use dark_kitchen_simulator.Fulfillment.Repositories.{save_task}
use dark_kitchen_simulator.Fulfillment.Builder.{BuiltTasks, build}
use dark_kitchen_simulator.Fulfillment.Session.{Handler, observe, safe_event_write}

-- What surrounds one creation: the replies of the two services, the recipe replies and the generated
-- ids in the order of the calls, the two readings of the clock, whether a publisher is configured, the
-- name of the stream of a kitchen and a station type, what each `xadd` gives (`none`: it raises), and
-- whether the commit of the order, its refresh and the commit of the queued tasks succeed (else
-- SQLAlchemyError, after a rollback).
pub record Env : Type 0 where
  pub kitchen_reply : HttpReply KitchenSnapshot
  pub menu_reply : HttpReply (List KitchenMenuItemSnapshot)
  pub recipe_reply : ℕ → HttpReply RecipeSnapshot
  pub order_id : ℕ
  pub item_id : ℕ → ℕ
  pub uuid4 : ℕ → ℕ
  pub now : Datetime
  pub queued_at : Datetime
  pub has_publisher : Bool
  pub stream_name : ℕ → String → String
  pub xadd : ℕ → Option String
  pub order_commits : Bool
  pub order_refreshes : Bool
  pub queued_commits : Bool

abbrev pub Recipes : Type 0
Recipes = ℕ → Option RecipeSnapshot

-- `item.menu_item_id in available_ids`
unfoldable pub is_offered : ℕ → List KitchenMenuItemSnapshot → Bool
is_offered k [] = false
is_offered k (item ∷ items) =
    item.id == k && (str_eq item.status "active" && item.is_available) || is_offered k items

-- `menu_item_names.get(...)`: the last entry of an id counts.
unfoldable pub menu_item_name : ℕ → List KitchenMenuItemSnapshot → Option String
menu_item_name k [] = none
menu_item_name k (item ∷ items) = elim (menu_item_name k items) [
  | some name ↦ some name
  | none ↦ if item.id == k then some item.name else none
]

abbrev pub set_recipe : ℕ → RecipeSnapshot → Recipes → Recipes
set_recipe k recipe recipes j = if j == k then some recipe else recipes j

-- `await self.menu_client.get_recipe(...)` and the test of its steps, for an item that is offered
abbrev pub fetch_recipe : Bool → HttpReply RecipeSnapshot → Result Error RecipeSnapshot
fetch_recipe false reply = err Error.menu_item_not_available
fetch_recipe true reply = elim (get_recipe reply) [ err e ↦ err e | ok recipe ↦ with_steps recipe ]

-- `for item in payload.items`, with `n` recipes fetched before
unfoldable pub fetch_recipes :
    (ℕ → HttpReply RecipeSnapshot)
    → List KitchenMenuItemSnapshot
    → ℕ
    → List OrderItemCreate
    → Recipes
    → Result Error Recipes
fetch_recipes reply menu n [] recipes = ok recipes
fetch_recipes reply menu n (item ∷ items) recipes =
    elim (fetch_recipe (is_offered item.menu_item_id menu) (reply n)) [
      | err e ↦ err e
      | ok recipe ↦
          fetch_recipes reply menu (suc n) items (set_recipe item.menu_item_id recipe recipes)
    ]

-- The rows of `create_order` and `create_order_item`.
abbrev pub new_order : Env → OrderCreate → Order
new_order env payload = record {
  id = env.order_id;
  kitchen_id = payload.kitchen_id;
  status = OrderStatus.created;
  pickup_deadline = payload.pickup_deadline;
  created_at = env.now;
}

unfoldable pub new_items : Env → ℕ → List OrderItemCreate → List OrderItem
new_items env n [] = []
new_items env n (item ∷ items) =
    record {
      id = env.item_id n;
      order_id = env.order_id;
      menu_item_id = item.menu_item_id;
      quantity = item.quantity;
    }
    ∷ new_items env (suc n) items

-- The tables with the rows of an order.
unfoldable pub add_order : Order → List OrderItem → BuiltTasks → Db → Db
add_order order items built db = record {
  orders = db.orders ++ (order ∷ []);
  order_items = db.order_items ++ items;
  tasks = db.tasks ++ built.tasks;
  dependencies = db.dependencies ++ built.dependencies;
}

-- `menu_item_name or ""`
abbrev pub name_text : Option String → String
name_text none = ""
name_text (some name) = name

abbrev pub build_redis_task_message : String → KitchenTask → Order → Option String → TaskMessage
build_redis_task_message stream task order name = record {
  stream = stream;
  task_id = task.id;
  order_id = task.order_id;
  kitchen_id = order.kitchen_id;
  station_type = task.station_type;
  operation = task.operation;
  menu_item_id = task.menu_item_id;
  menu_item_name = name_text name;
  estimated_duration_seconds = task.estimated_duration_seconds;
  pickup_deadline = order.pickup_deadline;
  attempt = 1;
  created_at = task.created_at;
  recipe_step_order = task.recipe_step_order;
  item_unit_index = task.item_unit_index;
}

-- The task of an entry of `published`, as `mark_tasks_queued` sets it.
abbrev pub queued_row : Datetime → String → String → KitchenTask → KitchenTask
queued_row queued_at stream message_id task = record task {
  status = TaskStatus.queued;
  attempts = 1;
  queued_at = some queued_at;
  redis_stream = some stream;
  redis_message_id = some message_id;
}

abbrev pub publish_task :
    Env → ℕ → KitchenTask → Order → Option String → Handler (KitchenTask × String × String)
publish_task env n task order name =
    let stream = env.stream_name order.kitchen_id task.station_type in
    elim (env.xadd n) [
      | none ↦ raise Error.task_publish_failed
      | some message_id ↦
          modify (λ (w : World). record w {
            messages = build_redis_task_message stream task order name ∷ w.messages;
          })
          >> pure (task, stream, message_id)
    ]

-- `for task in tasks`, with `n` tasks published before
unfoldable pub publish_tasks :
    Env
    → List KitchenMenuItemSnapshot
    → Order
    → ℕ
    → List KitchenTask
    → Handler (List (KitchenTask × String × String))
publish_tasks env menu order n [] = pure []
publish_tasks env menu order n (task ∷ tasks) = do
  entry ← publish_task env n task order (menu_item_name task.menu_item_id menu)
  rest ← publish_tasks env menu order (suc n) tasks
  pure (entry ∷ rest)

unfoldable pub mark_tasks_queued : Datetime → List (KitchenTask × String × String) → Db → Db
mark_tasks_queued queued_at [] db = db
mark_tasks_queued queued_at ((task, stream, message_id) ∷ rest) db =
    mark_tasks_queued queued_at rest (save_task (queued_row queued_at stream message_id task) db)

-- The metric and the event of each published task.
unfoldable pub announce_queued :
    Env → Order → List (KitchenTask × String × String) → Handler (Unit {0})
announce_queued env order [] = pure tt
announce_queued env order ((task, stream, message_id) ∷ rest) = do
  observe (tasks_queued_total order.kitchen_id task.station_type)
  safe_event_write
      (task_queued (queued_row env.queued_at stream message_id task) order stream message_id)
  announce_queued env order rest

unfoldable pub publish_and_queue_tasks :
    Env → List KitchenMenuItemSnapshot → Order → List KitchenTask → Handler ℕ
publish_and_queue_tasks env menu order tasks =
    if env.has_publisher
    then (do
      published ← publish_tasks env menu order 0 tasks
      raise_if (not env.queued_commits) Error.database_error
      modify (λ (w : World). record w { db = mark_tasks_queued env.queued_at published w.db })
      announce_queued env order published
      pure (length published))
    else pure 0

abbrev pub item_read : OrderItem → OrderItemRead
item_read item = record { id = item.id; menu_item_id = item.menu_item_id; quantity = item.quantity }

-- From the inserts on.
unfoldable pub place_order :
    Env → List KitchenMenuItemSnapshot → OrderCreate → BuiltTasks → Handler OrderCreatedRead
place_order env menu payload built = do
  let order = new_order env payload
  let items = new_items env 0 payload.items
  raise_if (not env.order_commits) Error.database_error
  modify (λ (w : World). record w { db = add_order order items built w.db })
  raise_if (not env.order_refreshes) Error.database_error
  observe (orders_created_total order.kitchen_id)
  safe_event_write (order_created order (length built.tasks))
  safe_event_write (kitchen_tasks_created order (length built.tasks))
  queued_tasks_count ← publish_and_queue_tasks env menu order built.tasks
  pure (record {
    id = order.id;
    kitchen_id = order.kitchen_id;
    status = order.status;
    pickup_deadline = order.pickup_deadline;
    items = map item_read items;
    tasks_count = length built.tasks;
    queued_tasks_count = queued_tasks_count;
    created_at = order.created_at;
  })

-- The tasks of a payload whose recipes have been fetched.
abbrev pub build_order : Env → OrderCreate → Recipes → Option BuiltTasks
build_order env payload recipes =
    build env.uuid4 env.now env.order_id recipes 0 (new_items env 0 payload.items)

unfoldable pub create_order : Env → OrderCreate → Handler OrderCreatedRead
create_order env payload = do
  kitchen ← lift (get_kitchen env.kitchen_reply)
  menu ← lift (get_kitchen_menu env.menu_reply)
  recipes ← lift (fetch_recipes env.recipe_reply menu 0 payload.items (λ k. none))
  built ← or_raise (build_order env payload recipes) Error.missing_recipe
  place_order env menu payload built
