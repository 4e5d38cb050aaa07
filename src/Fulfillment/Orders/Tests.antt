-- ===== src/Fulfillment/Orders/Tests.antt =====
-- The theorems about the creation of orders at concrete replies.
use dark_kitchen_simulator.Prelude.{
  zero, suc, ◌+◌, ◌≡◌, refl, Bool, true, false, none, some, List, [], ◌∷◌, All, str_eq, length,
  if◌then◌else◌,
}
use dark_kitchen_simulator.Prelude.Exec.{ok}
use dark_kitchen_simulator.Prelude.Time.{aware}
use dark_kitchen_simulator.Fulfillment.Domain.{OrderStatus}
use dark_kitchen_simulator.Fulfillment.Models.{World}
use dark_kitchen_simulator.Fulfillment.Schemas.{
  OrderCreate, OrderItemCreate, OrderCreatedRead, KitchenSnapshot, KitchenMenuItemSnapshot,
  RecipeStepSnapshot,
}
use dark_kitchen_simulator.Fulfillment.Clients.{response, get_kitchen, get_kitchen_menu, get_recipe}
use dark_kitchen_simulator.Fulfillment.Builder.{
  build, build_units, build_unit, new_task, link, sort_steps, insert_step,
}
use dark_kitchen_simulator.Fulfillment.Builder.Chains.{count_tasks}
use dark_kitchen_simulator.Fulfillment.Orders.{
  Env, Recipes, is_offered, menu_item_name, fetch_recipes, new_items, add_order, publish_tasks,
  mark_tasks_queued, announce_queued, publish_and_queue_tasks, place_order, create_order,
}
use dark_kitchen_simulator.Fulfillment.Orders.Guards.{create_order_guarded}

abbrev steps : List RecipeStepSnapshot
steps =
    record { station_type = "grill"; operation = "sear"; duration_seconds = 60; step_order = 2 }
    ∷ record { station_type = "cold"; operation = "cut"; duration_seconds = 30; step_order = 1 }
    ∷ []

abbrev menu : List KitchenMenuItemSnapshot
menu = record { id = 3; name = "steak"; status = "active"; is_available = true } ∷ []

-- The first message is taken, and the second if `is_up`.
abbrev env : Bool → Env
env is_up = record {
  kitchen_reply = response 200 false (some (record { id = 7; status = "active" }));
  menu_reply = response 200 false (some menu);
  recipe_reply = λ n. response 200 false (some (record { menu_item_id = 3; steps = steps }));
  order_id = 1;
  item_id = λ n. 20 + n;
  uuid4 = λ n. 100 + n;
  now = aware 0;
  queued_at = aware 1000000;
  order_commits = true;
  order_refreshes = true;
  queued_commits = true;
  has_publisher = true;
  stream_name = λ kitchen_id station_type. station_type;
  xadd = λ n. elim n [ zero ↦ some "m0" | suc k ↦ if is_up then some "m1" else none ];
}

abbrev closed : Env
closed = record (env true) {
  kitchen_reply = response 200 false (some (record { id = 7; status = "inactive" }));
}

abbrev payload : OrderCreate
payload = record {
  kitchen_id = 7;
  pickup_deadline = none;
  items = record { menu_item_id = 3; quantity = 1 } ∷ [];
}

abbrev empty : World
empty = record {
  db = record { orders = []; order_items = []; tasks = []; dependencies = [] };
  metrics = [];
  events = [];
  messages = [];
}

abbrev answer : OrderCreatedRead
answer = record {
  id = 1;
  kitchen_id = 7;
  status = OrderStatus.created;
  pickup_deadline = none;
  items = record { id = 20; menu_item_id = 3; quantity = 1 } ∷ [];
  tasks_count = 2;
  queued_tasks_count = 2;
  created_at = aware 0;
}

created_run : (create_order (env true) payload empty).0 ≡ ok answer
unfolding create_order get_kitchen get_kitchen_menu get_recipe fetch_recipes is_offered
    menu_item_name new_items add_order publish_tasks mark_tasks_queued announce_queued
    publish_and_queue_tasks place_order build build_units build_unit new_task link sort_steps
    insert_step
created_run = refl

-- The one message that was published before the failure stays.
unpublished_messages : length (create_order (env false) payload empty).1.messages ≡ 1
unfolding create_order get_kitchen get_kitchen_menu get_recipe fetch_recipes is_offered
    menu_item_name new_items add_order publish_tasks mark_tasks_queued announce_queued
    publish_and_queue_tasks place_order build build_units build_unit new_task link sort_steps
    insert_step
unpublished_messages = refl

create_order_guarded_example :
    ((kitchen : KitchenSnapshot) × (get_kitchen (env true).kitchen_reply ≡ ok kitchen)
      × (str_eq kitchen.status "active" ≡ true))
    × ((offers : List KitchenMenuItemSnapshot) × (recipes : Recipes) × (get_kitchen_menu
            (env true).menu_reply
          ≡ ok offers)
        × (fetch_recipes (env true).recipe_reply offers 0 payload.items (λ k. none) ≡ ok recipes)
        × All (λ (item : OrderItemCreate). is_offered item.menu_item_id offers ≡ true) payload.items
        × (answer.tasks_count ≡ count_tasks recipes (new_items (env true) 0 payload.items)))
create_order_guarded_example = create_order_guarded (env true) payload empty answer created_run
