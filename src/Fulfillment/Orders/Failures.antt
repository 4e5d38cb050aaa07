-- ===== src/Fulfillment/Orders/Failures.antt =====
-- About the orders that `create_order` of services/fulfillment-service/app/services.py does not finish.
use dark_kitchen_simulator.Prelude.{
  ℕ, suc, String, ◌≡◌, ◌≢◌, refl, List, [], ◌∷◌, none, some, Bool, false, arith, inl, inr, length,
  ◌⊎◌, Option-cases,
}
use dark_kitchen_simulator.Prelude.Exec.{ok, err, Result-cases}
use dark_kitchen_simulator.Fulfillment.Domain.{Error}
use dark_kitchen_simulator.Fulfillment.Models.{
  Order, KitchenTask, Db, World, orders_created_total, order_created, kitchen_tasks_created,
}
use dark_kitchen_simulator.Fulfillment.Schemas.{
  OrderCreate, OrderItemCreate, KitchenSnapshot, KitchenMenuItemSnapshot, RecipeSnapshot,
}
use dark_kitchen_simulator.Fulfillment.Builder.{BuiltTasks}
use dark_kitchen_simulator.Fulfillment.Clients.{
  HttpReply, http_error, response, get_kitchen, get_kitchen_menu, get_recipe,
}
use dark_kitchen_simulator.Fulfillment.Orders.{
  Env, Recipes, is_offered, set_recipe, fetch_recipe, new_order, new_items, add_order,
  fetch_recipes, publish_task, publish_tasks, menu_item_name, mark_tasks_queued, announce_queued,
  place_order, build_order, create_order,
}

pub publish_tasks-db :
    (env : Env) (menu : List KitchenMenuItemSnapshot) (order : Order) (n : ℕ)
    (tasks : List KitchenTask) (w : World)
    → (publish_tasks env menu order n tasks w).1.db ≡ w.db
unfolding publish_tasks
publish_tasks-db env menu order n [] w = refl
publish_tasks-db env menu order n (t ∷ ts) w = ground (
  arith,
  publish_tasks-db env menu order (suc n) ts
      (publish_task env n t order (menu_item_name t.menu_item_id menu) w).1,
)

pub announce_queued-ok :
    (env : Env) (order : Order) (ps : List (KitchenTask × String × String)) (w : World)
    → ((announce_queued env order ps w).0 ≡ ok tt)
      × ((announce_queued env order ps w).1.db ≡ w.db)
      × ((announce_queued env order ps w).1.messages ≡ w.messages)
unfolding announce_queued
announce_queued-ok env order [] w = (refl, refl, refl)
announce_queued-ok env order ((t, s, m) ∷ ps) w = announce_queued-ok env order ps _

-- The states after the commit of an order, and after that of its published tasks.
abbrev pub placed : Env → OrderCreate → BuiltTasks → World → World
placed env p built w = record w {
  db = add_order (new_order env p) (new_items env 0 p.items) built w.db;
  metrics = orders_created_total p.kitchen_id ∷ w.metrics;
  events =
      kitchen_tasks_created (new_order env p) (length built.tasks)
      ∷ order_created (new_order env p) (length built.tasks)
      ∷ w.events;
}

abbrev pub queued_world : Env → List (KitchenTask × String × String) → World → World
queued_world env ps w = record w { db = mark_tasks_queued env.queued_at ps w.db }

-- What an order creation leaves that has stored its order and then raises.
abbrev Stored : Env → OrderCreate → BuiltTasks → Error → Db → Db → Type 0
Stored env p built e a b =
    ((e ≡ Error.task_publish_failed)
      ⊎ ((e ≡ Error.database_error)
          × ((env.order_refreshes ≡ false) ⊎ (env.queued_commits ≡ false))))
    × (b ≡ add_order (new_order env p) (new_items env 0 p.items) built a)

get_kitchen_error : (r : HttpReply KitchenSnapshot) → get_kitchen r ≢ err Error.task_publish_failed
unfolding get_kitchen
get_kitchen_error http_error = λ h. ground arith
get_kitchen_error (response status raises body) = λ h. ground arith

get_kitchen_menu_error :
    (r : HttpReply (List KitchenMenuItemSnapshot))
    → get_kitchen_menu r ≢ err Error.task_publish_failed
unfolding get_kitchen_menu
get_kitchen_menu_error http_error = λ h. ground arith
get_kitchen_menu_error (response status raises body) = λ h. ground arith

fetch_recipe_error :
    (offered : Bool) (r : HttpReply RecipeSnapshot)
    → fetch_recipe offered r ≢ err Error.task_publish_failed
unfolding get_recipe
fetch_recipe_error offered http_error = λ h. ground arith
fetch_recipe_error offered (response status raises body) = λ h. ground arith

fetch_recipes_error :
    (reply : ℕ → HttpReply RecipeSnapshot) (menu : List KitchenMenuItemSnapshot) (n : ℕ)
    (items : List OrderItemCreate) (recipes : Recipes)
    → fetch_recipes reply menu n items recipes ≢ err Error.task_publish_failed
unfolding fetch_recipes
fetch_recipes_error reply menu n [] recipes = λ h. cc
fetch_recipes_error reply menu n (item ∷ items) recipes = λ h.
    elim (Result-cases (fetch_recipe (is_offered item.menu_item_id menu) (reply n))) [
      | inl (recipe, fetched) ↦ ground (
        arith,
        fetched,
        fetch_recipes_error reply menu (suc n) items (set_recipe item.menu_item_id recipe recipes),
      )
      | inr (e, refused) ↦
          ground (arith, refused, fetch_recipe_error (is_offered item.menu_item_id menu) (reply n))
    ]

-- What a creation has when it comes to its inserts.
pub record Accepted (env : Env) (p : OrderCreate) (menu : List KitchenMenuItemSnapshot)
    (recipes : Recipes) (built : BuiltTasks) : Type 0 where
  pub kitchen_is_active : (kitchen : KitchenSnapshot) × (get_kitchen env.kitchen_reply ≡ ok kitchen)
  pub menu_read : get_kitchen_menu env.menu_reply ≡ ok menu
  pub fetched : fetch_recipes env.recipe_reply menu 0 p.items (λ k. none) ≡ ok recipes
  pub order_built : build_order env p recipes ≡ some built

-- A creation is refused before it writes, or it comes to its inserts.
pub create_order-cases :
    (env : Env) (p : OrderCreate) (w : World)
    → ((e : Error) × (e ≢ Error.task_publish_failed) × (create_order env p w ≡ (err e, w)))
      ⊎ ((menu : List KitchenMenuItemSnapshot) × (recipes : Recipes) × (built : BuiltTasks)
          × Accepted env p menu recipes built
          × (create_order env p w ≡ place_order env menu p built w))
unfolding create_order
create_order-cases env p w = elim (Result-cases (get_kitchen env.kitchen_reply)) [
  | inr (e, a) ↦ inl (e, λ h. get_kitchen_error env.kitchen_reply (rw (a, h) refl), rw a refl)
  | inl (kitchen, a) ↦ elim (Result-cases (get_kitchen_menu env.menu_reply)) [
    | inr (e, b) ↦
        inl (e, λ h. get_kitchen_menu_error env.menu_reply (rw (b, h) refl), rw (a, b) refl)
    | inl (menu, b) ↦
        elim (Result-cases (fetch_recipes env.recipe_reply menu 0 p.items (λ k. none))) [
          | inr (e, c) ↦ inl (
            e,
            λ h. fetch_recipes_error env.recipe_reply menu 0 p.items (λ k. none) (rw (c, h) refl),
            rw (a, b, c) refl,
          )
          | inl (recipes, c) ↦ elim (Option-cases (build_order env p recipes)) [
            | inl d ↦ inl (Error.missing_recipe, λ h. cc, rw (a, b, c, d) refl)
            | inr (built, d) ↦ inr (
              menu,
              recipes,
              built,
              record {
                kitchen_is_active = (kitchen, a);
                menu_read = b;
                fetched = c;
                order_built = d;
              },
              rw (a, b, c, d) refl,
            )
          ]
        ]
  ]
]
