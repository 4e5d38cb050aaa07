-- ===== src/Fulfillment/Orders/Guards.antt =====
-- About the guards of `create_order`, services/fulfillment-service/app/services.py, on the kitchen, the
-- menu and the recipes.
use dark_kitchen_simulator.Prelude.{
  ℕ, suc, ◌≡◌, List, [], ◌∷◌, none, true, inl, inr, arith, All, length, str_eq,
}
use dark_kitchen_simulator.Prelude.Exec.{ok, Result-cases}
use dark_kitchen_simulator.Fulfillment.Models.{World}
use dark_kitchen_simulator.Fulfillment.Schemas.{
  OrderCreate, OrderItemCreate, OrderCreatedRead, KitchenSnapshot, KitchenMenuItemSnapshot,
  RecipeSnapshot,
}
use dark_kitchen_simulator.Fulfillment.Clients.{
  HttpReply, http_error, response, get_kitchen, get_kitchen_menu,
}
use dark_kitchen_simulator.Fulfillment.Builder.{BuiltTasks}
use dark_kitchen_simulator.Fulfillment.Builder.Chains.{count_tasks, build-Built}
use dark_kitchen_simulator.Fulfillment.Orders.{
  Env, Recipes, is_offered, set_recipe, fetch_recipe, fetch_recipes, new_items, new_order,
  publish_and_queue_tasks, place_order, create_order,
}
use dark_kitchen_simulator.Fulfillment.Orders.Failures.{create_order-cases, placed}

fetched_offered :
    (reply : ℕ → HttpReply RecipeSnapshot) (menu : List KitchenMenuItemSnapshot) (n : ℕ)
    (items : List OrderItemCreate) (recipes result : Recipes)
    → fetch_recipes reply menu n items recipes ≡ ok result
    → All (λ (item : OrderItemCreate). is_offered item.menu_item_id menu ≡ true) items
unfolding fetch_recipes
fetched_offered reply menu n [] recipes result h = tt
fetched_offered reply menu n (item ∷ items) recipes result h =
    elim (Result-cases (fetch_recipe (is_offered item.menu_item_id menu) (reply n))) [
      | inl (recipe, done) ↦ (
        ground (arith, done),
        fetched_offered reply menu (suc n) items (set_recipe item.menu_item_id recipe recipes)
            result (ground (arith, done, h)),
      )
      | inr (e, failed) ↦ absurd (ground (arith, failed))
    ]

active_kitchen :
    (r : HttpReply KitchenSnapshot) (kitchen : KitchenSnapshot)
    → get_kitchen r ≡ ok kitchen
    → str_eq kitchen.status "active" ≡ true
unfolding get_kitchen
active_kitchen http_error kitchen h = cc
active_kitchen (response status raises body) kitchen h = ground arith

placed_count :
    (env : Env) (menu : List KitchenMenuItemSnapshot) (p : OrderCreate) (built : BuiltTasks)
    (w : World) (x : OrderCreatedRead)
    → (place_order env menu p built w).0 ≡ ok x
    → x.tasks_count ≡ length built.tasks
unfolding place_order
placed_count env menu p built w x h =
    elim (Result-cases
      (publish_and_queue_tasks env menu (new_order env p) built.tasks (placed env p built w)).0) [
        | inl (k, done) ↦ ground (arith, done)
        | inr (e, failed) ↦ ground (arith, failed)
      ]

-- A creation that returns was for a kitchen that the kitchen service gives as active, every item of it
-- is active and available on the menu that the menu service gives, and it reports as many tasks as the
-- fetched recipes have steps for the ordered quantities.
pub create_order_guarded :
    (env : Env) (p : OrderCreate) (w : World) (x : OrderCreatedRead)
    → (create_order env p w).0 ≡ ok x
    → ((kitchen : KitchenSnapshot) × (get_kitchen env.kitchen_reply ≡ ok kitchen)
        × (str_eq kitchen.status "active" ≡ true))
      × ((menu : List KitchenMenuItemSnapshot) × (recipes : Recipes) × (get_kitchen_menu
              env.menu_reply
            ≡ ok menu)
          × (fetch_recipes env.recipe_reply menu 0 p.items (λ k. none) ≡ ok recipes)
          × All (λ (item : OrderItemCreate). is_offered item.menu_item_id menu ≡ true) p.items
          × (x.tasks_count ≡ count_tasks recipes (new_items env 0 p.items)))
create_order_guarded env p w x h = elim (create_order-cases env p w) [
  | inl (e, _, run) ↦ absurd (ground (arith, run))
  | inr (menu, recipes, built, accepted, run) ↦
      let done : (place_order env menu p built w).0 ≡ ok x = rw run at h in
      let (kitchen, found) = accepted.kitchen_is_active in
      let made =
        build-Built env.uuid4 env.now env.order_id recipes 0 (new_items env 0 p.items) built
          accepted.order_built in
      (
        (kitchen, found, active_kitchen env.kitchen_reply kitchen found),
        (
          menu,
          recipes,
          accepted.menu_read,
          accepted.fetched,
          fetched_offered env.recipe_reply menu 0 p.items (λ k. none) recipes accepted.fetched,
          ground (arith, placed_count env menu p built w x done, made.tasks_count),
        ),
      )
]
