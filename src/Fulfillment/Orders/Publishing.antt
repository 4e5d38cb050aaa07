-- ===== src/Fulfillment/Orders/Publishing.antt =====
-- About the messages that `_publish_and_queue_tasks` of services/fulfillment-service/app/services.py
-- publishes.
use dark_kitchen_simulator.Prelude.{
  ℕ, suc, ◌+◌, String, ◌≡◌, List, [], ◌∷◌, inl, inr, arith, length, if◌then◌else◌,
}
use dark_kitchen_simulator.Prelude.Exec.{ok, Result-cases}
use dark_kitchen_simulator.Fulfillment.Models.{Order, KitchenTask, World}
use dark_kitchen_simulator.Fulfillment.Schemas.{
  OrderCreate, OrderCreatedRead, KitchenMenuItemSnapshot,
}
use dark_kitchen_simulator.Fulfillment.Builder.{BuiltTasks}
use dark_kitchen_simulator.Fulfillment.Orders.{
  Env, new_order, publish_task, publish_tasks, menu_item_name, publish_and_queue_tasks, place_order,
  create_order,
}
use dark_kitchen_simulator.Fulfillment.Orders.Failures.{
  announce_queued-ok, placed, queued_world, create_order-cases,
}

published :
    (env : Env) (menu : List KitchenMenuItemSnapshot) (order : Order) (n : ℕ)
    (tasks : List KitchenTask) (w : World) (ps : List (KitchenTask × String × String))
    → (publish_tasks env menu order n tasks w).0 ≡ ok ps
    → (length ps ≡ length tasks)
      × (length (publish_tasks env menu order n tasks w).1.messages
          ≡ length w.messages + length tasks)
unfolding publish_tasks
published env menu order n [] w ps h = ground arith
published env menu order n (t ∷ ts) w ps h =
    let w' = (publish_task env n t order (menu_item_name t.menu_item_id menu) w).1 in
    elim (Result-cases (publish_tasks env menu order (suc n) ts w').0) [
      | inl (rest, done) ↦ ground (arith, done, published env menu order (suc n) ts w' rest done)
      | inr (e, failed) ↦ ground (arith, failed)
    ]

queued :
    (env : Env) (menu : List KitchenMenuItemSnapshot) (order : Order) (tasks : List KitchenTask)
    (w : World) (k : ℕ)
    → (publish_and_queue_tasks env menu order tasks w).0 ≡ ok k
    → (k ≡ (if env.has_publisher then length tasks else 0))
      × (length (publish_and_queue_tasks env menu order tasks w).1.messages ≡ length w.messages + k)
unfolding publish_and_queue_tasks
queued env menu order tasks w k h = elim (Result-cases (publish_tasks env menu order 0 tasks w).0) [
  | inl (ps, done) ↦ ground (
    arith,
    done,
    published env menu order 0 tasks w ps done,
    announce_queued-ok env order ps
        (queued_world env ps (publish_tasks env menu order 0 tasks w).1),
  )
  | inr (e, failed) ↦ ground (arith, failed)
]

place_order_queued :
    (env : Env) (menu : List KitchenMenuItemSnapshot) (p : OrderCreate) (built : BuiltTasks)
    (w : World) (x : OrderCreatedRead)
    → (place_order env menu p built w).0 ≡ ok x
    → (x.queued_tasks_count ≡ (if env.has_publisher then x.tasks_count else 0))
      × (length (place_order env menu p built w).1.messages
          ≡ length w.messages + x.queued_tasks_count)
unfolding place_order
place_order_queued env menu p built w x h =
    elim (Result-cases
      (publish_and_queue_tasks env menu (new_order env p) built.tasks (placed env p built w)).0) [
        | inl (k, done) ↦ ground (
          arith,
          done,
          queued env menu (new_order env p) built.tasks (placed env p built w) k done,
        )
        | inr (e, failed) ↦ ground (arith, failed)
      ]

-- A creation that returns has published one message for each task that it reports as queued: for all
-- of the order's tasks if a publisher is configured, and else for none.
create_order_published :
    (env : Env) (p : OrderCreate) (w : World) (x : OrderCreatedRead)
    → (create_order env p w).0 ≡ ok x
    → (x.queued_tasks_count ≡ (if env.has_publisher then x.tasks_count else 0))
      × (length (create_order env p w).1.messages ≡ length w.messages + x.queued_tasks_count)
create_order_published env p w x h = elim (create_order-cases env p w) [
  | inl (e, _, run) ↦ absurd (ground (arith, run))
  | inr (menu, recipes, built, _, run) ↦
      let done : (place_order env menu p built w).0 ≡ ok x = rw run at h in
      rw run (place_order_queued env menu p built w x done)
]
