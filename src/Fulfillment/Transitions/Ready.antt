-- ===== src/Fulfillment/Transitions/Ready.antt =====
-- About the orders that `complete_task` of services/fulfillment-service/app/services.py makes ready.
use dark_kitchen_simulator.Prelude.{
  ℕ, refl, Bool, ◌+◌, ◌≡◌, ◌⊎◌, inl, inr, true, none, some, not, List, [], ◌∷◌, arith, ◌==◌, ◌&&◌,
  if◌then◌else◌, count, save, count-save, key_of_found, All, All-save, Option-cases,
}
use dark_kitchen_simulator.Fulfillment.Domain.{OrderStatus, is_done, can_transition}
use dark_kitchen_simulator.Fulfillment.Models.{Order, KitchenTask, Db, World}
use dark_kitchen_simulator.Fulfillment.Repositories.{
  get_task, get_order, save_task, save_order, all_order_tasks_done,
}
use dark_kitchen_simulator.Fulfillment.Transitions.{
  mark_displayed, start_task, complete_task, dispatch_failed,
}
use dark_kitchen_simulator.Fulfillment.Transitions.Requests.{
  Request, handle, serve, mark_displayed_request, start_request, complete_request,
  dispatch_failed_request,
}
use dark_kitchen_simulator.Fulfillment.Transitions.Writes.{
  task_key, task_id_of, TaskWrite, unchanged, wrote, handle-TaskWrite,
}
use dark_kitchen_simulator.Fulfillment.Transitions.Replay.{order_key}

abbrev is_open : ℕ → KitchenTask → Bool
is_open k t = t.order_id == k && not (is_done t.status)

leaves_none :
    (m n : ℕ) (p q : Bool)
    → m + (if p then 1 else 0) ≡ n + (if q then 1 else 0)
    → n ≡ 0
    → (q ≡ true → p ≡ true)
    → m ≡ 0
leaves_none m n p q e z imp = ground arith

was_open :
    (k : ℕ) (task row : KitchenTask)
    → row.order_id ≡ task.order_id
    → can_transition task.status row.status ≡ true
    → is_open k row ≡ true
    → is_open k task ≡ true
unfolding can_transition
was_open k task row e allowed h = ground arith

-- A write of the table of tasks opens no task of an order that has none open.
open_stays_zero :
    (k : ℕ) (before after : List KitchenTask)
    → TaskWrite before after
    → count (is_open k) before ≡ 0
    → count (is_open k) after ≡ 0
open_stays_zero k before after (unchanged e) h = rw e h
open_stays_zero k before after (wrote task row found same_order allowed rows) h = rw rows (
    leaves_none _ _ (is_open k task) (is_open k row)
      (count-save task_key (is_open k) row.id row task before found refl) h
      (was_open k task row same_order allowed))

-- The order, if it is ready, has all its tasks done.
abbrev pub ReadyIsDoneAt : Db → Order → Type 0
ReadyIsDoneAt db o = o.status ≡ OrderStatus.ready_for_pickup → all_order_tasks_done o.id db ≡ true

-- Every order that is ready has all its tasks done.
abbrev pub ReadyIsDone : Db → Type 0
ReadyIsDone db = All (ReadyIsDoneAt db) db.orders

stays_done :
    (k : ℕ) (a b : Db)
    → TaskWrite a.tasks b.tasks
    → all_order_tasks_done k a ≡ true
    → all_order_tasks_done k b ≡ true
unfolding all_order_tasks_done
stays_done k a b t h =
    let z = open_stays_zero k a.tasks b.tasks t (ground arith) in ground (arith, z)

carried :
    (a b : Db)
    → TaskWrite a.tasks b.tasks
    → (os : List Order) → All (ReadyIsDoneAt a) os
    → All (ReadyIsDoneAt b) os
carried a b t [] h = tt
carried a b t (o ∷ os) h = (λ ready. stays_done o.id a b t (h.0 ready), carried a b t os h.1)

module _ (w : World) (task : KitchenTask) (order : Order) where
  abbrev OrderWrite : Request → Type 0
  OrderWrite r =
      ((handle r w).1.db.orders ≡ w.db.orders)
      ⊎ ((handle r w).1.db.orders
          ≡ save order_key (record order { status = OrderStatus.cooking }) w.db.orders)
      ⊎ (((handle r w).1.db.orders
            ≡ save order_key (record order { status = OrderStatus.ready_for_pickup }) w.db.orders)
          × (all_order_tasks_done task.order_id (handle r w).1.db ≡ true))

  order_writes :
      (r : Request)
      → get_task (task_id_of r) w.db ≡ some task
      → get_order task.order_id w.db ≡ some order
      → OrderWrite r
  unfolding handle mark_displayed start_task complete_task dispatch_failed save_task save_order
      all_order_tasks_done
  order_writes (mark_displayed_request id p) f g = ground arith
  order_writes (start_request id p) f g = ground arith
  order_writes (complete_request id p) f g = ground arith
  order_writes (dispatch_failed_request id p) f g = ground arith

orders_lost :
    (w : World) (task : KitchenTask) (r : Request)
    → get_task (task_id_of r) w.db ≡ some task
    → get_order task.order_id w.db ≡ none
    → (handle r w).1.db.orders ≡ w.db.orders
unfolding handle mark_displayed start_task complete_task dispatch_failed
orders_lost w task (mark_displayed_request id p) f g = ground arith
orders_lost w task (start_request id p) f g = ground arith
orders_lost w task (complete_request id p) f g = ground arith
orders_lost w task (dispatch_failed_request id p) f g = ground arith

orders_missing :
    (r : Request) (w : World)
    → get_task (task_id_of r) w.db ≡ none
    → (handle r w).1.db.orders ≡ w.db.orders
unfolding handle mark_displayed start_task complete_task dispatch_failed
orders_missing (mark_displayed_request id p) w f = ground arith
orders_missing (start_request id p) w f = ground arith
orders_missing (complete_request id p) w f = ground arith
orders_missing (dispatch_failed_request id p) w f = ground arith

ready_when :
    (w : World) (task : KitchenTask) (order : Order) (db : Db)
    → get_order task.order_id w.db ≡ some order
    → all_order_tasks_done task.order_id db ≡ true
    → ReadyIsDoneAt db (record order { status = OrderStatus.ready_for_pickup })
unfolding get_order
ready_when w task order db found done ready =
    rw (key_of_found order_key task.order_id w.db.orders order found) done

handle-orders :
    (r : Request) (w : World) (task : KitchenTask) (order : Order)
    → get_order task.order_id w.db ≡ some order
    → OrderWrite w task order r
    → All (ReadyIsDoneAt (handle r w).1.db) w.db.orders
    → ReadyIsDone (handle r w).1.db
handle-orders r w task order found (inl same) h = rw same h
handle-orders r w task order found (inr (inl cooking)) h =
    rw cooking (All-save order_key _ _ _ (λ e. cc) h)
handle-orders r w task order found (inr (inr (ready, done))) h =
    rw ready (All-save order_key _ _ _ (ready_when w task order _ found done) h)

-- Whatever the request, an order is ready afterwards only if all its tasks are done.
pub handle-ReadyIsDone :
    (r : Request) (w : World) → ReadyIsDone w.db → ReadyIsDone (handle r w).1.db
handle-ReadyIsDone r w h =
    let h' = carried w.db (handle r w).1.db (handle-TaskWrite r w) w.db.orders h in
    elim (Option-cases (get_task (task_id_of r) w.db)) [
      | inl missing ↦ rw (orders_missing r w missing) h'
      | inr (task, found) ↦ elim (Option-cases (get_order task.order_id w.db)) [
        | inl lost ↦ rw (orders_lost w task r found lost) h'
        | inr (order, order_found) ↦
            handle-orders r w task order order_found (order_writes w task order r found order_found)
              h'
      ]
    ]

-- If every order that is ready for pickup has all its tasks done, so it is after any sequence of
-- requests, accepted or not.
pub serve-ReadyIsDone :
    (rs : List Request) (w : World) → ReadyIsDone w.db → ReadyIsDone (serve rs w).db
unfolding serve
serve-ReadyIsDone [] w h = h
serve-ReadyIsDone (r ∷ rs) w h = serve-ReadyIsDone rs (handle r w).1 (handle-ReadyIsDone r w h)
