-- ===== src/Fulfillment/Session.antt =====
-- What every method of services/fulfillment-service/app/services.py works with: the session, the metrics
-- and the event writer as a state, and a task with its order.
use dark_kitchen_simulator.Prelude.{ℕ, ◌∷◌}
use dark_kitchen_simulator.Prelude.Exec.{Exec, gets, modify, or_raise, ◌>>=◌}
use dark_kitchen_simulator.Fulfillment.Domain.{Error}
use dark_kitchen_simulator.Fulfillment.Models.{Order, KitchenTask, Metric, Event, World}
use dark_kitchen_simulator.Fulfillment.Repositories.{get_order, get_task, save_task, save_order}

abbrev pub Handler : Type 0 → Type 0
Handler A = Exec Error World A

-- The writes on the state: a row, a metric, an event.
abbrev pub write_task : KitchenTask → Handler (Unit {0})
write_task task = modify (λ (w : World). record w { db = save_task task w.db })

abbrev pub write_order : Order → Handler (Unit {0})
write_order order = modify (λ (w : World). record w { db = save_order order w.db })

abbrev pub observe : Metric → Handler (Unit {0})
observe m = modify (λ (w : World). record w { metrics = m ∷ w.metrics })

-- `_safe_event_write`: a failing write is logged and goes no further.
abbrev pub safe_event_write : Event → Handler (Unit {0})
safe_event_write e = modify (λ (w : World). record w { events = e ∷ w.events })

-- `_get_task_for_transition`, and `task.order`
abbrev pub get_task_for_transition : ℕ → Handler KitchenTask
get_task_for_transition task_id = do
  found ← gets (λ (w : World). get_task task_id w.db)
  or_raise found Error.task_not_found

abbrev pub order_of : KitchenTask → Handler Order
order_of task = do
  found ← gets (λ (w : World). get_order task.order_id w.db)
  or_raise found Error.missing_order
