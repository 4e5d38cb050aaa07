-- ===== src/Fulfillment/Reading/Tests.antt =====
-- The listing of an order's tasks at a concrete order.
use dark_kitchen_simulator.Prelude.{◌≡◌, refl, [], ◌∷◌, find, select}
use dark_kitchen_simulator.Prelude.Exec.{ok}
use dark_kitchen_simulator.Prelude.Sort.{sort, insert}
use dark_kitchen_simulator.Fulfillment.Models.{World}
use dark_kitchen_simulator.Fulfillment.Repositories.{get_order}
use dark_kitchen_simulator.Fulfillment.Samples.{cooking, waiting, world}
use dark_kitchen_simulator.Fulfillment.Reading.{task_read, list_by_order, list_order_tasks}

abbrev shuffled : World
shuffled = world waiting (cooking ∷ [])

list_run :
    (list_order_tasks 1 shuffled).0
    ≡ ok (task_read shuffled.db cooking ∷ task_read shuffled.db waiting ∷ [])
unfolding list_order_tasks list_by_order get_order find select sort insert
list_run = refl
