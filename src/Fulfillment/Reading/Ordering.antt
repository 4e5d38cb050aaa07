-- ===== src/Fulfillment/Reading/Ordering.antt =====
-- About the tasks of an order that services/fulfillment-service/app/services.py lists.
use dark_kitchen_simulator.Prelude.{ℕ, Bool, ◌&&◌, ◌==◌}
use dark_kitchen_simulator.Fulfillment.Models.{KitchenTask}
use dark_kitchen_simulator.Fulfillment.Reading.{KitchenTaskRead}

abbrev has_id : ℕ → KitchenTask → Bool
has_id i t = t.id == i

abbrev pub read_has_id : ℕ → KitchenTaskRead → Bool
read_has_id i t = t.id == i

abbrev pub in_order : ℕ → ℕ → KitchenTask → Bool
in_order order_id i t = t.order_id == order_id && t.id == i
