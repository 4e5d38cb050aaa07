-- ===== src/Fulfillment/Repositories.antt =====
-- services/fulfillment-service/app/repositories.py: the queries, and the writes of a changed row.
use dark_kitchen_simulator.Prelude.{
  ℕ, Option, some, none, List, [], ◌∷◌, Bool, false, ◌&&◌, not, leb, ◌==◌, find, save, count,
  if◌then◌else◌,
}
use dark_kitchen_simulator.Fulfillment.Domain.{is_done}
use dark_kitchen_simulator.Fulfillment.Models.{Order, KitchenTask, TaskDependency, Db}

unfoldable pub get_order : ℕ → Db → Option Order
get_order order_id db = find (λ (o : Order). o.id) order_id db.orders

-- `KitchenTaskRepository.get` and `get_for_update`: the task, and its order is loaded beside it.
unfoldable pub get_task : ℕ → Db → Option KitchenTask
get_task task_id db = find (λ (t : KitchenTask). t.id) task_id db.tasks

-- What a commit writes of a changed task or order: its row.
unfoldable pub save_task : KitchenTask → Db → Db
save_task task db = record db { tasks = save (λ (t : KitchenTask). t.id) task db.tasks }

unfoldable pub save_order : Order → Db → Db
save_order order db = record db { orders = save (λ (o : Order). o.id) order db.orders }

-- The join of `unfinished_dependencies`: a dependency counts while its task is there and not done.
unfoldable pub is_unfinished : Db → ℕ → Bool
unfolding get_task
is_unfinished db task_id = elim (get_task task_id db) [
  | none ↦ false
  | some t ↦ not (is_done t.status)
]

-- ORDER BY depends_on_task_id
unfoldable pub insert_sorted : ℕ → List ℕ → List ℕ
insert_sorted x [] = x ∷ []
insert_sorted x (y ∷ ys) = if leb x y then x ∷ y ∷ ys else y ∷ insert_sorted x ys

unfoldable pub unfinished_rows : ℕ → Db → List TaskDependency → List ℕ
unfinished_rows task_id db [] = []
unfinished_rows task_id db (d ∷ ds) =
    let rest = unfinished_rows task_id db ds in
    if d.task_id == task_id && is_unfinished db d.depends_on_task_id
    then insert_sorted d.depends_on_task_id rest
    else rest

unfoldable pub unfinished_dependencies : ℕ → Db → List ℕ
unfinished_dependencies task_id db = unfinished_rows task_id db db.dependencies

unfoldable pub all_order_tasks_done : ℕ → Db → Bool
all_order_tasks_done order_id db =
    count (λ (t : KitchenTask). t.order_id == order_id && not (is_done t.status)) db.tasks == 0

unfoldable pub completed_order_tasks_count : ℕ → Db → ℕ
completed_order_tasks_count order_id db =
    count (λ (t : KitchenTask). t.order_id == order_id && is_done t.status) db.tasks
