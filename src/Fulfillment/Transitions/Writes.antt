-- ===== src/Fulfillment/Transitions/Writes.antt =====
-- About what a request to class TaskTransitionService, services/fulfillment-service/app/services.py,
-- writes to the table of tasks.
use dark_kitchen_simulator.Prelude.{
  ℕ, ◌≡◌, ◌⊎◌, inl, inr, true, none, some, List, arith, find, save, key_of_found, Option-cases,
}
use dark_kitchen_simulator.Prelude.Time.{to_utc}
use dark_kitchen_simulator.Fulfillment.Domain.{can_transition}
use dark_kitchen_simulator.Fulfillment.Models.{KitchenTask, World}
use dark_kitchen_simulator.Fulfillment.Repositories.{get_task, save_task, save_order}
use dark_kitchen_simulator.Fulfillment.Responses.{as_utc}
use dark_kitchen_simulator.Fulfillment.Transitions.{
  mark_displayed, start_task, complete_task, dispatch_failed, displayed_row, started_row,
  completed_row, failed_row,
}
use dark_kitchen_simulator.Fulfillment.Transitions.Requests.{
  Request, handle, mark_displayed_request, start_request, complete_request, dispatch_failed_request,
}

-- The key of the table of tasks.
abbrev pub task_key : KitchenTask → ℕ
task_key t = t.id

-- The row that a request writes in place of `task`.
unfoldable pub row_of : Request → KitchenTask → KitchenTask
row_of (mark_displayed_request id p) task = displayed_row p task
row_of (start_request id p) task = started_row p task
row_of (complete_request id p) task = elim (as_utc task.started_at) [
  | none ↦ task
  | some started_at ↦ completed_row started_at (to_utc p.completed_at) task
]
row_of (dispatch_failed_request id p) task = failed_row p task

abbrev pub task_id_of : Request → ℕ
task_id_of (mark_displayed_request id p) = id
task_id_of (start_request id p) = id
task_id_of (complete_request id p) = id
task_id_of (dispatch_failed_request id p) = id

abbrev Wrote : Request → KitchenTask → World → Type 0
Wrote r task w =
    (can_transition task.status (row_of r task).status ≡ true)
    × ((handle r w).1.db.tasks ≡ save task_key (row_of r task) w.db.tasks)

writes_found :
    (r : Request) (w : World) (task : KitchenTask)
    → get_task (task_id_of r) w.db ≡ some task
    → ((handle r w).1.db.tasks ≡ w.db.tasks) ⊎ Wrote r task w
unfolding handle mark_displayed start_task complete_task dispatch_failed row_of save_task save_order
writes_found (mark_displayed_request id p) w task h = ground arith
writes_found (start_request id p) w task h = ground arith
writes_found (complete_request id p) w task h = ground arith
writes_found (dispatch_failed_request id p) w task h = ground arith

-- A request for a task that is not there writes nothing.
writes_missing :
    (r : Request) (w : World)
    → get_task (task_id_of r) w.db ≡ none
    → (handle r w).1.db.tasks ≡ w.db.tasks
unfolding handle mark_displayed start_task complete_task dispatch_failed
writes_missing (mark_displayed_request id p) w h = ground arith
writes_missing (start_request id p) w h = ground arith
writes_missing (complete_request id p) w h = ground arith
writes_missing (dispatch_failed_request id p) w h = ground arith

-- The row keeps the task's identity and its order.
pub row_of_keeps :
    (r : Request) (task : KitchenTask)
    → ((row_of r task).id ≡ task.id) × ((row_of r task).order_id ≡ task.order_id)
unfolding row_of
row_of_keeps (mark_displayed_request id p) task = ground arith
row_of_keeps (start_request id p) task = ground arith
row_of_keeps (complete_request id p) task = ground arith
row_of_keeps (dispatch_failed_request id p) task = ground arith

-- What a request does to the table: the row that it found, and the row in its place.
pub data TaskWrite (before after : List KitchenTask) : Type 0 where
  unchanged : after ≡ before → TaskWrite before after
  wrote :
      (task row : KitchenTask)
      → find task_key row.id before ≡ some task
      → row.order_id ≡ task.order_id
      → can_transition task.status row.status ≡ true
      → after ≡ save task_key row before
      → TaskWrite before after

-- Every request is one write of the table of tasks, or none.
pub handle-TaskWrite : (r : Request) (w : World) → TaskWrite w.db.tasks (handle r w).1.db.tasks
unfolding get_task
handle-TaskWrite r w = elim (Option-cases (get_task (task_id_of r) w.db)) [
  | inl missing ↦ unchanged (writes_missing r w missing)
  | inr (task, found) ↦ elim (writes_found r w task found) [
    | inl same ↦ unchanged same
    | inr (allowed, rows) ↦
        wrote task (row_of r task)
          (ground (
            arith,
            found,
            row_of_keeps r task,
            key_of_found task_key (task_id_of r) w.db.tasks task found,
          ))
          (row_of_keeps r task).1 allowed rows
  ]
]
