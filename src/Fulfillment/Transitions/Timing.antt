-- ===== src/Fulfillment/Transitions/Timing.antt =====
-- About the times that `start_task` and `complete_task` of services/fulfillment-service/app/services.py
-- write: how long a task took, and how late it was.
use dark_kitchen_simulator.Prelude.{ℕ, ◌-◌, ◌/◌, ◌≤◌, ◌≡◌, refl, some, false, arith}
use dark_kitchen_simulator.Prelude.Exec.{Result, ok}
use dark_kitchen_simulator.Prelude.Time.{
  Datetime, microseconds, to_utc, add_seconds, seconds_since, naive, aware,
}
use dark_kitchen_simulator.Fulfillment.Domain.{is_in_progress}
use dark_kitchen_simulator.Fulfillment.Models.{Order, KitchenTask, World}
use dark_kitchen_simulator.Fulfillment.Schemas.{
  StartTaskRequest, StartTaskResponse, CompleteTaskRequest, CompleteTaskResponse,
}
use dark_kitchen_simulator.Fulfillment.Transitions.{start_task, complete_task, started_row}
use dark_kitchen_simulator.Fulfillment.Transitions.Effects.{
  Loaded, started_world, start_fresh, complete_fresh, complete_in_order,
}
use dark_kitchen_simulator.Fulfillment.Transitions.Replay.{started-Loaded}

-- Lateness past a deadline that was set `n` seconds after the start.
seconds_since_deadline :
    (c s : Datetime) (n : ℕ)
    → seconds_since c (to_utc (add_seconds s n)) ≡ seconds_since c (to_utc s) - n
seconds_since_deadline c (naive s) n = ground arith
seconds_since_deadline c (aware s) n = ground arith

reply_of :
    {E A W : Type 0} {run : Result E A × W} {a : A} {b : A} {w : W}
    → run ≡ (ok a, w)
    → run.0 ≡ ok b
    → a ≡ b
reply_of e h = ground arith

-- Of a task that was not in progress, whose start is accepted and then, from the state that it leaves,
-- its completion: the completion is not before the start, the duration is the whole seconds between
-- them, and the delay is what the duration has over the estimate, or 0.
pub delay_of_completed :
    (id : ℕ) (w : World) (task : KitchenTask) (order : Order) (p : StartTaskRequest)
    (x : StartTaskResponse) (q : CompleteTaskRequest) (y : CompleteTaskResponse)
    → Loaded id w task order
    → is_in_progress task.status ≡ false
    → (start_task id p w).0 ≡ ok x
    → (complete_task id q (start_task id p w).1).0 ≡ ok y
    → let s = microseconds p.started_at in
      let c = microseconds q.completed_at in
      (s ≤ c)
      × (y.actual_duration_seconds ≡ some ((c - s) / 1000000))
      × (y.delay_seconds ≡ some ((c - s) / 1000000 - task.estimated_duration_seconds))
delay_of_completed id w task order p x q y l fresh started completed =
    let w' = started_world p task order w in
    let row = started_row p task in
    let e = start_fresh id w task order l p x fresh started in
    let completed' : (complete_task id q w').0 ≡ ok y = rw e at completed in
    let l' = started-Loaded id w task order l p in
    let f = complete_fresh id w' row _ l' q y (to_utc p.started_at) refl refl completed' in
    let in_order =
      complete_in_order id w' row _ l' q y (to_utc p.started_at) refl refl completed' in
    let reply = reply_of f completed' in
    (
      ground (arith, in_order),
      ground (arith, reply, in_order),
      ground (
        arith,
        reply,
        in_order,
        seconds_since_deadline (to_utc q.completed_at) p.started_at task.estimated_duration_seconds,
      ),
    )
