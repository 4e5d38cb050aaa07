-- ===== src/Floor/Orders.antt =====
-- About a displayed task of services/fulfillment-service/app/services.py that is started and completed.
use dark_kitchen_simulator.Prelude.{ℕ, ◌≡◌, some, true, false, arith}
use dark_kitchen_simulator.Prelude.Exec.{ok}
use dark_kitchen_simulator.Prelude.Time.{Datetime, to_utc, is_before}
use dark_kitchen_simulator.Fulfillment.Domain.{is_displayed, is_in_progress, can_transition}
use dark_kitchen_simulator.Fulfillment.Models.{Order, KitchenTask, World}
use dark_kitchen_simulator.Fulfillment.Schemas.{StartTaskRequest, CompleteTaskRequest}
use dark_kitchen_simulator.Fulfillment.Transitions.{
  same_id, start_task, started_row, complete_task, completed_row,
}
use dark_kitchen_simulator.Fulfillment.Responses.{as_utc, start_response, complete_response}
use dark_kitchen_simulator.Fulfillment.Transitions.Effects.{Loaded, started_world}

module _ (id : ℕ) (f : World) (task : KitchenTask) (order : Order)
    (l : Loaded id f task order) where
  pub displayed_starts :
      (b : StartTaskRequest)
      → is_displayed task.status ≡ true
      → same_id task.station_id b.station_id ≡ true
      → same_id task.kds_task_id b.kds_task_id ≡ true
      → start_task id b f ≡ (ok (start_response (started_row b task)), started_world b task order f)
  unfolding start_task can_transition
  displayed_starts b shown a c = ground (arith, l.task_found, l.order_found)

  pub started_completes :
      (b : CompleteTaskRequest) (s : Datetime)
      → is_in_progress task.status ≡ true
      → same_id task.station_id b.station_id ≡ true
      → same_id task.kds_task_id b.kds_task_id ≡ true
      → as_utc task.started_at ≡ some s
      → is_before (to_utc b.completed_at) s ≡ false
      → (complete_task id b f).0
        ≡ ok (complete_response (completed_row s (to_utc b.completed_at) task))
  unfolding complete_task can_transition
  started_completes b s cooking a c started in_order = ground (arith, l.task_found, l.order_found)
