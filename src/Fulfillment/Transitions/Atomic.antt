-- ===== src/Fulfillment/Transitions/Atomic.antt =====
-- About the refusals of class TaskTransitionService, services/fulfillment-service/app/services.py.
use dark_kitchen_simulator.Prelude.{◌≡◌, arith}
use dark_kitchen_simulator.Prelude.Exec.{err}
use dark_kitchen_simulator.Fulfillment.Domain.{Error}
use dark_kitchen_simulator.Fulfillment.Models.{World}
use dark_kitchen_simulator.Fulfillment.Transitions.{
  mark_displayed, start_task, complete_task, dispatch_failed,
}
use dark_kitchen_simulator.Fulfillment.Transitions.Requests.{
  Request, handle, mark_displayed_request, start_request, complete_request, dispatch_failed_request,
}

-- A refused request leaves the tables, the metrics and the events as they were.
handle_refused : (r : Request) (w : World) (e : Error) → (handle r w).0 ≡ err e → (handle r w).1 ≡ w
unfolding handle mark_displayed start_task complete_task dispatch_failed
handle_refused (mark_displayed_request id p) w e h = ground arith
handle_refused (start_request id p) w e h = ground arith
handle_refused (complete_request id p) w e h = ground arith
handle_refused (dispatch_failed_request id p) w e h = ground arith
