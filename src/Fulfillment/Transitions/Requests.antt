-- ===== src/Fulfillment/Transitions/Requests.antt =====
-- The four requests of services/fulfillment-service/app/api/routes.py that move a task, as one
-- handler, and a sequence of them.
use dark_kitchen_simulator.Prelude.{ℕ, List, [], ◌∷◌}
use dark_kitchen_simulator.Prelude.Exec.{pure, ◌>>=◌}
use dark_kitchen_simulator.Fulfillment.Models.{World}
use dark_kitchen_simulator.Fulfillment.Schemas.{
  TaskSnapshotResponse, MarkDisplayedRequest, MarkDisplayedResponse, StartTaskRequest,
  StartTaskResponse, CompleteTaskRequest, CompleteTaskResponse, DispatchFailedRequest,
}
use dark_kitchen_simulator.Fulfillment.Session.{Handler}
use dark_kitchen_simulator.Fulfillment.Transitions.{
  mark_displayed, start_task, complete_task, dispatch_failed,
}

pub data Request : Type 0 where
  mark_displayed_request : ℕ → MarkDisplayedRequest → Request
  start_request : ℕ → StartTaskRequest → Request
  complete_request : ℕ → CompleteTaskRequest → Request
  dispatch_failed_request : ℕ → DispatchFailedRequest → Request

pub data Response : Type 0 where
  displayed_reply : MarkDisplayedResponse → Response
  start_reply : StartTaskResponse → Response
  complete_reply : CompleteTaskResponse → Response
  failed_reply : TaskSnapshotResponse → Response

unfoldable pub handle : Request → Handler Response
handle (mark_displayed_request id p) = do r ← mark_displayed id p; pure (displayed_reply r)
handle (start_request id p) = do r ← start_task id p; pure (start_reply r)
handle (complete_request id p) = do r ← complete_task id p; pure (complete_reply r)
handle (dispatch_failed_request id p) = do r ← dispatch_failed id p; pure (failed_reply r)

-- A refused request is answered with its error; the next one meets the state that it left.
unfoldable pub serve : List Request → World → World
serve [] w = w
serve (r ∷ rs) w = serve rs (handle r w).1
