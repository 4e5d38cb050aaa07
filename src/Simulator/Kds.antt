-- ===== src/Simulator/Kds.antt =====
-- services/station-simulator-service/app/kds_client: the client of the kitchen service, on the reply
-- of httpx.
use dark_kitchen_simulator.Prelude.{ℕ, String, Option, none, some, List, leb, ◌==◌, if◌then◌else◌}
use dark_kitchen_simulator.Prelude.Exec.{Result, ok, err}
use dark_kitchen_simulator.Prelude.Time.{Datetime}

pub record KdsTask : Type 0 where
  pub kds_task_id : ℕ
  pub task_id : ℕ
  pub order_id : ℕ
  pub station_id : ℕ
  pub operation : String
  pub menu_item_name : Option String
  pub status : String
  pub estimated_duration_seconds : ℕ
  pub pickup_deadline : Option Datetime
  pub displayed_at : Datetime

pub record ClaimResponse : Type 0 where
  pub kds_task_id : ℕ
  pub task_id : ℕ
  pub station_id : ℕ
  pub status : String
  pub claimed_by : String
  pub claimed_at : Datetime

pub record CompleteResponse : Type 0 where
  pub kds_task_id : ℕ
  pub task_id : ℕ
  pub station_id : ℕ
  pub status : String
  pub claimed_by : String
  pub completed_at : Datetime

-- What a call of httpx gives: a TimeoutException, another HTTPError, or a response with its status, the
-- reason that its body names, and the value that the body is validated as, if it is.
pub data HttpReply (A : Type 0) : Type 0 where
  timeout http_error : HttpReply A
  response : ℕ → String → Option A → HttpReply A

-- The exceptions of schemas.py, with the ValidationError of a body.
pub data KdsError : Type 0 where
  retryable client_error conflict : String → KdsError
  invalid_body : KdsError

abbrev validated : {A : Type 0} → Option A → Result KdsError A
validated none = err invalid_body
validated (some a) = ok a

-- `_raise_for_retryable`, and the test of the status that follows it.
unfoldable pub checked : {A : Type 0} → ℕ → String → Option A → Result KdsError A
checked status reason body =
    if leb 500 status
    then err (retryable reason)
    else if leb 400 status
    then err (client_error reason)
    else validated body

unfoldable pub get_station_tasks : HttpReply (List KdsTask) → Result KdsError (List KdsTask)
get_station_tasks timeout = err (retryable "kds_timeout")
get_station_tasks http_error = err (retryable "kds_unavailable")
get_station_tasks (response status reason body) = checked status reason body

unfoldable pub claim_task : HttpReply ClaimResponse → Result KdsError ClaimResponse
claim_task timeout = err (retryable "kds_timeout")
claim_task http_error = err (retryable "kds_unavailable")
claim_task (response status reason body) =
    if status == 409 then err (conflict reason) else checked status reason body

unfoldable pub complete_task : HttpReply CompleteResponse → Result KdsError CompleteResponse
complete_task timeout = err (retryable "kds_timeout")
complete_task http_error = err (retryable "kds_unavailable")
complete_task (response status reason body) = checked status reason body
