-- ===== src/Handoff.antt =====
-- A claim across the services: `claim_task` of services/kitchen-service/app/services.py, whose call of
-- the fulfillment service (app/clients.py) is answered by `start_task` of
-- services/fulfillment-service/app/services.py, if the network carries it.
pub mod Calls
pub mod Agreement
pub mod Recovery
pub mod Completion
mod Tests
use dark_kitchen_simulator.Prelude.{ℕ, String, Option, Bool, true, false}
use dark_kitchen_simulator.Prelude.Exec.{Result, ok, err}
use dark_kitchen_simulator.Prelude.Time.{Datetime}
use dark_kitchen_simulator.Fulfillment.Domain as FulfillmentDomain
use dark_kitchen_simulator.Fulfillment.Domain.{status_code}
use dark_kitchen_simulator.Fulfillment.Schemas.{StartTaskRequest, StartTaskResponse}
use dark_kitchen_simulator.Fulfillment.Models as Orders
use dark_kitchen_simulator.Fulfillment.Transitions as Service
use dark_kitchen_simulator.Kitchen.Models.{
  Station, KdsStationTask, KdsTaskClaimRequest, World, Error,
}
use dark_kitchen_simulator.Kitchen.Client.{HttpReply, timeout, response}
use dark_kitchen_simulator.Kitchen.Session.{Env, or_else}
use dark_kitchen_simulator.Kitchen.Kds.{claim_begin, claim_task}

-- What becomes of a call: it is answered, its answer is lost, or it is lost itself.
pub data Network : Type 0 where
  answers loses_reply loses_request : Network

-- The body that `FulfillmentClient.start_task` sends.
abbrev pub start_body : Env → KdsTaskClaimRequest → KdsStationTask → Station → StartTaskRequest
start_body env p task station = record {
  station_id = station.id;
  kds_task_id = task.id;
  station_worker_id = p.station_worker_id;
  started_at = or_else p.claimed_at env.now;
}

-- The response of the fulfillment service's route: 200, or the status of the error, at which
-- `raise_for_status` raises.
abbrev pub reply_of : {A : Type 0} → Result FulfillmentDomain.Error A → HttpReply
reply_of (ok x) = response 200 false
reply_of (err e) = response (status_code e) true

-- The call, on the fulfillment service's state.
abbrev pub call_start :
    Network
    → Env
    → KdsTaskClaimRequest
    → KdsStationTask × Station
    → Orders.World
    → HttpReply × Orders.World
call_start answers env p (task, station) w =
    let (r, w') = Service.start_task task.task_id (start_body env p task station) w in
    (reply_of r, w')
call_start loses_reply env p (task, station) w =
    (timeout, (Service.start_task task.task_id (start_body env p task station) w).1)
call_start loses_request env p rows w = (timeout, w)

-- A claim that is refused before its commit makes no call.
abbrev pub call_of :
    Network
    → Env
    → KdsTaskClaimRequest
    → Result Error (KdsStationTask × Station)
    → Orders.World
    → HttpReply × Orders.World
call_of net env p (err e) w = (env.reply, w)
call_of net env p (ok rows) w = call_start net env p rows w

-- The claim, on the states of both services.
unfoldable pub claim_across :
    Network
    → Env
    → ℕ
    → ℕ
    → KdsTaskClaimRequest
    → Option String
    → World × Orders.World
    → Result Error KdsStationTask × World × Orders.World
claim_across net env k id p corr (w, f) =
    let begun = claim_begin env k id p corr (env.others_at_lock w) in
    let (reply, f') = call_of net env p begun.0 f in
    let (r, w') = claim_task (record env { reply = reply }) k id p corr w in (r, w', f')
