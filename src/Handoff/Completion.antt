-- ===== src/Handoff/Completion.antt =====
-- A completion across the services: `complete_task` of services/kitchen-service/app/services.py, whose
-- call of the fulfillment service (app/clients.py) is answered by `complete_task` of
-- services/fulfillment-service/app/services.py, if the network carries it.
pub mod Calls
pub mod Agreement
mod Tests
use dark_kitchen_simulator.Prelude.{ℕ, String, Option, false}
use dark_kitchen_simulator.Prelude.Exec.{Result, ok, err}
use dark_kitchen_simulator.Fulfillment.Schemas.{CompleteTaskRequest}
use dark_kitchen_simulator.Fulfillment.Models as Orders
use dark_kitchen_simulator.Fulfillment.Transitions as Service
use dark_kitchen_simulator.Kitchen.Models.{
  Station, KdsStationTask, KdsTaskCompleteRequest, World, Error,
}
use dark_kitchen_simulator.Kitchen.Client.{HttpReply, timeout}
use dark_kitchen_simulator.Kitchen.Session.{Env, or_else}
use dark_kitchen_simulator.Kitchen.Kds.{complete_begin, complete_task}
use dark_kitchen_simulator.Handoff.{Network, answers, loses_reply, loses_request, reply_of}

-- The body that `FulfillmentClient.complete_task` sends.
abbrev pub complete_body :
    Env → KdsTaskCompleteRequest → KdsStationTask → Station → CompleteTaskRequest
complete_body env p task station = record {
  station_id = station.id;
  kds_task_id = task.id;
  station_worker_id = p.station_worker_id;
  completed_at = or_else p.completed_at env.now;
}

-- The call, on the fulfillment service's state.
abbrev pub call_complete :
    Network
    → Env
    → KdsTaskCompleteRequest
    → KdsStationTask × Station
    → Orders.World
    → HttpReply × Orders.World
call_complete answers env p (task, station) w =
    let (r, w') = Service.complete_task task.task_id (complete_body env p task station) w in
    (reply_of r, w')
call_complete loses_reply env p (task, station) w =
    (timeout, (Service.complete_task task.task_id (complete_body env p task station) w).1)
call_complete loses_request env p rows w = (timeout, w)

-- A completion that is refused before the call makes none.
abbrev pub call_if_begun :
    Network
    → Env
    → KdsTaskCompleteRequest
    → Result Error (KdsStationTask × Station)
    → Orders.World
    → HttpReply × Orders.World
call_if_begun net env p (err e) w = (env.reply, w)
call_if_begun net env p (ok rows) w = call_complete net env p rows w

-- The completion, on the states of both services.
unfoldable pub complete_across :
    Network
    → Env
    → ℕ
    → ℕ
    → KdsTaskCompleteRequest
    → Option String
    → World × Orders.World
    → Result Error KdsStationTask × World × Orders.World
complete_across net env k id p corr (w, f) =
    let begun = complete_begin k id p (env.others_at_lock w) in
    let (reply, f') = call_if_begun net env p begun.0 f in
    let (r, w') = complete_task (record env { reply = reply }) k id p corr w in (r, w', f')
