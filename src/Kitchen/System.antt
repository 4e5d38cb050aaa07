-- ===== src/Kitchen/System.antt =====
-- The requests of services/kitchen-service/app/api/routes.py as they interleave: each transaction of a
-- handler is a step of its own, and a claim or a completion that waits for the fulfillment service is
-- kept in flight between its two.
pub mod Placed
pub mod Slots
pub mod Capacity
mod Tests
use dark_kitchen_simulator.Prelude.{
  ℕ, String, Option, some, List, [], ◌∷◌, ◌++◌, ◌≡◌, ◌≢◌, none, ◌≤◌, Bool, true, false,
}
use dark_kitchen_simulator.Prelude.Exec.{ok}
use dark_kitchen_simulator.Prelude.Time.{Datetime}
use dark_kitchen_simulator.Kitchen.Models.{
  Kitchen, Station, StationStatus, KdsStationTask, KdsTaskDeliveryRequest, KdsTaskClaimRequest,
  KdsTaskCompleteRequest, KitchenCreate, StationCreate, Db, World,
}
use dark_kitchen_simulator.Kitchen.Session.{Env}
use dark_kitchen_simulator.Kitchen.Kds.{
  claim_begin, claim_finish, complete_begin, complete_finish, deliver_new,
}
use dark_kitchen_simulator.Kitchen.Repositories.{get_station}
use dark_kitchen_simulator.Kitchen.Client
use dark_kitchen_simulator.Kitchen.Kds.Compensated.{IsSteady}
use dark_kitchen_simulator.Kitchen.Kds.Claims.{IsUnchanged}
use dark_kitchen_simulator.Kitchen.Stations.{
  create_kitchen, create_station, update_station_capacity, update_station_status,
}

-- A request whose call of the fulfillment service is not answered yet, with the time that it has read
-- and the rows that its session has loaded.
pub data Flight : Type 0 where
  claiming : Datetime → KdsTaskClaimRequest → Option String → KdsStationTask × Station → Flight
  completing :
      Datetime → ℕ → ℕ → KdsTaskCompleteRequest → Option String → KdsStationTask × Station → Flight

pub record System : Type 0 where
  pub world : World
  pub in_flight : List Flight

-- One transaction: nobody else commits within it, and a SELECT of an unchanged row shows it.
pub record IsAtomic (env : Env) : Type 0 where
  pub no_wait_at_lock : (w : World) → env.others_at_lock w ≡ w
  pub no_wait_at_insert : (w : World) → env.others_at_insert w ≡ w
  pub no_wait_at_call : (w : World) → env.others_at_call w ≡ w
  pub steady : IsSteady env

-- A step of the system; a request that is refused in its first transaction writes no row and is no
-- step. A claim that must be compensated and a completion that was accepted end only while their rows are
-- as their session has loaded them: no other request has written these two rows meanwhile. `cuts` tells
-- whether a capacity may be set below the busy slots.
pub data Step (cuts : Bool) : System → System → Type 0 where
  kitchen_created :
      {s : System} (id : ℕ) (now : Datetime) (p : KitchenCreate)
      → Step cuts s (record s { world = (create_kitchen id now p s.world).1 })
  station_created :
      {s : System} (id : ℕ) (now : Datetime) (k : ℕ) (p : StationCreate)
      → Step cuts s (record s { world = (create_station id now k p s.world).1 })
  capacity_updated :
      {s : System} (k capacity : ℕ)
      → ((row : Station)
          → cuts ≡ false
          → get_station k s.world.db ≡ some row
          → row.busy_slots ≤ capacity)
      → Step cuts s (record s { world = (update_station_capacity k capacity s.world).1 })
  status_updated :
      {s : System} (k : ℕ) (status : StationStatus)
      → Step cuts s (record s { world = (update_station_status k status s.world).1 })
  delivered :
      {s : System} (env : Env) (k : ℕ) (p : KdsTaskDeliveryRequest) (corr : Option String)
      → IsAtomic env
      → Step cuts s (record s { world = (deliver_new env k p corr s.world).1 })
  claim_began :
      {s : System} (env : Env) (k id : ℕ) (p : KdsTaskClaimRequest) (corr : Option String)
      (rows : KdsStationTask × Station)
      → (claim_begin env k id p corr s.world).0 ≡ ok rows
      → Step cuts s (record {
        world = (claim_begin env k id p corr s.world).1;
        in_flight = claiming env.now p corr rows ∷ s.in_flight;
      })
  claim_ended :
      {s : System} (env : Env) (p : KdsTaskClaimRequest) (corr : Option String)
      (task : KdsStationTask) (station : Station) (before after : List Flight)
      → IsAtomic env
      → s.in_flight ≡ before ++ (claiming env.now p corr (task, station) ∷ after)
      → (Client.start_task env.reply ≢ none
          → IsUnchanged task.station_id task.task_id (task, station) s.world.db)
      → Step cuts s (record {
        world = (claim_finish env p corr (task, station) s.world).1;
        in_flight = before ++ after;
      })
  completion_began :
      {s : System} (now : Datetime) (k id : ℕ) (p : KdsTaskCompleteRequest) (corr : Option String)
      (rows : KdsStationTask × Station)
      → (complete_begin k id p s.world).0 ≡ ok rows
      → Step cuts s (record s { in_flight = completing now k id p corr rows ∷ s.in_flight })
  completion_ended :
      {s : System} (env : Env) (k id : ℕ) (p : KdsTaskCompleteRequest) (corr : Option String)
      (rows : KdsStationTask × Station) (before after : List Flight)
      → IsAtomic env
      → s.in_flight ≡ before ++ (completing env.now k id p corr rows ∷ after)
      → (Client.complete_task env.reply ≡ none → IsUnchanged k id rows s.world.db)
      → Step cuts s (record {
        world = (complete_finish env k id p corr rows s.world).1;
        in_flight = before ++ after;
      })

-- What a history of steps leads to.
pub data Reach (cuts : Bool) (s : System) : System → Type 0 where
  here : Reach cuts s s
  next : {t u : System} → Reach cuts s t → Step cuts t u → Reach cuts s u

-- The service before its first request.
abbrev pub initial : System
initial = record {
  world = record {
    db = record { kitchens = []; stations = []; tasks = [] };
    metrics = [];
    events = [];
  };
  in_flight = [];
}
