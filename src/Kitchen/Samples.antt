-- ===== src/Kitchen/Samples.antt =====
-- A station, a task and requests of services/kitchen-service, for the runs.
use dark_kitchen_simulator.Prelude.{ℕ, refl, false, none, List, [], ◌∷◌, find, count, arith}
use dark_kitchen_simulator.Prelude.Time.{aware}
use dark_kitchen_simulator.Kitchen.Models.{
  Station, KdsStationTask, KdsTaskDeliveryRequest, KdsTaskClaimRequest, KdsTaskCompleteRequest,
  World, grill, available, displayed,
}
use dark_kitchen_simulator.Kitchen.Client.{HttpReply, response}
use dark_kitchen_simulator.Kitchen.Session.{Env}
use dark_kitchen_simulator.Kitchen.Rules.{claimed_row}
use dark_kitchen_simulator.Kitchen.Kds.Busy.{BusyIsClaimed}
use dark_kitchen_simulator.Kitchen.Kds.Claims.{IsApart}
use dark_kitchen_simulator.Kitchen.Kds.Compensated.{IsSteady}
use dark_kitchen_simulator.Kitchen.System.{IsAtomic}

abbrev pub station : Station
station = record {
  id = 4;
  kitchen_id = 7;
  name = "grill 1";
  station_type = grill;
  status = available;
  capacity = 1;
  busy_slots = 0;
  visible_backlog_limit = 2;
  created_at = aware 0;
}

abbrev pub task : KdsStationTask
task = record {
  id = 5;
  task_id = 10;
  order_id = 1;
  kitchen_id = 7;
  station_id = 4;
  station_type = grill;
  operation = "sear";
  menu_item_name = none;
  status = displayed;
  estimated_duration_seconds = 60;
  pickup_deadline = none;
  displayed_at = aware 0;
  claimed_by = none;
  claimed_at = none;
  completed_at = none;
  idempotency_key = "k10";
  created_at = aware 0;
}

abbrev pub world : List KdsStationTask → World
world tasks = record {
  db = record { kitchens = []; stations = station ∷ []; tasks = tasks };
  metrics = [];
  events = [];
}

-- Nobody else works, and a SELECT shows the row.
abbrev pub env : HttpReply → Env
env reply = record {
  new_id = 6;
  now = aware 9;
  reply = reply;
  others_at_lock = λ w. w;
  others_at_insert = λ w. w;
  others_at_call = λ w. w;
  seen_station = λ loaded _. loaded;
  seen_task = λ loaded _. loaded;
}

abbrev pub accepted : HttpReply
accepted = response 200 false

pub env-IsApart : (reply : HttpReply) (k id : ℕ) → IsApart (env reply) k id
env-IsApart reply k id = record {
  at_lock = λ w h. h;
  at_call = λ w h. h;
  same_station = λ w. refl;
  same_task = λ w. refl;
}

pub env-IsSteady : (reply : HttpReply) → IsSteady (env reply)
env-IsSteady reply = record { same_station = λ s. refl; same_task = λ t. refl }

pub env-IsAtomic : (reply : HttpReply) → IsAtomic (env reply)
env-IsAtomic reply = record {
  no_wait_at_lock = λ w. refl;
  no_wait_at_insert = λ w. refl;
  no_wait_at_call = λ w. refl;
  steady = env-IsSteady reply;
}

pub world-BusyIsClaimed : BusyIsClaimed (world (task ∷ [])).db
unfolding find count
world-BusyIsClaimed = record { at = λ k s h. ground arith }

abbrev pub claim : KdsTaskClaimRequest
claim = record { station_worker_id = "w"; claimed_at = none }

abbrev pub completion : KdsTaskCompleteRequest
completion = record { station_worker_id = "w"; completed_at = none }

abbrev pub delivery : KdsTaskDeliveryRequest
delivery = record {
  task_id = 11;
  order_id = 1;
  kitchen_id = 7;
  station_type = grill;
  operation = "sear";
  menu_item_name = none;
  estimated_duration_seconds = 60;
  pickup_deadline = none;
  idempotency_key = "k11";
}

abbrev pub claimed_task : KdsStationTask
claimed_task = claimed_row claim (aware 9) task
