-- ===== src/Kitchen/Routes/Storable.antt =====
-- The values of a request to services/kitchen-service that PostgreSQL can store, by the columns of
-- app/models.py. What it cannot store is a DataError there, which the service does not catch: Kitchen.Stations
-- raises it for the numbers of a station, and for the other values the model stores them all the same.
use dark_kitchen_simulator.Prelude.{
  String, Bool, true, false, Option, none, some, List, ◌≡◌, ◌<◌, All,
}
use dark_kitchen_simulator.Prelude.Time.{Datetime, naive, aware}
use dark_kitchen_simulator.Kitchen.Session.{Env}
use dark_kitchen_simulator.Kitchen.Stations.Registry.{FitsColumns}
use dark_kitchen_simulator.Kitchen.Routes.{
  Request, create_kitchen, list_kitchens, get_kitchen, create_station, list_stations,
  update_station_capacity, update_station_status, dispatch_candidates, deliver_kds_task,
  list_kds_station_tasks, claim_kds_task, complete_kds_task,
}

-- A column with a time zone takes no naive time.
abbrev pub is_zoned : Option Datetime → Bool
is_zoned none = true
is_zoned (some (naive t)) = false
is_zoned (some (aware t)) = true

-- `takes_text` tells which texts a column takes: those without a NUL.
module _ (takes_text : String → Bool) where
  abbrev pub takes_optional : Option String → Bool
  takes_optional none = true
  takes_optional (some s) = takes_text s

  abbrev pub IsStorable : Request → Type 0
  IsStorable (create_kitchen p) = takes_text p.name ≡ true
  IsStorable list_kitchens = Unit
  IsStorable (get_kitchen text) = Unit
  IsStorable (create_station text p) = (takes_text p.name ≡ true) × FitsColumns p
  IsStorable (list_stations text station_type) = Unit
  IsStorable (update_station_capacity text capacity) = capacity < 2147483648
  IsStorable (update_station_status text status) = Unit
  IsStorable (dispatch_candidates text station_type) = Unit
  IsStorable (deliver_kds_task text p) =
      (takes_text p.operation ≡ true)
      × (takes_optional p.menu_item_name ≡ true)
      × (takes_text p.idempotency_key ≡ true)
      × (p.estimated_duration_seconds < 2147483648)
      × (is_zoned p.pickup_deadline ≡ true)
  IsStorable (list_kds_station_tasks text status limit offset) = offset < 9223372036854775808
  IsStorable (claim_kds_task text task p) =
      (takes_text task ≡ true)
      × (takes_text p.station_worker_id ≡ true)
      × (is_zoned p.claimed_at ≡ true)
  IsStorable (complete_kds_task text task p) =
      (takes_text task ≡ true)
      × (takes_text p.station_worker_id ≡ true)
      × (is_zoned p.completed_at ≡ true)

  abbrev request_of : Env × Option String × Request → Request
  request_of (env, corr, r) = r

  abbrev pub AllStorable : List (Env × Option String × Request) → Type 0
  AllStorable rs = All (λ r. IsStorable (request_of r)) rs
