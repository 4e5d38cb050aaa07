-- ===== src/Kitchen/Stations/Tests.antt =====
-- The theorems about kitchens and stations at concrete rows.
use dark_kitchen_simulator.Prelude.{
  ◌≡◌, ◌≢◌, ◌⊎◌, ◌&&◌, refl, none, some, [], ◌∷◌, true, false, find, ℕ,
}
use dark_kitchen_simulator.Prelude.Exec.{ok, err}
use dark_kitchen_simulator.Prelude.Time.{aware}
use dark_kitchen_simulator.Kitchen.Models.{
  Kitchen, Station, StationCreate, World, active, available, grill, not_found, conflict, data_error,
  kitchen_not_found, station_already_exists,
}
use dark_kitchen_simulator.Kitchen.Repositories.{get_station}
use dark_kitchen_simulator.Kitchen.Stations.{
  new_station, has_station, find_kitchen, get_kitchen, insert_station, create_station,
  update_station_capacity, fits_integer,
}
use dark_kitchen_simulator.Kitchen.Stations.Registry.{
  AllDistinct, IsRequested, create_station_cases,
}

abbrev kitchen : Kitchen
kitchen = record { id = 7; name = "north"; status = active; created_at = aware 0 }

abbrev station : Station
station = record {
  id = 4;
  kitchen_id = 7;
  name = "grill 1";
  station_type = grill;
  status = available;
  capacity = 1;
  busy_slots = 1;
  visible_backlog_limit = 2;
  created_at = aware 0;
}

abbrev world : World
world = record {
  db = record { kitchens = kitchen ∷ []; stations = station ∷ []; tasks = [] };
  metrics = [];
  events = [];
}

abbrev request : StationCreate
request = record {
  id = none;
  name = "grill 2";
  station_type = grill;
  capacity = 2;
  visible_backlog_limit = 3;
}

create_run : (create_station 5 (aware 9) 7 request world).0 ≡ ok (new_station 5 (aware 9) 7 request)
unfolding create_station get_kitchen insert_station find_kitchen find has_station
create_run = refl

world-AllDistinct : AllDistinct world.db.stations
unfolding has_station
world-AllDistinct = (refl, tt)

create_station_cases_example :
    let s = new_station 5 (aware 9) 7 request in
    let run = create_station 5 (aware 9) 7 request world in
    let fits = fits_integer request.capacity && fits_integer request.visible_backlog_limit in
    ((k : Kitchen) × (find_kitchen 7 world.db ≡ some k)
      × (fits ≡ true)
      × (has_station s world.db.stations ≡ false)
      × (run.0 ≡ ok s)
      × IsRequested 7 request s
      × (get_station s.id world.db ≡ none)
      × (get_station s.id run.1.db ≡ some s)
      × ((j : ℕ) → j ≢ s.id → get_station j run.1.db ≡ get_station j world.db)
      × AllDistinct run.1.db.stations)
    ⊎ ((((find_kitchen 7 world.db ≡ none) × (run.0 ≡ err (not_found kitchen_not_found)))
          ⊎ (((fits ≡ false) × (run.0 ≡ err data_error))
              ⊎ ((has_station s world.db.stations ≡ true)
                  × (run.0 ≡ err (conflict station_already_exists)))))
        × (run.1.db ≡ world.db))
create_station_cases_example = create_station_cases 5 (aware 9) 7 request world world-AllDistinct

capacity_run : (update_station_capacity 4 0 world).0 ≡ ok (record station { capacity = 0 })
unfolding update_station_capacity get_station find
capacity_run = refl

capacity_over_run : (update_station_capacity 4 2147483648 world).0 ≡ err data_error
unfolding update_station_capacity get_station find
capacity_over_run = refl
