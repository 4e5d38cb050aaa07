-- ===== src/Kitchen/Stations.antt =====
-- services/kitchen-service/app/services.py, class KitchenService, with the KitchenRepository and the
-- StationRepository of app/repositories.py.
pub mod Registry
mod Tests
use dark_kitchen_simulator.Prelude.{
  ℕ, String, Option, none, some, List, [], ◌∷◌, Bool, true, false, ◌&&◌, ◌||◌, not, leb, ltb, ◌==◌,
  str_eq, find, select, if◌then◌else◌,
}
use dark_kitchen_simulator.Prelude.Exec.{pure, raise, raise_if, gets, or_raise, ◌>>=◌, ◌>>◌}
use dark_kitchen_simulator.Prelude.Sort.{sort}
use dark_kitchen_simulator.Prelude.Time.{Datetime}
use dark_kitchen_simulator.Kitchen.Models.{
  Kitchen, Station, StationType, StationStatus, KitchenCreate, StationCreate, Db, World, active,
  available, not_found, conflict, data_error, kitchen_not_found, kitchen_already_exists,
  station_already_exists, station_not_found, station_gauges, station_event, SlotEvent,
  station_created, station_capacity_changed, station_status_changed,
}
use dark_kitchen_simulator.Kitchen.Repositories.{same_type, station_key, get_station, save_station}
use dark_kitchen_simulator.Kitchen.Session.{Handler, write_db, observe, write_event}

abbrev pub kitchen_key : Kitchen → ℕ
kitchen_key k = k.id

-- `KitchenRepository.get`
unfoldable pub find_kitchen : ℕ → Db → Option Kitchen
find_kitchen kitchen_id db = find kitchen_key kitchen_id db.kitchens

-- `payload.id`, or the default of the column
abbrev pub id_or : Option ℕ → ℕ → ℕ
id_or none new_id = new_id
id_or (some id) new_id = id

-- The rows that the repositories add, with the database's values for `id` and `created_at`.
abbrev pub new_kitchen : ℕ → Datetime → KitchenCreate → Kitchen
new_kitchen new_id now payload = record {
  id = id_or payload.id new_id;
  name = payload.name;
  status = active;
  created_at = now;
}

abbrev pub new_station : ℕ → Datetime → ℕ → StationCreate → Station
new_station new_id now kitchen_id payload = record {
  id = id_or payload.id new_id;
  kitchen_id = kitchen_id;
  name = payload.name;
  station_type = payload.station_type;
  status = available;
  capacity = payload.capacity;
  busy_slots = 0;
  visible_backlog_limit = payload.visible_backlog_limit;
  created_at = now;
}

-- What an INTEGER column holds; a larger number is a DataError of the database.
abbrev pub fits_integer : ℕ → Bool
fits_integer n = ltb n 2147483648

-- A row with the same primary key or, for a kitchen, the same name; for a station, the same name in
-- the same kitchen.
unfoldable pub has_kitchen : Kitchen → List Kitchen → Bool
has_kitchen k [] = false
has_kitchen k (x ∷ xs) = x.id == k.id || str_eq x.name k.name || has_kitchen k xs

unfoldable pub has_station : Station → List Station → Bool
has_station s [] = false
has_station s (x ∷ xs) =
    x.id == s.id || x.kitchen_id == s.kitchen_id && str_eq x.name s.name || has_station s xs

-- The INSERTs: `none` is the IntegrityError of a unique constraint.
unfoldable pub insert_kitchen : Kitchen → Db → Option Db
insert_kitchen k db =
    if has_kitchen k db.kitchens then none else some (record db { kitchens = k ∷ db.kitchens })

unfoldable pub insert_station : Station → Db → Option Db
insert_station s db =
    if has_station s db.stations then none else some (record db { stations = s ∷ db.stations })

unfoldable pub create_kitchen : ℕ → Datetime → KitchenCreate → Handler Kitchen
create_kitchen new_id now payload = do
  let kitchen = new_kitchen new_id now payload
  created ← gets (λ (w : World). insert_kitchen kitchen w.db)
  db ← or_raise created (conflict kitchen_already_exists)
  write_db (λ _. db)
  pure kitchen

-- ORDER BY Kitchen.id and Station.id
abbrev pub kitchen_le : Kitchen → Kitchen → Bool
kitchen_le a b = leb a.id b.id

abbrev pub station_le : Station → Station → Bool
station_le a b = leb a.id b.id

unfoldable pub list_kitchens : Handler (List Kitchen)
list_kitchens = gets (λ (w : World). sort kitchen_le w.db.kitchens)

unfoldable pub get_kitchen : ℕ → Handler Kitchen
get_kitchen kitchen_id = do
  found ← gets (λ (w : World). find_kitchen kitchen_id w.db)
  or_raise found (not_found kitchen_not_found)

unfoldable pub create_station : ℕ → Datetime → ℕ → StationCreate → Handler Station
create_station new_id now kitchen_id payload = do
  kitchen ← get_kitchen kitchen_id
  let station = new_station new_id now kitchen_id payload
  raise_if (not (fits_integer station.capacity)) data_error
  raise_if (not (fits_integer station.visible_backlog_limit)) data_error
  created ← gets (λ (w : World). insert_station station w.db)
  db ← or_raise created (conflict station_already_exists)
  write_db (λ _. db)
  observe (station_gauges station (some 0))
  write_event (station_event station_created station none)
  pure station

-- The WHERE of `list_by_kitchen`.
abbrev pub is_listed : ℕ → Option StationType → Station → Bool
is_listed kitchen_id none s = s.kitchen_id == kitchen_id
is_listed kitchen_id (some station_type) s =
    s.kitchen_id == kitchen_id && same_type s.station_type station_type

unfoldable pub list_stations : ℕ → Option StationType → Handler (List Station)
list_stations kitchen_id station_type = do
  kitchen ← get_kitchen kitchen_id
  gets (λ (w : World). sort station_le (select (is_listed kitchen_id station_type) w.db.stations))

-- `_get_station`
abbrev pub station_of : ℕ → Handler Station
station_of station_id = do
  found ← gets (λ (w : World). get_station station_id w.db)
  or_raise found (not_found station_not_found)

-- The commit of a changed station, its gauges and its event.
abbrev pub write_station : Station → SlotEvent → Handler Station
write_station station event = do
  write_db (save_station station)
  observe (station_gauges station none)
  write_event (station_event event station none)
  pure station

unfoldable pub update_station_capacity : ℕ → ℕ → Handler Station
update_station_capacity station_id capacity = do
  station ← station_of station_id
  raise_if (not (fits_integer capacity)) data_error
  write_station (record station { capacity = capacity }) station_capacity_changed

unfoldable pub update_station_status : ℕ → StationStatus → Handler Station
update_station_status station_id status = do
  station ← station_of station_id
  write_station (record station { status = status }) station_status_changed
