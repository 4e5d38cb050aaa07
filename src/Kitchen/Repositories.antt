-- ===== src/Kitchen/Repositories.antt =====
-- services/kitchen-service/app/repositories.py: the queries, and the writes of a row.
use dark_kitchen_simulator.Prelude.{
  ℕ, String, Option, some, none, List, [], ◌∷◌, Bool, true, false, ◌&&◌, ltb, leb, ◌==◌, str_eq,
  find, save, count, if◌then◌else◌,
}
use dark_kitchen_simulator.Prelude.Time.{Datetime}
use dark_kitchen_simulator.Kitchen.Models.{
  StationType, grill, fryer, packaging, cold, drinks, assembly, StationStatus, KdsTaskStatus,
  available, displayed, claimed, Station, KdsStationTask, KdsTaskDeliveryRequest, Db,
}

abbrev pub same_type : StationType → StationType → Bool
same_type grill grill = true
same_type fryer fryer = true
same_type packaging packaging = true
same_type cold cold = true
same_type drinks drinks = true
same_type assembly assembly = true
same_type _ _ = false

abbrev pub is_available : StationStatus → Bool
is_available available = true
is_available _ = false

abbrev pub is_displayed : KdsTaskStatus → Bool
is_displayed displayed = true
is_displayed _ = false

abbrev pub is_claimed : KdsTaskStatus → Bool
is_claimed claimed = true
is_claimed _ = false

abbrev pub is_completed : KdsTaskStatus → Bool
is_completed KdsTaskStatus.completed = true
is_completed _ = false

abbrev pub station_key : Station → ℕ
station_key s = s.id

-- The unique column by which the service finds a display task.
abbrev pub task_key : KdsStationTask → ℕ
task_key t = t.task_id

-- `StationRepository.get` and `get_for_update`
unfoldable pub get_station : ℕ → Db → Option Station
get_station station_id db = find station_key station_id db.stations

-- `get_by_task_id` and `get_by_task_id_for_update`
unfoldable pub get_by_task_id : ℕ → Db → Option KdsStationTask
get_by_task_id task_id db = find task_key task_id db.tasks

unfoldable pub find_by_key : String → List KdsStationTask → Option KdsStationTask
find_by_key k [] = none
find_by_key k (t ∷ ts) = if str_eq t.idempotency_key k then some t else find_by_key k ts

unfoldable pub get_by_idempotency_key : String → Db → Option KdsStationTask
get_by_idempotency_key k db = find_by_key k db.tasks

abbrev pub is_visible : ℕ → KdsStationTask → Bool
is_visible station_id t = t.station_id == station_id && is_displayed t.status

unfoldable pub visible_backlog_size : ℕ → Db → ℕ
visible_backlog_size station_id db = count (is_visible station_id) db.tasks

unfoldable pub save_station : Station → Db → Db
save_station station db = record db { stations = save station_key station db.stations }

unfoldable pub save_task : KdsStationTask → Db → Db
save_task task db = record db { tasks = save task_key task db.tasks }

-- The row that `create_task` adds, with the database's values for `id` and the times.
abbrev pub new_task : ℕ → Datetime → ℕ → KdsTaskDeliveryRequest → KdsStationTask
new_task id now station_id payload = record {
  id = id;
  task_id = payload.task_id;
  order_id = payload.order_id;
  kitchen_id = payload.kitchen_id;
  station_id = station_id;
  station_type = payload.station_type;
  operation = payload.operation;
  menu_item_name = payload.menu_item_name;
  status = displayed;
  estimated_duration_seconds = payload.estimated_duration_seconds;
  pickup_deadline = payload.pickup_deadline;
  displayed_at = now;
  claimed_by = none;
  claimed_at = none;
  completed_at = none;
  idempotency_key = payload.idempotency_key;
  created_at = now;
}

abbrev pub add_task : KdsStationTask → Db → Db
add_task task db = record db { tasks = task ∷ db.tasks }

-- `create_task`: `none` is the IntegrityError of one of the two unique constraints.
unfoldable pub create_task : KdsStationTask → Db → Option Db
create_task task db = elim (get_by_idempotency_key task.idempotency_key db) [
  | some _ ↦ none
  | none ↦ elim (get_by_task_id task.task_id db) [ some _ ↦ none | none ↦ some (add_task task db) ]
]

-- ORDER BY Station.id
unfoldable pub insert_station : Station × ℕ → List (Station × ℕ) → List (Station × ℕ)
insert_station x [] = x ∷ []
insert_station x (y ∷ ys) = if leb x.0.id y.0.id then x ∷ y ∷ ys else y ∷ insert_station x ys

-- The WHERE of `dispatch_candidates`, on a station and its count of displayed tasks.
abbrev pub is_candidate : ℕ → StationType → Station → ℕ → Bool
is_candidate kitchen_id station_type s backlog =
    s.kitchen_id == kitchen_id
    && (same_type s.station_type station_type
        && (is_available s.status && ltb backlog s.visible_backlog_limit))

unfoldable pub candidate_rows : ℕ → StationType → Db → List Station → List (Station × ℕ)
candidate_rows kitchen_id station_type db [] = []
candidate_rows kitchen_id station_type db (s ∷ ss) =
    let rest = candidate_rows kitchen_id station_type db ss in
    let backlog = visible_backlog_size s.id db in
    if is_candidate kitchen_id station_type s backlog
    then insert_station (s, backlog) rest
    else rest

unfoldable pub dispatch_candidates : ℕ → StationType → Db → List (Station × ℕ)
dispatch_candidates kitchen_id station_type db =
    candidate_rows kitchen_id station_type db db.stations
