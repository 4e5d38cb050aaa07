-- ===== src/Kitchen/Listing.antt =====
-- `list_station_tasks` of services/kitchen-service/app/repositories.py and app/services.py.
pub mod Pages
mod Tests
use dark_kitchen_simulator.Prelude.{
  ℕ, List, Bool, ◌&&◌, ltb, leb, ◌==◌, true, false, select, take, drop, if◌then◌else◌,
}
use dark_kitchen_simulator.Prelude.Exec.{gets, ◌>>=◌}
use dark_kitchen_simulator.Prelude.Sort.{sort}
use dark_kitchen_simulator.Prelude.Time.{microseconds}
use dark_kitchen_simulator.Kitchen.Models.{
  KdsStationTask, KdsTaskStatus, Db, World, displayed, claimed, completed, failed, removed,
}
use dark_kitchen_simulator.Kitchen.Session.{Handler, locked_station}

abbrev pub same_status : KdsTaskStatus → KdsTaskStatus → Bool
same_status displayed displayed = true
same_status claimed claimed = true
same_status completed completed = true
same_status failed failed = true
same_status removed removed = true
same_status _ _ = false

-- The WHERE.
abbrev pub is_listed : ℕ → KdsTaskStatus → KdsStationTask → Bool
is_listed station_id task_status t = t.station_id == station_id && same_status t.status task_status

-- ORDER BY displayed_at, created_at
abbrev pub task_le : KdsStationTask → KdsStationTask → Bool
task_le a b =
    if microseconds a.displayed_at == microseconds b.displayed_at
    then leb (microseconds a.created_at) (microseconds b.created_at)
    else ltb (microseconds a.displayed_at) (microseconds b.displayed_at)

-- All the rows, in order.
unfoldable pub listed_tasks : ℕ → KdsTaskStatus → Db → List KdsStationTask
listed_tasks station_id task_status db =
    sort task_le (select (is_listed station_id task_status) db.tasks)

-- The repository's method: OFFSET and LIMIT.
unfoldable pub task_page : ℕ → KdsTaskStatus → ℕ → ℕ → Db → List KdsStationTask
task_page station_id task_status limit offset db =
    take limit (drop offset (listed_tasks station_id task_status db))

-- The service's.
unfoldable pub list_station_tasks : ℕ → KdsTaskStatus → ℕ → ℕ → Handler (List KdsStationTask)
list_station_tasks station_id task_status limit offset = do
  station ← locked_station station_id
  gets (λ (w : World). task_page station_id task_status limit offset w.db)
