-- ===== src/Kitchen/Listing/Tests.antt =====
-- The theorems about the listing of a station's tasks at concrete tasks.
use dark_kitchen_simulator.Prelude.{◌≡◌, refl, [], ◌∷◌, find, select, List}
use dark_kitchen_simulator.Prelude.Exec.{ok}
use dark_kitchen_simulator.Prelude.Sort.{sort, insert}
use dark_kitchen_simulator.Prelude.Time.{aware}
use dark_kitchen_simulator.Kitchen.Models.{KdsStationTask, displayed}
use dark_kitchen_simulator.Kitchen.Repositories.{get_station}
use dark_kitchen_simulator.Kitchen.Samples.{task, world, claimed_task}
use dark_kitchen_simulator.Kitchen.Listing.{listed_tasks, task_page, list_station_tasks}

abbrev older : KdsStationTask
older = record task { id = 6; task_id = 11; displayed_at = aware 0; created_at = aware 0 }

abbrev newer : KdsStationTask
newer = record task { displayed_at = aware 3 }

abbrev rows : List KdsStationTask
rows = newer ∷ claimed_task ∷ older ∷ []

all_run : (list_station_tasks 4 displayed 2 0 (world rows)).0 ≡ ok (older ∷ newer ∷ [])
unfolding list_station_tasks task_page listed_tasks get_station find select sort insert
all_run = refl

first_run : (list_station_tasks 4 displayed 1 0 (world rows)).0 ≡ ok (older ∷ [])
unfolding list_station_tasks task_page listed_tasks get_station find select sort insert
first_run = refl

second_run : (list_station_tasks 4 displayed 1 1 (world rows)).0 ≡ ok (newer ∷ [])
unfolding list_station_tasks task_page listed_tasks get_station find select sort insert
second_run = refl
