-- ===== src/Kitchen/Kds/Busy.antt =====
-- About the two writes of a station and a task that change a busy slot: a claim and a release.
use dark_kitchen_simulator.Prelude.{
  ℕ, ◌+◌, ◌≡◌, refl, Bool, true, false, inl, inr, some, arith, ◌==◌, ◌&&◌, if◌then◌else◌, find,
  save, count, find-save_self, find-save_ne, count-save, Bool-cases,
}
use dark_kitchen_simulator.Kitchen.Models.{Station, KdsStationTask, Db}
use dark_kitchen_simulator.Kitchen.Repositories.{
  station_key, task_key, is_claimed, save_station, save_task,
}
use dark_kitchen_simulator.Kitchen.Rules.{occupied, released}

-- A claimed task of the station.
abbrev pub is_claimed_at : ℕ → KdsStationTask → Bool
is_claimed_at k t = t.station_id == k && is_claimed t.status

-- Every station is as busy as it has claimed tasks.
pub record BusyIsClaimed (db : Db) : Type 0 where
  pub at :
      (k : ℕ) (s : Station)
      → find station_key k db.stations ≡ some s
      → s.busy_slots ≡ count (is_claimed_at k) db.tasks

-- A task of the station `s` is written anew, and the station's slots with it.
pub record SlotWrite (db : Db) (s : Station) (t row : KdsStationTask) : Type 0 where
  pub station_found : find station_key s.id db.stations ≡ some s
  pub task_found : find task_key row.task_id db.tasks ≡ some t
  pub same_station : row.station_id ≡ t.station_id
  pub on_station : t.station_id ≡ s.id

module _ (db : Db) (s : Station) (t row : KdsStationTask) (w : SlotWrite db s t row)
    (inv : BusyIsClaimed db) where
  claimed_before : s.busy_slots ≡ count (is_claimed_at s.id) db.tasks
  claimed_before = inv.at s.id s w.station_found

  claimed_after :
      (k : ℕ)
      → count (is_claimed_at k) (save task_key row db.tasks) + (if is_claimed_at k t then 1 else 0)
        ≡ count (is_claimed_at k) db.tasks + (if is_claimed_at k row then 1 else 0)
  claimed_after k =
      count-save task_key (is_claimed_at k) row.task_id row t db.tasks w.task_found refl

  -- The invariant holds again if the station's new count is right.
  settle :
      (s' : Station)
      → s'.id ≡ s.id
      → s'.busy_slots + (if is_claimed t.status then 1 else 0)
        ≡ s.busy_slots + (if is_claimed row.status then 1 else 0)
      → BusyIsClaimed (save_station s' (save_task row db))
  unfolding save_station save_task
  settle s' same right = record {
    at = λ k x h. elim (Bool-cases (s.id == k)) [
      | inl here ↦ ground (
        arith,
        w.same_station,
        w.on_station,
        claimed_before,
        claimed_after k,
        find-save_self station_key k s' s db.stations,
        w.station_found,
      )
      | inr away ↦ ground (
        arith,
        w.same_station,
        w.on_station,
        claimed_after k,
        find-save_ne station_key k s' db.stations,
        inv.at k x,
      )
    ];
  }

  pub occupy :
      is_claimed t.status ≡ false
      → is_claimed row.status ≡ true
      → BusyIsClaimed (save_station (occupied s) (save_task row db))
  occupy a b = settle (occupied s) refl (ground arith)

  pub release :
      is_claimed t.status ≡ true
      → is_claimed row.status ≡ false
      → BusyIsClaimed (save_station (released s s) (save_task row db))
  unfolding released
  release a b =
      settle (released s s) (ground arith)
        (ground (arith, claimed_before, claimed_after s.id, w.same_station, w.on_station))
