-- ===== src/Kitchen/Kds/Stale.antt =====
-- About the second transaction of `complete_task`, services/kitchen-service/app/services.py, when its
-- SELECT shows the instances that the session loaded before the call.
use dark_kitchen_simulator.Prelude.{
  ℕ, ◌-◌, ◌<◌, ◌≡◌, some, inl, inr, Option, arith, String, key_of_found, find-save_self,
  Option-cases,
}
use dark_kitchen_simulator.Prelude.Exec.{ok}
use dark_kitchen_simulator.Kitchen.Models.{Station, KdsStationTask, World, KdsTaskCompleteRequest}
use dark_kitchen_simulator.Kitchen.Repositories.{
  station_key, get_station, get_by_task_id, save_station, save_task,
}
use dark_kitchen_simulator.Kitchen.Session.{Env}
use dark_kitchen_simulator.Kitchen.Rules.{released}
use dark_kitchen_simulator.Kitchen.Kds.{complete_commit}

-- If the SELECT shows the loaded station, with a busy slot, in place of its row, a completion that
-- returns leaves the row with one busy slot less than the loaded station had, however many the row had.
pub complete_commit_stale :
    (env : Env) (k id : ℕ) (p : KdsTaskCompleteRequest) (corr : Option String)
    (task : KdsStationTask) (station : Station) (w : World) (x : KdsStationTask)
    → ((row : Station) → env.seen_station station row ≡ station)
    → 0 < station.busy_slots
    → (complete_commit env k id p corr (task, station) w).0 ≡ ok x
    → (row : Station) × (get_station k w.db ≡ some row)
      × (get_station k (complete_commit env k id p corr (task, station) w).1.db
          ≡ some (record row { busy_slots = station.busy_slots - 1 }))
complete_commit_stale env k id p corr task station w x stale busy h =
    elim (Option-cases (get_station k w.db)) [
      | inl missing ↦ absurd (unfold complete_commit in ground arith)
      | inr (row, f) ↦ elim (Option-cases (get_by_task_id id w.db)) [
        | inl missing ↦ absurd (unfold complete_commit in ground arith)
        | inr (t, g) ↦ (
          row,
          f,
          unfold complete_commit get_station save_station save_task released in
              ground (
                arith,
                stale row,
                key_of_found station_key k w.db.stations row f,
                find-save_self station_key k (record row { busy_slots = station.busy_slots - 1 })
                    row w.db.stations,
              ),
        )
      ]
    ]
