-- ===== src/Kitchen/Stations/Registry.antt =====
-- About the kitchens and stations that class KitchenService of
-- services/kitchen-service/app/services.py registers.
use dark_kitchen_simulator.Prelude.{
  ℕ, ◌≡◌, ◌<◌, ◌≢◌, ◌⊎◌, ◌&&◌, refl, inl, inr, List, [], ◌∷◌, none, some, true, false, arith, find,
  key_of_found, find-save_self, find-save_ne, Option-cases, Bool-cases,
}
use dark_kitchen_simulator.Prelude.Exec.{ok, err}
use dark_kitchen_simulator.Prelude.Time.{Datetime}
use dark_kitchen_simulator.Kitchen.Models.{
  Kitchen, Station, StationCreate, World, Db, not_found, conflict, kitchen_not_found,
  station_already_exists, available, data_error,
}
use dark_kitchen_simulator.Kitchen.Repositories.{station_key, get_station, save_station}
use dark_kitchen_simulator.Kitchen.Stations.{
  new_station, has_station, insert_station, find_kitchen, get_kitchen, create_station,
  update_station_capacity, fits_integer,
}

-- No two stations share an id, and none of a kitchen share a name.
abbrev pub AllDistinct : List Station → Type 0
AllDistinct [] = Unit
AllDistinct (s ∷ ss) = (has_station s ss ≡ false) × AllDistinct ss

pub has_station_found :
    (s : Station) (ss : List Station) → has_station s ss ≡ false → find station_key s.id ss ≡ none
unfolding has_station find
has_station_found s [] h = refl
has_station_found s (x ∷ xs) h = ground (arith, has_station_found s xs)

-- What a request for a station asks of its row.
pub record IsRequested (k : ℕ) (p : StationCreate) (s : Station) : Type 0 where
  pub in_kitchen : s.kitchen_id ≡ k
  pub same_name : s.name ≡ p.name
  pub same_type : s.station_type ≡ p.station_type
  pub is_available : s.status ≡ available
  pub same_capacity : s.capacity ≡ p.capacity
  pub is_idle : s.busy_slots ≡ 0
  pub same_limit : s.visible_backlog_limit ≡ p.visible_backlog_limit

-- The INTEGER columns of a station can hold the numbers of the request.
pub record FitsColumns (p : StationCreate) : Type 0 where
  pub capacity_fits : p.capacity < 2147483648
  pub limit_fits : p.visible_backlog_limit < 2147483648

-- With the ids and the names of the stations distinct before: a station is created exactly if its kitchen
-- is there, the columns can hold the numbers of the request, and no station has its id, or its name in that
-- kitchen. It is found then, available, with the name, type, capacity and limit of the request and with no
-- busy slot; every other station is found as before, and the ids and the names stay distinct. Else the
-- error is that of the missing kitchen, of the number or of the clash, and the tables stay as they were.
pub create_station_cases :
    (new_id : ℕ) (now : Datetime) (k : ℕ) (p : StationCreate) (w : World)
    → AllDistinct w.db.stations
    → let s = new_station new_id now k p in
      let run = create_station new_id now k p w in
      let fits = fits_integer p.capacity && fits_integer p.visible_backlog_limit in
      ((kitchen : Kitchen) × (find_kitchen k w.db ≡ some kitchen)
        × (fits ≡ true)
        × (has_station s w.db.stations ≡ false)
        × (run.0 ≡ ok s)
        × IsRequested k p s
        × (get_station s.id w.db ≡ none)
        × (get_station s.id run.1.db ≡ some s)
        × ((j : ℕ) → j ≢ s.id → get_station j run.1.db ≡ get_station j w.db)
        × AllDistinct run.1.db.stations)
      ⊎ ((((find_kitchen k w.db ≡ none) × (run.0 ≡ err (not_found kitchen_not_found)))
            ⊎ (((fits ≡ false) × (run.0 ≡ err data_error))
                ⊎ ((has_station s w.db.stations ≡ true)
                    × (run.0 ≡ err (conflict station_already_exists)))))
          × (run.1.db ≡ w.db))
unfolding create_station get_kitchen insert_station get_station find
create_station_cases new_id now k p w d =
    let s = new_station new_id now k p in
    elim (Option-cases (find_kitchen k w.db)) [
      | inl missing ↦ inr (inl (missing, ground arith), ground arith)
      | inr (kitchen, found) ↦
          elim (Bool-cases (fits_integer p.capacity && fits_integer p.visible_backlog_limit)) [
            | inr over ↦ inr (inr (inl (over, ground arith)), ground arith)
            | inl fits ↦ elim (Bool-cases (has_station s w.db.stations)) [
              | inl taken ↦ inr (inr (inr (taken, ground arith)), ground arith)
              | inr free ↦ inl (
                kitchen,
                found,
                fits,
                free,
                ground arith,
                record {
                  in_kitchen = refl;
                  same_name = refl;
                  same_type = refl;
                  is_available = refl;
                  same_capacity = refl;
                  is_idle = refl;
                  same_limit = refl;
                },
                has_station_found s w.db.stations free,
                ground arith,
                λ j away. ground arith,
                ground arith,
              )
            ]
          ]
    ]

-- What an update of a station leaves: the station with the change, every other station and every task
-- as they were.
pub record Updated (k : ℕ) (row : Station) (a b : Db) : Type 0 where
  pub changed : get_station k b ≡ some row
  pub others : (j : ℕ) → j ≢ k → get_station j b ≡ get_station j a
  pub same_tasks : b.tasks ≡ a.tasks

save_station-Updated :
    (k : ℕ) (s row : Station) (db : Db)
    → get_station k db ≡ some s
    → row.id ≡ s.id
    → Updated k row db (save_station row db)
unfolding get_station save_station
save_station-Updated k s row db f e =
    let at_k = key_of_found station_key k db.stations s f in
    record {
      changed = find-save_self station_key k row s db.stations f (cc);
      others = λ j away. find-save_ne station_key j row db.stations (λ h. away (cc));
      same_tasks = refl;
    }

-- An update of a station's capacity that returns changes the capacity of that station and no other
-- column, row or task, whatever the busy slots are.
update_station_capacity-Updated :
    (k capacity : ℕ) (w : World) (x : Station)
    → (update_station_capacity k capacity w).0 ≡ ok x
    → (s : Station) × (get_station k w.db ≡ some s)
      × (x ≡ record s { capacity = capacity })
      × Updated k x w.db (update_station_capacity k capacity w).1.db
unfolding update_station_capacity
update_station_capacity-Updated k capacity w x h = elim (Option-cases (get_station k w.db)) [
  | inl missing ↦ absurd (ground arith)
  | inr (s, f) ↦ elim (Bool-cases (fits_integer capacity)) [
    | inr over ↦ absurd (ground arith)
    | inl fits ↦ (
      s,
      f,
      ground arith,
      ground (arith, save_station-Updated k s (record s { capacity = capacity }) w.db f refl),
    )
  ]
]
