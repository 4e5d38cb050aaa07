-- ===== src/Kitchen/System/Slots.antt =====
-- About the busy slots of the stations in a history of interleaved requests.
use dark_kitchen_simulator.Prelude.{
  ◌&&◌, ℕ, ◌≡◌, refl, List, [], ◌∷◌, Option, none, some, Bool, true, false, inl, inr, ◌⊎◌, String,
  arith, All, find, count, ◌==◌, Option-cases, Bool-cases, find-save_self, find-save_ne,
  key_of_found,
}
use dark_kitchen_simulator.Prelude.Time.{Datetime}
use dark_kitchen_simulator.Kitchen.Models.{
  Station, StationStatus, KdsStationTask, StationCreate, KitchenCreate, KdsTaskDeliveryRequest, Db,
  World,
}
use dark_kitchen_simulator.Kitchen.Repositories.{
  station_key, get_station, save_station, is_claimed, new_task,
}
use dark_kitchen_simulator.Kitchen.Session.{Env}
use dark_kitchen_simulator.Kitchen.Kds.{deliver_new}
use dark_kitchen_simulator.Kitchen.Kds.Busy.{BusyIsClaimed, is_claimed_at}
use dark_kitchen_simulator.Kitchen.Kds.Claims.{
  claim_begin-keeps, claim_finish-keeps, complete_finish-keeps,
}
use dark_kitchen_simulator.Kitchen.Stations.{
  new_station, has_station, insert_station, find_kitchen, get_kitchen, insert_kitchen,
  create_kitchen, create_station, update_station_capacity, update_station_status, fits_integer,
}
use dark_kitchen_simulator.Kitchen.Stations.Registry.{has_station_found}
use dark_kitchen_simulator.Kitchen.System.{
  System, IsAtomic, Step, Reach, initial, kitchen_created, station_created, capacity_updated,
  status_updated, delivered, claim_began, claim_ended, completion_began, completion_ended, here,
  next,
}
use dark_kitchen_simulator.Kitchen.System.Placed.{
  AllPlaced, is_placed, placed_with_station, claim_begin-AllPlaced, claim_finish-AllPlaced,
  complete_finish-AllPlaced, deliver_new_cases, deliver_new-AllPlaced,
}

-- The stations are as busy as they have claimed tasks, and every task stands at a station.
pub record IsSound (db : Db) : Type 0 where
  pub busy : BusyIsClaimed db
  pub placed : AllPlaced db

-- A station that is not there has no task.
none_claimed :
    (k : ℕ) (ss : List Station) (ts : List KdsStationTask)
    → find station_key k ss ≡ none
    → All (λ t. is_placed ss t ≡ true) ts
    → count (is_claimed_at k) ts ≡ 0
unfolding count
none_claimed k ss [] f h = refl
none_claimed k ss (t ∷ ts) f h = ground (arith, none_claimed k ss ts f h.1)

-- An unclaimed task is added.
BusyIsClaimed-add :
    (db : Db) (t : KdsStationTask)
    → is_claimed t.status ≡ false
    → BusyIsClaimed db
    → BusyIsClaimed (record db { tasks = t ∷ db.tasks })
unfolding count
BusyIsClaimed-add db t free inv = record { at = λ k s h. ground (arith, inv.at k s h) }

-- A station is written anew with the slots that it has.
BusyIsClaimed-save :
    (db : Db) (k : ℕ) (s row : Station)
    → get_station k db ≡ some s
    → row.id ≡ s.id
    → row.busy_slots ≡ s.busy_slots
    → BusyIsClaimed db
    → BusyIsClaimed (save_station row db)
unfolding get_station save_station
BusyIsClaimed-save db k s row f e b inv = record {
  at = λ j x h. elim (Bool-cases (row.id == j)) [
    | inl same ↦ ground (
      arith,
      key_of_found station_key k db.stations s f,
      find-save_self station_key j row s db.stations,
      inv.at k s f,
    )
    | inr away ↦ ground (arith, find-save_ne station_key j row db.stations, inv.at j x)
  ];
}

IsSound-of_tables : (a b : Db) → b.stations ≡ a.stations → b.tasks ≡ a.tasks → IsSound a → IsSound b
IsSound-of_tables a b e e' h = record {
  busy = record { at = λ k s f. rw e' (h.busy.at k s (rw (← e) f)) };
  placed = rw (e, e') h.placed;
}

pub create_kitchen_tables :
    (id : ℕ) (now : Datetime) (p : KitchenCreate) (w : World)
    → ((create_kitchen id now p w).1.db.stations ≡ w.db.stations)
      × ((create_kitchen id now p w).1.db.tasks ≡ w.db.tasks)
unfolding create_kitchen insert_kitchen
create_kitchen_tables id now p w = ground arith

-- A creation adds a station that was not there, or writes no row.
pub create_station_writes :
    (id : ℕ) (now : Datetime) (k : ℕ) (p : StationCreate) (w : World)
    → let s = new_station id now k p in
      let db' = (create_station id now k p w).1.db in
      (db' ≡ w.db)
      ⊎ ((find station_key s.id w.db.stations ≡ none)
          × (db' ≡ record w.db { stations = s ∷ w.db.stations }))
unfolding create_station get_kitchen insert_station
create_station_writes id now k p w =
    let s = new_station id now k p in
    elim (Option-cases (find_kitchen k w.db)) [
      | inl missing ↦ inl (ground arith)
      | inr (kitchen, f) ↦
          elim (Bool-cases (fits_integer p.capacity && fits_integer p.visible_backlog_limit)) [
            | inr over ↦ inl (ground arith)
            | inl fits ↦ elim (Bool-cases (has_station s w.db.stations)) [
              | inl taken ↦ inl (ground arith)
              | inr free ↦ inr (has_station_found s w.db.stations free, ground arith)
            ]
          ]
    ]

placed_with_new :
    (s : Station) (ss : List Station) (ts : List KdsStationTask)
    → All (λ t. is_placed ss t ≡ true) ts
    → All (λ t. is_placed (s ∷ ss) t ≡ true) ts
unfolding find
placed_with_new s ss [] h = tt
placed_with_new s ss (t ∷ ts) h = (ground arith, placed_with_new s ss ts h.1)

add_station-IsSound :
    (s : Station) (db : Db)
    → s.busy_slots ≡ 0
    → find station_key s.id db.stations ≡ none
    → IsSound db
    → IsSound (record db { stations = s ∷ db.stations })
unfolding find
add_station-IsSound s db idle f h = record {
  busy = record {
    at = λ k x e. ground (arith, none_claimed s.id db.stations db.tasks f h.placed, h.busy.at k x);
  };
  placed = placed_with_new s db.stations db.tasks h.placed;
}

create_station-IsSound :
    (id : ℕ) (now : Datetime) (k : ℕ) (p : StationCreate) (w : World)
    → IsSound w.db
    → IsSound (create_station id now k p w).1.db
create_station-IsSound id now k p w h = elim (create_station_writes id now k p w) [
  | inl same ↦ rw same h
  | inr (f, made) ↦ rw made (add_station-IsSound (new_station id now k p) w.db refl f h)
]

save_station-IsSound :
    (db : Db) (k : ℕ) (s row : Station)
    → get_station k db ≡ some s
    → row.id ≡ s.id
    → row.busy_slots ≡ s.busy_slots
    → IsSound db
    → IsSound (save_station row db)
unfolding save_station
save_station-IsSound db k s row f e b h = record {
  busy = BusyIsClaimed-save db k s row f e b h.busy;
  placed = placed_with_station row db.stations db.tasks h.placed;
}

update_station_capacity-IsSound :
    (k capacity : ℕ) (w : World)
    → IsSound w.db
    → IsSound (update_station_capacity k capacity w).1.db
unfolding update_station_capacity
update_station_capacity-IsSound k capacity w h = elim (Option-cases (get_station k w.db)) [
  | inl missing ↦
      let same : (update_station_capacity k capacity w).1.db ≡ w.db = ground arith in rw same h
  | inr (s, f) ↦ elim (Bool-cases (fits_integer capacity)) [
    | inr over ↦
        let same : (update_station_capacity k capacity w).1.db ≡ w.db = ground arith in rw same h
    | inl fits ↦
        let row : Station = record s { capacity = capacity } in
        let wrote : (update_station_capacity k capacity w).1.db ≡ save_station row w.db =
          ground arith in
        rw wrote (save_station-IsSound w.db k s row f refl refl h)
  ]
]

update_station_status-IsSound :
    (k : ℕ) (status : StationStatus) (w : World)
    → IsSound w.db
    → IsSound (update_station_status k status w).1.db
unfolding update_station_status
update_station_status-IsSound k status w h = elim (Option-cases (get_station k w.db)) [
  | inl missing ↦
      let same : (update_station_status k status w).1.db ≡ w.db = ground arith in rw same h
  | inr (s, f) ↦
      let row : Station = record s { status = status } in
      let wrote : (update_station_status k status w).1.db ≡ save_station row w.db = ground arith in
      rw wrote (save_station-IsSound w.db k s row f refl refl h)
]

deliver_new-IsSound :
    (env : Env) (k : ℕ) (p : KdsTaskDeliveryRequest) (corr : Option String) (w : World)
    → IsAtomic env
    → IsSound w.db
    → IsSound (deliver_new env k p corr w).1.db
deliver_new-IsSound env k p corr w a h = record {
  busy = elim (deliver_new_cases env a k p corr w) [
    | inl same ↦ rw same h.busy
    | inr (s, _, made) ↦
        rw made (BusyIsClaimed-add w.db (new_task env.new_id env.now k p) refl h.busy)
  ];
  placed = deliver_new-AllPlaced env a k p corr w h.placed;
}

-- Every step of the system keeps the tables sound.
Step-IsSound :
    (cuts : Bool) {s t : System} → Step cuts s t → IsSound s.world.db → IsSound t.world.db
Step-IsSound cuts {s} (kitchen_created id now p) h =
    let (e, e') = create_kitchen_tables id now p s.world in
    IsSound-of_tables s.world.db (create_kitchen id now p s.world).1.db e e' h
Step-IsSound cuts {s} (station_created id now k p) h = create_station-IsSound id now k p s.world h
Step-IsSound cuts {s} (capacity_updated k capacity _) h =
    update_station_capacity-IsSound k capacity s.world h
Step-IsSound cuts {s} (status_updated k status) h = update_station_status-IsSound k status s.world h
Step-IsSound cuts {s} (delivered env k p corr a) h = deliver_new-IsSound env k p corr s.world a h
Step-IsSound cuts {s} (claim_began env k id p corr rows _) h = record {
  busy = claim_begin-keeps env k id p corr s.world h.busy;
  placed = claim_begin-AllPlaced env k id p corr s.world h.placed;
}
Step-IsSound cuts {s} (claim_ended env p corr task station _ _ a _ loaded) h = record {
  busy = claim_finish-keeps env a.steady p corr task station s.world loaded h.busy;
  placed = claim_finish-AllPlaced env p corr (task, station) s.world h.placed;
}
Step-IsSound cuts {s} (completion_began now k id p corr rows _) h = h
Step-IsSound cuts {s} (completion_ended env k id p corr rows _ _ a _ loaded) h = record {
  busy = complete_finish-keeps env a.steady k id p corr rows s.world loaded h.busy;
  placed = complete_finish-AllPlaced env k id p corr rows s.world h.placed;
}

initial-IsSound : IsSound initial.world.db
unfolding find
initial-IsSound = record { busy = record { at = λ k s h. cc }; placed = tt }

-- In every history of the kitchen service from its start, of any requests interleaved at their
-- transactions, with every answer of the fulfillment service: each station has as many busy slots as
-- claimed tasks, and each task's station is there. A claim that is compensated and a completion that is
-- accepted are assumed to end while no other request has written their station's row or their task's row
-- since they loaded it, and a SELECT of an unchanged row to show it.
pub Reach-IsSound : (cuts : Bool) (t : System) → Reach cuts initial t → IsSound t.world.db
Reach-IsSound cuts _ here = initial-IsSound
Reach-IsSound cuts t (next r step) = Step-IsSound cuts step (Reach-IsSound cuts _ r)
