-- ===== src/Kitchen/System/Capacity.antt =====
-- About the capacity of the stations in a history of interleaved requests.
use dark_kitchen_simulator.Prelude.{
  ℕ, ◌≡◌, ◌≢◌, none, ◌≤◌, refl, ◌∷◌, Option, some, Bool, false, inl, inr, String, arith, find,
  count, save, ◌==◌, ◌&&◌, Option-cases, Bool-cases, find-save_self, find-save_ne, key_of_found,
}
use dark_kitchen_simulator.Prelude.Time.{Datetime}
use dark_kitchen_simulator.Kitchen.Models.{
  Station, StationStatus, KdsStationTask, StationCreate, KdsTaskDeliveryRequest,
  KdsTaskClaimRequest, KdsTaskCompleteRequest, Db, World, Code, audit_event, start_call,
}
use dark_kitchen_simulator.Kitchen.Client
use dark_kitchen_simulator.Kitchen.Repositories.{
  station_key, get_station, get_by_task_id, save_station, save_task, new_task, add_task, is_claimed,
}
use dark_kitchen_simulator.Kitchen.Session.{Env}
use dark_kitchen_simulator.Kitchen.Kds.{
  claim_begin, claim_finish, compensate_claim, complete_commit, complete_finish, deliver_new,
}
use dark_kitchen_simulator.Kitchen.Rules.{
  validate_claim, validate_complete, same_worker, occupied, released,
}
use dark_kitchen_simulator.Kitchen.Stations.{
  create_kitchen, create_station, update_station_capacity, update_station_status, fits_integer,
}
use dark_kitchen_simulator.Kitchen.Kds.Busy.{is_claimed_at}
use dark_kitchen_simulator.Kitchen.Kds.Claims.{IsUnchanged, shows_task, shows_station}
use dark_kitchen_simulator.Kitchen.System.{
  System, IsAtomic, Step, Reach, initial, kitchen_created, station_created, capacity_updated,
  status_updated, delivered, claim_began, claim_ended, completion_began, completion_ended, here,
  next,
}
use dark_kitchen_simulator.Kitchen.System.Placed.{deliver_new_cases}
use dark_kitchen_simulator.Kitchen.System.Slots.{
  Reach-IsSound, create_kitchen_tables, create_station_writes,
}

-- No station has more busy slots than its capacity.
pub record WithinCapacity (db : Db) : Type 0 where
  pub at :
      (k : ℕ) (s : Station) → find station_key k db.stations ≡ some s → s.busy_slots ≤ s.capacity

-- The tables after a station is written with its slots within its capacity.
within_write :
    (a b : Db) (k : ℕ) (s row : Station)
    → get_station k a ≡ some s
    → row.id ≡ s.id
    → row.busy_slots ≤ row.capacity
    → b.stations ≡ save station_key row a.stations
    → WithinCapacity a
    → WithinCapacity b
unfolding get_station
within_write a b k s row f e fits wrote h = record {
  at = λ j x g. elim (Bool-cases (row.id == j)) [
    | inl same ↦ ground (
      arith,
      key_of_found station_key k a.stations s f,
      find-save_self station_key j row s a.stations,
    )
    | inr away ↦ ground (arith, find-save_ne station_key j row a.stations, h.at j x)
  ];
}

within_same : (a b : Db) → b.stations ≡ a.stations → WithinCapacity a → WithinCapacity b
within_same a b e h = record { at = λ k s f. h.at k s (rw (← e) f) }

claim_begin-WithinCapacity :
    (env : Env) (k id : ℕ) (p : KdsTaskClaimRequest) (corr : Option String) (w : World)
    → WithinCapacity w.db
    → WithinCapacity (claim_begin env k id p corr w).1.db
unfolding claim_begin validate_claim save_station save_task
claim_begin-WithinCapacity env k id p corr w h =
    let db' = (claim_begin env k id p corr w).1.db in
    elim (Option-cases (get_station k w.db)) [
      | inl missing ↦ within_same w.db db' (ground arith) h
      | inr (s, f) ↦ elim (Option-cases (get_by_task_id id w.db)) [
        | inl missing ↦ within_same w.db db' (ground arith) h
        | inr (t, g) ↦ elim (Option-cases (validate_claim s t)) [
          | inl passes ↦
              within_write w.db db' k s (occupied s) f refl (ground arith) (ground arith) h
          | inr (code, refused) ↦ within_same w.db db' (ground arith) h
        ]
      ]
    ]

released_fits :
    (s : Station) → s.busy_slots ≤ s.capacity → (released s s).busy_slots ≤ (released s s).capacity
unfolding released
released_fits s h = ground arith

released_id : (s : Station) → (released s s).id ≡ s.id
unfolding released
released_id s = ground arith

found_fits :
    (k : ℕ) (db : Db) (s : Station)
    → get_station k db ≡ some s
    → WithinCapacity db
    → s.busy_slots ≤ s.capacity
unfolding get_station
found_fits k db s f h = h.at k s f

abbrev is_held : KdsStationTask → String → Bool
is_held t worker = is_claimed t.status && same_worker t.claimed_by worker

module _ (env : Env) (a : IsAtomic env) where
  compensate_claim-WithinCapacity :
      (task : KdsStationTask) (station : Station) (worker : String) (corr : Option String)
      (code : Code) (w : World)
      → IsUnchanged task.station_id task.task_id (task, station) w.db
      → WithinCapacity w.db
      → WithinCapacity (compensate_claim env task station worker corr code w).1.db
  unfolding compensate_claim save_station save_task
  compensate_claim-WithinCapacity task station worker corr code w loaded h =
      let db' = (compensate_claim env task station worker corr code w).1.db in
      elim (Option-cases (get_by_task_id task.task_id w.db)) [
        | inl missing ↦ within_same w.db db' (ground arith) h
        | inr (t, g) ↦
            let seen_t =
              shows_task env a.steady task.station_id task.task_id task t station w.db loaded g in
            elim (Option-cases (get_station t.station_id w.db)) [
              | inl missing ↦ within_same w.db db' (ground (arith, seen_t)) h
              | inr (s, f) ↦
                  let f' : get_station task.station_id w.db ≡ some s =
                    rw (← loaded.same_task t g) f in
                  let seen_s =
                    shows_station env a.steady task.station_id task.task_id task station s w.db
                      loaded f' in
                  elim (Bool-cases (is_held t worker)) [
                    | inl held ↦
                        within_write w.db db' t.station_id s (released s s) f (released_id s)
                          (released_fits s (found_fits t.station_id w.db s f h))
                          (ground (arith, seen_t, seen_s)) h
                    | inr free ↦ within_same w.db db' (ground (arith, seen_t)) h
                  ]
            ]
      ]

  claim_finish-WithinCapacity :
      (p : KdsTaskClaimRequest) (corr : Option String) (task : KdsStationTask) (station : Station)
      (w : World)
      → (Client.start_task env.reply ≢ none
          → IsUnchanged task.station_id task.task_id (task, station) w.db)
      → WithinCapacity w.db
      → WithinCapacity (claim_finish env p corr (task, station) w).1.db
  unfolding claim_finish
  claim_finish-WithinCapacity p corr task station w loaded h =
      let db' = (claim_finish env p corr (task, station) w).1.db in
      elim (Option-cases (Client.start_task env.reply)) [
        | inl accepted ↦ within_same w.db db' (ground arith) h
        | inr (code, failed) ↦
            let w' : World = record w {
              events = audit_event start_call code task station corr ∷ w.events;
            } in
            let held =
              compensate_claim-WithinCapacity task station p.station_worker_id corr code w'
                (loaded (λ e. ground (arith, failed, e))) h in
            within_same (compensate_claim env task station p.station_worker_id corr code w').1.db
              db' (ground arith) held
      ]

  complete_finish-WithinCapacity :
      (k id : ℕ) (p : KdsTaskCompleteRequest) (corr : Option String)
      (rows : KdsStationTask × Station) (w : World)
      → (Client.complete_task env.reply ≡ none → IsUnchanged k id rows w.db)
      → WithinCapacity w.db
      → WithinCapacity (complete_finish env k id p corr rows w).1.db
  unfolding complete_finish complete_commit save_station save_task
  complete_finish-WithinCapacity k id p corr (task, station) w loaded h =
      let db' = (complete_finish env k id p corr (task, station) w).1.db in
      elim (Option-cases (Client.complete_task env.reply)) [
        | inr (code, failed) ↦ within_same w.db db' (ground arith) h
        | inl accepted ↦ elim (Option-cases (get_station k w.db)) [
          | inl missing ↦ within_same w.db db' (ground arith) h
          | inr (s, f) ↦ elim (Option-cases (get_by_task_id id w.db)) [
            | inl missing ↦ within_same w.db db' (ground arith) h
            | inr (t, g) ↦
                let same = loaded accepted in
                let seen_t = shows_task env a.steady k id task t station w.db same g in
                let seen_s = shows_station env a.steady k id task station s w.db same f in
                elim (Option-cases (validate_complete s t p.station_worker_id)) [
                  | inl passes ↦
                      within_write w.db db' k s (released s s) f (released_id s)
                        (released_fits s (found_fits k w.db s f h)) (ground (arith, seen_t, seen_s))
                        h
                  | inr (code, refused) ↦ within_same w.db db' (ground (arith, seen_t, seen_s)) h
                ]
          ]
        ]
      ]

  deliver_new-WithinCapacity :
      (k : ℕ) (p : KdsTaskDeliveryRequest) (corr : Option String) (w : World)
      → WithinCapacity w.db
      → WithinCapacity (deliver_new env k p corr w).1.db
  deliver_new-WithinCapacity k p corr w h = elim (deliver_new_cases env a k p corr w) [
    | inl same ↦ rw same h
    | inr (s, _, made) ↦
        rw made (within_same w.db (add_task (new_task env.new_id env.now k p) w.db) refl h)
  ]

create_station-WithinCapacity :
    (id : ℕ) (now : Datetime) (k : ℕ) (p : StationCreate) (w : World)
    → WithinCapacity w.db
    → WithinCapacity (create_station id now k p w).1.db
unfolding find
create_station-WithinCapacity id now k p w h = elim (create_station_writes id now k p w) [
  | inl same ↦ rw same h
  | inr (_, made) ↦ rw made (record { at = λ j x e. ground (arith, h.at j x) })
]

update_station_capacity-WithinCapacity :
    (k capacity : ℕ) (w : World)
    → ((row : Station) → get_station k w.db ≡ some row → row.busy_slots ≤ capacity)
    → WithinCapacity w.db
    → WithinCapacity (update_station_capacity k capacity w).1.db
unfolding update_station_capacity save_station
update_station_capacity-WithinCapacity k capacity w fits h =
    let db' = (update_station_capacity k capacity w).1.db in
    elim (Option-cases (get_station k w.db)) [
      | inl missing ↦ within_same w.db db' (ground arith) h
      | inr (s, f) ↦ elim (Bool-cases (fits_integer capacity)) [
        | inr over ↦ within_same w.db db' (ground arith) h
        | inl held ↦
            within_write w.db db' k s (record s { capacity = capacity }) f refl (fits s f)
              (ground arith) h
      ]
    ]

update_station_status-WithinCapacity :
    (k : ℕ) (status : StationStatus) (w : World)
    → WithinCapacity w.db
    → WithinCapacity (update_station_status k status w).1.db
unfolding update_station_status save_station
update_station_status-WithinCapacity k status w h =
    let db' = (update_station_status k status w).1.db in
    elim (Option-cases (get_station k w.db)) [
      | inl missing ↦ within_same w.db db' (ground arith) h
      | inr (s, f) ↦
          within_write w.db db' k s (record s { status = status }) f refl (found_fits k w.db s f h)
            (ground arith) h
    ]

Step-WithinCapacity :
    {s t : System} → Step false s t → WithinCapacity s.world.db → WithinCapacity t.world.db
Step-WithinCapacity {s} (kitchen_created id now p) h =
    within_same s.world.db (create_kitchen id now p s.world).1.db
      (create_kitchen_tables id now p s.world).0 h
Step-WithinCapacity {s} (station_created id now k p) h =
    create_station-WithinCapacity id now k p s.world h
Step-WithinCapacity {s} (capacity_updated k capacity fits) h =
    update_station_capacity-WithinCapacity k capacity s.world (λ row f. fits row refl f) h
Step-WithinCapacity {s} (status_updated k status) h =
    update_station_status-WithinCapacity k status s.world h
Step-WithinCapacity {s} (delivered env k p corr a) h =
    deliver_new-WithinCapacity env a k p corr s.world h
Step-WithinCapacity {s} (claim_began env k id p corr rows _) h =
    claim_begin-WithinCapacity env k id p corr s.world h
Step-WithinCapacity {s} (claim_ended env p corr task station _ _ a _ loaded) h =
    claim_finish-WithinCapacity env a p corr task station s.world loaded h
Step-WithinCapacity {s} (completion_began now k id p corr rows _) h = h
Step-WithinCapacity {s} (completion_ended env k id p corr rows _ _ a _ loaded) h =
    complete_finish-WithinCapacity env a k id p corr rows s.world loaded h

initial-WithinCapacity : WithinCapacity initial.world.db
unfolding find
initial-WithinCapacity = record { at = λ k s h. cc }

Reach-WithinCapacity : (t : System) → Reach false initial t → WithinCapacity t.world.db
Reach-WithinCapacity _ here = initial-WithinCapacity
Reach-WithinCapacity t (next r step) = Step-WithinCapacity step (Reach-WithinCapacity _ r)

-- In every history of the kitchen service from its start in which no capacity is set below the busy
-- slots of its station, no station has more claimed tasks than its capacity: whatever requests
-- interleave at their transactions, and whatever the fulfillment service answers. A claim that is
-- compensated and a completion that is accepted are assumed to end while no other request has written their
-- station's row or their task's row since they loaded it, and a SELECT of an unchanged row to show it.
pub claimed_within_capacity :
    (t : System) (k : ℕ) (s : Station)
    → Reach false initial t
    → get_station k t.world.db ≡ some s
    → count (is_claimed_at k) t.world.db.tasks ≤ s.capacity
unfolding get_station
claimed_within_capacity t k s r found =
    let sound = Reach-IsSound false t r in
    let within = Reach-WithinCapacity t r in
    omega (arith, sound.busy.at k s found, within.at k s found)
