-- ===== src/Kitchen/Routes/Keeps.antt =====
-- About the rows that the services of services/kitchen-service/app/services.py leave for the requests that
-- app/schemas.py admits.
use dark_kitchen_simulator.Prelude.{
  ℕ, String, Option, ◌∷◌, ◌≡◌, ◌⊎◌, ◌&&◌, refl, true, inl, inr, arith, Option-cases, Bool-cases,
  leb,
}
use dark_kitchen_simulator.Prelude.Time.{Datetime}
use dark_kitchen_simulator.Prelude.Exec.{Keeps, Keeps-bind, modify, ◌>>◌}
use dark_kitchen_simulator.Kitchen.Models.{
  Station, KdsStationTask, StationStatus, KitchenCreate, StationCreate, KdsTaskDeliveryRequest,
  KdsTaskClaimRequest, KdsTaskCompleteRequest, StationType, KdsTaskStatus, World, start_call,
  audit_event,
}
use dark_kitchen_simulator.Kitchen.Client
use dark_kitchen_simulator.Kitchen.Repositories.{
  get_station, get_by_task_id, create_task, new_task, add_task, get_by_idempotency_key,
  visible_backlog_size,
}
use dark_kitchen_simulator.Kitchen.Kds as Kds
use dark_kitchen_simulator.Kitchen.Session.{Env}
use dark_kitchen_simulator.Kitchen.Kds.{
  claim_begin, claim_finish, complete_begin, complete_finish, deliver_new,
}
use dark_kitchen_simulator.Kitchen.Rules.{validate_delivery_station}
use dark_kitchen_simulator.Kitchen.Stations as Stations
use dark_kitchen_simulator.Kitchen.Stations.{
  new_kitchen, new_station, insert_kitchen, insert_station, find_kitchen, has_kitchen, has_station,
}
use dark_kitchen_simulator.Kitchen.Listing as Listing
use dark_kitchen_simulator.Kitchen.Routes.Schemas.{
  accepts_kitchen, accepts_station, accepts_capacity, accepts_delivery,
}
use dark_kitchen_simulator.Kitchen.Routes.Valid.{
  StationIsValid, TaskIsValid, KeepsValid, Inv, station-IsValid, saved_station-IsValid,
  claim_begin-keeps, compensate_claim-keeps, complete_commit-keeps,
}

module _ (env : Env) (keeps : KeepsValid env) (corr : Option String) where
  claim_finish-Keeps :
      (p : KdsTaskClaimRequest) (rows : KdsStationTask × Station)
      → Keeps Inv (claim_finish env p corr rows)
  unfolding claim_finish
  claim_finish-Keeps p (task, station) w inv = elim (Option-cases (Client.start_task env.reply)) [
    | inl accepted ↦ ground arith
    | inr (code, failed) ↦ ground (
      arith,
      compensate_claim-keeps env task station p.station_worker_id corr code
          (record w { events = audit_event start_call code task station corr ∷ w.events }) inv,
    )
  ]

  pub claim_task-Keeps :
      (k id : ℕ) (p : KdsTaskClaimRequest) → Keeps Inv (Kds.claim_task env k id p corr)
  unfolding Kds.claim_task
  claim_task-Keeps k id p w inv =
      Keeps-bind Inv (claim_begin env k id p corr)
        (λ rows. modify env.others_at_call >> claim_finish env p corr rows)
        (λ v h. claim_begin-keeps env k id p corr v h)
        (λ rows v h. claim_finish-Keeps p rows (env.others_at_call v) (keeps.at_call v h))
        (env.others_at_lock w) (keeps.at_lock w inv)

  complete_begin-Keeps : (k id : ℕ) (p : KdsTaskCompleteRequest) → Keeps Inv (complete_begin k id p)
  unfolding complete_begin
  complete_begin-Keeps k id p w inv = ground arith

  complete_finish-Keeps :
      (k id : ℕ) (p : KdsTaskCompleteRequest) (rows : KdsStationTask × Station)
      → Keeps Inv (complete_finish env k id p corr rows)
  unfolding complete_finish
  complete_finish-Keeps k id p (task, station) w inv =
      elim (Option-cases (Client.complete_task env.reply)) [
        | inl accepted ↦ ground (arith, complete_commit-keeps env k id p corr task station w inv)
        | inr (code, failed) ↦ ground arith
      ]

  pub complete_task-Keeps :
      (k id : ℕ) (p : KdsTaskCompleteRequest) → Keeps Inv (Kds.complete_task env k id p corr)
  unfolding Kds.complete_task
  complete_task-Keeps k id p w inv =
      Keeps-bind Inv (complete_begin k id p)
        (λ rows. modify env.others_at_call >> complete_finish env k id p corr rows)
        (complete_begin-Keeps k id p)
        (λ rows v h. complete_finish-Keeps k id p rows (env.others_at_call v) (keeps.at_call v h))
        (env.others_at_lock w) (keeps.at_lock w inv)

  -- The tables that a delivery leaves.
  deliver_task-writes :
      (k : ℕ) (p : KdsTaskDeliveryRequest) (w : World)
      → let w1 = env.others_at_lock w in
        let w2 = env.others_at_insert w1 in
        let left = (Kds.deliver_task env k p corr w).1.db in
        (left ≡ w.db)
        ⊎ ((left ≡ w1.db)
            ⊎ ((left ≡ w2.db) ⊎ (left ≡ add_task (new_task env.new_id env.now k p) w2.db)))
  unfolding Kds.deliver_task create_task
  deliver_task-writes k p w =
      let w1 = env.others_at_lock w in
      let w2 = env.others_at_insert w1 in
      elim (Option-cases (get_by_idempotency_key p.idempotency_key w.db)) [
        | inr (t, known) ↦ inl (ground arith)
        | inl unknown ↦ elim (Option-cases (get_station k w1.db)) [
          | inl missing ↦ inr (inl (ground arith))
          | inr (s, f) ↦ elim (Option-cases (validate_delivery_station s p)) [
            | inr (code, refused) ↦ inr (inl (ground arith))
            | inl passes ↦
                elim (Bool-cases (leb s.visible_backlog_limit (visible_backlog_size k w1.db))) [
                  | inl full ↦ inr (inl (ground arith))
                  | inr room ↦
                      elim (Option-cases (get_by_idempotency_key p.idempotency_key w2.db)) [
                        | inr (t, known) ↦ inr (inr (inl (ground arith)))
                        | inl fresh ↦ elim (Option-cases (get_by_task_id p.task_id w2.db)) [
                          | inr (t, taken) ↦ inr (inr (inl (ground arith)))
                          | inl new ↦ inr (inr (inr (ground arith)))
                        ]
                      ]
                ]
          ]
        ]
      ]

  new_task-IsValid :
      (k : ℕ) (p : KdsTaskDeliveryRequest)
      → accepts_delivery p ≡ true
      → TaskIsValid (new_task env.new_id env.now k p)
  unfolding accepts_delivery
  new_task-IsValid k p accepted = record {
    takes_time = ground arith;
    unclaimed = λ d. (refl, refl);
  }

  pub deliver_task-Keeps :
      (k : ℕ) (p : KdsTaskDeliveryRequest)
      → accepts_delivery p ≡ true
      → Keeps Inv (Kds.deliver_task env k p corr)
  deliver_task-Keeps k p accepted w inv =
      let inv1 = keeps.at_lock w inv in
      let inv2 = keeps.at_insert (env.others_at_lock w) inv1 in
      elim (deliver_task-writes k p w) [
        | inl e ↦ rw e inv
        | inr (inl e) ↦ rw e inv1
        | inr (inr (inl e)) ↦ rw e inv2
        | inr (inr (inr e)) ↦ rw e (record {
          kitchens_named = inv2.kitchens_named;
          stations_valid = inv2.stations_valid;
          tasks_valid = (new_task-IsValid k p accepted, inv2.tasks_valid);
        })
      ]

pub create_kitchen-Keeps :
    (id : ℕ) (now : Datetime) (p : KitchenCreate)
    → accepts_kitchen p ≡ true
    → Keeps Inv (Stations.create_kitchen id now p)
unfolding Stations.create_kitchen insert_kitchen accepts_kitchen
create_kitchen-Keeps id now p accepted w inv =
    let run = Stations.create_kitchen id now p w in
    let k = new_kitchen id now p in
    elim (Bool-cases (has_kitchen k w.db.kitchens)) [
      | inl clash ↦ let e : run.1.db ≡ w.db = ground arith in rw e inv
      | inr fresh ↦
          let e : run.1.db ≡ record w.db { kitchens = k ∷ w.db.kitchens } = ground arith in
          rw e (record {
            kitchens_named = (accepted, inv.kitchens_named);
            stations_valid = inv.stations_valid;
            tasks_valid = inv.tasks_valid;
          })
    ]

new_station-IsValid :
    (id : ℕ) (now : Datetime) (k : ℕ) (p : StationCreate)
    → accepts_station p ≡ true
    → StationIsValid (new_station id now k p)
unfolding accepts_station
new_station-IsValid id now k p h = record {
  named = ground arith;
  has_capacity = ground arith;
  has_limit = ground arith;
}

pub create_station-Keeps :
    (id : ℕ) (now : Datetime) (k : ℕ) (p : StationCreate)
    → accepts_station p ≡ true
    → Keeps Inv (Stations.create_station id now k p)
unfolding Stations.create_station Stations.get_kitchen insert_station
create_station-Keeps id now k p accepted w inv =
    let run = Stations.create_station id now k p w in
    let s = new_station id now k p in
    elim (Option-cases (find_kitchen k w.db)) [
      | inl missing ↦ let e : run.1.db ≡ w.db = ground arith in rw e inv
      | inr (kitchen, found) ↦
          elim (Bool-cases
            (Stations.fits_integer p.capacity && Stations.fits_integer p.visible_backlog_limit)) [
              | inr over ↦ let e : run.1.db ≡ w.db = ground arith in rw e inv
              | inl fits ↦ elim (Bool-cases (has_station s w.db.stations)) [
                | inl clash ↦ let e : run.1.db ≡ w.db = ground arith in rw e inv
                | inr fresh ↦
                    let e : run.1.db ≡ record w.db { stations = s ∷ w.db.stations } =
                      ground arith in
                    rw e (record {
                      kitchens_named = inv.kitchens_named;
                      stations_valid =
                          (new_station-IsValid id now k p accepted, inv.stations_valid);
                      tasks_valid = inv.tasks_valid;
                    })
              ]
            ]
    ]

pub get_kitchen-Keeps : (k : ℕ) → Keeps Inv (Stations.get_kitchen k)
unfolding Stations.get_kitchen
get_kitchen-Keeps k w inv = ground arith

pub list_stations-Keeps :
    (k : ℕ) (station_type : Option StationType) → Keeps Inv (Stations.list_stations k station_type)
unfolding Stations.list_stations Stations.get_kitchen
list_stations-Keeps k station_type w inv = ground arith

pub list_station_tasks-Keeps :
    (k : ℕ) (status : KdsTaskStatus) (limit offset : ℕ)
    → Keeps Inv (Listing.list_station_tasks k status limit offset)
unfolding Listing.list_station_tasks
list_station_tasks-Keeps k status limit offset w inv = ground arith

pub update_station_capacity-Keeps :
    (k capacity : ℕ)
    → accepts_capacity capacity ≡ true
    → Keeps Inv (Stations.update_station_capacity k capacity)
unfolding Stations.update_station_capacity accepts_capacity
update_station_capacity-Keeps k capacity accepted w inv =
    let run = Stations.update_station_capacity k capacity w in
    elim (Option-cases (get_station k w.db)) [
      | inl missing ↦ let e : run.1.db ≡ w.db = ground arith in rw e inv
      | inr (s, f) ↦
          let old = station-IsValid w.db k s inv f in
          let kept =
            saved_station-IsValid w.db (record s { capacity = capacity }) inv
              (record {
                named = old.named;
                has_capacity = ground arith;
                has_limit = old.has_limit;
              }) in
          ground arith
    ]

pub update_station_status-Keeps :
    (k : ℕ) (status : StationStatus) → Keeps Inv (Stations.update_station_status k status)
unfolding Stations.update_station_status
update_station_status-Keeps k status w inv =
    let run = Stations.update_station_status k status w in
    elim (Option-cases (get_station k w.db)) [
      | inl missing ↦ let e : run.1.db ≡ w.db = ground arith in rw e inv
      | inr (s, f) ↦
          let old = station-IsValid w.db k s inv f in
          let kept =
            saved_station-IsValid w.db (record s { status = status }) inv
              (record {
                named = old.named;
                has_capacity = old.has_capacity;
                has_limit = old.has_limit;
              }) in
          ground arith
    ]
