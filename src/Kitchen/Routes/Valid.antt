-- ===== src/Kitchen/Routes/Valid.antt =====
-- About the rows that the requests of services/kitchen-service/app/api/routes.py leave: what
-- app/schemas.py admits and app/services.py writes.
use dark_kitchen_simulator.Prelude.{
  ℕ, String, Option, some, ◌≡◌, ◌≤◌, refl, true, inl, inr, arith, Option-cases, Bool-cases, All,
  All-save, All-find, ◌-◌, ◌==◌, ◌&&◌,
}
use dark_kitchen_simulator.Prelude.Time.{Datetime}
use dark_kitchen_simulator.Kitchen.Models.{
  Kitchen, Station, KdsStationTask, KdsTaskClaimRequest, KdsTaskCompleteRequest, Code, Db, World,
}
use dark_kitchen_simulator.Kitchen.Repositories.{
  station_key, task_key, get_station, get_by_task_id, save_station, save_task, is_claimed,
}
use dark_kitchen_simulator.Kitchen.Session.{Env, or_else}
use dark_kitchen_simulator.Kitchen.Rules.{
  claimed_row, completed_row, unclaimed_row, occupied, released, validate_claim, validate_complete,
  same_worker,
}
use dark_kitchen_simulator.Kitchen.Kds.{claim_begin, compensate_claim, complete_commit}
use dark_kitchen_simulator.Kitchen.Kds.Compensated.{IsUnclaimed}
use dark_kitchen_simulator.Kitchen.Routes.Schemas.{is_text}

pub record StationIsValid (s : Station) : Type 0 where
  pub named : is_text 120 s.name ≡ true
  pub has_capacity : 1 ≤ s.capacity
  pub has_limit : 1 ≤ s.visible_backlog_limit

-- A task takes time, and a displayed one names no claim.
pub record TaskIsValid (t : KdsStationTask) : Type 0 where
  pub takes_time : 1 ≤ t.estimated_duration_seconds
  pub unclaimed : IsUnclaimed t

pub record IsValid (db : Db) : Type 0 where
  pub kitchens_named : All (λ (k : Kitchen). is_text 120 k.name ≡ true) db.kitchens
  pub stations_valid : All StationIsValid db.stations
  pub tasks_valid : All TaskIsValid db.tasks

saved-IsValid :
    (db : Db) (s : Station) (t : KdsStationTask)
    → IsValid db
    → StationIsValid s
    → TaskIsValid t
    → IsValid (save_station s (save_task t db))
unfolding save_station save_task
saved-IsValid db s t h hs ht = record {
  kitchens_named = h.kitchens_named;
  stations_valid = All-save station_key StationIsValid s db.stations hs h.stations_valid;
  tasks_valid = All-save task_key TaskIsValid t db.tasks ht h.tasks_valid;
}

pub saved_station-IsValid :
    (db : Db) (s : Station) → IsValid db → StationIsValid s → IsValid (save_station s db)
unfolding save_station
saved_station-IsValid db s h hs = record {
  kitchens_named = h.kitchens_named;
  stations_valid = All-save station_key StationIsValid s db.stations hs h.stations_valid;
  tasks_valid = h.tasks_valid;
}

pub station-IsValid :
    (db : Db) (k : ℕ) (s : Station) → IsValid db → get_station k db ≡ some s → StationIsValid s
unfolding get_station
station-IsValid db k s h f = All-find station_key StationIsValid k db.stations s h.stations_valid f

pub task-IsValid :
    (db : Db) (id : ℕ) (t : KdsStationTask)
    → IsValid db
    → get_by_task_id id db ≡ some t
    → TaskIsValid t
unfolding get_by_task_id
task-IsValid db id t h g = All-find task_key TaskIsValid id db.tasks t h.tasks_valid g

-- The rows that claims and completions write.
claimed_row-IsValid :
    (p : KdsTaskClaimRequest) (at : Datetime) (t : KdsStationTask)
    → TaskIsValid t
    → TaskIsValid (claimed_row p at t)
claimed_row-IsValid p at t h = record { takes_time = h.takes_time; unclaimed = λ d. cc }

completed_row-IsValid :
    (at : Datetime) (t : KdsStationTask) → TaskIsValid t → TaskIsValid (completed_row at t)
completed_row-IsValid at t h = record { takes_time = h.takes_time; unclaimed = λ d. cc }

unclaimed_row-IsValid : (t : KdsStationTask) → TaskIsValid t → TaskIsValid (unclaimed_row t)
unclaimed_row-IsValid t h = record { takes_time = h.takes_time; unclaimed = λ d. (refl, refl) }

occupied-IsValid : (s : Station) → StationIsValid s → StationIsValid (occupied s)
occupied-IsValid s h = record {
  named = h.named;
  has_capacity = h.has_capacity;
  has_limit = h.has_limit;
}

released-IsValid : (seen s : Station) → StationIsValid s → StationIsValid (released seen s)
unfolding released
released-IsValid seen s h = elim (Bool-cases (seen.busy_slots - 1 == seen.busy_slots)) [
  | inl same ↦ rw same h
  | inr less ↦
      rw less (record { named = h.named; has_capacity = h.has_capacity; has_limit = h.has_limit })
]

abbrev pub Inv : World → Type 0
Inv w = IsValid w.db

-- What other requests commit keeps the rows valid.
pub record KeepsValid (env : Env) : Type 0 where
  pub at_lock : (w : World) → IsValid w.db → IsValid (env.others_at_lock w).db
  pub at_insert : (w : World) → IsValid w.db → IsValid (env.others_at_insert w).db
  pub at_call : (w : World) → IsValid w.db → IsValid (env.others_at_call w).db

module _ (env : Env) (k id : ℕ) (p : KdsTaskClaimRequest) (corr : Option String) (w : World)
    (inv : IsValid w.db) where
  claim_begin_at :
      (s : Station) (t : KdsStationTask)
      → get_station k w.db ≡ some s
      → get_by_task_id id w.db ≡ some t
      → IsValid (claim_begin env k id p corr w).1.db
  unfolding claim_begin
  claim_begin_at s t f g =
      let row = claimed_row p (or_else p.claimed_at env.now) t in
      let kept =
        saved-IsValid w.db (occupied s) row inv
          (occupied-IsValid s (station-IsValid w.db k s inv f))
          (claimed_row-IsValid p (or_else p.claimed_at env.now) t (task-IsValid w.db id t inv g)) in
      elim (Option-cases (validate_claim s t)) [
        | inl passes ↦
            let e : (claim_begin env k id p corr w).1.db
                ≡ save_station (occupied s) (save_task row w.db) =
              ground arith in
            rw e kept
        | inr (code, refused) ↦
            let e : (claim_begin env k id p corr w).1.db ≡ w.db = ground arith in rw e inv
      ]

  pub claim_begin-keeps : IsValid (claim_begin env k id p corr w).1.db
  unfolding claim_begin
  claim_begin-keeps = elim (Option-cases (get_station k w.db)) [
    | inl missing ↦ let e : (claim_begin env k id p corr w).1.db ≡ w.db = ground arith in rw e inv
    | inr (s, f) ↦ elim (Option-cases (get_by_task_id id w.db)) [
      | inl missing ↦ let e : (claim_begin env k id p corr w).1.db ≡ w.db = ground arith in rw e inv
      | inr (t, g) ↦ claim_begin_at s t f g
    ]
  ]

module _ (env : Env) (task : KdsStationTask) (station : Station) (worker : String)
    (corr : Option String) (code : Code) (w : World) (inv : IsValid w.db) where
  compensate_at :
      (t : KdsStationTask) (s : Station)
      → get_by_task_id task.task_id w.db ≡ some t
      → get_station (env.seen_task task t).station_id w.db ≡ some s
      → IsValid (compensate_claim env task station worker corr code w).1.db
  unfolding compensate_claim
  compensate_at t s g f =
      let run = compensate_claim env task station worker corr code w in
      let row = unclaimed_row t in
      let s' = released (env.seen_station station s) s in
      let kept =
        saved-IsValid w.db s' row inv
          (released-IsValid (env.seen_station station s) s
            (station-IsValid w.db (env.seen_task task t).station_id s inv f))
          (unclaimed_row-IsValid t (task-IsValid w.db task.task_id t inv g)) in
      elim (Bool-cases (
        is_claimed (env.seen_task task t).status
        && same_worker (env.seen_task task t).claimed_by worker)) [
          | inl held ↦
              let e : run.1.db ≡ save_station s' (save_task row w.db) = ground arith in rw e kept
          | inr free ↦ let e : run.1.db ≡ w.db = ground arith in rw e inv
        ]

  pub compensate_claim-keeps : IsValid (compensate_claim env task station worker corr code w).1.db
  unfolding compensate_claim
  compensate_claim-keeps =
      let run = compensate_claim env task station worker corr code w in
      elim (Option-cases (get_by_task_id task.task_id w.db)) [
        | inl missing ↦ let e : run.1.db ≡ w.db = ground arith in rw e inv
        | inr (t, g) ↦ elim (Option-cases (get_station (env.seen_task task t).station_id w.db)) [
          | inl missing ↦ let e : run.1.db ≡ w.db = ground arith in rw e inv
          | inr (s, f) ↦ compensate_at t s g f
        ]
      ]

module _ (env : Env) (k id : ℕ) (p : KdsTaskCompleteRequest) (corr : Option String)
    (task : KdsStationTask) (station : Station) (w : World) (inv : IsValid w.db) where
  complete_at :
      (s : Station) (t : KdsStationTask)
      → get_station k w.db ≡ some s
      → get_by_task_id id w.db ≡ some t
      → IsValid (complete_commit env k id p corr (task, station) w).1.db
  unfolding complete_commit
  complete_at s t f g =
      let run = complete_commit env k id p corr (task, station) w in
      let seen = env.seen_station station s in
      let row = completed_row (or_else p.completed_at env.now) t in
      let kept =
        saved-IsValid w.db (released seen s) row inv
          (released-IsValid seen s (station-IsValid w.db k s inv f))
          (completed_row-IsValid (or_else p.completed_at env.now) t
            (task-IsValid w.db id t inv g)) in
      elim (Option-cases (validate_complete seen (env.seen_task task t) p.station_worker_id)) [
        | inl passes ↦
            let e : run.1.db ≡ save_station (released seen s) (save_task row w.db) = ground arith in
            rw e kept
        | inr (code, refused) ↦ let e : run.1.db ≡ w.db = ground arith in rw e inv
      ]

  pub complete_commit-keeps : IsValid (complete_commit env k id p corr (task, station) w).1.db
  unfolding complete_commit
  complete_commit-keeps =
      let run = complete_commit env k id p corr (task, station) w in
      elim (Option-cases (get_station k w.db)) [
        | inl missing ↦ let e : run.1.db ≡ w.db = ground arith in rw e inv
        | inr (s, f) ↦ elim (Option-cases (get_by_task_id id w.db)) [
          | inl missing ↦ let e : run.1.db ≡ w.db = ground arith in rw e inv
          | inr (t, g) ↦ complete_at s t f g
        ]
      ]
