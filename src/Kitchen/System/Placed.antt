-- ===== src/Kitchen/System/Placed.antt =====
-- About the stations that display tasks stand at: every task's station is there.
use dark_kitchen_simulator.Prelude.{
  ℕ, ◌≡◌, refl, List, [], ◌∷◌, Option, none, some, Bool, true, false, inl, inr, String, arith, All,
  All-save, All-find, find, save, Option-cases, Bool-cases, ◌⊎◌, ◌&&◌, ltb,
}
use dark_kitchen_simulator.Kitchen.Models.{
  Station, KdsStationTask, KdsTaskDeliveryRequest, KdsTaskClaimRequest, KdsTaskCompleteRequest, Db,
  World, Code, audit_event, start_call,
}
use dark_kitchen_simulator.Kitchen.Client
use dark_kitchen_simulator.Kitchen.Repositories.{
  station_key, task_key, get_station, get_by_task_id, save_station, save_task, create_task,
  add_task, new_task, visible_backlog_size, get_by_idempotency_key,
}
use dark_kitchen_simulator.Kitchen.Session.{Env, or_else}
use dark_kitchen_simulator.Kitchen.Kds.{
  claim_begin, claim_finish, compensate_claim, complete_commit, complete_finish, deliver_new,
}
use dark_kitchen_simulator.Kitchen.Rules.{
  claimed_row, unclaimed_row, completed_row, occupied, released, validate_delivery_station,
}
use dark_kitchen_simulator.Kitchen.System.{IsAtomic}

abbrev pub is_placed : List Station → KdsStationTask → Bool
is_placed stations t = elim (find station_key t.station_id stations) [
  | none ↦ false
  | some _ ↦ true
]

-- Every display task stands at a station that is there.
abbrev pub AllPlaced : Db → Type 0
AllPlaced db = All (λ t. is_placed db.stations t ≡ true) db.tasks

is_placed-save :
    (s : Station) (ss : List Station) (t : KdsStationTask)
    → is_placed ss t ≡ true
    → is_placed (save station_key s ss) t ≡ true
unfolding find save
is_placed-save s [] t h = h
is_placed-save s (x ∷ xs) t h = ground (arith, is_placed-save s xs t)

pub placed_with_station :
    (s : Station) (ss : List Station) (ts : List KdsStationTask)
    → All (λ t. is_placed ss t ≡ true) ts
    → All (λ t. is_placed (save station_key s ss) t ≡ true) ts
placed_with_station s ss [] h = tt
placed_with_station s ss (t ∷ ts) h = (is_placed-save s ss t h.0, placed_with_station s ss ts h.1)

-- A task that is written anew at its station, and any station with it.
pub placed_write :
    (db : Db) (s : Station) (id : ℕ) (t row : KdsStationTask)
    → AllPlaced db
    → get_by_task_id id db ≡ some t
    → row.station_id ≡ t.station_id
    → AllPlaced (save_station s (save_task row db))
unfolding get_by_task_id save_station save_task
placed_write db s id t row h f e =
    let placed = All-find task_key (λ t. is_placed db.stations t ≡ true) id db.tasks t h f in
    placed_with_station s db.stations (save task_key row db.tasks)
      (All-save task_key (λ t. is_placed db.stations t ≡ true) row db.tasks (rw e placed) h)

pub claim_begin-AllPlaced :
    (env : Env) (k id : ℕ) (p : KdsTaskClaimRequest) (corr : Option String) (w : World)
    → AllPlaced w.db
    → AllPlaced (claim_begin env k id p corr w).1.db
unfolding claim_begin
claim_begin-AllPlaced env k id p corr w h = elim (Option-cases (get_station k w.db)) [
  | inl missing ↦ ground arith
  | inr (s, f) ↦ elim (Option-cases (get_by_task_id id w.db)) [
    | inl missing ↦ ground arith
    | inr (t, g) ↦ ground (
      arith,
      placed_write w.db (occupied s) id t (claimed_row p (or_else p.claimed_at env.now) t) h g refl,
    )
  ]
]

abbrev is_none {ℓ} : {A : Type ℓ} → Option A → Bool
is_none none = true
is_none (some _) = false

module _ (env : Env) where
  compensate_claim-AllPlaced :
      (task : KdsStationTask) (station : Station) (worker : String) (corr : Option String)
      (code : Code) (w : World)
      → AllPlaced w.db
      → AllPlaced (compensate_claim env task station worker corr code w).1.db
  unfolding compensate_claim
  compensate_claim-AllPlaced task station worker corr code w h =
      elim (Option-cases (get_by_task_id task.task_id w.db)) [
        | inl missing ↦ ground arith
        | inr (t, g) ↦ elim (Option-cases (get_station (env.seen_task task t).station_id w.db)) [
          | inl missing ↦ ground arith
          | inr (s, f) ↦ ground (
            arith,
            placed_write w.db (released (env.seen_station station s) s) task.task_id t
                (unclaimed_row t) h g refl,
          )
        ]
      ]

  pub claim_finish-AllPlaced :
      (p : KdsTaskClaimRequest) (corr : Option String) (rows : KdsStationTask × Station) (w : World)
      → AllPlaced w.db
      → AllPlaced (claim_finish env p corr rows w).1.db
  unfolding claim_finish
  claim_finish-AllPlaced p corr (task, station) w h =
      elim (Option-cases (Client.start_task env.reply)) [
        | inl accepted ↦ ground arith
        | inr (code, failed) ↦ ground (
          arith,
          compensate_claim-AllPlaced task station p.station_worker_id corr code
              (record w { events = audit_event start_call code task station corr ∷ w.events }) h,
        )
      ]

  pub complete_finish-AllPlaced :
      (k id : ℕ) (p : KdsTaskCompleteRequest) (corr : Option String)
      (rows : KdsStationTask × Station) (w : World)
      → AllPlaced w.db
      → AllPlaced (complete_finish env k id p corr rows w).1.db
  unfolding complete_finish complete_commit
  complete_finish-AllPlaced k id p corr (task, station) w h =
      elim (Option-cases (get_station k w.db)) [
        | inl missing ↦ ground arith
        | inr (s, f) ↦ elim (Option-cases (get_by_task_id id w.db)) [
          | inl missing ↦ ground arith
          | inr (t, g) ↦ ground (
            arith,
            placed_write w.db (released (env.seen_station station s) s) id t
                (completed_row (or_else p.completed_at env.now) t) h g refl,
          )
        ]
      ]

  -- A delivery adds a new task to a station that is there, or writes no row.
  pub deliver_new_cases :
      IsAtomic env
      → (k : ℕ) (p : KdsTaskDeliveryRequest) (corr : Option String) (w : World)
      → ((deliver_new env k p corr w).1.db ≡ w.db)
        ⊎ ((s : Station) × (get_station k w.db ≡ some s)
            × ((deliver_new env k p corr w).1.db ≡ add_task (new_task env.new_id env.now k p) w.db))
  unfolding create_task
  deliver_new_cases a k p corr w = elim (Option-cases (get_station k w.db)) [
    | inl missing ↦ inl (ground (arith, a.no_wait_at_lock w))
    | inr (s, f) ↦ elim (Bool-cases (is_delivered s)) [
      | inl made ↦ inr (s, f, ground (arith, a.no_wait_at_lock w, a.no_wait_at_insert w))
      | inr refused ↦ inl (ground (arith, a.no_wait_at_lock w, a.no_wait_at_insert w))
    ]
  ]
    where
      is_delivered : Station → Bool
      is_delivered s =
          is_none (validate_delivery_station s p)
          && (ltb (visible_backlog_size k w.db) s.visible_backlog_limit
              && (is_none (get_by_idempotency_key p.idempotency_key w.db)
                  && is_none (get_by_task_id p.task_id w.db)))

  pub deliver_new-AllPlaced :
      IsAtomic env
      → (k : ℕ) (p : KdsTaskDeliveryRequest) (corr : Option String) (w : World) → AllPlaced w.db
      → AllPlaced (deliver_new env k p corr w).1.db
  unfolding get_station find
  deliver_new-AllPlaced a k p corr w h = elim (deliver_new_cases a k p corr w) [
    | inl same ↦ rw same h
    | inr (s, f, made) ↦ rw made (rw f refl, h)
  ]
