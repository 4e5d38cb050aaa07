-- ===== src/Kitchen/Kds/Held.antt =====
-- About the two transactions of `complete_task`, services/kitchen-service/app/services.py.
use dark_kitchen_simulator.Prelude.{
  ℕ, String, Option, some, none, true, ◌≡◌, ◌⊎◌, refl, inl, inr, arith, Option-cases, eq_iff,
}
use dark_kitchen_simulator.Prelude.Exec.{ok, err}
use dark_kitchen_simulator.Kitchen.Models.{
  Code, Station, KdsStationTask, KdsTaskCompleteRequest, Db, World, Error, domain,
  kds_task_not_found, station_not_found, claimed,
}
use dark_kitchen_simulator.Kitchen.Client
use dark_kitchen_simulator.Kitchen.Repositories.{get_station, get_by_task_id}
use dark_kitchen_simulator.Kitchen.Session.{Env, or_else}
use dark_kitchen_simulator.Kitchen.Rules.{
  released, completed_row, code_status, same_worker, validate_complete,
}
use dark_kitchen_simulator.Kitchen.Kds.{
  complete_begin, complete_commit, complete_finish, complete_task,
}
use dark_kitchen_simulator.Kitchen.Kds.Exclusion.{task_again}
use dark_kitchen_simulator.Kitchen.Kds.Granted.{IsRejection}

-- The task is claimed at the station by the worker.
pub record Held (k id : ℕ) (worker : String) (db : Db) (s : Station) (t : KdsStationTask)
    : Type 0 where
  pub station_found : get_station k db ≡ some s
  pub task_found : get_by_task_id id db ≡ some t
  pub on_station : t.station_id ≡ s.id
  pub is_claimed : t.status ≡ claimed
  pub by_worker : t.claimed_by ≡ some worker

same_worker_is :
    (holder : Option String) (worker : String)
    → same_worker holder worker ≡ true
    → holder ≡ some worker
same_worker_is none worker h = cc
same_worker_is (some v) worker h = ground (arith, eq_iff v worker)

validate_complete-none :
    (s : Station) (t : KdsStationTask) (worker : String)
    → validate_complete s t worker ≡ none
    → (t.station_id ≡ s.id) × (t.status ≡ claimed) × (t.claimed_by ≡ some worker)
unfolding validate_complete
validate_complete-none s t worker h = ground (arith, same_worker_is t.claimed_by worker)

validate_complete_held :
    (s : Station) (t : KdsStationTask) (worker : String)
    → t.station_id ≡ s.id
    → t.status ≡ claimed
    → t.claimed_by ≡ some worker
    → validate_complete s t worker ≡ none
unfolding validate_complete
validate_complete_held s t worker a b c = ground (arith, eq_iff worker worker)

-- A completion either found a claimed task, or is refused before the call.
pub complete_begin-cases :
    (k id : ℕ) (p : KdsTaskCompleteRequest) (w : World)
    → ((s : Station) × (t : KdsStationTask) × Held k id p.station_worker_id w.db s t)
      ⊎ ((e : Error) × IsRejection e × (complete_begin k id p w ≡ (err e, w)))
unfolding complete_begin
complete_begin-cases k id p w = elim (Option-cases (get_station k w.db)) [
  | inl missing ↦ inr (domain station_not_found 404, (_, inl refl), ground arith)
  | inr (s, f) ↦ elim (Option-cases (get_by_task_id id w.db)) [
    | inl missing ↦ inr (domain kds_task_not_found 404, (_, inl refl), ground arith)
    | inr (t, g) ↦ elim (Option-cases (validate_complete s t p.station_worker_id)) [
      | inl passes ↦
          let (a, b, c) = validate_complete-none s t p.station_worker_id passes in
          inl (
            s,
            t,
            record {
              station_found = f;
              task_found = g;
              on_station = a;
              is_claimed = b;
              by_worker = c;
            },
          )
      | inr (code, refused) ↦ inr (domain code 409, (_, inr refl), ground arith)
    ]
  ]
]

pub complete_begin-Held :
    (k id : ℕ) (p : KdsTaskCompleteRequest) (w : World) (s : Station) (t : KdsStationTask)
    → Held k id p.station_worker_id w.db s t
    → complete_begin k id p w ≡ (ok (t, s), w)
unfolding complete_begin
complete_begin-Held k id p w s t h =
    ground
      (arith, validate_complete_held s t p.station_worker_id h.on_station h.is_claimed h.by_worker)

module _ (env : Env) (k id : ℕ) (p : KdsTaskCompleteRequest) (corr : Option String) (w : World)
    (s : Station) (t : KdsStationTask)
    (held : Held k id p.station_worker_id (env.others_at_lock w).db s t) where
  pub complete_task-Held :
      complete_task env k id p corr w
      ≡ complete_finish env k id p corr (t, s) (env.others_at_call (env.others_at_lock w))
  unfolding complete_task
  complete_task-Held = ground (arith, complete_begin-Held k id p (env.others_at_lock w) s t held)

-- The second transaction writes the row that it found.
pub complete_finish-ok :
    (env : Env) (k id : ℕ) (p : KdsTaskCompleteRequest) (corr : Option String)
    (task : KdsStationTask) (station : Station) (w : World) (x : KdsStationTask)
    → (complete_finish env k id p corr (task, station) w).0 ≡ ok x
    → (Client.complete_task env.reply ≡ none)
      × (t : KdsStationTask) × (get_by_task_id id w.db ≡ some t)
      × (x ≡ completed_row (or_else p.completed_at env.now) t)
      × (get_by_task_id id (complete_finish env k id p corr (task, station) w).1.db ≡ some x)
unfolding complete_finish complete_commit
complete_finish-ok env k id p corr task station w x h =
    elim (Option-cases (Client.complete_task env.reply)) [
      | inr (code, failed) ↦ absurd (ground arith)
      | inl accepted ↦ elim (Option-cases (get_station k w.db)) [
        | inl missing ↦ absurd (ground arith)
        | inr (s, f) ↦ elim (Option-cases (get_by_task_id id w.db)) [
          | inl missing ↦ absurd (ground arith)
          | inr (t, g) ↦
              let seen = env.seen_station station s in
              let x' = completed_row (or_else p.completed_at env.now) t in
              elim (Option-cases
                (validate_complete seen (env.seen_task task t) p.station_worker_id)) [
                  | inr (code, refused) ↦ absurd (ground arith)
                  | inl passes ↦
                      let e : x ≡ x' = ground arith in
                      (
                        accepted,
                        t,
                        g,
                        e,
                        ground (arith, e, task_again k id w.db s (released seen s) t x' g refl),
                      )
                ]
        ]
      ]
    ]

-- What a SELECT shows of the row that the session has loaded is the row.
pub complete_finish-Held :
    (env : Env) (k id : ℕ) (p : KdsTaskCompleteRequest) (corr : Option String)
    (task : KdsStationTask) (station : Station) (w : World)
    → Held k id p.station_worker_id w.db station task
    → env.seen_station station station ≡ station
    → env.seen_task task task ≡ task
    → Client.complete_task env.reply ≡ none
    → (complete_finish env k id p corr (task, station) w).0
      ≡ ok (completed_row (or_else p.completed_at env.now) task)
unfolding complete_finish complete_commit
complete_finish-Held env k id p corr task station w h a b accepted = ground (
  arith,
  h.station_found,
  h.task_found,
  validate_complete_held station task p.station_worker_id h.on_station h.is_claimed h.by_worker,
)

-- A call that fails changes no row.
pub complete_finish_failed :
    (env : Env) (k id : ℕ) (p : KdsTaskCompleteRequest) (corr : Option String)
    (rows : KdsStationTask × Station) (w : World) (code : Code)
    → Client.complete_task env.reply ≡ some code
    → let (r, w') = complete_finish env k id p corr rows w in
      (r ≡ err (domain code (code_status code))) × (w'.db ≡ w.db)
unfolding complete_finish
complete_finish_failed env k id p corr (task, station) w code failed = (ground arith, ground arith)

pub complete_task_refused :
    (env : Env) (k id : ℕ) (p : KdsTaskCompleteRequest) (corr : Option String) (w : World)
    (e : Error)
    → complete_begin k id p (env.others_at_lock w) ≡ (err e, env.others_at_lock w)
    → complete_task env k id p corr w ≡ (err e, env.others_at_lock w)
unfolding complete_task
complete_task_refused env k id p corr w e refused = ground (arith, refused)
