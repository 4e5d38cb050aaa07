-- ===== src/Kitchen/Kds/Claims.antt =====
-- About the busy slots of a station under `claim_task` and `complete_task` of
-- services/kitchen-service/app/services.py.
use dark_kitchen_simulator.Prelude.{
  ℕ, ◌∷◌, ◌≡◌, ◌≢◌, refl, sym, true, inl, inr, none, some, Option, arith, String, key_of_found,
  Option-cases, Bool-cases,
}
use dark_kitchen_simulator.Kitchen.Models.{
  Station, KdsStationTask, Db, World, Code, KdsTaskClaimRequest, KdsTaskCompleteRequest,
  audit_event, start_call,
}
use dark_kitchen_simulator.Kitchen.Client
use dark_kitchen_simulator.Kitchen.Repositories.{
  station_key, task_key, is_claimed, get_station, get_by_task_id,
}
use dark_kitchen_simulator.Kitchen.Session.{Env, or_else}
use dark_kitchen_simulator.Kitchen.Rules.{
  claimed_row, unclaimed_row, occupied, completed_row, validate_claim, validate_complete,
}
use dark_kitchen_simulator.Kitchen.Kds.{
  claim_begin, claim_finish, claim_task, compensate_claim, complete_begin, complete_commit,
  complete_finish, complete_task,
}
use dark_kitchen_simulator.Kitchen.Kds.Exclusion.{
  Free, row, claim_begin-Free, found_task_id, found_station_id, task_again, station_again,
}
use dark_kitchen_simulator.Kitchen.Kds.Compensated.{IsSteady}
use dark_kitchen_simulator.Kitchen.Kds.Granted.{claim_begin-cases, claim_task_refused}
use dark_kitchen_simulator.Kitchen.Kds.Held.{
  complete_begin-cases, complete_task-Held, complete_task_refused,
}
use dark_kitchen_simulator.Kitchen.Kds.Busy.{BusyIsClaimed, SlotWrite, occupy, release}

-- The rows that the session has loaded are those of the tables, as far as these rows are there.
pub record IsUnchanged (k id : ℕ) (rows : KdsStationTask × Station) (db : Db) : Type 0 where
  pub same_task : (t : KdsStationTask) → get_by_task_id id db ≡ some t → t ≡ rows.0
  pub same_station : (s : Station) → get_station k db ≡ some s → s ≡ rows.1

-- What other requests commit keeps the invariant, and during the call it leaves the station's row and the
-- task's row alone.
pub record IsApart (env : Env) (k id : ℕ) : Type 0 where
  pub at_lock : (w : World) → BusyIsClaimed w.db → BusyIsClaimed (env.others_at_lock w).db
  pub at_call : (w : World) → BusyIsClaimed w.db → BusyIsClaimed (env.others_at_call w).db
  pub same_station : (w : World) → get_station k (env.others_at_call w).db ≡ get_station k w.db
  pub same_task : (w : World) → get_by_task_id id (env.others_at_call w).db ≡ get_by_task_id id w.db

slot_write :
    (db : Db) (k id : ℕ) (s : Station) (t row : KdsStationTask)
    → get_station k db ≡ some s
    → get_by_task_id id db ≡ some t
    → row.task_id ≡ t.task_id
    → row.station_id ≡ t.station_id
    → t.station_id ≡ s.id
    → SlotWrite db s t row
unfolding get_station get_by_task_id
slot_write db k id s t row f g a b c = record {
  station_found = ground (arith, f, key_of_found station_key k db.stations s f);
  task_found = ground (arith, g, a, key_of_found task_key id db.tasks t g);
  same_station = b;
  on_station = c;
}

found_id : (k : ℕ) (db : Db) (s : Station) → get_station k db ≡ some s → s.id ≡ k
unfolding get_station
found_id k db s f = key_of_found station_key k db.stations s f

abbrev Inv : World → Type 0
Inv w = BusyIsClaimed w.db

pub complete_begin-keeps :
    (k id : ℕ) (p : KdsTaskCompleteRequest) (w : World)
    → BusyIsClaimed w.db
    → BusyIsClaimed (complete_begin k id p w).1.db
unfolding complete_begin
complete_begin-keeps k id p w inv = ground arith

complete_valid :
    (s : Station) (t : KdsStationTask) (worker : String)
    → validate_complete s t worker ≡ none
    → (t.station_id ≡ s.id) × (is_claimed t.status ≡ true)
unfolding validate_complete
complete_valid s t worker h = ground arith

module _ (env : Env) (k id : ℕ) (p : KdsTaskClaimRequest) (corr : Option String) (w : World) where
  claim_begin_at :
      (s : Station) (t : KdsStationTask)
      → get_station k w.db ≡ some s
      → get_by_task_id id w.db ≡ some t
      → BusyIsClaimed w.db
      → BusyIsClaimed (claim_begin env k id p corr w).1.db
  unfolding claim_begin validate_claim
  claim_begin_at s t f g inv = elim (Option-cases (validate_claim s t)) [
    | inl passes ↦ ground (
      arith,
      occupy w.db s t (claimed_row p (or_else p.claimed_at env.now) t)
          (slot_write w.db k id s t (claimed_row p (or_else p.claimed_at env.now) t) f g refl refl
            (ground arith))
          inv (ground arith) refl,
    )
    | inr (code, refused) ↦ ground arith
  ]

  pub claim_begin-keeps : BusyIsClaimed w.db → BusyIsClaimed (claim_begin env k id p corr w).1.db
  claim_begin-keeps inv = elim (Option-cases (get_station k w.db)) [
    | inl missing ↦ unfold claim_begin in ground arith
    | inr (s, f) ↦ elim (Option-cases (get_by_task_id id w.db)) [
      | inl missing ↦ unfold claim_begin in ground arith
      | inr (t, g) ↦ claim_begin_at s t f g inv
    ]
  ]

module _ (env : Env) (steady : IsSteady env) where
  pub shows_task :
      (k id : ℕ) (task t : KdsStationTask) (station : Station) (db : Db)
      → IsUnchanged k id (task, station) db
      → get_by_task_id id db ≡ some t
      → env.seen_task task t ≡ t
  shows_task k id task t station db h g = ground (arith, h.same_task t g, steady.same_task task)

  pub shows_station :
      (k id : ℕ) (task : KdsStationTask) (station s : Station) (db : Db)
      → IsUnchanged k id (task, station) db
      → get_station k db ≡ some s
      → env.seen_station station s ≡ s
  shows_station k id task station s db h f =
      ground (arith, h.same_station s f, steady.same_station station)

  module _ (task : KdsStationTask) (station : Station) (worker : String) (corr : Option String)
      (code : Code) (w : World) (inv : BusyIsClaimed w.db)
      (loaded : IsUnchanged task.station_id task.task_id (task, station) w.db) where
    compensate_at :
        (t : KdsStationTask) (s : Station)
        → get_by_task_id task.task_id w.db ≡ some t
        → get_station t.station_id w.db ≡ some s
        → BusyIsClaimed (compensate_claim env task station worker corr code w).1.db
    unfolding compensate_claim
    compensate_at t s g f =
        let same = loaded.same_task t g in
        let f' : get_station task.station_id w.db ≡ some s = rw (← same) f in
        let seen_t = shows_task task.station_id task.task_id task t station w.db loaded g in
        let seen_s = shows_station task.station_id task.task_id task station s w.db loaded f' in
        elim (Bool-cases (is_claimed t.status)) [
          | inl held ↦ ground (
            arith,
            seen_t,
            seen_s,
            release w.db s t (unclaimed_row t)
                (slot_write w.db t.station_id task.task_id s t (unclaimed_row t) f g refl refl
                  (sym (found_id t.station_id w.db s f)))
                inv held refl,
          )
          | inr free ↦ ground (arith, seen_t)
        ]

    compensate_claim-keeps :
        BusyIsClaimed (compensate_claim env task station worker corr code w).1.db
    compensate_claim-keeps = elim (Option-cases (get_by_task_id task.task_id w.db)) [
      | inl missing ↦ unfold compensate_claim in ground arith
      | inr (t, g) ↦
          let seen_t = shows_task task.station_id task.task_id task t station w.db loaded g in
          elim (Option-cases (get_station t.station_id w.db)) [
            | inl missing ↦ unfold compensate_claim in ground (arith, seen_t)
            | inr (s, f) ↦ compensate_at t s g f
          ]
    ]

  pub claim_finish-keeps :
      (p : KdsTaskClaimRequest) (corr : Option String) (task : KdsStationTask) (station : Station)
      (w : World)
      → (Client.start_task env.reply ≢ none
          → IsUnchanged task.station_id task.task_id (task, station) w.db)
      → BusyIsClaimed w.db
      → BusyIsClaimed (claim_finish env p corr (task, station) w).1.db
  unfolding claim_finish
  claim_finish-keeps p corr task station w loaded inv =
      elim (Option-cases (Client.start_task env.reply)) [
        | inl accepted ↦ ground arith
        | inr (code, failed) ↦ ground (
          arith,
          compensate_claim-keeps task station p.station_worker_id corr code
              (record w { events = audit_event start_call code task station corr ∷ w.events }) inv
              (loaded (λ h. ground (arith, failed, h))),
        )
      ]

  complete_release_at :
      (k id : ℕ) (p : KdsTaskCompleteRequest) (corr : Option String) (task : KdsStationTask)
      (station : Station) (w : World) (s : Station) (t : KdsStationTask)
      → IsUnchanged k id (task, station) w.db
      → get_station k w.db ≡ some s
      → get_by_task_id id w.db ≡ some t
      → BusyIsClaimed w.db
      → BusyIsClaimed (complete_commit env k id p corr (task, station) w).1.db
  unfolding complete_commit
  complete_release_at k id p corr task station w s t loaded f g inv =
      let row = completed_row (or_else p.completed_at env.now) t in
      let seen_t = shows_task k id task t station w.db loaded g in
      let seen_s = shows_station k id task station s w.db loaded f in
      elim (Option-cases (validate_complete s t p.station_worker_id)) [
        | inl passes ↦ ground (
          arith,
          seen_t,
          seen_s,
          complete_valid s t p.station_worker_id passes,
          release w.db s t row
              (slot_write w.db k id s t row f g refl refl
                (complete_valid s t p.station_worker_id passes).0)
              inv (complete_valid s t p.station_worker_id passes).1 refl,
        )
        | inr (code, refused) ↦ ground (arith, seen_t, seen_s)
      ]

  complete_commit-keeps :
      (k id : ℕ) (p : KdsTaskCompleteRequest) (corr : Option String)
      (rows : KdsStationTask × Station) (w : World)
      → IsUnchanged k id rows w.db
      → BusyIsClaimed w.db
      → BusyIsClaimed (complete_commit env k id p corr rows w).1.db
  complete_commit-keeps k id p corr (task, station) w loaded inv =
      elim (Option-cases (get_station k w.db)) [
        | inl missing ↦ unfold complete_commit in ground arith
        | inr (s, f) ↦ elim (Option-cases (get_by_task_id id w.db)) [
          | inl missing ↦ unfold complete_commit in ground arith
          | inr (t, g) ↦ complete_release_at k id p corr task station w s t loaded f g inv
        ]
      ]

  pub complete_finish-keeps :
      (k id : ℕ) (p : KdsTaskCompleteRequest) (corr : Option String)
      (rows : KdsStationTask × Station) (w : World)
      → (Client.complete_task env.reply ≡ none → IsUnchanged k id rows w.db)
      → BusyIsClaimed w.db
      → BusyIsClaimed (complete_finish env k id p corr rows w).1.db
  unfolding complete_finish
  complete_finish-keeps k id p corr (task, station) w loaded inv =
      elim (Option-cases (Client.complete_task env.reply)) [
        | inl accepted ↦
            ground
              (arith, complete_commit-keeps k id p corr (task, station) w (loaded accepted) inv)
        | inr (code, failed) ↦ ground arith
      ]

  module _ (k id : ℕ) (apart : IsApart env k id) (corr : Option String) (w : World)
      (inv : BusyIsClaimed w.db) where
    abbrev locked : World
    locked = env.others_at_lock w

    -- The rows of a claim that has begun are still there after the call.
    claimed_rows :
        (p : KdsTaskClaimRequest) (s : Station) (t : KdsStationTask)
        → Free k id locked.db s t
        → IsUnchanged t.station_id t.task_id
            (row env k id p corr locked s t, occupied s)
            (env.others_at_call (claim_begin env k id p corr locked).1).db
    claimed_rows p s t free =
        let w2 = (claim_begin env k id p corr locked).1 in
        let tables = (claim_begin-Free env k id p corr locked s t free).1 in
        let r = row env k id p corr locked s t in
        record {
          same_task = λ x g. ground (
            arith,
            found_task_id id locked.db t free.task_found,
            apart.same_task w2,
            tables,
            task_again k id locked.db s (occupied s) t r free.task_found refl,
          );
          same_station = λ x f. ground (
            arith,
            free.on_station,
            found_station_id k locked.db s free.station_found,
            apart.same_station w2,
            tables,
            station_again k id locked.db s (occupied s) t r free.station_found refl,
          );
        }

    -- If every station has as many busy slots as claimed tasks, so it has after a claim, whether it is
    -- granted, refused or compensated. What other requests commit while the claim waits is assumed to
    -- keep this and, during the call, to leave the rows of the claim's station and task alone; a second
    -- SELECT of a row that has not changed is assumed to show it.
    pub claim_task-BusyIsClaimed :
        (p : KdsTaskClaimRequest) → BusyIsClaimed (claim_task env k id p corr w).1.db
    unfolding claim_task
    claim_task-BusyIsClaimed p = elim (claim_begin-cases env k id p corr locked) [
      | inr (e, _, refused, same) ↦
          rw (claim_task_refused env k id p corr w e refused same).1 (apart.at_lock w inv)
      | inl (s, t, free) ↦
          let began = claim_begin env k id p corr locked in
          let kept = claim_begin-keeps env k id p corr locked (apart.at_lock w inv) in
          ground (
            arith,
            (claim_begin-Free env k id p corr locked s t free).0,
            claim_finish-keeps p corr (row env k id p corr locked s t) (occupied s)
                (env.others_at_call began.1) (λ _. claimed_rows p s t free)
                (apart.at_call began.1 kept),
          )
    ]

    -- If every station has as many busy slots as claimed tasks, so it has after a completion, accepted
    -- or refused. What other requests commit while it waits is assumed to keep this and, during the
    -- call, to leave the rows of the completion's station and task alone; a second SELECT of a row that
    -- has not changed is assumed to show it.
    pub complete_task-BusyIsClaimed :
        (p : KdsTaskCompleteRequest) → BusyIsClaimed (complete_task env k id p corr w).1.db
    complete_task-BusyIsClaimed p = elim (complete_begin-cases k id p locked) [
      | inr (e, _, refused) ↦
          rw (complete_task_refused env k id p corr w e refused) (apart.at_lock w inv)
      | inl (s, t, held) ↦ rw (complete_task-Held env k id p corr w s t held) (
          complete_finish-keeps k id p corr (t, s) (env.others_at_call locked)
            (λ _. record {
              same_task = λ x g. ground (arith, apart.same_task locked, held.task_found);
              same_station = λ x f. ground (arith, apart.same_station locked, held.station_found);
            })
            (apart.at_call locked (apart.at_lock w inv)))
    ]
