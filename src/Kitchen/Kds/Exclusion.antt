-- ===== src/Kitchen/Kds/Exclusion.antt =====
-- About the claims that `claim_task` and `_compensate_claim` of services/kitchen-service/app/services.py
-- grant and refuse.
use dark_kitchen_simulator.Prelude.{
  ℕ, ◌≡◌, ◌<◌, refl, inl, inr, none, some, Option, arith, String, find-save_self, save-save,
  save_found, key_of_found, Option-cases,
}
use dark_kitchen_simulator.Prelude.Exec.{ok, err, modify, ◌>>◌, >>=-eq-ok}
use dark_kitchen_simulator.Kitchen.Models.{
  Station, KdsStationTask, Db, World, domain, task_already_claimed, available, displayed, claimed,
  KdsTaskClaimRequest,
}
use dark_kitchen_simulator.Kitchen.Client
use dark_kitchen_simulator.Kitchen.Repositories.{
  station_key, task_key, get_station, get_by_task_id, save_station, save_task,
}
use dark_kitchen_simulator.Kitchen.Session.{Env, or_else}
use dark_kitchen_simulator.Kitchen.Rules.{occupied, claimed_row, validate_claim}
use dark_kitchen_simulator.Kitchen.Kds.{claim_begin, claim_finish, claim_task}

-- What an accepted claim found.
pub record Free (k id : ℕ) (db : Db) (s : Station) (t : KdsStationTask) : Type 0 where
  pub station_found : get_station k db ≡ some s
  pub task_found : get_by_task_id id db ≡ some t
  pub on_station : t.station_id ≡ s.id
  pub is_available : s.status ≡ available
  pub is_displayed : t.status ≡ displayed
  pub has_room : s.busy_slots < s.capacity

pub validate_claim-none :
    (s : Station) (t : KdsStationTask)
    → validate_claim s t ≡ none
    → (t.station_id ≡ s.id)
      × (s.status ≡ available)
      × (t.status ≡ displayed)
      × (s.busy_slots < s.capacity)
unfolding validate_claim
validate_claim-none s t h = ground arith

validate_claim_free :
    (s : Station) (t : KdsStationTask)
    → t.station_id ≡ s.id
    → s.status ≡ available
    → t.status ≡ displayed
    → s.busy_slots < s.capacity
    → validate_claim s t ≡ none
unfolding validate_claim
validate_claim_free s t a b c d = ground arith

module _ (env : Env) (k id : ℕ) (p : KdsTaskClaimRequest) (corr : Option String) (w : World)
    (s : Station) (t : KdsStationTask) where
  abbrev pub row : KdsStationTask
  row = claimed_row p (or_else p.claimed_at env.now) t

  -- A free task is claimed: its row and the station's slots are written.
  pub claim_begin-Free :
      Free k id w.db s t
      → ((claim_begin env k id p corr w).0 ≡ ok (row, occupied s))
        × ((claim_begin env k id p corr w).1.db ≡ save_station (occupied s) (save_task row w.db))
  unfolding claim_begin
  claim_begin-Free f =
      ground (arith, validate_claim_free s t f.on_station f.is_available f.is_displayed f.has_room)

  -- A claim is accepted only for a task that is displayed on the station, while the station is
  -- available and has a free slot.
  pub claim_begin_accepted :
      (x : KdsStationTask × Station)
      → get_station k w.db ≡ some s
      → get_by_task_id id w.db ≡ some t
      → (claim_begin env k id p corr w).0 ≡ ok x
      → Free k id w.db s t
  unfolding claim_begin
  claim_begin_accepted x f g h = elim (Option-cases (validate_claim s t)) [
    | inl passes ↦
        let (a, b, c, d) = validate_claim-none s t passes in
        record {
          station_found = f;
          task_found = g;
          on_station = a;
          is_available = b;
          is_displayed = c;
          has_room = d;
        }
    | inr (code, refused) ↦ absurd (ground arith)
  ]

pub found_task_id :
    (id : ℕ) (db : Db) (t : KdsStationTask) → get_by_task_id id db ≡ some t → t.task_id ≡ id
unfolding get_by_task_id
found_task_id id db t g = key_of_found task_key id db.tasks t g

pub found_station_id : (k : ℕ) (db : Db) (s : Station) → get_station k db ≡ some s → s.id ≡ k
unfolding get_station
found_station_id k db s f = key_of_found station_key k db.stations s f

-- What the tables show after a claim.
module _ (k id : ℕ) (db : Db) (s s' : Station) (t t' : KdsStationTask) where
  pub station_again :
      get_station k db ≡ some s
      → s'.id ≡ s.id
      → get_station k (save_station s' (save_task t' db)) ≡ some s'
  unfolding get_station save_station save_task
  station_again f e = ground (
    arith,
    key_of_found station_key k db.stations s f,
    find-save_self station_key k s' s db.stations,
  )

  pub task_again :
      get_by_task_id id db ≡ some t
      → t'.task_id ≡ t.task_id
      → get_by_task_id id (save_station s' (save_task t' db)) ≡ some t'
  unfolding get_by_task_id save_station save_task
  task_again g e =
      ground
        (arith, key_of_found task_key id db.tasks t g, find-save_self task_key id t' t db.tasks)

  -- Writing the old rows back restores the tables.
  pub written_back :
      get_station k db ≡ some s
      → get_by_task_id id db ≡ some t
      → s'.id ≡ s.id
      → t'.task_id ≡ t.task_id
      → save_station s (save_task t (save_station s' (save_task t' db))) ≡ db
  unfolding get_station get_by_task_id save_station save_task
  written_back f g a b = ground (
    arith,
    save-save station_key s s' db.stations,
    save_found station_key k s db.stations f,
    save-save task_key t t' db.tasks,
    save_found task_key id t db.tasks g,
  )

validate_claimed :
    (s : Station) (t : KdsStationTask)
    → t.station_id ≡ s.id
    → s.status ≡ available
    → t.status ≡ claimed
    → validate_claim s t ≡ some task_already_claimed
unfolding validate_claim
validate_claimed s t a b c = ground arith

second_refused :
    (env : Env) (k id : ℕ) (p : KdsTaskClaimRequest) (corr : Option String) (w : World)
    (s : Station) (t : KdsStationTask)
    → get_station k w.db ≡ some s
    → get_by_task_id id w.db ≡ some t
    → validate_claim s t ≡ some task_already_claimed
    → ((claim_begin env k id p corr w).0 ≡ err (domain task_already_claimed 409))
      × ((claim_begin env k id p corr w).1.db ≡ w.db)
unfolding claim_begin
second_refused env k id p corr w s t f g v = ground arith

-- From the state that the commit of a claim leaves, another claim of the task at its station is refused
-- as already claimed, whoever makes it, and changes no table.
claim_begin-claim_begin :
    (env env' : Env) (k id : ℕ) (p p' : KdsTaskClaimRequest) (corr corr' : Option String)
    (w : World) (x : KdsStationTask × Station)
    → (claim_begin env k id p corr w).0 ≡ ok x
    → let w' = (claim_begin env k id p corr w).1 in
      ((claim_begin env' k id p' corr' w').0 ≡ err (domain task_already_claimed 409))
      × ((claim_begin env' k id p' corr' w').1.db ≡ w'.db)
claim_begin-claim_begin env env' k id p p' corr corr' w x h =
    elim (Option-cases (get_station k w.db)) [
      | inl missing ↦ absurd (unfold claim_begin in ground arith)
      | inr (s, f) ↦ elim (Option-cases (get_by_task_id id w.db)) [
        | inl missing ↦ absurd (unfold claim_begin in ground arith)
        | inr (t, g) ↦
            let free = claim_begin_accepted env k id p corr w s t x f g h in
            let (done, tables) = claim_begin-Free env k id p corr w s t free in
            let w' = (claim_begin env k id p corr w).1 in
            let r = row env k id p corr w s t in
            second_refused env' k id p' corr' w' (occupied s) r
              (rw tables (station_again k id w.db s (occupied s) t r f refl))
              (rw tables (task_again k id w.db s (occupied s) t r g refl))
              (validate_claimed (occupied s) r free.on_station free.is_available refl)
      ]
    ]

-- A claim that returns began.
claim_began :
    (env : Env) (k id : ℕ) (p : KdsTaskClaimRequest) (corr : Option String) (w : World)
    (x : KdsStationTask)
    → (claim_task env k id p corr w).0 ≡ ok x
    → (rows : KdsStationTask × Station) × ((claim_begin env k id p corr (env.others_at_lock w)).0
        ≡ ok rows)
unfolding claim_task
claim_began env k id p corr w x h =
    let begun = claim_begin env k id p corr (env.others_at_lock w) in
    >>=-eq-ok begun.0 begun.1 (λ rows. modify env.others_at_call >> claim_finish env p corr rows) h

-- A claim that returns was of a free task: displayed on the station while that was available with a
-- slot to spare. It returns the row with the claim, and the fulfillment service accepted the start.
pub claim_task_granted :
    (env : Env) (k id : ℕ) (p : KdsTaskClaimRequest) (corr : Option String) (w : World)
    (x : KdsStationTask)
    → (claim_task env k id p corr w).0 ≡ ok x
    → (s : Station) × (t : KdsStationTask) × Free k id (env.others_at_lock w).db s t
      × (x ≡ claimed_row p (or_else p.claimed_at env.now) t)
      × (Client.start_task env.reply ≡ none)
unfolding claim_task
claim_task_granted env k id p corr w x h =
    let w1 = env.others_at_lock w in
    elim (Option-cases (get_station k w1.db)) [
      | inl missing ↦ absurd (unfold claim_begin in ground arith)
      | inr (s, f) ↦ elim (Option-cases (get_by_task_id id w1.db)) [
        | inl missing ↦ absurd (unfold claim_begin in ground arith)
        | inr (t, g) ↦
            let (rows, begun) = claim_began env k id p corr w x h in
            let free = claim_begin_accepted env k id p corr w1 s t rows f g begun in
            let done = (claim_begin-Free env k id p corr w1 s t free).0 in
            (
              s,
              t,
              free,
              unfold claim_finish in ground (arith, done),
              unfold claim_finish in ground (arith, done),
            )
      ]
    ]
