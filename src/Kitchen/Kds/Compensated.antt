-- ===== src/Kitchen/Kds/Compensated.antt =====
-- About `_compensate_claim` of services/kitchen-service/app/services.py: what a claim takes back when the
-- fulfillment service does not accept the start.
use dark_kitchen_simulator.Prelude.{
  ℕ, ◌∷◌, ◌≡◌, refl, none, some, Option, true, arith, String, str_eq, eq_iff,
}
use dark_kitchen_simulator.Prelude.Time.{Datetime}
use dark_kitchen_simulator.Prelude.Exec.{ok, err}
use dark_kitchen_simulator.Kitchen.Models.{
  Station, KdsStationTask, World, Code, domain, audit_event, start_call, displayed, claimed,
  KdsTaskClaimRequest,
}
use dark_kitchen_simulator.Kitchen.Client
use dark_kitchen_simulator.Kitchen.Repositories.{
  get_station, get_by_task_id, save_station, save_task,
}
use dark_kitchen_simulator.Kitchen.Session.{Env, or_else}
use dark_kitchen_simulator.Kitchen.Rules.{occupied, code_status, released, unclaimed_row}
use dark_kitchen_simulator.Kitchen.Kds.{claim_begin, claim_finish, claim_task, compensate_claim}
use dark_kitchen_simulator.Kitchen.Kds.Exclusion.{
  Free, row, claim_begin-Free, found_task_id, found_station_id, station_again, task_again,
  written_back,
}

-- The row of a claim, by its worker and time.
abbrev claimed_by_worker : String → Option Datetime → KdsStationTask → KdsStationTask
claimed_by_worker worker at t = record t {
  status = claimed;
  claimed_by = some worker;
  claimed_at = at;
}

-- A SELECT shows a row that has not changed as it is.
pub record IsSteady (env : Env) : Type 0 where
  pub same_station : (s : Station) → env.seen_station s s ≡ s
  pub same_task : (t : KdsStationTask) → env.seen_task t t ≡ t

-- A task that no claim holds carries no claim.
abbrev pub IsUnclaimed : KdsStationTask → Type 0
IsUnclaimed t = t.status ≡ displayed → (t.claimed_by ≡ none) × (t.claimed_at ≡ none)

same_worker_self : (worker : String) → str_eq worker worker ≡ true
same_worker_self worker = (eq_iff worker worker).1 refl

module _ (env : Env) (steady : IsSteady env) (worker : String) (corr : Option String)
    (code : Code) where
  compensate_writes :
      (w : World) (t : KdsStationTask) (s : Station) (at : Option Datetime)
      → get_by_task_id t.task_id w.db ≡ some (claimed_by_worker worker at t)
      → get_station t.station_id w.db ≡ some s
      → (compensate_claim env (claimed_by_worker worker at t) s worker corr code w).1.db
        ≡ save_station (released s s) (save_task (unclaimed_row t) w.db)
  unfolding compensate_claim
  compensate_writes w t s at g f = ground (
    arith,
    steady.same_task (claimed_by_worker worker at t),
    steady.same_station s,
    same_worker_self worker,
  )

  compensate_returns :
      (w : World) (t : KdsStationTask) (s : Station) (at : Option Datetime)
      → get_by_task_id t.task_id w.db ≡ some (claimed_by_worker worker at t)
      → get_station t.station_id w.db ≡ some s
      → (compensate_claim env (claimed_by_worker worker at t) s worker corr code w).0 ≡ ok tt
  unfolding compensate_claim
  compensate_returns w t s at g f = ground (arith, steady.same_task (claimed_by_worker worker at t))

  claim_finish_failed :
      (p : KdsTaskClaimRequest) (w : World) (t : KdsStationTask) (s : Station)
      (at : Option Datetime)
      → p.station_worker_id ≡ worker
      → Client.start_task env.reply ≡ some code
      → get_by_task_id t.task_id w.db ≡ some (claimed_by_worker worker at t)
      → get_station t.station_id w.db ≡ some s
      → ((claim_finish env p corr (claimed_by_worker worker at t, s) w).0
          ≡ err (domain code (code_status code)))
        × ((claim_finish env p corr (claimed_by_worker worker at t, s) w).1.db
            ≡ save_station (released s s) (save_task (unclaimed_row t) w.db))
  unfolding claim_finish
  claim_finish_failed p w t s at same failed g f =
      let audited = record w {
        events = audit_event start_call code (claimed_by_worker worker at t) s corr ∷ w.events;
      } in
      (
        ground (arith, compensate_returns audited t s at g f),
        ground (arith, compensate_returns audited t s at g f, compensate_writes audited t s at g f),
      )

release-occupy : (s : Station) → released (occupied s) (occupied s) ≡ s
unfolding released
release-occupy s = ground arith

unclaim :
    (t : KdsStationTask)
    → t.status ≡ displayed
    → t.claimed_by ≡ none
    → t.claimed_at ≡ none
    → unclaimed_row t ≡ t
unclaim t a b c = ground arith

-- If no other request commits during the call and a second SELECT of a row shows the row, a claim of
-- a free task that the fulfillment service does not accept raises the client's code, with 503 for an
-- unavailable service and else 409, and leaves the tables as they were under the lock. The task is
-- assumed to name no claim before.
pub claim_task_compensated :
    (env : Env) (k id : ℕ) (p : KdsTaskClaimRequest) (corr : Option String) (w : World)
    (s : Station) (t : KdsStationTask) (code : Code)
    → IsSteady env
    → ((v : World) → env.others_at_call v ≡ v)
    → Free k id (env.others_at_lock w).db s t
    → IsUnclaimed t
    → Client.start_task env.reply ≡ some code
    → ((claim_task env k id p corr w).0 ≡ err (domain code (code_status code)))
      × ((claim_task env k id p corr w).1.db ≡ (env.others_at_lock w).db)
unfolding claim_task
claim_task_compensated env k id p corr w s t code steady alone free unclaimed failed =
    let w1 = env.others_at_lock w in
    let w2 = (claim_begin env k id p corr w1).1 in
    let (done, tables) = claim_begin-Free env k id p corr w1 s t free in
    let r = row env k id p corr w1 s t in
    let g : get_by_task_id t.task_id w2.db ≡ some r = ground (
      arith,
      tables,
      found_task_id id w1.db t free.task_found,
      task_again k id w1.db s (occupied s) t r free.task_found refl,
    ) in
    let f : get_station t.station_id w2.db ≡ some (occupied s) = ground (
      arith,
      tables,
      found_station_id k w1.db s free.station_found,
      free.on_station,
      station_again k id w1.db s (occupied s) t r free.station_found refl,
    ) in
    let finish =
      claim_finish_failed env steady p.station_worker_id corr code p w2 t (occupied s)
        (some (or_else p.claimed_at env.now)) refl failed g f in
    let (by, at) = unclaimed free.is_displayed in
    let back =
      written_back k id w1.db s (occupied s) t r free.station_found free.task_found refl refl in
    (
      ground (arith, alone w2, done, finish),
      ground (
        arith,
        alone w2,
        done,
        tables,
        finish,
        release-occupy s,
        unclaim t free.is_displayed by at,
        back,
      ),
    )
