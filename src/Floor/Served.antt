-- ===== src/Floor/Served.antt =====
-- About a worker's turn at a task that waits for it, through services/station-simulator-service,
-- services/kitchen-service and services/fulfillment-service.
use dark_kitchen_simulator.Prelude.{ℕ, ◌≡◌, refl, String, Option, some, true, false, arith}
use dark_kitchen_simulator.Prelude.Exec.{ok}
use dark_kitchen_simulator.Prelude.Time.{to_utc, is_before}
use dark_kitchen_simulator.Fulfillment.Domain.{is_displayed}
use dark_kitchen_simulator.Fulfillment.Models as Orders
use dark_kitchen_simulator.Fulfillment.Transitions.{same_id, started_row}
use dark_kitchen_simulator.Fulfillment.Transitions.Effects.{Loaded, started_world}
use dark_kitchen_simulator.Fulfillment.Transitions.Replay.{started-Loaded}
use dark_kitchen_simulator.Kitchen.Models.{Station, KdsStationTask, World}
use dark_kitchen_simulator.Kitchen.Client
use dark_kitchen_simulator.Kitchen.Client.{response}
use dark_kitchen_simulator.Kitchen.Repositories.{get_by_task_id}
use dark_kitchen_simulator.Kitchen.Session.{Env}
use dark_kitchen_simulator.Kitchen.Rules.{occupied, claimed_row, completed_row}
use dark_kitchen_simulator.Kitchen.Kds.Exclusion.{Free, found_station_id}
use dark_kitchen_simulator.Kitchen.Kds.Granted.{claim_task_finishes}
use dark_kitchen_simulator.Kitchen.Kds.Held.{Held, complete_task-Held, complete_finish-Held}
use dark_kitchen_simulator.Kitchen.System.{IsAtomic}
use dark_kitchen_simulator.Handoff.{answers, start_body, claim_across}
use dark_kitchen_simulator.Handoff.Calls.{claim_across_begun}
use dark_kitchen_simulator.Handoff.Completion.{complete_body, complete_across}
use dark_kitchen_simulator.Handoff.Completion.Calls.{DoneAt, complete_across_begun}
use dark_kitchen_simulator.Handoff.Completion.Agreement.{complete_across_agrees}
use dark_kitchen_simulator.Floor.Turn.{claim_request, complete_request}
use dark_kitchen_simulator.Floor.Orders.{displayed_starts, started_completes}
use dark_kitchen_simulator.Floor.Calls.{claim_task-leaves_Held}

-- A task that waits on the station's display and in the fulfillment service, the same in both.
pub record Waits (k : ℕ) (w : World) (f : Orders.World) (s : Station) (t : KdsStationTask)
    (task : Orders.KitchenTask) (order : Orders.Order) : Type 0 where
  pub free : Free k t.task_id w.db s t
  pub loaded : Loaded t.task_id f task order
  pub is_shown : is_displayed task.status ≡ true
  pub at_station : same_id task.station_id k ≡ true
  pub by_kds_task : same_id task.kds_task_id t.id ≡ true

module _ (k : ℕ) (worker : String) (corr : Option String) (env : Env) (atomic : IsAtomic env)
    (w : World) (f : Orders.World) (s : Station) (t : KdsStationTask) (task : Orders.KitchenTask)
    (order : Orders.Order) (waits : Waits k w f s t task order) where
  unclaimed_under_lock : Free k t.task_id (env.others_at_lock w).db s t
  unclaimed_under_lock = rw (atomic.no_wait_at_lock w) waits.free

  -- The claim of the task starts it in the fulfillment service.
  claim_starts :
      let p = claim_request worker in
      let row = claimed_row p env.now t in
      let claimed = claim_across answers env k t.task_id p corr (w, f) in
      (claimed.0 ≡ ok row)
      × Held k t.task_id worker claimed.1.db (occupied s) row
      × (claimed.2 ≡ started_world (start_body env p row (occupied s)) task order f)
  unfolding Client.start_task Client.post_transition
  claim_starts =
      let p = claim_request worker in
      let b = start_body env p (claimed_row p env.now t) (occupied s) in
      let free = unclaimed_under_lock in
      let here = found_station_id k w.db s waits.free.station_found in
      let started =
        displayed_starts t.task_id f task order waits.loaded b waits.is_shown
          (rw here waits.at_station) waits.by_kds_task in
      let across = claim_across_begun answers env k t.task_id p corr w f s t free in
      let env' : Env = record env { reply = response 200 false } in
      let returns = claim_task_finishes env' k t.task_id p corr w s t free refl in
      let held =
        claim_task-leaves_Held env' k t.task_id p corr w s t free atomic.no_wait_at_call refl in
      (rw (across, started) returns, rw (across, started) held, rw (across, started) refl)

  -- What the completion meets: the started task.
  module _ (env' : Env) (atomic' : IsAtomic env')
      (in_order : is_before (to_utc env'.now) (to_utc env.now) ≡ false) where
    completion_finishes :
        let row = claimed_row (claim_request worker) env.now t in
        let b = start_body env (claim_request worker) row (occupied s) in
        (w' : World)
        → Held k t.task_id worker w'.db (occupied s) row
        → (complete_across answers env' k t.task_id
            (complete_request worker)
            corr
            (w', started_world b task order f)).0
          ≡ ok (completed_row env'.now row)
    unfolding Client.complete_task Client.post_transition
    completion_finishes w' held =
        let row = claimed_row (claim_request worker) env.now t in
        let b = start_body env (claim_request worker) row (occupied s) in
        let f' = started_world b task order f in
        let p = complete_request worker in
        let body = complete_body env' p row (occupied s) in
        let here = found_station_id k w.db s waits.free.station_found in
        let held' : Held k t.task_id worker (env'.others_at_lock w').db (occupied s) row =
          rw (atomic'.no_wait_at_lock w') held in
        let loaded = started-Loaded t.task_id f task order waits.loaded b in
        let done =
          started_completes t.task_id f' (started_row b task) _ loaded body (to_utc env.now) refl
            (rw here waits.at_station) waits.by_kds_task refl in_order in
        let across =
          complete_across_begun env' k t.task_id p corr w' (occupied s) row held' answers f' in
        let env2 : Env = record env' { reply = response 200 false } in
        let two = complete_task-Held env2 k t.task_id p corr w' (occupied s) row held' in
        let w2 = env'.others_at_lock w' in
        let returns =
          complete_finish-Held env2 k t.task_id p corr row (occupied s) w2 held'
            (atomic'.steady.same_station (occupied s)) (atomic'.steady.same_task row) refl in
        rw (across, done, two, atomic'.no_wait_at_call w2) returns

    -- The claim and then the completion of the task.
    pub claim_then_complete :
        let row = claimed_row (claim_request worker) env.now t in
        let x = completed_row env'.now row in
        let claimed = claim_across answers env k t.task_id (claim_request worker) corr (w, f) in
        let finished =
          complete_across answers env' k t.task_id
            (complete_request worker)
            corr
            (claimed.1, claimed.2) in
        (claimed.0 ≡ ok row)
        × (finished.0 ≡ ok x)
        × (get_by_task_id t.task_id finished.1.db ≡ some x)
        × DoneAt t.task_id k t.id finished.2
    claim_then_complete =
        let row = claimed_row (claim_request worker) env.now t in
        let x = completed_row env'.now row in
        let claimed = claim_across answers env k t.task_id (claim_request worker) corr (w, f) in
        let (granted, held, orders) = claim_starts in
        let finished =
          complete_across answers env' k t.task_id (complete_request worker) corr
            (claimed.1, claimed.2) in
        let returns : finished.0 ≡ ok x = rw orders (completion_finishes claimed.1 held) in
        let (s', t', held', done, found, at) =
          complete_across_agrees answers env' k t.task_id (complete_request worker) corr claimed.1
            claimed.2 x returns in
        let lock = atomic'.no_wait_at_lock claimed.1 in
        let e : t'.id ≡ t.id = ground (arith, held.task_found, held'.task_found, lock) in
        (granted, returns, found, rw (← e) at)
