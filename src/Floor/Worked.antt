-- ===== src/Floor/Worked.antt =====
-- About a worker's turn at a task that waits for it: `run_once` of
-- services/station-simulator-service/app/simulator/worker.py, through the two services.
use dark_kitchen_simulator.Prelude.{
  ℕ, suc, ◌+◌, ◌≡◌, refl, ap, String, some, true, false, map, count, arith,
}
use dark_kitchen_simulator.Prelude.Exec.{ok}
use dark_kitchen_simulator.Prelude.Time.{to_utc, is_before}
use dark_kitchen_simulator.Fulfillment.Models as Orders
use dark_kitchen_simulator.Kitchen.Models.{Station, KdsStationTask, World, displayed}
use dark_kitchen_simulator.Kitchen.Repositories.{get_by_task_id}
use dark_kitchen_simulator.Kitchen.Rules.{claimed_row, completed_row}
use dark_kitchen_simulator.Kitchen.Listing.{task_page}
use dark_kitchen_simulator.Kitchen.System.{IsAtomic}
use dark_kitchen_simulator.Kitchen.Routes.{claim_answer, tasks_answer}
use dark_kitchen_simulator.Kitchen.Routes.Schemas.{
  kds_station_task_response, accepts_claim, accepts_complete, is_text,
}
use dark_kitchen_simulator.Handoff.{answers, claim_across}
use dark_kitchen_simulator.Handoff.Completion.{complete_across}
use dark_kitchen_simulator.Handoff.Completion.Calls.{DoneAt}
use dark_kitchen_simulator.Simulator.Kds as Kds
use dark_kitchen_simulator.Simulator.Duration.{Floats}
use dark_kitchen_simulator.Simulator.Counts.{duration_of}
use dark_kitchen_simulator.Simulator.Worker as Worker
use dark_kitchen_simulator.Simulator.Worker.{idle, select_displayed_task}
use dark_kitchen_simulator.Floor.Views.{Texts, seen, seen_task, tasks_of, claim_of}
use dark_kitchen_simulator.Floor.Turn.{
  Services, Surroundings, claim_request, complete_request, attempt_reply, attempts_made,
  after_attempts, turn,
}
use dark_kitchen_simulator.Floor.Finished.{finished_world, run_once_finishes}
use dark_kitchen_simulator.Floor.Calls.{poll_call_shows, claim_call_across, complete_call_across}
use dark_kitchen_simulator.Floor.Served.{Waits, claim_then_complete}

-- A turn's requests are well formed, nobody commits between their transactions, and the clock does not
-- go back between the claim and the first attempt to complete.
pub record IsCalm (texts : Texts) (around : Surroundings) (worker : String) : Type 0 where
  pub texts_agree : (n : ℕ) → texts.named (texts.text_of n) ≡ n
  pub worker_named : is_text 120 worker ≡ true
  pub claim_atomic : IsAtomic around.claim_env
  pub complete_atomic : IsAtomic (around.complete_env 0)
  pub in_order :
      is_before (to_utc (around.complete_env 0).now) (to_utc around.claim_env.now) ≡ false

module _ (fs : Floats) where
  -- What a turn finds when it selects the task `t`.
  pub record Selects (texts : Texts) (env : Worker.Env fs) (station : String) (k : ℕ) (w : World)
      (t : KdsStationTask) (d : fs.Float) : Type 0 where
    pub parsed : texts.uuid station ≡ some k
    pub chosen :
        select_displayed_task
          (map seen_task (map kds_station_task_response (task_page k displayed 100 0 w.db)))
        ≡ some (seen_task (kds_station_task_response t))
    pub lasts : duration_of fs env (seen_task (kds_station_task_response t)) ≡ ok d
    pub tries : (n : ℕ) × (env.complete_retry_attempts ≡ suc n)

  one_attempt :
      (env : Worker.Env fs) (w : Worker.World fs) (task : Kds.KdsTask) (d : fs.Float)
      → attempts_made fs env task.task_id w (finished_world fs env w task d) ≡ 1
  unfolding count
  one_attempt env w task d = ground arith

  -- If a worker's poll selects a task that waits, displayed in both services, at an available station
  -- with a free slot, and the simulated duration is defined and at least one attempt to complete is
  -- configured, then one turn leaves the worker idle with one more completed task, the kitchen's row
  -- completed, claimed by the worker, and the fulfillment service with the task done at the station and
  -- under the row's id. No answer is lost, nobody else commits meanwhile, and the clock does not go
  -- back.
  pub turn_finishes :
      (texts : Texts) (around : Surroundings) (env : Worker.Env fs) (w : Worker.World fs)
      (kitchen : World) (f : Orders.World) (k : ℕ) (s : Station) (t : KdsStationTask)
      (task : Orders.KitchenTask) (order : Orders.Order) (d : fs.Float)
      → IsCalm texts around w.state.worker_id
      → Waits k kitchen f s t task order
      → Selects texts env w.state.station_id k kitchen t d
      → let (w', (kitchen', f')) = turn fs texts around env (w, (kitchen, f)) in
        (w'.state.status ≡ idle)
        × (w'.state.completed_tasks_count ≡ w.state.completed_tasks_count + 1)
        × (get_by_task_id t.task_id kitchen'.db
            ≡ some (
                completed_row
                  (around.complete_env 0).now
                  (claimed_row (claim_request w.state.worker_id) around.claim_env.now t)))
        × DoneAt t.task_id k t.id f'
  unfolding turn after_attempts Kds.get_station_tasks Kds.claim_task Kds.complete_task Kds.checked
      accepts_claim accepts_complete
  turn_finishes texts around env w kitchen f k s t task order d calm waits selects =
      let station = w.state.station_id in
      let worker = w.state.worker_id in
      let corr = around.correlation_id in
      let c = around.claim_env in
      let e0 = around.complete_env 0 in
      let row = claimed_row (claim_request worker) c.now t in
      let x = completed_row e0.now row in
      let (granted, finished, found, at) =
        claim_then_complete k worker corr c calm.claim_atomic kitchen f s t task order waits e0
          calm.complete_atomic calm.in_order in
      let claimed = claim_across answers c k t.task_id (claim_request worker) corr (kitchen, f) in
      let polled =
        poll_call_shows texts station worker corr k selects.parsed around.poll_env kitchen f s
          waits.free.station_found in
      let claims =
        claim_call_across texts station worker corr k selects.parsed c t.task_id kitchen f row
          (calm.texts_agree t.task_id) calm.worker_named granted in
      let completes =
        complete_call_across texts station worker corr k selects.parsed e0 t.task_id t.task_id
          claimed.1 claimed.2 x (calm.texts_agree t.task_id) calm.worker_named finished in
      let shown = seen_task (kds_station_task_response t) in
      let s' : Services = (claimed.1, claimed.2) in
      let env' : Worker.Env fs = record env {
        poll_reply = seen texts tasks_of (tasks_answer (task_page k displayed 100 0 kitchen.db));
        claim_reply = seen texts claim_of (claim_answer row);
        complete_reply = attempt_reply texts station worker corr around.complete_env t.task_id s';
      } in
      let finish =
        complete_across answers e0 k t.task_id (complete_request worker) corr
          (claimed.1, claimed.2) in
      let attempted : after_attempts texts station worker corr around.complete_env t.task_id s' 1
          ≡ (finish.1, finish.2) =
        ap (λ c. c.1) completes in
      let (n, tries) = selects.tries in
      let w' = finished_world fs env' w shown d in
      let one =
        run_once_finishes fs env' w shown d _ _ _ n refl selects.chosen refl selects.lasts tries
          (ap (λ c. Kds.complete_task c.0) completes) in
      rw (polled, selects.chosen, claims, one, one_attempt env' w shown d, attempted)
        (refl, refl, found, at)
