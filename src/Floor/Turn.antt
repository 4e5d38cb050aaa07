-- ===== src/Floor/Turn.antt =====
-- `run_once` of services/station-simulator-service/app/simulator/worker.py on the states of the kitchen
-- and the fulfillment service: services/kitchen-service/app/api/routes.py answers the poll, the claim
-- and each attempt to complete, in the state that the request before has left.
use dark_kitchen_simulator.Prelude.{
  ℕ, zero, suc, ◌-◌, String, Option, none, some, List, count, if◌then◌else◌,
}
use dark_kitchen_simulator.Prelude.Exec.{Result, ok, err}
use dark_kitchen_simulator.Fulfillment.Models as Orders
use dark_kitchen_simulator.Kitchen.Models.{
  KdsTaskClaimRequest, KdsTaskCompleteRequest, World, displayed,
}
use dark_kitchen_simulator.Kitchen.Client
use dark_kitchen_simulator.Kitchen.Session.{Env}
use dark_kitchen_simulator.Kitchen.Kds.{claim_begin, complete_begin}
use dark_kitchen_simulator.Kitchen.Routes.{
  list_kds_station_tasks, claim_kds_task, complete_kds_task, handle,
}
use dark_kitchen_simulator.Kitchen.Routes.Schemas.{accepts_claim, accepts_complete}
use dark_kitchen_simulator.Handoff.{answers, call_of}
use dark_kitchen_simulator.Handoff.Completion.{call_if_begun}
use dark_kitchen_simulator.Simulator.Kds.{
  KdsTask, KdsError, ClaimResponse, CompleteResponse, HttpReply, timeout, get_station_tasks,
}
use dark_kitchen_simulator.Simulator.Duration.{Floats}
use dark_kitchen_simulator.Simulator.Worker as Worker
use dark_kitchen_simulator.Simulator.Worker.{select_displayed_task, run_once}
use dark_kitchen_simulator.Simulator.Retries.{is_completes}
use dark_kitchen_simulator.Floor.Views.{Texts, seen, tasks_of, claim_of, completion_of}

-- The states of the kitchen service and of the fulfillment service.
abbrev pub Services : Type 0
Services = World × Orders.World

abbrev pub claim_request : String → KdsTaskClaimRequest
claim_request worker = record { station_worker_id = worker; claimed_at = none }

abbrev pub complete_request : String → KdsTaskCompleteRequest
complete_request worker = record { station_worker_id = worker; completed_at = none }

module _ (texts : Texts) (station worker : String) (corr : Option String) where
  -- The requests that the worker's client sends, with the call of the fulfillment service that each
  -- makes of it, if it gets that far.
  unfoldable pub poll_call : Env → Services → HttpReply (List KdsTask)
  poll_call env (w, f) =
      let (r, w') =
        handle texts.uuid texts.named env corr (list_kds_station_tasks station displayed 100 0) w in
      seen texts tasks_of r

  abbrev pub started : Env → ℕ → Option ℕ → Services → Client.HttpReply × Orders.World
  started env id none (w, f) = (env.reply, f)
  started env id (some k) (w, f) =
      call_of answers env (claim_request worker)
        (claim_begin env k id (claim_request worker) corr (env.others_at_lock w)).0 f

  unfoldable pub claim_call : Env → ℕ → Services → HttpReply ClaimResponse × Services
  claim_call env task_id (w, f) =
      let text = texts.text_of task_id in
      let (reply, f') =
        if accepts_claim (claim_request worker)
        then started env (texts.named text) (texts.uuid station) (w, f)
        else (env.reply, f) in
      let (r, w') =
        handle texts.uuid texts.named (record env { reply = reply }) corr
          (claim_kds_task station text (claim_request worker)) w in
      (seen texts claim_of r, (w', f'))

  abbrev pub finished : Env → ℕ → Option ℕ → Services → Client.HttpReply × Orders.World
  finished env id none (w, f) = (env.reply, f)
  finished env id (some k) (w, f) =
      call_if_begun answers env (complete_request worker)
        (complete_begin k id (complete_request worker) (env.others_at_lock w)).0 f

  unfoldable pub complete_call : Env → ℕ → Services → HttpReply CompleteResponse × Services
  complete_call env task_id (w, f) =
      let text = texts.text_of task_id in
      let (reply, f') =
        if accepts_complete (complete_request worker)
        then finished env (texts.named text) (texts.uuid station) (w, f)
        else (env.reply, f) in
      let (r, w') =
        handle texts.uuid texts.named (record env { reply = reply }) corr
          (complete_kds_task station text (complete_request worker)) w in
      (seen texts completion_of r, (w', f'))

  -- The services after so many attempts to complete the task; the attempts are numbered from 1, and
  -- what surrounds each is that of the number before.
  unfoldable pub after_attempts : (ℕ → Env) → ℕ → Services → ℕ → Services
  after_attempts env task_id s zero = s
  after_attempts env task_id s (suc n) =
      (complete_call (env n) task_id (after_attempts env task_id s n)).1

  abbrev pub attempt_reply : (ℕ → Env) → ℕ → Services → ℕ → HttpReply CompleteResponse
  attempt_reply env task_id s zero = timeout
  attempt_reply env task_id s (suc n) =
      (complete_call (env n) task_id (after_attempts env task_id s n)).0

-- What surrounds the requests of one turn.
pub record Surroundings : Type 0 where
  pub correlation_id : Option String
  pub poll_env : Env
  pub claim_env : Env
  pub complete_env : ℕ → Env

-- The task that a turn selects.
abbrev pub selected : Result KdsError (List KdsTask) → Option KdsTask
selected (ok tasks) = select_displayed_task tasks
selected (err e) = none

module _ (fs : Floats) where
  -- The attempts to complete the task that a turn has made.
  abbrev pub attempts_made : Worker.Env fs → ℕ → Worker.World fs → Worker.World fs → ℕ
  attempts_made env task_id before after =
      count (is_completes fs env task_id) after.actions
      - count (is_completes fs env task_id) before.actions

  abbrev pub turn_at :
      Texts
      → Surroundings
      → Worker.Env fs
      → HttpReply (List KdsTask)
      → Option KdsTask
      → Worker.World fs × Services
      → Worker.World fs × Services
  turn_at texts around env polled none (w, s) =
      (run_once fs (record env { poll_reply = polled }) w, s)
  turn_at texts around env polled (some task) (w, s) =
      let station = w.state.station_id in
      let worker = w.state.worker_id in
      let corr = around.correlation_id in
      let (claim_reply, s') =
        claim_call texts station worker corr around.claim_env task.task_id s in
      let env' : Worker.Env fs = record env {
        poll_reply = polled;
        claim_reply = claim_reply;
        complete_reply =
            attempt_reply texts station worker corr around.complete_env task.task_id s';
      } in
      let w' = run_once fs env' w in
      (
        w',
        after_attempts texts station worker corr around.complete_env task.task_id s'
            (attempts_made env' task.task_id w w'),
      )

  unfoldable pub turn :
      Texts → Surroundings → Worker.Env fs → Worker.World fs × Services → Worker.World fs × Services
  turn texts around env (w, s) =
      let polled =
        poll_call texts w.state.station_id w.state.worker_id around.correlation_id around.poll_env
          s in
      turn_at texts around env polled (selected (get_station_tasks polled)) (w, s)
