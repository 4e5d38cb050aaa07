-- ===== src/Floor/Truthful.antt =====
-- About a turn that counts a task as completed: what services/kitchen-service and
-- services/fulfillment-service then show, whatever else happens to them.
use dark_kitchen_simulator.Prelude.{
  ℕ, suc, ◌≡◌, ◌≢◌, refl, sym, ◌∙◌, ap, inl, inr, String, Option, some, none, List, true, false,
  arith, Option-cases, Bool-cases,
}
use dark_kitchen_simulator.Prelude.Exec.{Result, ok, err, Result-cases}
use dark_kitchen_simulator.Fulfillment.Models as Orders
use dark_kitchen_simulator.Kitchen.Models.{
  KdsStationTask, KdsTaskStatus, Error, World, not_found, conflict, domain, integrity_error,
  data_error, station_not_found,
}
use dark_kitchen_simulator.Kitchen.Repositories.{get_by_task_id}
use dark_kitchen_simulator.Kitchen.Session.{Env}
use dark_kitchen_simulator.Kitchen.Kds.{complete_begin, complete_task}
use dark_kitchen_simulator.Kitchen.Routes.{
  validation_errors, error_response, handle, complete_answer,
}
use dark_kitchen_simulator.Kitchen.Routes.Schemas.{accepts_complete}
use dark_kitchen_simulator.Handoff.{answers}
use dark_kitchen_simulator.Handoff.Completion.{call_if_begun, complete_across}
use dark_kitchen_simulator.Handoff.Completion.Calls.{DoneAt}
use dark_kitchen_simulator.Handoff.Completion.Agreement.{complete_across_agrees}
use dark_kitchen_simulator.Simulator.Kds as Kds
use dark_kitchen_simulator.Simulator.Kds.{KdsTask, CompleteResponse, HttpReply}
use dark_kitchen_simulator.Simulator.Duration.{Floats}
use dark_kitchen_simulator.Simulator.Worker as Worker
use dark_kitchen_simulator.Floor.Views.{Texts, seen, completion_of}
use dark_kitchen_simulator.Floor.Turn.{
  Services, Surroundings, complete_request, complete_call, after_attempts, attempt_reply,
  claim_call, poll_call, selected, turn_at, turn,
}
use dark_kitchen_simulator.Floor.Calls.{route-err, complete_call_across}
use dark_kitchen_simulator.Floor.Counted.{Accepted-attempts_made, run_once-Counts}

-- The client takes no error response for a completion.
error_is_refused :
    (texts : Texts) (e : Error) (a : CompleteResponse)
    → Kds.complete_task (seen texts completion_of (error_response e)) ≢ ok a
unfolding Kds.complete_task Kds.checked error_response
error_is_refused texts (not_found c) a h = cc
error_is_refused texts (conflict c) a h = cc
error_is_refused texts (domain c status) a h = ground arith
error_is_refused texts integrity_error a h = cc
error_is_refused texts data_error a h = cc

module _ (texts : Texts) (station worker : String) (corr : Option String) (env : Env) (id : ℕ)
    (w : World) (f : Orders.World) where
  abbrev call : HttpReply CompleteResponse × Services
  call = complete_call texts station worker corr env id (w, f)

  abbrev across : ℕ → Result Error KdsStationTask × World × Orders.World
  across k =
      complete_across answers env k (texts.named (texts.text_of id)) (complete_request worker) corr
        (w, f)

  invalid_request :
      accepts_complete (complete_request worker) ≡ false
      → call.0 ≡ seen texts completion_of (record { status = 422; body = validation_errors })
  unfolding complete_call handle
  invalid_request refused = rw refused refl

  unparsed_station :
      accepts_complete (complete_request worker) ≡ true
      → texts.uuid station ≡ none
      → call.0 ≡ seen texts completion_of (error_response (domain station_not_found 404))
  unfolding complete_call handle
  unparsed_station valid malformed = rw (valid, malformed) refl

  raised :
      (k : ℕ) (e : Error)
      → accepts_complete (complete_request worker) ≡ true
      → texts.uuid station ≡ some k
      → (across k).0 ≡ err e
      → call.0 ≡ seen texts completion_of (error_response e)
  unfolding complete_call handle complete_across
  raised k e valid parsed h =
      let p = complete_request worker in
      let n = texts.named (texts.text_of id) in
      let called = call_if_begun answers env p (complete_begin k n p (env.others_at_lock w)).0 f in
      let r =
        route-err complete_answer (some k) (domain station_not_found 404)
          (λ j. complete_task (record env { reply = called.0 }) j n p corr) k w e refl h in
      rw (valid, parsed, r) refl

  -- An accepted completion is one that the kitchen service returned.
  pub complete_call_accepted :
      (a : CompleteResponse)
      → Kds.complete_task call.0 ≡ ok a
      → (k : ℕ) × (x : KdsStationTask) × (texts.uuid station ≡ some k)
        × ((across k).0 ≡ ok x)
        × (call.1 ≡ ((across k).1, (across k).2))
  complete_call_accepted a h = elim (Bool-cases (accepts_complete (complete_request worker))) [
    | inr refused ↦
        absurd (unfold Kds.complete_task Kds.checked in ground (arith, h, invalid_request refused))
    | inl valid ↦ elim (Option-cases (texts.uuid station)) [
      | inl malformed ↦ absurd (
          error_is_refused texts (domain station_not_found 404) a
            (ap Kds.complete_task (sym (unparsed_station valid malformed)) ∙ h))
      | inr (k, parsed) ↦ elim (Result-cases (across k).0) [
        | inr (e, r) ↦ absurd (
            error_is_refused texts e a (ap Kds.complete_task (sym (raised k e valid parsed r)) ∙ h))
        | inl (x, r) ↦
            let e =
              complete_call_across texts station worker corr k parsed env id
                (texts.named (texts.text_of id)) w f x refl valid r in
            (k, x, parsed, r, ap (λ c. c.1) e)
      ]
    ]
  ]

-- The task's row is completed in the kitchen service, and the fulfillment service has the task done at the
-- station.
pub record IsCompleted (texts : Texts) (station : String) (id : ℕ) (kitchen : World)
    (f : Orders.World) : Type 0 where
  pub k : ℕ
  pub row : KdsStationTask
  pub kds_task_id : ℕ
  pub parsed : texts.uuid station ≡ some k
  pub completed : row.status ≡ KdsTaskStatus.completed
  pub shown : get_by_task_id (texts.named (texts.text_of id)) kitchen.db ≡ some row
  pub done : DoneAt (texts.named (texts.text_of id)) k kds_task_id f

module _ (texts : Texts) (station worker : String) (corr : Option String) where
  accepted_call-IsCompleted :
      (env : Env) (id : ℕ) (s : Services) (a : CompleteResponse)
      → Kds.complete_task (complete_call texts station worker corr env id s).0 ≡ ok a
      → let left = (complete_call texts station worker corr env id s).1 in
        IsCompleted texts station id left.0 left.1
  accepted_call-IsCompleted env id (w, f) a h =
      let (k, x, parsed, returned, states) =
        complete_call_accepted texts station worker corr env id w f a h in
      let (s, t, held, completed, shown, done) =
        complete_across_agrees answers env k (texts.named (texts.text_of id))
          (complete_request worker) corr w f x returned in
      rw states (record {
        k = k;
        row = x;
        kds_task_id = t.id;
        parsed = parsed;
        completed = completed;
        shown = shown;
        done = done;
      })

  attempt-IsCompleted :
      (env : ℕ → Env) (id : ℕ) (s : Services) (n : ℕ) (a : CompleteResponse)
      → Kds.complete_task (attempt_reply texts station worker corr env id s (suc n)) ≡ ok a
      → let left = after_attempts texts station worker corr env id s (suc n) in
        IsCompleted texts station id left.0 left.1
  unfolding after_attempts
  attempt-IsCompleted env id s n a h =
      accepted_call-IsCompleted (env n) id (after_attempts texts station worker corr env id s n) a h

module _ (fs : Floats) (texts : Texts) (around : Surroundings) where
  turn_at_counts :
      (env : Worker.Env fs) (polled : HttpReply (List KdsTask)) (o : Option KdsTask)
      (w : Worker.World fs) (s : Services)
      → selected (Kds.get_station_tasks polled) ≡ o
      → let (w', (kitchen', f')) = turn_at fs texts around env polled o (w, s) in
        w'.state.completed_tasks_count ≢ w.state.completed_tasks_count
        → (task : KdsTask) × (selected (Kds.get_station_tasks polled) ≡ some task)
          × IsCompleted texts w.state.station_id task.task_id kitchen' f'
  turn_at_counts env polled none w s e counted =
      elim (run_once-Counts fs (record env { poll_reply = polled }) w) [
        | inl same ↦ absurd (counted same)
        | inr a ↦ absurd (ground (arith, a.is_selected, e))
      ]
  turn_at_counts env polled (some task) w s e counted =
      let station = w.state.station_id in
      let worker = w.state.worker_id in
      let corr = around.correlation_id in
      let claimed = claim_call texts station worker corr around.claim_env task.task_id s in
      let env' : Worker.Env fs = record env {
        poll_reply = polled;
        claim_reply = claimed.0;
        complete_reply =
            attempt_reply texts station worker corr around.complete_env task.task_id claimed.1;
      } in
      elim (run_once-Counts fs env' w) [
        | inl same ↦ absurd (counted same)
        | inr a ↦
            let made = Accepted-attempts_made fs env' w (Worker.run_once fs env' w) task a e in
            (
              task,
              e,
              rw made (
                  attempt-IsCompleted texts station worker corr around.complete_env task.task_id
                    claimed.1 a.before a.answer a.accepted),
            )
      ]

  -- A turn that counts a task as completed leaves the row of the task that it selected in its poll
  -- completed in the kitchen service's tables, and that task done in the fulfillment service, at the
  -- worker's station; whatever other requests commit meanwhile and whatever was answered before.
  pub turn_is_truthful :
      (env : Worker.Env fs) (w : Worker.World fs) (s : Services)
      → (turn fs texts around env (w, s)).0.state.completed_tasks_count
        ≢ w.state.completed_tasks_count
      → let (w', (kitchen', f')) = turn fs texts around env (w, s) in
        let polled =
          poll_call texts w.state.station_id w.state.worker_id around.correlation_id around.poll_env
            s in
        (task : KdsTask) × (selected (Kds.get_station_tasks polled) ≡ some task)
        × IsCompleted texts w.state.station_id task.task_id kitchen' f'
  unfolding turn
  turn_is_truthful env w s =
      let polled =
        poll_call texts w.state.station_id w.state.worker_id around.correlation_id around.poll_env
          s in
      turn_at_counts env polled (selected (Kds.get_station_tasks polled)) w s refl
