-- ===== src/Handoff/Completion/Agreement.antt =====
-- About what services/kitchen-service/app/services.py and services/fulfillment-service/app/services.py
-- agree on after a completion.
use dark_kitchen_simulator.Prelude.{
  ℕ, String, Option, some, false, ◌≡◌, ◌≢◌, refl, sym, inl, inr, arith, Option-cases,
}
use dark_kitchen_simulator.Prelude.Exec.{ok, err}
use dark_kitchen_simulator.Fulfillment.Models as Orders
use dark_kitchen_simulator.Fulfillment.Schemas.{CompleteTaskResponse}
use dark_kitchen_simulator.Fulfillment.Transitions as Service
use dark_kitchen_simulator.Kitchen.Models.{
  Station, KdsStationTask, KdsTaskCompleteRequest, KdsTaskStatus, World, Error, domain,
  fulfillment_service_unavailable,
}
use dark_kitchen_simulator.Kitchen.Client
use dark_kitchen_simulator.Kitchen.Client.{timeout, response}
use dark_kitchen_simulator.Kitchen.Repositories.{get_by_task_id}
use dark_kitchen_simulator.Kitchen.Session.{Env, or_else}
use dark_kitchen_simulator.Kitchen.Rules.{completed_row}
use dark_kitchen_simulator.Kitchen.Kds.{complete_finish, complete_task}
use dark_kitchen_simulator.Kitchen.Kds.Exclusion.{found_task_id, found_station_id}
use dark_kitchen_simulator.Kitchen.Kds.Compensated.{IsSteady}
use dark_kitchen_simulator.Handoff.{Network, answers, loses_reply}
use dark_kitchen_simulator.Handoff.Completion.{complete_body, call_complete, complete_across}
use dark_kitchen_simulator.Handoff.Completion.Calls.{
  DoneAt, complete-DoneAt, DoneAt-complete, accepted_done, client_code, refused_unchanged,
  complete_across_begun, complete_across_refused,
}
use dark_kitchen_simulator.Kitchen.Kds.Held.{
  Held, complete_begin-cases, complete_task-Held, complete_finish-ok, complete_finish-Held,
  complete_finish_failed,
}

-- A completion that returns was of a task that the worker had claimed at the station, as the tables
-- showed it under the lock. The kitchen service then shows the returned row, completed, and the
-- fulfillment service has the task done at the station and under the claimed KDS task's id, whatever
-- becomes of the call and whatever other requests commit meanwhile.
pub complete_across_agrees :
    (net : Network) (env : Env) (k id : ℕ) (p : KdsTaskCompleteRequest) (corr : Option String)
    (w : World) (f : Orders.World) (x : KdsStationTask)
    → (complete_across net env k id p corr (w, f)).0 ≡ ok x
    → let (r, w', f') = complete_across net env k id p corr (w, f) in
      (s : Station) × (t : KdsStationTask) × Held k id p.station_worker_id
        (env.others_at_lock w).db
        s
        t
      × (x.status ≡ KdsTaskStatus.completed)
      × (get_by_task_id id w'.db ≡ some x)
      × DoneAt id k t.id f'
complete_across_agrees net env k id p corr w f x h =
    let w1 = env.others_at_lock w in
    elim (complete_begin-cases k id p w1) [
      | inr (e, kind, refused) ↦
          let no = complete_across_refused net env k id p corr w f e refused in
          absurd (ground arith)
      | inl (s, t, held) ↦
          let across = complete_across_begun env k id p corr w s t held net f in
          let env' : Env = record env { reply = (call_complete net env p (t, s) f).0 } in
          let task = complete_task-Held env' k id p corr w s t held in
          let finish = complete_finish env' k id p corr (t, s) (env.others_at_call w1) in
          let returned : finish.0 ≡ ok x = cc in
          let (accepted, row, found, is_row, shown) =
            complete_finish-ok env' k id p corr t s (env.others_at_call w1) x returned in
          (
            s,
            t,
            held,
            rw is_row refl,
            rw (across, task) shown,
            rw
                (
                  across,
                  sym (found_task_id id w1.db t held.task_found),
                  sym (found_station_id k w1.db s held.station_found),
                )
                (accepted_done net env p t s f accepted),
          )
    ]

-- If the answer of the call is not lost, no other request commits during the call and a second SELECT
-- of a row shows the row, then a completion that raises leaves the kitchen service's tables as they
-- were under the lock and the fulfillment service as it was.
pub complete_across_atomic :
    (net : Network) (env : Env) (k id : ℕ) (p : KdsTaskCompleteRequest) (corr : Option String)
    (w : World) (f : Orders.World) (e : Error)
    → net ≢ loses_reply
    → IsSteady env
    → ((v : World) → env.others_at_call v ≡ v)
    → (complete_across net env k id p corr (w, f)).0 ≡ err e
    → ((complete_across net env k id p corr (w, f)).1.db ≡ (env.others_at_lock w).db)
      × ((complete_across net env k id p corr (w, f)).2 ≡ f)
complete_across_atomic net env k id p corr w f e kept steady alone h =
    let w1 = env.others_at_lock w in
    elim (complete_begin-cases k id p w1) [
      | inr (e', kind, refused) ↦
          let no = complete_across_refused net env k id p corr w f e' refused in (rw no, rw no)
      | inl (s, t, held) ↦
          let across = complete_across_begun env k id p corr w s t held net f in
          let env' : Env = record env { reply = (call_complete net env p (t, s) f).0 } in
          let task = complete_task-Held env' k id p corr w s t held in
          elim (Option-cases (client_code net env p (t, s) f)) [
            | inl accepted ↦
                let done =
                  complete_finish-Held env' k id p corr t s w1 held (steady.same_station s)
                    (steady.same_task t) accepted in
                absurd (ground (arith, across, task, alone w1, done))
            | inr (code, failed) ↦
                let same = (complete_finish_failed env' k id p corr (t, s) w1 code failed).1 in
                (
                  rw (across, task, alone w1) same,
                  rw across (refused_unchanged net env p t s f code kept failed),
                )
          ]
    ]

-- If the fulfillment service accepts the completion of a claimed task but its answer is lost, the
-- completion raises 503 and the task stays claimed, with the kitchen service's tables as under the lock,
-- while the fulfillment service has it done; a later completion by the same worker whose answer is not
-- lost then returns the completed row and does not change the fulfillment service. It is assumed that no
-- other request commits meanwhile and that a second SELECT of a row shows the row.
pub complete_across_recovers :
    (env env' : Env) (k id : ℕ) (p p' : KdsTaskCompleteRequest) (corr corr' : Option String)
    (w : World) (f : Orders.World) (s : Station) (t : KdsStationTask) (y : CompleteTaskResponse)
    → IsSteady env'
    → ((v : World) → env.others_at_call v ≡ v)
    → ((v : World) → env'.others_at_lock v ≡ v)
    → ((v : World) → env'.others_at_call v ≡ v)
    → p'.station_worker_id ≡ p.station_worker_id
    → Held k id p.station_worker_id (env.others_at_lock w).db s t
    → (Service.complete_task t.task_id (complete_body env p t s) f).0 ≡ ok y
    → let (r, w', f') = complete_across loses_reply env k id p corr (w, f) in
      let (r', w'', f'') = complete_across answers env' k id p' corr' (w', f') in
      (r ≡ err (domain fulfillment_service_unavailable 503))
      × (w'.db ≡ (env.others_at_lock w).db)
      × DoneAt t.task_id s.id t.id f'
      × (r' ≡ ok (completed_row (or_else p'.completed_at env'.now) t))
      × (f'' ≡ f')
unfolding Client.complete_task Client.post_transition
complete_across_recovers env env' k id p p' corr corr' w f s t y steady alone no_wait alone' same
      held h =
    let w1 = env.others_at_lock w in
    let first = complete_across_begun env k id p corr w s t held loses_reply f in
    let lost : Env = record env { reply = timeout } in
    let task = complete_task-Held lost k id p corr w s t held in
    let (raised, back) =
      complete_finish_failed lost k id p corr (t, s) w1 fulfillment_service_unavailable refl in
    let f' = (Service.complete_task t.task_id (complete_body env p t s) f).1 in
    let done = complete-DoneAt t.task_id (complete_body env p t s) f y h in
    let w' = (complete_task lost k id p corr w).1 in
    let back' : w'.db ≡ w1.db = rw (task, alone w1) back in
    let held' : Held k id p'.station_worker_id (env'.others_at_lock w').db s t =
      rw (no_wait w', back', same) held in
    let second = complete_across_begun env' k id p' corr' w' s t held' answers f' in
    let (y', again) = DoneAt-complete t.task_id (complete_body env' p' t s) f' done in
    let env2 : Env = record env' { reply = response 200 false } in
    let task2 = complete_task-Held env2 k id p' corr' w' s t held' in
    let returns =
      complete_finish-Held env2 k id p' corr' t s (env'.others_at_lock w') held'
        (steady.same_station s) (steady.same_task t) refl in
    (
      rw (first, task, alone w1) raised,
      rw first back',
      rw first done,
      rw (first, second, again, task2, alone' (env'.others_at_lock w')) returns,
      rw (first, second, again),
    )
