-- ===== src/Handoff/Completion/Calls.antt =====
-- About the call of services/kitchen-service/app/clients.py in the midst of a completion, and what the
-- fulfillment service, services/fulfillment-service/app/services.py, makes of it.
use dark_kitchen_simulator.Prelude.{
  ℕ, String, Option, some, none, true, ◌≡◌, ◌≢◌, refl, inl, inr, arith, Bool-cases, Option-cases,
}
use dark_kitchen_simulator.Prelude.Time.{to_utc}
use dark_kitchen_simulator.Prelude.Exec.{ok, err, Result-cases}
use dark_kitchen_simulator.Fulfillment.Domain as FulfillmentDomain
use dark_kitchen_simulator.Fulfillment.Domain.{is_done, status_code}
use dark_kitchen_simulator.Fulfillment.Models as Orders
use dark_kitchen_simulator.Fulfillment.Schemas.{CompleteTaskRequest, CompleteTaskResponse}
use dark_kitchen_simulator.Fulfillment.Repositories.{
  get_task, get_order, save_task, all_order_tasks_done, completed_order_tasks_count,
}
use dark_kitchen_simulator.Fulfillment.Transitions as Service
use dark_kitchen_simulator.Fulfillment.Transitions.{same_id, completed_row}
use dark_kitchen_simulator.Fulfillment.Responses.{as_utc}
use dark_kitchen_simulator.Fulfillment.Transitions.Effects.{
  Loaded, complete_again, complete_fresh, complete_ids, complete_started,
}
use dark_kitchen_simulator.Fulfillment.Transitions.Replay.{completed-Loaded}
use dark_kitchen_simulator.Kitchen.Models.{
  Code, Station, KdsStationTask, KdsTaskCompleteRequest, World, Error,
}
use dark_kitchen_simulator.Kitchen.Client
use dark_kitchen_simulator.Kitchen.Session.{Env}
use dark_kitchen_simulator.Kitchen.Kds.{complete_begin, complete_task}
use dark_kitchen_simulator.Kitchen.Kds.Held.{Held, complete_begin-Held}
use dark_kitchen_simulator.Handoff.{Network, answers, loses_reply, loses_request, reply_of}
use dark_kitchen_simulator.Handoff.Completion.{complete_body, call_complete, complete_across}

-- The fulfillment service has the task done, at this station and under this KDS task.
pub record DoneAt (id station_id kds_task_id : ℕ) (f : Orders.World) : Type 0 where
  pub task : Orders.KitchenTask
  pub order : Orders.Order
  pub loaded : Loaded id f task order
  pub is_finished : is_done task.status ≡ true
  pub at_station : same_id task.station_id station_id ≡ true
  pub by_kds_task : same_id task.kds_task_id kds_task_id ≡ true

complete_loads :
    (id : ℕ) (b : CompleteTaskRequest) (f : Orders.World) (y : CompleteTaskResponse)
    → (Service.complete_task id b f).0 ≡ ok y
    → (task : Orders.KitchenTask) × (order : Orders.Order) × Loaded id f task order
unfolding Service.complete_task
complete_loads id b f y h = elim (Option-cases (get_task id f.db)) [
  | inl missing ↦ absurd (ground arith)
  | inr (task, g) ↦ elim (Option-cases (get_order task.order_id f.db)) [
    | inl missing ↦ absurd (ground arith)
    | inr (order, o) ↦ (task, order, record { task_found = g; order_found = o })
  ]
]

-- An accepted completion leaves the task done.
pub complete-DoneAt :
    (id : ℕ) (b : CompleteTaskRequest) (f : Orders.World) (y : CompleteTaskResponse)
    → (Service.complete_task id b f).0 ≡ ok y
    → DoneAt id b.station_id b.kds_task_id (Service.complete_task id b f).1
complete-DoneAt id b f y h =
    let (task, order, l) = complete_loads id b f y h in
    let (a, c) = complete_ids id f task order l b y h in
    elim (Bool-cases (is_done task.status)) [
      | inl again ↦ rw (complete_again id f task order l b again a c) (record {
        task = task;
        order = order;
        loaded = l;
        is_finished = again;
        at_station = a;
        by_kds_task = c;
      })
      | inr fresh ↦ elim (Option-cases (as_utc task.started_at)) [
        | inl never ↦ absurd (complete_started id f task order l b y fresh h never)
        | inr (s, e) ↦
            let row = completed_row s (to_utc b.completed_at) task in
            let db' = save_task row f.db in
            rw (complete_fresh id f task order l b y s e fresh h) (record {
              task = row;
              order = _;
              loaded =
                  completed-Loaded id f task order l b s (all_order_tasks_done task.order_id db')
                    (completed_order_tasks_count task.order_id db') e;
              is_finished = refl;
              at_station = a;
              by_kds_task = c;
            })
      ]
    ]

-- A task that is done is completed again for the same station and KDS task.
pub DoneAt-complete :
    (id : ℕ) (b : CompleteTaskRequest) (f : Orders.World)
    → DoneAt id b.station_id b.kds_task_id f
    → (y : CompleteTaskResponse) × (Service.complete_task id b f ≡ (ok y, f))
DoneAt-complete id b f d =
    (_, complete_again id f d.task d.order d.loaded b d.is_finished d.at_station d.by_kds_task)

refused_raises :
    (e : FulfillmentDomain.Error)
    → (code : Code) × (Client.complete_task (reply_of {A = CompleteTaskResponse} (err e))
        ≡ some code)
unfolding Client.complete_task Client.post_transition
refused_raises e =
    elim (Option-cases (Client.complete_task (reply_of {A = CompleteTaskResponse} (err e)))) [
      | inl accepted ↦ absurd (ground arith)
      | inr raises ↦ raises
    ]

-- What the kitchen service's client makes of the call.
abbrev pub client_code :
    Network → Env → KdsTaskCompleteRequest → KdsStationTask × Station → Orders.World → Option Code
client_code net env p rows f = Client.complete_task (call_complete net env p rows f).0

-- The client accepts only if the fulfillment service accepted.
pub accepted_done :
    (net : Network) (env : Env) (p : KdsTaskCompleteRequest) (task : KdsStationTask)
    (station : Station) (f : Orders.World)
    → client_code net env p (task, station) f ≡ none
    → DoneAt task.task_id station.id task.id (call_complete net env p (task, station) f).1
unfolding Client.complete_task Client.post_transition
accepted_done answers env p task station f h =
    let b = complete_body env p task station in
    elim (Result-cases (Service.complete_task task.task_id b f).0) [
      | inl (y, e) ↦ complete-DoneAt task.task_id b f y e
      | inr (e, refused) ↦
          let (code, raises) = refused_raises e in absurd (ground (arith, refused, raises))
    ]
accepted_done loses_reply env p task station f h = cc
accepted_done loses_request env p task station f h = cc

complete_refused :
    (id : ℕ) (b : CompleteTaskRequest) (f : Orders.World) (e : FulfillmentDomain.Error)
    → (Service.complete_task id b f).0 ≡ err e
    → (Service.complete_task id b f).1 ≡ f
unfolding Service.complete_task
complete_refused id b f e h = ground arith

-- What the client refuses did not happen, unless the answer was lost.
pub refused_unchanged :
    (net : Network) (env : Env) (p : KdsTaskCompleteRequest) (task : KdsStationTask)
    (station : Station) (f : Orders.World) (code : Code)
    → net ≢ loses_reply
    → client_code net env p (task, station) f ≡ some code
    → (call_complete net env p (task, station) f).1 ≡ f
unfolding Client.complete_task Client.post_transition
refused_unchanged answers env p task station f code kept h =
    let b = complete_body env p task station in
    elim (Result-cases (Service.complete_task task.task_id b f).0) [
      | inl (y, e) ↦ absurd (ground (arith, e))
      | inr (e, refused) ↦ complete_refused task.task_id b f e refused
    ]
refused_unchanged loses_reply env p task station f code kept h = absurd (kept refl)
refused_unchanged loses_request env p task station f code kept h = refl

-- The completion of a claimed task, as its call of the fulfillment service goes.
pub complete_across_begun :
    (env : Env) (k id : ℕ) (p : KdsTaskCompleteRequest) (corr : Option String) (w : World)
    (s : Station) (t : KdsStationTask)
    → Held k id p.station_worker_id (env.others_at_lock w).db s t
    → (net : Network) (f : Orders.World)
    → let called = call_complete net env p (t, s) f in
      complete_across net env k id p corr (w, f) ≡ (
        (complete_task (record env { reply = called.0 }) k id p corr w).0,
        (complete_task (record env { reply = called.0 }) k id p corr w).1,
        called.1,
      )
unfolding complete_across
complete_across_begun env k id p corr w s t held net f =
    let done = complete_begin-Held k id p (env.others_at_lock w) s t held in rw done

pub complete_across_refused :
    (net : Network) (env : Env) (k id : ℕ) (p : KdsTaskCompleteRequest) (corr : Option String)
    (w : World) (f : Orders.World) (e : Error)
    → complete_begin k id p (env.others_at_lock w) ≡ (err e, env.others_at_lock w)
    → complete_across net env k id p corr (w, f) ≡ (err e, env.others_at_lock w, f)
unfolding complete_across complete_task
complete_across_refused net env k id p corr w f e refused = ground (arith, refused)
