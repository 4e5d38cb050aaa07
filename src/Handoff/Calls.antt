-- ===== src/Handoff/Calls.antt =====
-- About the call of services/kitchen-service/app/clients.py in the midst of a claim, and what the
-- fulfillment service, services/fulfillment-service/app/services.py, makes of it.
use dark_kitchen_simulator.Prelude.{
  ℕ, String, Option, some, none, true, ◌≡◌, ◌≢◌, refl, inl, inr, arith, Bool-cases, Option-cases,
}
use dark_kitchen_simulator.Prelude.Exec.{ok, err, Result-cases}
use dark_kitchen_simulator.Fulfillment.Domain as FulfillmentDomain
use dark_kitchen_simulator.Fulfillment.Domain.{OrderStatus, is_in_progress, status_code}
use dark_kitchen_simulator.Fulfillment.Models as Orders
use dark_kitchen_simulator.Fulfillment.Schemas.{StartTaskRequest, StartTaskResponse}
use dark_kitchen_simulator.Fulfillment.Repositories.{get_task, get_order}
use dark_kitchen_simulator.Fulfillment.Transitions as Service
use dark_kitchen_simulator.Fulfillment.Transitions.{same_id, started_row}
use dark_kitchen_simulator.Fulfillment.Transitions.Effects.{
  Loaded, start_again, start_fresh, start_ids,
}
use dark_kitchen_simulator.Fulfillment.Transitions.Replay.{started-Loaded}
use dark_kitchen_simulator.Kitchen.Models.{
  Code, Station, KdsStationTask, KdsTaskClaimRequest, World, Error,
}
use dark_kitchen_simulator.Kitchen.Client
use dark_kitchen_simulator.Kitchen.Client.{HttpReply, timeout, response}
use dark_kitchen_simulator.Kitchen.Session.{Env}
use dark_kitchen_simulator.Kitchen.Kds.{claim_begin, claim_task}
use dark_kitchen_simulator.Kitchen.Rules.{occupied}
use dark_kitchen_simulator.Kitchen.Kds.Exclusion.{Free, row, claim_begin-Free}
use dark_kitchen_simulator.Kitchen.Kds.Granted.{claim_task_refused}
use dark_kitchen_simulator.Handoff.{
  Network, answers, loses_reply, loses_request, start_body, reply_of, call_start, claim_across,
}

-- The fulfillment service cooks the task at this station, under this KDS task.
pub record CooksAt (id station_id kds_task_id : ℕ) (f : Orders.World) : Type 0 where
  pub task : Orders.KitchenTask
  pub order : Orders.Order
  pub loaded : Loaded id f task order
  pub cooking : is_in_progress task.status ≡ true
  pub at_station : same_id task.station_id station_id ≡ true
  pub by_kds_task : same_id task.kds_task_id kds_task_id ≡ true

start_loads :
    (id : ℕ) (b : StartTaskRequest) (f : Orders.World) (y : StartTaskResponse)
    → (Service.start_task id b f).0 ≡ ok y
    → (task : Orders.KitchenTask) × (order : Orders.Order) × Loaded id f task order
unfolding Service.start_task
start_loads id b f y h = elim (Option-cases (get_task id f.db)) [
  | inl missing ↦ absurd (ground arith)
  | inr (task, g) ↦ elim (Option-cases (get_order task.order_id f.db)) [
    | inl missing ↦ absurd (ground arith)
    | inr (order, o) ↦ (task, order, record { task_found = g; order_found = o })
  ]
]

-- An accepted start leaves the task cooking.
pub start-CooksAt :
    (id : ℕ) (b : StartTaskRequest) (f : Orders.World) (y : StartTaskResponse)
    → (Service.start_task id b f).0 ≡ ok y
    → CooksAt id b.station_id b.kds_task_id (Service.start_task id b f).1
start-CooksAt id b f y h =
    let (task, order, l) = start_loads id b f y h in
    let (a, c) = start_ids id f task order l b y h in
    elim (Bool-cases (is_in_progress task.status)) [
      | inl again ↦ rw (start_again id f task order l b again a c) (record {
        task = task;
        order = order;
        loaded = l;
        cooking = again;
        at_station = a;
        by_kds_task = c;
      })
      | inr fresh ↦ rw (start_fresh id f task order l b y fresh h) (record {
        task = started_row b task;
        order = record order { status = OrderStatus.cooking };
        loaded = started-Loaded id f task order l b;
        cooking = refl;
        at_station = a;
        by_kds_task = c;
      })
    ]

-- A cooking task is started again for the same station and KDS task.
pub CooksAt-start :
    (id : ℕ) (b : StartTaskRequest) (f : Orders.World)
    → CooksAt id b.station_id b.kds_task_id f
    → (y : StartTaskResponse) × (Service.start_task id b f ≡ (ok y, f))
CooksAt-start id b f c =
    (_, start_again id f c.task c.order c.loaded b c.cooking c.at_station c.by_kds_task)

refused_raises :
    (e : FulfillmentDomain.Error)
    → (code : Code) × (Client.start_task (reply_of {A = StartTaskResponse} (err e)) ≡ some code)
unfolding Client.start_task Client.post_transition
refused_raises e =
    elim (Option-cases (Client.start_task (reply_of {A = StartTaskResponse} (err e)))) [
      | inl accepted ↦ absurd (ground arith)
      | inr raises ↦ raises
    ]

-- What the kitchen service's client makes of the call.
abbrev pub client_code :
    Network → Env → KdsTaskClaimRequest → KdsStationTask × Station → Orders.World → Option Code
client_code net env p rows f = Client.start_task (call_start net env p rows f).0

-- The client accepts only if the fulfillment service accepted.
pub accepted_started :
    (net : Network) (env : Env) (p : KdsTaskClaimRequest) (task : KdsStationTask)
    (station : Station) (f : Orders.World)
    → client_code net env p (task, station) f ≡ none
    → CooksAt task.task_id station.id task.id (call_start net env p (task, station) f).1
unfolding Client.start_task Client.post_transition
accepted_started answers env p task station f h =
    let b = start_body env p task station in
    elim (Result-cases (Service.start_task task.task_id b f).0) [
      | inl (y, e) ↦ start-CooksAt task.task_id b f y e
      | inr (e, refused) ↦
          let (code, raises) = refused_raises e in absurd (ground (arith, refused, raises))
    ]
accepted_started loses_reply env p task station f h = cc
accepted_started loses_request env p task station f h = cc

-- The claim of a free task, as its call of the fulfillment service goes.
pub claim_across_begun :
    (net : Network) (env : Env) (k id : ℕ) (p : KdsTaskClaimRequest) (corr : Option String)
    (w : World) (f : Orders.World) (s : Station) (t : KdsStationTask)
    → Free k id (env.others_at_lock w).db s t
    → let r = row env k id p corr (env.others_at_lock w) s t in
      let called = call_start net env p (r, occupied s) f in
      claim_across net env k id p corr (w, f) ≡ (
        (claim_task (record env { reply = called.0 }) k id p corr w).0,
        (claim_task (record env { reply = called.0 }) k id p corr w).1,
        called.1,
      )
unfolding claim_across
claim_across_begun net env k id p corr w f s t free =
    let done = (claim_begin-Free env k id p corr (env.others_at_lock w) s t free).0 in rw done

pub claim_across_refused :
    (net : Network) (env : Env) (k id : ℕ) (p : KdsTaskClaimRequest) (corr : Option String)
    (w : World) (f : Orders.World) (e : Error)
    → (claim_begin env k id p corr (env.others_at_lock w)).0 ≡ err e
    → (claim_begin env k id p corr (env.others_at_lock w)).1.db ≡ (env.others_at_lock w).db
    → let (r, w', f') = claim_across net env k id p corr (w, f) in
      (r ≡ err e) × (w'.db ≡ (env.others_at_lock w).db) × (f' ≡ f)
unfolding claim_across
claim_across_refused net env k id p corr w f e refused same =
    rw refused (let (r, d) = claim_task_refused env k id p corr w e refused same in (r, d, refl))

start_refused :
    (id : ℕ) (b : StartTaskRequest) (f : Orders.World) (e : FulfillmentDomain.Error)
    → (Service.start_task id b f).0 ≡ err e
    → (Service.start_task id b f).1 ≡ f
unfolding Service.start_task
start_refused id b f e h = ground arith

-- What the client refuses did not happen, unless the answer was lost.
pub refused_unchanged :
    (net : Network) (env : Env) (p : KdsTaskClaimRequest) (task : KdsStationTask)
    (station : Station) (f : Orders.World) (code : Code)
    → net ≢ loses_reply
    → client_code net env p (task, station) f ≡ some code
    → (call_start net env p (task, station) f).1 ≡ f
unfolding Client.start_task Client.post_transition
refused_unchanged answers env p task station f code kept h =
    let b = start_body env p task station in
    elim (Result-cases (Service.start_task task.task_id b f).0) [
      | inl (y, e) ↦ absurd (ground (arith, e))
      | inr (e, refused) ↦ start_refused task.task_id b f e refused
    ]
refused_unchanged loses_reply env p task station f code kept h = absurd (kept refl)
refused_unchanged loses_request env p task station f code kept h = refl
