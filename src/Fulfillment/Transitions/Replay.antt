-- ===== src/Fulfillment/Transitions/Replay.antt =====
-- About a request that is sent again to class TaskTransitionService,
-- services/fulfillment-service/app/services.py.
use dark_kitchen_simulator.Prelude.{
  ℕ, ◌≡◌, ◌≢◌, refl, List, Bool, true, false, Option, if◌then◌else◌, Bool-cases, inl, inr, none,
  some, arith, find, save, find-save_self, key_of_found, Option-cases,
}
use dark_kitchen_simulator.Prelude.Exec.{Result, ok, err, pure, ◌>>=◌}
use dark_kitchen_simulator.Prelude.Time.{Datetime, to_utc}
use dark_kitchen_simulator.Fulfillment.Domain.{
  OrderStatus, Error, is_displayed, is_in_progress, is_done, is_failed,
}
use dark_kitchen_simulator.Fulfillment.Models.{Order, KitchenTask, World}
use dark_kitchen_simulator.Fulfillment.Schemas.{
  MarkDisplayedResponse, StartTaskResponse, CompleteTaskResponse, TaskSnapshotResponse,
  MarkDisplayedRequest, StartTaskRequest, CompleteTaskRequest, DispatchFailedRequest,
}
use dark_kitchen_simulator.Fulfillment.Repositories.{
  get_task, get_order, save_task, save_order, all_order_tasks_done, completed_order_tasks_count,
}
use dark_kitchen_simulator.Fulfillment.Session.{Handler}
use dark_kitchen_simulator.Fulfillment.Transitions.{
  same_id, mark_displayed, start_task, complete_task, dispatch_failed, displayed_row, started_row,
  completed_row, failed_row,
}
use dark_kitchen_simulator.Fulfillment.Responses.{as_utc}
use dark_kitchen_simulator.Fulfillment.Transitions.Requests.{
  Request, Response, displayed_reply, start_reply, complete_reply, failed_reply, handle,
  mark_displayed_request, start_request, complete_request, dispatch_failed_request,
}
use dark_kitchen_simulator.Fulfillment.Transitions.Writes.{
  task_key, task_id_of, row_of, row_of_keeps,
}
use dark_kitchen_simulator.Fulfillment.Transitions.Effects.{
  Loaded, displayed_world, started_world, completed_world, failed_world, mark_displayed_again,
  start_again, complete_again, dispatch_failed_again, mark_displayed_fresh, start_fresh,
  complete_fresh, dispatch_failed_fresh, displayed_ids, start_ids, complete_ids, complete_started,
}

abbrev pub order_key : Order → ℕ
order_key o = o.id

replay_missing :
    (r : Request) (w : World) (x : Response)
    → get_task (task_id_of r) w.db ≡ none
    → (handle r w).0 ≡ ok x
    → handle r (handle r w).1 ≡ handle r w
unfolding handle mark_displayed start_task complete_task dispatch_failed
replay_missing (mark_displayed_request id p) w x m h = ground arith
replay_missing (start_request id p) w x m h = ground arith
replay_missing (complete_request id p) w x m h = ground arith
replay_missing (dispatch_failed_request id p) w x m h = ground arith

module _ (r : Request) (w : World) (task : KitchenTask)
    (found : get_task (task_id_of r) w.db ≡ some task) where
  found_again :
      find task_key (task_id_of r) (save task_key (row_of r task) w.db.tasks) ≡ some (row_of r task)
  unfolding get_task
  found_again = ground (
    arith,
    found,
    row_of_keeps r task,
    key_of_found task_key (task_id_of r) w.db.tasks task,
    find-save_self task_key (task_id_of r) (row_of r task) task w.db.tasks,
  )

-- A run that is repeated from the state that it left.
replays :
    {S R : Type 0} (m : S → R × S) (w : S) (r : R) (w' : S)
    → m w ≡ (r, w')
    → m w' ≡ (r, w')
    → m (m w).1 ≡ m w
replays m w r w' e e' = rw (e, e')

same_self : (k : ℕ) → same_id (some k) k ≡ true
same_self k = ground arith

-- The order is found again after its status was written.
pub order_again :
    (k : ℕ) (order : Order) (status : OrderStatus) (rows : List Order)
    → find order_key k rows ≡ some order
    → find order_key k (save order_key (record order { status = status }) rows)
      ≡ some (record order { status = status })
order_again k order status rows found = ground (
  arith,
  key_of_found order_key k rows order,
  find-save_self order_key k (record order { status = status }) order rows,
)

module _ (id : ℕ) (w : World) (task : KitchenTask) (order : Order)
    (l : Loaded id w task order) where
  displayed-Loaded :
      (p : MarkDisplayedRequest)
      → Loaded id (displayed_world p task order w) (displayed_row p task) order
  unfolding get_task get_order save_task row_of
  displayed-Loaded p = record {
    task_found = found_again (mark_displayed_request id p) w task l.task_found;
    order_found = l.order_found;
  }

  pub started-Loaded :
      (p : StartTaskRequest)
      → Loaded id
          (started_world p task order w)
          (started_row p task)
          (record order { status = OrderStatus.cooking })
  unfolding get_task get_order save_task save_order row_of
  started-Loaded p = record {
    task_found = found_again (start_request id p) w task l.task_found;
    order_found = order_again task.order_id order OrderStatus.cooking w.db.orders l.order_found;
  }

  failed-Loaded :
      (p : DispatchFailedRequest)
      → Loaded id (failed_world p task order w) (failed_row p task) order
  unfolding get_task get_order save_task row_of
  failed-Loaded p = record {
    task_found = found_again (dispatch_failed_request id p) w task l.task_found;
    order_found = l.order_found;
  }

  pub completed-Loaded :
      (p : CompleteTaskRequest) (s : Datetime) (ready : Bool) (n : ℕ)
      → as_utc task.started_at ≡ some s
      → Loaded id
          (completed_world ready n p s task order w)
          (completed_row s (to_utc p.completed_at) task)
          (if ready then record order { status = OrderStatus.ready_for_pickup } else order)
  unfolding get_task get_order save_task save_order row_of
  completed-Loaded p s true n e = record {
    task_found = ground (arith, e, found_again (complete_request id p) w task l.task_found);
    order_found =
        order_again task.order_id order OrderStatus.ready_for_pickup w.db.orders l.order_found;
  }
  completed-Loaded p s false n e = record {
    task_found = ground (arith, e, found_again (complete_request id p) w task l.task_found);
    order_found = l.order_found;
  }

  replay_mark :
      (p : MarkDisplayedRequest) (x : MarkDisplayedResponse)
      → (mark_displayed id p w).0 ≡ ok x
      → mark_displayed id p (mark_displayed id p w).1 ≡ mark_displayed id p w
  replay_mark p x h = elim (Bool-cases (is_displayed task.status)) [
    | inl again ↦
        let (a, b) = displayed_ids id w task order l p x again h in
        let e = mark_displayed_again id w task order l p again a b in
        replays (mark_displayed id p) w _ w e e
    | inr fresh ↦
        let w' = displayed_world p task order w in
        replays (mark_displayed id p) w _ w' (mark_displayed_fresh id w task order l p x fresh h) (
          mark_displayed_again id w' (displayed_row p task) order (displayed-Loaded p) p refl
            (same_self p.station_id) (same_self p.kds_task_id))
  ]

  replay_start :
      (p : StartTaskRequest) (x : StartTaskResponse)
      → (start_task id p w).0 ≡ ok x
      → start_task id p (start_task id p w).1 ≡ start_task id p w
  replay_start p x h =
      let (a, b) = start_ids id w task order l p x h in
      elim (Bool-cases (is_in_progress task.status)) [
        | inl again ↦
            let e = start_again id w task order l p again a b in replays (start_task id p) w _ w e e
        | inr fresh ↦
            let w' = started_world p task order w in
            replays (start_task id p) w _ w' (start_fresh id w task order l p x fresh h)
              (start_again id w' (started_row p task) _ (started-Loaded p) p refl a b)
      ]

  replay_complete_fresh :
      (p : CompleteTaskRequest) (x : CompleteTaskResponse) (o : Option Datetime)
      → as_utc task.started_at ≡ o
      → is_done task.status ≡ false
      → (complete_task id p w).0 ≡ ok x
      → complete_task id p (complete_task id p w).1 ≡ complete_task id p w
  replay_complete_fresh p x none e fresh h =
      absurd (complete_started id w task order l p x fresh h e)
  replay_complete_fresh p x (some s) e fresh h =
      let (a, b) = complete_ids id w task order l p x h in
      let row = completed_row s (to_utc p.completed_at) task in
      let db' = save_task row w.db in
      let ready = all_order_tasks_done task.order_id db' in
      let n = completed_order_tasks_count task.order_id db' in
      let w' = completed_world ready n p s task order w in
      replays (complete_task id p) w _ w' (complete_fresh id w task order l p x s e fresh h)
        (complete_again id w' row _ (completed-Loaded p s ready n e) p refl a b)

  replay_complete :
      (p : CompleteTaskRequest) (x : CompleteTaskResponse)
      → (complete_task id p w).0 ≡ ok x
      → complete_task id p (complete_task id p w).1 ≡ complete_task id p w
  replay_complete p x h =
      let (a, b) = complete_ids id w task order l p x h in
      elim (Bool-cases (is_done task.status)) [
        | inl again ↦
            let e = complete_again id w task order l p again a b in
            replays (complete_task id p) w _ w e e
        | inr fresh ↦ replay_complete_fresh p x (as_utc task.started_at) refl fresh h
      ]

  replay_failed :
      (p : DispatchFailedRequest) (x : TaskSnapshotResponse)
      → (dispatch_failed id p w).0 ≡ ok x
      → dispatch_failed id p (dispatch_failed id p w).1 ≡ dispatch_failed id p w
  replay_failed p x h = elim (Bool-cases (is_failed task.status)) [
    | inl again ↦
        let e = dispatch_failed_again id w task order l p again in
        replays (dispatch_failed id p) w _ w e e
    | inr fresh ↦
        let w' = failed_world p task order w in
        replays (dispatch_failed id p) w _ w' (dispatch_failed_fresh id w task order l p x fresh h)
          (dispatch_failed_again id w' (failed_row p task) order (failed-Loaded p) p refl)
  ]

-- A method whose answer is wrapped is idempotent as the method is.
replay_wrapped_at :
    {A B : Type 0} (m : Handler A) (f : A → B) (w : World) (b : B) (r : Result Error A) (w' : World)
    → m w ≡ (r, w')
    → ((a : A) → (m w).0 ≡ ok a → m (m w).1 ≡ m w)
    → ((m >>= λ a. pure (f a)) w).0 ≡ ok b
    → (m >>= λ a. pure (f a)) ((m >>= λ a. pure (f a)) w).1 ≡ (m >>= λ a. pure (f a)) w
replay_wrapped_at m f w b (ok a) w' e again h =
    let e' : m w' ≡ (ok a, w') = ground (arith, e, again a) in ground arith
replay_wrapped_at m f w b (err x) w' e again h = ground arith

replay_wrapped :
    {A B : Type 0} (m : Handler A) (f : A → B) (w : World) (b : B)
    → ((a : A) → (m w).0 ≡ ok a → m (m w).1 ≡ m w)
    → ((m >>= λ a. pure (f a)) w).0 ≡ ok b
    → (m >>= λ a. pure (f a)) ((m >>= λ a. pure (f a)) w).1 ≡ (m >>= λ a. pure (f a)) w
replay_wrapped m f w b = replay_wrapped_at m f w b (m w).0 (m w).1 refl

replay-Loaded :
    (r : Request) (w : World) (x : Response) (task : KitchenTask) (order : Order)
    → Loaded (task_id_of r) w task order
    → (handle r w).0 ≡ ok x
    → handle r (handle r w).1 ≡ handle r w
unfolding handle
replay-Loaded (mark_displayed_request id p) w x task order l =
    replay_wrapped (mark_displayed id p) displayed_reply w x (replay_mark id w task order l p)
replay-Loaded (start_request id p) w x task order l =
    replay_wrapped (start_task id p) start_reply w x (replay_start id w task order l p)
replay-Loaded (complete_request id p) w x task order l =
    replay_wrapped (complete_task id p) complete_reply w x (replay_complete id w task order l p)
replay-Loaded (dispatch_failed_request id p) w x task order l =
    replay_wrapped (dispatch_failed id p) failed_reply w x (replay_failed id w task order l p)

-- An accepted request has met its task's order.
no_order :
    (r : Request) (w : World) (x : Response) (task : KitchenTask)
    → get_task (task_id_of r) w.db ≡ some task
    → get_order task.order_id w.db ≡ none
    → (handle r w).0 ≢ ok x
unfolding handle mark_displayed start_task complete_task dispatch_failed
no_order (mark_displayed_request id p) w x task f m h = ground arith
no_order (start_request id p) w x task f m h = ground arith
no_order (complete_request id p) w x task f m h = ground arith
no_order (dispatch_failed_request id p) w x task f m h = ground arith

-- A request that was accepted is accepted again with the same answer, and the second time it changes
-- nothing: no row, no metric, no event.
pub handle-handle :
    (r : Request) (w : World) (x : Response)
    → (handle r w).0 ≡ ok x
    → handle r (handle r w).1 ≡ handle r w
handle-handle r w x h = elim (Option-cases (get_task (task_id_of r) w.db)) [
  | inl missing ↦ replay_missing r w x missing h
  | inr (task, found) ↦ elim (Option-cases (get_order task.order_id w.db)) [
    | inl lost ↦ absurd (no_order r w x task found lost h)
    | inr (order, order_found) ↦
        replay-Loaded r w x task order (record { task_found = found; order_found = order_found }) h
  ]
]
