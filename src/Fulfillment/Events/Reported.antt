-- ===== src/Fulfillment/Events/Reported.antt =====
-- What becomes of the events of services/fulfillment-service/app/events/task_events.py when Mongo
-- refuses some of them.
use dark_kitchen_simulator.Prelude.{
  ℕ, String, ◌≡◌, refl, inl, inr, Option, none, some, Option-cases, List, [], ◌∷◌, ◌++◌, arith,
}
use dark_kitchen_simulator.Prelude.Time.{Datetime}
use dark_kitchen_simulator.Fulfillment.Models.{
  KitchenTask, Event, order_created, kitchen_tasks_created, task_queued, task_displayed,
  task_started, task_completed, task_dispatch_failed, order_ready_for_pickup,
}
use dark_kitchen_simulator.Fulfillment.Documents.{
  Value, get, Collection, collection_name, Document, Call, Env, client, MongoClient, insert_one,
  insert_or_audit, Dict, failure,
}
use dark_kitchen_simulator.Fulfillment.Events.{
  dispatch_failure, write_event, write_order_event, write_task_event, write_task_queued,
  write_order_ready_for_pickup, queued_audit, queued_audit_document, transition_audit,
  transition_audit_document, order_ids,
}

abbrev pub event_type : Event → String
event_type (order_created order n) = "OrderCreated"
event_type (kitchen_tasks_created order n) = "KitchenTasksCreated"
event_type (task_queued task order stream message_id) = "TaskQueued"
event_type (task_displayed task dispatcher_id) = "TaskDisplayed"
event_type (task_started task worker) = "TaskStarted"
event_type (task_completed task worker) = "TaskCompleted"
event_type (task_dispatch_failed task reason dispatcher_id) = "TaskDispatchFailed"
event_type (order_ready_for_pickup order n) = "OrderReadyForPickup"

abbrev pub task_of : Event → Option KitchenTask
task_of (order_created order n) = none
task_of (kitchen_tasks_created order n) = none
task_of (task_queued task order stream message_id) = some task
task_of (task_displayed task dispatcher_id) = some task
task_of (task_started task worker) = some task
task_of (task_completed task worker) = some task
task_of (task_dispatch_failed task reason dispatcher_id) = some task
task_of (order_ready_for_pickup order n) = none

-- The order and its kitchen, as the writer is told of them.
abbrev pub order_of : Env → Event → ℕ × ℕ
order_of env (order_created order n) = (order.id, order.kitchen_id)
order_of env (kitchen_tasks_created order n) = (order.id, order.kitchen_id)
order_of env (task_queued task order stream message_id) = (order.id, order.kitchen_id)
order_of env (task_displayed task dispatcher_id) = (task.order_id, env.kitchen_of task.order_id)
order_of env (task_started task worker) = (task.order_id, env.kitchen_of task.order_id)
order_of env (task_completed task worker) = (task.order_id, env.kitchen_of task.order_id)
order_of env (task_dispatch_failed task reason dispatcher_id) =
    (task.order_id, env.kitchen_of task.order_id)
order_of env (order_ready_for_pickup order n) = (order.id, order.kitchen_id)

abbrev pub home : Event → Collection
home e = elim (task_of e) [ none ↦ Collection.order_events | some task ↦ Collection.task_events ]

-- The document of the event, in the collection for it.
abbrev pub IsWrite : Env → Event → Call → Type 0
IsWrite env e call =
    (call.collection ≡ home e)
    × (get "event_type" call.document.fields ≡ Value.text (event_type e))
    × (get "kitchen_id" call.document.fields ≡ Value.uuid (order_of env e).1)
    × (elim (task_of e) [
      | none ↦ get "order_id" call.document.fields ≡ Value.uuid (order_of env e).0
      | some task ↦ get "task_id" call.document.fields ≡ Value.uuid task.id
    ])

-- The audit that tells of an event that could not be written: which, of what order, and why.
abbrev pub IsAudit : Env → Event → String → Call → Type 0
IsAudit env e exc call =
    (call.collection ≡ Collection.app_audit_events)
    × (get "event_type" call.document.fields ≡ Value.text "MongoEventWriteFailed")
    × (get "order_id" call.document.fields ≡ Value.uuid (order_of env e).0)
    × (get "kitchen_id" call.document.fields ≡ Value.uuid (order_of env e).1)
    × (get "collection" call.document.payload ≡ Value.text (collection_name (home e)))
    × (get "event_type" call.document.payload ≡ Value.text (event_type e))
    × (get "error" call.document.payload ≡ Value.text exc)

-- An event is stored, or its refusal is followed at once by an attempt to audit it.
pub data IsReported (env : Env) (e : Event) : List Call → Type 0 where
  stored :
      {calls : List Call} (call : Call)
      → IsWrite env e call
      → call.error ≡ none
      → IsReported env e (call ∷ calls)
  audited :
      {calls : List Call} (call audit : Call) (exc : String)
      → IsWrite env e call
      → call.error ≡ some exc
      → IsAudit env e exc audit
      → IsReported env e (audit ∷ call ∷ calls)
  older :
      {calls : List Call} (later : Call) → IsReported env e calls → IsReported env e (later ∷ calls)

module _ (env : Env) where
  -- An insert whose refusal is audited reports its event.
  insert_or_audit-IsReported :
      (mongo : MongoClient) (e : Event) (collection : Collection) (document : Document)
      (audit : String → List Call → List Call) (calls : List Call)
      → ((error : Option String)
          → IsWrite env e (record { collection = collection; document = document; error = error }))
      → ((exc : String) (made : List Call)
          → (call : Call) × IsAudit env e exc call × (audit exc made ≡ call ∷ made))
      → IsReported env e (insert_or_audit mongo collection document audit calls)
  insert_or_audit-IsReported mongo e collection document audit calls write told =
      elim (Option-cases (mongo calls collection document)) [
        | inl taken ↦
            rw (insert_or_audit, taken)
              (stored
                (record {
                  collection = collection;
                  document = document;
                  error = mongo calls collection document;
                })
                (write (mongo calls collection document)) taken)
        | inr (exc, refused) ↦
            let (call, is_audit, made) = told exc (insert_one mongo collection document calls) in
            rw (insert_or_audit, refused, made)
              (audited
                (record {
                  collection = collection;
                  document = document;
                  error = mongo calls collection document;
                })
                call exc (write (mongo calls collection document)) refused is_audit)
      ]

  module _ (mongo : MongoClient) (on : client env ≡ some mongo) where
    pub queued_audit_on :
        (ids payload : Dict) (calls : List Call)
        → queued_audit env ids payload calls
          ≡ insert_one mongo Collection.app_audit_events
              (queued_audit_document env ids payload (env.now calls))
              calls
    queued_audit_on ids payload calls = ground (arith, on)

    pub transition_audit_on :
        (event : String) (task : Option KitchenTask) (payload : Dict) (calls : List Call)
        → transition_audit env event task payload calls
          ≡ insert_one mongo Collection.app_audit_events
              (transition_audit_document env event task payload (env.now calls))
              calls
    transition_audit_on event task payload calls = ground (arith, on)

    insert_or_queued_audit-IsReported :
        (e : Event) (document : Document) (ids : Dict) (calls : List Call)
        → ((error : Option String)
            → IsWrite env e (record { collection = home e; document = document; error = error }))
        → get "order_id" ids ≡ Value.uuid (order_of env e).0
        → get "kitchen_id" ids ≡ Value.uuid (order_of env e).1
        → IsReported env e (
            insert_or_audit mongo
              (home e)
              document
              (λ exc. queued_audit env ids (failure (home e) (event_type e) exc))
              calls)
    insert_or_queued_audit-IsReported e document ids calls write order kitchen =
        insert_or_audit-IsReported mongo e (home e) document _ calls write (λ exc made. (
          record {
            collection = Collection.app_audit_events;
            document =
                queued_audit_document env ids (failure (home e) (event_type e) exc) (env.now made);
            error = mongo made Collection.app_audit_events (
                queued_audit_document env ids (failure (home e) (event_type e) exc) (env.now made));
          },
          (refl, refl, order, kitchen, refl, refl, refl),
          queued_audit_on ids (failure (home e) (event_type e) exc) made,
        ))

    insert_or_transition_audit-IsReported :
        (e : Event) (task : Option KitchenTask) (document : Document) (rest : Dict)
        (calls : List Call)
        → ((error : Option String)
            → IsWrite env e (record { collection = home e; document = document; error = error }))
        → ((exc : String) (now : Datetime)
            → let audit =
                transition_audit_document env "MongoEventWriteFailed" task
                  (failure (home e) (event_type e) exc ++ rest)
                  now in
              (get "order_id" audit.fields ≡ Value.uuid (order_of env e).0)
              × (get "kitchen_id" audit.fields ≡ Value.uuid (order_of env e).1))
        → IsReported env e (
            insert_or_audit mongo
              (home e)
              document
              (λ exc.
                transition_audit env "MongoEventWriteFailed" task
                  (failure (home e) (event_type e) exc ++ rest))
              calls)
    insert_or_transition_audit-IsReported e task document rest calls write ids =
        insert_or_audit-IsReported mongo e (home e) document _ calls write (λ exc made.
          let payload = failure (home e) (event_type e) exc ++ rest in
          let audit =
            transition_audit_document env "MongoEventWriteFailed" task payload (env.now made) in
          (
            record {
              collection = Collection.app_audit_events;
              document = audit;
              error = mongo made Collection.app_audit_events audit;
            },
            (refl, refl, (ids exc (env.now made)).0, (ids exc (env.now made)).1, refl, refl, refl),
            transition_audit_on "MongoEventWriteFailed" task payload made,
          ))

    pub write_event-IsReported :
        (e : Event) (calls : List Call) → IsReported env e (write_event env e calls)
    unfolding write_event
    write_event-IsReported (order_created order n) calls =
        rw (on, write_order_event)
          (insert_or_queued_audit-IsReported (order_created order n) _ (order_ids order) calls
            (λ error. (refl, refl, refl, refl)) refl refl)
    write_event-IsReported (kitchen_tasks_created order n) calls =
        rw (on, write_order_event)
          (insert_or_queued_audit-IsReported (kitchen_tasks_created order n) _ (order_ids order)
            calls (λ error. (refl, refl, refl, refl)) refl refl)
    write_event-IsReported (task_queued task order stream message_id) calls =
        rw (on, write_task_queued)
          (insert_or_queued_audit-IsReported (task_queued task order stream message_id) _
            (("task_id", Value.uuid task.id) ∷ order_ids order) calls
            (λ error. (refl, refl, refl, refl)) refl refl)
    write_event-IsReported (task_displayed task dispatcher_id) calls =
        rw (on, write_task_event)
          (insert_or_transition_audit-IsReported (task_displayed task dispatcher_id) (some task) _
            [] calls (λ error. (refl, refl, refl, refl)) (λ exc now. (refl, refl)))
    write_event-IsReported (task_started task worker) calls =
        rw (on, write_task_event)
          (insert_or_transition_audit-IsReported (task_started task worker) (some task) _ [] calls
            (λ error. (refl, refl, refl, refl)) (λ exc now. (refl, refl)))
    write_event-IsReported (task_completed task worker) calls =
        rw (on, write_task_event)
          (insert_or_transition_audit-IsReported (task_completed task worker) (some task) _ [] calls
            (λ error. (refl, refl, refl, refl)) (λ exc now. (refl, refl)))
    write_event-IsReported (task_dispatch_failed task reason dispatcher_id) calls =
        rw
          (
            transition_audit_on "DispatchFailed" (some task)
                (dispatch_failure task reason dispatcher_id)
                (write_task_event env "TaskDispatchFailed" task
                  (dispatch_failure task reason dispatcher_id) none calls),
            on,
            write_task_event,
          )
          (older _ (
            insert_or_transition_audit-IsReported (task_dispatch_failed task reason dispatcher_id)
              (some task) _ [] calls (λ error. (refl, refl, refl, refl)) (λ exc now. (refl, refl))))
    write_event-IsReported (order_ready_for_pickup order n) calls =
        rw (on, write_order_ready_for_pickup)
          (insert_or_transition_audit-IsReported (order_ready_for_pickup order n) none _
            (order_ids order) calls (λ error. (refl, refl, refl, refl)) (λ exc now. (refl, refl)))
