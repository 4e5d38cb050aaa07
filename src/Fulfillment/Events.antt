-- ===== src/Fulfillment/Events.antt =====
-- services/fulfillment-service/app/events/task_events.py: the event writers. They change nothing but
-- the calls that Mongo gets, and let no exception out.
use dark_kitchen_simulator.Prelude.{ℕ, String, Option, none, some, List, [], ◌∷◌, ◌++◌}
use dark_kitchen_simulator.Prelude.Time.{Datetime}
use dark_kitchen_simulator.Fulfillment.Models.{
  Order, KitchenTask, Event, order_created, kitchen_tasks_created, task_queued, task_displayed,
  task_started, task_completed, task_dispatch_failed, order_ready_for_pickup,
}
use dark_kitchen_simulator.Fulfillment.Documents.{
  Value, Dict, get, optional, Collection, Document, Call, Env, client, stamp, insert_one,
  insert_or_audit, failure,
}
mod Reported
mod Kept
mod Tests

-- class TaskQueuedEventWriter: write_audit_event, with the ids that its callers give.
abbrev pub queued_audit_document : Env → Dict → Dict → Datetime → Document
queued_audit_document env ids payload now = record {
  fields =
      ("event_type", Value.text "MongoEventWriteFailed")
      ∷ ("order_id", get "order_id" ids)
      ∷ ("task_id", get "task_id" ids)
      ∷ ("kitchen_id", get "kitchen_id" ids)
      ∷ stamp env now;
  payload = payload;
}

abbrev pub queued_audit : Env → Dict → Dict → List Call → List Call
queued_audit env ids payload calls = elim (client env) [
  | none ↦ calls
  | some mongo ↦
      insert_one mongo Collection.app_audit_events
        (queued_audit_document env ids payload (env.now calls)) calls
]

abbrev pub order_ids : Order → Dict
order_ids order =
    ("order_id", Value.uuid order.id) ∷ ("kitchen_id", Value.uuid order.kitchen_id) ∷ []

abbrev pub write_task_queued : Env → KitchenTask → Order → String → String → List Call → List Call
write_task_queued env task order stream redis_message_id calls = elim (client env) [
  | none ↦ calls
  | some mongo ↦
      insert_or_audit mongo Collection.task_events
        (record {
          fields =
              ("event_type", Value.text "TaskQueued")
              ∷ ("task_id", Value.uuid task.id)
              ∷ ("order_id", Value.uuid task.order_id)
              ∷ ("kitchen_id", Value.uuid order.kitchen_id)
              ∷ ("station_type", Value.text task.station_type)
              ∷ stamp env (env.now calls);
          payload =
              ("stream", Value.text stream)
              ∷ ("redis_message_id", Value.text redis_message_id)
              ∷ ("operation", Value.text task.operation)
              ∷ ("estimated_duration_seconds", Value.number task.estimated_duration_seconds)
              ∷ [];
        })
        (λ exc.
          queued_audit env (("task_id", Value.uuid task.id) ∷ order_ids order)
            (failure Collection.task_events "TaskQueued" exc))
        calls
]

-- The document of an event of an order, in both writers.
abbrev order_document : Env → Datetime → String → Order → Dict → Document
order_document env now event_type order payload = record {
  fields =
      ("event_type", Value.text event_type)
      ∷ ("order_id", Value.uuid order.id)
      ∷ ("kitchen_id", Value.uuid order.kitchen_id)
      ∷ stamp env now;
  payload = payload;
}

abbrev pub write_order_event : Env → String → Order → Dict → List Call → List Call
write_order_event env event_type order payload calls = elim (client env) [
  | none ↦ calls
  | some mongo ↦
      insert_or_audit mongo Collection.order_events
        (order_document env (env.now calls) event_type order payload)
        (λ exc. queued_audit env (order_ids order) (failure Collection.order_events event_type exc))
        calls
]

-- class TaskTransitionEventWriter: the keys of an audit event, from the task or from the payload.
abbrev pub audit_keys : Env → Option KitchenTask → Dict → Dict
audit_keys env (some task) payload =
    ("task_id", Value.uuid task.id)
    ∷ ("order_id", Value.uuid task.order_id)
    ∷ ("kitchen_id", Value.uuid (env.kitchen_of task.order_id))
    ∷ ("station_type", Value.text task.station_type)
    ∷ ("station_id", optional Value.uuid task.station_id)
    ∷ ("kds_task_id", optional Value.uuid task.kds_task_id)
    ∷ []
audit_keys env none payload =
    ("task_id", get "task_id" payload)
    ∷ ("order_id", get "order_id" payload)
    ∷ ("kitchen_id", get "kitchen_id" payload)
    ∷ ("station_type", get "station_type" payload)
    ∷ ("station_id", get "station_id" payload)
    ∷ ("kds_task_id", get "kds_task_id" payload)
    ∷ []

abbrev pub transition_audit_document :
    Env → String → Option KitchenTask → Dict → Datetime → Document
transition_audit_document env event_type task payload now = record {
  fields = ("event_type", Value.text event_type) ∷ (audit_keys env task payload ++ stamp env now);
  payload = payload;
}

abbrev pub transition_audit : Env → String → Option KitchenTask → Dict → List Call → List Call
transition_audit env event_type task payload calls = elim (client env) [
  | none ↦ calls
  | some mongo ↦
      insert_one mongo Collection.app_audit_events
        (transition_audit_document env event_type task payload (env.now calls)) calls
]

-- `created_at or datetime.now(UTC)`
abbrev created_or_now : Option Datetime → Datetime → Datetime
created_or_now (some created_at) now = created_at
created_or_now none now = now

abbrev pub write_task_event :
    Env → String → KitchenTask → Dict → Option Datetime → List Call → List Call
write_task_event env event_type task payload created_at calls = elim (client env) [
  | none ↦ calls
  | some mongo ↦
      insert_or_audit mongo Collection.task_events
        (record {
          fields =
              ("event_type", Value.text event_type)
              ∷ ("task_id", Value.uuid task.id)
              ∷ ("order_id", Value.uuid task.order_id)
              ∷ ("kitchen_id", Value.uuid (env.kitchen_of task.order_id))
              ∷ ("station_type", Value.text task.station_type)
              ∷ ("station_id", optional Value.uuid task.station_id)
              ∷ ("kds_task_id", optional Value.uuid task.kds_task_id)
              ∷ stamp env (created_or_now created_at (env.now calls));
          payload = payload;
        })
        (λ exc.
          transition_audit env "MongoEventWriteFailed" (some task)
            (failure Collection.task_events event_type exc))
        calls
]

abbrev pub dispatch_failure : KitchenTask → String → String → Dict
dispatch_failure task reason dispatcher_id =
    ("reason", Value.text reason)
    ∷ ("dispatcher_id", Value.text dispatcher_id)
    ∷ ("attempts", Value.number task.attempts)
    ∷ []

abbrev pub write_task_dispatch_failed : Env → KitchenTask → String → String → List Call → List Call
write_task_dispatch_failed env task reason dispatcher_id calls =
    transition_audit env "DispatchFailed" (some task) (dispatch_failure task reason dispatcher_id) (
      write_task_event env "TaskDispatchFailed" task (dispatch_failure task reason dispatcher_id)
        none calls)

abbrev pub write_order_ready_for_pickup : Env → Order → ℕ → List Call → List Call
write_order_ready_for_pickup env order completed_tasks_count calls = elim (client env) [
  | none ↦ calls
  | some mongo ↦
      insert_or_audit mongo Collection.order_events
        (order_document env (env.now calls) "OrderReadyForPickup" order
          (("completed_tasks_count", Value.number completed_tasks_count) ∷ []))
        (λ exc.
          transition_audit env "MongoEventWriteFailed" none
            (failure Collection.order_events "OrderReadyForPickup" exc ++ order_ids order))
        calls
]

-- The method that `_safe_event_write` is called with for an event.
unfoldable pub write_event : Env → Event → List Call → List Call
write_event env (order_created order n) calls =
    write_order_event env "OrderCreated" order
      (("tasks_count", Value.number n) ∷ ("status", Value.order_status order.status) ∷ []) calls
write_event env (kitchen_tasks_created order n) calls =
    write_order_event env "KitchenTasksCreated" order (("tasks_count", Value.number n) ∷ []) calls
write_event env (task_queued task order stream message_id) calls =
    write_task_queued env task order stream message_id calls
write_event env (task_displayed task dispatcher_id) calls =
    write_task_event env "TaskDisplayed" task (("dispatcher_id", Value.text dispatcher_id) ∷ [])
      task.displayed_at calls
write_event env (task_started task worker) calls =
    write_task_event env "TaskStarted" task
      (("station_worker_id", Value.text worker)
        ∷ ("started_at", optional Value.time task.started_at)
        ∷ ("sla_deadline_at", optional Value.time task.sla_deadline_at)
        ∷ [])
      task.started_at calls
write_event env (task_completed task worker) calls =
    write_task_event env "TaskCompleted" task
      (("station_worker_id", Value.text worker)
        ∷ ("completed_at", optional Value.time task.completed_at)
        ∷ ("actual_duration_seconds", optional Value.number task.actual_duration_seconds)
        ∷ ("delay_seconds", optional Value.number task.delay_seconds)
        ∷ [])
      task.completed_at calls
write_event env (task_dispatch_failed task reason dispatcher_id) calls =
    write_task_dispatch_failed env task reason dispatcher_id calls
write_event env (order_ready_for_pickup order n) calls =
    write_order_ready_for_pickup env order n calls

-- The events of a request, the latest first as a handler leaves them.
unfoldable pub write_all : Env → List Event → List Call → List Call
write_all env [] calls = calls
write_all env (e ∷ earlier) calls = write_event env e (write_all env earlier calls)
