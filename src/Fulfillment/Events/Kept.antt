-- ===== src/Fulfillment/Events/Kept.antt =====
-- The event writers of services/fulfillment-service/app/events/task_events.py, for all events of a
-- request.
use dark_kitchen_simulator.Prelude.{
  String, ◌≡◌, refl, ◌⊎◌, inl, inr, Option, none, some, Option-cases, List, [], ◌∷◌, ◌++◌, All, ◌∙◌,
  arith,
}
use dark_kitchen_simulator.Fulfillment.Models.{
  Order, KitchenTask, Event, order_created, kitchen_tasks_created, task_queued, task_displayed,
  task_started, task_completed, task_dispatch_failed, order_ready_for_pickup,
}
use dark_kitchen_simulator.Fulfillment.Documents.{
  Value, Collection, Document, Call, Env, client, MongoClient, insert_one, insert_or_audit, Dict,
  failure,
}
use dark_kitchen_simulator.Fulfillment.Events.{
  dispatch_failure, write_event, write_all, write_order_event, write_task_event, write_task_queued,
  write_order_ready_for_pickup, queued_audit, transition_audit, order_ids,
}
use dark_kitchen_simulator.Fulfillment.Events.Reported.{
  IsReported, older, queued_audit_on, transition_audit_on, write_event-IsReported,
}

module _ (env : Env) where
  -- Without a client nothing is written.
  write_event_off :
      (e : Event) (calls : List Call) → client env ≡ none → write_event env e calls ≡ calls
  unfolding write_event
  write_event_off (order_created order n) calls off = ground (arith, off)
  write_event_off (kitchen_tasks_created order n) calls off = ground (arith, off)
  write_event_off (task_queued task order stream message_id) calls off = ground (arith, off)
  write_event_off (task_displayed task dispatcher_id) calls off = ground (arith, off)
  write_event_off (task_started task worker) calls off = ground (arith, off)
  write_event_off (task_completed task worker) calls off = ground (arith, off)
  write_event_off (task_dispatch_failed task reason dispatcher_id) calls off = ground (arith, off)
  write_event_off (order_ready_for_pickup order n) calls off = ground (arith, off)

  write_all_off :
      (events : List Event) (calls : List Call)
      → client env ≡ none
      → write_all env events calls ≡ calls
  unfolding write_all
  write_all_off [] calls off = refl
  write_all_off (e ∷ earlier) calls off =
      write_event_off e (write_all env earlier calls) off ∙ write_all_off earlier calls off

  -- What was reported stays so: the writers only add calls.
  module _ (e' : Event) where
    insert_or_audit-older :
        (mongo : MongoClient) (collection : Collection) (document : Document)
        (audit : String → List Call → List Call) (calls : List Call)
        → ((exc : String) (made : List Call)
            → IsReported env e' made
            → IsReported env e' (audit exc made))
        → IsReported env e' calls
        → IsReported env e' (insert_or_audit mongo collection document audit calls)
    insert_or_audit-older mongo collection document audit calls told before =
        elim (Option-cases (mongo calls collection document)) [
          | inl taken ↦ rw (insert_or_audit, taken) (older _ before)
          | inr (exc, refused) ↦
              rw (insert_or_audit, refused)
                (told exc (insert_one mongo collection document calls) (older _ before))
        ]

    module _ (mongo : MongoClient) (on : client env ≡ some mongo) where
      queued_audit-older :
          (ids payload : Dict) (calls : List Call)
          → IsReported env e' calls
          → IsReported env e' (queued_audit env ids payload calls)
      queued_audit-older ids payload calls before =
          rw (queued_audit_on env mongo on ids payload calls) (older _ before)

      transition_audit-older :
          (event : String) (task : Option KitchenTask) (payload : Dict) (calls : List Call)
          → IsReported env e' calls
          → IsReported env e' (transition_audit env event task payload calls)
      transition_audit-older event task payload calls before =
          rw (transition_audit_on env mongo on event task payload calls) (older _ before)

      write_order_event-older :
          (event : String) (order : Order) (payload : Dict) (calls : List Call)
          → IsReported env e' calls
          → IsReported env e' (write_order_event env event order payload calls)
      write_order_event-older event order payload calls before =
          rw (write_order_event, on)
            (insert_or_audit-older mongo _ _ _ calls
              (λ exc made.
                queued_audit-older (order_ids order) (failure Collection.order_events event exc)
                  made)
              before)

      task_audit-older :
          (event : String) (task : KitchenTask) (exc : String) (calls : List Call)
          → IsReported env e' calls
          → IsReported env e' (
              transition_audit env "MongoEventWriteFailed"
                (some task)
                (failure Collection.task_events event exc)
                calls)
      task_audit-older event task exc calls before =
          transition_audit-older "MongoEventWriteFailed" (some task)
            (failure Collection.task_events event exc) calls before

      write_event-older :
          (e : Event) (calls : List Call)
          → IsReported env e' calls
          → IsReported env e' (write_event env e calls)
      unfolding write_event
      write_event-older (order_created order n) calls before =
          write_order_event-older _ order _ calls before
      write_event-older (kitchen_tasks_created order n) calls before =
          write_order_event-older _ order _ calls before
      write_event-older (task_queued task order stream message_id) calls before =
          rw (write_task_queued, on)
            (insert_or_audit-older mongo _ _ _ calls
              (λ exc made.
                queued_audit-older (("task_id", Value.uuid task.id) ∷ order_ids order)
                  (failure Collection.task_events "TaskQueued" exc) made)
              before)
      write_event-older (task_displayed task dispatcher_id) calls before =
          rw (write_task_event, on)
            (insert_or_audit-older mongo _ _ _ calls (task_audit-older "TaskDisplayed" task) before)
      write_event-older (task_started task worker) calls before =
          rw (write_task_event, on)
            (insert_or_audit-older mongo _ _ _ calls (task_audit-older "TaskStarted" task) before)
      write_event-older (task_completed task worker) calls before =
          rw (write_task_event, on)
            (insert_or_audit-older mongo _ _ _ calls (task_audit-older "TaskCompleted" task) before)
      write_event-older (task_dispatch_failed task reason dispatcher_id) calls before =
          transition_audit-older "DispatchFailed" (some task)
            (dispatch_failure task reason dispatcher_id) _
            (rw (write_task_event, on)
              (insert_or_audit-older mongo _ _ _ calls (task_audit-older "TaskDispatchFailed" task)
                before))
      write_event-older (order_ready_for_pickup order n) calls before =
          rw (write_order_ready_for_pickup, on)
            (insert_or_audit-older mongo _ _ _ calls
              (λ exc made.
                transition_audit-older "MongoEventWriteFailed" none
                  (failure Collection.order_events "OrderReadyForPickup" exc ++ order_ids order)
                  made)
              before)

  module _ (mongo : MongoClient) (on : client env ≡ some mongo) where
    -- Later writes leave the events reported.
    All-older :
        (e : Event) (events : List Event) (calls : List Call)
        → All (λ e'. IsReported env e' calls) events
        → All (λ e'. IsReported env e' (write_event env e calls)) events
    All-older e [] calls h = tt
    All-older e (e' ∷ events) calls (h, hs) =
        (write_event-older e' mongo on e calls h, All-older e events calls hs)

    write_all_on :
        (events : List Event) (calls : List Call)
        → All (λ e. IsReported env e (write_all env events calls)) events
    unfolding write_all
    write_all_on [] calls = tt
    write_all_on (e ∷ events) calls = (
      write_event-IsReported env mongo on e (write_all env events calls),
      All-older e events (write_all env events calls) (write_all_on events calls),
    )

  -- Without a client, or with the events disabled, no document is written. Otherwise every event of a
  -- request is stored in its collection, or its refusal is followed at once by an attempt to audit
  -- it, with the event's type, collection, order, kitchen and error.
  pub write_all-IsReported :
      (events : List Event) (calls : List Call)
      → ((client env ≡ none) × (write_all env events calls ≡ calls))
        ⊎ All (λ e. IsReported env e (write_all env events calls)) events
  write_all-IsReported events calls = elim (Option-cases (client env)) [
    | inl off ↦ inl (off, write_all_off events calls off)
    | inr (mongo, on) ↦ inr (write_all_on mongo on events calls)
  ]
