-- ===== src/Fulfillment/Events/Tests.antt =====
-- The documents of a completion whose last event Mongo refuses.
use dark_kitchen_simulator.Prelude.{
  zero, suc, ◌≡◌, refl, ◌⊎◌, true, none, some, List, [], ◌∷◌, All, length,
}
use dark_kitchen_simulator.Prelude.Time.{aware}
use dark_kitchen_simulator.Fulfillment.Models.{Event, task_completed, order_ready_for_pickup}
use dark_kitchen_simulator.Fulfillment.Samples.{order, cooking}
use dark_kitchen_simulator.Fulfillment.Documents.{Env, client}
use dark_kitchen_simulator.Fulfillment.Events.{write_event, write_all}
use dark_kitchen_simulator.Fulfillment.Events.Reported.{IsReported}
use dark_kitchen_simulator.Fulfillment.Events.Kept.{write_all-IsReported}

-- The second call is refused.
abbrev env : Env
env = record {
  mongo_client =
      some
        (λ calls collection document. elim (length calls) [ suc zero ↦ some "timeout" | _ ↦ none ]);
  enabled = true;
  service_name = "fulfillment-service";
  correlation_id = none;
  now = λ calls. aware (length calls);
  kitchen_of = λ id. 7;
}

abbrev events : List Event
events = order_ready_for_pickup order 1 ∷ task_completed cooking "w" ∷ []

three_calls : length (write_all env events []) ≡ 3
unfolding write_all write_event
three_calls = refl

write_all-IsReported_example :
    ((client env ≡ none) × (write_all env events [] ≡ []))
    ⊎ All (λ e. IsReported env e (write_all env events [])) events
write_all-IsReported_example = write_all-IsReported env events []
