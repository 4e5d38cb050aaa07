-- ===== src/Floor/Tests.antt =====
-- The theorems about a worker's turn at concrete states of the services.
use Prim.Native.String.{count as str_length, ◌∷◌ as str_cons}
use text.Mathlib.TextLemmas.{length-cons}
use dark_kitchen_simulator.Prelude.{
  ℕ, zero, suc, ◌+◌, ◌≡◌, ◌≢◌, refl, String, none, some, [], ◌∷◌, str_eq, select, find, arith,
  if◌then◌else◌,
}
use dark_kitchen_simulator.Prelude.Sort.{sort, insert}
use dark_kitchen_simulator.Prelude.Time.{aware}
use dark_kitchen_simulator.Fulfillment.Models as Orders
use dark_kitchen_simulator.Fulfillment.Repositories.{get_task, get_order}
use dark_kitchen_simulator.Fulfillment.Samples as Order
use dark_kitchen_simulator.Kitchen.Models.{World}
use dark_kitchen_simulator.Kitchen.Repositories.{get_station, get_by_task_id}
use dark_kitchen_simulator.Kitchen.Rules.{claimed_row, completed_row}
use dark_kitchen_simulator.Kitchen.Listing.{task_page, listed_tasks}
use dark_kitchen_simulator.Kitchen.Samples.{station, task, world, env, env-IsAtomic, accepted}
use dark_kitchen_simulator.Handoff.Completion.Calls.{DoneAt}
use dark_kitchen_simulator.Simulator.Kds as Kds
use dark_kitchen_simulator.Simulator.Kds.{KdsTask, timeout}
use dark_kitchen_simulator.Simulator.Duration.{calculate_simulated_duration}
use dark_kitchen_simulator.Simulator.Samples.{floats}
use dark_kitchen_simulator.Simulator.Worker as Worker
use dark_kitchen_simulator.Simulator.Worker.{idle, select_displayed_task}
use dark_kitchen_simulator.Floor.Views.{Texts}
use dark_kitchen_simulator.Floor.Turn.{Surroundings, claim_request, poll_call, selected, turn}
use dark_kitchen_simulator.Floor.Served.{Waits}
use dark_kitchen_simulator.Floor.Worked.{IsCalm, Selects, turn_finishes}
use dark_kitchen_simulator.Floor.Truthful.{IsCompleted, turn_is_truthful}

-- A task's text has as many characters as its number says.
abbrev strokes : ℕ → String
strokes zero = ""
strokes (suc n) = str_cons "x" (strokes n)

str_length-strokes : (n : ℕ) → str_length (strokes n) ≡ n
str_length-strokes zero = refl
str_length-strokes (suc n) = omega (arith, length-cons "x" (strokes n), str_length-strokes n)

abbrev texts : Texts
texts = record {
  uuid = λ text. if str_eq text "four" then some 4 else none;
  named = str_length;
  text_of = strokes;
  errors_text = "[]";
}

abbrev around : Surroundings
around = record {
  correlation_id = none;
  poll_env = env accepted;
  claim_env = env accepted;
  complete_env = λ n. env accepted;
}

abbrev worker_env : Worker.Env floats
worker_env = record {
  poll_interval_seconds = 1;
  speed_factor = 10;
  min_duration_factor = 1;
  max_duration_factor = 2;
  random_provider = λ a b. a;
  complete_retry_attempts = 3;
  now = aware 4;
  poll_reply = timeout;
  claim_reply = timeout;
  complete_reply = λ n. timeout;
  invalid_body_text = "";
}

abbrev worker : Worker.World floats
worker = record {
  state = record {
    worker_id = "w";
    station_id = "four";
    status = idle;
    current_task_id = none;
    last_error = none;
    last_poll_at = none;
    completed_tasks_count = 0;
  };
  actions = [];
}

abbrev kitchen : World
kitchen = world (task ∷ [])

abbrev orders : Orders.World
orders = Order.world Order.displayed []

calm : IsCalm texts around "w"
calm = record {
  texts_agree = str_length-strokes;
  worker_named = refl;
  claim_atomic = env-IsAtomic accepted;
  complete_atomic = env-IsAtomic accepted;
  in_order = refl;
}

task-Waits : Waits 4 kitchen orders station task Order.displayed Order.order
unfolding get_station get_by_task_id get_task get_order find
task-Waits = record {
  free = record {
    station_found = refl;
    task_found = refl;
    on_station = refl;
    is_available = refl;
    is_displayed = refl;
    has_room = omega arith;
  };
  loaded = record { task_found = refl; order_found = refl };
  is_shown = refl;
  at_station = refl;
  by_kds_task = refl;
}

task-Selects : Selects floats texts worker_env "four" 4 kitchen task 6
unfolding task_page listed_tasks select_displayed_task sort insert select
    calculate_simulated_duration
task-Selects = record { parsed = refl; chosen = refl; lasts = refl; tries = (2, refl) }

turn_finishes_example :
    let (w', (kitchen', f')) = turn floats texts around worker_env (worker, (kitchen, orders)) in
    (w'.state.status ≡ idle)
    × (w'.state.completed_tasks_count ≡ 0 + 1)
    × (get_by_task_id 10 kitchen'.db
        ≡ some (completed_row (aware 9) (claimed_row (claim_request "w") (aware 9) task)))
    × DoneAt 10 4 5 f'
turn_finishes_example =
    turn_finishes floats texts around worker_env worker kitchen orders 4 station task
      Order.displayed Order.order 6 calm task-Waits task-Selects

counted :
    (turn floats texts around worker_env (worker, (kitchen, orders))).0.state.completed_tasks_count
    ≢ 0
counted h =
    let (status, one, row, done) =
      turn_finishes floats texts around worker_env worker kitchen orders 4 station task
        Order.displayed Order.order 6 calm task-Waits task-Selects in
    absurd (omega (arith, h, one))

turn_is_truthful_example :
    let (w', (kitchen', f')) = turn floats texts around worker_env (worker, (kitchen, orders)) in
    let polled =
      poll_call texts "four" "w" around.correlation_id around.poll_env (kitchen, orders) in
    (shown : KdsTask) × (selected (Kds.get_station_tasks polled) ≡ some shown)
    × IsCompleted texts "four" shown.task_id kitchen' f'
turn_is_truthful_example =
    turn_is_truthful floats texts around worker_env worker (kitchen, orders) counted
