-- ===== src/Simulator/Tests.antt =====
-- The theorems about the station simulator at concrete tasks, answers and configurations, and runs.
use dark_kitchen_simulator.Prelude.{
  ℕ, zero, suc, ◌+◌, ◌≡◌, refl, none, some, List, [], ◌∷◌, true, false, All, ◌==◌, length, count,
  arith, select,
}
use dark_kitchen_simulator.Prelude.Exec.{ok}
use dark_kitchen_simulator.Prelude.Sort.{sort, insert}
use dark_kitchen_simulator.Prelude.Time.{aware}
use dark_kitchen_simulator.Simulator.Kds as Kds
use dark_kitchen_simulator.Simulator.Kds.{
  KdsTask, ClaimResponse, CompleteResponse, HttpReply, timeout, response, checked,
}
use dark_kitchen_simulator.Simulator.Duration.{calculate_simulated_duration}
use dark_kitchen_simulator.Simulator.Samples.{floats}
use dark_kitchen_simulator.Simulator.Worker.{
  starting, World, Env, is_displayed, displayed_le, select_displayed_task, rounds,
  complete_with_retry, cook, claim, poll, run_once, turns, run,
}
use dark_kitchen_simulator.Simulator.Selection.{select_displayed_task_earliest}
use dark_kitchen_simulator.Simulator.Retries.{Stopped, is_completes, complete_with_retry-Stopped}
use dark_kitchen_simulator.Simulator.Counts.{Balanced}
use dark_kitchen_simulator.Simulator.Turns.{IsWaiting, run-Balanced}
use dark_kitchen_simulator.Simulator.Config.{
  Text, pos, Python, comma, is_seen, same_text, parse_workers_config,
}
use dark_kitchen_simulator.Simulator.Config.RoundTrip.{
  Entry, print_entries, workers_of, Lawful, IsName, AllNew, parse_workers_config-print_entries,
}

abbrev task : KdsTask
task = record {
  kds_task_id = 5;
  task_id = 10;
  order_id = 1;
  station_id = 4;
  operation = "sear";
  menu_item_name = none;
  status = "displayed";
  estimated_duration_seconds = 60;
  pickup_deadline = none;
  displayed_at = aware 3;
}

abbrev older : KdsTask
older = record task { kds_task_id = 6; task_id = 11; displayed_at = aware 1 }

abbrev cooking_task : KdsTask
cooking_task = record task {
  kds_task_id = 7;
  task_id = 12;
  status = "claimed";
  displayed_at = aware 0;
}

abbrev tasks : List KdsTask
tasks = cooking_task ∷ task ∷ older ∷ []

select_run : select_displayed_task tasks ≡ some older
unfolding select_displayed_task sort insert select
select_run = refl

select_displayed_task_earliest_example :
    ((t : KdsTask)
      → select_displayed_task tasks ≡ some t
      → ((P : KdsTask → Type 0) → All P tasks → P t)
        × (is_displayed t ≡ true)
        × All (λ x. is_displayed x ≡ true → displayed_le t x ≡ true) tasks)
    × (select_displayed_task tasks ≡ none → All (λ x. is_displayed x ≡ false) tasks)
select_displayed_task_earliest_example = select_displayed_task_earliest tasks

abbrev claim_answer : ClaimResponse
claim_answer = record {
  kds_task_id = 6;
  task_id = 11;
  station_id = 4;
  status = "claimed";
  claimed_by = "w";
  claimed_at = aware 5;
}

abbrev complete_answer : CompleteResponse
complete_answer = record {
  kds_task_id = 6;
  task_id = 11;
  station_id = 4;
  status = "completed";
  claimed_by = "w";
  completed_at = aware 9;
}

-- The first completion is not answered.
abbrev completions : ℕ → HttpReply CompleteResponse
completions zero = timeout
completions (suc zero) = timeout
completions (suc (suc n)) = response 200 "" (some complete_answer)

abbrev env : Env floats
env = record {
  poll_interval_seconds = 1;
  speed_factor = 10;
  min_duration_factor = 1;
  max_duration_factor = 2;
  random_provider = λ a b. a;
  complete_retry_attempts = 3;
  now = aware 4;
  poll_reply = response 200 "" (some tasks);
  claim_reply = response 200 "" (some claim_answer);
  complete_reply = completions;
  invalid_body_text = "invalid body";
}

abbrev world : World floats
world = record {
  state = record {
    worker_id = "w";
    station_id = "grill_1";
    status = starting;
    current_task_id = none;
    last_error = none;
    last_poll_at = none;
    completed_tasks_count = 0;
  };
  actions = [];
}

retry_run : (complete_with_retry floats env older world).0 ≡ ok true
unfolding complete_with_retry rounds Kds.complete_task checked
retry_run = refl

complete_with_retry-Stopped_example :
    let r = complete_with_retry floats env older world in
    (made : ℕ) × Stopped floats env 3 1 made r.0
    × (count (is_completes floats env 11) r.1.actions
        ≡ count (is_completes floats env 11) world.actions + made)
complete_with_retry-Stopped_example = complete_with_retry-Stopped floats env older world

turn_run : (run floats (env ∷ []) world).state.completed_tasks_count ≡ 1
unfolding run turns run_once poll claim cook complete_with_retry rounds Kds.complete_task checked
    Kds.get_station_tasks Kds.claim_task select_displayed_task sort select insert
    calculate_simulated_duration
turn_run = refl

world-Balanced : Balanced floats world
unfolding count
world-Balanced = record {
  counted = refl;
  completed_claimed = omega arith;
  claimed_tried = omega arith;
}

run-Balanced_example :
    Balanced floats (run floats (env ∷ []) world) × IsWaiting floats (run floats (env ∷ []) world)
run-Balanced_example = run-Balanced floats (env ∷ []) world world-Balanced

-- Numbers as strokes.
abbrev strokes : ℕ → Text
strokes zero = []
strokes (suc n) = 49 ∷ strokes n

abbrev python : Python
python = record { is_space = λ c. c == 32; int_of = λ t. some (pos (length t)); str_of = strokes }

length-strokes : (n : ℕ) → length (strokes n) ≡ n
length-strokes zero = refl
length-strokes (suc n) = ground (arith, length-strokes n)

strokes-All : (k n : ℕ) → (49 == k) ≡ false → All (λ c. (c == k) ≡ false) (strokes n)
strokes-All k zero h = tt
strokes-All k (suc n) h = (h, strokes-All k n h)

python-Lawful : Lawful python
python-Lawful = record {
  colon_no_space = refl;
  str_no_space = λ n. strokes-All 32 n refl;
  str_no_comma = λ n. strokes-All comma n refl;
  int_of_str = λ n. rw (length-strokes n);
}

abbrev grill : Entry
grill = record { station_id = 103 ∷ 49 ∷ []; workers_after_first = 1 }

abbrev fryer : Entry
fryer = record { station_id = 102 ∷ 49 ∷ []; workers_after_first = 0 }

grill-IsName : IsName python grill.station_id
grill-IsName = record {
  not_empty = refl;
  no_space = (refl, (refl, tt));
  no_comma = (refl, (refl, tt));
  no_colon = (refl, (refl, tt));
}

fryer-IsName : IsName python fryer.station_id
fryer-IsName = record {
  not_empty = refl;
  no_space = (refl, (refl, tt));
  no_comma = (refl, (refl, tt));
  no_colon = (refl, (refl, tt));
}

entries-AllNew : AllNew python [] (grill ∷ fryer ∷ [])
unfolding is_seen same_text
entries-AllNew = (grill-IsName, refl, (fryer-IsName, refl, tt))

parse_workers_config-print_entries_example :
    parse_workers_config python (print_entries python grill (fryer ∷ []))
    ≡ ok (workers_of python (grill ∷ fryer ∷ []))
parse_workers_config-print_entries_example =
    parse_workers_config-print_entries python python-Lawful grill (fryer ∷ []) entries-AllNew
