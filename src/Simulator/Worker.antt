-- ===== src/Simulator/Worker.antt =====
-- services/station-simulator-service/app/simulator/worker.py, class VirtualWorker: one turn of its loop.
use dark_kitchen_simulator.Prelude.{
  ℕ, zero, suc, ◌+◌, String, Option, none, some, List, [], ◌∷◌, Bool, true, false, leb, str_eq,
  select,
}
use dark_kitchen_simulator.Prelude.Exec.{
  Result, ok, err, Exec, pure, raise, modify, lift, ◌>>=◌, ◌>>◌,
}
use dark_kitchen_simulator.Prelude.Sort.{sort}
use dark_kitchen_simulator.Prelude.Time.{Datetime, microseconds}
use dark_kitchen_simulator.Simulator.Kds as Kds
use dark_kitchen_simulator.Simulator.Kds.{
  KdsTask, ClaimResponse, CompleteResponse, HttpReply, KdsError, retryable, client_error, conflict,
  invalid_body,
}
use dark_kitchen_simulator.Simulator.Duration.{Floats, calculate_simulated_duration}

-- The values of `WorkerState.status` that a turn writes.
pub data WorkerStatus : Type 0 where
  starting idle polling cooking error : WorkerStatus

pub record WorkerState : Type 0 where
  pub worker_id : String
  pub station_id : String
  pub status : WorkerStatus
  pub current_task_id : Option ℕ
  pub last_error : Option String
  pub last_poll_at : Option Datetime
  pub completed_tasks_count : ℕ

module _ (fs : Floats) where
  -- What a worker does to the world outside.
  pub data Action : Type 0 where
    polls : Action
    claims completes : ℕ → Action
    sleeps : fs.Float → Action
    -- The observations of metrics.py.
    poll_errors claim_conflicts : String → Action
    claim_attempts claim_success completed_tasks : Action
    task_duration : fs.Float → Action

  pub record World : Type 0 where
    pub state : WorkerState
    pub actions : List Action

  -- The fields of the worker that do not change, and what the world answers in the turn.
  pub record Env : Type 0 where
    pub poll_interval_seconds : fs.Float
    pub speed_factor : fs.Float
    pub min_duration_factor : fs.Float
    pub max_duration_factor : fs.Float
    pub random_provider : fs.Float → fs.Float → fs.Float
    pub complete_retry_attempts : ℕ
    pub now : Datetime
    pub poll_reply : HttpReply (List KdsTask)
    pub claim_reply : HttpReply ClaimResponse
    pub complete_reply : ℕ → HttpReply CompleteResponse
    pub invalid_body_text : String

  -- A step raises `str(exc)` of an exception that `_run_once` does not catch.
  abbrev pub Step : Type 0 → Type 0
  Step A = Exec String World A

  abbrev pub act : Action → Step (Unit {0})
  act a = modify (λ (w : World). record w { actions = a ∷ w.actions })

  abbrev pub update : (WorkerState → WorkerState) → Step (Unit {0})
  update f = modify (λ (w : World). record w { state = f w.state })

  abbrev pub set_status : WorkerStatus → Step (Unit {0})
  set_status s = update (λ state. record state { status = s })

  abbrev pub set_last_error : String → Step (Unit {0})
  set_last_error e = update (λ state. record state { last_error = some e })

abbrev pub is_displayed : KdsTask → Bool
is_displayed task = str_eq task.status "displayed"

abbrev pub displayed_le : KdsTask → KdsTask → Bool
displayed_le a b = leb (microseconds a.displayed_at) (microseconds b.displayed_at)

abbrev pub first : List KdsTask → Option KdsTask
first [] = none
first (x ∷ xs) = some x

-- `_select_displayed_task`
unfoldable pub select_displayed_task : List KdsTask → Option KdsTask
select_displayed_task tasks = first (sort displayed_le (select is_displayed tasks))

module _ (fs : Floats) (env : Env fs) where
  -- `except (RetryableKdsError, KdsClientError)` of the poll and of the claim.
  abbrev pub give_up : String → Step fs (Unit {0})
  give_up text = do
    set_status fs idle
    set_last_error fs text
    act fs (poll_errors text)
    act fs (sleeps env.poll_interval_seconds)

  -- A pause, if there are attempts left.
  abbrev pub paused : ℕ → World fs → World fs
  paused zero w = w
  paused (suc left) w = record w { actions = sleeps env.poll_interval_seconds ∷ w.actions }

  -- The rounds of the `for`: `left` are to come, the first with this number.
  unfoldable pub rounds : ℕ → ℕ → ℕ → Option String → Step fs Bool
  rounds task_id zero attempt last_error = do
    set_last_error fs (elim last_error [ none ↦ "complete_failed" | some e ↦ e ])
    pure false
  rounds task_id (suc left) attempt last_error = do
    act fs (completes task_id)
    elim (Kds.complete_task (env.complete_reply attempt)) [
      | ok answer ↦ pure true
      | err (retryable e) ↦ modify (paused left) >> rounds task_id left (suc attempt) (some e)
      | err (client_error e) ↦ modify (paused left) >> rounds task_id left (suc attempt) (some e)
      | err (conflict e) ↦ raise e
      | err invalid_body ↦ raise env.invalid_body_text
    ]

  unfoldable pub complete_with_retry : KdsTask → Step fs Bool
  complete_with_retry task = rounds task.task_id env.complete_retry_attempts 1 none

  -- After the retries.
  abbrev pub count_completed : Bool → Step fs (Unit {0})
  count_completed false = pure tt
  count_completed true =
      update fs (λ state. record state { completed_tasks_count = state.completed_tasks_count + 1 })
      >> act fs completed_tasks

  -- From the accepted claim on.
  unfoldable pub cook : KdsTask → Step fs (Unit {0})
  cook task = do
    update fs (λ state. record state { status = cooking; current_task_id = some task.task_id })
    act fs claim_success
    duration ← lift (
        calculate_simulated_duration fs task.estimated_duration_seconds env.speed_factor
          env.min_duration_factor env.max_duration_factor env.random_provider)
    act fs (task_duration duration)
    act fs (sleeps duration)
    completed ← complete_with_retry task
    count_completed completed
    update fs (λ state. record state { status = idle; current_task_id = none })

  unfoldable pub claim : KdsTask → Step fs (Unit {0})
  claim task = do
    act fs claim_attempts
    act fs (claims task.task_id)
    elim (Kds.claim_task env.claim_reply) [
      | ok answer ↦ cook task
      | err (conflict reason) ↦ set_status fs idle >> act fs (claim_conflicts reason)
      | err (retryable e) ↦ give_up e
      | err (client_error e) ↦ give_up e
      | err invalid_body ↦ raise env.invalid_body_text
    ]

  abbrev pub claim_selected : Option KdsTask → Step fs (Unit {0})
  claim_selected none = set_status fs idle >> act fs (sleeps env.poll_interval_seconds)
  claim_selected (some task) = claim task

  -- `_run_once`
  unfoldable pub poll : Step fs (Unit {0})
  poll = do
    update fs (λ state. record state { status = polling; last_poll_at = some env.now })
    act fs polls
    elim (Kds.get_station_tasks env.poll_reply) [
      | ok tasks ↦ claim_selected (select_displayed_task tasks)
      | err (retryable e) ↦ give_up e
      | err (client_error e) ↦ give_up e
      | err (conflict e) ↦ raise e
      | err invalid_body ↦ raise env.invalid_body_text
    ]

  -- The handler of any other exception.
  abbrev pub recover : Result String (Unit {0}) × World fs → World fs
  recover (ok x, w) = w
  recover (err text, w) = record w {
    state = record w.state { status = error; last_error = some text };
    actions = sleeps env.poll_interval_seconds ∷ poll_errors "unexpected_error" ∷ w.actions;
  }

  unfoldable pub run_once : World fs → World fs
  run_once w = recover (poll w)

-- `run`: it becomes idle and takes turns until it is cancelled, here between two of them. Each turn
-- has the answers of its own.
unfoldable pub turns : (fs : Floats) → List (Env fs) → World fs → World fs
turns fs [] w = w
turns fs (env ∷ envs) w = turns fs envs (run_once fs env w)

abbrev pub started : (fs : Floats) → World fs → World fs
started fs w = record w { state = record w.state { status = idle } }

unfoldable pub run : (fs : Floats) → List (Env fs) → World fs → World fs
run fs envs w = turns fs envs (started fs w)
