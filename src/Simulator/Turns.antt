-- ===== src/Simulator/Turns.antt =====
-- About the turns of a worker, services/station-simulator-service/app/simulator/worker.py.
use dark_kitchen_simulator.Prelude.{
  ◌≡◌, ◌⊎◌, refl, String, none, some, List, [], ◌∷◌, count, arith, inl, inr, Option-cases,
}
use dark_kitchen_simulator.Prelude.Exec.{Result, ok, err, Result-cases, ◌>>◌, >>=-post}
use dark_kitchen_simulator.Simulator.Kds as Kds
use dark_kitchen_simulator.Simulator.Kds.{
  KdsTask, KdsError, retryable, client_error, conflict, invalid_body,
}
use dark_kitchen_simulator.Simulator.Duration.{Floats}
use dark_kitchen_simulator.Simulator.Worker.{
  poll_errors, idle, error, polling, polls, cooking, claims, claim_attempts, sleeps, task_duration,
  claim_success, World, Env, complete_with_retry, cook, claim, poll, recover, run_once, turns,
  started, run, select_displayed_task, count_completed, update,
}
use dark_kitchen_simulator.Simulator.Counts.{
  Balanced, quiet-Balanced, poll-Balanced, finish-idle, duration_of,
}

module _ (fs : Floats) where
  module _ (env : Env fs) where
    -- A turn that returns leaves the worker idle.
    abbrev Settled : Result String (Unit {0}) × World fs → Type 0
    Settled (r, w) = (x : Unit {0}) → r ≡ ok x → w.state.status ≡ idle

    cook-Settled : (task : KdsTask) (w : World fs) → Settled (cook fs env task w)
    unfolding cook
    cook-Settled task w = elim (Result-cases (duration_of fs env task)) [
      | inr (text, e) ↦ rw e (λ x h. absurd (ground arith))
      | inl (d, e) ↦
          let w3 : World fs = record {
            state = record w.state { status = cooking; current_task_id = some task.task_id };
            actions = sleeps d ∷ task_duration d ∷ claim_success ∷ w.actions;
          } in
          let run = complete_with_retry fs env task w3 in
          rw e (
            >>=-post Settled run.0 run.1
              (λ completed.
                count_completed fs env completed
                >> update fs (λ state. record state { status = idle; current_task_id = none }))
              (λ completed f x h. finish-idle fs env completed run.1)
              (λ text f x h. absurd (ground arith)))
    ]

    claim-Settled : (task : KdsTask) (w : World fs) → Settled (claim fs env task w)
    unfolding claim
    claim-Settled task w =
        let w1 : World fs = record w {
          actions = claims task.task_id ∷ claim_attempts ∷ w.actions;
        } in
        elim (Result-cases (Kds.claim_task env.claim_reply)) [
          | inl (a, e) ↦ rw e (cook-Settled task w1)
          | inr (retryable text, e) ↦ rw e (λ x h. refl)
          | inr (client_error text, e) ↦ rw e (λ x h. refl)
          | inr (conflict text, e) ↦ rw e (λ x h. refl)
          | inr (invalid_body, e) ↦ rw e (λ x h. absurd (ground arith))
        ]

    poll-Settled : (w : World fs) → Settled (poll fs env w)
    unfolding poll
    poll-Settled w =
        let w1 : World fs = record {
          state = record w.state { status = polling; last_poll_at = some env.now };
          actions = polls ∷ w.actions;
        } in
        elim (Result-cases (Kds.get_station_tasks env.poll_reply)) [
          | inl (tasks, e) ↦ elim (Option-cases (select_displayed_task tasks)) [
            | inl nothing ↦ rw (e, nothing) (λ x h. refl)
            | inr (task, found) ↦ rw (e, found) (claim-Settled task w1)
          ]
          | inr (retryable text, e) ↦ rw e (λ x h. refl)
          | inr (client_error text, e) ↦ rw e (λ x h. refl)
          | inr (conflict text, e) ↦ rw e (λ x h. absurd (ground arith))
          | inr (invalid_body, e) ↦ rw e (λ x h. absurd (ground arith))
        ]

  -- Between two turns a worker is idle, or has met an error.
  abbrev pub IsWaiting : World fs → Type 0
  IsWaiting w = (w.state.status ≡ idle) ⊎ (w.state.status ≡ error)

  recover_at :
      (env : Env fs) (p : Result String (Unit {0}) × World fs)
      → Balanced fs p.1
      → Settled env p
      → Balanced fs (recover fs env p) × IsWaiting (recover fs env p)
  unfolding count
  recover_at env (ok x, w) h settled = (h, inl (settled x refl))
  recover_at env (err text, w) h settled =
      (quiet-Balanced fs (sleeps _ ∷ poll_errors _ ∷ []) _ w refl (refl, (refl, tt)) h, inr refl)

  turns-Balanced :
      (envs : List (Env fs)) (w : World fs)
      → Balanced fs w
      → IsWaiting w
      → Balanced fs (turns fs envs w) × IsWaiting (turns fs envs w)
  unfolding turns run_once
  turns-Balanced [] w h i = (h, i)
  turns-Balanced (env ∷ envs) w h i =
      let (h', i') =
        recover_at env (poll fs env w) (poll-Balanced fs env w h) (poll-Settled env w) in
      turns-Balanced envs (run_once fs env w) h' i'

  -- After any number of turns with any answers, a worker is idle or has met an error, its own count of
  -- completed tasks is that of the metric, it has completed no more tasks than it has claimed, and
  -- claimed no more than it has tried to, if this held when it started.
  pub run-Balanced :
      (envs : List (Env fs)) (w : World fs)
      → Balanced fs w
      → Balanced fs (run fs envs w) × IsWaiting (run fs envs w)
  unfolding run
  run-Balanced envs w h =
      turns-Balanced envs (started fs w)
        (record {
          counted = h.counted;
          completed_claimed = h.completed_claimed;
          claimed_tried = h.claimed_tried;
        })
        (inl refl)
