-- ===== src/Floor/Counted.antt =====
-- About the tasks that services/station-simulator-service/app/simulator/worker.py counts as completed.
use dark_kitchen_simulator.Prelude.{
  ℕ, zero, suc, ◌+◌, ◌∷◌, ◌≡◌, ◌∙◌, ◌⊎◌, refl, inl, inr, String, Option, some, none, Bool, true,
  false, count, arith, Option-cases,
}
use dark_kitchen_simulator.Prelude.Exec.{Result, ok, err, Result-cases, >>=-post, ◌>>◌}
use dark_kitchen_simulator.Simulator.Kds as Kds
use dark_kitchen_simulator.Simulator.Kds.{
  KdsTask, CompleteResponse, KdsError, retryable, client_error, conflict, invalid_body,
}
use dark_kitchen_simulator.Simulator.Duration.{Floats}
use dark_kitchen_simulator.Simulator.Counts.{duration_of}
use dark_kitchen_simulator.Simulator.Worker.{
  World, Env, idle, cooking, polling, polls, claims, completes, sleeps, claim_attempts,
  claim_success, task_duration, update, count_completed, paused, select_displayed_task,
  complete_with_retry, rounds, cook, claim, poll, recover, run_once,
}
use dark_kitchen_simulator.Simulator.Retries.{
  is_completes, is_accepted, Stopped, complete_with_retry-Stopped,
}
use dark_kitchen_simulator.Floor.Turn.{selected, attempts_made}

module _ (fs : Floats) (env : Env fs) where
  -- The poll selects a task, and one of the attempts to complete it, the last that was made, was
  -- accepted.
  pub record Accepted (w w' : World fs) : Type 0 where
    pub task : KdsTask
    pub is_selected : selected (Kds.get_station_tasks env.poll_reply) ≡ some task
    pub before : ℕ
    pub answer : CompleteResponse
    pub accepted : Kds.complete_task (env.complete_reply (suc before)) ≡ ok answer
    pub made :
        count (is_completes fs env task.task_id) w'.actions
        ≡ count (is_completes fs env task.task_id) w.actions + suc before

  pub Accepted-attempts_made :
      (w w' : World fs) (task : KdsTask) (a : Accepted w w')
      → selected (Kds.get_station_tasks env.poll_reply) ≡ some task
      → attempts_made fs env task.task_id w w' ≡ suc a.before
  Accepted-attempts_made w w' task a e =
      let it : a.task ≡ task = ground (arith, a.is_selected, e) in rw (← it) (omega (arith, a.made))

  -- A step counts no task, or its last attempt was accepted.
  abbrev pub Counts : {A : Type 0} → World fs → Result String A × World fs → Type 0
  Counts w (r, w') =
      (w'.state.completed_tasks_count ≡ w.state.completed_tasks_count) ⊎ Accepted w w'

  -- A step from a world that differs in what is no attempt.
  later :
      {A : Type 0} (w w1 : World fs) (run : Result String A × World fs)
      → (w1.state.completed_tasks_count ≡ w.state.completed_tasks_count)
        × ((id : ℕ)
            → count (is_completes fs env id) w1.actions ≡ count (is_completes fs env id) w.actions)
      → Counts w1 run
      → Counts w run
  later w w1 run (same, none_made) (inl h) = inl (h ∙ same)
  later w w1 run (same, none_made) (inr a) = inr (record {
    task = a.task;
    is_selected = a.is_selected;
    before = a.before;
    answer = a.answer;
    accepted = a.accepted;
    made = rw (← none_made a.task.task_id) a.made;
  })

  rounds_keep :
      (id left attempt : ℕ) (last : Option String) (w : World fs)
      → (rounds fs env id left attempt last w).1.state.completed_tasks_count
        ≡ w.state.completed_tasks_count
  unfolding rounds
  rounds_keep id zero attempt last w = refl
  rounds_keep id (suc left) attempt last w =
      let w1 = paused fs env left (record w { actions = completes id ∷ w.actions }) in
      let e : w1.state.completed_tasks_count ≡ w.state.completed_tasks_count = ground arith in
      elim (Result-cases (Kds.complete_task (env.complete_reply attempt))) [
        | inl (a, h) ↦ rw h refl
        | inr (retryable text, h) ↦ rw h (rounds_keep id left (suc attempt) (some text) w1 ∙ e)
        | inr (client_error text, h) ↦ rw h (rounds_keep id left (suc attempt) (some text) w1 ∙ e)
        | inr (conflict text, h) ↦ rw h refl
        | inr (invalid_body, h) ↦ rw h refl
      ]

  retries_keep :
      (task : KdsTask) (w : World fs)
      → (complete_with_retry fs env task w).1.state.completed_tasks_count
        ≡ w.state.completed_tasks_count
  unfolding complete_with_retry
  retries_keep task w = rounds_keep task.task_id env.complete_retry_attempts 1 none w

  answer_of :
      (r : Result KdsError CompleteResponse)
      → is_accepted fs env r ≡ true
      → (a : CompleteResponse) × (r ≡ ok a)
  answer_of (ok a) h = (a, refl)
  answer_of (err e) h = cc

  -- The end of a turn whose retries are over.
  finish-Counts :
      (task : KdsTask) (w w' : World fs) (made : ℕ) (r : Result String Bool)
      → selected (Kds.get_station_tasks env.poll_reply) ≡ some task
      → Stopped fs env env.complete_retry_attempts 1 made r
      → count (is_completes fs env task.task_id) w'.actions
        ≡ count (is_completes fs env task.task_id) w.actions + made
      → w'.state.completed_tasks_count ≡ w.state.completed_tasks_count
      → (completed : Bool) → r ≡ ok completed
      → Counts w (
          (count_completed fs env completed
              >> update fs (λ state. record state { status = idle; current_task_id = none }))
            w')
  finish-Counts task w w' made r found s c keep false e = inl keep
  finish-Counts task w w' made r found s c keep true e =
      let (j, is_made, acc) = s.accepted_last e in
      let next : 1 + j ≡ suc j = omega arith in
      let (a, answered) = answer_of (Kds.complete_task (env.complete_reply (1 + j))) acc in
      inr (record {
        task = task;
        is_selected = found;
        before = j;
        answer = a;
        accepted = rw (← next) answered;
        made = unfold count in ground (arith, is_made, c);
      })

  cook-Counts :
      (task : KdsTask) (w : World fs)
      → selected (Kds.get_station_tasks env.poll_reply) ≡ some task
      → Counts w (cook fs env task w)
  unfolding cook count
  cook-Counts task w found = elim (Result-cases (duration_of fs env task)) [
    | inr (text, e) ↦ rw e (inl refl)
    | inl (d, e) ↦
        let w3 : World fs = record {
          state = record w.state { status = cooking; current_task_id = some task.task_id };
          actions = sleeps d ∷ task_duration d ∷ claim_success ∷ w.actions;
        } in
        let run = complete_with_retry fs env task w3 in
        let (made, s, c) = complete_with_retry-Stopped fs env task w3 in
        let keep = retries_keep task w3 in
        rw e (
          >>=-post (Counts w) run.0 run.1
            (λ completed.
              count_completed fs env completed
              >> update fs (λ state. record state { status = idle; current_task_id = none }))
            (finish-Counts task w run.1 made run.0 found s (ground (arith, c)) keep)
            (λ text f. inl keep))
  ]

  claim-Counts :
      (task : KdsTask) (w : World fs)
      → selected (Kds.get_station_tasks env.poll_reply) ≡ some task
      → Counts w (claim fs env task w)
  unfolding claim count
  claim-Counts task w found =
      let w1 : World fs = record w { actions = claims task.task_id ∷ claim_attempts ∷ w.actions } in
      elim (Result-cases (Kds.claim_task env.claim_reply)) [
        | inl (a, e) ↦ rw e (
            later w w1 (cook fs env task w1) (refl, λ id. ground arith) (cook-Counts task w1 found))
        | inr (retryable text, e) ↦ rw e (inl refl)
        | inr (client_error text, e) ↦ rw e (inl refl)
        | inr (conflict text, e) ↦ rw e (inl refl)
        | inr (invalid_body, e) ↦ rw e (inl refl)
      ]

  poll-Counts : (w : World fs) → Counts w (poll fs env w)
  unfolding poll count
  poll-Counts w =
      let w1 : World fs = record {
        state = record w.state { status = polling; last_poll_at = some env.now };
        actions = polls ∷ w.actions;
      } in
      elim (Result-cases (Kds.get_station_tasks env.poll_reply)) [
        | inl (tasks, e) ↦ elim (Option-cases (select_displayed_task tasks)) [
          | inl nothing ↦ rw (e, nothing) (inl refl)
          | inr (task, found) ↦
              rw (e, found)
                (later w w1 (claim fs env task w1) (refl, λ id. ground arith)
                  (claim-Counts task w1 (rw (e, found) refl)))
        ]
        | inr (retryable text, e) ↦ rw e (inl refl)
        | inr (client_error text, e) ↦ rw e (inl refl)
        | inr (conflict text, e) ↦ rw e (inl refl)
        | inr (invalid_body, e) ↦ rw e (inl refl)
      ]

  recover-Counts :
      (w : World fs) (run : Result String (Unit {0}) × World fs)
      → Counts w run
      → Counts {A = Unit {0}} w (ok tt, recover fs env run)
  unfolding count
  recover-Counts w (ok x, w') h = h
  recover-Counts w (err text, w') (inl same) = inl same
  recover-Counts w (err text, w') (inr a) = inr (record {
    task = a.task;
    is_selected = a.is_selected;
    before = a.before;
    answer = a.answer;
    accepted = a.accepted;
    made = ground (arith, a.made);
  })

  -- A turn counts no task as completed, or the poll selected one and the last attempt to complete it was
  -- accepted.
  pub run_once-Counts : (w : World fs) → Counts {A = Unit {0}} w (ok tt, run_once fs env w)
  unfolding run_once
  run_once-Counts w = recover-Counts w (poll fs env w) (poll-Counts w)
