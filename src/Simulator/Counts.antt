-- ===== src/Simulator/Counts.antt =====
-- About what a turn of a worker counts, services/station-simulator-service/app/simulator/worker.py.
use dark_kitchen_simulator.Prelude.{
  ℕ, zero, suc, ◌+◌, ◌≤◌, ◌≡◌, refl, String, Bool, true, false, Option, none, some, List, [], ◌∷◌,
  All, ◌++◌, not, ◌||◌, count, arith, inl, inr, Option-cases,
}
use dark_kitchen_simulator.Prelude.Exec.{Result, Result-cases, ◌>>◌, >>=-post}
use dark_kitchen_simulator.Simulator.Kds as Kds
use dark_kitchen_simulator.Simulator.Kds.{
  KdsTask, KdsError, retryable, client_error, conflict, invalid_body,
}
use dark_kitchen_simulator.Simulator.Duration.{Floats, calculate_simulated_duration}
use dark_kitchen_simulator.Simulator.Worker.{
  WorkerState, idle, Action, polling, polls, poll_errors, claim_conflicts, cooking, claims,
  claim_attempts, sleeps, task_duration, claim_success, completed_tasks, completes, World, Env,
  paused, rounds, complete_with_retry, cook, claim, poll, select_displayed_task, count_completed,
  update,
}

module _ (fs : Floats) where
  abbrev pub is_claim : Action fs → Bool
  is_claim (claims id) = true
  is_claim _ = false

  abbrev pub is_success : Action fs → Bool
  is_success claim_success = true
  is_success _ = false

  abbrev pub is_completed : Action fs → Bool
  is_completed completed_tasks = true
  is_completed _ = false

  -- The worker's own count is the metric's, it has completed no more than it has claimed, and claimed
  -- no more than it has tried to.
  pub record Balanced (w : World fs) : Type 0 where
    pub counted : w.state.completed_tasks_count ≡ count is_completed w.actions
    pub completed_claimed : count is_completed w.actions ≤ count is_success w.actions
    pub claimed_tried : count is_success w.actions ≤ count is_claim w.actions

  -- An action that is no success and completes nothing.
  abbrev pub is_quiet : Action fs → Bool
  is_quiet a = not (is_success a || is_completed a)

  quiet_counts :
      (us bs : List (Action fs))
      → All (λ a. is_quiet a ≡ true) us
      → (count is_completed (us ++ bs) ≡ count is_completed bs)
        × (count is_success (us ++ bs) ≡ count is_success bs)
        × (count is_claim bs ≤ count is_claim (us ++ bs))
  unfolding count
  quiet_counts [] bs h = (refl, refl, omega arith)
  quiet_counts (u ∷ us) bs h = ground (arith, h.0, quiet_counts us bs h.1)

  pub quiet-Balanced :
      (us : List (Action fs)) (s : WorkerState) (w : World fs)
      → s.completed_tasks_count ≡ w.state.completed_tasks_count
      → All (λ a. is_quiet a ≡ true) us
      → Balanced w
      → Balanced (record { state = s; actions = us ++ w.actions })
  quiet-Balanced us s w e quiet h =
      let (completed, success, claim) = quiet_counts us w.actions quiet in
      record {
        counted = ground (arith, e, h.counted, completed);
        completed_claimed = omega (arith, h.completed_claimed, completed, success);
        claimed_tried = omega (arith, h.claimed_tried, success, claim);
      }

  -- The rounds of a completion count nothing.
  pub record SameCounts (a b : World fs) : Type 0 where
    pub same_count : b.state.completed_tasks_count ≡ a.state.completed_tasks_count
    pub same_completed : count is_completed b.actions ≡ count is_completed a.actions
    pub same_success : count is_success b.actions ≡ count is_success a.actions
    pub same_claims : count is_claim b.actions ≡ count is_claim a.actions

  SameCounts-trans : (a b c : World fs) → SameCounts a b → SameCounts b c → SameCounts a c
  SameCounts-trans a b c h k = record {
    same_count = ground arith;
    same_completed = ground arith;
    same_success = ground arith;
    same_claims = ground arith;
  }

  module _ (env : Env fs) where
    paused-SameCounts : (left : ℕ) (w : World fs) → SameCounts w (paused fs env left w)
    unfolding count
    paused-SameCounts zero w = record {
      same_count = refl;
      same_completed = refl;
      same_success = refl;
      same_claims = refl;
    }
    paused-SameCounts (suc left) w = record {
      same_count = refl;
      same_completed = ground arith;
      same_success = ground arith;
      same_claims = ground arith;
    }

    rounds-SameCounts :
        (id left first : ℕ) (last : Option String) (w : World fs)
        → SameCounts w (rounds fs env id left first last w).1
    unfolding rounds count
    rounds-SameCounts id zero first last w = record {
      same_count = refl;
      same_completed = refl;
      same_success = refl;
      same_claims = refl;
    }
    rounds-SameCounts id (suc left) first last w =
        let w1 : World fs = record w { actions = completes id ∷ w.actions } in
        let tried : SameCounts w w1 = record {
          same_count = refl;
          same_completed = ground arith;
          same_success = ground arith;
          same_claims = ground arith;
        } in
        let again = λ (text : String).
          SameCounts-trans w (paused fs env left w1) _
            (SameCounts-trans w w1 _ tried (paused-SameCounts left w1))
            (rounds-SameCounts id left (suc first) (some text) (paused fs env left w1)) in
        elim (Result-cases (Kds.complete_task (env.complete_reply first))) [
          | inl (a, e) ↦ rw e tried
          | inr (retryable text, e) ↦ rw e (again text)
          | inr (client_error text, e) ↦ rw e (again text)
          | inr (conflict text, e) ↦ rw e tried
          | inr (invalid_body, e) ↦ rw e tried
        ]

    complete_with_retry-SameCounts :
        (task : KdsTask) (w : World fs) → SameCounts w (complete_with_retry fs env task w).1
    unfolding complete_with_retry
    complete_with_retry-SameCounts task w =
        rounds-SameCounts task.task_id env.complete_retry_attempts 1 none w

    -- A claim was tried that has not succeeded yet.
    record Tried (w : World fs) : Type 0 where
      counted : w.state.completed_tasks_count ≡ count is_completed w.actions
      completed_claimed : count is_completed w.actions ≤ count is_success w.actions
      one_more : count is_success w.actions + 1 ≤ count is_claim w.actions

    -- The claim has succeeded, and is not counted as completed.
    record Cooked (w : World fs) : Type 0 where
      counted : w.state.completed_tasks_count ≡ count is_completed w.actions
      one_more : count is_completed w.actions + 1 ≤ count is_success w.actions
      claimed_tried : count is_success w.actions ≤ count is_claim w.actions

    Cooked-Balanced : (w : World fs) → Cooked w → Balanced w
    Cooked-Balanced w h = record {
      counted = h.counted;
      completed_claimed = omega (arith, h.one_more);
      claimed_tried = h.claimed_tried;
    }

    finish-Balanced :
        (completed : Bool) (w : World fs)
        → Cooked w
        → Balanced
            ((count_completed fs env completed
                >> update fs (λ state. record state { status = idle; current_task_id = none }))
              w).1
    unfolding count
    finish-Balanced false w h = record {
      counted = h.counted;
      completed_claimed = omega (arith, h.one_more);
      claimed_tried = h.claimed_tried;
    }
    finish-Balanced true w h = record {
      counted = ground (arith, h.counted);
      completed_claimed = ground (arith, h.one_more);
      claimed_tried = ground (arith, h.claimed_tried);
    }

    abbrev pub duration_of : KdsTask → Result String fs.Float
    duration_of task =
        calculate_simulated_duration fs task.estimated_duration_seconds env.speed_factor
          env.min_duration_factor env.max_duration_factor env.random_provider

    cook-Balanced : (task : KdsTask) (w : World fs) → Tried w → Balanced (cook fs env task w).1
    unfolding cook count
    cook-Balanced task w t = elim (Result-cases (duration_of task)) [
      | inr (text, e) ↦ rw e (record {
        counted = ground (arith, t.counted);
        completed_claimed = ground (arith, t.completed_claimed);
        claimed_tried = ground (arith, t.one_more);
      })
      | inl (d, e) ↦
          let w3 : World fs = record {
            state = record w.state { status = cooking; current_task_id = some task.task_id };
            actions = sleeps d ∷ task_duration d ∷ claim_success ∷ w.actions;
          } in
          let run = complete_with_retry fs env task w3 in
          let c = complete_with_retry-SameCounts task w3 in
          let cooked : Cooked run.1 = record {
            counted = ground (arith, t.counted, c.same_count, c.same_completed);
            one_more = ground (arith, t.completed_claimed, c.same_completed, c.same_success);
            claimed_tried = ground (arith, t.one_more, c.same_success, c.same_claims);
          } in
          rw e (
            >>=-post (λ p. Balanced p.1) run.0 run.1
              (λ completed.
                count_completed fs env completed
                >> update fs (λ state. record state { status = idle; current_task_id = none }))
              (λ completed f. finish-Balanced completed run.1 cooked)
              (λ text f. Cooked-Balanced run.1 cooked))
    ]

    pub finish-idle :
        (completed : Bool) (w : World fs)
        → ((count_completed fs env completed
              >> update fs (λ state. record state { status = idle; current_task_id = none }))
            w).1.state.status
          ≡ idle
    finish-idle false w = refl
    finish-idle true w = refl

    claim-Balanced : (task : KdsTask) (w : World fs) → Balanced w → Balanced (claim fs env task w).1
    unfolding claim count
    claim-Balanced task w h =
        let w1 : World fs = record w {
          actions = claims task.task_id ∷ claim_attempts ∷ w.actions;
        } in
        let tried : Tried w1 = record {
          counted = ground (arith, h.counted);
          completed_claimed = ground (arith, h.completed_claimed);
          one_more = ground (arith, h.claimed_tried);
        } in
        elim (Result-cases (Kds.claim_task env.claim_reply)) [
          | inl (a, e) ↦ rw e (cook-Balanced task w1 tried)
          | inr (retryable text, e) ↦ rw e (
              quiet-Balanced (sleeps _ ∷ poll_errors _ ∷ claims _ ∷ claim_attempts ∷ []) _ w refl
                (refl, (refl, (refl, (refl, tt)))) h)
          | inr (client_error text, e) ↦ rw e (
              quiet-Balanced (sleeps _ ∷ poll_errors _ ∷ claims _ ∷ claim_attempts ∷ []) _ w refl
                (refl, (refl, (refl, (refl, tt)))) h)
          | inr (conflict text, e) ↦ rw e (
              quiet-Balanced (claim_conflicts _ ∷ claims _ ∷ claim_attempts ∷ []) _ w refl
                (refl, (refl, (refl, tt))) h)
          | inr (invalid_body, e) ↦
              rw e (quiet-Balanced (claims _ ∷ claim_attempts ∷ []) _ w refl (refl, (refl, tt)) h)
        ]

    pub poll-Balanced : (w : World fs) → Balanced w → Balanced (poll fs env w).1
    unfolding poll count
    poll-Balanced w h =
        let w1 : World fs = record {
          state = record w.state { status = polling; last_poll_at = some env.now };
          actions = polls ∷ w.actions;
        } in
        let same : Balanced w1 = quiet-Balanced (polls ∷ []) _ w refl (refl, tt) h in
        elim (Result-cases (Kds.get_station_tasks env.poll_reply)) [
          | inl (tasks, e) ↦ elim (Option-cases (select_displayed_task tasks)) [
            | inl nothing ↦
                rw (e, nothing)
                  (quiet-Balanced (sleeps _ ∷ polls ∷ []) _ w refl (refl, (refl, tt)) h)
            | inr (task, found) ↦ rw (e, found) (claim-Balanced task w1 same)
          ]
          | inr (retryable text, e) ↦ rw e (
              quiet-Balanced (sleeps _ ∷ poll_errors _ ∷ polls ∷ []) _ w refl
                (refl, (refl, (refl, tt))) h)
          | inr (client_error text, e) ↦ rw e (
              quiet-Balanced (sleeps _ ∷ poll_errors _ ∷ polls ∷ []) _ w refl
                (refl, (refl, (refl, tt))) h)
          | inr (conflict text, e) ↦ rw e same
          | inr (invalid_body, e) ↦ rw e same
        ]
