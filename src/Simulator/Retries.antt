-- ===== src/Simulator/Retries.antt =====
-- About the retries of a completion, services/station-simulator-service/app/simulator/worker.py.
use dark_kitchen_simulator.Prelude.{
  ℕ, zero, suc, ◌+◌, ◌≤◌, ◌<◌, ◌≡◌, refl, String, Bool, true, false, Option, none, some, ◌∷◌, count,
  arith, ◌==◌, inl, inr,
}
use dark_kitchen_simulator.Prelude.Exec.{Result, ok, err, Result-cases}
use dark_kitchen_simulator.Simulator.Kds as Kds
use dark_kitchen_simulator.Simulator.Kds.{
  KdsTask, CompleteResponse, KdsError, retryable, client_error, conflict, invalid_body,
}
use dark_kitchen_simulator.Simulator.Duration.{Floats}
use dark_kitchen_simulator.Simulator.Worker.{
  Action, completes, World, Env, paused, rounds, complete_with_retry,
}

module _ (fs : Floats) (env : Env fs) where
  abbrev pub is_completes : ℕ → Action fs → Bool
  is_completes id (completes x) = x == id
  is_completes id _ = false

  abbrev answer : ℕ → Result KdsError CompleteResponse
  answer attempt = Kds.complete_task (env.complete_reply attempt)

  abbrev pub is_accepted : Result KdsError CompleteResponse → Bool
  is_accepted (ok _) = true
  is_accepted (err _) = false

  -- What a run of rounds came to: it made `made` attempts, at most `left`.
  pub record Stopped (left first made : ℕ) (r : Result String Bool) : Type 0 where
    pub within : made ≤ left
    pub refused_before : (j : ℕ) → suc j < made → is_accepted (answer (first + j)) ≡ false
    pub accepted_last :
        r ≡ ok true → (j : ℕ) × (made ≡ suc j) × (is_accepted (answer (first + j)) ≡ true)
    pub exhausted :
        r ≡ ok false
        → (made ≡ left) × ((j : ℕ) → j < left → is_accepted (answer (first + j)) ≡ false)

  abbrev rounds_of : ℕ → ℕ → ℕ → Option String → World fs → Result String Bool × World fs
  rounds_of id left first last w = rounds fs env id left first last w

  shifted : (first j : ℕ) → suc first + j ≡ first + suc j
  shifted first j = omega arith

  refused_from :
      (first j : ℕ)
      → is_accepted (answer first) ≡ false
      → ((i : ℕ) → j ≡ suc i → is_accepted (answer (suc first + i)) ≡ false)
      → is_accepted (answer (first + j)) ≡ false
  refused_from first zero now later = let e : first + 0 ≡ first = omega arith in rw e now
  refused_from first (suc i) now later = rw (← shifted first i) (later i refl)

  -- A refused attempt, and the rounds after it.
  again-Stopped :
      (left first made : ℕ) (r : Result String Bool)
      → is_accepted (answer first) ≡ false
      → Stopped left (suc first) made r
      → Stopped (suc left) first (suc made) r
  again-Stopped left first made r refused s = record {
    within = omega (arith, s.within);
    refused_before =
        λ j lt. refused_from first j refused (λ i e. s.refused_before i (omega (arith, e, lt)));
    accepted_last =
        λ e. let (j, m, acc) = s.accepted_last e in (suc j, rw m refl, rw (← shifted first j) acc);
    exhausted = λ e.
        let (m, all) = s.exhausted e in
        (rw m refl, λ j lt. refused_from first j refused (λ i e'. all i (omega (arith, e', lt))));
  }

  raised-Stopped : (left first : ℕ) (text : String) → Stopped (suc left) first 1 (err text)
  raised-Stopped left first text = record {
    within = omega arith;
    refused_before = λ j lt. absurd (omega (arith, lt));
    accepted_last = λ h. absurd (ground arith);
    exhausted = λ h. absurd (ground arith);
  }

  -- The state in which the next round begins.
  abbrev next_world : ℕ → ℕ → World fs → World fs
  next_world id left w = paused fs env left (record w { actions = completes id ∷ w.actions })

  count-next_world :
      (id left : ℕ) (w : World fs)
      → count (is_completes id) (next_world id left w).actions
        ≡ count (is_completes id) w.actions + 1
  unfolding count
  count-next_world id zero w = ground arith
  count-next_world id (suc left) w = ground arith

  -- The attempts that the rounds make.
  rounds_stop :
      (id left first : ℕ) (last : Option String) (w : World fs)
      → (made : ℕ) × Stopped left first made (rounds_of id left first last w).0
        × (count (is_completes id) (rounds_of id left first last w).1.actions
            ≡ count (is_completes id) w.actions + made)
  unfolding rounds count
  rounds_stop id zero first last w = (
    0,
    record {
      within = omega arith;
      refused_before = λ j lt. absurd (omega (arith, lt));
      accepted_last = λ e. absurd (ground arith);
      exhausted = λ e. (refl, λ j lt. absurd (omega (arith, lt)));
    },
    ground arith,
  )
  rounds_stop id (suc left) first last w = elim (Result-cases (answer first)) [
    | inl (a, e) ↦ (
      1,
      record {
        within = omega arith;
        refused_before = λ j lt. absurd (omega (arith, lt));
        accepted_last = λ h. (0, refl, ground (arith, e));
        exhausted = λ h. absurd (ground arith);
      },
      ground arith,
    )
    | inr (retryable text, e) ↦
        let (made, s, c) = rounds_stop id left (suc first) (some text) (next_world id left w) in
        rw e (
          suc made,
          again-Stopped left first made _ (ground (arith, e)) s,
          omega (arith, c, count-next_world id left w),
        )
    | inr (client_error text, e) ↦
        let (made, s, c) = rounds_stop id left (suc first) (some text) (next_world id left w) in
        rw e (
          suc made,
          again-Stopped left first made _ (ground (arith, e)) s,
          omega (arith, c, count-next_world id left w),
        )
    | inr (conflict text, e) ↦ rw e (1, raised-Stopped left first _, ground arith)
    | inr (invalid_body, e) ↦ rw e (1, raised-Stopped left first _, ground arith)
  ]

  -- The completion of a task is tried at most as often as is configured, and ends: it stops at the
  -- first accepted attempt, and reports a failure only after all attempts were made and refused.
  pub complete_with_retry-Stopped :
      (task : KdsTask) (w : World fs)
      → let run = complete_with_retry fs env task w in
        (made : ℕ) × Stopped env.complete_retry_attempts 1 made run.0
        × (count (is_completes task.task_id) run.1.actions
            ≡ count (is_completes task.task_id) w.actions + made)
  unfolding complete_with_retry
  complete_with_retry-Stopped task w = rounds_stop task.task_id env.complete_retry_attempts 1 none w
