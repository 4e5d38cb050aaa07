-- ===== src/Kitchen/Routes/Tasks.antt =====
-- About the responses that services/kitchen-service/app/api/routes.py and app/errors.py make of the outcomes
-- of deliveries, claims and completions.
use dark_kitchen_simulator.Prelude.{
  ℕ, String, Option, some, none, ◌≡◌, refl, Bool, true, false, inl, inr, arith, Option-cases,
  Bool-cases, leb,
}
use dark_kitchen_simulator.Prelude.Exec.{Result}
use dark_kitchen_simulator.Kitchen.Models.{
  Station, KdsStationTask, KdsTaskDeliveryRequest, KdsTaskClaimRequest, KdsTaskCompleteRequest,
  Code, Error, World, domain, kds_task_already_exists, station_not_found,
  visible_backlog_limit_exceeded,
}
use dark_kitchen_simulator.Kitchen.Client
use dark_kitchen_simulator.Kitchen.Repositories.{
  get_station, get_by_task_id, create_task, new_task, get_by_idempotency_key, visible_backlog_size,
}
use dark_kitchen_simulator.Kitchen.Kds as Kds
use dark_kitchen_simulator.Kitchen.Session.{Env, or_else}
use dark_kitchen_simulator.Kitchen.Rules.{completed_row, code_status, validate_delivery_station}
use dark_kitchen_simulator.Kitchen.Kds.Compensated.{IsUnclaimed, claim_task_compensated}
use dark_kitchen_simulator.Kitchen.Kds.Granted.{
  IsRejection, claim_begin-cases, claim_task_refused, claim_task_finishes,
}
use dark_kitchen_simulator.Kitchen.Kds.Held.{
  complete_begin-cases, complete_task-Held, complete_task_refused, complete_finish-Held,
  complete_finish_failed,
}
use dark_kitchen_simulator.Kitchen.System.{IsAtomic}
use dark_kitchen_simulator.Kitchen.Routes.{
  error_response, delivery_answer, claim_answer, complete_answer,
}
use dark_kitchen_simulator.Kitchen.Routes.Served.{is_refusal, Served, ok-Served, err-Served}

module _ (env : Env) (atomic : IsAtomic env) (w : World) where
  module _ (k : ℕ) (p : KdsTaskDeliveryRequest) (corr : Option String) where
    abbrev run : Result Error (KdsStationTask × Bool) × World
    run = Kds.deliver_task env k p corr w

    abbrev added : KdsStationTask
    added = new_task env.new_id env.now k p

    -- Without interference a refused INSERT has a row to blame.
    inserted_at :
        (s : Station)
        → get_by_idempotency_key p.idempotency_key w.db ≡ none
        → get_station k w.db ≡ some s
        → validate_delivery_station s p ≡ none
        → leb s.visible_backlog_limit (visible_backlog_size k w.db) ≡ false
        → Served delivery_answer w run
    unfolding Kds.deliver_task create_task error_response
    inserted_at s fresh f passes room = elim (Option-cases (get_by_task_id p.task_id w.db)) [
      | inl new ↦
          ok-Served delivery_answer w run (added, true)
            (ground (arith, atomic.no_wait_at_lock w, atomic.no_wait_at_insert w)) refl
      | inr (t, taken) ↦
          err-Served delivery_answer w run (domain kds_task_already_exists 409)
            (ground (arith, atomic.no_wait_at_lock w, atomic.no_wait_at_insert w))
            (ground (arith, atomic.no_wait_at_lock w, atomic.no_wait_at_insert w)) refl
    ]

    pub deliver_task-Served : Served delivery_answer w run
    unfolding Kds.deliver_task error_response
    deliver_task-Served = elim (Option-cases (get_by_idempotency_key p.idempotency_key w.db)) [
      | inr (t, known) ↦ ok-Served delivery_answer w run (t, false) (ground arith) refl
      | inl fresh ↦ elim (Option-cases (get_station k w.db)) [
        | inl missing ↦
            err-Served delivery_answer w run (domain station_not_found 404)
              (ground (arith, atomic.no_wait_at_lock w)) (ground (arith, atomic.no_wait_at_lock w))
              refl
        | inr (s, f) ↦ elim (Option-cases (validate_delivery_station s p)) [
          | inr (code, refused) ↦
              err-Served delivery_answer w run (domain code 409)
                (ground (arith, atomic.no_wait_at_lock w))
                (ground (arith, atomic.no_wait_at_lock w)) refl
          | inl passes ↦
              elim (Bool-cases (leb s.visible_backlog_limit (visible_backlog_size k w.db))) [
                | inl full ↦
                    err-Served delivery_answer w run (domain visible_backlog_limit_exceeded 409)
                      (ground (arith, atomic.no_wait_at_lock w))
                      (ground (arith, atomic.no_wait_at_lock w)) refl
                | inr room ↦ inserted_at s fresh f passes room
              ]
        ]
      ]
    ]

  code_refuses : (code : Code) → is_refusal (code_status code) ≡ true
  code_refuses code = ground arith

  rejection-is_refusal : (e : Error) → IsRejection e → is_refusal (error_response e).status ≡ true
  unfolding error_response
  rejection-is_refusal e (code, inl h) = rw h refl
  rejection-is_refusal e (code, inr h) = rw h refl

  pub claim_task-Served :
      (k id : ℕ) (p : KdsTaskClaimRequest) (corr : Option String)
      → ((t : KdsStationTask) → get_by_task_id id w.db ≡ some t → IsUnclaimed t)
      → Served claim_answer w (Kds.claim_task env k id p corr w)
  unfolding error_response
  claim_task-Served k id p corr unclaimed =
      let run = Kds.claim_task env k id p corr w in
      let now = atomic.no_wait_at_lock w in
      elim (claim_begin-cases env k id p corr (env.others_at_lock w)) [
        | inr (e, kind, refused, same) ↦
            let (r, d) = claim_task_refused env k id p corr w e refused same in
            err-Served claim_answer w run e r (ground (arith, d, now)) (rejection-is_refusal e kind)
        | inl (s, t, free) ↦ elim (Option-cases (Client.start_task env.reply)) [
          | inl accepted ↦
              ok-Served claim_answer w run _
                (claim_task_finishes env k id p corr w s t free accepted) refl
          | inr (code, failed) ↦
              let found : get_by_task_id id w.db ≡ some t = rw (← now) free.task_found in
              let (r, d) =
                claim_task_compensated env k id p corr w s t code atomic.steady
                  atomic.no_wait_at_call free (unclaimed t found) failed in
              err-Served claim_answer w run (domain code (code_status code)) r
                (ground (arith, d, now)) (code_refuses code)
        ]
      ]

  pub complete_task-Served :
      (k id : ℕ) (p : KdsTaskCompleteRequest) (corr : Option String)
      → Served complete_answer w (Kds.complete_task env k id p corr w)
  unfolding error_response
  complete_task-Served k id p corr =
      let run = Kds.complete_task env k id p corr w in
      let w1 = env.others_at_lock w in
      let now = atomic.no_wait_at_lock w in
      elim (complete_begin-cases k id p w1) [
        | inr (e, kind, refused) ↦
            let r = complete_task_refused env k id p corr w e refused in
            err-Served complete_answer w run e (ground (arith, r)) (ground (arith, r, now))
              (rejection-is_refusal e kind)
        | inl (s, t, held) ↦
            let task = complete_task-Held env k id p corr w s t held in
            let alone = atomic.no_wait_at_call w1 in
            elim (Option-cases (Client.complete_task env.reply)) [
              | inl accepted ↦
                  let r =
                    complete_finish-Held env k id p corr t s w1 held (atomic.steady.same_station s)
                      (atomic.steady.same_task t) accepted in
                  ok-Served complete_answer w run (completed_row (or_else p.completed_at env.now) t)
                    (rw (task, alone) r) refl
              | inr (code, failed) ↦
                  let (r, d) = complete_finish_failed env k id p corr (t, s) w1 code failed in
                  err-Served complete_answer w run (domain code (code_status code))
                    (rw (task, alone) r) (ground (arith, task, alone, d, now)) (code_refuses code)
            ]
      ]
