-- ===== src/Handoff/Tests.antt =====
-- The theorems about a claim across the services at concrete states, and its run.
use dark_kitchen_simulator.Prelude.{◌≡◌, refl, none, some, [], ◌∷◌, ◌≢◌, find, save, arith}
use dark_kitchen_simulator.Prelude.Exec.{ok, err}
use dark_kitchen_simulator.Prelude.Time.{aware}
use dark_kitchen_simulator.Fulfillment.Domain.{can_transition}
use dark_kitchen_simulator.Fulfillment.Models as Orders
use dark_kitchen_simulator.Fulfillment.Repositories.{get_task, get_order}
use dark_kitchen_simulator.Fulfillment.Schemas.{StartTaskResponse}
use dark_kitchen_simulator.Fulfillment.Transitions as Service
use dark_kitchen_simulator.Fulfillment.Responses.{start_response}
use dark_kitchen_simulator.Fulfillment.Transitions.{started_row}
use dark_kitchen_simulator.Fulfillment.Samples as Order
use dark_kitchen_simulator.Kitchen.Models.{
  World, KdsTaskClaimRequest, KdsStationTask, domain, fulfillment_service_unavailable, claimed,
}
use dark_kitchen_simulator.Kitchen.Client
use dark_kitchen_simulator.Kitchen.Samples.{
  station, task, world, env, env-IsSteady, accepted, claim, claimed_task,
}
use dark_kitchen_simulator.Kitchen.Repositories.{
  get_station, get_by_task_id, save_station, save_task,
}
use dark_kitchen_simulator.Kitchen.Kds.{claim_begin, claim_finish, claim_task, compensate_claim}
use dark_kitchen_simulator.Kitchen.Rules.{validate_claim, claimed_row}
use dark_kitchen_simulator.Kitchen.Kds.Exclusion.{Free}
use dark_kitchen_simulator.Kitchen.Kds.Compensated.{IsUnclaimed}
use dark_kitchen_simulator.Handoff.{answers, loses_reply, loses_request, start_body, claim_across}
use dark_kitchen_simulator.Handoff.Calls.{CooksAt}
use dark_kitchen_simulator.Handoff.Agreement.{claim_across_agrees, claim_across_atomic}
use dark_kitchen_simulator.Handoff.Recovery.{claim_across_recovers}

abbrev kitchen : World
kitchen = world (task ∷ [])

abbrev other : KdsTaskClaimRequest
other = record { station_worker_id = "v"; claimed_at = none }

abbrev orders : Orders.World
orders = Order.world Order.displayed []

across_run :
    (claim_across answers (env accepted) 4 10 claim none (kitchen, orders)).0 ≡ ok claimed_task
unfolding claim_across claim_task claim_begin claim_finish get_station find get_by_task_id
    validate_claim Client.start_task Client.post_transition Service.start_task get_task get_order
    can_transition
across_run = refl

claim_across_agrees_example :
    (claimed_task.status ≡ claimed)
    × (claimed_task.claimed_by ≡ some "w")
    × CooksAt 10 4 5 (claim_across answers (env accepted) 4 10 claim none (kitchen, orders)).2
claim_across_agrees_example =
    claim_across_agrees answers (env accepted) 4 10 claim none kitchen orders claimed_task
      across_run

unavailable_run :
    (claim_across loses_request (env accepted) 4 10 claim none (kitchen, orders)).0
    ≡ err (domain fulfillment_service_unavailable 503)
unfolding claim_across claim_task claim_begin claim_finish get_station find get_by_task_id
    validate_claim Client.start_task Client.post_transition compensate_claim save_station save_task
    save
unavailable_run = refl

not_lost : loses_request ≢ loses_reply
not_lost e = cc

kitchen-IsUnclaimed : (t : KdsStationTask) → get_by_task_id 10 kitchen.db ≡ some t → IsUnclaimed t
unfolding get_by_task_id find
kitchen-IsUnclaimed t h d = ground arith

claim_across_atomic_example :
    ((claim_across loses_request (env accepted) 4 10 claim none (kitchen, orders)).1.db
      ≡ kitchen.db)
    × ((claim_across loses_request (env accepted) 4 10 claim none (kitchen, orders)).2 ≡ orders)
claim_across_atomic_example =
    claim_across_atomic loses_request (env accepted) 4 10 claim none kitchen orders
      (domain fulfillment_service_unavailable 503) not_lost (env-IsSteady accepted) (λ v. refl)
      kitchen-IsUnclaimed unavailable_run

task-Free : Free 4 10 kitchen.db station task
unfolding get_station get_by_task_id find
task-Free = record {
  station_found = refl;
  task_found = refl;
  on_station = refl;
  is_available = refl;
  is_displayed = refl;
  has_room = omega arith;
}

abbrev started : StartTaskResponse
started =
    start_response (started_row (start_body (env accepted) claim task station) Order.displayed)

start_run :
    (Service.start_task 10 (start_body (env accepted) claim task station) orders).0 ≡ ok started
unfolding Service.start_task get_task get_order find can_transition
start_run = refl

claim_across_recovers_example :
    let (r, w', f') = claim_across loses_reply (env accepted) 4 10 claim none (kitchen, orders) in
    let (r', w'', f'') = claim_across answers (env accepted) 4 10 other none (w', f') in
    (r ≡ err (domain fulfillment_service_unavailable 503))
    × (w'.db ≡ kitchen.db)
    × CooksAt 10 4 5 f'
    × (r' ≡ ok (claimed_row other (aware 9) task))
    × (f'' ≡ f')
claim_across_recovers_example =
    claim_across_recovers (env accepted) (env accepted) 4 10 claim other none none kitchen orders
      station task started (env-IsSteady accepted) (λ v. refl) (λ v. refl) task-Free
      (λ d. (refl, refl)) start_run
