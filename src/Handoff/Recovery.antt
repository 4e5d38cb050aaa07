-- ===== src/Handoff/Recovery.antt =====
-- About a claim of services/kitchen-service/app/services.py after one whose call was answered too late.
use dark_kitchen_simulator.Prelude.{ℕ, String, Option, false, ◌≡◌, refl}
use dark_kitchen_simulator.Prelude.Exec.{ok, err}
use dark_kitchen_simulator.Fulfillment.Models as Orders
use dark_kitchen_simulator.Fulfillment.Schemas.{StartTaskResponse}
use dark_kitchen_simulator.Fulfillment.Transitions as Service
use dark_kitchen_simulator.Fulfillment.Transitions.{same_id, started_row}
use dark_kitchen_simulator.Kitchen.Models.{
  Station, KdsStationTask, KdsTaskClaimRequest, World, domain, fulfillment_service_unavailable,
}
use dark_kitchen_simulator.Kitchen.Client
use dark_kitchen_simulator.Kitchen.Client.{HttpReply, timeout, response}
use dark_kitchen_simulator.Kitchen.Rules.{claimed_row}
use dark_kitchen_simulator.Kitchen.Session.{Env, or_else}
use dark_kitchen_simulator.Kitchen.Kds.{claim_task}
use dark_kitchen_simulator.Kitchen.Kds.Exclusion.{Free}
use dark_kitchen_simulator.Kitchen.Kds.Compensated.{IsSteady, IsUnclaimed, claim_task_compensated}
use dark_kitchen_simulator.Handoff.{answers, loses_reply, start_body, claim_across}
use dark_kitchen_simulator.Kitchen.Kds.Granted.{claim_task_finishes}
use dark_kitchen_simulator.Handoff.Calls.{CooksAt, start-CooksAt, CooksAt-start, claim_across_begun}

-- If the fulfillment service accepts the start of a displayed task but its answer is lost, the claim
-- raises 503 and leaves the kitchen service's tables as under the lock, while the fulfillment service
-- cooks the task; a later claim at the station whose answer is not lost then returns, by any worker, and
-- does not change the fulfillment service. It is assumed that no other request commits during the first
-- call nor before the second claim's lock, and that the task named no claim.
pub claim_across_recovers :
    (env env' : Env) (k id : ℕ) (p p' : KdsTaskClaimRequest) (corr corr' : Option String)
    (w : World) (f : Orders.World) (s : Station) (t : KdsStationTask) (y : StartTaskResponse)
    → IsSteady env
    → ((v : World) → env.others_at_call v ≡ v)
    → ((v : World) → env'.others_at_lock v ≡ v)
    → Free k id (env.others_at_lock w).db s t
    → IsUnclaimed t
    → (Service.start_task t.task_id (start_body env p t s) f).0 ≡ ok y
    → let (r, w', f') = claim_across loses_reply env k id p corr (w, f) in
      let (r', w'', f'') = claim_across answers env' k id p' corr' (w', f') in
      (r ≡ err (domain fulfillment_service_unavailable 503))
      × (w'.db ≡ (env.others_at_lock w).db)
      × CooksAt t.task_id s.id t.id f'
      × (r' ≡ ok (claimed_row p' (or_else p'.claimed_at env'.now) t))
      × (f'' ≡ f')
unfolding Client.start_task Client.post_transition
claim_across_recovers env env' k id p p' corr corr' w f s t y steady alone no_wait free unclaimed
      h =
    let w1 = env.others_at_lock w in
    let first = claim_across_begun loses_reply env k id p corr w f s t free in
    let lost : Env = record env { reply = timeout } in
    let steady' : IsSteady lost = record {
      same_station = steady.same_station;
      same_task = steady.same_task;
    } in
    let (raised, back) =
      claim_task_compensated lost k id p corr w s t fulfillment_service_unavailable steady' alone
        free unclaimed refl in
    let f' = (Service.start_task t.task_id (start_body env p t s) f).1 in
    let cooks = start-CooksAt t.task_id (start_body env p t s) f y h in
    let w' = (claim_task lost k id p corr w).1 in
    let free' : Free k id (env'.others_at_lock w').db s t = rw (no_wait w', back) free in
    let second = claim_across_begun answers env' k id p' corr' w' f' s t free' in
    let (y', again) = CooksAt-start t.task_id (start_body env' p' t s) f' cooks in
    let env2 : Env = record env' { reply = response 200 false } in
    let done = claim_task_finishes env2 k id p' corr' w' s t free' refl in
    (
      rw first raised,
      rw first back,
      rw first cooks,
      rw (first, second, again) done,
      rw (first, second, again),
    )
