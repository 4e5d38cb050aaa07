-- ===== src/Handoff/Agreement.antt =====
-- About what services/kitchen-service/app/services.py and services/fulfillment-service/app/services.py
-- agree on after a claim.
use dark_kitchen_simulator.Prelude.{
  ℕ, String, Option, some, ◌≡◌, ◌≢◌, refl, sym, inl, inr, arith, Option-cases,
}
use dark_kitchen_simulator.Prelude.Exec.{ok, err}
use dark_kitchen_simulator.Fulfillment.Models as Orders
use dark_kitchen_simulator.Kitchen.Models.{
  KdsStationTask, KdsTaskClaimRequest, World, Error, claimed,
}
use dark_kitchen_simulator.Kitchen.Repositories.{get_by_task_id}
use dark_kitchen_simulator.Kitchen.Session.{Env}
use dark_kitchen_simulator.Kitchen.Kds.{claim_task}
use dark_kitchen_simulator.Kitchen.Rules.{occupied}
use dark_kitchen_simulator.Kitchen.Kds.Exclusion.{
  row, claim_task_granted, found_task_id, found_station_id,
}
use dark_kitchen_simulator.Kitchen.Kds.Compensated.{IsSteady, IsUnclaimed, claim_task_compensated}
use dark_kitchen_simulator.Handoff.{Network, loses_reply, call_start, claim_across}
use dark_kitchen_simulator.Kitchen.Kds.Granted.{claim_begin-cases, claim_task_finishes}
use dark_kitchen_simulator.Handoff.Calls.{
  CooksAt, client_code, accepted_started, claim_across_begun, claim_across_refused,
  refused_unchanged,
}

-- A claim that returns has its task cooking in the fulfillment service, at the claiming station and
-- under the KDS task's id, whatever becomes of the call.
pub claim_across_agrees :
    (net : Network) (env : Env) (k id : ℕ) (p : KdsTaskClaimRequest) (corr : Option String)
    (w : World) (f : Orders.World) (x : KdsStationTask)
    → (claim_across net env k id p corr (w, f)).0 ≡ ok x
    → (x.status ≡ claimed)
      × (x.claimed_by ≡ some p.station_worker_id)
      × CooksAt id k x.id (claim_across net env k id p corr (w, f)).2
claim_across_agrees net env k id p corr w f x h =
    let w1 = env.others_at_lock w in
    elim (claim_begin-cases env k id p corr w1) [
      | inr (e, kind, refused, same) ↦
          let no = (claim_across_refused net env k id p corr w f e refused same).0 in
          absurd (ground arith)
      | inl (s, t, free) ↦
          let e = claim_across_begun net env k id p corr w f s t free in
          let r = row env k id p corr w1 s t in
          let env' : Env = record env { reply = (call_start net env p (r, occupied s) f).0 } in
          let returned : (claim_task env' k id p corr w).0 ≡ ok x = cc in
          let (_, _, _, _, accepted) = claim_task_granted env' k id p corr w x returned in
          let is_row : x ≡ r =
            ground (arith, claim_task_finishes env' k id p corr w s t free accepted, returned) in
          let cooks = accepted_started net env p r (occupied s) f accepted in
          (
            rw is_row refl,
            rw is_row refl,
            rw
                (
                  e,
                  is_row,
                  sym (found_task_id id w1.db t free.task_found),
                  sym (found_station_id k w1.db s free.station_found),
                )
                cooks,
          )
    ]

-- If the answer of the call is not lost, no other request commits during the call and a second SELECT
-- of a row shows the row, then a claim that raises leaves the kitchen service's tables as they were
-- under the lock and the fulfillment service as it was. A displayed task is assumed to name no claim.
pub claim_across_atomic :
    (net : Network) (env : Env) (k id : ℕ) (p : KdsTaskClaimRequest) (corr : Option String)
    (w : World) (f : Orders.World) (e : Error)
    → net ≢ loses_reply
    → IsSteady env
    → ((v : World) → env.others_at_call v ≡ v)
    → ((t : KdsStationTask) → get_by_task_id id (env.others_at_lock w).db ≡ some t → IsUnclaimed t)
    → (claim_across net env k id p corr (w, f)).0 ≡ err e
    → ((claim_across net env k id p corr (w, f)).1.db ≡ (env.others_at_lock w).db)
      × ((claim_across net env k id p corr (w, f)).2 ≡ f)
claim_across_atomic net env k id p corr w f e kept steady alone unclaimed h =
    let w1 = env.others_at_lock w in
    elim (claim_begin-cases env k id p corr w1) [
      | inr (e', kind, refused, same) ↦
          let (_, tables, orders) = claim_across_refused net env k id p corr w f e' refused same in
          (tables, orders)
      | inl (s, t, free) ↦
          let across = claim_across_begun net env k id p corr w f s t free in
          let r = row env k id p corr w1 s t in
          let env' : Env = record env { reply = (call_start net env p (r, occupied s) f).0 } in
          let steady' : IsSteady env' = record {
            same_station = steady.same_station;
            same_task = steady.same_task;
          } in
          elim (Option-cases (client_code net env p (r, occupied s) f)) [
            | inl accepted ↦
                let done = claim_task_finishes env' k id p corr w s t free accepted in
                absurd (ground (arith, across, done))
            | inr (code, failed) ↦
                let back =
                  claim_task_compensated env' k id p corr w s t code steady' alone free
                    (unclaimed t free.task_found) failed in
                (
                  rw across back.1,
                  rw across (refused_unchanged net env p r (occupied s) f code kept failed),
                )
          ]
    ]
