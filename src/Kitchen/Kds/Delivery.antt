-- ===== src/Kitchen/Kds/Delivery.antt =====
-- About `deliver_task`, services/kitchen-service/app/services.py.
use dark_kitchen_simulator.Prelude.{
  ℕ, ◌≡◌, ◌≤◌, Bool, true, false, inl, inr, none, some, Option, arith, String, eq_iff, count,
  Option-cases,
}
use dark_kitchen_simulator.Prelude.Exec.{ok}
use dark_kitchen_simulator.Kitchen.Models.{Station, KdsStationTask, World, KdsTaskDeliveryRequest}
use dark_kitchen_simulator.Kitchen.Repositories.{
  find_by_key, get_by_idempotency_key, get_station, visible_backlog_size, create_task,
}
use dark_kitchen_simulator.Kitchen.Session.{Env}
use dark_kitchen_simulator.Kitchen.Kds.{deliver_task}
use dark_kitchen_simulator.Kitchen.Rules.{validate_delivery_station}

-- The task that a delivery returns is found by the delivery's key from then on.
delivered_found :
    (env : Env) (k : ℕ) (p : KdsTaskDeliveryRequest) (corr : Option String) (w : World)
    (t : KdsStationTask) (b : Bool)
    → (deliver_task env k p corr w).0 ≡ ok (t, b)
    → get_by_idempotency_key p.idempotency_key (deliver_task env k p corr w).1.db ≡ some t
unfolding deliver_task get_by_idempotency_key create_task find_by_key
delivered_found env k p corr w t b h = ground (arith, eq_iff p.idempotency_key p.idempotency_key)

redelivered :
    (env : Env) (k : ℕ) (p : KdsTaskDeliveryRequest) (corr : Option String) (w : World)
    (t : KdsStationTask)
    → get_by_idempotency_key p.idempotency_key w.db ≡ some t
    → deliver_task env k p corr w ≡ (ok (t, false), w)
unfolding deliver_task
redelivered env k p corr w t g = ground arith

-- Once a delivery has returned a task, any delivery with the same key, to whatever station and with
-- whatever else it says, returns that task as not created and changes nothing.
pub deliver_task-deliver_task :
    (env env' : Env) (k k' : ℕ) (p p' : KdsTaskDeliveryRequest) (corr corr' : Option String)
    (w : World) (t : KdsStationTask) (b : Bool)
    → (deliver_task env k p corr w).0 ≡ ok (t, b)
    → p'.idempotency_key ≡ p.idempotency_key
    → let w' = (deliver_task env k p corr w).1 in
      deliver_task env' k' p' corr' w' ≡ (ok (t, false), w')
deliver_task-deliver_task env env' k k' p p' corr corr' w t b h same =
    redelivered env' k' p' corr' (deliver_task env k p corr w).1 t
      (rw same (delivered_found env k p corr w t b h))

-- A delivery that creates a task found its station under the lock, the station passed its validation,
-- and the station's visible backlog is within its limit afterwards, if what other requests commit
-- before the insert does not add to that backlog.
pub deliver_task_within_limit :
    (env : Env) (k : ℕ) (p : KdsTaskDeliveryRequest) (corr : Option String) (w : World)
    (t : KdsStationTask)
    → ((v : World)
        → visible_backlog_size k (env.others_at_insert v).db ≤ visible_backlog_size k v.db)
    → (deliver_task env k p corr w).0 ≡ ok (t, true)
    → (s : Station) × (get_station k (env.others_at_lock w).db ≡ some s)
      × (validate_delivery_station s p ≡ none)
      × (visible_backlog_size k (deliver_task env k p corr w).1.db ≤ s.visible_backlog_limit)
deliver_task_within_limit env k p corr w t locked h =
    elim (Option-cases (get_station k (env.others_at_lock w).db)) [
      | inl missing ↦ absurd (unfold deliver_task in ground arith)
      | inr (s, f) ↦ (
        s,
        f,
        unfold deliver_task in ground arith,
        unfold deliver_task create_task visible_backlog_size count in
            ground (arith, locked (env.others_at_lock w)),
      )
    ]
