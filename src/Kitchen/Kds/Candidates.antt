-- ===== src/Kitchen/Kds/Candidates.antt =====
-- About the filter of `dispatch_candidates` of services/kitchen-service/app/repositories.py and the
-- guards of `deliver_task` of app/services.py.
use dark_kitchen_simulator.Prelude.{ℕ, ◌≡◌, ◌↔◌, true, none, some, Option, arith, String}
use dark_kitchen_simulator.Prelude.Exec.{ok}
use dark_kitchen_simulator.Kitchen.Models.{Station, World, KdsTaskDeliveryRequest}
use dark_kitchen_simulator.Kitchen.Repositories.{
  get_by_idempotency_key, get_by_task_id, get_station, visible_backlog_size, create_task, new_task,
  is_candidate,
}
use dark_kitchen_simulator.Kitchen.Session.{Env}
use dark_kitchen_simulator.Kitchen.Kds.{deliver_task}
use dark_kitchen_simulator.Kitchen.Rules.{validate_delivery_station}

-- If no other request commits while it waits, a delivery with a new key and a new task to a station
-- that is there creates the task exactly if the station passes the filter of the dispatch candidates
-- for the delivery's kitchen and type.
pub is_candidate_iff_delivered :
    (env : Env) (k : ℕ) (p : KdsTaskDeliveryRequest) (corr : Option String) (w : World)
    (s : Station)
    → ((v : World) → env.others_at_lock v ≡ v)
    → ((v : World) → env.others_at_insert v ≡ v)
    → get_station k w.db ≡ some s
    → get_by_idempotency_key p.idempotency_key w.db ≡ none
    → get_by_task_id p.task_id w.db ≡ none
    → (is_candidate p.kitchen_id p.station_type s (visible_backlog_size k w.db) ≡ true)
      ↔ ((deliver_task env k p corr w).0 ≡ ok (new_task env.new_id env.now k p, true))
unfolding deliver_task validate_delivery_station create_task
is_candidate_iff_delivered env k p corr w s alone alone' f g h =
    (λ c. ground (arith, alone w, alone' w), λ d. ground (arith, alone w, alone' w))
