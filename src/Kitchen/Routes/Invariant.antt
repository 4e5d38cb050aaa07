-- ===== src/Kitchen/Routes/Invariant.antt =====
-- About sequences of the requests of services/kitchen-service/app/api/routes.py.
use dark_kitchen_simulator.Prelude.{
  ℕ, String, Option, some, none, List, [], ◌∷◌, ◌≡◌, refl, Bool, true, false,
}
use dark_kitchen_simulator.Prelude.Exec.{Result, ok, err, or_raise, ◌>>=◌}
use dark_kitchen_simulator.Kitchen.Models.{
  Error, World, not_found, domain, kitchen_not_found, station_not_found,
}
use dark_kitchen_simulator.Kitchen.Kds as Kds
use dark_kitchen_simulator.Kitchen.Session.{Env, Handler}
use dark_kitchen_simulator.Kitchen.Kds.{
  claim_begin, claim_finish, complete_begin, complete_finish, deliver_new,
}
use dark_kitchen_simulator.Kitchen.Stations as Stations
use dark_kitchen_simulator.Kitchen.Stations.{
  new_kitchen, new_station, insert_kitchen, insert_station, find_kitchen, has_kitchen, has_station,
}
use dark_kitchen_simulator.Kitchen.Listing as Listing
use dark_kitchen_simulator.Kitchen.Routes.{
  Request, create_kitchen, list_kitchens, get_kitchen, create_station, list_stations,
  update_station_capacity, update_station_status, dispatch_candidates, deliver_kds_task,
  list_kds_station_tasks, claim_kds_task, complete_kds_task, Response, respond, validated, handle,
  serve, kitchen_answer, station_answer, stations_answer, candidates_answer, delivery_answer,
  tasks_answer, claim_answer, complete_answer,
}
use dark_kitchen_simulator.Kitchen.Routes.Schemas.{
  accepts_kitchen, accepts_station, accepts_capacity, accepts_delivery, accepts_page, accepts_claim,
  accepts_complete,
}
use dark_kitchen_simulator.Kitchen.Routes.Valid.{IsValid, KeepsValid, Inv}
use dark_kitchen_simulator.Kitchen.Routes.Keeps.{
  claim_task-Keeps, complete_task-Keeps, deliver_task-Keeps, create_kitchen-Keeps,
  create_station-Keeps, get_kitchen-Keeps, list_stations-Keeps, list_station_tasks-Keeps,
  update_station_capacity-Keeps, update_station_status-Keeps,
}

-- What a route makes of a service keeps what the service keeps.
respond-keeps :
    {A : Type 0} (f : A → Response) (run : Result Error A × World)
    → Inv run.1
    → Inv (respond f run).1
respond-keeps f (ok a, w) h = h
respond-keeps f (err e, w) h = h

validated-keeps :
    (passes : Bool) (f : World → Response × World) (w : World)
    → Inv w
    → (passes ≡ true → Inv (f w).1)
    → Inv (validated passes f w).1
validated-keeps true f w inv h = h refl
validated-keeps false f w inv h = inv

parsed-keeps :
    {A : Type 0} (f : A → Response) (id : Option ℕ) (e : Error) (k : ℕ → Handler A) (w : World)
    → Inv w
    → ((n : ℕ) → Inv (k n w).1)
    → Inv (respond f ((or_raise id e >>= k) w)).1
parsed-keeps f none e k w inv h = inv
parsed-keeps f (some n) e k w inv h = respond-keeps f (k n w) (h n)

module _ (uuid : String → Option ℕ) (named : String → ℕ) (env : Env) (keeps : KeepsValid env)
    (corr : Option String) where
  handle-keeps : (r : Request) (w : World) → Inv w → Inv (handle uuid named env corr r w).1
  unfolding handle
  handle-keeps (create_kitchen p) w inv = validated-keeps (accepts_kitchen p) _ w inv (λ h.
      respond-keeps (kitchen_answer 201) (Stations.create_kitchen env.new_id env.now p w)
        (create_kitchen-Keeps env.new_id env.now p h w inv))
  handle-keeps list_kitchens w inv = unfold Stations.list_kitchens in inv
  handle-keeps (get_kitchen text) w inv =
      parsed-keeps (kitchen_answer 200) (uuid text) (not_found kitchen_not_found)
        (Stations.get_kitchen) w inv (λ k. get_kitchen-Keeps k w inv)
  handle-keeps (create_station text p) w inv = validated-keeps (accepts_station p) _ w inv (λ h.
      parsed-keeps (station_answer 201) (uuid text) (not_found kitchen_not_found)
        (λ k. Stations.create_station env.new_id env.now k p) w inv
        (λ k. create_station-Keeps env.new_id env.now k p h w inv))
  handle-keeps (list_stations text station_type) w inv =
      parsed-keeps stations_answer (uuid text) (not_found kitchen_not_found)
        (λ k. Stations.list_stations k station_type) w inv
        (λ k. list_stations-Keeps k station_type w inv)
  handle-keeps (update_station_capacity text capacity) w inv =
      validated-keeps (accepts_capacity capacity) _ w inv (λ h.
        parsed-keeps (station_answer 200) (uuid text) (not_found station_not_found)
          (λ k. Stations.update_station_capacity k capacity) w inv
          (λ k. update_station_capacity-Keeps k capacity h w inv))
  handle-keeps (update_station_status text status) w inv =
      parsed-keeps (station_answer 200) (uuid text) (not_found station_not_found)
        (λ k. Stations.update_station_status k status) w inv
        (λ k. update_station_status-Keeps k status w inv)
  handle-keeps (dispatch_candidates text station_type) w inv =
      parsed-keeps candidates_answer (uuid text) (not_found kitchen_not_found)
        (λ k. Kds.dispatch_candidates k station_type) w inv
        (λ k. unfold Kds.dispatch_candidates in inv)
  handle-keeps (deliver_kds_task text p) w inv = validated-keeps (accepts_delivery p) _ w inv (λ h.
      parsed-keeps delivery_answer (uuid text) (domain station_not_found 404)
        (λ k. Kds.deliver_task env k p corr) w inv
        (λ k. deliver_task-Keeps env keeps corr k p h w inv))
  handle-keeps (list_kds_station_tasks text status limit offset) w inv =
      validated-keeps (accepts_page limit) _ w inv (λ h.
        parsed-keeps tasks_answer (uuid text) (domain station_not_found 404)
          (λ k. Listing.list_station_tasks k status limit offset) w inv
          (λ k. list_station_tasks-Keeps k status limit offset w inv))
  handle-keeps (claim_kds_task text task p) w inv = validated-keeps (accepts_claim p) _ w inv (λ h.
      parsed-keeps claim_answer (uuid text) (domain station_not_found 404)
        (λ k. Kds.claim_task env k (named task) p corr) w inv
        (λ k. claim_task-Keeps env keeps corr k (named task) p w inv))
  handle-keeps (complete_kds_task text task p) w inv =
      validated-keeps (accepts_complete p) _ w inv (λ h.
        parsed-keeps complete_answer (uuid text) (domain station_not_found 404)
          (λ k. Kds.complete_task env k (named task) p corr) w inv
          (λ k. complete_task-Keeps env keeps corr k (named task) p w inv))

-- What is known of the requests of a sequence: what other requests commit beside them keeps the rows
-- valid.
abbrev pub AllKeepValid : List (Env × Option String × Request) → Type 0
AllKeepValid [] = Unit
AllKeepValid ((env, corr, r) ∷ rs) = KeepsValid env × AllKeepValid rs

-- Any sequence of requests, accepted or refused, leaves every kitchen and station with a name of 1 to
-- 120 characters, every station with a capacity and a limit of at least 1, every task with a positive
-- duration, and no displayed task with a claim, if this held before and what other requests commit
-- meanwhile keeps it.
pub serve-IsValid :
    (uuid : String → Option ℕ) (named : String → ℕ) (rs : List (Env × Option String × Request))
    (w : World)
    → AllKeepValid rs
    → IsValid w.db
    → IsValid (serve uuid named rs w).db
unfolding serve
serve-IsValid uuid named [] w keeps inv = inv
serve-IsValid uuid named ((env, corr, r) ∷ rs) w (k, keeps) inv =
    serve-IsValid uuid named rs (handle uuid named env corr r w).1 keeps
      (handle-keeps uuid named env k corr r w inv)
