-- ===== src/Kitchen/Routes/Answers.antt =====
-- About the responses of services/kitchen-service/app/api/routes.py.
use dark_kitchen_simulator.Prelude.{List, ℕ, String, Bool, Option, some, ◌≡◌, refl}
use dark_kitchen_simulator.Kitchen.Models.{
  KdsStationTask, World, domain, not_found, kitchen_not_found, station_not_found,
}
use dark_kitchen_simulator.Kitchen.Repositories.{get_by_task_id}
use dark_kitchen_simulator.Kitchen.Kds as Kds
use dark_kitchen_simulator.Kitchen.Session.{Env}
use dark_kitchen_simulator.Kitchen.Kds.Compensated.{IsUnclaimed}
use dark_kitchen_simulator.Kitchen.Stations as Stations
use dark_kitchen_simulator.Kitchen.Stations.{
  station_le, is_listed, find_kitchen, insert_kitchen, insert_station, new_kitchen, new_station,
}
use dark_kitchen_simulator.Kitchen.Listing as Listing
use dark_kitchen_simulator.Kitchen.Listing.{task_page}
use dark_kitchen_simulator.Kitchen.System.{IsAtomic}
use dark_kitchen_simulator.Kitchen.Routes.{
  serve, Request, create_kitchen, list_kitchens, get_kitchen, create_station, list_stations,
  update_station_capacity, update_station_status, dispatch_candidates, deliver_kds_task,
  list_kds_station_tasks, claim_kds_task, complete_kds_task, error_response, handle, kitchen_answer,
  kitchens_answer, station_answer, stations_answer, candidates_answer, delivery_answer,
  tasks_answer, claim_answer, complete_answer,
}
use dark_kitchen_simulator.Kitchen.Routes.Schemas.{
  accepts_kitchen, accepts_station, accepts_capacity, accepts_delivery, accepts_page, accepts_claim,
  accepts_complete,
}
use dark_kitchen_simulator.Kitchen.Routes.Valid.{IsValid, task-IsValid}
use dark_kitchen_simulator.Kitchen.Routes.Storable.{IsStorable, AllStorable}
use dark_kitchen_simulator.Kitchen.Routes.Invariant.{AllKeepValid, serve-IsValid}
use dark_kitchen_simulator.Kitchen.Routes.Served.{
  IsAnswered, respond-Served, validated-IsAnswered, parsed-IsAnswered, create_kitchen-Served,
  get_kitchen-Served, create_station-Served, list_stations-Served, update_station_capacity-Served,
  update_station_status-Served, list_kitchens-Served, dispatch_candidates-Served,
  list_station_tasks-Served,
}
use dark_kitchen_simulator.Kitchen.Routes.Tasks.{
  deliver_task-Served, claim_task-Served, complete_task-Served,
}

module _ (takes_text : String → Bool) (env : Env) (atomic : IsAtomic env) (w : World) where
  handle-IsAnswered :
      (uuid : String → Option ℕ) (named : String → ℕ) (corr : Option String) (r : Request)
      → ((id : ℕ) (t : KdsStationTask) → get_by_task_id id w.db ≡ some t → IsUnclaimed t)
      → IsStorable takes_text r
      → IsAnswered w (handle uuid named env corr r w)
  unfolding handle error_response
  handle-IsAnswered uuid named corr (create_kitchen p) unclaimed storable =
      validated-IsAnswered (accepts_kitchen p) _ w (
        respond-Served (kitchen_answer 201) w (Stations.create_kitchen env.new_id env.now p w)
          (create_kitchen-Served w env.new_id env.now p))
  handle-IsAnswered uuid named corr list_kitchens unclaimed storable =
      respond-Served kitchens_answer w (Stations.list_kitchens w) (list_kitchens-Served w)
  handle-IsAnswered uuid named corr (get_kitchen text) unclaimed storable =
      parsed-IsAnswered (kitchen_answer 200) (uuid text) (not_found kitchen_not_found)
        (λ k. Stations.get_kitchen k) w refl (λ k. get_kitchen-Served w k)
  handle-IsAnswered uuid named corr (create_station text p) unclaimed storable =
      validated-IsAnswered (accepts_station p) _ w (
        parsed-IsAnswered (station_answer 201) (uuid text) (not_found kitchen_not_found)
          (λ k. Stations.create_station env.new_id env.now k p) w refl
          (λ k. create_station-Served w env.new_id env.now k p storable.1))
  handle-IsAnswered uuid named corr (list_stations text station_type) unclaimed storable =
      parsed-IsAnswered stations_answer (uuid text) (not_found kitchen_not_found)
        (λ k. Stations.list_stations k station_type) w refl
        (λ k. list_stations-Served w k station_type)
  handle-IsAnswered uuid named corr (update_station_capacity text capacity) unclaimed storable =
      validated-IsAnswered (accepts_capacity capacity) _ w (
        parsed-IsAnswered (station_answer 200) (uuid text) (not_found station_not_found)
          (λ k. Stations.update_station_capacity k capacity) w refl
          (λ k. update_station_capacity-Served w k capacity storable))
  handle-IsAnswered uuid named corr (update_station_status text status) unclaimed storable =
      parsed-IsAnswered (station_answer 200) (uuid text) (not_found station_not_found)
        (λ k. Stations.update_station_status k status) w refl
        (λ k. update_station_status-Served w k status)
  handle-IsAnswered uuid named corr (dispatch_candidates text station_type) unclaimed storable =
      parsed-IsAnswered candidates_answer (uuid text) (not_found kitchen_not_found)
        (λ k. Kds.dispatch_candidates k station_type) w refl
        (λ k. dispatch_candidates-Served w k station_type)
  handle-IsAnswered uuid named corr (deliver_kds_task text p) unclaimed storable =
      validated-IsAnswered (accepts_delivery p) _ w (
        parsed-IsAnswered delivery_answer (uuid text) (domain station_not_found 404)
          (λ k. Kds.deliver_task env k p corr) w refl
          (λ k. deliver_task-Served env atomic w k p corr))
  handle-IsAnswered uuid named corr (list_kds_station_tasks text status limit offset) unclaimed
        storable =
      validated-IsAnswered (accepts_page limit) _ w (
        parsed-IsAnswered tasks_answer (uuid text) (domain station_not_found 404)
          (λ k. Listing.list_station_tasks k status limit offset) w refl
          (λ k. list_station_tasks-Served w k status limit offset))
  handle-IsAnswered uuid named corr (claim_kds_task text task p) unclaimed storable =
      validated-IsAnswered (accepts_claim p) _ w (
        parsed-IsAnswered claim_answer (uuid text) (domain station_not_found 404)
          (λ k. Kds.claim_task env k (named task) p corr) w refl
          (λ k. claim_task-Served env atomic w k (named task) p corr (unclaimed (named task))))
  handle-IsAnswered uuid named corr (complete_kds_task text task p) unclaimed storable =
      validated-IsAnswered (accepts_complete p) _ w (
        parsed-IsAnswered complete_answer (uuid text) (domain station_not_found 404)
          (λ k. Kds.complete_task env k (named task) p corr) w refl
          (λ k. complete_task-Served env atomic w k (named task) p corr))

-- After any sequence of requests, a request is answered with 200 or 201, or with 404, 409, 422 or 503 and
-- then without a change of the tables; never with 500. All this is for requests whose values the
-- columns of PostgreSQL can hold and a database that does not fail otherwise. The tables are assumed
-- valid before the sequence, what other requests commit beside it to keep them so, and of the last request
-- that nobody else commits meanwhile and that a SELECT of an unchanged row shows it.
pub serve-IsAnswered :
    (takes_text : String → Bool) (uuid : String → Option ℕ) (named : String → ℕ)
    (rs : List (Env × Option String × Request)) (w : World) (env : Env) (corr : Option String)
    (r : Request)
    → AllStorable takes_text rs
    → IsStorable takes_text r
    → AllKeepValid rs
    → IsValid w.db
    → IsAtomic env
    → IsAnswered (serve uuid named rs w) (handle uuid named env corr r (serve uuid named rs w))
serve-IsAnswered takes_text uuid named rs w env corr r stored storable keeps valid atomic =
    let w' = serve uuid named rs w in
    handle-IsAnswered takes_text env atomic w' uuid named corr r
      (λ id t g. (task-IsValid w'.db id t (serve-IsValid uuid named rs w keeps valid) g).unclaimed)
      storable
