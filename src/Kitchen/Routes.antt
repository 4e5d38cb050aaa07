-- ===== src/Kitchen/Routes.antt =====
-- services/kitchen-service/app/api/routes.py with the error handlers of app/errors.py: the HTTP requests
-- of the service and their responses. The texts of a path are parsed by uuid.UUID, a parameter; the text
-- of a task's id is only compared, and stands for the number that the parameter `named` gives it.
pub mod Schemas
pub mod Served
pub mod Tasks
pub mod Valid
pub mod Storable
pub mod Keeps
pub mod Invariant
pub mod Answers
mod Tests
use dark_kitchen_simulator.Prelude.{
  ℕ, String, Option, none, some, List, [], ◌∷◌, Bool, true, false, map, if◌then◌else◌,
}
use dark_kitchen_simulator.Prelude.Exec.{Result, ok, err, or_raise, pure, ◌>>=◌}
use dark_kitchen_simulator.Kitchen.Models.{
  Kitchen, Station, KdsStationTask, StationType, StationStatus, KdsTaskStatus, KitchenCreate,
  StationCreate, KdsTaskDeliveryRequest, KdsTaskClaimRequest, KdsTaskCompleteRequest,
  DispatchCandidateResponse, Code, Error, World, not_found, conflict, domain, integrity_error,
  data_error, kitchen_not_found, station_not_found,
}
use dark_kitchen_simulator.Kitchen.Kds as Kds
use dark_kitchen_simulator.Kitchen.Session.{Env, Handler}
use dark_kitchen_simulator.Kitchen.Stations as Stations
use dark_kitchen_simulator.Kitchen.Listing as Listing
use Schemas.{
  KdsTaskDeliveryResponse, KdsStationTaskResponse, KdsTaskClaimResponse, KdsTaskCompleteResponse,
  kds_task_delivery_response, kds_station_task_response, kds_task_claim_response,
  kds_task_complete_response, accepts_kitchen, accepts_station, accepts_capacity, accepts_delivery,
  accepts_page, accepts_claim, accepts_complete,
}

-- The JSON of a response, by its model; `detail` and `error_body` are those of the error handlers.
pub data Body : Type 0 where
  kitchen_read : Kitchen → Body
  kitchens_read : List Kitchen → Body
  station_read : Station → Body
  stations_read : List Station → Body
  candidates_read : List DispatchCandidateResponse → Body
  delivery_read : KdsTaskDeliveryResponse → Body
  tasks_read : List KdsStationTaskResponse → Body
  claim_read : KdsTaskClaimResponse → Body
  complete_read : KdsTaskCompleteResponse → Body
  detail error_body : Code → Body
  validation_errors internal_error : Body

pub record Response : Type 0 where
  pub status : ℕ
  pub body : Body

-- The three handlers of app/errors.py; any other exception is a 500.
unfoldable pub error_response : Error → Response
error_response (not_found code) = record { status = 404; body = detail code }
error_response (conflict code) = record { status = 409; body = detail code }
error_response (domain code status_code) = record { status = status_code; body = error_body code }
error_response integrity_error = record { status = 500; body = internal_error }
error_response data_error = record { status = 500; body = internal_error }

-- A body that does not fit its model is a 500 too.
abbrev pub answer : ℕ → Option Body → Response
answer status none = record { status = 500; body = internal_error }
answer status (some body) = record { status = status; body = body }

abbrev pub respond : {A : Type 0} → (A → Response) → Result Error A × World → Response × World
respond f (ok a, w) = (f a, w)
respond f (err e, w) = (error_response e, w)

-- A request that FastAPI refuses before the handler.
abbrev pub validated : Bool → (World → Response × World) → World → Response × World
validated false f w = (record { status = 422; body = validation_errors }, w)
validated true f w = f w

-- The responses, by their models.
abbrev pub kitchen_answer : ℕ → Kitchen → Response
kitchen_answer status k = answer status (some (kitchen_read k))

abbrev pub kitchens_answer : List Kitchen → Response
kitchens_answer ks = answer 200 (some (kitchens_read ks))

abbrev pub station_answer : ℕ → Station → Response
station_answer status s = answer status (some (station_read s))

abbrev pub stations_answer : List Station → Response
stations_answer ss = answer 200 (some (stations_read ss))

abbrev pub candidates_answer : List DispatchCandidateResponse → Response
candidates_answer cs = answer 200 (some (candidates_read cs))

abbrev pub tasks_answer : List KdsStationTask → Response
tasks_answer ts = answer 200 (some (tasks_read (map kds_station_task_response ts)))

-- 200 for a task that was there before.
abbrev pub delivery_answer : KdsStationTask × Bool → Response
delivery_answer (task, created) =
    answer (if created then 201 else 200) (some (delivery_read (kds_task_delivery_response task)))

abbrev pub claim_body : Option KdsTaskClaimResponse → Option Body
claim_body none = none
claim_body (some r) = some (claim_read r)

abbrev pub complete_body : Option KdsTaskCompleteResponse → Option Body
complete_body none = none
complete_body (some r) = some (complete_read r)

abbrev pub claim_answer : KdsStationTask → Response
claim_answer t = answer 200 (claim_body (kds_task_claim_response t))

abbrev pub complete_answer : KdsStationTask → Response
complete_answer t = answer 200 (complete_body (kds_task_complete_response t))

-- The requests, with the texts of their paths and queries.
pub data Request : Type 0 where
  create_kitchen : KitchenCreate → Request
  list_kitchens : Request
  get_kitchen : String → Request
  create_station : String → StationCreate → Request
  list_stations : String → Option StationType → Request
  update_station_capacity : String → ℕ → Request
  update_station_status : String → StationStatus → Request
  dispatch_candidates : String → StationType → Request
  deliver_kds_task : String → KdsTaskDeliveryRequest → Request
  list_kds_station_tasks : String → KdsTaskStatus → ℕ → ℕ → Request
  claim_kds_task : String → String → KdsTaskClaimRequest → Request
  complete_kds_task : String → String → KdsTaskCompleteRequest → Request

module _ (uuid : String → Option ℕ) (named : String → ℕ) where
  abbrev pub parse_uuid : String → Code → Handler ℕ
  parse_uuid value code = or_raise (uuid value) (not_found code)

  abbrev pub parse_kds_station_uuid : String → Handler ℕ
  parse_kds_station_uuid value = or_raise (uuid value) (domain station_not_found 404)

  unfoldable pub handle : Env → Option String → Request → World → Response × World
  handle env corr (create_kitchen p) w =
      validated (accepts_kitchen p)
        (λ v. respond (kitchen_answer 201) (Stations.create_kitchen env.new_id env.now p v)) w
  handle env corr list_kitchens w = respond kitchens_answer (Stations.list_kitchens w)
  handle env corr (get_kitchen text) w =
      respond (kitchen_answer 200) ((parse_uuid text kitchen_not_found >>= Stations.get_kitchen) w)
  handle env corr (create_station text p) w =
      validated (accepts_station p)
        (λ v. respond (station_answer 201) (
          (parse_uuid text kitchen_not_found >>= λ kitchen_id.
          Stations.create_station env.new_id env.now kitchen_id p)
            v))
        w
  handle env corr (list_stations text station_type) w = respond stations_answer (
      (parse_uuid text kitchen_not_found >>= λ kitchen_id.
      Stations.list_stations kitchen_id station_type)
        w)
  handle env corr (update_station_capacity text capacity) w =
      validated (accepts_capacity capacity)
        (λ v. respond (station_answer 200) (
          (parse_uuid text station_not_found >>= λ station_id.
          Stations.update_station_capacity station_id capacity)
            v))
        w
  handle env corr (update_station_status text status) w = respond (station_answer 200) (
      (parse_uuid text station_not_found >>= λ station_id.
      Stations.update_station_status station_id status)
        w)
  handle env corr (dispatch_candidates text station_type) w = respond candidates_answer (
      (parse_uuid text kitchen_not_found >>= λ kitchen_id.
      Kds.dispatch_candidates kitchen_id station_type)
        w)
  handle env corr (deliver_kds_task text p) w =
      validated (accepts_delivery p)
        (λ v. respond delivery_answer (
          (parse_kds_station_uuid text >>= λ station_id. Kds.deliver_task env station_id p corr) v))
        w
  handle env corr (list_kds_station_tasks text status limit offset) w =
      validated (accepts_page limit)
        (λ v. respond tasks_answer (
          (parse_kds_station_uuid text >>= λ station_id.
          Listing.list_station_tasks station_id status limit offset)
            v))
        w
  handle env corr (claim_kds_task text task p) w =
      validated (accepts_claim p)
        (λ v. respond claim_answer (
          (parse_kds_station_uuid text >>= λ station_id.
          Kds.claim_task env station_id (named task) p corr)
            v))
        w
  handle env corr (complete_kds_task text task p) w =
      validated (accepts_complete p)
        (λ v. respond complete_answer (
          (parse_kds_station_uuid text >>= λ station_id.
          Kds.complete_task env station_id (named task) p corr)
            v))
        w

-- Requests one after the other, each with what surrounds it.
unfoldable pub serve :
    (String → Option ℕ) → (String → ℕ) → List (Env × Option String × Request) → World → World
serve uuid named [] w = w
serve uuid named ((env, corr, r) ∷ rs) w = serve uuid named rs (handle uuid named env corr r w).1
