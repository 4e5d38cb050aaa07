-- ===== src/Kitchen/Routes/Served.antt =====
-- About the responses that services/kitchen-service/app/api/routes.py and app/errors.py make of the outcomes
-- of class KitchenService.
use dark_kitchen_simulator.Prelude.{
  ℕ, Option, some, none, ◌≡◌, ◌⊎◌, refl, Bool, true, false, inl, inr, arith, Option-cases, select,
  ◌<◌, ◌==◌, ◌||◌,
}
use dark_kitchen_simulator.Prelude.Time.{Datetime}
use dark_kitchen_simulator.Prelude.Exec.{Result, ok, err, or_raise, ◌>>=◌}
use dark_kitchen_simulator.Kitchen.Models.{
  StationType, StationStatus, KdsTaskStatus, KitchenCreate, StationCreate, Error, World, domain,
  not_found, conflict, kitchen_not_found, kitchen_already_exists, station_already_exists,
  station_not_found,
}
use dark_kitchen_simulator.Kitchen.Repositories.{get_station}
use dark_kitchen_simulator.Kitchen.Kds as Kds
use dark_kitchen_simulator.Kitchen.Session.{Handler}
use dark_kitchen_simulator.Kitchen.Stations as Stations
use dark_kitchen_simulator.Prelude.Sort.{sort}
use dark_kitchen_simulator.Kitchen.Stations.{
  station_le, is_listed, find_kitchen, insert_kitchen, insert_station, new_kitchen, new_station,
}
use dark_kitchen_simulator.Kitchen.Stations.Registry.{FitsColumns}
use dark_kitchen_simulator.Kitchen.Listing as Listing
use dark_kitchen_simulator.Kitchen.Listing.{task_page}
use dark_kitchen_simulator.Kitchen.Routes.{
  Response, respond, validated, error_response, kitchen_answer, kitchens_answer, station_answer,
  stations_answer, candidates_answer, tasks_answer,
}

-- 200 and 201; 404, 409, 422 and 503.
abbrev pub is_success : ℕ → Bool
is_success status = status == 200 || status == 201

abbrev pub is_refusal : ℕ → Bool
is_refusal status = status == 404 || status == 409 || status == 422 || status == 503

-- A success, or a refusal that changes no table.
abbrev pub IsAnswered : World → Response × World → Type 0
IsAnswered w (r, w') =
    (is_success r.status ≡ true) ⊎ ((is_refusal r.status ≡ true) × (w'.db ≡ w.db))

-- How the exceptions of the services are answered.
abbrev pub IsRefused : World → Error → World → Type 0
IsRefused w e w' = (is_refusal (error_response e).status ≡ true) × (w'.db ≡ w.db)

-- What a route makes of the outcome of its service.
abbrev pub Served : {A : Type 0} → (A → Response) → World → Result Error A × World → Type 0
Served f w (ok a, w') = is_success (f a).status ≡ true
Served f w (err e, w') = IsRefused w e w'

pub respond-Served :
    {A : Type 0} (f : A → Response) (w : World) (run : Result Error A × World)
    → Served f w run
    → IsAnswered w (respond f run)
respond-Served f w (ok a, w') h = inl h
respond-Served f w (err e, w') h = inr h

pub validated-IsAnswered :
    (passes : Bool) (f : World → Response × World) (w : World)
    → IsAnswered w (f w)
    → IsAnswered w (validated passes f w)
validated-IsAnswered true f w h = h
validated-IsAnswered false f w h = inr (refl, refl)

-- A text that is no UUID is answered as an id that is not there.
pub parsed-IsAnswered :
    {A : Type 0} (f : A → Response) (id : Option ℕ) (e : Error) (k : ℕ → Handler A) (w : World)
    → is_refusal (error_response e).status ≡ true
    → ((n : ℕ) → Served f w (k n w))
    → IsAnswered w (respond f ((or_raise id e >>= k) w))
parsed-IsAnswered f none e k w refuses h = inr (refuses, refl)
parsed-IsAnswered f (some n) e k w refuses h = respond-Served f w (k n w) (h n)

pub ok-Served :
    {A : Type 0} (f : A → Response) (w : World) (run : Result Error A × World) (a : A)
    → run.0 ≡ ok a
    → is_success (f a).status ≡ true
    → Served f w run
ok-Served f w (ok a', w') a e h = let same : a' ≡ a = cc in rw same h
ok-Served f w (err x, w') a e h = cc

pub err-Served :
    {A : Type 0} (f : A → Response) (w : World) (run : Result Error A × World) (e : Error)
    → run.0 ≡ err e
    → run.1.db ≡ w.db
    → is_refusal (error_response e).status ≡ true
    → Served f w run
err-Served f w (ok a, w') e h d r = cc
err-Served f w (err x, w') e h d r = let same : x ≡ e = cc in rw same (r, d)

module _ (w : World) where
  pub create_kitchen-Served :
      (id : ℕ) (now : Datetime) (p : KitchenCreate)
      → Served (kitchen_answer 201) w (Stations.create_kitchen id now p w)
  unfolding Stations.create_kitchen error_response
  create_kitchen-Served id now p =
      let k = new_kitchen id now p in
      let run = Stations.create_kitchen id now p w in
      elim (Option-cases (insert_kitchen k w.db)) [
        | inr (db, e) ↦ ok-Served (kitchen_answer 201) w run k (ground arith) refl
        | inl clash ↦
            err-Served (kitchen_answer 201) w run (conflict kitchen_already_exists) (ground arith)
              (ground arith) refl
      ]

  pub get_kitchen-Served : (k : ℕ) → Served (kitchen_answer 200) w (Stations.get_kitchen k w)
  unfolding Stations.get_kitchen error_response
  get_kitchen-Served k = elim (Option-cases (find_kitchen k w.db)) [
    | inr (x, e) ↦ rw e refl
    | inl missing ↦ rw missing (refl, refl)
  ]

  pub create_station-Served :
      (id : ℕ) (now : Datetime) (k : ℕ) (p : StationCreate)
      → FitsColumns p
      → Served (station_answer 201) w (Stations.create_station id now k p w)
  unfolding Stations.create_station Stations.get_kitchen error_response
  create_station-Served id now k p fits =
      let a = fits.capacity_fits in
      let b = fits.limit_fits in
      let s = new_station id now k p in
      let run = Stations.create_station id now k p w in
      elim (Option-cases (find_kitchen k w.db)) [
        | inl missing ↦
            err-Served (station_answer 201) w run (not_found kitchen_not_found) (ground arith)
              (ground arith) refl
        | inr (x, f) ↦ elim (Option-cases (insert_station s w.db)) [
          | inr (db, e) ↦ ok-Served (station_answer 201) w run s (ground arith) refl
          | inl clash ↦
              err-Served (station_answer 201) w run (conflict station_already_exists) (ground arith)
                (ground arith) refl
        ]
      ]

  pub list_stations-Served :
      (k : ℕ) (station_type : Option StationType)
      → Served stations_answer w (Stations.list_stations k station_type w)
  unfolding Stations.list_stations Stations.get_kitchen error_response
  list_stations-Served k station_type = elim (Option-cases (find_kitchen k w.db)) [
    | inr (x, e) ↦
        ok-Served stations_answer w (Stations.list_stations k station_type w)
          (sort station_le (select (is_listed k station_type) w.db.stations)) (ground arith) refl
    | inl missing ↦
        err-Served stations_answer w (Stations.list_stations k station_type w)
          (not_found kitchen_not_found) (ground arith) (ground arith) refl
  ]

  pub update_station_capacity-Served :
      (k capacity : ℕ)
      → capacity < 2147483648
      → Served (station_answer 200) w (Stations.update_station_capacity k capacity w)
  unfolding Stations.update_station_capacity error_response
  update_station_capacity-Served k capacity fits = elim (Option-cases (get_station k w.db)) [
    | inr (x, e) ↦
        ok-Served (station_answer 200) w (Stations.update_station_capacity k capacity w)
          (record x { capacity = capacity }) (ground arith) refl
    | inl missing ↦
        err-Served (station_answer 200) w (Stations.update_station_capacity k capacity w)
          (not_found station_not_found) (ground arith) (ground arith) refl
  ]

  pub update_station_status-Served :
      (k : ℕ) (status : StationStatus)
      → Served (station_answer 200) w (Stations.update_station_status k status w)
  unfolding Stations.update_station_status error_response
  update_station_status-Served k status = elim (Option-cases (get_station k w.db)) [
    | inr (x, e) ↦
        ok-Served (station_answer 200) w (Stations.update_station_status k status w)
          (record x { status = status }) (ground arith) refl
    | inl missing ↦
        err-Served (station_answer 200) w (Stations.update_station_status k status w)
          (not_found station_not_found) (ground arith) (ground arith) refl
  ]

  pub list_kitchens-Served : Served kitchens_answer w (Stations.list_kitchens w)
  unfolding Stations.list_kitchens
  list_kitchens-Served = refl

  pub dispatch_candidates-Served :
      (k : ℕ) (station_type : StationType)
      → Served candidates_answer w (Kds.dispatch_candidates k station_type w)
  unfolding Kds.dispatch_candidates
  dispatch_candidates-Served k station_type = refl

  pub list_station_tasks-Served :
      (k : ℕ) (status : KdsTaskStatus) (limit offset : ℕ)
      → Served tasks_answer w (Listing.list_station_tasks k status limit offset w)
  unfolding Listing.list_station_tasks error_response
  list_station_tasks-Served k status limit offset = elim (Option-cases (get_station k w.db)) [
    | inr (x, e) ↦
        ok-Served tasks_answer w (Listing.list_station_tasks k status limit offset w)
          (task_page k status limit offset w.db) (ground arith) refl
    | inl missing ↦
        err-Served tasks_answer w (Listing.list_station_tasks k status limit offset w)
          (domain station_not_found 404) (ground arith) (ground arith) refl
  ]
