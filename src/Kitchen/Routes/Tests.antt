-- ===== src/Kitchen/Routes/Tests.antt =====
-- The theorems about the routes of services/kitchen-service at concrete requests, and their runs.
use dark_kitchen_simulator.Prelude.{
  ℕ, refl, String, Option, none, some, List, [], ◌∷◌, str_eq, true, arith, if◌then◌else◌,
}
use dark_kitchen_simulator.Kitchen.Models.{KitchenCreate, StationCreate, grill}
use dark_kitchen_simulator.Kitchen.Client.{HttpReply}
use dark_kitchen_simulator.Kitchen.Session.{Env}
use dark_kitchen_simulator.Kitchen.System.{initial}
use dark_kitchen_simulator.Kitchen.Samples.{env, env-IsAtomic, accepted, claim, delivery}
use dark_kitchen_simulator.Kitchen.Routes.{
  Request, create_kitchen, create_station, deliver_kds_task, claim_kds_task, handle, serve,
}
use dark_kitchen_simulator.Kitchen.Routes.Valid.{IsValid, KeepsValid}
use dark_kitchen_simulator.Kitchen.Routes.Served.{IsAnswered}
use dark_kitchen_simulator.Kitchen.Routes.Invariant.{AllKeepValid, serve-IsValid}
use dark_kitchen_simulator.Kitchen.Routes.Storable.{AllStorable}
use dark_kitchen_simulator.Kitchen.Routes.Answers.{serve-IsAnswered}

-- The texts of these requests.
abbrev uuid : String → Option ℕ
uuid text = if str_eq text "four" then some 4 else if str_eq text "seven" then some 7 else none

abbrev named : String → ℕ
named text = if str_eq text "eleven" then 11 else 0

abbrev north : KitchenCreate
north = record { id = some 7; name = "north" }

abbrev grill_1 : StationCreate
grill_1 = record {
  id = some 4;
  name = "grill 1";
  station_type = grill;
  capacity = 1;
  visible_backlog_limit = 2;
}

abbrev requests : List (Env × Option String × Request)
requests =
    (env accepted, none, create_kitchen north)
    ∷ (env accepted, none, create_station "seven" grill_1)
    ∷ (env accepted, none, deliver_kds_task "four" delivery)
    ∷ []

env-KeepsValid : (reply : HttpReply) → KeepsValid (env reply)
env-KeepsValid reply = record { at_lock = λ w h. h; at_insert = λ w h. h; at_call = λ w h. h }

requests-AllKeepValid : AllKeepValid requests
requests-AllKeepValid =
    (env-KeepsValid accepted, (env-KeepsValid accepted, (env-KeepsValid accepted, tt)))

initial-IsValid : IsValid initial.world.db
initial-IsValid = record { kitchens_named = tt; stations_valid = tt; tasks_valid = tt }

serve-IsValid_example : IsValid (serve uuid named requests initial.world).db
serve-IsValid_example =
    serve-IsValid uuid named requests initial.world requests-AllKeepValid initial-IsValid

requests-AllStorable : AllStorable (λ s. true) requests
requests-AllStorable = (
  refl,
  (
    (refl, record { capacity_fits = omega arith; limit_fits = omega arith }),
    ((refl, refl, refl, omega arith, refl), tt),
  ),
)

serve-IsAnswered_example : IsAnswered (serve uuid named requests initial.world) (
    handle uuid named
      (env accepted)
      none
      (claim_kds_task "four" "eleven" claim)
      (serve uuid named requests initial.world))
serve-IsAnswered_example =
    serve-IsAnswered (λ s. true) uuid named requests initial.world (env accepted) none
      (claim_kds_task "four" "eleven" claim) requests-AllStorable (refl, refl, refl)
      requests-AllKeepValid initial-IsValid (env-IsAtomic accepted)
