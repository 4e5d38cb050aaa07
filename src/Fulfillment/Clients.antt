-- ===== src/Fulfillment/Clients.antt =====
-- services/fulfillment-service/app/clients: what the calls of the kitchen and the menu service come to.
use dark_kitchen_simulator.Prelude.{
  ℕ, Bool, Option, none, some, List, [], ◌∷◌, leb, ◌==◌, str_eq, if◌then◌else◌,
}
use dark_kitchen_simulator.Prelude.Exec.{Result, ok, err}
use dark_kitchen_simulator.Fulfillment.Domain.{Error}
use dark_kitchen_simulator.Fulfillment.Schemas.{
  KitchenSnapshot, KitchenMenuItemSnapshot, RecipeSnapshot,
}

-- What `client.get` gives: an HTTPError, or a response with its status, whether its `raise_for_status`
-- raises, and the body, if the schema accepts it.
pub data HttpReply (A : Type 0) : Type 0 where
  http_error : HttpReply A
  response : ℕ → Bool → Option A → HttpReply A

-- `response.raise_for_status()` and the validation of the body, both with the same error
abbrev pub body_of : {A : Type 0} → Error → Bool → Option A → Result Error A
body_of e raises none = err e
body_of e raises (some a) = if raises then err e else ok a

abbrev pub is_active : KitchenSnapshot → Result Error KitchenSnapshot
is_active kitchen =
    if str_eq kitchen.status "active" then ok kitchen else err Error.kitchen_not_active

unfoldable pub get_kitchen : HttpReply KitchenSnapshot → Result Error KitchenSnapshot
get_kitchen http_error = err Error.kitchen_service_unavailable
get_kitchen (response status raises body) =
    if status == 404
    then err Error.kitchen_not_found
    else if leb 500 status
    then err Error.kitchen_service_unavailable
    else elim (body_of Error.kitchen_service_unavailable raises body) [
      | err e ↦ err e
      | ok kitchen ↦ is_active kitchen
    ]

unfoldable pub get_kitchen_menu :
    HttpReply (List KitchenMenuItemSnapshot) → Result Error (List KitchenMenuItemSnapshot)
get_kitchen_menu http_error = err Error.menu_service_unavailable
get_kitchen_menu (response status raises body) =
    if leb 500 status
    then err Error.menu_service_unavailable
    else body_of Error.menu_service_unavailable raises body

-- `if not recipe.steps`
abbrev pub with_steps : RecipeSnapshot → Result Error RecipeSnapshot
with_steps recipe = elim recipe.steps [
  | [] ↦ err Error.recipe_steps_not_found
  | step ∷ steps ↦ ok recipe
]

unfoldable pub get_recipe : HttpReply RecipeSnapshot → Result Error RecipeSnapshot
get_recipe http_error = err Error.menu_service_unavailable
get_recipe (response status raises body) =
    if status == 404
    then err Error.menu_item_not_found
    else if leb 500 status
    then err Error.menu_service_unavailable
    else elim (body_of Error.menu_service_unavailable raises body) [
      | err e ↦ err e
      | ok recipe ↦ with_steps recipe
    ]
