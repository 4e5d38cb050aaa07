-- ===== src/Menu/Service.antt =====
-- services/menu-service/app/services.py, class MenuService, with the repositories of
-- app/repositories.py and the responses of app/api/routes.py.
use dark_kitchen_simulator.Prelude.{
  ℕ, String, Option, none, some, List, [], ◌∷◌, map, Bool, true, false, ◌&&◌, ◌||◌, leb, ◌==◌,
  str_eq, find, select, take, drop, if◌then◌else◌,
}
use dark_kitchen_simulator.Prelude.Exec.{Exec, pure, gets, modify, or_raise, ◌>>=◌, ◌>>◌}
use dark_kitchen_simulator.Prelude.Sort.{sort}
use dark_kitchen_simulator.Prelude.Time.{Datetime}
use dark_kitchen_simulator.Menu.Models.{
  MenuItemStatus, active, disabled, MenuItem, KitchenMenuAvailability, RecipeStep, Db,
  MenuItemCreate, RecipeStepCreate, RecipeStepSummary, RecipeRead, AvailabilityUpsert,
  KitchenMenuItemRead, Error, menu_item_not_found, menu_item_already_exists,
  recipe_step_order_already_exists,
}

abbrev pub Handler : Type 0 → Type 0
Handler A = Exec Error Db A

-- What the database makes of a name: `lower`, and the order of its collation.
pub record Collation : Type 0 where
  pub lower : String → String
  pub name_le : String → String → Bool

abbrev pub item_key : MenuItem → ℕ
item_key item = item.id

-- The rows that the repositories add, with the values for `id` and `created_at`.
abbrev pub new_menu_item : ℕ → Datetime → MenuItemCreate → MenuItem
new_menu_item new_id now payload = record {
  id = new_id;
  name = payload.name;
  description = payload.description;
  status = payload.status;
  created_at = now;
}

abbrev pub new_recipe_step : ℕ → Datetime → ℕ → RecipeStepCreate → RecipeStep
new_recipe_step new_id now menu_item_id payload = record {
  id = new_id;
  menu_item_id = menu_item_id;
  station_type = payload.station_type;
  operation = payload.operation;
  duration_seconds = payload.duration_seconds;
  step_order = payload.step_order;
  created_at = now;
}

-- The unique constraints: the primary key, and the name in lower case.
abbrev pub clashes_item : Collation → MenuItem → MenuItem → Bool
clashes_item c item x = x.id == item.id || str_eq (c.lower x.name) (c.lower item.name)

-- The primary key, and the order within the item's recipe.
abbrev pub same_order : ℕ → ℕ → RecipeStep → Bool
same_order menu_item_id step_order x = x.menu_item_id == menu_item_id && x.step_order == step_order

abbrev pub clashes_step : RecipeStep → RecipeStep → Bool
clashes_step step x = x.id == step.id || same_order step.menu_item_id step.step_order x

unfoldable pub any {ℓ} : {A : Type ℓ} → (A → Bool) → List A → Bool
any p [] = false
any p (x ∷ xs) = p x || any p xs

-- The INSERTs: `none` is the IntegrityError of a unique constraint.
unfoldable pub insert_menu_item : Collation → MenuItem → Db → Option Db
insert_menu_item c item db =
    if any (clashes_item c item) db.menu_items
    then none
    else some (record db { menu_items = item ∷ db.menu_items })

unfoldable pub insert_recipe_step : RecipeStep → Db → Option Db
insert_recipe_step step db =
    if any (clashes_step step) db.recipe_steps
    then none
    else some (record db { recipe_steps = step ∷ db.recipe_steps })

unfoldable pub create_menu_item : Collation → ℕ → Datetime → MenuItemCreate → Handler MenuItem
create_menu_item c new_id now payload = do
  let item = new_menu_item new_id now payload
  created ← gets (insert_menu_item c item)
  db ← or_raise created menu_item_already_exists
  modify (λ _. db)
  pure item

abbrev pub same_status : MenuItemStatus → MenuItemStatus → Bool
same_status active active = true
same_status disabled disabled = true
same_status _ _ = false

abbrev pub has_status : Option MenuItemStatus → MenuItem → Bool
has_status none item = true
has_status (some status) item = same_status item.status status

-- ORDER BY MenuItem.name
abbrev pub item_le : Collation → MenuItem → MenuItem → Bool
item_le c a b = c.name_le a.name b.name

unfoldable pub list_menu_items : Collation → Option MenuItemStatus → ℕ → ℕ → Handler (List MenuItem)
list_menu_items c status limit offset = gets (λ (db : Db).
    take limit (drop offset (sort (item_le c) (select (has_status status) db.menu_items))))

unfoldable pub get_menu_item : ℕ → Handler MenuItem
get_menu_item menu_item_id = do
  found ← gets (λ (db : Db). find item_key menu_item_id db.menu_items)
  or_raise found menu_item_not_found

unfoldable pub create_recipe_step : ℕ → Datetime → ℕ → RecipeStepCreate → Handler RecipeStep
create_recipe_step new_id now menu_item_id payload = do
  item ← get_menu_item menu_item_id
  let step = new_recipe_step new_id now menu_item_id payload
  created ← gets (insert_recipe_step step)
  db ← or_raise created recipe_step_order_already_exists
  modify (λ _. db)
  pure step

abbrev pub step_le : RecipeStep → RecipeStep → Bool
step_le a b = leb a.step_order b.step_order

-- `list_by_menu_item`
abbrev pub of_menu_item : ℕ → RecipeStep → Bool
of_menu_item menu_item_id step = step.menu_item_id == menu_item_id

unfoldable pub list_by_menu_item : ℕ → Db → List RecipeStep
list_by_menu_item menu_item_id db =
    sort step_le (select (of_menu_item menu_item_id) db.recipe_steps)

abbrev pub step_summary : RecipeStep → RecipeStepSummary
step_summary step = record {
  id = step.id;
  station_type = step.station_type;
  operation = step.operation;
  duration_seconds = step.duration_seconds;
  step_order = step.step_order;
}

unfoldable pub get_recipe : ℕ → Handler RecipeRead
get_recipe menu_item_id = do
  item ← get_menu_item menu_item_id
  steps ← gets (list_by_menu_item menu_item_id)
  pure (record { menu_item_id = menu_item_id; steps = map step_summary steps })

-- The primary key of an availability.
abbrev pub same_place : ℕ → ℕ → KitchenMenuAvailability → Bool
same_place kitchen_id menu_item_id a = a.kitchen_id == kitchen_id && a.menu_item_id == menu_item_id

-- `AvailabilityRepository.upsert`: the row that it leaves, and the table.
unfoldable pub upsert :
    Datetime
    → ℕ
    → ℕ
    → AvailabilityUpsert
    → List KitchenMenuAvailability
    → KitchenMenuAvailability × List KitchenMenuAvailability
upsert now kitchen_id menu_item_id payload [] =
    let a : KitchenMenuAvailability = record {
      kitchen_id = kitchen_id;
      menu_item_id = menu_item_id;
      is_available = payload.is_available;
      created_at = now;
    } in
    (a, a ∷ [])
upsert now kitchen_id menu_item_id payload (x ∷ xs) =
    let rest = upsert now kitchen_id menu_item_id payload xs in
    let x' : KitchenMenuAvailability = record x { is_available = payload.is_available } in
    if same_place kitchen_id menu_item_id x then (x', x' ∷ xs) else (rest.0, x ∷ rest.1)

unfoldable pub upsert_availability :
    Datetime → ℕ → ℕ → AvailabilityUpsert → Handler KitchenMenuAvailability
upsert_availability now kitchen_id menu_item_id payload = do
  item ← get_menu_item menu_item_id
  written ← gets (λ (db : Db). upsert now kitchen_id menu_item_id payload db.availability)
  modify (λ (db : Db). record db { availability = written.1 })
  pure written.0

-- The join of a menu item: the first availability that the WHERE admits.
unfoldable pub joined : ℕ → Bool → ℕ → List KitchenMenuAvailability → Option KitchenMenuAvailability
joined kitchen_id include_unavailable menu_item_id [] = none
joined kitchen_id include_unavailable menu_item_id (x ∷ xs) =
    if same_place kitchen_id menu_item_id x && (include_unavailable || x.is_available)
    then some x
    else joined kitchen_id include_unavailable menu_item_id xs

abbrev pub menu_item_read : MenuItem → KitchenMenuAvailability → KitchenMenuItemRead
menu_item_read item a = record {
  id = item.id;
  name = item.name;
  description = item.description;
  status = item.status;
  is_available = a.is_available;
}

-- The responses of the active items that have an availability, in the items' order.
unfoldable pub menu_entries :
    ℕ → Bool → List KitchenMenuAvailability → List MenuItem → List KitchenMenuItemRead
menu_entries kitchen_id include_unavailable rows [] = []
menu_entries kitchen_id include_unavailable rows (item ∷ items) =
    let rest = menu_entries kitchen_id include_unavailable rows items in
    elim (joined kitchen_id include_unavailable item.id rows) [
      | none ↦ rest
      | some a ↦ if same_status item.status active then menu_item_read item a ∷ rest else rest
    ]

unfoldable pub list_kitchen_menu : Collation → ℕ → Bool → Handler (List KitchenMenuItemRead)
list_kitchen_menu c kitchen_id include_unavailable = gets (λ (db : Db).
    menu_entries kitchen_id include_unavailable db.availability (sort (item_le c) db.menu_items))
