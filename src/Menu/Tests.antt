-- ===== src/Menu/Tests.antt =====
-- The theorems about the menu service at concrete tables.
use dark_kitchen_simulator.Prelude.{
  ◌≡◌, refl, none, some, List, [], ◌∷◌, true, false, ◌&&◌, find, count, if◌then◌else◌, select,
  arith,
}
use dark_kitchen_simulator.Prelude.Exec.{ok}
use dark_kitchen_simulator.Prelude.Sort.{sort, insert}
use dark_kitchen_simulator.Prelude.Time.{aware}
use dark_kitchen_simulator.Menu.Models.{
  MenuItem, RecipeStep, RecipeRead, KitchenMenuItemRead, RecipeStepCreate, Db, active, grill, fryer,
}
use dark_kitchen_simulator.Menu.Service.{
  Collation, item_key, new_recipe_step, same_status, step_summary, get_recipe, get_menu_item,
  list_by_menu_item, list_kitchen_menu,
}
use dark_kitchen_simulator.Menu.Constraints.{Consistent}
use dark_kitchen_simulator.Menu.Availability.{
  Upsert, lookup, is_known, set_all, upsert_all, upsert_all-refines,
}
use dark_kitchen_simulator.Menu.Listing.{is_shown, is_entry, list_kitchen_menu_shows}

-- A database that compares names as they are, and keeps their table order.
abbrev collation : Collation
collation = record { lower = λ s. s; name_le = λ a b. true }

abbrev burger : MenuItem
burger = record {
  id = 3;
  name = "burger";
  description = none;
  status = active;
  created_at = aware 0;
}

abbrev fry_step : RecipeStepCreate
fry_step = record { station_type = fryer; operation = "fry"; duration_seconds = 60; step_order = 2 }

abbrev sear_step : RecipeStepCreate
sear_step = record {
  station_type = grill;
  operation = "sear";
  duration_seconds = 90;
  step_order = 1;
}

abbrev fry : RecipeStep
fry = new_recipe_step 20 (aware 1) 3 fry_step

abbrev sear : RecipeStep
sear = new_recipe_step 21 (aware 2) 3 sear_step

abbrev empty : Db
empty = record { menu_items = []; availability = []; recipe_steps = [] }

abbrev db : Db
db = record {
  menu_items = burger ∷ [];
  availability =
      record { kitchen_id = 7; menu_item_id = 3; is_available = true; created_at = aware 3 } ∷ [];
  recipe_steps = fry ∷ sear ∷ [];
}

db-Consistent : Consistent collation db
unfolding count
db-Consistent = record {
  one_id = λ i. ground arith;
  one_name = λ n. ground arith;
  one_order = λ i n. ground arith;
  one_place = λ k i. ground arith;
}

recipe_run :
    (get_recipe 3 db).0
    ≡ ok (record { menu_item_id = 3; steps = step_summary sear ∷ step_summary fry ∷ [] })
unfolding get_recipe get_menu_item list_by_menu_item find select sort insert
recipe_run = refl

abbrev recipe : RecipeRead
recipe = record { menu_item_id = 3; steps = step_summary sear ∷ step_summary fry ∷ [] }

abbrev upserts : List Upsert
upserts =
    record {
      now = aware 4;
      kitchen_id = 7;
      menu_item_id = 3;
      payload = record { is_available = false };
    }
    ∷ record {
      now = aware 5;
      kitchen_id = 8;
      menu_item_id = 9;
      payload = record { is_available = true };
    }
    ∷ record {
      now = aware 6;
      kitchen_id = 8;
      menu_item_id = 3;
      payload = record { is_available = true };
    }
    ∷ []

upsert_all-refines_example :
    lookup (upsert_all upserts db).availability
    ≡ set_all (is_known db.menu_items) upserts (lookup db.availability)
upsert_all-refines_example = upsert_all-refines upserts db

burger_run : find item_key 3 db.menu_items ≡ some burger
unfolding find
burger_run = refl

list_kitchen_menu_shows_example :
    (entries : List KitchenMenuItemRead) × (list_kitchen_menu collation 7 false db
      ≡ (ok entries, db))
    × (count (is_entry 3 true) entries ≡ (
        if same_status burger.status active && is_shown false true (lookup db.availability 7 3)
        then 1
        else 0))
list_kitchen_menu_shows_example =
    list_kitchen_menu_shows collation 7 false db 3 burger true db-Consistent burger_run
