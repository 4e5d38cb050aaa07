-- ===== src/Menu/Constraints.antt =====
-- About the constraints of the tables of services/menu-service/app/models.py.
use dark_kitchen_simulator.Prelude.{ℕ, ◌≤◌, String, ◌==◌, count, str_eq}
use dark_kitchen_simulator.Menu.Models.{MenuItem, Db}
use dark_kitchen_simulator.Menu.Service.{Collation, same_order, same_place}

-- The tables satisfy their unique constraints.
pub record Consistent (c : Collation) (db : Db) : Type 0 where
  pub one_id : (i : ℕ) → count (λ (x : MenuItem). x.id == i) db.menu_items ≤ 1
  pub one_name :
      (n : String) → count (λ (x : MenuItem). str_eq (c.lower x.name) n) db.menu_items ≤ 1
  pub one_order : (i n : ℕ) → count (same_order i n) db.recipe_steps ≤ 1
  pub one_place : (k i : ℕ) → count (same_place k i) db.availability ≤ 1
