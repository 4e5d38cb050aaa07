-- ===== src/Menu/Models.antt =====
-- services/menu-service/app/models.py and app/schemas.py: the tables and the requests; `updated_at` is
-- left out.
use dark_kitchen_simulator.Prelude.{ℕ, String, Option, List, Bool}
use dark_kitchen_simulator.Prelude.Time.{Datetime}

pub data MenuItemStatus : Type 0 where
  active disabled : MenuItemStatus

pub data StationType : Type 0 where
  grill fryer drinks packaging : StationType

pub record MenuItem : Type 0 where
  pub id : ℕ
  pub name : String
  pub description : Option String
  pub status : MenuItemStatus
  pub created_at : Datetime

pub record KitchenMenuAvailability : Type 0 where
  pub kitchen_id : ℕ
  pub menu_item_id : ℕ
  pub is_available : Bool
  pub created_at : Datetime

pub record RecipeStep : Type 0 where
  pub id : ℕ
  pub menu_item_id : ℕ
  pub station_type : StationType
  pub operation : String
  pub duration_seconds : ℕ
  pub step_order : ℕ
  pub created_at : Datetime

-- The tables.
pub record Db : Type 0 where
  pub menu_items : List MenuItem
  pub availability : List KitchenMenuAvailability
  pub recipe_steps : List RecipeStep

pub record MenuItemCreate : Type 0 where
  pub name : String
  pub description : Option String
  pub status : MenuItemStatus

pub record RecipeStepCreate : Type 0 where
  pub station_type : StationType
  pub operation : String
  pub duration_seconds : ℕ
  pub step_order : ℕ

pub record RecipeStepSummary : Type 0 where
  pub id : ℕ
  pub station_type : StationType
  pub operation : String
  pub duration_seconds : ℕ
  pub step_order : ℕ

pub record RecipeRead : Type 0 where
  pub menu_item_id : ℕ
  pub steps : List RecipeStepSummary

pub record AvailabilityUpsert : Type 0 where
  pub is_available : Bool

pub record KitchenMenuItemRead : Type 0 where
  pub id : ℕ
  pub name : String
  pub description : Option String
  pub status : MenuItemStatus
  pub is_available : Bool

-- `NotFoundError` and `ConflictError` of app/services.py, by their codes.
pub data Error : Type 0 where
  menu_item_not_found menu_item_already_exists recipe_step_order_already_exists : Error
