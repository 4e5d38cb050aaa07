-- ===== src/Fulfillment/Builder.antt =====
-- services/fulfillment-service/app/task_builder.py: the tasks of an order, and what each waits for.
pub mod Chains
pub mod Steps
use dark_kitchen_simulator.Prelude.{
  ℕ, zero, suc, ◌+◌, ◌≡◌, Option, none, some, List, [], ◌∷◌, ◌++◌, leb, length, if◌then◌else◌,
}
use dark_kitchen_simulator.Prelude.Time.{Datetime}
use dark_kitchen_simulator.Fulfillment.Domain.{TaskStatus}
use dark_kitchen_simulator.Fulfillment.Models.{OrderItem, KitchenTask, TaskDependency}
use dark_kitchen_simulator.Fulfillment.Schemas.{RecipeStepSnapshot, RecipeSnapshot}

pub record BuiltTasks : Type 0 where
  pub tasks : List KitchenTask
  pub dependencies : List TaskDependency

-- sorted(steps, key=lambda step: step.step_order), which is stable
unfoldable pub insert_step : RecipeStepSnapshot → List RecipeStepSnapshot → List RecipeStepSnapshot
insert_step x [] = x ∷ []
insert_step x (y ∷ ys) = if leb x.step_order y.step_order then x ∷ y ∷ ys else y ∷ insert_step x ys

unfoldable pub sort_steps : List RecipeStepSnapshot → List RecipeStepSnapshot
sort_steps [] = []
sort_steps (x ∷ xs) = insert_step x (sort_steps xs)

-- The parameters: the results of `uuid4` in the order of its calls, and the time that the database
-- gives the rows.
module _ (uuid4 : ℕ → ℕ) (now : Datetime) (order_id : ℕ) where
  unfoldable pub new_task : ℕ → OrderItem → ℕ → RecipeStepSnapshot → KitchenTask
  new_task n item unit_index step = record {
    id = uuid4 n;
    order_id = order_id;
    order_item_id = item.id;
    menu_item_id = item.menu_item_id;
    station_type = step.station_type;
    station_id = none;
    kds_task_id = none;
    operation = step.operation;
    status = TaskStatus.created;
    estimated_duration_seconds = step.duration_seconds;
    displayed_at = none;
    started_at = none;
    sla_deadline_at = none;
    completed_at = none;
    actual_duration_seconds = none;
    delay_seconds = none;
    attempts = 0;
    queued_at = none;
    redis_stream = none;
    redis_message_id = none;
    recipe_step_order = step.step_order;
    item_unit_index = unit_index;
    created_at = now;
  }

  -- `if previous_task is not None`
  unfoldable pub link : Option KitchenTask → KitchenTask → List TaskDependency
  link none task = []
  link (some previous_task) task =
      record { task_id = task.id; depends_on_task_id = previous_task.id } ∷ []

  -- `for step in steps`, with `n` tasks built before
  unfoldable pub build_unit :
      OrderItem → ℕ → ℕ → Option KitchenTask → List RecipeStepSnapshot → BuiltTasks
  build_unit item unit_index n previous [] = record { tasks = []; dependencies = [] }
  build_unit item unit_index n previous (step ∷ steps) =
      let task = new_task n item unit_index step in
      let rest = build_unit item unit_index (suc n) (some task) steps in
      record { tasks = task ∷ rest.tasks; dependencies = link previous task ++ rest.dependencies }

  -- `for unit_index in range(1, order_item.quantity + 1)`: from `unit_index` on, `left` rounds
  unfoldable pub build_units : OrderItem → List RecipeStepSnapshot → ℕ → ℕ → ℕ → BuiltTasks
  build_units item steps unit_index n zero = record { tasks = []; dependencies = [] }
  build_units item steps unit_index n (suc left) =
      let unit = build_unit item unit_index n none steps in
      let rest = build_units item steps (suc unit_index) (n + length steps) left in
      record {
        tasks = unit.tasks ++ rest.tasks;
        dependencies = unit.dependencies ++ rest.dependencies;
      }

  abbrev pub prepend : BuiltTasks → Option BuiltTasks → Option BuiltTasks
  prepend item none = none
  prepend item (some rest) = some (record {
    tasks = item.tasks ++ rest.tasks;
    dependencies = item.dependencies ++ rest.dependencies;
  })

  -- `for order_item in order_items`; `none` is the KeyError at a menu item with no recipe
  unfoldable pub build : (ℕ → Option RecipeSnapshot) → ℕ → List OrderItem → Option BuiltTasks
  build recipes n [] = some (record { tasks = []; dependencies = [] })
  build recipes n (item ∷ items) = elim (recipes item.menu_item_id) [
    | none ↦ none
    | some recipe ↦
        let steps = sort_steps recipe.steps in
        let unit = build_units item steps 1 n item.quantity in
        prepend unit (build recipes (n + length unit.tasks) items)
  ]
