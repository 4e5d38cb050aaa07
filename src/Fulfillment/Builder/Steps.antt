-- ===== src/Fulfillment/Builder/Steps.antt =====
-- What the tasks that `TaskBuilder.build` of services/fulfillment-service/app/task_builder.py makes are
-- for, and which of them wait for which.
use mathlib.Core.Path.{subst}
use mathlib.Core.Option.{some-injective}
use dark_kitchen_simulator.Prelude.{
  ℕ, zero, suc, ◌+◌, ◌*◌, ◌≡◌, refl, ap, Bool, String, Option, none, some, List, [], ◌∷◌, ◌++◌,
  arith, length, map, leb, Option-cases, inl, inr,
}
use dark_kitchen_simulator.Prelude.Sort.{sort, insert}
use dark_kitchen_simulator.Prelude.Time.{Datetime}
use dark_kitchen_simulator.Fulfillment.Models.{OrderItem, KitchenTask, TaskDependency}
use dark_kitchen_simulator.Fulfillment.Schemas.{RecipeStepSnapshot, RecipeSnapshot}
use dark_kitchen_simulator.Fulfillment.Builder.{
  BuiltTasks, insert_step, sort_steps, new_task, link, build_unit, build_units, build, prepend,
}
use dark_kitchen_simulator.Fulfillment.Builder.Chains.{
  Numbered, build_units-Built, build-Built, length-sort_steps,
}

-- What a task is for: a step of a unit of an item.
pub record Work : Type 0 where
  pub order_item_id : ℕ
  pub menu_item_id : ℕ
  pub item_unit_index : ℕ
  pub recipe_step_order : ℕ
  pub station_type : String
  pub operation : String
  pub estimated_duration_seconds : ℕ

abbrev pub work_of : KitchenTask → Work
work_of t = record {
  order_item_id = t.order_item_id;
  menu_item_id = t.menu_item_id;
  item_unit_index = t.item_unit_index;
  recipe_step_order = t.recipe_step_order;
  station_type = t.station_type;
  operation = t.operation;
  estimated_duration_seconds = t.estimated_duration_seconds;
}

abbrev pub step_work : OrderItem → ℕ → RecipeStepSnapshot → Work
step_work item unit step = record {
  order_item_id = item.id;
  menu_item_id = item.menu_item_id;
  item_unit_index = unit;
  recipe_step_order = step.step_order;
  station_type = step.station_type;
  operation = step.operation;
  estimated_duration_seconds = step.duration_seconds;
}

abbrev pub step_le : RecipeStepSnapshot → RecipeStepSnapshot → Bool
step_le a b = leb a.step_order b.step_order

-- The work of so many units from one on, and of all items: each step of the recipe once per unit, by the
-- order of the steps.
abbrev pub units_work : OrderItem → List RecipeStepSnapshot → ℕ → ℕ → List Work
units_work item steps unit zero = []
units_work item steps unit (suc left) =
    map (step_work item unit) steps ++ units_work item steps (suc unit) left

abbrev pub all_work : (ℕ → Option RecipeSnapshot) → List OrderItem → List Work
all_work recipes [] = []
all_work recipes (item ∷ items) = elim (recipes item.menu_item_id) [
  | none ↦ []
  | some recipe ↦
      units_work item (sort step_le recipe.steps) 1 item.quantity ++ all_work recipes items
]

insert_step_lem :
    (x : RecipeStepSnapshot) (ys : List RecipeStepSnapshot) → insert_step x ys ≡ insert step_le x ys
unfolding insert_step insert
insert_step_lem x [] = refl
insert_step_lem x (y ∷ ys) = ground (arith, insert_step_lem x ys)

sort_steps_lem : (xs : List RecipeStepSnapshot) → sort_steps xs ≡ sort step_le xs
unfolding sort_steps sort
sort_steps_lem [] = refl
sort_steps_lem (x ∷ xs) = rw (sort_steps_lem xs) (insert_step_lem x (sort step_le xs))

map_append {ℓ κ} :
    {A : Type ℓ} {B : Type κ} (f : A → B) (xs ys : List A) → map f (xs ++ ys) ≡ map f xs ++ map f ys
map_append f [] ys = refl
map_append f (x ∷ xs) ys = ap (λ zs. f x ∷ zs) (map_append f xs ys)

module _ (uuid4 : ℕ → ℕ) where
  -- A chain of tasks, each waiting for the one before: that many, the first with the `n`th id.
  abbrev pub chain : ℕ → ℕ → List TaskDependency
  chain n zero = []
  chain n (suc zero) = []
  chain n (suc (suc left)) =
      record { task_id = uuid4 (suc n); depends_on_task_id = uuid4 n } ∷ chain (suc n) (suc left)

  -- A chain for each unit, and for all units of all items.
  abbrev pub unit_chains : ℕ → ℕ → ℕ → List TaskDependency
  unit_chains n steps zero = []
  unit_chains n steps (suc left) = chain n steps ++ unit_chains (n + steps) steps left

  abbrev pub all_chains : (ℕ → Option RecipeSnapshot) → ℕ → List OrderItem → List TaskDependency
  all_chains recipes n [] = []
  all_chains recipes n (item ∷ items) = elim (recipes item.menu_item_id) [
    | none ↦ []
    | some recipe ↦
        unit_chains n (length recipe.steps) item.quantity
        ++ all_chains recipes (n + item.quantity * length recipe.steps) items
  ]

module _ (uuid4 : ℕ → ℕ) (now : Datetime) (order_id : ℕ) where
  unit_work :
      (item : OrderItem) (u n : ℕ) (previous : Option KitchenTask) (steps : List RecipeStepSnapshot)
      → map work_of (build_unit uuid4 now order_id item u n previous steps).tasks
        ≡ map (step_work item u) steps
  unfolding build_unit new_task
  unit_work item u n previous [] = refl
  unit_work item u n previous (step ∷ steps) =
      ap (λ ws. step_work item u step ∷ ws)
        (unit_work item u (suc n) (some (new_task uuid4 now order_id n item u step)) steps)

  chain_after :
      (item : OrderItem) (u n : ℕ) (t : KitchenTask) (steps : List RecipeStepSnapshot)
      → t.id ≡ uuid4 n
      → (build_unit uuid4 now order_id item u (suc n) (some t) steps).dependencies
        ≡ chain uuid4 n (suc (length steps))
  unfolding build_unit link new_task
  chain_after item u n t [] e = refl
  chain_after item u n t (step ∷ steps) e =
      let t' = new_task uuid4 now order_id (suc n) item u step in
      rw (e, chain_after item u (suc n) t' steps refl) refl

  unit_chain :
      (item : OrderItem) (u n : ℕ) (steps : List RecipeStepSnapshot)
      → (build_unit uuid4 now order_id item u n none steps).dependencies
        ≡ chain uuid4 n (length steps)
  unfolding build_unit link new_task
  unit_chain item u n [] = refl
  unit_chain item u n (step ∷ steps) =
      chain_after item u n (new_task uuid4 now order_id n item u step) steps refl

  units_lem :
      (item : OrderItem) (steps : List RecipeStepSnapshot) (u n left : ℕ)
      → let made = build_units uuid4 now order_id item steps u n left in
        (map work_of made.tasks ≡ units_work item steps u left)
        × (made.dependencies ≡ unit_chains uuid4 n (length steps) left)
  unfolding build_units
  units_lem item steps u n zero = (refl, refl)
  units_lem item steps u n (suc left) =
      let unit = build_unit uuid4 now order_id item u n none steps in
      let rest = build_units uuid4 now order_id item steps (suc u) (n + length steps) left in
      let (a, b) = units_lem item steps (suc u) (n + length steps) left in
      (
        rw (map_append work_of unit.tasks rest.tasks, unit_work item u n none steps, a) refl,
        rw (unit_chain item u n steps, b) refl,
      )

  -- What a run of the builder makes, as the works of its tasks and its dependencies.
  abbrev Makes : List Work → List TaskDependency → BuiltTasks → Type 0
  Makes works links b = (map work_of b.tasks ≡ works) × (b.dependencies ≡ links)

  rest_lem :
      (works works' : List Work) (links links' : List TaskDependency) (unit b : BuiltTasks)
      (rest : Option BuiltTasks)
      → Makes works links unit
      → ((r : BuiltTasks) → rest ≡ some r → Makes works' links' r)
      → prepend uuid4 now order_id unit rest ≡ some b
      → Makes (works ++ works') (links ++ links') b
  rest_lem works works' links links' unit b none hu hr h = cc
  rest_lem works works' links links' unit b (some r) (p, q) hr h =
      let (p', q') = hr r refl in
      subst (Makes (works ++ works') (links ++ links')) (some-injective _ _ h)
        (rw (map_append work_of unit.tasks r.tasks, p, p') refl, rw (q, q') refl)

  build_steps :
      (recipes : ℕ → Option RecipeSnapshot) (n : ℕ) (items : List OrderItem) (b : BuiltTasks)
      → build uuid4 now order_id recipes n items ≡ some b
      → Makes (all_work recipes items) (all_chains uuid4 recipes n items) b
  unfolding build
  build_steps recipes n [] b h = subst (Makes [] []) (some-injective _ _ h) (refl, refl)
  build_steps recipes n (item ∷ items) b h = elim (Option-cases (recipes item.menu_item_id)) [
    | inl missing ↦ absurd (ground (arith, missing))
    | inr (recipe, found) ↦
        let steps = sort_steps recipe.steps in
        let unit = build_units uuid4 now order_id item steps 1 n item.quantity in
        let len = length-sort_steps recipe.steps in
        let count =
          (build_units-Built uuid4 now order_id item steps 1 n item.quantity).tasks_count in
        let (p, q) = units_lem item steps 1 n item.quantity in
        rw (found, all_work, all_chains, ← sort_steps_lem recipe.steps, ← len, ← count)
          (rest_lem _ _ _ _ unit b (build uuid4 now order_id recipes (n + length unit.tasks) items)
            (p, q) (λ r e. build_steps recipes (n + length unit.tasks) items r e)
            (rw (found, build) at h))
  ]

  -- If the builder returns: the tasks' ids are those drawn in turn, and each task is new; the tasks are,
  -- in order, for each item and each unit of it the steps of the item's recipe by their order, with the
  -- step's station, operation and duration; and the dependencies are one chain for each unit, in which
  -- each task but the first waits for the one before.
  pub build_lem :
      (recipes : ℕ → Option RecipeSnapshot) (n : ℕ) (items : List OrderItem) (b : BuiltTasks)
      → build uuid4 now order_id recipes n items ≡ some b
      → Numbered uuid4 now order_id n b.tasks
        × (map work_of b.tasks ≡ all_work recipes items)
        × (b.dependencies ≡ all_chains uuid4 recipes n items)
  build_lem recipes n items b h =
      let (works, links) = build_steps recipes n items b h in
      ((build-Built uuid4 now order_id recipes n items b h).numbered, works, links)
