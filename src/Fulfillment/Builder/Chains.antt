-- ===== src/Fulfillment/Builder/Chains.antt =====
-- About `KitchenTaskBuilder.build`, services/fulfillment-service/app/task_builder.py.
use mathlib.Core.Path.{subst}
use mathlib.Core.Option.{some-injective}
use dark_kitchen_simulator.Prelude.{
  ℕ, zero, suc, ◌+◌, ◌-◌, ◌*◌, ◌≤◌, ◌<◌, ◌≡◌, ◌≢◌, refl, sym, ap, ◌∙◌, Option, none, some, List, [],
  ◌∷◌, ◌++◌, arith, length, All, length-append, All-append, Option-cases, inl, inr,
}
use dark_kitchen_simulator.Prelude.Time.{Datetime}
use dark_kitchen_simulator.Fulfillment.Domain.{TaskStatus}
use dark_kitchen_simulator.Fulfillment.Models.{OrderItem, KitchenTask, TaskDependency}
use dark_kitchen_simulator.Fulfillment.Schemas.{RecipeStepSnapshot, RecipeSnapshot}
use dark_kitchen_simulator.Fulfillment.Builder.{
  BuiltTasks, insert_step, sort_steps, new_task, link, build_unit, build_units, build, prepend,
}

length-insert_step :
    (x : RecipeStepSnapshot) (ys : List RecipeStepSnapshot)
    → length (insert_step x ys) ≡ suc (length ys)
unfolding insert_step
length-insert_step x [] = refl
length-insert_step x (y ∷ ys) = ground (arith, length-insert_step x ys)

pub length-sort_steps : (xs : List RecipeStepSnapshot) → length (sort_steps xs) ≡ length xs
unfolding sort_steps
length-sort_steps [] = refl
length-sort_steps (x ∷ xs) =
    omega (arith, length-insert_step x (sort_steps xs), length-sort_steps xs)

-- Of an order's items with their recipes: how many tasks, and how many dependencies.
abbrev pub count_tasks : (ℕ → Option RecipeSnapshot) → List OrderItem → ℕ
count_tasks recipes [] = 0
count_tasks recipes (item ∷ items) = elim (recipes item.menu_item_id) [
  | none ↦ 0
  | some recipe ↦ item.quantity * length recipe.steps + count_tasks recipes items
]

abbrev pub count_links : (ℕ → Option RecipeSnapshot) → List OrderItem → ℕ
count_links recipes [] = 0
count_links recipes (item ∷ items) = elim (recipes item.menu_item_id) [
  | none ↦ 0
  | some recipe ↦ item.quantity * (length recipe.steps - 1) + count_links recipes items
]

module _ (uuid4 : ℕ → ℕ) (now : Datetime) (order_id : ℕ) where
  -- The tasks have the numbers that `uuid4` gave from the `n`th on, and each is new.
  abbrev pub Numbered : ℕ → List KitchenTask → Type 0
  Numbered n [] = Unit
  Numbered n (t ∷ ts) =
      (t.id ≡ uuid4 n)
      × (t.order_id ≡ order_id)
      × (t.status ≡ TaskStatus.created)
      × (t.attempts ≡ 0)
      × Numbered (suc n) ts

  -- The task waits for the one that was built just before it, both of those from `lo` up to `hi`.
  abbrev pub LeadsBack : ℕ → ℕ → TaskDependency → Type 0
  LeadsBack lo hi d =
      (m : ℕ) × (lo ≤ m)
      × (suc m < hi)
      × (d.depends_on_task_id ≡ uuid4 m)
      × (d.task_id ≡ uuid4 (suc m))

  widen :
      (lo lo' hi hi' : ℕ) (ds : List TaskDependency)
      → lo' ≤ lo
      → hi ≤ hi'
      → All (LeadsBack lo hi) ds
      → All (LeadsBack lo' hi') ds
  widen lo lo' hi hi' [] p q h = tt
  widen lo lo' hi hi' (d ∷ ds) p q ((m, a, b, e, f), h) =
      ((m, omega arith, omega arith, e, f), widen lo lo' hi hi' ds p q h)

  not_self :
      (hi : ℕ) (ds : List TaskDependency)
      → ((i j : ℕ) → uuid4 i ≡ uuid4 j → i ≡ j)
      → All (LeadsBack 0 hi) ds
      → All (λ (d : TaskDependency). d.task_id ≢ d.depends_on_task_id) ds
  not_self hi [] distinct h = tt
  not_self hi (d ∷ ds) distinct ((m, _, _, e, f), h) = (
    λ same. absurd (omega (arith, distinct (suc m) m (sym f ∙ same ∙ e))),
    not_self hi ds distinct h,
  )

  Numbered-append :
      (n : ℕ) (xs ys : List KitchenTask)
      → Numbered n xs
      → Numbered (n + length xs) ys
      → Numbered n (xs ++ ys)
  Numbered-append n [] ys hx hy = subst (λ k. Numbered k ys) (omega arith) hy
  Numbered-append n (x ∷ xs) ys (a, b, c, d, hx) hy =
      (a, b, c, d, Numbered-append (suc n) xs ys hx (subst (λ k. Numbered k ys) (omega arith) hy))

  build_unit-Numbered :
      (item : OrderItem) (u n : ℕ) (previous : Option KitchenTask) (steps : List RecipeStepSnapshot)
      → Numbered n (build_unit uuid4 now order_id item u n previous steps).tasks
        × (length (build_unit uuid4 now order_id item u n previous steps).tasks ≡ length steps)
  unfolding build_unit new_task
  build_unit-Numbered item u n previous [] = (tt, refl)
  build_unit-Numbered item u n previous (step ∷ steps) =
      let t = new_task uuid4 now order_id n item u step in
      let (a, b) = build_unit-Numbered item u (suc n) (some t) steps in
      ((refl, refl, refl, refl, a), ap suc b)

  unit_after :
      (item : OrderItem) (u m : ℕ) (t : KitchenTask) (steps : List RecipeStepSnapshot)
      → t.id ≡ uuid4 m
      → let unit = build_unit uuid4 now order_id item u (suc m) (some t) steps in
        All (LeadsBack m (suc m + length steps)) unit.dependencies
        × (length unit.dependencies ≡ length steps)
  unfolding build_unit link new_task
  unit_after item u m t [] e = (tt, refl)
  unit_after item u m t (step ∷ steps) e =
      let t' = new_task uuid4 now order_id (suc m) item u step in
      let (a, b) = unit_after item u (suc m) t' steps refl in
      (
        ((m, omega arith, omega arith, e, refl), widen _ _ _ _ _ (omega arith) (omega arith) a),
        ap suc b,
      )

  build_unit_links :
      (item : OrderItem) (u n : ℕ) (steps : List RecipeStepSnapshot)
      → let unit = build_unit uuid4 now order_id item u n none steps in
        All (LeadsBack n (n + length steps)) unit.dependencies
        × (length unit.dependencies ≡ length steps - 1)
  unfolding build_unit link new_task
  build_unit_links item u n [] = (tt, omega arith)
  build_unit_links item u n (step ∷ steps) =
      let t = new_task uuid4 now order_id n item u step in
      let (a, b) = unit_after item u n t steps refl in
      (widen _ _ _ _ _ (omega arith) (omega arith) a, omega (arith, b))

  -- What a run of the builder from the `n`th task on makes, with its numbers of tasks and links.
  pub record Built (n tasks links : ℕ) (b : BuiltTasks) : Type 0 where
    pub numbered : Numbered n b.tasks
    pub leads_back : All (LeadsBack n (n + tasks)) b.dependencies
    pub tasks_count : length b.tasks ≡ tasks
    pub links_count : length b.dependencies ≡ links

  Built-append :
      (n i j k l : ℕ) (a b : BuiltTasks)
      → Built n i j a
      → Built (n + i) k l b
      → Built n
          (i + k)
          (j + l)
          (record { tasks = a.tasks ++ b.tasks; dependencies = a.dependencies ++ b.dependencies })
  Built-append n i j k l a b ha hb = record {
    numbered =
        Numbered-append n a.tasks b.tasks ha.numbered
          (subst (λ m. Numbered (n + m) b.tasks) (sym ha.tasks_count) hb.numbered);
    leads_back =
        All-append (LeadsBack n (n + (i + k))) a.dependencies b.dependencies
          (widen n n (n + i) (n + (i + k)) a.dependencies (omega arith) (omega arith) ha.leads_back)
          (widen (n + i) n (n + i + k) (n + (i + k)) b.dependencies (omega arith) (omega arith)
            hb.leads_back);
    tasks_count = omega (arith, length-append a.tasks b.tasks, ha.tasks_count, hb.tasks_count);
    links_count =
        omega (arith, length-append a.dependencies b.dependencies, ha.links_count, hb.links_count);
  }

  build_unit-Built :
      (item : OrderItem) (u n : ℕ) (steps : List RecipeStepSnapshot)
      → Built n
          (length steps)
          (length steps - 1)
          (build_unit uuid4 now order_id item u n none steps)
  build_unit-Built item u n steps =
      let (a, b) = build_unit-Numbered item u n none steps in
      let (c, d) = build_unit_links item u n steps in
      record { numbered = a; leads_back = c; tasks_count = b; links_count = d }

  Built-of_eq :
      (n i i' j j' : ℕ) (b : BuiltTasks) → i ≡ i' → j ≡ j' → Built n i j b → Built n i' j' b
  Built-of_eq n i i' j j' b e f h = rw (← e, ← f) h

  pub build_units-Built :
      (item : OrderItem) (steps : List RecipeStepSnapshot) (u n left : ℕ)
      → Built n
          (left * length steps)
          (left * (length steps - 1))
          (build_units uuid4 now order_id item steps u n left)
  unfolding build_units
  build_units-Built item steps u n zero = record {
    numbered = tt;
    leads_back = tt;
    tasks_count = omega arith;
    links_count = omega arith;
  }
  build_units-Built item steps u n (suc left) =
      Built-of_eq n _ _ _ _ _ (grind arith) (grind arith) (
        Built-append n _ _ _ _ _ _ (build_unit-Built item u n steps)
          (build_units-Built item steps (suc u) (n + length steps) left))

  build_rest :
      (n i j k l : ℕ) (unit b : BuiltTasks) (rest : Option BuiltTasks)
      → Built n i j unit
      → ((r : BuiltTasks) → rest ≡ some r → Built (n + i) k l r)
      → prepend uuid4 now order_id unit rest ≡ some b
      → Built n (i + k) (j + l) b
  build_rest n i j k l unit b none hu hr h = cc
  build_rest n i j k l unit b (some r) hu hr h =
      subst (Built n (i + k) (j + l)) (some-injective _ _ h)
        (Built-append n i j k l unit r hu (hr r refl))

  -- If the builder returns, it has made a task for each step of each unit of each item, and the tasks'
  -- ids are those drawn in turn; and for each unit one dependency fewer than steps (none without
  -- steps), each from a task that was built to the one built just before it.
  pub build-Built :
      (recipes : ℕ → Option RecipeSnapshot) (n : ℕ) (items : List OrderItem) (b : BuiltTasks)
      → build uuid4 now order_id recipes n items ≡ some b
      → Built n (count_tasks recipes items) (count_links recipes items) b
  unfolding build
  build-Built recipes n [] b h =
      subst (Built n 0 0) (some-injective _ _ h)
        (record { numbered = tt; leads_back = tt; tasks_count = refl; links_count = refl })
  build-Built recipes n (item ∷ items) b h = elim (Option-cases (recipes item.menu_item_id)) [
    | inl missing ↦ absurd (ground (arith, missing))
    | inr (recipe, found) ↦
        let steps = sort_steps recipe.steps in
        let unit = build_units uuid4 now order_id item steps 1 n item.quantity in
        let made = build_units-Built item steps 1 n item.quantity in
        let len = length-sort_steps recipe.steps in
        let made' =
          Built-of_eq n _ (item.quantity * length recipe.steps) _
            (item.quantity * (length recipe.steps - 1)) unit (ap (λ m. item.quantity * m) len)
            (ap (λ m. item.quantity * (m - 1)) len) made in
        rw (found, count_tasks, count_links)
          (build_rest n _ _ _ _ unit b
            (build uuid4 now order_id recipes (n + length unit.tasks) items) made'
            (λ r e.
              subst (λ m. Built m (count_tasks recipes items) (count_links recipes items) r)
                (ap (λ m. n + m) made'.tasks_count)
                (build-Built recipes (n + length unit.tasks) items r e))
            (rw (found, build) at h))
  ]

  -- If `uuid4` repeats no number, no task waits for itself, as the table's check constraint wants.
  pub build-ne_self :
      (recipes : ℕ → Option RecipeSnapshot) (items : List OrderItem) (b : BuiltTasks)
      → ((i j : ℕ) → uuid4 i ≡ uuid4 j → i ≡ j)
      → build uuid4 now order_id recipes 0 items ≡ some b
      → All (λ (d : TaskDependency). d.task_id ≢ d.depends_on_task_id) b.dependencies
  build-ne_self recipes items b distinct h =
      not_self _ b.dependencies distinct (build-Built recipes 0 items b h).leads_back
