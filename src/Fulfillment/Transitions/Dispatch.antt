-- ===== src/Fulfillment/Transitions/Dispatch.antt =====
-- About `dispatch_readiness` of services/fulfillment-service/app/services.py.
use dark_kitchen_simulator.Prelude.{
  ℕ, ◌≡◌, ◌↔◌, refl, List, [], ◌∷◌, true, false, some, arith, All, key_of_found,
}
use dark_kitchen_simulator.Prelude.Exec.{ok}
use dark_kitchen_simulator.Fulfillment.Domain.{is_dispatchable}
use dark_kitchen_simulator.Fulfillment.Models.{KitchenTask, TaskDependency, Db, World}
use dark_kitchen_simulator.Fulfillment.Schemas.{DispatchReadinessResponse}
use dark_kitchen_simulator.Fulfillment.Repositories.{
  get_task, is_unfinished, insert_sorted, unfinished_rows, unfinished_dependencies,
}
use dark_kitchen_simulator.Fulfillment.Transitions.{dispatch_readiness}

-- No dependency of the task is on a task that is there and not done.
abbrev pub Satisfied : ℕ → Db → Type 0
Satisfied id db =
    All (λ (d : TaskDependency). d.task_id ≡ id → is_unfinished db d.depends_on_task_id ≡ false)
      db.dependencies

insert_sorted-ne-nil : (x : ℕ) (xs : List ℕ) → insert_sorted x xs ≡ [] → ⊥
unfolding insert_sorted
insert_sorted-ne-nil x [] h = cc
insert_sorted-ne-nil x (y ∷ ys) h = ground arith

nothing_waits :
    (id : ℕ) (db : Db) (ds : List TaskDependency)
    → unfinished_rows id db ds ≡ []
    → All
        (λ (d : TaskDependency). d.task_id ≡ id → is_unfinished db d.depends_on_task_id ≡ false)
        ds
unfolding unfinished_rows
nothing_waits id db [] h = tt
nothing_waits id db (d ∷ ds) h = (
  λ here. ground (arith, insert_sorted-ne-nil d.depends_on_task_id (unfinished_rows id db ds)),
  nothing_waits id db ds
      (ground (arith, insert_sorted-ne-nil d.depends_on_task_id (unfinished_rows id db ds))),
)

waits_for_nothing :
    (id : ℕ) (db : Db) (ds : List TaskDependency)
    → All
        (λ (d : TaskDependency). d.task_id ≡ id → is_unfinished db d.depends_on_task_id ≡ false)
        ds
    → unfinished_rows id db ds ≡ []
unfolding unfinished_rows
waits_for_nothing id db [] h = refl
waits_for_nothing id db (d ∷ ds) h = ground (arith, h.0, waits_for_nothing id db ds h.1)

-- Where the readiness of a task that is there is reported, it is ready exactly if its status may be
-- dispatched and every task that it depends on is done; the report changes nothing.
pub dispatch_readiness_iff :
    (id : ℕ) (w : World) (task : KitchenTask) (x : DispatchReadinessResponse)
    → get_task id w.db ≡ some task
    → (dispatch_readiness id w).0 ≡ ok x
    → ((x.ready_to_dispatch ≡ true) ↔ ((is_dispatchable task.status ≡ true) × Satisfied id w.db))
      × ((dispatch_readiness id w).1 ≡ w)
unfolding dispatch_readiness unfinished_dependencies get_task
dispatch_readiness_iff id w task x found h = (
  (
    λ ready. (
      ground arith,
      nothing_waits id w.db w.db.dependencies
          (ground (arith, key_of_found (λ (t : KitchenTask). t.id) id w.db.tasks task found)),
    ),
    λ (status, satisfied). ground (
      arith,
      key_of_found (λ (t : KitchenTask). t.id) id w.db.tasks task found,
      waits_for_nothing id w.db w.db.dependencies satisfied,
    ),
  ),
  ground arith,
)
