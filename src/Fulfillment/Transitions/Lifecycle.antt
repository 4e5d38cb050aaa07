-- ===== src/Fulfillment/Transitions/Lifecycle.antt =====
-- About the status of a task under the requests of class TaskTransitionService,
-- services/fulfillment-service/app/services.py.
use dark_kitchen_simulator.Prelude.{
  ℕ, ◌≡◌, true, false, inl, inr, Option, none, some, List, [], ◌∷◌, arith, ◌==◌, Bool-cases, find,
  find-save_self, find-save_ne,
}
use dark_kitchen_simulator.Fulfillment.Domain.{TaskStatus, can_transition}
use dark_kitchen_simulator.Fulfillment.Models.{KitchenTask, World}
use dark_kitchen_simulator.Fulfillment.Repositories.{get_task}
use dark_kitchen_simulator.Fulfillment.Transitions.Requests.{Request, handle, serve}
use dark_kitchen_simulator.Fulfillment.Transitions.Writes.{
  task_key, TaskWrite, unchanged, wrote, handle-TaskWrite,
}

abbrev status_in : List KitchenTask → ℕ → Option TaskStatus
status_in tasks k = elim (find task_key k tasks) [ none ↦ none | some t ↦ some t.status ]

-- The status of the task with a number, if there is one.
abbrev pub status_of : ℕ → World → Option TaskStatus
status_of k w = elim (get_task k w.db) [ none ↦ none | some t ↦ some t.status ]

-- A status stays, or takes one allowed transition.
pub data Moves : Option TaskStatus → Option TaskStatus → Type 0 where
  stays : {o : Option TaskStatus} → Moves o o
  goes : {c d : TaskStatus} → can_transition c d ≡ true → Moves (some c) (some d)

Moves-of_eq : {a b : Option TaskStatus} → b ≡ a → Moves a b
Moves-of_eq e = rw e stays

Moves-of_status :
    (a b : Option TaskStatus) (c d : TaskStatus)
    → a ≡ some c
    → b ≡ some d
    → can_transition c d ≡ true
    → Moves a b
Moves-of_status a b c d ea eb h = rw (ea, eb) (goes h)

TaskWrite-Moves :
    (k : ℕ) (before after : List KitchenTask)
    → TaskWrite before after
    → Moves (status_in before k) (status_in after k)
TaskWrite-Moves k before after (unchanged e) = rw e stays
TaskWrite-Moves k before after (wrote task row found _ allowed rows) =
    elim (Bool-cases (row.id == k)) [
      | inl here ↦
          Moves-of_status _ _ task.status row.status (ground (arith, found))
            (ground (arith, find-save_self task_key k row task before)) allowed
      | inr away ↦ Moves-of_eq (ground (arith, find-save_ne task_key k row before))
    ]

-- Whatever the request and the state, every task keeps its status or takes one allowed transition.
pub handle-Moves :
    (r : Request) (w : World) (k : ℕ) → Moves (status_of k w) (status_of k (handle r w).1)
unfolding get_task
handle-Moves r w k = TaskWrite-Moves k w.db.tasks (handle r w).1.db.tasks (handle-TaskWrite r w)

-- No transition leads out of a final status.
abbrev pub IsFinal : TaskStatus → Type 0
IsFinal c = (d : TaskStatus) → can_transition c d ≡ false

Moves-final :
    (c : TaskStatus) (a b : Option TaskStatus) → IsFinal c → Moves a b → a ≡ some c → b ≡ some c
Moves-final c a b final stays e = e
Moves-final c a b final (goes {c = c'} {d} allowed) e = ground (arith, final d)

-- A task in a final status keeps it, whatever requests follow.
serve-final :
    (c : TaskStatus) (rs : List Request) (w : World) (k : ℕ)
    → IsFinal c
    → status_of k w ≡ some c
    → status_of k (serve rs w) ≡ some c
unfolding serve
serve-final c [] w k final h = h
serve-final c (r ∷ rs) w k final h =
    serve-final c rs (handle r w).1 k final (Moves-final c _ _ final (handle-Moves r w k) h)
