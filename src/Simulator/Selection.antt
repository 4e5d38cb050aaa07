-- ===== src/Simulator/Selection.antt =====
-- About the task that a worker selects, services/station-simulator-service/app/simulator/worker.py.
use dark_kitchen_simulator.Prelude.{◌≡◌, true, false, none, some, List, [], ◌∷◌, All, select, arith}
use mathlib.Core.Path.{subst}
use dark_kitchen_simulator.Prelude.Sort.{sort, IsSorted, IsOrder, sort-IsSorted, sort-All, All-sort}
use dark_kitchen_simulator.Simulator.Kds.{KdsTask}
use dark_kitchen_simulator.Simulator.Worker.{
  is_displayed, displayed_le, first, select_displayed_task,
}

displayed_le-IsOrder : IsOrder displayed_le
displayed_le-IsOrder = record {
  total = λ x y h. ground arith;
  transitive = λ x y z h k. ground arith;
}

displayed_le_refl : (t : KdsTask) → displayed_le t t ≡ true
displayed_le_refl t = ground arith

module _ (P : KdsTask → Type 0) where
  select_only :
      (xs : List KdsTask)
      → All P (select is_displayed xs)
      → All (λ x. is_displayed x ≡ true → P x) xs
  unfolding select
  select_only [] h = tt
  select_only (x ∷ xs) h = ground (arith, select_only xs)

  All-select :
      (xs : List KdsTask)
      → All P xs
      → All (λ x. P x × (is_displayed x ≡ true)) (select is_displayed xs)
  unfolding select
  All-select [] h = tt
  All-select (x ∷ xs) h = ground (arith, All-select xs)

All-unit : (xs : List KdsTask) → All (λ x. Unit {0}) xs
All-unit [] = tt
All-unit (x ∷ xs) = (tt, All-unit xs)

not_shown :
    (xs : List KdsTask)
    → All (λ x. is_displayed x ≡ true → ⊥) xs
    → All (λ x. is_displayed x ≡ false) xs
not_shown [] h = tt
not_shown (x ∷ xs) h = (ground (arith, h.0), not_shown xs h.1)

-- The first of sorted rows.
first_of :
    (xs : List KdsTask) (t : KdsTask)
    → IsSorted displayed_le xs
    → first xs ≡ some t
    → All (λ x. displayed_le t x ≡ true) xs
first_of [] t s h = tt
first_of (x ∷ xs) t s h =
    let e : x ≡ t = ground arith in
    subst (λ y. All (λ z. displayed_le y z ≡ true) (x ∷ xs)) e (displayed_le_refl x, s.0)

first_is :
    (P : KdsTask → Type 0) (xs : List KdsTask) (t : KdsTask) → first xs ≡ some t → All P xs → P t
first_is P [] t h a = absurd (ground arith)
first_is P (x ∷ xs) t h a = let e : x ≡ t = ground arith in rw (← e) a.0

no_first : (P : KdsTask → Type 0) (xs : List KdsTask) → first xs ≡ none → All P xs
no_first P [] h = tt
no_first P (x ∷ xs) h = absurd (ground arith)

-- The selected task is one of the station's tasks, for what holds of all of them holds of it; it is
-- displayed, and no displayed task of them was displayed earlier. If none is selected, none is
-- displayed.
pub select_displayed_task_earliest :
    (tasks : List KdsTask)
    → ((t : KdsTask)
        → select_displayed_task tasks ≡ some t
        → ((P : KdsTask → Type 0) → All P tasks → P t)
          × (is_displayed t ≡ true)
          × All (λ x. is_displayed x ≡ true → displayed_le t x ≡ true) tasks)
      × (select_displayed_task tasks ≡ none → All (λ x. is_displayed x ≡ false) tasks)
unfolding select_displayed_task
select_displayed_task_earliest tasks =
    let shown = select is_displayed tasks in
    let sorted = sort-IsSorted displayed_le displayed_le-IsOrder shown in
    (
      λ t h. (
        λ P a.
            (first_is (λ x. P x × (is_displayed x ≡ true)) (sort displayed_le shown) t h
              (All-sort displayed_le _ shown (All-select P tasks a))).0,
        (first_is (λ x. Unit {0} × (is_displayed x ≡ true)) (sort displayed_le shown) t h
            (All-sort displayed_le _ shown (All-select (λ x. Unit {0}) tasks (All-unit tasks)))).1,
        select_only (λ x. displayed_le t x ≡ true) tasks
            (sort-All displayed_le _ shown (first_of (sort displayed_le shown) t sorted h)),
      ),
      λ h. not_shown tasks (
          select_only (λ x. ⊥) tasks
            (sort-All displayed_le _ shown (no_first (λ x. ⊥) (sort displayed_le shown) h))),
    )
