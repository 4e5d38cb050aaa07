-- ===== src/Kitchen/Listing/Pages.antt =====
-- About the pages of `list_station_tasks`, services/kitchen-service/app/services.py.
use dark_kitchen_simulator.Prelude.{
  ℕ, zero, suc, ◌+◌, ◌≡◌, refl, List, [], ◌∷◌, ◌++◌, Bool, true, take, drop, All, All-take,
  All-drop, take_add, drop_add, select, count, arith,
}
use dark_kitchen_simulator.Prelude.Exec.{ok}
use dark_kitchen_simulator.Prelude.Sort.{IsSorted, IsOrder, sort-IsSorted, All-sort}
use dark_kitchen_simulator.Kitchen.Models.{KdsStationTask, KdsTaskStatus, World}
use dark_kitchen_simulator.Kitchen.Listing.{
  is_listed, task_le, listed_tasks, task_page, list_station_tasks,
}

task_le-IsOrder : IsOrder task_le
task_le-IsOrder = record { total = λ a b h. ground arith; transitive = λ a b c h k. ground arith }

module _ {ℓ} {A : Type ℓ} where
  select-All : (p : A → Bool) (xs : List A) → All (λ x. p x ≡ true) (select p xs)
  unfolding select
  select-All p [] = tt
  select-All p (x ∷ xs) = ground (arith, select-All p xs)

  count-select :
      (p q : A → Bool) (xs : List A)
      → ((x : A) → q x ≡ true → p x ≡ true)
      → count q (select p xs) ≡ count q xs
  unfolding select count
  count-select p q [] h = refl
  count-select p q (x ∷ xs) h = ground (arith, count-select p q xs h, h x)

module _ {ℓ} {A : Type ℓ} (le : A → A → Bool) where
  take-IsSorted : (n : ℕ) (xs : List A) → IsSorted le xs → IsSorted le (take n xs)
  take-IsSorted zero xs h = tt
  take-IsSorted (suc n) [] h = tt
  take-IsSorted (suc n) (x ∷ xs) h =
      (All-take (λ y. le x y ≡ true) n xs h.0, take-IsSorted n xs h.1)

  drop-IsSorted : (n : ℕ) (xs : List A) → IsSorted le xs → IsSorted le (drop n xs)
  drop-IsSorted zero xs h = h
  drop-IsSorted (suc n) [] h = tt
  drop-IsSorted (suc n) (x ∷ xs) h = drop-IsSorted n xs h.1

-- A page holds tasks of the station in the wanted status only, the longest displayed first.
pub list_station_tasks-IsSorted :
    (k : ℕ) (status : KdsTaskStatus) (limit offset : ℕ) (w : World) (page : List KdsStationTask)
    → (list_station_tasks k status limit offset w).0 ≡ ok page
    → IsSorted task_le page × All (λ t. is_listed k status t ≡ true) page
unfolding list_station_tasks task_page listed_tasks
list_station_tasks-IsSorted k status limit offset w page h =
    let rows = listed_tasks k status w.db in
    let sorted = sort-IsSorted task_le task_le-IsOrder (select (is_listed k status) w.db.tasks) in
    let listed =
      All-sort task_le (λ t. is_listed k status t ≡ true) (select (is_listed k status) w.db.tasks)
        (select-All (is_listed k status) w.db.tasks) in
    let e : take limit (drop offset rows) ≡ page = ground arith in
    rw (← e) (
      take-IsSorted task_le limit (drop offset rows) (drop-IsSorted task_le offset rows sorted),
      All-take _ limit (drop offset rows) (All-drop _ offset rows listed),
    )

-- Two pages that follow each other are the page of both lengths, if the table does not change between.
list_station_tasks_pages :
    (k : ℕ) (status : KdsTaskStatus) (m n offset : ℕ) (w : World) (a b : List KdsStationTask)
    → (list_station_tasks k status m offset w).0 ≡ ok a
    → (list_station_tasks k status n (offset + m) w).0 ≡ ok b
    → (list_station_tasks k status (m + n) offset w).0 ≡ ok (a ++ b)
unfolding list_station_tasks task_page
list_station_tasks_pages k status m n offset w a b ha hb =
    let rows = listed_tasks k status w.db in
    ground (arith, take_add m n (drop offset rows), drop_add offset m rows)
