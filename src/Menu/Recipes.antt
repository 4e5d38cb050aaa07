-- ===== src/Menu/Recipes.antt =====
-- About the recipes of services/menu-service/app/services.py.
use dark_kitchen_simulator.Prelude.{
  ℕ, ◌≤◌, ◌≡◌, refl, sym, List, [], ◌∷◌, map, Bool, true, ◌==◌, ltb, arith, count, inl, inr,
  Option-cases, find, select, All,
}
use dark_kitchen_simulator.Prelude.Exec.{ok}
use dark_kitchen_simulator.Prelude.Sort.{sort, IsSorted, IsOrder, sort-IsSorted, count-sort}
use dark_kitchen_simulator.Menu.Models.{RecipeStep, RecipeRead, RecipeStepSummary, Db}
use dark_kitchen_simulator.Menu.Service.{
  item_key, step_le, of_menu_item, same_order, list_by_menu_item, step_summary, get_recipe,
  get_menu_item,
}
use dark_kitchen_simulator.Menu.Service.{Collation}
use dark_kitchen_simulator.Menu.Constraints.{Consistent}

-- Each step comes before all that follow.
abbrev pub step_lt : RecipeStepSummary → RecipeStepSummary → Bool
step_lt a b = ltb a.step_order b.step_order

step_le-IsOrder : IsOrder step_le
step_le-IsOrder = record { total = λ x y h. ground arith; transitive = λ x y z h k. ground arith }

abbrev has_order : ℕ → RecipeStep → Bool
has_order n s = s.step_order == n

abbrev pub summary_has_order : ℕ → RecipeStepSummary → Bool
summary_has_order n s = s.step_order == n

count-select :
    (i n : ℕ) (xs : List RecipeStep)
    → count (has_order n) (select (of_menu_item i) xs) ≡ count (same_order i n) xs
unfolding count select
count-select i n [] = refl
count-select i n (x ∷ xs) = ground (arith, count-select i n xs)

count-map :
    (n : ℕ) (xs : List RecipeStep)
    → count (summary_has_order n) (map step_summary xs) ≡ count (has_order n) xs
unfolding count
count-map n [] = refl
count-map n (x ∷ xs) = ground (arith, count-map n xs)

-- A later step of an order that occurs no more is strictly later.
after_lt :
    (x : RecipeStep) (xs : List RecipeStep)
    → All (λ y. step_le x y ≡ true) xs
    → count (has_order x.step_order) xs ≡ 0
    → All (λ y. step_lt (step_summary x) y ≡ true) (map step_summary xs)
unfolding count
after_lt x [] a h = tt
after_lt x (y ∷ ys) a h = (ground arith, after_lt x ys a.1 (ground arith))

strictly-IsSorted :
    (xs : List RecipeStep)
    → IsSorted step_le xs
    → ((n : ℕ) → count (has_order n) xs ≤ 1)
    → IsSorted step_lt (map step_summary xs)
unfolding count
strictly-IsSorted [] s u = tt
strictly-IsSorted (x ∷ xs) s u = (
  after_lt x xs s.0 (ground (arith, u x.step_order)),
  strictly-IsSorted xs s.1 (λ n. ground (arith, u n)),
)

-- In consistent tables, a recipe that is answered has the item's steps in strictly ascending order, so
-- that none comes twice, and has each order that the table has for the item.
get_recipe-IsSorted :
    (c : Collation) (db : Db) (i : ℕ) (r : RecipeRead)
    → Consistent c db
    → (get_recipe i db).0 ≡ ok r
    → IsSorted step_lt r.steps
      × ((n : ℕ) → count (summary_has_order n) r.steps ≡ count (same_order i n) db.recipe_steps)
unfolding get_recipe get_menu_item list_by_menu_item
get_recipe-IsSorted c db i r h e = elim (Option-cases (find item_key i db.menu_items)) [
  | inl missing ↦ absurd (ground arith)
  | inr (item, found) ↦
      let steps = sort step_le (select (of_menu_item i) db.recipe_steps) in
      let is_steps : map step_summary steps ≡ r.steps = ground arith in
      let same : (n : ℕ) → count (has_order n) steps ≡ count (same_order i n) db.recipe_steps = λ n.
        ground (
          arith,
          count-sort step_le (has_order n) (select (of_menu_item i) db.recipe_steps),
          count-select i n db.recipe_steps,
        ) in
      (
        rw (sym is_steps) (
            strictly-IsSorted steps
              (sort-IsSorted step_le step_le-IsOrder (select (of_menu_item i) db.recipe_steps))
              (λ n. ground (arith, same n, h.one_order i n))),
        λ n. rw (sym is_steps) (ground (arith, count-map n steps, same n)),
      )
]
