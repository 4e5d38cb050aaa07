-- ===== src/Menu/Listing.antt =====
-- About the menu of a kitchen, `list_kitchen_menu` of services/menu-service/app/services.py.
use dark_kitchen_simulator.Prelude.{
  ℕ, ◌≤◌, ◌≡◌, refl, List, [], ◌∷◌, Option, Bool, true, false, ◌&&◌, ◌||◌, ◌==◌, arith, count,
  if◌then◌else◌, none, some, inl, inr, Option-cases, find, key_of_found,
}
use dark_kitchen_simulator.Prelude.Exec.{ok}
use dark_kitchen_simulator.Prelude.Sort.{sort, count-sort}
use dark_kitchen_simulator.Menu.Models.{
  MenuItem, KitchenMenuAvailability, Db, KitchenMenuItemRead, active,
}
use dark_kitchen_simulator.Menu.Service.{
  Collation, item_key, item_le, same_place, same_status, joined, menu_entries, list_kitchen_menu,
}
use dark_kitchen_simulator.Menu.Constraints.{Consistent}
use dark_kitchen_simulator.Menu.Availability.{lookup}

abbrev same_bool : Bool → Bool → Bool
same_bool true b = b
same_bool false true = false
same_bool false false = true

-- Whether a menu shows an item of which the table says this, as `b`.
abbrev pub is_shown : Bool → Bool → Option Bool → Bool
is_shown include_unavailable b none = false
is_shown include_unavailable b (some v) = same_bool v b && (include_unavailable || v)

abbrev pub is_entry : ℕ → Bool → KitchenMenuItemRead → Bool
is_entry i b e = e.id == i && same_bool e.is_available b

module _ (k : ℕ) (inc b : Bool) where
  abbrev row_shown : Option KitchenMenuAvailability → Bool
  row_shown none = false
  row_shown (some a) = same_bool a.is_available b

  joined_missing :
      (i : ℕ) (xs : List KitchenMenuAvailability)
      → count (same_place k i) xs ≡ 0
      → joined k inc i xs ≡ none
  unfolding joined count
  joined_missing i [] h = refl
  joined_missing i (x ∷ xs) h = ground (arith, joined_missing i xs)

  -- The join agrees with the table, of which it reads one row.
  joined_reads :
      (i : ℕ) (xs : List KitchenMenuAvailability)
      → count (same_place k i) xs ≤ 1
      → row_shown (joined k inc i xs) ≡ is_shown inc b (lookup xs k i)
  unfolding joined count lookup
  joined_reads i [] h = refl
  joined_reads i (x ∷ xs) h = ground (arith, joined_reads i xs, joined_missing i xs)

  abbrev item_shown : ℕ → List KitchenMenuAvailability → MenuItem → Bool
  item_shown i rows x =
      x.id == i && (same_status x.status active && row_shown (joined k inc x.id rows))

  count-menu_entries :
      (i : ℕ) (rows : List KitchenMenuAvailability) (xs : List MenuItem)
      → count (is_entry i b) (menu_entries k inc rows xs) ≡ count (item_shown i rows) xs
  unfolding menu_entries count
  count-menu_entries i rows [] = refl
  count-menu_entries i rows (x ∷ xs) = elim (Option-cases (joined k inc x.id rows)) [
    | inl missing ↦ ground (arith, count-menu_entries i rows xs)
    | inr (a, found) ↦ ground (arith, count-menu_entries i rows xs)
  ]

count_of_no_key :
    (i : ℕ) (q : MenuItem → Bool) (xs : List MenuItem)
    → count (λ (x : MenuItem). x.id == i) xs ≡ 0
    → count (λ (x : MenuItem). x.id == i && q x) xs ≡ 0
unfolding count
count_of_no_key i q [] h = refl
count_of_no_key i q (x ∷ xs) h = ground (arith, count_of_no_key i q xs)

-- A condition on the one row of a key.
count_of_key :
    (i : ℕ) (q : MenuItem → Bool) (xs : List MenuItem) (item : MenuItem)
    → count (λ (x : MenuItem). x.id == i) xs ≤ 1
    → find item_key i xs ≡ some item
    → count (λ (x : MenuItem). x.id == i && q x) xs ≡ (if q item then 1 else 0)
unfolding count find
count_of_key i q [] item h f = absurd (ground arith)
count_of_key i q (x ∷ xs) item h f =
    ground (arith, count_of_key i q xs item, count_of_no_key i q xs)

-- In consistent tables, a kitchen's menu shows an item once as available (`b`) or not, if the item is
-- active and the availability table says so of it in that kitchen, and never otherwise; what is not
-- available is shown only if it is asked for.
pub list_kitchen_menu_shows :
    (c : Collation) (k : ℕ) (inc : Bool) (db : Db) (i : ℕ) (item : MenuItem) (b : Bool)
    → Consistent c db
    → find item_key i db.menu_items ≡ some item
    → (entries : List KitchenMenuItemRead) × (list_kitchen_menu c k inc db ≡ (ok entries, db))
      × (count (is_entry i b) entries ≡ (
          if same_status item.status active && is_shown inc b (lookup db.availability k i)
          then 1
          else 0))
unfolding list_kitchen_menu
list_kitchen_menu_shows c k inc db i item b h found =
    let rows = db.availability in
    let shown : MenuItem → Bool =
      λ (x : MenuItem). same_status x.status active && row_shown k inc b (joined k inc x.id rows) in
    (
      menu_entries k inc rows (sort (item_le c) db.menu_items),
      refl,
      ground (
        arith,
        count-menu_entries k inc b i rows (sort (item_le c) db.menu_items),
        count-sort (item_le c) (item_shown k inc b i rows) db.menu_items,
        count_of_key i shown db.menu_items item (h.one_id i) found,
        joined_reads k inc b i rows (h.one_place k i),
        key_of_found item_key i db.menu_items item found,
      ),
    )
