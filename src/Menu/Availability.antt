-- ===== src/Menu/Availability.antt =====
-- About the availability of the items in the kitchens, services/menu-service/app/services.py.
use dark_kitchen_simulator.Prelude.{
  ℕ, ◌≡◌, ◌∙◌, refl, List, [], ◌∷◌, Option, Bool, true, false, ◌&&◌, ◌==◌, arith, if◌then◌else◌,
  none, some, inl, inr, Option-cases, find,
}
use dark_kitchen_simulator.Prelude.Time.{Datetime}
use dark_kitchen_simulator.Menu.Models.{MenuItem, KitchenMenuAvailability, Db, AvailabilityUpsert}
use dark_kitchen_simulator.Menu.Service.{
  item_key, same_place, upsert, upsert_availability, get_menu_item,
}

-- What the table says of an item in a kitchen: nothing, or whether it is available.
abbrev pub Offers : Type 0
Offers = ℕ → ℕ → Option Bool

unfoldable pub lookup : List KitchenMenuAvailability → Offers
lookup [] k i = none
lookup (x ∷ xs) k i = if same_place k i x then some x.is_available else lookup xs k i

-- The same request on the map.
abbrev pub set : ℕ → ℕ → Bool → Offers → Offers
set k i b m k' i' = if k == k' && i == i' then some b else m k' i'

pub record Upsert : Type 0 where
  pub now : Datetime
  pub kitchen_id : ℕ
  pub menu_item_id : ℕ
  pub payload : AvailabilityUpsert

unfoldable pub is_known : List MenuItem → ℕ → Bool
is_known items i = elim (find item_key i items) [ none ↦ false | some item ↦ true ]

abbrev pub upsert_all : List Upsert → Db → Db
upsert_all [] db = db
upsert_all (u ∷ us) db =
    upsert_all us (upsert_availability u.now u.kitchen_id u.menu_item_id u.payload db).1

abbrev pub set_all : (ℕ → Bool) → List Upsert → Offers → Offers
set_all known [] m = m
set_all known (u ∷ us) m =
    set_all known us
      (if known u.menu_item_id then set u.kitchen_id u.menu_item_id u.payload.is_available m else m)

lookup-upsert :
    (now : Datetime) (k i k' i' : ℕ) (p : AvailabilityUpsert) (xs : List KitchenMenuAvailability)
    → lookup (upsert now k i p xs).1 k' i' ≡ set k i p.is_available (lookup xs) k' i'
unfolding lookup upsert
lookup-upsert now k i k' i' p [] = ground arith
lookup-upsert now k i k' i' p (x ∷ xs) = ground (arith, lookup-upsert now k i k' i' p xs)

module _ (now : Datetime) (k i : ℕ) (p : AvailabilityUpsert) (db : Db) where
  upsert_sets : lookup (upsert_availability now k i p db).1.availability ≡ (
      if is_known db.menu_items i
      then set k i p.is_available (lookup db.availability)
      else lookup db.availability)
  unfolding upsert_availability get_menu_item is_known
  upsert_sets = elim (Option-cases (find item_key i db.menu_items)) [
    | inl missing ↦ ground arith
    | inr (item, found) ↦
        let e : (upsert_availability now k i p db).1.availability
            ≡ (upsert now k i p db.availability).1 =
          ground arith in
        let known : is_known db.menu_items i ≡ true = ground arith in
        rw (e, known) (λ j k' i'. lookup-upsert now k i k' i' p db.availability j)
  ]

  upsert_items : (upsert_availability now k i p db).1.menu_items ≡ db.menu_items
  unfolding upsert_availability get_menu_item
  upsert_items = ground arith

-- The availability table refines a map from a kitchen and an item to whether it is available there:
-- after any sequence of requests it reads as the map after the same requests, of which those for an
-- item that the service does not have change nothing.
pub upsert_all-refines :
    (us : List Upsert) (db : Db)
    → lookup (upsert_all us db).availability
      ≡ set_all (is_known db.menu_items) us (lookup db.availability)
upsert_all-refines [] db = refl
upsert_all-refines (u ∷ us) db =
    let db' = (upsert_availability u.now u.kitchen_id u.menu_item_id u.payload db).1 in
    let items = upsert_items u.now u.kitchen_id u.menu_item_id u.payload db in
    let sets = upsert_sets u.now u.kitchen_id u.menu_item_id u.payload db in
    upsert_all-refines us db' ∙ rw (items, sets)
