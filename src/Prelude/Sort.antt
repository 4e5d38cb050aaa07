-- ===== src/Prelude/Sort.antt =====
-- ORDER BY, as the insertion sort by a comparison: rows that compare equal keep the table's order.
use Prim.Native.Nat.{suc, ◌+◌}
use mathlib.Core.Path.{◌≡◌, refl}
use mathlib.Core.Bool.{Bool, true, false}
use mathlib.Core.List.{List, [], ◌∷◌}
use native.Mathlib.Omega.{arith}
use dark_kitchen_simulator.Prelude.Lists.{All, length}
use dark_kitchen_simulator.Prelude.Tests.{if◌then◌else◌}
use dark_kitchen_simulator.Prelude.Table.{count}

module _ {ℓ} {A : Type ℓ} (le : A → A → Bool) where
  unfoldable pub insert : A → List A → List A
  insert x [] = x ∷ []
  insert x (y ∷ ys) = if le x y then x ∷ y ∷ ys else y ∷ insert x ys

  unfoldable pub sort : List A → List A
  sort [] = []
  sort (x ∷ xs) = insert x (sort xs)

  -- Each row compares with all that follow.
  abbrev pub IsSorted : List A → Type 0
  IsSorted [] = Unit
  IsSorted (x ∷ xs) = All (λ y. le x y ≡ true) xs × IsSorted xs

  -- A comparison of which one side holds, and which is transitive.
  pub record IsOrder : Type ℓ where
    pub total : (x y : A) → le x y ≡ false → le y x ≡ true
    pub transitive : (x y z : A) → le x y ≡ true → le y z ≡ true → le x z ≡ true

  pub count-insert :
      (p : A → Bool) (x : A) (xs : List A)
      → count p (insert x xs) ≡ (if p x then 1 else 0) + count p xs
  unfolding insert count
  count-insert p x [] = refl
  count-insert p x (y ∷ ys) = ground (arith, count-insert p x ys)

  pub count-sort : (p : A → Bool) (xs : List A) → count p (sort xs) ≡ count p xs
  unfolding sort count
  count-sort p [] = refl
  count-sort p (x ∷ xs) = ground (arith, count-sort p xs, count-insert p x (sort xs))

  pub length-insert : (x : A) (xs : List A) → length (insert x xs) ≡ suc (length xs)
  unfolding insert
  length-insert x [] = refl
  length-insert x (y ∷ ys) = ground (arith, length-insert x ys)

  pub All-insert {κ} : (P : A → Type κ) (x : A) (xs : List A) → P x → All P xs → All P (insert x xs)
  unfolding insert
  All-insert P x [] px h = (px, tt)
  All-insert P x (y ∷ ys) px h = ground (arith, All-insert P x ys px h.1)

  pub All-sort {κ} : (P : A → Type κ) (xs : List A) → All P xs → All P (sort xs)
  unfolding sort
  All-sort P [] h = tt
  All-sort P (x ∷ xs) h = All-insert P x (sort xs) h.0 (All-sort P xs h.1)

  insert-All {κ} : (P : A → Type κ) (x : A) (xs : List A) → All P (insert x xs) → P x × All P xs
  unfolding insert
  insert-All P x [] h = h
  insert-All P x (y ∷ ys) h = ground (arith, insert-All P x ys)

  -- What all rows of the result satisfy, all rows do.
  pub sort-All {κ} : (P : A → Type κ) (xs : List A) → All P (sort xs) → All P xs
  unfolding sort
  sort-All P [] h = tt
  sort-All P (x ∷ xs) h = let (px, rest) = insert-All P x (sort xs) h in (px, sort-All P xs rest)

  module _ (o : IsOrder) where
    below-All :
        (x y : A) (ys : List A)
        → le x y ≡ true
        → All (λ z. le y z ≡ true) ys
        → All (λ z. le x z ≡ true) ys
    below-All x y [] h a = tt
    below-All x y (z ∷ zs) h a = (o.transitive x y z h a.0, below-All x y zs h a.1)

    insert-IsSorted : (x : A) (xs : List A) → IsSorted xs → IsSorted (insert x xs)
    unfolding insert
    insert-IsSorted x [] h = (tt, tt)
    insert-IsSorted x (y ∷ ys) h = ground (
      arith,
      o.total x y,
      below-All x y ys,
      insert-IsSorted x ys h.1,
      All-insert (λ z. le y z ≡ true) x ys,
    )

    pub sort-IsSorted : (xs : List A) → IsSorted (sort xs)
    unfolding sort
    sort-IsSorted [] = tt
    sort-IsSorted (x ∷ xs) = insert-IsSorted x (sort xs) (sort-IsSorted xs)
