-- ===== src/Prelude/Table.antt =====
-- A database table as the list of its rows: the lookup by a key, the write of one row,
-- and the count and the selection of the rows that a condition admits.
use Prim.Native.Nat.{ℕ, ◌+◌}
use mathlib.Core.Path.{◌≡◌, refl}
use mathlib.Core.Logic.{◌≢◌}
use mathlib.Core.Bool.{Bool}
use mathlib.Core.Option.{Option, none, some}
use mathlib.Core.List.{List, [], ◌∷◌}
use native.Mathlib.Omega.{arith}
use dark_kitchen_simulator.Prelude.Lists.{All}
use dark_kitchen_simulator.Prelude.Tests.{◌==◌, if◌then◌else◌}

module _ {ℓ} {A : Type ℓ} where
  -- SELECT count(*) … WHERE p
  unfoldable pub count : (A → Bool) → List A → ℕ
  count p [] = 0
  count p (x ∷ xs) = (if p x then 1 else 0) + count p xs

  -- SELECT … WHERE p
  unfoldable pub select : (A → Bool) → List A → List A
  select p [] = []
  select p (x ∷ xs) = let rest = select p xs in if p x then x ∷ rest else rest

module _ {ℓ} {A : Type ℓ} (key : A → ℕ) where
  -- SELECT … WHERE key = k: the first row
  unfoldable pub find : ℕ → List A → Option A
  find k [] = none
  find k (x ∷ xs) = if key x == k then some x else find k xs

  -- UPDATE … WHERE key = key x
  unfoldable pub save : A → List A → List A
  save x [] = []
  save x (y ∷ ys) = if key y == key x then x ∷ ys else y ∷ save x ys

  pub key_of_found : (k : ℕ) (xs : List A) (x : A) → find k xs ≡ some x → key x ≡ k
  unfolding find
  key_of_found k [] x h = cc
  key_of_found k (y ∷ ys) x h = ground (arith, key_of_found k ys x)

  pub find-save_self :
      (k : ℕ) (x y : A) (xs : List A) → find k xs ≡ some y → key x ≡ k → find k (save x xs) ≡ some x
  unfolding find save
  find-save_self k x y [] h e = cc
  find-save_self k x y (z ∷ zs) h e = ground (arith, find-save_self k x y zs)

  pub find-save_ne : (k : ℕ) (x : A) (xs : List A) → key x ≢ k → find k (save x xs) ≡ find k xs
  unfolding find save
  find-save_ne k x [] h = refl
  find-save_ne k x (z ∷ zs) h = ground (arith, find-save_ne k x zs h)

  pub save-save : (x y : A) (xs : List A) → key x ≡ key y → save x (save y xs) ≡ save x xs
  unfolding save
  save-save x y [] h = refl
  save-save x y (z ∷ zs) h = ground (arith, save-save x y zs h)

  pub save_found : (k : ℕ) (x : A) (xs : List A) → find k xs ≡ some x → save x xs ≡ xs
  unfolding find save
  save_found k x [] h = refl
  save_found k x (z ∷ zs) h = ground (arith, save_found k x zs, key_of_found k zs x)

  -- One row changes the count by what it was and what it is.
  pub count-save :
      (p : A → Bool) (k : ℕ) (x y : A) (xs : List A)
      → find k xs ≡ some y
      → key x ≡ k
      → count p (save x xs) + (if p y then 1 else 0) ≡ count p xs + (if p x then 1 else 0)
  unfolding find save count
  count-save p k x y [] h e = cc
  count-save p k x y (z ∷ zs) h e = ground (arith, count-save p k x y zs)

  pub All-save {κ} : (P : A → Type κ) (x : A) (xs : List A) → P x → All P xs → All P (save x xs)
  unfolding save
  All-save P x [] px h = tt
  All-save P x (z ∷ zs) px h = ground (arith, All-save P x zs px h.1)

  pub All-find {κ} :
      (P : A → Type κ) (k : ℕ) (xs : List A) (x : A) → All P xs → find k xs ≡ some x → P x
  unfolding find
  All-find P k [] x h e = cc
  All-find P k (z ∷ zs) x h e = ground (arith, All-find P k zs x h.1)
