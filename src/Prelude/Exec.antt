-- ===== src/Prelude/Exec.antt =====
-- Service methods: they read and write a state and may raise. What was written before a raise stays
-- written, so the state comes back beside the error too.
use mathlib.Core.Path.{◌≡◌, refl}
use mathlib.Core.Logic.{◌⊎◌, inl, inr}
use mathlib.Core.Bool.{Bool}
use mathlib.Core.Option.{Option, none, some}
use dark_kitchen_simulator.Prelude.Tests.{if◌then◌else◌}

pub data Result (E A : Type 0) : Type 0 where
  ok : A → Result E A
  err : E → Result E A

pub Result-cases :
    {E A : Type 0} (r : Result E A) → ((a : A) × (r ≡ ok a)) ⊎ ((e : E) × (r ≡ err e))
Result-cases (ok a) = inl (a, refl)
Result-cases (err e) = inr (e, refl)

abbrev pub Exec : Type 0 → Type 0 → Type 0 → Type 0
Exec E S A = S → Result E A × S

module _ {E S : Type 0} where
  abbrev pub pure : {A : Type 0} → A → Exec E S A
  pure a s = (ok a, s)

  abbrev pub raise : {A : Type 0} → E → Exec E S A
  raise e s = (err e, s)

  abbrev pub gets : {A : Type 0} → (S → A) → Exec E S A
  gets f s = (ok (f s), s)

  abbrev pub modify : (S → S) → Exec E S (Unit {0})
  modify f s = (ok tt, f s)

  abbrev pub raise_if : Bool → E → Exec E S (Unit {0})
  raise_if b e s = (if b then err e else ok tt, s)

  abbrev pub or_raise : {A : Type 0} → Option A → E → Exec E S A
  or_raise none e s = (err e, s)
  or_raise (some a) e s = (ok a, s)

  abbrev pub lift : {A : Type 0} → Result E A → Exec E S A
  lift r s = (r, s)

  infixl 5 ◌>>=◌ ◌>>◌
  abbrev pub ◌>>=◌ : {A B : Type 0} → Exec E S A → (A → Exec E S B) → Exec E S B
  ◌>>=◌ m f s = let (r, s') = m s in elim r [ ok a ↦ f a s' | err e ↦ (err e, s') ]

  abbrev pub ◌>>◌ : {A B : Type 0} → Exec E S A → Exec E S B → Exec E S B
  m >> k = m >>= λ _. k

  -- The step keeps `P`, whether it returns or raises.
  abbrev pub Keeps : {A : Type 0} → (S → Type 0) → Exec E S A → Type 0
  Keeps P m = (s : S) → P s → P (m s).1

  Keeps-bind_at :
      {A B : Type 0} (P : S → Type 0) (r : Result E A) (s : S) (f : A → Exec E S B)
      → ((a : A) → Keeps P (f a))
      → P s
      → P (((λ _. (r, s)) >>= f) s).1
  Keeps-bind_at P (ok a) s f kf h = kf a s h
  Keeps-bind_at P (err e) s f kf h = h

  pub Keeps-bind :
      {A B : Type 0} (P : S → Type 0) (m : Exec E S A) (f : A → Exec E S B)
      → Keeps P m
      → ((a : A) → Keeps P (f a))
      → Keeps P (m >>= f)
  Keeps-bind P m f km kf s h = Keeps-bind_at P (m s).0 (m s).1 f kf (km s h)

  -- What holds after a sequence, by the outcome of its first step.
  pub >>=-post :
      {A B : Type 0} (Q : Result E B × S → Type 0) (r : Result E A) (s : S) (f : A → Exec E S B)
      → ((a : A) → r ≡ ok a → Q (f a s))
      → ((e : E) → r ≡ err e → Q (err e, s))
      → Q (((λ _. (r, s)) >>= f) s)
  >>=-post Q (ok a) s f returns raises = returns a refl
  >>=-post Q (err e) s f returns raises = raises e refl

  -- A sequence that returns has a first step that returns.
  pub >>=-eq-ok :
      {A B : Type 0} (r : Result E A) (s : S) (f : A → Exec E S B) {b : B}
      → (((λ _. (r, s)) >>= f) s).0 ≡ ok b
      → (a : A) × (r ≡ ok a)
  >>=-eq-ok (ok a) s f h = (a, refl)
  >>=-eq-ok (err e) s f h = cc
