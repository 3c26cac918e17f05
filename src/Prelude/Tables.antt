-- ===== src/Prelude/Tables.antt =====
-- A database table as the list of its rows, and the queries that the program makes of it: `filter`
-- with `first`, `exists` and `update`.
use mathlib.Core.Path.{◌≡◌, refl}
use mathlib.Core.Logic.{inl, inr}
use mathlib.Core.Bool.{Bool, true, false, ◌||◌}
use mathlib.Core.Option.{Option, none, some}
use mathlib.Core.List.{List, [], ◌∷◌, ◌++◌}
use native.Mathlib.Omega.{arith}
use cwstation.Prelude.Tests.{Bool-cases, if◌then◌else◌}

module _ {ℓ} {A : Type ℓ} where
  abbrev pub find_first : (A → Bool) → List A → Option A
  find_first p [] = none
  find_first p (x ∷ xs) = let rest = find_first p xs in if p x then some x else rest

  abbrev pub any_where : (A → Bool) → List A → Bool
  any_where p [] = false
  any_where p (x ∷ xs) = p x || any_where p xs

  abbrev pub filter_where : (A → Bool) → List A → List A
  filter_where p [] = []
  filter_where p (x ∷ xs) = let rest = filter_where p xs in if p x then x ∷ rest else rest

  abbrev pub update_where : (A → Bool) → (A → A) → List A → List A
  update_where p f [] = []
  update_where p f (x ∷ xs) = (if p x then f x else x) ∷ update_where p f xs

  abbrev pub map_some {κ} : {B : Type κ} → (A → B) → Option A → Option B
  map_some f none = none
  map_some f (some x) = some (f x)

  -- An update that leaves a query's test alone changes the row that the query finds.
  pub find_first-update_where :
      (q p : A → Bool) (f : A → A)
      → ((x : A) → q (f x) ≡ q x)
      → (xs : List A)
      → find_first q (update_where p f xs)
        ≡ map_some (λ x. if p x then f x else x) (find_first q xs)
  find_first-update_where q p f same [] = refl
  find_first-update_where q p f same (x ∷ xs) =
      ground (arith, same x, find_first-update_where q p f same xs)

  pub find_first-none :
      (p : A → Bool) (xs : List A) → find_first p xs ≡ none → any_where p xs ≡ false
  find_first-none p [] h = refl
  find_first-none p (x ∷ xs) h = ground (arith, find_first-none p xs)

  pub any_where-find_first :
      (p : A → Bool) (xs : List A) {x : A} → find_first p xs ≡ some x → any_where p xs ≡ true
  any_where-find_first p [] h = cc
  any_where-find_first p (y ∷ xs) {x} h = ground (arith, any_where-find_first p xs {x = x})

  pub find_first_sound :
      (p : A → Bool) (xs : List A) {x : A} → find_first p xs ≡ some x → p x ≡ true
  find_first_sound p [] h = cc
  find_first_sound p (y ∷ xs) {x} h = elim (Bool-cases (p y)) [
    | inl e ↦ ground arith
    | inr e ↦ ground (arith, find_first_sound p xs {x = x})
  ]

  pub any_where-append :
      (p : A → Bool) (xs ys : List A) → any_where p (xs ++ ys) ≡ (any_where p xs || any_where p ys)
  any_where-append p [] ys = refl
  any_where-append p (x ∷ xs) ys = ground (arith, any_where-append p xs ys)
