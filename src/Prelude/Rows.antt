-- ===== src/Prelude/Rows.antt =====
-- How many rows of a table pass a test, and how updates and filters change what a query finds.
use Prim.Native.Nat.{zero, suc, ℕ, ◌≤◌, ◌+◌}
use mathlib.Core.Path.{◌≡◌, refl, ap}
use mathlib.Core.Logic.{inl, inr}
use mathlib.Core.Bool.{Bool, true, false, not, ◌||◌, ◌&&◌}
use mathlib.Core.Option.{none, some}
use mathlib.Core.List.{List, [], ◌∷◌, ◌++◌, map}
use native.Mathlib.Omega.{arith}
use cwstation.Prelude.Lists.{get_elem?}
use cwstation.Prelude.Tests.{Bool-cases, if◌then◌else◌}
use cwstation.Prelude.Tables.{
  find_first, any_where, filter_where, update_where, find_first-update_where,
}

module _ {ℓ} {A : Type ℓ} where
  abbrev pub count_where : (A → Bool) → List A → ℕ
  count_where p [] = 0
  count_where p (x ∷ xs) = (if p x then 1 else 0) + count_where p xs

  abbrev pub all_where : (A → Bool) → List A → Bool
  all_where p [] = true
  all_where p (x ∷ xs) = p x && all_where p xs

  pub count_where-append :
      (p : A → Bool) (xs ys : List A)
      → count_where p (xs ++ ys) ≡ count_where p xs + count_where p ys
  count_where-append p [] ys = omega arith
  count_where-append p (x ∷ xs) ys = omega (arith, count_where-append p xs ys)

  pub count_where-none :
      (p : A → Bool) (xs : List A) → any_where p xs ≡ false → count_where p xs ≡ 0
  count_where-none p [] h = refl
  count_where-none p (x ∷ xs) h = ground (arith, count_where-none p xs)

  pub count_where-update_where :
      (q p : A → Bool) (f : A → A)
      → ((x : A) → q (f x) ≡ q x)
      → (xs : List A) → count_where q (update_where p f xs) ≡ count_where q xs
  count_where-update_where q p f same [] = refl
  count_where-update_where q p f same (x ∷ xs) =
      ground (arith, same x, count_where-update_where q p f same xs)

  pub all_where-append :
      (p : A → Bool) (xs ys : List A) → all_where p (xs ++ ys) ≡ (all_where p xs && all_where p ys)
  all_where-append p [] ys = refl
  all_where-append p (x ∷ xs) ys = ground (arith, all_where-append p xs ys)

  -- An update that keeps a property keeps it everywhere.
  pub all_where-update_where :
      (q p : A → Bool) (f : A → A)
      → ((x : A) → q x ≡ true → q (f x) ≡ true)
      → (xs : List A) → all_where q xs ≡ true
      → all_where q (update_where p f xs) ≡ true
  all_where-update_where q p f keeps [] h = refl
  all_where-update_where q p f keeps (x ∷ xs) h =
      ground (arith, keeps x, all_where-update_where q p f keeps xs)

  pub find_first-snoc :
      (p : A → Bool) (xs : List A) (x : A)
      → find_first p xs ≡ none
      → p x ≡ true
      → find_first p (xs ++ x ∷ []) ≡ some x
  find_first-snoc p [] x h e = rw e refl
  find_first-snoc p (y ∷ ys) x h e = ground (arith, find_first-snoc p ys x)

  -- An update after which its own test fails leaves no row to find.
  pub find_first-update_where-none :
      (p : A → Bool) (f : A → A)
      → ((x : A) → p (f x) ≡ false)
      → (xs : List A) → find_first p (update_where p f xs) ≡ none
  find_first-update_where-none p f clears [] = refl
  find_first-update_where-none p f clears (x ∷ xs) =
      ground (arith, clears x, find_first-update_where-none p f clears xs)

  pub get_elem?-update_where :
      (p : A → Bool) (f : A → A) (xs : List A) (i : ℕ) (x : A)
      → get_elem? xs i ≡ some x
      → p x ≡ false
      → get_elem? (update_where p f xs) i ≡ some x
  get_elem?-update_where p f [] i x h e = h
  get_elem?-update_where p f (y ∷ ys) zero x h e = ground arith
  get_elem?-update_where p f (y ∷ ys) (suc i) x h e = get_elem?-update_where p f ys i x h e

  pub find_first-update_where-still_none :
      (q p : A → Bool) (f : A → A)
      → ((x : A) → q (f x) ≡ q x)
      → (xs : List A) → find_first q xs ≡ none
      → find_first q (update_where p f xs) ≡ none
  find_first-update_where-still_none q p f same xs h =
      rw (find_first-update_where q p f same xs, h) refl

  -- Rows that a query cannot match need not be fetched for it.
  pub find_first-filter_where :
      (p q : A → Bool)
      → ((x : A) → p x ≡ true → q x ≡ true)
      → (xs : List A) → find_first p (filter_where q xs) ≡ find_first p xs
  find_first-filter_where p q implied [] = refl
  find_first-filter_where p q implied (x ∷ xs) =
      ground (arith, implied x, find_first-filter_where p q implied xs)

  pub find_first-excluded :
      (p q : A → Bool) (xs : List A)
      → all_where (λ x. not (p x)) xs ≡ true
      → find_first p (filter_where q xs) ≡ find_first p xs
  find_first-excluded p q [] h = refl
  find_first-excluded p q (x ∷ xs) h = ground (arith, find_first-excluded p q xs)

  pub any_where-filter_where :
      (q p : A → Bool) (xs : List A)
      → count_where q xs ≡ 0
      → any_where q (filter_where p xs) ≡ false
  any_where-filter_where q p [] h = refl
  any_where-filter_where q p (x ∷ xs) h = ground (arith, any_where-filter_where q p xs)

  pub count_where-get_elem? :
      (q : A → Bool) (xs : List A) (i : ℕ) (x : A)
      → get_elem? xs i ≡ some x
      → q x ≡ true
      → 1 ≤ count_where q xs
  count_where-get_elem? q [] i x h e = cc
  count_where-get_elem? q (y ∷ ys) zero x h e = ground arith
  count_where-get_elem? q (y ∷ ys) (suc i) x h e =
      ground (arith, count_where-get_elem? q ys i x h e)

  -- A row that a filter drops, and whose key no other row has, has no namesake behind the filter.
  pub any_where-dropped :
      (q p : A → Bool) (xs : List A) (i : ℕ) (x : A)
      → get_elem? xs i ≡ some x
      → q x ≡ true
      → p x ≡ false
      → count_where q xs ≤ 1
      → any_where q (filter_where p xs) ≡ false
  any_where-dropped q p [] i x h e d unique = cc
  any_where-dropped q p (y ∷ ys) zero x h e d unique = ground (arith, any_where-filter_where q p ys)
  any_where-dropped q p (y ∷ ys) (suc i) x h e d unique =
      ground (arith, count_where-get_elem? q ys i x h e, any_where-dropped q p ys i x h e d)

  pub any_where-map {κ} :
      {B : Type κ} (q : B → Bool) (f : A → B) (xs : List A)
      → any_where (λ x. q (f x)) xs ≡ any_where q (map f xs)
  any_where-map q f [] = refl
  any_where-map q f (x ∷ xs) = ap (λ b. q (f x) || b) (any_where-map q f xs)

  pub all_where-find_first :
      (q p : A → Bool) (xs : List A) (x : A)
      → all_where q xs ≡ true
      → find_first p xs ≡ some x
      → q x ≡ true
  all_where-find_first q p [] x h e = cc
  all_where-find_first q p (y ∷ ys) x h e = elim (Bool-cases (p y)) [
    | inl f ↦ ground arith
    | inr f ↦ ground (arith, all_where-find_first q p ys x)
  ]

  -- The first row of a query is the first of a narrower one that it passes.
  pub find_first-narrow :
      (p q : A → Bool) (xs : List A) (x : A)
      → ((y : A) → q y ≡ true → p y ≡ true)
      → find_first p xs ≡ some x
      → q x ≡ true
      → find_first q xs ≡ some x
  find_first-narrow p q [] x implied e h = cc
  find_first-narrow p q (y ∷ ys) x implied e h = elim (Bool-cases (p y)) [
    | inl f ↦ ground arith
    | inr f ↦ ground (arith, implied y, find_first-narrow p q ys x implied)
  ]

  pub any_where-update_where :
      (q p : A → Bool) (f : A → A)
      → ((x : A) → q (f x) ≡ q x)
      → (xs : List A) → any_where q (update_where p f xs) ≡ any_where q xs
  any_where-update_where q p f same [] = refl
  any_where-update_where q p f same (x ∷ xs) =
      ground (arith, same x, any_where-update_where q p f same xs)

  pub any_where-cleared :
      (p : A → Bool) (f : A → A)
      → ((x : A) → p (f x) ≡ false)
      → (xs : List A) → any_where p (update_where p f xs) ≡ false
  any_where-cleared p f clears [] = refl
  any_where-cleared p f clears (x ∷ xs) = ground (arith, clears x, any_where-cleared p f clears xs)

  pub get_elem?-update_where-hit :
      (p : A → Bool) (f : A → A) (xs : List A) (i : ℕ) (x : A)
      → get_elem? xs i ≡ some x
      → p x ≡ true
      → get_elem? (update_where p f xs) i ≡ some (f x)
  get_elem?-update_where-hit p f [] i x h e = cc
  get_elem?-update_where-hit p f (y ∷ ys) zero x h e = ground arith
  get_elem?-update_where-hit p f (y ∷ ys) (suc i) x h e = get_elem?-update_where-hit p f ys i x h e
