-- ===== src/Prelude/Texts.antt =====
-- Texts that the program walks, as lists of code points, and dictionaries with such keys.
use Prim.Native.Char.{code}
use Prim.Native.String.{String}
use Prim.Native.Nat.{ℕ, ◌+◌, ◌-◌, ◌*◌}
use mathlib.Core.Path.{◌≡◌, refl}
use mathlib.Core.Logic.{◌↔◌, inl, inr}
use mathlib.Core.Bool.{Bool, true, false, ◌&&◌, ◌||◌}
use mathlib.Core.Option.{Option, none, some}
use mathlib.Core.List.{List, [], ◌∷◌}
use native.Mathlib.Omega.{arith}
use cwstation.Prelude.Tests.{Bool-cases, leb, ◌==◌, if◌then◌else◌}

abbrev pub Text : Type 0
Text = List ℕ

abbrev pub codes : String → Text
codes String.[] = []
codes (String.◌∷◌ c s) = code c ∷ codes s

abbrev pub text_eq : Text → Text → Bool
text_eq [] [] = true
text_eq [] (y ∷ ys) = false
text_eq (x ∷ xs) [] = false
text_eq (x ∷ xs) (y ∷ ys) = x == y && text_eq xs ys

pub text_eq→eq : (xs ys : Text) → text_eq xs ys ≡ true → xs ≡ ys
text_eq→eq [] [] h = refl
text_eq→eq [] (y ∷ ys) h = cc
text_eq→eq (x ∷ xs) [] h = cc
text_eq→eq (x ∷ xs) (y ∷ ys) h = ground (arith, text_eq→eq xs ys)

pub text_eq_refl : (xs : Text) → text_eq xs xs ≡ true
text_eq_refl [] = refl
text_eq_refl (x ∷ xs) = ground (arith, text_eq_refl xs)

pub text_eq_iff : (xs ys : Text) → (text_eq xs ys ≡ true) ↔ (xs ≡ ys)
text_eq_iff xs ys = (text_eq→eq xs ys, λ e. rw e (text_eq_refl ys))

-- `str.upper` and `str.isdigit` on ASCII text.
abbrev pub to_upper : ℕ → ℕ
to_upper c = if leb b'a' c && leb c b'z' then c - 32 else c

abbrev pub is_digit : ℕ → Bool
is_digit c = leb b'0' c && leb c b'9'

abbrev pub is_upper : ℕ → Bool
is_upper c = leb b'A' c && leb c b'Z'

module _ {ℓ} {V : Type ℓ} where
  abbrev pub dict_get : Text → List (Text × V) → Option V
  dict_get k [] = none
  dict_get k ((j, v) ∷ m) = if text_eq j k then some v else dict_get k m

  -- `d[k] = v`: a new key goes to the end.
  abbrev pub dict_set : Text → V → List (Text × V) → List (Text × V)
  dict_set k v [] = (k, v) ∷ []
  dict_set k v ((j, w) ∷ m) = if text_eq j k then (j, v) ∷ m else (j, w) ∷ dict_set k v m

-- A test of every entry of a dictionary.
abbrev pub dict_all {ℓ} : {V : Type ℓ} → (Text → V → Bool) → List (Text × V) → Bool
dict_all p [] = true
dict_all p ((k, v) ∷ m) = p k v && dict_all p m

pub dict_all_sound {ℓ} :
    {V : Type ℓ} (p : Text → V → Bool) (m : List (Text × V)) (k : Text) (v : V)
    → dict_all p m ≡ true
    → dict_get k m ≡ some v
    → p k v ≡ true
dict_all_sound p [] k v h e = cc
dict_all_sound p ((j, w) ∷ m) k v h e = elim (Bool-cases (text_eq j k)) [
  | inl same ↦ ground (arith, text_eq→eq j k same)
  | inr other ↦ ground (arith, dict_all_sound p m k v)
]

-- `str.isspace` and `str.strip` on ASCII text.
unfoldable pub is_space : ℕ → Bool
is_space c = c == b' ' || leb 9 c && leb c 13 || leb 28 c && leb c 31

unfoldable pub lstrip : Text → Text
lstrip [] = []
lstrip (c ∷ rest) = let tail = lstrip rest in if is_space c then tail else c ∷ rest

unfoldable pub strip_end : Text → Text
strip_end [] = []
strip_end (c ∷ rest) =
    let tail = strip_end rest in
    elim tail [ [] ↦ if is_space c then [] else c ∷ [] | d ∷ t ↦ c ∷ d ∷ t ]

unfoldable pub strip : Text → Text
strip s = strip_end (lstrip s)

-- `str.lower` on ASCII text.
abbrev pub to_lower : ℕ → ℕ
to_lower c = if is_upper c then c + 32 else c

-- The value of a run of decimal digits.
abbrev pub number_from : ℕ → Text → ℕ
number_from n [] = n
number_from n (c ∷ rest) = number_from (n * 10 + (c - b'0')) rest
