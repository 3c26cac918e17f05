-- ===== src/Prelude/Numerals.antt =====
-- Numbers in decimal, as Python prints them.
use Prim.Native.Nat.{ℕ, zero, suc, ◌+◌, ◌-◌, ◌*◌, ◌/◌, ◌%◌, ◌≤◌, ◌<◌}
use mathlib.Core.Path.{◌≡◌, refl, ap, ◌∙◌}
use mathlib.Core.Logic.{inl, inr}
use mathlib.Core.Bool.{true, false}
use mathlib.Core.List.{[], ◌∷◌, ◌++◌}
use native.Mathlib.Omega.{arith}
use cwstation.Prelude.Tests.{ltb, Bool-cases}
use cwstation.Prelude.Lists.{length, replicate}
use cwstation.Prelude.Rows.{all_where, all_where-append}
use cwstation.Prelude.Texts.{Text, is_digit, number_from}

unfoldable pub digits_of : ℕ → ℕ → Text
digits_of zero n = (b'0' + n % 10) ∷ []
digits_of (suc fuel) n = elim (ltb n 10) [
  | true ↦ (b'0' + n) ∷ []
  | false ↦ digits_of fuel (n / 10) ++ (b'0' + n % 10) ∷ []
]

-- `str(n)`: a number has no more digits than its value and one.
unfoldable pub decimal : ℕ → Text
decimal n = digits_of n n

-- `f"{n:0{width}d}"`
unfoldable pub padded : ℕ → ℕ → Text
padded width n = replicate (width - length (decimal n)) b'0' ++ decimal n

number_from-append :
    (acc c : ℕ) (xs : Text) → number_from acc (xs ++ c ∷ []) ≡ number_from acc xs * 10 + (c - b'0')
number_from-append acc c [] = refl
number_from-append acc c (x ∷ xs) = number_from-append (acc * 10 + (x - b'0')) c xs

div_fuel : (n fuel : ℕ) → n ≤ suc fuel → 10 ≤ n → n / 10 ≤ fuel
div_fuel n fuel h big = omega arith

digits_small : (fuel n : ℕ) → ltb n 10 ≡ true → digits_of (suc fuel) n ≡ (b'0' + n) ∷ []
unfolding digits_of
digits_small fuel n e =
    ap
      (λ b. elim b as (λ _. Text) [
        | true ↦ (b'0' + n) ∷ []
        | false ↦ digits_of fuel (n / 10) ++ (b'0' + n % 10) ∷ []
      ])
      e

digits_more :
    (fuel n : ℕ)
    → ltb n 10 ≡ false
    → digits_of (suc fuel) n ≡ digits_of fuel (n / 10) ++ (b'0' + n % 10) ∷ []
unfolding digits_of
digits_more fuel n e =
    ap
      (λ b. elim b as (λ _. Text) [
        | true ↦ (b'0' + n) ∷ []
        | false ↦ digits_of fuel (n / 10) ++ (b'0' + n % 10) ∷ []
      ])
      e

number_from-digits_of : (fuel n : ℕ) → n ≤ fuel → number_from 0 (digits_of fuel n) ≡ n
unfolding digits_of
number_from-digits_of zero n h = omega arith
number_from-digits_of (suc fuel) n h = elim (Bool-cases (ltb n 10)) [
  | inl e ↦ rw (digits_small fuel n e) (omega arith)
  | inr e ↦
      let big : 10 ≤ n = ground arith in
      rw
        (
          digits_more fuel n e,
          number_from-append 0 (b'0' + n % 10) (digits_of fuel (n / 10)),
          number_from-digits_of fuel (n / 10) (div_fuel n fuel h big),
        )
        (omega arith)
]

pub number_from-decimal : (n : ℕ) → number_from 0 (decimal n) ≡ n
unfolding decimal
number_from-decimal n = number_from-digits_of n n (omega arith)

digit : (k : ℕ) → k < 10 → is_digit (b'0' + k) ≡ true
digit k h = ground arith

digits_of-is_digit : (fuel n : ℕ) → all_where is_digit (digits_of fuel n) ≡ true
unfolding digits_of
digits_of-is_digit zero n = ground (arith, digit (n % 10) (omega arith))
digits_of-is_digit (suc fuel) n = elim (Bool-cases (ltb n 10)) [
  | inl e ↦ rw (digits_small fuel n e) (ground (arith, digit n (ground arith)))
  | inr e ↦
      rw
        (
          digits_more fuel n e,
          all_where-append is_digit (digits_of fuel (n / 10)) ((b'0' + n % 10) ∷ []),
          digits_of-is_digit fuel (n / 10),
        )
        (ground (arith, digit (n % 10) (omega arith)))
]

pub decimal-is_digit : (n : ℕ) → all_where is_digit (decimal n) ≡ true
unfolding decimal
decimal-is_digit n = digits_of-is_digit n n

snoc_cons : (xs : Text) (c : ℕ) → (d : ℕ) × (ds : Text) × (xs ++ c ∷ [] ≡ d ∷ ds)
snoc_cons [] c = (c, [], refl)
snoc_cons (x ∷ xs) c = (x, xs ++ c ∷ [], refl)

digits_of-cons : (fuel n : ℕ) → (d : ℕ) × (ds : Text) × (digits_of fuel n ≡ d ∷ ds)
unfolding digits_of
digits_of-cons zero n = (b'0' + n % 10, [], refl)
digits_of-cons (suc fuel) n = elim (Bool-cases (ltb n 10)) [
  | inl e ↦ (b'0' + n, [], digits_small fuel n e)
  | inr e ↦
      let more = snoc_cons (digits_of fuel (n / 10)) (b'0' + n % 10) in
      (more.0, more.1, digits_more fuel n e ∙ more.2)
]

pub decimal-cons : (n : ℕ) → (d : ℕ) × (ds : Text) × (decimal n ≡ d ∷ ds)
unfolding decimal
decimal-cons n = digits_of-cons n n
