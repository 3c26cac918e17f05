-- ===== src/Cw/Milli.antt =====
-- A float arithmetic to run the decoder with: signed numbers in thousandths. `log10` is replaced by
-- the identity and `median` by the first element, which the runs do not depend on.
use cwstation.Prelude.{
  ℕ, suc, ◌+◌, ◌-◌, ◌*◌, ◌/◌, ◌^◌, Bool, List, [], ◌∷◌, ltb, leb, ◌==◌, not, if◌then◌else◌,
}
use cwstation.Cw.Floats.{Floats}

-- `negsuc n` is -(n + 1).
pub data ℤ : Type 0 where
  pos : ℕ → ℤ
  negsuc : ℕ → ℤ

abbrev pub pos_part : ℤ → ℕ
pos_part (pos n) = n
pos_part (negsuc n) = 0

abbrev pub neg_part : ℤ → ℕ
neg_part (pos n) = 0
neg_part (negsuc n) = suc n

-- a - b, as an integer.
abbrev pub sub_ℕ : ℕ → ℕ → ℤ
sub_ℕ a b = if leb b a then pos (a - b) else negsuc (b - a - 1)

-- (a * b) / c, towards zero, for numbers in thousandths
abbrev pub mul_div : ℤ → ℤ → ℕ → ℤ
mul_div a b c =
    sub_ℕ ((pos_part a * pos_part b + neg_part a * neg_part b) / c)
      ((pos_part a * neg_part b + neg_part a * pos_part b) / c)

abbrev pub ltb_ℤ : ℤ → ℤ → Bool
ltb_ℤ a b = ltb (pos_part a + neg_part b) (pos_part b + neg_part a)

abbrev pub minimum : List ℤ → ℤ
minimum [] = pos 0
minimum (x ∷ []) = x
minimum (x ∷ y ∷ rest) = let m = minimum (y ∷ rest) in if ltb_ℤ m x then m else x

abbrev pub first : List ℤ → ℤ
first [] = pos 0
first (x ∷ _) = x

abbrev pub milli : Floats
milli = record {
  F = ℤ;
  lit = λ m k. pos (m * 1000 / 10 ^ k);
  of_ℕ = λ n. pos (n * 1000);
  add = λ a b. sub_ℕ (pos_part a + pos_part b) (neg_part a + neg_part b);
  sub = λ a b. sub_ℕ (pos_part a + neg_part b) (neg_part a + pos_part b);
  mul = λ a b. mul_div a b 1000;
  div = λ a b. mul_div a (pos 1000) (pos_part b);
  lt = ltb_ℤ;
  le = λ a b. not (ltb_ℤ b a);
  is_zero = λ a. pos_part a + neg_part a == 0;
  round = λ a _. a;
  round_int = λ a. (pos_part a + 500) / 1000;
  log10 = λ a. a;
  clip = λ x lo hi. if ltb_ℤ x lo then lo else if ltb_ℤ hi x then hi else x;
  minimum = minimum;
  median = first;
}
