-- ===== src/Cw/Floats.antt =====
-- The floating-point arithmetic that the decoder calls. Nothing is assumed of it: every theorem
-- about the decoder holds for whatever these operations compute, rounding included.
use cwstation.Prelude.{ℕ, Bool, List}

pub record Floats : Type 1 where
  pub F : Type 0
  -- the literal `m / 10 ^ k`
  pub lit : ℕ → ℕ → F
  pub of_ℕ : ℕ → F
  pub add : F → F → F
  pub sub : F → F → F
  pub mul : F → F → F
  pub div : F → F → F
  pub lt : F → F → Bool
  pub le : F → F → Bool
  pub is_zero : F → Bool
  -- `round(x, digits)`, and `int(round(x))`
  pub round : F → ℕ → F
  pub round_int : F → ℕ
  -- `math.log10`, and numpy's `clip`, `min` and `median` of an array
  pub log10 : F → F
  pub clip : F → F → F → F
  pub minimum : List F → F
  pub median : List F → F
