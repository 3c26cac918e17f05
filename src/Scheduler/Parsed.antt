-- ===== src/Scheduler/Parsed.antt =====
-- What parse_interval (apps/scheduler/schedules.py) returns is positive.
use cwstation.Prelude.{
  ℕ, ◌*◌, ◌<◌, ◌≡◌, refl, ap, Option, none, some, [], ◌∷◌, Text, to_lower, lstrip, number_from,
  ◌==◌, Bool-cases, inl, inr, arith,
}
use cwstation.Scheduler.Schedules.{
  ok, CalendarUnit, fixed, calendar, drop_digits, take_digits, unit_letter, unit_match,
  IntervalUnit, of_fixed, of_calendar, delta_matched, delta_of, parse_interval,
}

unit_letter-pos : (c n : ℕ) → unit_letter c ≡ some (of_fixed n) → 0 < n
unit_letter-pos c n h = ground arith

unit_match-pos : (t : Text) (n : ℕ) → unit_match t ≡ some (of_fixed n) → 0 < n
unfolding unit_match
unit_match-pos [] n h = cc
unit_match-pos (c ∷ []) n h = unit_letter-pos (to_lower c) n h
unit_match-pos (c ∷ e ∷ rest) n h = ground (arith, unit_letter-pos (to_lower c) n)

mul_pos : (a b : ℕ) → 0 < a → 0 < b → 0 < a * b
mul_pos a b h k = grind arith

delta_of-pos :
    (count period : ℕ) (unit : IntervalUnit)
    → 0 < count
    → ((n : ℕ) → unit ≡ of_fixed n → 0 < n)
    → delta_of count unit ≡ ok (fixed period)
    → 0 < period
delta_of-pos count period (of_fixed n) pos h e =
    ground (arith, h n refl, mul_pos count n pos (h n refl))
delta_of-pos count period (of_calendar u) pos h e = cc

delta_of-count :
    (count n : ℕ) (u : CalendarUnit) (unit : IntervalUnit)
    → 0 < count
    → delta_of count unit ≡ ok (calendar u n)
    → 0 < n
delta_of-count count n u (of_fixed m) pos e = ground arith
delta_of-count count n u (of_calendar v) pos e = ground arith

delta_matched-pos :
    (digits : Text) (o : Option IntervalUnit) (period : ℕ)
    → ((n : ℕ) → o ≡ some (of_fixed n) → 0 < n)
    → delta_matched digits o ≡ ok (fixed period)
    → 0 < period
delta_matched-pos [] o period h e = cc
delta_matched-pos (c ∷ ds) none period h e = cc
delta_matched-pos (c ∷ ds) (some unit) period h e =
    elim (Bool-cases (number_from 0 (c ∷ ds) == 0)) [
      | inl z ↦ ground arith
      | inr z ↦
          delta_of-pos (number_from 0 (c ∷ ds)) period unit (ground arith) (λ n q. h n (ap some q))
            (ground arith)
    ]

delta_matched-count :
    (digits : Text) (o : Option IntervalUnit) (u : CalendarUnit) (n : ℕ)
    → delta_matched digits o ≡ ok (calendar u n)
    → 0 < n
delta_matched-count [] o u n e = cc
delta_matched-count (c ∷ ds) none u n e = cc
delta_matched-count (c ∷ ds) (some unit) u n e = elim (Bool-cases (number_from 0 (c ∷ ds) == 0)) [
  | inl z ↦ ground arith
  | inr z ↦ delta_of-count (number_from 0 (c ∷ ds)) n u unit (ground arith) (ground arith)
]

pub parse_interval-pos :
    (spec : Text) (period : ℕ) → parse_interval spec ≡ ok (fixed period) → 0 < period
unfolding parse_interval
parse_interval-pos spec period e =
    delta_matched-pos (take_digits (lstrip spec)) (unit_match (lstrip (drop_digits (lstrip spec))))
      period (unit_match-pos (lstrip (drop_digits (lstrip spec)))) e

pub parse_interval-count :
    (spec : Text) (u : CalendarUnit) (n : ℕ) → parse_interval spec ≡ ok (calendar u n) → 0 < n
unfolding parse_interval
parse_interval-count spec u n e =
    delta_matched-count (take_digits (lstrip spec))
      (unit_match (lstrip (drop_digits (lstrip spec)))) u n e
