-- ===== src/Scheduler/Steps.antt =====
-- When a schedule fires next.
use cwstation.Prelude.{
  ℕ, zero, suc, ◌+◌, ◌-◌, ◌*◌, ◌/◌, ◌≤◌, ◌<◌, ◌≡◌, refl, sym, ◌∙◌, Text, leb, ltb, Bool-cases,
  ltb→lt, inl, inr, arith,
}
use native.Mathlib.Nat.{div-eq-sub-div}
use cwstation.Scheduler.Parsed.{parse_interval-pos}
use cwstation.Scheduler.Schedules.{
  ok, other_error, fixed, Calendar, max_time, add_fixed, step_loop, jump, step_interval,
  parse_interval,
}

-- The jump lands on the first of anchor, anchor + period, … behind `after`.
pub jump-steps :
    (anchor period after : ℕ)
    → 0 < period
    → anchor ≤ after
    → (after < anchor + ((after - anchor) / period + 1) * period)
      × (anchor + (after - anchor) / period * period ≤ after)
jump-steps anchor period after pos h = grind arith

add_fixed-sum : (a d b e : ℕ) → a + d ≡ b + e → add_fixed a d ≡ add_fixed b e
add_fixed-sum a d b e h = rw h refl

steps_one : (n period : ℕ) → n < period → (n / period + 1) * period ≡ period
steps_one n period h = grind arith

two_steps : (a p q : ℕ) → a + (q + 1 + 1) * p ≡ a + p + (q + 1) * p
two_steps a p q = omega arith

steps_more :
    (anchor after period : ℕ)
    → 0 < period
    → anchor + period ≤ after
    → anchor + ((after - anchor) / period + 1) * period
      ≡ (anchor + period) + ((after - (anchor + period)) / period + 1) * period
steps_more anchor after period pos h =
    let q : (after - anchor) / period ≡ (after - anchor - period) / period + 1 =
      div-eq-sub-div pos (omega arith) in
    let r : after - (anchor + period) ≡ after - anchor - period = omega arith in
    rw (q, r) (two_steps anchor period ((after - anchor - period) / period))

jump_ahead : (anchor period after : ℕ) → after < anchor → jump anchor period after ≡ ok anchor
unfolding jump
jump_ahead anchor period after h = ground arith

jump_behind :
    (anchor period after : ℕ)
    → anchor ≤ after
    → jump anchor period after ≡ add_fixed anchor (((after - anchor) / period + 1) * period)
unfolding jump
jump_behind anchor period after h = ground arith

-- One period further on, the jump is the same, as long as that is not past the end.
jump-add :
    (anchor period after : ℕ)
    → 0 < period
    → anchor ≤ after
    → anchor + period ≤ max_time
    → jump (anchor + period) period after ≡ jump anchor period after
jump-add anchor period after pos h fits = elim (Bool-cases (ltb after (anchor + period))) [
  | inl e ↦
      let far : after < anchor + period = ground arith in
      rw
        (
          jump_ahead (anchor + period) period after far,
          jump_behind anchor period after h,
          steps_one (after - anchor) period (omega arith),
        )
        (ground arith)
  | inr e ↦
      let near : anchor + period ≤ after = ground arith in
      rw (jump_behind (anchor + period) period after near, jump_behind anchor period after h)
        (add_fixed-sum _ _ _ _ (sym (steps_more anchor after period pos near)))
]

past_end : (a q p b : ℕ) → b < a + p → b < a + (q + 1) * p
past_end a q p b h = omega arith

add_fixed_past : (a d : ℕ) → max_time < a + d → add_fixed a d ≡ other_error
add_fixed_past a d h = ground arith

jump-past :
    (anchor period after : ℕ)
    → anchor ≤ after
    → max_time < anchor + period
    → jump anchor period after ≡ other_error
jump-past anchor period after h past =
    rw (jump_behind anchor period after h)
      (add_fixed_past anchor _ (past_end anchor ((after - anchor) / period) period max_time past))

-- The jump lands where the loop does, or fails as it does, when the loop's bound suffices.
jump-step_loop :
    (rounds anchor period after : ℕ)
    → 0 < period
    → after < anchor + rounds * period
    → jump anchor period after ≡ step_loop rounds (λ t. add_fixed t period) after anchor
unfolding step_loop
jump-step_loop zero anchor period after pos near = jump_ahead anchor period after (omega arith)
jump-step_loop (suc rounds) anchor period after pos near = elim (Bool-cases (ltb after anchor)) [
  | inl e ↦ rw e (jump_ahead anchor period after (ltb→lt after anchor e))
  | inr e ↦
      let h : anchor ≤ after = ground arith in
      elim (Bool-cases (leb (anchor + period) max_time)) [
        | inl fits ↦
            rw (e, fits)
              (sym (jump-add anchor period after pos h (ground arith))
                ∙ jump-step_loop rounds (anchor + period) period after pos (omega arith))
        | inr past ↦ rw (e, past) (jump-past anchor period after h (ground arith))
      ]
]

module _ ⦃cal : Calendar⦄ where
  -- The jump that `_step_interval` makes over a fixed period ends where its loop over calendar
  -- periods, with the fixed period added in each round, would end: at the same time, or with the same
  -- exception. The loop may have any bound that suffices for the way.
  pub step_interval-step_loop :
      (rounds anchor period after : ℕ) (spec : Text)
      → parse_interval spec ≡ ok (fixed period)
      → after < anchor + rounds * period
      → step_interval anchor spec after ≡ step_loop rounds (λ t. add_fixed t period) after anchor
  unfolding step_interval
  step_interval-step_loop rounds anchor period after spec parsed near =
      rw parsed
        (jump-step_loop rounds anchor period after (parse_interval-pos spec period parsed) near)
