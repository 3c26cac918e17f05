-- ===== src/Scheduler/Next.antt =====
-- When a schedule fires next (next_run of apps/scheduler/schedules.py).
use cwstation.Prelude.{
  ℕ, zero, suc, ◌+◌, ◌*◌, ◌≤◌, ◌<◌, ◌≡◌, refl, ap, ◌∙◌, Option, none, some, Text, ltb, Bool-cases,
  Option-cases, inl, inr, arith,
}
use cwstation.Scheduler.Parsed.{parse_interval-pos, parse_interval-count}
use cwstation.Scheduler.Steps.{jump-steps}
use cwstation.Scheduler.Schedules.{
  Result, ok, config_error, other_error, CalendarUnit, IntervalDelta, fixed, calendar, ScheduleType,
  once, interval, cron, unknown, Schedule, Calendar, max_steps, day, step_loop, jump, add_months,
  step_by, step_interval, next_of, next_run, parse_interval, or_after, some_ok, is_empty, or_other,
  or_config, Result-cases,
}

-- The documented behaviour of python-dateutil and croniter: a positive number of months or years is
-- at least 28 days, and the next fire of a cron expression is later than the time given.
pub record CalendarLaws (cal : Calendar) : Type 0 where
  pub month_long :
      (u : CalendarUnit) (n t t' : ℕ) → 0 < n → cal.add_calendar u n t ≡ some t' → t + 28 * day ≤ t'
  pub cron_later : (expr zone : Text) (t t' : ℕ) → cal.cron_next expr zone t ≡ some t' → t < t'

or_other-some : (o : Option ℕ) (t : ℕ) → or_other o ≡ ok t → o ≡ some t
or_other-some none t e = cc
or_other-some (some a) t e = cc

or_config-some : (o : Option ℕ) (t : ℕ) → or_config o ≡ ok t → o ≡ some t
or_config-some none t e = cc
or_config-some (some a) t e = cc

step_loop-later :
    (rounds : ℕ) (add : ℕ → Result ℕ) (period after nxt t : ℕ)
    → ((a b : ℕ) → add a ≡ ok b → a + period ≤ b)
    → after < nxt + rounds * period
    → step_loop rounds add after nxt ≡ ok t
    → after < t
unfolding step_loop
step_loop-later zero add period after nxt t h near e = ground arith
step_loop-later (suc rounds) add period after nxt t h near e = elim (Bool-cases (ltb after nxt)) [
  | inl done ↦ ground arith
  | inr more ↦ elim (Result-cases (add nxt)) [
    | inl (b, q) ↦
        let far : after < b + rounds * period = grind (arith, h nxt b q) in
        ground (arith, q, step_loop-later rounds add period after b t h far)
    | inr (inl q) ↦ ground (arith, q)
    | inr (inr q) ↦ ground (arith, q)
  ]
]

jump-later : (anchor period after t : ℕ) → 0 < period → jump anchor period after ≡ ok t → after < t
unfolding jump
jump-later anchor period after t pos e = elim (Bool-cases (ltb after anchor)) [
  | inl y ↦ ground arith
  | inr n ↦
      let h : anchor ≤ after = ground arith in
      ground (arith, (jump-steps anchor period after pos h).1)
]

module _ ⦃cal : Calendar⦄ (laws : CalendarLaws cal) where
  step_by-later :
      (anchor after t : ℕ) (delta : IntervalDelta)
      → ((period : ℕ) → delta ≡ fixed period → 0 < period)
      → ((u : CalendarUnit) (n : ℕ) → delta ≡ calendar u n → 0 < n)
      → after < anchor + max_steps * (28 * day)
      → step_by anchor after delta ≡ ok t
      → after < t
  step_by-later anchor after t (fixed period) pos count near e =
      jump-later anchor period after t (pos period refl) e
  step_by-later anchor after t (calendar u n) pos count near e =
      step_loop-later max_steps (add_months u n) (28 * day) after anchor t
        (λ a b q. laws.month_long u n a b (count u n refl) (or_other-some _ b q)) near e

  step_interval-later :
      (anchor after t : ℕ) (spec : Text)
      → after < anchor + max_steps * (28 * day)
      → step_interval anchor spec after ≡ ok t
      → after < t
  unfolding step_interval
  step_interval-later anchor after t spec near e = elim (Result-cases (parse_interval spec)) [
    | inl (delta, q) ↦
        step_by-later anchor after t delta
          (λ period p. parse_interval-pos spec period (q ∙ ap ok p))
          (λ u n p. parse_interval-count spec u n (q ∙ ap ok p)) near (ground (arith, q, e))
    | inr (inl q) ↦ ground (arith, q, e)
    | inr (inr q) ↦ ground (arith, q, e)
  ]

  some_ok-some : (r : Result ℕ) (t : ℕ) → some_ok r ≡ ok (some t) → r ≡ ok t
  some_ok-some (ok a) t e = ground (arith, e)
  some_ok-some config_error t e = cc
  some_ok-some other_error t e = cc

  next_of-later :
      (kind : ScheduleType) (s : Schedule) (after t : ℕ)
      → after < or_after s.anchor_at after + max_steps * (28 * day)
      → next_of kind s after ≡ ok (some t)
      → after < t
  next_of-later once s after t near e = elim (Option-cases s.run_at) [
    | inl q ↦ ground (arith, q, e)
    | inr (r, q) ↦ ground (arith, q, e)
  ]
  next_of-later interval s after t near e = elim (Bool-cases (is_empty s.interval_spec)) [
    | inl q ↦ ground (arith, q, e)
    | inr q ↦
        step_interval-later (or_after s.anchor_at after) after t s.interval_spec near
          (some_ok-some _ t (ground (arith, q, e)))
  ]
  next_of-later cron s after t near e = elim (Bool-cases (is_empty s.cron_expression)) [
    | inl q ↦ ground (arith, q, e)
    | inr q ↦
        laws.cron_later s.cron_expression s.timezone after t
          (or_config-some _ t (some_ok-some _ t (ground (arith, q, e))))
  ]
  next_of-later unknown s after t near e = cc

  -- A schedule never fires at or before the time it is asked about, of whatever type it is and
  -- whatever its fields say, if its anchor is at most 10000 times 28 days before that time.
  pub next_run-later :
      (s : Schedule) (after t : ℕ)
      → after < or_after s.anchor_at after + max_steps * (28 * day)
      → next_run s after ≡ ok (some t)
      → after < t
  unfolding next_run
  next_run-later s after t near e = next_of-later s.schedule_type s after t near e
