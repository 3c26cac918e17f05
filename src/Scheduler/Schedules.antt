-- ===== src/Scheduler/Schedules.antt =====
-- apps/scheduler/schedules.py. A datetime is its number of microseconds since the year 1, which ends
-- at `max_time`; a period is a number of microseconds. Specs are ASCII texts. Months and years
-- (python-dateutil), cron (croniter) and the time zone database are the record `Calendar`.
-- The quotient of two numbers of seconds, which the code takes in floating point, is exact there below
-- 2^33 seconds (272 years), and is taken exactly here.
use cwstation.Prelude.{
  ℕ, zero, suc, ◌+◌, ◌-◌, ◌*◌, ◌/◌, Bool, true, false, ◌&&◌, Option, none, some, [], ◌∷◌, Text, leb,
  ltb, ◌==◌, is_digit, is_space, lstrip, to_lower, number_from, if◌then◌else◌, ◌≡◌, ◌⊎◌, inl, inr,
  refl,
}

-- A value, a ScheduleConfigError, or another exception (OverflowError, ValueError).
pub data Result {ℓ} (A : Type ℓ) : Type ℓ where
  ok : A → Result A
  config_error : Result A
  other_error : Result A

pub Result-cases {ℓ} :
    {A : Type ℓ} (r : Result A) → ((a : A) × (r ≡ ok a)) ⊎ ((r ≡ config_error) ⊎ (r ≡ other_error))
Result-cases (ok a) = inl (a, refl)
Result-cases config_error = inr (inl refl)
Result-cases other_error = inr (inr refl)

pub data CalendarUnit : Type 0 where
  months years : CalendarUnit

-- A `timedelta`, or a `relativedelta` of months or years.
pub data IntervalDelta : Type 0 where
  fixed : ℕ → IntervalDelta
  calendar : CalendarUnit → ℕ → IntervalDelta

pub data ScheduleType : Type 0 where
  once interval cron unknown : ScheduleType

pub record Schedule : Type 0 where
  pub schedule_type : ScheduleType
  pub interval_spec : Text
  pub anchor_at : Option ℕ
  pub cron_expression : Text
  pub run_at : Option ℕ
  pub timezone : Text

pub record Calendar : Type 0 where
  -- `t + relativedelta(…)`; `none` where that raises
  pub add_calendar : CalendarUnit → ℕ → ℕ → Option ℕ
  -- `schedule_tz` and `_cron_next`: `none` is a ScheduleConfigError of either
  pub cron_next : Text → Text → ℕ → Option ℕ

-- `datetime.max`
abbrev pub max_time : ℕ
max_time = 315537897599999999

-- `timedelta` takes up to 999999999 days.
abbrev pub max_days : ℕ
max_days = 999999999

abbrev pub second : ℕ
second = 1000000

abbrev pub day : ℕ
day = 86400000000

abbrev pub take_digits : Text → Text
take_digits [] = []
take_digits (c ∷ rest) = let more = take_digits rest in if is_digit c then c ∷ more else []

abbrev pub drop_digits : Text → Text
drop_digits [] = []
drop_digits (c ∷ rest) = let more = drop_digits rest in if is_digit c then more else c ∷ rest

abbrev is_blank : Text → Bool
is_blank [] = true
is_blank (c ∷ rest) = is_space c && is_blank rest

-- The letters of `_FIXED_UNITS`, in microseconds.
abbrev fixed_unit : ℕ → Option ℕ
fixed_unit c =
    if c == b's'
    then some second
    else if c == b'm'
    then some (60 * second)
    else if c == b'h'
    then some (3600 * second)
    else if c == b'd'
    then some day
    else if c == b'w'
    then some (7 * day)
    else none

-- The second group of `_INTERVAL_RE`, in small letters: a fixed unit's length, or a calendar unit.
pub data IntervalUnit : Type 0 where
  of_fixed : ℕ → IntervalUnit
  of_calendar : CalendarUnit → IntervalUnit

abbrev pub unit_letter : ℕ → Option IntervalUnit
unit_letter c =
    if c == b'y'
    then some (of_calendar years)
    else elim (fixed_unit c) [ none ↦ none | some n ↦ some (of_fixed n) ]

-- `(mo|[smhdwy])\s*$`
unfoldable pub unit_match : Text → Option IntervalUnit
unit_match [] = none
unit_match (c ∷ []) = unit_letter (to_lower c)
unit_match (c ∷ e ∷ rest) =
    if to_lower c == b'm' && to_lower e == b'o'
    then if is_blank rest then some (of_calendar months) else none
    else if is_blank (e ∷ rest)
    then unit_letter (to_lower c)
    else none

-- `timedelta(**{unit: count})`
abbrev fixed_delta : ℕ → Result IntervalDelta
fixed_delta period =
    if leb period (max_days * day + (day - 1)) then ok (fixed period) else other_error

abbrev pub delta_of : ℕ → IntervalUnit → Result IntervalDelta
delta_of count (of_fixed unit) = fixed_delta (count * unit)
delta_of count (of_calendar unit) = ok (calendar unit count)

abbrev pub delta_matched : Text → Option IntervalUnit → Result IntervalDelta
delta_matched [] _ = config_error
delta_matched (c ∷ digits) none = config_error
delta_matched (c ∷ digits) (some unit) =
    if number_from 0 (c ∷ digits) == 0
    then config_error
    else delta_of (number_from 0 (c ∷ digits)) unit

unfoldable pub parse_interval : Text → Result IntervalDelta
parse_interval spec =
    let t = lstrip spec in delta_matched (take_digits t) (unit_match (lstrip (drop_digits t)))

-- `t + delta` for a `timedelta`
abbrev pub add_fixed : ℕ → ℕ → Result ℕ
add_fixed t delta = if leb (t + delta) max_time then ok (t + delta) else other_error

abbrev pub max_steps : ℕ
max_steps = 10000

-- `for _ in range(10_000)`: the loop of `_step_interval`, with the addition of a period.
unfoldable pub step_loop : ℕ → (ℕ → Result ℕ) → ℕ → ℕ → Result ℕ
step_loop zero add after nxt = ok nxt
step_loop (suc rounds) add after nxt = if ltb after nxt then ok nxt else elim (add nxt) [
  | ok t ↦ step_loop rounds add after t
  | config_error ↦ config_error
  | other_error ↦ other_error
]

-- The loops of `missed_periods`, which count the fires up to `now`.
unfoldable pub count_loop : ℕ → (ℕ → Result ℕ) → ℕ → ℕ → ℕ → Result ℕ
count_loop zero add now cursor count = ok count
count_loop (suc rounds) add now cursor count = elim (add cursor) [
  | ok t ↦ elim (ltb now t) [ true ↦ ok count | false ↦ count_loop rounds add now t (count + 1) ]
  | config_error ↦ config_error
  | other_error ↦ other_error
]

abbrev pub or_other {ℓ} : {A : Type ℓ} → Option A → Result A
or_other none = other_error
or_other (some a) = ok a

abbrev pub or_config {ℓ} : {A : Type ℓ} → Option A → Result A
or_config none = config_error
or_config (some a) = ok a

abbrev pub then_ok {ℓ κ} : {A : Type ℓ} {B : Type κ} → Result A → (A → Result B) → Result B
then_ok (ok a) f = f a
then_ok config_error f = config_error
then_ok other_error f = other_error

abbrev pub some_ok : Result ℕ → Result (Option ℕ)
some_ok r = then_ok r (λ t. ok (some t))

abbrev pub is_empty : Text → Bool
is_empty [] = true
is_empty _ = false

abbrev pub or_after : Option ℕ → ℕ → ℕ
or_after none after = after
or_after (some anchor) after = anchor

-- The O(1) branch of `_step_interval`.
unfoldable pub jump : ℕ → ℕ → ℕ → Result ℕ
jump anchor period after =
    if ltb after anchor
    then ok anchor
    else add_fixed anchor (((after - anchor) / period + 1) * period)

module _ ⦃cal : Calendar⦄ where
  abbrev pub add_months : CalendarUnit → ℕ → ℕ → Result ℕ
  add_months unit count t = or_other (cal.add_calendar unit count t)

  abbrev pub step_by : ℕ → ℕ → IntervalDelta → Result ℕ
  step_by anchor after (fixed period) = jump anchor period after
  step_by anchor after (calendar unit count) =
      step_loop max_steps (add_months unit count) after anchor

  unfoldable pub step_interval : ℕ → Text → ℕ → Result ℕ
  step_interval anchor spec after = then_ok (parse_interval spec) (step_by anchor after)

  abbrev pub once_next : Option ℕ → ℕ → Result (Option ℕ)
  once_next none after = config_error
  once_next (some t) after = ok (if ltb after t then some t else none)

  abbrev pub next_of : ScheduleType → Schedule → ℕ → Result (Option ℕ)
  next_of once s after = once_next s.run_at after
  next_of interval s after =
      if is_empty s.interval_spec
      then config_error
      else some_ok (step_interval (or_after s.anchor_at after) s.interval_spec after)
  next_of cron s after =
      if is_empty s.cron_expression
      then config_error
      else some_ok (or_config (cal.cron_next s.cron_expression s.timezone after))
  next_of unknown s after = config_error

  unfoldable pub next_run : Schedule → ℕ → Result (Option ℕ)
  next_run s after = next_of s.schedule_type s after

  abbrev pub missed_by : ℕ → ℕ → IntervalDelta → Result ℕ
  missed_by scheduled_for now (fixed period) = ok ((now - scheduled_for) / period)
  missed_by scheduled_for now (calendar unit count) =
      count_loop max_steps (add_months unit count) now scheduled_for 0

  abbrev pub missed_of : ScheduleType → Schedule → ℕ → ℕ → Result ℕ
  missed_of interval s scheduled_for now =
      if is_empty s.interval_spec
      then ok 0
      else then_ok (parse_interval s.interval_spec) (missed_by scheduled_for now)
  missed_of cron s scheduled_for now =
      if is_empty s.cron_expression
      then ok 0
      else count_loop max_steps (λ t. or_config (cal.cron_next s.cron_expression s.timezone t)) now
          scheduled_for 0
  missed_of _ s scheduled_for now = ok 0

  unfoldable pub missed_periods : Schedule → ℕ → ℕ → Result ℕ
  missed_periods s scheduled_for now =
      if leb now scheduled_for then ok 0 else missed_of s.schedule_type s scheduled_for now
