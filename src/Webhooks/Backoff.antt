-- ===== src/Webhooks/Backoff.antt =====
-- The waits between attempts (apps/webhooks/services.py). A Retry-After value is a text of Latin-1
-- characters, as http.client gives it; blanks are ASCII.
use cwstation.Prelude.{
  ℕ, ◌-◌, Bool, false, ◌&&◌, ◌||◌, Option, none, some, List, [], ◌∷◌, Text, is_digit, leb, ◌==◌,
  if◌then◌else◌, strip, all_where, number_from, length, get_elem?,
}
use cwstation.Webhooks.Model.{Outside, WebSettings}
use cwstation.Webhooks.Guard.{is_empty}

abbrev pub default_schedule : List ℕ
default_schedule = 60 ∷ 300 ∷ 1800 ∷ 7200 ∷ 21600 ∷ []

abbrev pub or_default_schedule : List ℕ → List ℕ
or_default_schedule [] = default_schedule
or_default_schedule (n ∷ rest) = n ∷ rest

abbrev pub min_of : ℕ → ℕ → ℕ
min_of a b = if leb a b then a else b

-- An entry of the schedule; it is never past the end.
abbrev pub schedule_entry : List ℕ → ℕ → ℕ
schedule_entry schedule i = elim (get_elem? schedule i) [ none ↦ 0 | some n ↦ n ]

-- `str.isdigit` on Latin-1 is also true of the superscripts 2, 3 and 1, which `int` refuses.
abbrev pub is_digit_latin : ℕ → Bool
is_digit_latin c = is_digit c || (c == 178 || (c == 179 || c == 185))

-- `int(value)`: `none` where it raises, also for more than 4300 digits.
abbrev pub int_of : Text → Option ℕ
int_of value =
    if all_where is_digit value && leb (length value) 4300 then some (number_from 0 value) else none

abbrev pub is_digits : Text → Bool
is_digits [] = false
is_digits (c ∷ rest) = all_where is_digit_latin (c ∷ rest)

abbrev pub some_seconds : Option ℕ → Option (Option ℕ)
some_seconds none = none
some_seconds (some n) = some (some n)

-- A date that is past counts as now.
abbrev pub until : ℕ → Option ℕ → Option ℕ
until now none = none
until now (some t) = some (t - now)

module _ ⦃o : Outside⦄ ⦃s : WebSettings⦄ where
  -- The wait behind an attempt, the first of which is 1.
  unfoldable pub backoff_seconds : ℕ → ℕ
  backoff_seconds attempt =
      let schedule = or_default_schedule s.backoff in
      schedule_entry schedule (min_of (attempt - 1) (length schedule - 1))

  unfoldable pub clamp_backoff : ℕ → ℕ
  clamp_backoff n = min_of n s.max_backoff

  abbrev pub parse_stripped : ℕ → Text → Option (Option ℕ)
  parse_stripped now value =
      if is_digits value then some_seconds (int_of value) else some (until now (o.parsedate value))

  -- `none` outside is an exception, inside the None of the code.
  unfoldable pub parse_retry_after : ℕ → Option Text → Option (Option ℕ)
  parse_retry_after now none = some none
  parse_retry_after now (some value) =
      if is_empty value then some none else parse_stripped now (strip value)
