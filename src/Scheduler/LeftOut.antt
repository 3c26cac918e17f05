-- ===== src/Scheduler/LeftOut.antt =====
-- The jobs that are due and of which no copy is left in the loop of `run_due_jobs`
-- (apps/scheduler/services.py), counted over each update that the tick makes.
use cwstation.Prelude.{
  ℕ, ◌+◌, ◌≤◌, ◌≡◌, refl, ap, Bool, true, false, not, ◌&&◌, ◌||◌, Option, none, some, List, [], ◌∷◌,
  ◌==◌, arith, any_where, all_where, update_where, filter_where, count_where,
  count_where-update_where,
}
use cwstation.Scheduler.Model.{invalid, ScheduledJob, SchedDb}
use cwstation.Scheduler.Quiet.{Quiet}
use cwstation.Scheduler.Services.{job_key, still_due, is_reached, is_due}

-- The copy `c` was loaded when the row `j` was as it is now.
abbrev pub covers : ScheduledJob → ScheduledJob → Bool
covers c j = elim c.next_run_at [ none ↦ false | some o ↦ still_due c.id o j ]

-- Due, and none of the copies is of it.
abbrev pub left_out : ℕ → List ScheduledJob → ScheduledJob → Bool
left_out now copies j = is_due now j && not (any_where (λ c. covers c j) copies)

abbrev pub OnePerId : SchedDb → Type 0
OnePerId db = (k : ℕ) → count_where (job_key k) db.jobs ≤ 1

-- A row that the head of the copies covers has that one's key.
pub left_out-crashed :
    (now : ℕ) (c : ScheduledJob) (rest rows : List ScheduledJob)
    → count_where (left_out now rest) rows
      ≤ count_where (left_out now (c ∷ rest)) rows + count_where (job_key c.id) rows
left_out-crashed now c rest [] = omega arith
left_out-crashed now c rest (j ∷ js) = ground (arith, left_out-crashed now c rest js)

-- With no row for the head to cover, it makes no difference.
pub left_out-lost :
    (now o : ℕ) (c : ScheduledJob) (rest rows : List ScheduledJob)
    → c.next_run_at ≡ some o
    → any_where (still_due c.id o) rows ≡ false
    → count_where (left_out now rest) rows ≤ count_where (left_out now (c ∷ rest)) rows
left_out-lost now o c rest [] e h = omega arith
left_out-lost now o c rest (j ∷ js) e h = ground (arith, left_out-lost now o c rest js e)

pub left_out-won :
    (now o : ℕ) (new : Option ℕ) (c : ScheduledJob) (rest rows : List ScheduledJob)
    → c.next_run_at ≡ some o
    → is_reached new now ≡ false
    → count_where
        (left_out now rest)
        (update_where (still_due c.id o) (λ j. record j { next_run_at = new }) rows)
      ≤ count_where (left_out now (c ∷ rest)) rows
left_out-won now o new c rest [] e h = omega arith
left_out-won now o new c rest (j ∷ js) e h = ground (arith, left_out-won now o new c rest js e h)

pub left_out-disabled :
    (now o : ℕ) (c : ScheduledJob) (rest rows : List ScheduledJob)
    → c.next_run_at ≡ some o
    → count_where (left_out now rest) (
        update_where (job_key c.id) (λ j. record j { enabled = false; last_status = invalid }) rows)
      ≤ count_where (left_out now (c ∷ rest)) rows
left_out-disabled now o c rest [] e = omega arith
left_out-disabled now o c rest (j ∷ js) e = ground (arith, left_out-disabled now o c rest js e)

pub any_covers :
    (copies : List ScheduledJob) (j j' : ScheduledJob)
    → j'.id ≡ j.id
    → j'.next_run_at ≡ j.next_run_at
    → any_where (λ c. covers c j') copies ≡ any_where (λ c. covers c j) copies
any_covers [] j j' same cursor = refl
any_covers (c ∷ cs) j j' same cursor = rw (any_covers cs j j' same cursor) (go c.next_run_at)
  where
    go :
        (o : Option ℕ)
        → (elim o [ none ↦ false | some t ↦ still_due c.id t j' ] || any_where (λ d. covers d j) cs)
          ≡ (elim o [ none ↦ false | some t ↦ still_due c.id t j ]
              || any_where (λ d. covers d j) cs)
    go none = refl
    go (some t) = rw (same, cursor) refl

pub left_out_row :
    (now : ℕ) (f : ScheduledJob → ScheduledJob) (rest : List ScheduledJob) (j : ScheduledJob)
    → Quiet f
    → left_out now rest (f j) ≡ true
    → left_out now rest j ≡ true
left_out_row now f rest j q h = ground (
  arith,
  any_covers rest j (f j) (q.keeps_id j) (q.keeps_cursor j),
  q.not_enabled j,
  q.keeps_cursor j,
)

pub left_out-Quiet :
    (now k : ℕ) (f : ScheduledJob → ScheduledJob) (rest rows : List ScheduledJob)
    → Quiet f
    → count_where (left_out now rest) (update_where (job_key k) f rows)
      ≤ count_where (left_out now rest) rows
left_out-Quiet now k f rest [] q = omega arith
left_out-Quiet now k f rest (j ∷ js) q =
    ground (arith, left_out_row now f rest j q, left_out-Quiet now k f rest js q)

pub keys_kept :
    (k : ℕ) (p : ScheduledJob → Bool) (f : ScheduledJob → ScheduledJob) (rows : List ScheduledJob)
    → ((j : ScheduledJob) → (f j).id ≡ j.id)
    → count_where (job_key k) (update_where p f rows) ≡ count_where (job_key k) rows
keys_kept k p f rows same =
    count_where-update_where (job_key k) p f (λ j. ap (λ i. i == k) (same j)) rows

pub left_out_unscheduled :
    (now : ℕ) (c : ScheduledJob) (rest rows : List ScheduledJob)
    → c.next_run_at ≡ none
    → count_where (left_out now rest) rows ≤ count_where (left_out now (c ∷ rest)) rows
left_out_unscheduled now c rest [] e = omega arith
left_out_unscheduled now c rest (j ∷ js) e = ground (arith, left_out_unscheduled now c rest js e)

pub left_out_more :
    (now : ℕ) (c : ScheduledJob) (rest rows : List ScheduledJob)
    → count_where (left_out now (c ∷ rest)) rows ≤ count_where (left_out now rest) rows
left_out_more now c rest [] = omega arith
left_out_more now c rest (j ∷ js) = ground (arith, left_out_more now c rest js)

pub left_out_start :
    (now : ℕ) (rows : List ScheduledJob)
    → count_where (left_out now (filter_where (is_due now) rows)) rows ≡ 0
left_out_start now [] = refl
left_out_start now (j ∷ js) =
    ground (arith, left_out_start now js, left_out_more now j (filter_where (is_due now) js) js)

pub left_out_end :
    (now : ℕ) (rows : List ScheduledJob)
    → count_where (is_due now) rows ≡ count_where (left_out now []) rows
left_out_end now [] = refl
left_out_end now (j ∷ js) = ground (arith, left_out_end now js)

pub all_where-filter_where {ℓ} :
    {A : Type ℓ} (q p : A → Bool) (xs : List A)
    → all_where q xs ≡ true
    → all_where q (filter_where p xs) ≡ true
all_where-filter_where q p [] h = refl
all_where-filter_where q p (x ∷ xs) h = ground (arith, all_where-filter_where q p xs)
