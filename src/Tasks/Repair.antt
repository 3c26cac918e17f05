-- ===== src/Tasks/Repair.antt =====
-- apps/tasks/reliability.py: the repair sweep for failures whose retry was never enqueued.
use cwstation.Prelude.{
  ℕ, ◌+◌, Bool, false, not, ◌&&◌, ◌||◌, Option, none, some, List, [], ◌∷◌, leb, ltb, ◌==◌,
  if◌then◌else◌, any_where, filter_where, take,
}
use cwstation.Tasks.Model.{Cause, TaskResult, TaskAttempt, Db, is_failed, is_id, is_bookkeeping}
use cwstation.Tasks.Policy.{RetryPolicy, World, default_policy, attempts_of, policy_for}
use cwstation.Tasks.Retry.{Outcome, returned, maybe_retry}

abbrev pub repair_window : ℕ
repair_window = 3600

abbrev pub repair_grace : ℕ
repair_grace = 30

abbrev pub repair_batch : ℕ
repair_batch = 100

-- Ascending by `finished_at`, equal keys in the table's order.
insert_finished : TaskResult → List TaskResult → List TaskResult
insert_finished r [] = r ∷ []
insert_finished r (s ∷ rest) =
    let later = insert_finished r rest in
    if leb (finished r) (finished s) then r ∷ s ∷ rest else s ∷ later
  where
    finished : TaskResult → ℕ
    finished x = elim x.finished_at [ none ↦ 0 | some t ↦ t ]

unfoldable pub order_finished : List TaskResult → List TaskResult
unfolding insert_finished
order_finished [] = []
order_finished (r ∷ rest) = insert_finished r (order_finished rest)

module _ ⦃w : World⦄ where
  -- What the repair sweep looks at.
  unfoldable pub is_missed : ℕ → Db → TaskResult → Bool
  is_missed now db r =
      let in_window : Bool = elim r.finished_at [
        | none ↦ false
        | some t ↦ leb now (t + repair_window) && leb (t + repair_grace) now
      ] in
      is_failed r.status
      && in_window
      && not (any_where (λ a. is_id a.parent_id r.id) db.attempts)
      && not (is_bookkeeping r.exception_class_path)

  abbrev policy_or_default : Option RetryPolicy → RetryPolicy
  policy_or_default none = default_policy
  policy_or_default (some p) = p

  abbrev is_pinned : ℕ → TaskAttempt → Bool
  is_pinned k a = a.result_id == k && elim a.max_attempts [ none ↦ false | some n ↦ ltb 1 n ]

  unfoldable pub may_retry : Db → TaskResult → Bool
  may_retry db r =
      ltb 1 (attempts_of (policy_or_default (policy_for r.task_path)))
      || any_where (is_pinned r.id) db.attempts

  abbrev pub count_retry : Outcome × Db → ℕ → ℕ × Db
  count_retry (returned (some _), db) n = (n + 1, db)
  count_retry (_, db) n = (n, db)

  unfoldable pub repair_rows : ℕ → List TaskResult → ℕ × Db → ℕ × Db
  repair_rows now [] (n, db) = (n, db)
  repair_rows now (r ∷ rs) (n, db) =
      repair_rows now rs (count_retry (maybe_retry r.id Cause.failed now db) n)

  unfoldable pub repair_missed_retries : ℕ → Db → ℕ × Db
  repair_missed_retries now db =
      let missed = filter_where (λ r. is_missed now db r && may_retry db r) db.results in
      repair_rows now (take repair_batch (order_finished missed)) (0, db)
