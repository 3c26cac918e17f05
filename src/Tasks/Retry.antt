-- ===== src/Tasks/Retry.antt =====
-- apps/tasks/reliability.py: the retry decision and `maybe_retry`.
use text.Mathlib.Text.{◌==◌ as str_eq}
use cwstation.Prelude.{
  ℕ, ◌+◌, ◌*◌, Bool, true, false, not, Option, none, some, List, [], ◌∷◌, ◌++◌, leb, ◌==◌,
  if◌then◌else◌, find_first, any_where, update_where,
}
use cwstation.Tasks.Model.{
  Cause, first, lost, interrupted, TaskResult, TaskAttempt, Db, is_failed, is_none,
  worker_lost_path, is_bookkeeping, is_interrupted_path, result_of, child_of,
}
use cwstation.Tasks.Policy.{
  RetryPolicy, World, default_policy, implicit_pinned_policy, attempts_of, delay, policy_for,
  matches,
}

pub record AttemptInfo : Type 0 where
  pub root_id : ℕ
  pub attempt : ℕ
  pub max_attempts : Option ℕ

pub record Decision : Type 0 where
  pub cause : Cause
  pub policy : RetryPolicy
  pub info : AttemptInfo
  pub budget : ℕ

abbrev attempt_of : ℕ → List TaskAttempt → Option TaskAttempt
attempt_of k rows = find_first (λ a. a.result_id == k) rows

abbrev info_of_row : ℕ → Option TaskAttempt → AttemptInfo
info_of_row k none = record { root_id = k; attempt = 1; max_attempts = none }
info_of_row k (some row) = record {
  root_id = row.root_id;
  attempt = row.attempt;
  max_attempts = row.max_attempts;
}

unfoldable pub attempt_info : ℕ → List TaskAttempt → AttemptInfo
attempt_info k rows = info_of_row k (attempt_of k rows)

abbrev pub pinned_row : ℕ → ℕ → ℕ → TaskAttempt
pinned_row result_id n now = record {
  result_id = result_id;
  root_id = result_id;
  parent_id = none;
  attempt = 1;
  cause = first;
  max_attempts = some n;
  created_at = now;
  parent_completed_at = none;
  parent_status = none;
  retry_cancelled = false;
}

-- `update_or_create(result_id=…, defaults=…)`
unfoldable pub pin_max_attempts : ℕ → ℕ → ℕ → Db → Db
pin_max_attempts result_id max_attempts now db =
    if any_where (λ a. a.result_id == result_id) db.attempts
    then record db {
      attempts =
          update_where (λ a. a.result_id == result_id)
            (λ a. record a { root_id = result_id; attempt = 1; max_attempts = some max_attempts })
            db.attempts;
    }
    else record db { attempts = db.attempts ++ pinned_row result_id max_attempts now ∷ [] }

-- `_classify`
unfoldable pub classify : TaskResult → Cause → Cause
classify row cause =
    if str_eq row.exception_class_path worker_lost_path
    then lost
    else if is_interrupted_path row.exception_class_path
    then interrupted
    else cause

abbrev pub is_worker_death : Cause → Bool
is_worker_death lost = true
is_worker_death interrupted = true
is_worker_death _ = false

-- What a call of `maybe_retry` ends in: a return, or an exception of the import or the enqueue.
pub data Outcome : Type 0 where
  returned : Option ℕ → Outcome
  raised : Outcome

-- The row that `maybe_retry` creates beside the new result.
abbrev pub retry_row : TaskResult → Decision → ℕ → ℕ → TaskAttempt
retry_row row d new_id now = record {
  result_id = new_id;
  root_id = d.info.root_id;
  parent_id = some row.id;
  attempt = d.info.attempt + 1;
  cause = d.cause;
  max_attempts = d.info.max_attempts;
  created_at = now;
  parent_completed_at = none;
  parent_status = none;
  retry_cancelled = false;
}

-- `TaskAttempt.objects.create`: `none` is the IntegrityError of the two unique columns.
unfoldable pub create_attempt : TaskAttempt → List TaskAttempt → Option (List TaskAttempt)
create_attempt new rows =
    if any_where (λ a. a.result_id == new.result_id) rows
    then none
    else if elim new.parent_id [ none ↦ false | some k ↦ not (is_none (child_of k rows)) ]
    then none
    else some (rows ++ new ∷ [])

-- The end of the transaction: a row that is refused takes the enqueued result back with it.
abbrev pub save_attempt : ℕ → List TaskResult → Option (List TaskAttempt) → Db → Outcome × Db
save_attempt new_id results none db = (returned none, db)
save_attempt new_id results (some attempts) db =
    (returned (some new_id), record db { results = results; attempts = attempts })

abbrev pub save_retry : TaskResult → Decision → ℕ → Option (ℕ × List TaskResult) → Db → Outcome × Db
save_retry row d now none db = (raised, db)
save_retry row d now (some (new_id, results)) db =
    save_attempt new_id results (create_attempt (retry_row row d new_id now) db.attempts) db

module _ ⦃w : World⦄ where
  -- The policy that governs a chain: a pinned budget on a task with no policy of its own is not to
  -- re-run a worker's death.
  abbrev pub governing : Option ℕ → Option RetryPolicy → RetryPolicy
  governing _ (some p) = p
  governing none none = default_policy
  governing (some _) none = implicit_pinned_policy

  abbrev pub budget_of : AttemptInfo → RetryPolicy → ℕ
  budget_of info p = elim info.max_attempts [ none ↦ attempts_of p | some n ↦ n ]

  abbrev pub retryable : TaskResult → Cause → RetryPolicy → Bool
  retryable row cause p =
      if is_worker_death cause then p.retry_lost else matches row.exception_class_path p.retry_on

  -- `_decide`
  unfoldable pub decide : List TaskAttempt → TaskResult → Cause → Option Decision
  decide attempts row cause0 =
      if not (is_failed row.status)
      then none
      else if is_bookkeeping row.exception_class_path
      then none
      else (let cause = classify row cause0 in
          let info = attempt_info row.id attempts in
          let policy = governing info.max_attempts (policy_for row.task_path) in
          let budget = budget_of info policy in
          if leb budget info.attempt
          then none
          else if retryable row cause policy
          then some (record { cause = cause; policy = policy; info = info; budget = budget })
          else none)

  -- The `try` block and its handler.
  unfoldable pub enqueue_retry : TaskResult → Decision → ℕ → Db → Outcome × Db
  enqueue_retry row d now db =
      save_retry row d now (w.enqueue row (now * 1000 + delay d.policy d.info.attempt) db.results)
        db

  abbrev pub retry_decided : TaskResult → Option Decision → ℕ → Db → Outcome × Db
  retry_decided row none now db = (returned none, db)
  retry_decided row (some d) now db = enqueue_retry row d now db

  abbrev pub retry_found : Option TaskResult → Cause → ℕ → Db → Outcome × Db
  retry_found none cause now db = (returned none, db)
  retry_found (some row) cause now db = retry_decided row (decide db.attempts row cause) now db

  unfoldable pub maybe_retry : ℕ → Cause → ℕ → Db → Outcome × Db
  maybe_retry result_id cause now db = retry_found (result_of result_id db.results) cause now db
