-- ===== src/Tasks/Signals.antt =====
-- apps/tasks/signals.py: the receiver of `task_finished`. The handlers that only log an exception are
-- the outcome `raised`, which the receiver drops.
use cwstation.Prelude.{
  ℕ, ◌≡◌, refl, ap, Bool, true, false, not, ◌||◌, Option, none, some, find_first, if◌then◌else◌,
  Bool-cases, inl, inr,
}
use cwstation.Tasks.Model.{
  Status, Cause, TaskResult, TaskAttempt, Db, is_failed, is_ready, is_running, result_of, child_of,
}
use cwstation.Tasks.Policy.{World}
use cwstation.Tasks.Retry.{maybe_retry}
use cwstation.Tasks.Late.{
  LateCompletion, is_reaped_child, mark_found, mark_superseded, record_found,
  record_late_completion, or_now,
}
use cwstation.Tasks.Once.{maybe_retry-second}

-- What sent the signal: the database backend, as an instance or a class, another task backend, or
-- something else.
pub data Sender : Type 0 where
  database_backend other_backend unknown : Sender

unfoldable pub from_database_worker : Sender → Bool
from_database_worker database_backend = true
from_database_worker other_backend = false
from_database_worker unknown = false

module _ ⦃w : World⦄ where
  abbrev pub retry_unless_late : ℕ → Status → ℕ → Option LateCompletion × Db → Db
  retry_unless_late result_id status now (some late, db) = db
  retry_unless_late result_id status now (none, db) =
      if is_failed status then (maybe_retry result_id Cause.failed now db).1 else db

  unfoldable pub retry_failed_task : Sender → ℕ → Status → ℕ → Db → Db
  retry_failed_task sender result_id status now db =
      if not (from_database_worker sender)
      then db
      else retry_unless_late result_id status now (record_late_completion result_id now db)

  record_late_completion-not_reaped :
      (result_id now : ℕ) (db : Db)
      → find_first (is_reaped_child result_id) db.attempts ≡ none
      → record_late_completion result_id now db ≡ (none, db)
  unfolding record_late_completion
  record_late_completion-not_reaped result_id now db h = found (result_of result_id db.results)
    where
      found : (o : Option TaskResult) → record_found result_id now o db ≡ (none, db)
      found none = refl
      found (some row) = elim (Bool-cases (is_ready row.status || is_running row.status)) [
        | inl e ↦ rw e refl
        | inr e ↦ rw e (
            unfold mark_superseded in
            ap
              (λ o.
                mark_found result_id row.status row.task_path (or_now row.finished_at now) now o db)
              h)
      ]

  -- A signal that is delivered again does no harm: when the result has its retry, and that retry was
  -- not made because the worker was declared lost, a further delivery changes nothing. It neither
  -- enqueues a second retry nor takes the first one for a double execution and cancels it.
  pub retry_failed_task-redelivered :
      (sender : Sender) (result_id : ℕ) (status : Status) (now : ℕ) (child : TaskAttempt) (db : Db)
      → child_of result_id db.attempts ≡ some child
      → find_first (is_reaped_child result_id) db.attempts ≡ none
      → retry_failed_task sender result_id status now db ≡ db
  unfolding retry_failed_task
  retry_failed_task-redelivered sender result_id status now child db retried unreaped =
      elim (Bool-cases (from_database_worker sender)) [
        | inl e ↦
            rw (e, record_late_completion-not_reaped result_id now db unreaped)
              (elim (Bool-cases (is_failed status)) [
                | inl f ↦ rw f (maybe_retry-second result_id Cause.failed now child db retried).1
                | inr f ↦ rw f refl
              ])
        | inr e ↦ rw e refl
      ]
