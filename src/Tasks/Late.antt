-- ===== src/Tasks/Late.antt =====
-- apps/tasks/reliability.py: attempts that complete after they were declared lost.
use text.Mathlib.Text.{◌==◌ as str_eq}
use cwstation.Prelude.{
  ℕ, ◌+◌, Bool, true, not, ◌&&◌, ◌||◌, Option, none, some, List, [], ◌∷◌, ◌++◌, String, leb, ltb,
  ◌==◌, if◌then◌else◌, any_where, find_first, filter_where, update_where, take,
}
use cwstation.Tasks.Model.{
  Status, TaskResult, TaskAttempt, Db, is_failed, is_ready, is_running, is_lost, is_none, is_id,
  worker_lost_path, retry_superseded_path, result_of, child_of,
}

pub record LateCompletion : Type 0 where
  pub parent_id : ℕ
  pub retry_id : ℕ
  pub task_path : String
  pub status : Status
  pub retry_cancelled : Bool

-- The filter `reaped_child`.
abbrev pub is_reaped_child : ℕ → TaskAttempt → Bool
is_reaped_child parent a =
    is_id a.parent_id parent && is_none a.parent_completed_at && is_lost a.cause

-- The conditional cancel of a retry that has not started.
abbrev pub is_cancellable : ℕ → TaskResult → Bool
is_cancellable child r = r.id == child && is_ready r.status

abbrev pub cancel_result : ℕ → TaskResult → TaskResult
cancel_result now r = record r {
  status = Status.failed;
  finished_at = some now;
  return_value = none;
  exception_class_path = retry_superseded_path;
}

unfoldable pub mark_child : ℕ → Status → ℕ → List TaskAttempt → List TaskAttempt
mark_child parent status completed_at rows =
    update_where (is_reaped_child parent)
      (λ a. record a { parent_completed_at = some completed_at; parent_status = some status }) rows

unfoldable pub flag_cancelled : ℕ → List TaskAttempt → List TaskAttempt
flag_cancelled parent rows =
    update_where (λ a. is_id a.parent_id parent) (λ a. record a { retry_cancelled = true }) rows

-- `_mark_superseded` once the child is found.
unfoldable pub supersede : ℕ → ℕ → Status → String → ℕ → ℕ → Db → LateCompletion × Db
supersede parent child status task_path completed_at now db =
    let attempts = mark_child parent status completed_at db.attempts in
    let cancelled = any_where (is_cancellable child) db.results in
    (
      record {
        parent_id = parent;
        retry_id = child;
        task_path = task_path;
        status = status;
        retry_cancelled = cancelled;
      },
      record db {
        results = update_where (is_cancellable child) (cancel_result now) db.results;
        attempts = if cancelled then flag_cancelled parent attempts else attempts;
      },
    )

abbrev pub some_late : LateCompletion × Db → Option LateCompletion × Db
some_late (late, db) = (some late, db)

abbrev pub mark_found :
    ℕ → Status → String → ℕ → ℕ → Option TaskAttempt → Db → Option LateCompletion × Db
mark_found parent status task_path completed_at now none db = (none, db)
mark_found parent status task_path completed_at now (some child) db =
    some_late (supersede parent child.result_id status task_path completed_at now db)

unfoldable pub mark_superseded : ℕ → Status → String → ℕ → ℕ → Db → Option LateCompletion × Db
mark_superseded parent status task_path completed_at now db =
    mark_found parent status task_path completed_at now
      (find_first (is_reaped_child parent) db.attempts) db

-- `retry_of`
unfoldable pub retry_of : ℕ → List TaskAttempt → Option ℕ
retry_of k rows = elim (child_of k rows) [ none ↦ none | some a ↦ some a.result_id ]

abbrev pub or_now : Option ℕ → ℕ → ℕ
or_now none now = now
or_now (some t) _ = t

abbrev pub record_found : ℕ → ℕ → Option TaskResult → Db → Option LateCompletion × Db
record_found result_id now none db = (none, db)
record_found result_id now (some row) db =
    if is_ready row.status || is_running row.status
    then (none, db)
    else mark_superseded result_id row.status row.task_path (or_now row.finished_at now) now db

unfoldable pub record_late_completion : ℕ → ℕ → Db → Option LateCompletion × Db
record_late_completion result_id now db =
    record_found result_id now (result_of result_id db.results) db

abbrev pub late_completion_window : ℕ
late_completion_window = 86400

-- The filter of the candidates of `detect_late_completions`.
abbrev pub is_candidate : ℕ → TaskAttempt → Bool
is_candidate now a =
    is_lost a.cause
    && is_none a.parent_completed_at
    && not (is_none a.parent_id)
    && leb now (a.created_at + late_completion_window)

-- A finished row that no longer carries the reaper's verdict.
unfoldable pub came_back : List TaskAttempt → TaskResult → Bool
came_back candidates r =
    any_where (λ a. is_id a.parent_id r.id) candidates
    && (not (is_ready r.status) && not (is_running r.status))
    && not (is_failed r.status && str_eq r.exception_class_path worker_lost_path)

abbrev pub count_late : Option LateCompletion × Db → List LateCompletion → List LateCompletion × Db
count_late (none, db) found = (found, db)
count_late (some late, db) found = (found ++ late ∷ [], db)

unfoldable pub mark_rows : ℕ → List TaskResult → List LateCompletion × Db → List LateCompletion × Db
mark_rows now [] (found, db) = (found, db)
mark_rows now (r ∷ rs) (found, db) =
    mark_rows now rs (
      count_late (mark_superseded r.id r.status r.task_path (or_now r.finished_at now) now db)
        found)

-- `TaskAttempt.Meta.ordering`: by the root's id and the attempt, equal keys in the table's order.
abbrev comes_first : TaskAttempt → TaskAttempt → Bool
comes_first a b = ltb a.root_id b.root_id || a.root_id == b.root_id && leb a.attempt b.attempt

insert_attempt : TaskAttempt → List TaskAttempt → List TaskAttempt
insert_attempt a [] = a ∷ []
insert_attempt a (b ∷ rest) =
    let later = insert_attempt a rest in if comes_first a b then a ∷ b ∷ rest else b ∷ later

order_attempts : List TaskAttempt → List TaskAttempt
unfolding insert_attempt
order_attempts [] = []
order_attempts (a ∷ rest) = insert_attempt a (order_attempts rest)

unfoldable pub detect_late_completions : ℕ → ℕ → Db → List LateCompletion × Db
unfolding order_attempts
detect_late_completions now limit db =
    let candidates = take limit (order_attempts (filter_where (is_candidate now) db.attempts)) in
    mark_rows now (filter_where (came_back candidates) db.results) ([], db)
