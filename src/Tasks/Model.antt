-- ===== src/Tasks/Model.antt =====
-- apps/tasks/models.py and exceptions.py, and the columns of django-tasks-db's result table that
-- apps/tasks reads. Identifiers and times are numbers (seconds), paths are texts.
use text.Mathlib.Text.{◌==◌ as str_eq}
use cwstation.Prelude.{
  ℕ, Bool, true, false, ◌||◌, Option, none, some, List, String, ◌==◌, find_first,
}

pub data Status : Type 0 where
  ready running successful failed : Status

pub data Cause : Type 0 where
  first failed lost interrupted manual : Cause

-- A DBTaskResult. `args` stands for the task's arguments.
pub record TaskResult : Type 0 where
  pub id : ℕ
  pub status : Status
  pub task_path : String
  pub queue_name : String
  pub priority : ℕ
  pub backend_name : String
  pub args : ℕ
  pub worker_ids : List String
  pub enqueued_at : ℕ
  pub started_at : Option ℕ
  pub finished_at : Option ℕ
  pub return_value : Option String
  pub exception_class_path : String

-- `parent_status` is `none` for the empty text.
pub record TaskAttempt : Type 0 where
  pub result_id : ℕ
  pub root_id : ℕ
  pub parent_id : Option ℕ
  pub attempt : ℕ
  pub cause : Cause
  pub max_attempts : Option ℕ
  pub created_at : ℕ
  pub parent_completed_at : Option ℕ
  pub parent_status : Option Status
  pub retry_cancelled : Bool

pub record WorkerHeartbeat : Type 0 where
  pub worker_id : String
  pub label : String
  pub last_seen_at : ℕ
  pub stopped_at : Option ℕ

-- The tables that the task layer writes.
pub record Db : Type 0 where
  pub results : List TaskResult
  pub attempts : List TaskAttempt
  pub heartbeats : List WorkerHeartbeat

abbrev pub is_failed : Status → Bool
is_failed Status.failed = true
is_failed _ = false

abbrev pub is_ready : Status → Bool
is_ready ready = true
is_ready _ = false

abbrev pub is_running : Status → Bool
is_running running = true
is_running _ = false

abbrev pub is_lost : Cause → Bool
is_lost lost = true
is_lost _ = false

abbrev pub is_none {ℓ} : {A : Type ℓ} → Option A → Bool
is_none none = true
is_none (some _) = false

abbrev pub is_id : Option ℕ → ℕ → Bool
is_id none k = false
is_id (some j) k = j == k

abbrev pub worker_lost_path : String
worker_lost_path = "apps.tasks.exceptions.WorkerLost"

abbrev pub retry_superseded_path : String
retry_superseded_path = "apps.tasks.exceptions.RetrySuperseded"

-- `path in BOOKKEEPING_PATHS` and `path in INTERRUPTED_PATHS`
unfoldable pub is_bookkeeping : String → Bool
is_bookkeeping path = str_eq path retry_superseded_path

unfoldable pub is_interrupted_path : String → Bool
is_interrupted_path path =
    str_eq path "builtins.SystemExit" || str_eq path "builtins.KeyboardInterrupt"

-- `DBTaskResult.objects.filter(id=k).first()`
abbrev pub result_of : ℕ → List TaskResult → Option TaskResult
result_of k rows = find_first (λ r. r.id == k) rows

-- `TaskAttempt.objects.filter(parent_id=k).first()`
abbrev pub child_of : ℕ → List TaskAttempt → Option TaskAttempt
child_of k rows = find_first (λ a. is_id a.parent_id k) rows
