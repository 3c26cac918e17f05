-- ===== src/Tasks/Samples.antt =====
-- A small world and some rows, for the tests.
use text.Mathlib.Text.{◌==◌ as str_eq}
use cwstation.Prelude.{
  ℕ, ◌+◌, ◌/◌, false, Option, none, some, List, [], ◌∷◌, ◌++◌, String, length, if◌then◌else◌,
}
use cwstation.Tasks.Model.{
  Status, ready, running, successful, failed, lost, TaskResult, TaskAttempt, Db,
}
use cwstation.Tasks.Policy.{RetryPolicy, World, default_policy}

-- Sending is declared safe to repeat, three times at most; every other task has no policy.
abbrev sends : String → Option RetryPolicy
sends path =
    if str_eq path "jobs.send"
    then some (record default_policy { max_attempts = some 3; backoff = some 5 })
    else none

abbrev insert : TaskResult → ℕ → List TaskResult → Option (ℕ × List TaskResult)
insert row run_after rows =
    let k = 100 + length rows in
    some (
      k,
      rows
          ++ record row {
            id = k;
            status = ready;
            started_at = none;
            finished_at = none;
            exception_class_path = "";
          }
            ∷ [],
    )

abbrev pub small_world : World
small_world = record {
  default_max_attempts = 1;
  backoff_seconds = 5;
  backoff_max_seconds = 600;
  lost_after_seconds = 90;
  orphan_seconds = 86400;
  policies = sends;
  import_class = λ _. none;
  uniform = λ x. x / 2;
  enqueue = insert;
}

abbrev pub a_result : ℕ → Status → String → String → TaskResult
a_result k status worker path = record {
  id = k;
  status = status;
  task_path = "jobs.send";
  queue_name = "default";
  priority = 0;
  backend_name = "default";
  args = 0;
  worker_ids = worker ∷ [];
  enqueued_at = 10;
  started_at = some 20;
  finished_at = some 30;
  return_value = none;
  exception_class_path = path;
}

abbrev pub a_retry : ℕ → ℕ → ℕ → TaskAttempt
a_retry k parent attempt = record {
  result_id = k;
  root_id = 1;
  parent_id = some parent;
  attempt = attempt;
  cause = lost;
  max_attempts = none;
  created_at = 40;
  parent_completed_at = none;
  parent_status = none;
  retry_cancelled = false;
}

-- One task failed; two are running, one of them under a worker that has gone silent.
abbrev pub busy : Db
busy = record {
  results =
      a_result 1 failed "w1" "builtins.ValueError"
      ∷ a_result 2 running "w2" ""
      ∷ a_result 3 running "w3" ""
      ∷ [];
  attempts = [];
  heartbeats =
      record { worker_id = "w2"; label = ""; last_seen_at = 980; stopped_at = none }
      ∷ record { worker_id = "w3"; label = ""; last_seen_at = 500; stopped_at = none }
      ∷ [];
}

-- A task was reaped and retried, and the retry has not started when the task succeeds.
abbrev pub reaped : Db
reaped = record {
  results = a_result 1 successful "w1" "" ∷ a_result 10 ready "" "" ∷ [];
  attempts = a_retry 10 1 2 ∷ [];
  heartbeats = [];
}
