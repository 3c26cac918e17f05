-- ===== src/Tasks/Tests.antt =====
-- The theorems about background tasks at concrete inputs.
use cwstation.Prelude.{ℕ, ◌≤◌, ◌≡◌, refl, false, none, some, [], ◌∷◌, arith, find_first}
use cwstation.Tasks.Model.{
  failed, Cause, TaskResult, TaskAttempt, Db, worker_lost_path, is_bookkeeping, is_interrupted_path,
  child_of,
}
use cwstation.Tasks.Policy.{
  RetryPolicy, default_policy, attempts_of, cap_of, base_of, delay, matches,
}
use cwstation.Tasks.Retry.{
  Decision, attempt_info, classify, decide, create_attempt, enqueue_retry, maybe_retry,
  pin_max_attempts,
}
use cwstation.Tasks.Late.{
  mark_superseded, supersede, mark_child, flag_cancelled, record_late_completion, is_reaped_child,
}
use cwstation.Tasks.Chain.{chain_outcome, walk, visit, outcome_at, chain_status}
use cwstation.Tasks.Reaper.{
  find_lost_tasks, reap_lost_tasks, judge_all, judge, lost_reason, last_worker,
}
use cwstation.Tasks.Keys.{Sound}
use cwstation.Tasks.Reach.{Steps, stay, go, retry, pin, reap, Steps-Sound}
use cwstation.Tasks.Samples.{small_world, a_result, busy, a_retry}

program : Unit {0}
unfolding attempts_of cap_of base_of delay matches attempt_info classify decide create_attempt
    enqueue_retry maybe_retry pin_max_attempts mark_superseded supersede mark_child flag_cancelled
    record_late_completion chain_outcome walk visit outcome_at chain_status find_lost_tasks
    judge_all judge lost_reason last_worker is_bookkeeping is_interrupted_path
program = tt

abbrev sending : RetryPolicy
sending = record default_policy { max_attempts = some 3; backoff = some 5 }

half_le : (x : ℕ) → small_world.uniform x ≤ x
half_le x = omega arith

abbrev failure : TaskResult
failure = a_result 1 failed "w1" "builtins.ValueError"

abbrev decision : Decision
decision = record {
  cause = Cause.failed;
  policy = sending;
  info = record { root_id = 1; attempt = 1; max_attempts = none };
  budget = 3;
}

failure_decided : decide ⦃w = small_world⦄ [] failure Cause.failed ≡ some decision
unfolding program
failure_decided = refl

-- A pinned chain of a task with no policy, whose worker died.
abbrev pinned : TaskAttempt
pinned = record {
  result_id = 4;
  root_id = 4;
  parent_id = none;
  attempt = 1;
  cause = Cause.first;
  max_attempts = some 3;
  created_at = 0;
  parent_completed_at = none;
  parent_status = none;
  retry_cancelled = false;
}

abbrev orphan : TaskResult
orphan = record (a_result 4 failed "w4" worker_lost_path) { task_path = "jobs.charge" }

pinned_info : (attempt_info orphan.id (pinned ∷ [])).max_attempts ≡ some 3
unfolding program
pinned_info = refl

empty-Sound : Sound []
empty-Sound = record { one_row = λ k. omega arith; one_child = λ k. omega arith; budgets = refl }

abbrev after_pin : Db
after_pin = pin_max_attempts 1 3 25 busy

abbrev after_retry : Db
after_retry = (maybe_retry ⦃w = small_world⦄ 1 Cause.failed 40 after_pin).1

abbrev after_reap : Db
after_reap = (reap_lost_tasks ⦃w = small_world⦄ 1000 1000 false [] after_retry).1

a_run : Steps ⦃w = small_world⦄ busy after_reap
a_run = go (pin 1 3 25) (go (retry 1 Cause.failed 40) (go (reap 1000 1000 false []) stay))

Steps-Sound_example : Sound after_reap.attempts
Steps-Sound_example = Steps-Sound ⦃w = small_world⦄ a_run empty-Sound

-- The failure of the first task is delivered once more after its retry was enqueued.
abbrev redelivered : Db
redelivered = (maybe_retry ⦃w = small_world⦄ 1 Cause.failed 40 busy).1

redelivered_child :
    child_of 1 redelivered.attempts ≡ some (record (a_retry 103 1 2) { cause = Cause.failed })
unfolding program
redelivered_child = refl

redelivered_unreaped : find_first (is_reaped_child 1) redelivered.attempts ≡ none
unfolding program
redelivered_unreaped = refl
