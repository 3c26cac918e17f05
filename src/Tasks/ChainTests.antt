-- ===== src/Tasks/ChainTests.antt =====
-- The theorems about retries, late completions, the reaper and chains at concrete inputs.
use cwstation.Prelude.{
  ℕ, ◌≡◌, refl, subst, true, false, Option, none, some, List, [], ◌∷◌, map, arith, filter_where,
  get_elem?, get_elem?-append,
}
use cwstation.Tasks.Model.{
  ready, running, failed, worker_lost_path, successful, Cause, TaskResult, TaskAttempt, Db,
  child_of, is_bookkeeping, is_interrupted_path,
}
use cwstation.Tasks.Policy.{attempts_of, cap_of, base_of, delay, matches}
use cwstation.Tasks.Retry.{
  returned, attempt_info, classify, decide, create_attempt, enqueue_retry, maybe_retry,
  pin_max_attempts,
}
use cwstation.Tasks.Late.{
  LateCompletion, mark_superseded, supersede, mark_child, flag_cancelled, record_late_completion,
}
use cwstation.Tasks.Chain.{
  ChainOutcome, engine, chain_outcome, walk, visit, outcome_at, chain_status, max_chain, start_walk,
}
use cwstation.Tasks.Reaper.{
  LostTask, find_lost_tasks, reap_lost_tasks, judge_all, judge, lost_reason, last_worker,
}
use cwstation.Tasks.Once.{is_quiet, maybe_retry-second}
use cwstation.Tasks.Cancel.{maybe_retry-cancelled, mark_superseded-twice}
use cwstation.Tasks.Verdict.{is_lost_row, find_lost_tasks-is_lost_row}
use cwstation.Tasks.Spared.{Holds, KeepsRows, reap_lost_tasks-spares}
use cwstation.Tasks.Walks.{IsForward, walk-finishes}
use cwstation.Tasks.Forks.{retry_below, chain_outcome-forked}
use cwstation.Tasks.Samples.{small_world, a_result, a_retry, busy, reaped}

program : Unit {0}
unfolding attempts_of cap_of base_of delay matches attempt_info classify decide create_attempt
    enqueue_retry maybe_retry pin_max_attempts mark_superseded supersede mark_child flag_cancelled
    record_late_completion chain_outcome walk visit outcome_at chain_status find_lost_tasks
    judge_all judge lost_reason last_worker is_bookkeeping is_interrupted_path
program = tt

abbrev retried : Db
retried = (maybe_retry ⦃w = small_world⦄ 1 Cause.failed 40 busy).1

retried_run : maybe_retry ⦃w = small_world⦄ 1 Cause.failed 40 busy ≡ (returned (some 103), retried)
unfolding program
retried_run = refl

maybe_retry-second_example :
    (is_quiet (maybe_retry ⦃w = small_world⦄ 1 Cause.lost 50 reaped).0 ≡ true)
    × ((maybe_retry ⦃w = small_world⦄ 1 Cause.lost 50 reaped).1 ≡ reaped)
maybe_retry-second_example =
    maybe_retry-second ⦃w = small_world⦄ 1 Cause.lost 50 (a_retry 10 1 2) reaped refl

abbrev superseded : Db
superseded = (mark_superseded 1 successful "jobs.send" 60 60 reaped).1

abbrev a_late : LateCompletion
a_late = record {
  parent_id = 1;
  retry_id = 10;
  task_path = "jobs.send";
  status = successful;
  retry_cancelled = true;
}

superseded_run : mark_superseded 1 successful "jobs.send" 60 60 reaped ≡ (some a_late, superseded)
unfolding program
superseded_run = refl

-- Meanwhile a worker has finished another task, and its retry has been pinned.
abbrev later_db : Db
later_db =
    pin_max_attempts 2 4 70
      (record superseded { results = a_result 2 successful "w2" "" ∷ superseded.results })

maybe_retry-cancelled_example :
    maybe_retry ⦃w = small_world⦄ 10 Cause.failed 80 later_db ≡ (returned none, later_db)
unfolding program
maybe_retry-cancelled_example =
    maybe_retry-cancelled ⦃w = small_world⦄ 1 successful "jobs.send" 60 60 80 Cause.failed reaped
      superseded later_db a_late (omega arith) superseded_run refl refl

mark_superseded-twice_example :
    mark_superseded 1 failed "jobs.send" 75 75 superseded ≡ (none, superseded)
mark_superseded-twice_example =
    mark_superseded-twice 1 successful failed "jobs.send" "jobs.send" 60 75 60 75 reaped

find_lost_tasks-is_lost_row_example :
    map (λ (t : LostTask). t.result_id) (find_lost_tasks ⦃w = small_world⦄ 1000 1000 [] busy).1
    ≡ map
        (λ (r : TaskResult). r.id)
        (filter_where (is_lost_row ⦃w = small_world⦄ 1000 1000 [] busy.heartbeats) busy.results)
find_lost_tasks-is_lost_row_example =
    find_lost_tasks-is_lost_row ⦃w = small_world⦄ 1000 1000 [] busy refl

abbrev rows_of : Option (ℕ × List TaskResult) → List TaskResult
rows_of none = []
rows_of (some (_, rows)) = rows

insert_keeps : KeepsRows ⦃w = small_world⦄
insert_keeps row at rows k rows1 e i old h =
    subst (λ o. get_elem? (rows_of o) i ≡ some old) e (get_elem?-append rows _ i old h)

second_alive :
    is_lost_row ⦃w = small_world⦄ 1000 1000 [] busy.heartbeats (a_result 2 running "w2" "") ≡ false
unfolding program
second_alive = refl

reap_lost_tasks-spares_example :
    Holds 1
      (a_result 2 running "w2" "")
      (reap_lost_tasks ⦃w = small_world⦄ 1000 1000 false [] busy).1
reap_lost_tasks-spares_example =
    reap_lost_tasks-spares ⦃w = small_world⦄ 1000 1000 false [] busy 1 (a_result 2 running "w2" "")
      insert_keeps refl (omega arith) refl refl second_alive

one_link : IsForward (a_retry 10 1 2 ∷ [])
one_link = record { grows = λ a b k e f. ground arith; bounded = λ a k e. ground arith }

walk-finishes_example : (walk max_chain (a_retry 10 1 2 ∷ []) (start_walk 1)).1 ≡ true
walk-finishes_example = walk-finishes (a_retry 10 1 2 ∷ []) 1 one_link (λ a e. ground arith)

-- The retry has not started, and nothing is marked yet.
abbrev quiet_outcome : ChainOutcome
quiet_outcome = record {
  status = engine ready;
  row = a_result 10 ready "" "";
  attempt = 2;
  executed_more_than_once = false;
  superseded_attempt = none;
  superseded_status = none;
  resurrected_cancelled_retry = false;
}

quiet_run : chain_outcome ⦃w = small_world⦄ 1 60 reaped ≡ some quiet_outcome
unfolding program
quiet_run = refl

-- The second retry of a chain was running when the attempt that it replaced came back.
abbrev racing : Db
racing = record reaped {
  results =
      a_result 1 failed "w1" ""
      ∷ a_result 10 failed "w2" worker_lost_path
      ∷ a_result 11 running "w3" ""
      ∷ [];
  attempts = a_retry 10 1 2 ∷ record (a_retry 11 10 3) { root_id = 1 } ∷ [];
}

abbrev forked : Db
forked = (mark_superseded 10 successful "jobs.send" 60 60 racing).1

abbrev marked_retry : TaskAttempt
marked_retry = record (a_retry 11 10 3) {
  root_id = 1;
  parent_completed_at = some 60;
  parent_status = some successful;
}

abbrev forked_outcome : ChainOutcome
forked_outcome = record quiet_outcome {
  status = engine running;
  row = a_result 11 running "w3" "";
  attempt = 3;
  executed_more_than_once = true;
  superseded_attempt = some 2;
  superseded_status = some successful;
}

forked_child : child_of 10 forked.attempts ≡ some marked_retry
unfolding program
forked_child = refl

forked_run : chain_outcome ⦃w = small_world⦄ 1 70 forked ≡ some forked_outcome
unfolding program
forked_run = refl

forked_below : retry_below 1 forked.attempts 1 ≡ some 10
unfolding program retry_below
forked_below = refl

chain_outcome-forked_example : forked_outcome.executed_more_than_once ≡ true
chain_outcome-forked_example =
    chain_outcome-forked ⦃w = small_world⦄ 1 1 10 70 marked_retry forked forked_outcome
      (omega arith) forked_below forked_child refl refl forked_run
