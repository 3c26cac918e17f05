-- ===== src/Tasks/Reaper.antt =====
-- apps/tasks/reaper.py. The database's clock is
-- `db_now`, the process's is `now`.
use text.Mathlib.Text.{◌==◌ as str_eq}
use cwstation.Prelude.{
  ℕ, ◌+◌, Bool, true, false, not, ◌&&◌, ◌||◌, Option, none, some, List, [], ◌∷◌, ◌++◌, String,
  length, ltb, ◌==◌, if◌then◌else◌, any_where, find_first, filter_where, update_where,
}
use cwstation.Tasks.Model.{
  Status, lost, TaskResult, WorkerHeartbeat, Db, is_running, worker_lost_path,
}
use cwstation.Tasks.Policy.{World}
use cwstation.Tasks.Retry.{maybe_retry}
use cwstation.Tasks.Late.{detect_late_completions}
use cwstation.Tasks.Repair.{count_retry, repair_batch, repair_missed_retries}

-- Why a task is lost; the texts that the code renders from this are left out.
pub data Reason : Type 0 where
  exited : ℕ → Reason
  stale : ℕ → Reason
  orphaned : ℕ → Reason

pub record LostTask : Type 0 where
  pub result_id : ℕ
  pub task_path : String
  pub worker_id : String
  pub reason : Reason

pub record ReapResult : Type 0 where
  pub running : ℕ
  pub reaped : List LostTask
  pub raced : ℕ
  pub reaped_then_completed : ℕ
  pub retried : ℕ
  pub repaired : ℕ
  pub heartbeats_pruned : ℕ

-- `row.worker_ids[-1] if row.worker_ids else ""`
unfoldable pub last_worker : List String → String
last_worker [] = ""
last_worker (x ∷ []) = x
last_worker (x ∷ y ∷ rest) = last_worker (y ∷ rest)

abbrev pub mem_string : String → List String → Bool
mem_string x xs = any_where (λ y. str_eq y x) xs

abbrev pub is_empty_list : List String → Bool
is_empty_list [] = true
is_empty_list _ = false

abbrev pub started_of : TaskResult → ℕ
started_of row = elim row.started_at [ none ↦ row.enqueued_at | some t ↦ t ]

abbrev pub heartbeat_retention : ℕ
heartbeat_retention = 604800

-- The conditional UPDATE that marks a lost task.
abbrev pub is_reapable : ℕ → TaskResult → Bool
is_reapable k r = r.id == k && is_running r.status

abbrev pub fail_lost : ℕ → TaskResult → TaskResult
fail_lost now r = record r {
  status = Status.failed;
  finished_at = some now;
  return_value = none;
  exception_class_path = worker_lost_path;
}

unfoldable pub prune_heartbeats : ℕ → Db → ℕ × Db
prune_heartbeats now db =
    let old = λ (hb : WorkerHeartbeat).
      elim hb.stopped_at [ none ↦ false | some t ↦ ltb (t + heartbeat_retention) now ]
      || ltb (hb.last_seen_at + heartbeat_retention) now in
    (
      length (filter_where old db.heartbeats),
      record db { heartbeats = filter_where (λ hb. not (old hb)) db.heartbeats },
    )

-- The heartbeat row that `find_lost_tasks` joins to a worker.
abbrev pub heartbeat_of : String → List WorkerHeartbeat → Option WorkerHeartbeat
heartbeat_of worker hbs = find_first (λ hb. str_eq hb.worker_id worker) hbs

-- Whether one of the rows names the worker of a heartbeat.
abbrev pub is_named : List TaskResult → WorkerHeartbeat → Bool
is_named rows hb =
    any_where
      (λ (r : TaskResult).
        not (is_empty_list r.worker_ids) && str_eq (last_worker r.worker_ids) hb.worker_id)
      rows

abbrev pub lost_as : TaskResult → String → Option Reason → List LostTask
lost_as row worker none = []
lost_as row worker (some reason) =
    record { result_id = row.id; task_path = row.task_path; worker_id = worker; reason = reason }
    ∷ []

module _ ⦃w : World⦄ where
  unfoldable pub lost_reason : TaskResult → Option WorkerHeartbeat → ℕ → ℕ → Option Reason
  lost_reason row none db_now now =
      if ltb (started_of row + w.orphan_seconds) now then some (orphaned (started_of row)) else none
  lost_reason row (some hb) db_now now = elim hb.stopped_at [
    | some t ↦ some (exited t)
    | none ↦
        if ltb (hb.last_seen_at + w.lost_after_seconds) db_now
        then some (stale hb.last_seen_at)
        else none
  ]

  unfoldable pub judge : ℕ → ℕ → List String → List WorkerHeartbeat → TaskResult → List LostTask
  judge db_now now exclude hbs row =
      let worker = last_worker row.worker_ids in
      if not (str_eq worker "") && mem_string worker exclude
      then []
      else lost_as row worker (lost_reason row (heartbeat_of worker hbs) db_now now)

  unfoldable pub judge_all :
      ℕ → ℕ → List String → List WorkerHeartbeat → List TaskResult → List LostTask
  judge_all db_now now exclude hbs [] = []
  judge_all db_now now exclude hbs (row ∷ rows) =
      judge db_now now exclude hbs row ++ judge_all db_now now exclude hbs rows

  -- Only the heartbeats of the workers that the running tasks name are fetched.
  unfoldable pub find_lost_tasks : ℕ → ℕ → List String → Db → ℕ × List LostTask
  find_lost_tasks db_now now exclude db =
      let rows = filter_where (λ r. is_running r.status) db.results in
      (length rows, judge_all db_now now exclude (filter_where (is_named rows) db.heartbeats) rows)

  -- The loop over the lost tasks.
  unfoldable pub reap_one : ℕ → LostTask → ReapResult × Db → ReapResult × Db
  reap_one now task (result, db) =
      if any_where (is_reapable task.result_id) db.results
      then (let failed = record db {
        results = update_where (is_reapable task.result_id) (fail_lost now) db.results;
      } in
          let (retried, after) =
            count_retry (maybe_retry task.result_id lost now failed) result.retried in
          (record result { reaped = result.reaped ++ task ∷ []; retried = retried }, after))
      else (record result { raced = result.raced + 1 }, db)

  unfoldable pub reap_all : ℕ → List LostTask → ReapResult × Db → ReapResult × Db
  reap_all now [] s = s
  reap_all now (task ∷ tasks) s = reap_all now tasks (reap_one now task s)

  unfoldable pub reap_lost_tasks : ℕ → ℕ → Bool → List String → Db → ReapResult × Db
  reap_lost_tasks db_now now dry_run exclude db =
      let (count, lost_tasks) = find_lost_tasks db_now now exclude db in
      let start : ReapResult = record {
        running = count;
        reaped = [];
        raced = 0;
        reaped_then_completed = 0;
        retried = 0;
        repaired = 0;
        heartbeats_pruned = 0;
      } in
      if dry_run
      then (record start { reaped = lost_tasks }, db)
      else (let (result, db1) = reap_all now lost_tasks (start, db) in
          let (repaired, db2) = repair_missed_retries now db1 in
          let (late, db3) = detect_late_completions now repair_batch db2 in
          let (pruned, db4) = prune_heartbeats now db3 in
          (
            record result {
              repaired = repaired;
              reaped_then_completed = length late;
              heartbeats_pruned = pruned;
            },
            db4,
          ))
