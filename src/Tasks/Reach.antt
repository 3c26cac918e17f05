-- ===== src/Tasks/Reach.antt =====
-- The attempt table under every operation of apps/tasks, in any order.
use cwstation.Prelude.{
  ℕ, refl, Bool, true, false, ◌||◌, Option, none, some, List, [], ◌∷◌, ◌++◌, String, ◌==◌,
  Bool-cases, inl, inr, arith, any_where, find_first,
}
use cwstation.Tasks.Model.{
  Status, Cause, lost, TaskResult, TaskAttempt, WorkerHeartbeat, Db, is_id, is_ready, is_running,
  result_of,
}
use cwstation.Tasks.Policy.{World}
use cwstation.Tasks.Retry.{
  Outcome, returned, raised, maybe_retry, pinned_row, pin_max_attempts, create_attempt,
}
use cwstation.Tasks.Late.{
  LateCompletion, is_cancellable, is_reaped_child, mark_child, flag_cancelled, supersede,
  mark_found, mark_superseded, record_found, record_late_completion, or_now, mark_rows, count_late,
  detect_late_completions,
}
use cwstation.Tasks.Repair.{repair_batch, count_retry, repair_rows, repair_missed_retries}
use cwstation.Tasks.Reaper.{
  LostTask, ReapResult, is_reapable, reap_one, reap_all, reap_lost_tasks, prune_heartbeats,
}
use cwstation.Tasks.Keys.{Sound, update_where-Sound, create_attempt-Sound, maybe_retry-Sound}

supersede-Sound :
    (parent child : ℕ) (status : Status) (path : String) (completed_at now : ℕ) (db : Db)
    → Sound db.attempts
    → Sound (supersede parent child status path completed_at now db).1.attempts
unfolding supersede mark_child flag_cancelled
supersede-Sound parent child status path completed_at now db s =
    let marked =
      update_where-Sound (is_reaped_child parent)
        (λ a. record a { parent_completed_at = some completed_at; parent_status = some status })
        db.attempts (λ a. refl) (λ a. refl) (λ a h. h) s in
    elim (Bool-cases (any_where (is_cancellable child) db.results)) [
      | inl e ↦ rw e (
          update_where-Sound (λ a. is_id a.parent_id parent)
            (λ a. record a { retry_cancelled = true }) _ (λ a. refl) (λ a. refl) (λ a h. h) marked)
      | inr e ↦ rw e marked
    ]

mark_superseded-Sound :
    (parent : ℕ) (status : Status) (path : String) (completed_at now : ℕ) (db : Db)
    → Sound db.attempts
    → Sound (mark_superseded parent status path completed_at now db).1.attempts
unfolding mark_superseded
mark_superseded-Sound parent status path completed_at now db s =
    found (find_first (is_reaped_child parent) db.attempts)
  where
    found :
        (o : Option TaskAttempt)
        → Sound (mark_found parent status path completed_at now o db).1.attempts
    found none = s
    found (some child) = supersede-Sound parent child.result_id status path completed_at now db s

record_late_completion-Sound :
    (result_id now : ℕ) (db : Db)
    → Sound db.attempts
    → Sound (record_late_completion result_id now db).1.attempts
unfolding record_late_completion
record_late_completion-Sound result_id now db s = found (result_of result_id db.results)
  where
    found : (o : Option TaskResult) → Sound (record_found result_id now o db).1.attempts
    found none = s
    found (some row) = elim (Bool-cases (is_ready row.status || is_running row.status)) [
      | inl e ↦ rw e s
      | inr e ↦ rw e (mark_superseded-Sound result_id row.status row.task_path _ now db s)
    ]

mark_rows-Sound :
    (rows : List TaskResult) (now : ℕ) (s : List LateCompletion × Db)
    → Sound s.1.attempts
    → Sound (mark_rows now rows s).1.attempts
unfolding mark_rows
mark_rows-Sound [] now (found, db) h = h
mark_rows-Sound (r ∷ rs) now (found, db) h =
    let marked = mark_superseded r.id r.status r.task_path (or_now r.finished_at now) now db in
    mark_rows-Sound rs now (count_late marked found)
      (counted marked (mark_superseded-Sound r.id r.status r.task_path _ now db h))
  where
    counted :
        (m : Option LateCompletion × Db)
        → Sound m.1.attempts
        → Sound (count_late m found).1.attempts
    counted (none, db1) i = i
    counted (some late, db1) i = i

pin_max_attempts-Sound :
    (result_id n now : ℕ) (db : Db)
    → Sound db.attempts
    → Sound (pin_max_attempts result_id n now db).attempts
unfolding pin_max_attempts
pin_max_attempts-Sound result_id n now db s =
    elim (Bool-cases (any_where (λ a. a.result_id == result_id) db.attempts)) [
      | inl e ↦ rw e (
          update_where-Sound (λ a. a.result_id == result_id)
            (λ a. record a { root_id = result_id; attempt = 1; max_attempts = some n }) db.attempts
            (λ a. refl) (λ a. refl) (λ a i. ground arith) s)
      | inr e ↦ rw e (
          create_attempt-Sound (pinned_row result_id n now) db.attempts
            (db.attempts ++ pinned_row result_id n now ∷ []) (unfold create_attempt in rw e refl)
            (ground arith) s)
    ]

detect_late_completions-Sound :
    (now limit : ℕ) (db : Db)
    → Sound db.attempts
    → Sound (detect_late_completions now limit db).1.attempts
unfolding detect_late_completions
detect_late_completions-Sound now limit db h = mark_rows-Sound _ now ([], db) h

module _ ⦃w : World⦄ where
  counted-Sound :
      (m : Outcome × Db) (n : ℕ) → Sound m.1.attempts → Sound (count_retry m n).1.attempts
  counted-Sound (returned none, db) n h = h
  counted-Sound (returned (some k), db) n h = h
  counted-Sound (raised, db) n h = h

  repair_rows-Sound :
      (rows : List TaskResult) (now : ℕ) (s : ℕ × Db)
      → Sound s.1.attempts
      → Sound (repair_rows now rows s).1.attempts
  unfolding repair_rows
  repair_rows-Sound [] now (n, db) h = h
  repair_rows-Sound (r ∷ rs) now (n, db) h =
      let made = maybe_retry r.id Cause.failed now db in
      repair_rows-Sound rs now (count_retry made n)
        (counted-Sound made n (maybe_retry-Sound r.id Cause.failed now db h))

  reap_one-Sound :
      (task : LostTask) (now : ℕ) (s : ReapResult × Db)
      → Sound s.1.attempts
      → Sound (reap_one now task s).1.attempts
  unfolding reap_one
  reap_one-Sound task now (r, db) h =
      elim (Bool-cases (any_where (is_reapable task.result_id) db.results)) [
        | inl e ↦ rw e (counted-Sound _ r.retried (maybe_retry-Sound task.result_id lost now _ h))
        | inr e ↦ rw e h
      ]

  reap_all-Sound :
      (tasks : List LostTask) (now : ℕ) (s : ReapResult × Db)
      → Sound s.1.attempts
      → Sound (reap_all now tasks s).1.attempts
  unfolding reap_all
  reap_all-Sound [] now s h = h
  reap_all-Sound (task ∷ tasks) now s h =
      reap_all-Sound tasks now (reap_one now task s) (reap_one-Sound task now s h)

  repair_missed_retries-Sound :
      (now : ℕ) (db : Db) → Sound db.attempts → Sound (repair_missed_retries now db).1.attempts
  unfolding repair_missed_retries
  repair_missed_retries-Sound now db h = repair_rows-Sound _ now (0, db) h

  reap_lost_tasks-Sound :
      (db_now now : ℕ) (dry_run : Bool) (exclude : List String) (db : Db)
      → Sound db.attempts
      → Sound (reap_lost_tasks db_now now dry_run exclude db).1.attempts
  unfolding reap_lost_tasks prune_heartbeats
  reap_lost_tasks-Sound db_now now true exclude db h = h
  reap_lost_tasks-Sound db_now now false exclude db h =
      detect_late_completions-Sound now repair_batch _
        (repair_missed_retries-Sound now _ (reap_all-Sound _ now _ h))

  -- One move of the system: an operation of apps/tasks, or a write of the engine and its workers,
  -- which touch the results and the heartbeats alone.
  pub data Step : Db → Db → Type 0 where
    engine :
        {db : Db} (results : List TaskResult) (heartbeats : List WorkerHeartbeat)
        → Step db (record db { results = results; heartbeats = heartbeats })
    retry :
        {db : Db} (result_id : ℕ) (cause : Cause) (now : ℕ)
        → Step db (maybe_retry result_id cause now db).1
    pin : {db : Db} (result_id n now : ℕ) → Step db (pin_max_attempts result_id n now db)
    finish : {db : Db} (result_id now : ℕ) → Step db (record_late_completion result_id now db).1
    reap :
        {db : Db} (db_now now : ℕ) (dry_run : Bool) (exclude : List String)
        → Step db (reap_lost_tasks db_now now dry_run exclude db).1

  pub data Steps : Db → Db → Type 0 where
    stay : {db : Db} → Steps db db
    go : {db db1 db2 : Db} → Step db db1 → Steps db1 db2 → Steps db db2

  Step-Sound : {db db1 : Db} → Step db db1 → Sound db.attempts → Sound db1.attempts
  Step-Sound (engine results heartbeats) h = h
  Step-Sound (retry result_id cause now) h = maybe_retry-Sound result_id cause now _ h
  Step-Sound (pin result_id n now) h = pin_max_attempts-Sound result_id n now _ h
  Step-Sound (finish result_id now) h = record_late_completion-Sound result_id now _ h
  Step-Sound (reap db_now now dry_run exclude) h =
      reap_lost_tasks-Sound db_now now dry_run exclude _ h

  -- However retries, pins, late completions and passes of the reaper are interleaved, and whatever
  -- the engine writes between them: in an attempt table that starts sound (an empty one is), no
  -- result ever has two rows or two retries, and no attempt number greater than one exceeds the budget
  -- that its own row carries.
  pub Steps-Sound : {db db1 : Db} → Steps db db1 → Sound db.attempts → Sound db1.attempts
  Steps-Sound stay h = h
  Steps-Sound (go s rest) h = Steps-Sound rest (Step-Sound s h)
