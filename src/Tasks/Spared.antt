-- ===== src/Tasks/Spared.antt =====
-- The tasks that a pass of the reaper leaves alone.
use text.Mathlib.Text.{◌==◌ as str_eq}
use cwstation.Prelude.{
  ℕ, ◌≤◌, ◌≡◌, refl, sym, ap, ◌∙◌, Bool, true, false, not, Option, none, some, List, [], ◌∷◌,
  String, ◌==◌, Bool-cases, inl, inr, arith, any_where, all_where, count_where, get_elem?,
  get_elem?-update_where, any_where-map, any_where-dropped,
}
use cwstation.Tasks.Model.{
  Cause, lost, TaskResult, TaskAttempt, WorkerHeartbeat, Db, is_running, is_ready, result_of,
}
use cwstation.Tasks.Policy.{World}
use cwstation.Tasks.Retry.{
  Outcome, returned, raised, Decision, retry_row, create_attempt, save_attempt, save_retry,
  enqueue_retry, retry_decided, retry_found, decide, maybe_retry,
}
use cwstation.Tasks.Late.{
  LateCompletion, mark_superseded, mark_rows, count_late, or_now, detect_late_completions,
}
use cwstation.Tasks.Cancel.{mark_superseded-keeps_started}
use cwstation.Tasks.Repair.{count_retry, repair_rows, repair_missed_retries}
use cwstation.Tasks.Reaper.{
  LostTask, ReapResult, is_reapable, fail_lost, find_lost_tasks, reap_one, reap_all,
  prune_heartbeats, reap_lost_tasks,
}
use cwstation.Tasks.Verdict.{is_lost_row, find_lost_tasks-is_lost_row}

-- The row stands at a place of the result table.
abbrev pub Holds : ℕ → TaskResult → Db → Type 0
Holds i row db = get_elem? db.results i ≡ some row

module _ ⦃w : World⦄ where
  -- What enqueueing promises: it inserts a row and changes none that is there.
  abbrev pub KeepsRows : Type 0
  KeepsRows =
      (row : TaskResult) (run_after : ℕ) (rows : List TaskResult) (k : ℕ) (rows1 : List TaskResult)
      → w.enqueue row run_after rows ≡ some (k, rows1)
      → (i : ℕ) (old : TaskResult) → get_elem? rows i ≡ some old
      → get_elem? rows1 i ≡ some old

  maybe_retry-Holds :
      (result_id : ℕ) (cause : Cause) (now : ℕ) (db : Db) (i : ℕ) (row : TaskResult)
      → KeepsRows
      → Holds i row db
      → Holds i row (maybe_retry result_id cause now db).1
  unfolding maybe_retry
  maybe_retry-Holds result_id cause now db i row keeps h = found (result_of result_id db.results)
    where
      inserted :
          (k : ℕ) (rows : List TaskResult) (o : Option (List TaskAttempt))
          → get_elem? rows i ≡ some row
          → Holds i row (save_attempt k rows o db).1
      inserted k rows none e = h
      inserted k rows (some attempts) e = e

      saved :
          (r : TaskResult) (d : Decision) (at : ℕ) (o : Option (ℕ × List TaskResult))
          → w.enqueue r at db.results ≡ o
          → Holds i row (save_retry r d now o db).1
      saved r d at none e = h
      saved r d at (some (k, rows)) e =
          inserted k rows (create_attempt (retry_row r d k now) db.attempts)
            (keeps r at db.results k rows e i row h)

      decided : (r : TaskResult) (o : Option Decision) → Holds i row (retry_decided r o now db).1
      decided r none = h
      decided r (some d) = unfold enqueue_retry in saved r d _ _ refl

      found : (o : Option TaskResult) → Holds i row (retry_found o cause now db).1
      found none = h
      found (some r) = decided r (decide db.attempts r cause)

  count_retry-Holds :
      (m : Outcome × Db) (n i : ℕ) (row : TaskResult)
      → Holds i row m.1
      → Holds i row (count_retry m n).1
  count_retry-Holds (returned none, db) n i row h = h
  count_retry-Holds (returned (some k), db) n i row h = h
  count_retry-Holds (raised, db) n i row h = h

  repair_rows-Holds :
      (rows : List TaskResult) (now : ℕ) (s : ℕ × Db) (i : ℕ) (row : TaskResult)
      → KeepsRows
      → Holds i row s.1
      → Holds i row (repair_rows now rows s).1
  unfolding repair_rows
  repair_rows-Holds [] now (n, db) i row keeps h = h
  repair_rows-Holds (r ∷ rs) now (n, db) i row keeps h =
      let made = maybe_retry r.id Cause.failed now db in
      repair_rows-Holds rs now (count_retry made n) i row keeps
        (count_retry-Holds made n i row (maybe_retry-Holds r.id Cause.failed now db i row keeps h))

  abbrev names_task : ℕ → List LostTask → Bool
  names_task k tasks = any_where (λ (t : LostTask). t.result_id == k) tasks

  reap_one-Holds :
      (task : LostTask) (now : ℕ) (s : ReapResult × Db) (i : ℕ) (row : TaskResult)
      → KeepsRows
      → (task.result_id == row.id) ≡ false
      → Holds i row s.1
      → Holds i row (reap_one now task s).1
  unfolding reap_one
  reap_one-Holds task now (r, db) i row keeps other h =
      elim (Bool-cases (any_where (is_reapable task.result_id) db.results)) [
        | inl e ↦ rw e (
            count_retry-Holds _ r.retried i row (
              maybe_retry-Holds task.result_id lost now _ i row keeps (
                get_elem?-update_where (is_reapable task.result_id) (fail_lost now) db.results i row
                  h (ground arith))))
        | inr e ↦ rw e h
      ]

  reap_all-Holds :
      (tasks : List LostTask) (now : ℕ) (s : ReapResult × Db) (i : ℕ) (row : TaskResult)
      → KeepsRows
      → names_task row.id tasks ≡ false
      → Holds i row s.1
      → Holds i row (reap_all now tasks s).1
  unfolding reap_all
  reap_all-Holds [] now s i row keeps other h = h
  reap_all-Holds (task ∷ tasks) now s i row keeps other h =
      reap_all-Holds tasks now (reap_one now task s) i row keeps (ground arith)
        (reap_one-Holds task now s i row keeps (ground arith) h)

  mark_rows-Holds :
      (rows : List TaskResult) (now : ℕ) (s : List LateCompletion × Db) (i : ℕ) (row : TaskResult)
      → is_ready row.status ≡ false
      → Holds i row s.1
      → Holds i row (mark_rows now rows s).1
  unfolding mark_rows
  mark_rows-Holds [] now (found, db) i row started h = h
  mark_rows-Holds (r ∷ rs) now (found, db) i row started h =
      let marked = mark_superseded r.id r.status r.task_path (or_now r.finished_at now) now db in
      mark_rows-Holds rs now (count_late marked found) i row started (
        counted marked
          (mark_superseded-keeps_started r.id r.status r.task_path _ now db i row h started))
    where
      counted :
          (m : Option LateCompletion × Db) → Holds i row m.1 → Holds i row (count_late m found).1
      counted (none, db1) j = j
      counted (some late, db1) j = j

  not_found_lost :
      (db_now now : ℕ) (exclude : List String) (db : Db) (i : ℕ) (row : TaskResult)
      → all_where (λ (hb : WorkerHeartbeat). not (str_eq hb.worker_id "")) db.heartbeats ≡ true
      → count_where (λ (r : TaskResult). r.id == row.id) db.results ≤ 1
      → Holds i row db
      → is_lost_row db_now now exclude db.heartbeats row ≡ false
      → names_task row.id (find_lost_tasks db_now now exclude db).1 ≡ false
  not_found_lost db_now now exclude db i row named unique h alive =
      let is_key = λ (k : ℕ). k == row.id in
      any_where-map is_key (λ (t : LostTask). t.result_id) (find_lost_tasks db_now now exclude db).1
      ∙ ap (any_where is_key) (find_lost_tasks-is_lost_row db_now now exclude db named)
      ∙ sym (any_where-map is_key (λ (r : TaskResult). r.id) _)
      ∙ any_where-dropped (λ (r : TaskResult). r.id == row.id)
          (is_lost_row db_now now exclude db.heartbeats) db.results i row h (ground arith) alive
          unique

  -- A pass of the reaper does not touch a task that does not count as lost: when ids are unique, no
  -- worker's id is empty and enqueueing only inserts, a RUNNING result whose worker is the caller, or
  -- has beaten lately, stands unchanged after `reap_lost_tasks`, its retries, its repair sweep and
  -- its sweep for late completions included.
  pub reap_lost_tasks-spares :
      (db_now now : ℕ) (dry_run : Bool) (exclude : List String) (db : Db) (i : ℕ) (row : TaskResult)
      → KeepsRows
      → all_where (λ (hb : WorkerHeartbeat). not (str_eq hb.worker_id "")) db.heartbeats ≡ true
      → count_where (λ (r : TaskResult). r.id == row.id) db.results ≤ 1
      → Holds i row db
      → is_running row.status ≡ true
      → is_lost_row db_now now exclude db.heartbeats row ≡ false
      → Holds i row (reap_lost_tasks db_now now dry_run exclude db).1
  unfolding reap_lost_tasks
  reap_lost_tasks-spares db_now now true exclude db i row keeps named unique h running alive = h
  reap_lost_tasks-spares db_now now false exclude db i row keeps named unique h running alive =
      unfold prune_heartbeats detect_late_completions repair_missed_retries in
      mark_rows-Holds _ now ([], _) i row (ground arith)
        (repair_rows-Holds _ now (0, _) i row keeps
          (reap_all-Holds _ now _ i row keeps
            (not_found_lost db_now now exclude db i row named unique h alive) h))
