-- ===== src/Tasks/Cancel.antt =====
-- What a late completion changes, and what it cannot change.
use cwstation.Prelude.{
  ℕ, ◌≤◌, ◌≡◌, refl, sym, ◌∙◌, subst, Bool, true, false, Option, none, some, List, [], ◌∷◌, String,
  ◌==◌, if◌then◌else◌, Bool-cases, inl, inr, arith, any_where, find_first, update_where,
  count_where, get_elem?, get_elem?-update_where, find_first-update_where-none,
  find_first-update_where-still_none,
}
use cwstation.Tasks.Model.{
  Status, Cause, TaskResult, TaskAttempt, Db, is_id, is_ready, is_bookkeeping,
  retry_superseded_path, result_of,
}
use cwstation.Tasks.Policy.{World}
use cwstation.Tasks.Retry.{returned, retry_found, decide, maybe_retry}
use cwstation.Tasks.Late.{
  LateCompletion, is_cancellable, is_reaped_child, cancel_result, mark_child, flag_cancelled,
  supersede, mark_found, mark_superseded,
}

mark_child-none :
    (rows : List TaskAttempt) (parent : ℕ) (status : Status) (completed_at : ℕ)
    → find_first (is_reaped_child parent) (mark_child parent status completed_at rows) ≡ none
unfolding mark_child
mark_child-none rows parent status completed_at =
    find_first-update_where-none (is_reaped_child parent) _ (λ a. ground arith) rows

-- The attempts that `supersede` leaves.
superseded_attempts :
    (rows : List TaskAttempt) (parent : ℕ) (status : Status) (completed_at : ℕ) (cancelled : Bool)
    → find_first (is_reaped_child parent) (
        if cancelled
        then flag_cancelled parent (mark_child parent status completed_at rows)
        else mark_child parent status completed_at rows)
      ≡ none
unfolding flag_cancelled
superseded_attempts rows parent status completed_at true =
    find_first-update_where-still_none (is_reaped_child parent) (λ a. is_id a.parent_id parent)
      (λ a. record a { retry_cancelled = true }) (λ a. refl)
      (mark_child parent status completed_at rows) (mark_child-none rows parent status completed_at)
superseded_attempts rows parent status completed_at false =
    mark_child-none rows parent status completed_at

-- Whatever is recorded of one late completion is recorded once: after `_mark_superseded`, a second
-- call for the same attempt returns nothing and changes nothing.
pub mark_superseded-twice :
    (parent : ℕ) (status status1 : Status) (path path1 : String) (at at1 now now1 : ℕ) (db : Db)
    → let once = (mark_superseded parent status path at now db).1 in
      mark_superseded parent status1 path1 at1 now1 once ≡ (none, once)
unfolding mark_superseded
mark_superseded-twice parent status status1 path path1 at at1 now now1 db =
    first_call (find_first (is_reaped_child parent) db.attempts) refl
  where
    second :
        (o : Option TaskAttempt) (db1 : Db)
        → o ≡ none
        → mark_found parent status1 path1 at1 now1 o db1 ≡ (none, db1)
    second o db1 e = rw e refl

    first_call :
        (o : Option TaskAttempt)
        → find_first (is_reaped_child parent) db.attempts ≡ o
        → let once = (mark_found parent status path at now o db).1 in
          mark_found parent status1 path1 at1 now1
            (find_first (is_reaped_child parent) once.attempts)
            once
          ≡ (none, once)
    first_call none e = second _ db e
    first_call (some child) e =
        unfold supersede in second _ _ (superseded_attempts db.attempts parent status at _)

-- A late completion touches no result but a retry that is still READY: every other row stays as it
-- was, a running or finished retry included.
pub mark_superseded-keeps_started :
    (parent : ℕ) (status : Status) (path : String) (at now : ℕ) (db : Db) (i : ℕ) (row : TaskResult)
    → get_elem? db.results i ≡ some row
    → is_ready row.status ≡ false
    → get_elem? (mark_superseded parent status path at now db).1.results i ≡ some row
unfolding mark_superseded
mark_superseded-keeps_started parent status path at now db i row h started =
    found (find_first (is_reaped_child parent) db.attempts)
  where
    found :
        (o : Option TaskAttempt)
        → get_elem? (mark_found parent status path at now o db).1.results i ≡ some row
    found none = h
    found (some child) =
        unfold supersede in
        get_elem?-update_where (is_cancellable child.result_id) (cancel_result now) db.results i row
          h (ground arith)

no_cancellable :
    (k : ℕ) (rows : List TaskResult)
    → count_where (λ (r : TaskResult). r.id == k) rows ≡ 0
    → any_where (is_cancellable k) rows ≡ false
no_cancellable k [] h = refl
no_cancellable k (r ∷ rs) h = ground (arith, no_cancellable k rs)

-- The row that carries the cancellation.
cancelled_row :
    (k now : ℕ) (rows : List TaskResult) {row : TaskResult}
    → count_where (λ (r : TaskResult). r.id == k) rows ≤ 1
    → any_where (is_cancellable k) rows ≡ true
    → result_of k (update_where (is_cancellable k) (cancel_result now) rows) ≡ some row
    → row.exception_class_path ≡ retry_superseded_path
cancelled_row k now [] unique h e = cc
cancelled_row k now (r ∷ rs) {row} unique h e = elim (Bool-cases (r.id == k)) [
  | inl same ↦ ground (arith, no_cancellable k rs)
  | inr other ↦ cancelled_row k now rs {row = row} (ground arith) (ground arith) (ground arith)
]

bookkeeping_refused :
    (row : TaskResult)
    → row.exception_class_path ≡ retry_superseded_path
    → is_bookkeeping row.exception_class_path ≡ true
unfolding is_bookkeeping
bookkeeping_refused row e = rw e refl

module _ ⦃w : World⦄ where
  decide-bookkeeping :
      (rows : List TaskAttempt) (row : TaskResult) (cause : Cause)
      → is_bookkeeping row.exception_class_path ≡ true
      → decide rows row cause ≡ none
  unfolding decide
  decide-bookkeeping rows row cause h = ground arith

  retry_found-refused :
      (o : Option TaskResult) (cause : Cause) (later : ℕ) (db : Db)
      → ((row : TaskResult) → o ≡ some row → row.exception_class_path ≡ retry_superseded_path)
      → retry_found o cause later db ≡ (returned none, db)
  retry_found-refused none cause later db e = refl
  retry_found-refused (some row) cause later db e =
      rw (decide-bookkeeping db.attempts row cause (bookkeeping_refused row (e row refl))) refl

  -- What is to hold of a late completion and the tables that it leaves.
  abbrev IsCancelled : List TaskResult → Option LateCompletion × Db → Type 0
  IsCancelled rows (none, db) = Unit
  IsCancelled rows (some late, db) =
      count_where (λ (r : TaskResult). r.id == late.retry_id) rows ≤ 1
      → late.retry_cancelled ≡ true
      → (row : TaskResult) → result_of late.retry_id db.results ≡ some row
      → row.exception_class_path ≡ retry_superseded_path

  mark_superseded-IsCancelled :
      (parent : ℕ) (status : Status) (path : String) (at now : ℕ) (db : Db)
      → IsCancelled db.results (mark_superseded parent status path at now db)
  unfolding mark_superseded
  mark_superseded-IsCancelled parent status path at now db =
      found (find_first (is_reaped_child parent) db.attempts)
    where
      found :
          (o : Option TaskAttempt)
          → IsCancelled db.results (mark_found parent status path at now o db)
      found none = tt
      found (some child) =
          unfold supersede in
          λ unique cancelled row e. cancelled_row child.result_id now db.results unique cancelled e

  -- A retry that a late completion has cancelled is not retried: when ids are unique, in all tables in
  -- which its result row is still the one that the cancellation left, whatever has happened to the
  -- other rows meanwhile, `maybe_retry` enqueues nothing for it and changes nothing, whatever cause it
  -- is called with.
  pub maybe_retry-cancelled :
      (parent : ℕ) (status : Status) (path : String) (at now later : ℕ) (cause : Cause)
      (db db1 db2 : Db) (late : LateCompletion)
      → count_where (λ (r : TaskResult). r.id == late.retry_id) db.results ≤ 1
      → mark_superseded parent status path at now db ≡ (some late, db1)
      → late.retry_cancelled ≡ true
      → result_of late.retry_id db2.results ≡ result_of late.retry_id db1.results
      → maybe_retry late.retry_id cause later db2 ≡ (returned none, db2)
  unfolding maybe_retry
  maybe_retry-cancelled parent status path at now later cause db db1 db2 late unique h cancelled
        same =
      let left =
        subst (IsCancelled db.results) h (mark_superseded-IsCancelled parent status path at now db)
          unique cancelled in
      retry_found-refused (result_of late.retry_id db2.results) cause later db2
        (λ row e. left row (sym same ∙ e))
