-- ===== src/Tasks/Once.antt =====
-- An attempt is retried at most once, and a retry that was cancelled stays cancelled.
use cwstation.Prelude.{
  ℕ, ◌+◌, ◌≡◌, refl, ap, Bool, true, false, Option, none, some, List, ◌==◌, arith, find_first_sound,
  find_first-snoc,
}
use cwstation.Tasks.Model.{Cause, TaskResult, TaskAttempt, Db, is_id, result_of, child_of}
use cwstation.Tasks.Policy.{World}
use cwstation.Tasks.Retry.{
  Outcome, returned, Decision, retry_row, create_attempt, save_attempt, save_retry, enqueue_retry,
  retry_decided, retry_found, decide, maybe_retry, AttemptInfo, attempt_info,
}
use cwstation.Tasks.Decide.{decide-IsAllowed}
use cwstation.Tasks.Keys.{==→eq, create_attempt-IsFresh}

-- Nothing was enqueued.
abbrev pub is_quiet : Outcome → Bool
is_quiet (returned (some _)) = false
is_quiet _ = true

create_attempt-second :
    (new : TaskAttempt) (k : ℕ) (child : TaskAttempt) (rows : List TaskAttempt)
    → new.parent_id ≡ some k
    → child_of k rows ≡ some child
    → create_attempt new rows ≡ none
unfolding create_attempt
create_attempt-second new k child rows is_k found = rw is_k (rw found (ground arith))

result_of-id :
    (k : ℕ) (rows : List TaskResult) {row : TaskResult} → result_of k rows ≡ some row → row.id ≡ k
result_of-id k rows {row} h =
    ==→eq row.id k (find_first_sound (λ (r : TaskResult). r.id == k) rows h)

-- The row of a retry: the next attempt of the same chain.
pub record IsNext (k : ℕ) (info : AttemptInfo) (a : TaskAttempt) : Type 0 where
  pub is_retry : a.result_id ≡ k
  pub next_attempt : a.attempt ≡ info.attempt + 1
  pub same_root : a.root_id ≡ info.root_id
  pub same_budget : a.max_attempts ≡ info.max_attempts
  pub unmarked : a.parent_completed_at ≡ none

abbrev new_of : Outcome × Db → ℕ
new_of (returned (some k), _) = k
new_of _ = 0

abbrev pub IsRecorded : ℕ → ℕ → AttemptInfo → Db → Type 0
IsRecorded parent k info db =
    (a : TaskAttempt) × (child_of parent db.attempts ≡ some a) × IsNext k info a

save_attempt-IsRecorded :
    (row : TaskResult) (d : Decision) (new_id now k : ℕ) (results : List TaskResult) (db db1 : Db)
    → save_attempt new_id results (create_attempt (retry_row row d new_id now) db.attempts) db
      ≡ (returned (some k), db1)
    → IsRecorded row.id k d.info db1
save_attempt-IsRecorded row d new_id now k results db db1 h =
    saved (create_attempt (retry_row row d new_id now) db.attempts) refl h
  where
    saved :
        (o : Option (List TaskAttempt))
        → create_attempt (retry_row row d new_id now) db.attempts ≡ o
        → save_attempt new_id results o db ≡ (returned (some k), db1)
        → IsRecorded row.id k d.info db1
    saved none e h = cc
    saved (some rows) e h =
        let fresh = create_attempt-IsFresh (retry_row row d new_id now) db.attempts rows e in
        (
          retry_row row d new_id now,
          rw (← ap (λ (m : Outcome × Db). m.1.attempts) h, fresh.appended)
              (find_first-snoc (λ (a : TaskAttempt). is_id a.parent_id row.id) db.attempts
                (retry_row row d new_id now) (fresh.new_parent row.id refl) (ground arith)),
          record {
            is_retry = ap new_of h;
            next_attempt = refl;
            same_root = refl;
            same_budget = refl;
            unmarked = refl;
          },
        )

module _ ⦃w : World⦄ where
  -- Once an attempt row names a result as its parent, a further call of `maybe_retry` on that result
  -- enqueues nothing and leaves the tables as they are: the enqueued result is rolled back with the
  -- row that the unique column refuses.
  pub maybe_retry-second :
      (result_id : ℕ) (cause : Cause) (now : ℕ) (child : TaskAttempt) (db : Db)
      → child_of result_id db.attempts ≡ some child
      → (is_quiet (maybe_retry result_id cause now db).0 ≡ true)
        × ((maybe_retry result_id cause now db).1 ≡ db)
  unfolding maybe_retry
  maybe_retry-second result_id cause now child db h = found (result_of result_id db.results) refl
    where
      saved :
          (row : TaskResult) (d : Decision) (o : Option (ℕ × List TaskResult))
          → row.id ≡ result_id
          → (is_quiet (save_retry row d now o db).0 ≡ true) × ((save_retry row d now o db).1 ≡ db)
      saved row d none e = (refl, refl)
      saved row d (some (k, results)) e =
          rw
            (create_attempt-second (retry_row row d k now) result_id child db.attempts (ap some e)
              h)
            (refl, refl)

      decided :
          (row : TaskResult) (o : Option Decision)
          → row.id ≡ result_id
          → (is_quiet (retry_decided row o now db).0 ≡ true) × ((retry_decided row o now db).1 ≡ db)
      decided row none e = (refl, refl)
      decided row (some d) e = unfold enqueue_retry in saved row d _ e

      found :
          (o : Option TaskResult)
          → result_of result_id db.results ≡ o
          → (is_quiet (retry_found o cause now db).0 ≡ true) × ((retry_found o cause now db).1 ≡ db)
      found none e = (refl, refl)
      found (some row) e =
          decided row (decide db.attempts row cause) (result_of-id result_id db.results e)

  -- A retry that is enqueued is on record: the attempt table now names the result as the parent of
  -- the next attempt of the same chain, with the chain's root and budget.
  pub maybe_retry-IsRecorded :
      (result_id : ℕ) (cause : Cause) (now k : ℕ) (db db1 : Db)
      → maybe_retry result_id cause now db ≡ (returned (some k), db1)
      → (a : TaskAttempt) × (child_of result_id db1.attempts ≡ some a)
        × IsNext k (attempt_info result_id db.attempts) a
  unfolding maybe_retry
  maybe_retry-IsRecorded result_id cause now k db db1 h =
      found (result_of result_id db.results) refl h
    where
      saved :
          (row : TaskResult) (d : Decision) (o : Option (ℕ × List TaskResult))
          → save_retry row d now o db ≡ (returned (some k), db1)
          → IsRecorded row.id k d.info db1
      saved row d none h = cc
      saved row d (some (new_id, results)) h =
          save_attempt-IsRecorded row d new_id now k results db db1 h

      decided :
          (row : TaskResult) (o : Option Decision)
          → decide db.attempts row cause ≡ o
          → retry_decided row o now db ≡ (returned (some k), db1)
          → IsRecorded row.id k (attempt_info row.id db.attempts) db1
      decided row none e h = cc
      decided row (some d) e h =
          let allowed = decide-IsAllowed db.attempts row cause d e in
          rw (← allowed.info_is) (unfold enqueue_retry in saved row d _ h)

      found :
          (o : Option TaskResult)
          → result_of result_id db.results ≡ o
          → retry_found o cause now db ≡ (returned (some k), db1)
          → IsRecorded result_id k (attempt_info result_id db.attempts) db1
      found none e h = cc
      found (some row) e h =
          rw (← result_of-id result_id db.results e)
            (decided row (decide db.attempts row cause) refl h)
