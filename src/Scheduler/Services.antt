-- ===== src/Scheduler/Services.antt =====
-- apps/scheduler/services.py: one tick. A tick works on copies of the rows that it has loaded; each
-- update goes to the table. The clock stands still during one tick, and the task tables keep the
-- same clock in seconds.
use cwstation.Prelude.{
  ℕ, ◌+◌, ◌/◌, Bool, true, false, not, ◌&&◌, Option, none, some, List, [], ◌∷◌, ◌++◌, leb, ltb,
  ◌==◌, if◌then◌else◌, filter_where, any_where, update_where, ◌*◌,
}
use cwstation.Tasks.Model.{Db, TaskResult, is_none}
use cwstation.Tasks.Model as M
use cwstation.Tasks.Policy.{World}
use cwstation.Tasks.Retry.{pin_max_attempts}
use cwstation.Tasks.Chain.{engine, retrying, ChainOutcome, chain_outcome}
use cwstation.Scheduler.Model.{
  CatchUp, run_once, skip, RunStatus, queued, skipped, failed, invalid, of_run, ScheduledJob,
  Message, no_message, previous_active, task_unresolvable, enqueue_failed, missed_runs,
  ScheduledJobRun, SchedDb, TickResult, Tick, is_queued, is_at,
}
use cwstation.Scheduler.Schedules.{
  Result, ok, config_error, other_error, Calendar, second, next_run, missed_periods,
}

-- `_enqueue`: the new row's id, if it has one, with the table, or the exception: one that says that
-- the path does not resolve (ImportError, AttributeError, ValueError), or another.
pub data Enqueued : Type 0 where
  enqueued_as : Option ℕ → List TaskResult → Enqueued
  unresolvable : Enqueued
  not_enqueued : Enqueued

-- What the scheduler asks of the settings, and of Django's task backend and the task modules.
pub record Backend : Type 0 where
  pub stale_run_seconds : ℕ
  pub enqueue : ScheduledJob → List TaskResult → Enqueued

pub data Ended : Type 0 where
  returned raised : Ended

-- How the claim of a due job ends.
pub data Claim : Type 0 where
  invalid_cadence crashed lost_claim : Claim
  won : Option ℕ → Claim

abbrev pub start_result : TickResult
start_result = record { enqueued = 0; skipped = 0; retired = 0; errors = 0 }

abbrev pub job_key : ℕ → ScheduledJob → Bool
job_key k j = j.id == k

-- `ScheduledJob.objects.filter(pk=k).update(…)`
abbrev pub update_job : ℕ → (ScheduledJob → ScheduledJob) → SchedDb → SchedDb
update_job k f db = record db { jobs = update_where (job_key k) f db.jobs }

-- `_record`
unfoldable pub record_run :
    ScheduledJob → RunStatus → ℕ → Option ℕ → Message → ℕ → SchedDb → SchedDb
record_run job status scheduled_for task_result_id message now db = record db {
  runs =
      db.runs
      ++ record {
        job_id = job.id;
        status = status;
        scheduled_for = scheduled_for;
        created_at = now;
        task_result_id = task_result_id;
        message = message;
      }
        ∷ [];
}

-- `order_by("-created_at").first()`
abbrev pub later_of : ScheduledJobRun → Option ScheduledJobRun → ScheduledJobRun
later_of r none = r
later_of r (some s) = if ltb s.created_at r.created_at then r else s

abbrev pub latest_of : List ScheduledJobRun → Option ScheduledJobRun
latest_of [] = none
latest_of (r ∷ rest) = some (later_of r (latest_of rest))

abbrev pub is_open_run : ℕ → ScheduledJobRun → Bool
is_open_run k r = r.job_id == k && is_queued r.status && not (is_none r.task_result_id)

-- `status in _UNFINISHED`
abbrev pub is_unfinished : Option ChainOutcome → Bool
is_unfinished none = false
is_unfinished (some o) = elim o.status [
  | retrying ↦ true
  | engine s ↦ elim s [
    | M.Status.ready ↦ true
    | M.Status.running ↦ true
    | M.Status.successful ↦ false
    | M.Status.failed ↦ false
  ]
]

abbrev pub count_enqueued : TickResult → TickResult
count_enqueued r = record r { enqueued = r.enqueued + 1 }

abbrev pub count_skipped : TickResult → TickResult
count_skipped r = record r { skipped = r.skipped + 1 }

abbrev pub count_retired : Option ℕ → TickResult → TickResult
count_retired none r = record r { retired = r.retired + 1 }
count_retired (some _) r = r

abbrev pub count_error : TickResult → TickResult
count_error r = record r { errors = r.errors + 1 }

abbrev pub skip_run : ScheduledJob → ℕ → Message → ℕ → Tick → Tick
skip_run job observed message now t = record {
  db = record_run job skipped observed none message now t.db;
  result = count_skipped t.result;
}

-- `filter(pk=job.pk, next_run_at=observed)`
abbrev pub still_due : ℕ → ℕ → ScheduledJob → Bool
still_due k observed j = j.id == k && is_at j.next_run_at observed

abbrev pub claim_with : ScheduledJob → ℕ → Result (Option ℕ) → SchedDb → Claim × SchedDb
claim_with job observed (ok new_next) db =
    if any_where (still_due job.id observed) db.jobs
    then (
      won new_next,
      record db {
        jobs =
            update_where (still_due job.id observed) (λ j. record j { next_run_at = new_next })
              db.jobs;
      },
    )
    else (lost_claim, db)
claim_with job observed config_error db = (
  invalid_cadence,
  update_job job.id (λ j. record j { enabled = false; last_status = invalid }) db,
)
claim_with job observed other_error db = (crashed, db)

-- The handler of the loop in `run_due_jobs`.
abbrev pub caught : Ended × Tick → Tick
caught (returned, t) = t
caught (raised, t) = record t { result = count_error t.result }

abbrev pub is_reached : Option ℕ → ℕ → Bool
is_reached none now = false
is_reached (some t) now = leb t now

abbrev pub is_due : ℕ → ScheduledJob → Bool
is_due now j = j.enabled && is_reached j.next_run_at now

module _ ⦃w : World⦄ ⦃cal : Calendar⦄ ⦃b : Backend⦄ where
  -- `_engine_status`, for a run that has the id of a result
  abbrev pub run_unfinished : Option ℕ → ℕ → Db → Bool
  run_unfinished none now tasks = false
  run_unfinished (some k) now tasks = is_unfinished (chain_outcome k (now / second) tasks)

  abbrev pub active_run : Option ScheduledJobRun → ℕ → Db → Bool
  active_run none now tasks = false
  active_run (some last) now tasks =
      if ltb (last.created_at + b.stale_run_seconds * second) now
      then false
      else run_unfinished last.task_result_id now tasks

  -- `_previous_run_active`
  unfoldable pub previous_run_active : ScheduledJob → ℕ → SchedDb → Bool
  previous_run_active job now db =
      active_run (latest_of (filter_where (is_open_run job.id) db.runs)) now db.tasks

  -- The transaction of `enqueue_and_record`: the new result and its pinned budget.
  abbrev pub pin_retries : ScheduledJob → Option ℕ → ℕ → Db → Db
  pin_retries job none now tasks = tasks
  pin_retries job (some k) now tasks =
      if job.max_retries == 0
      then tasks
      else pin_max_attempts k (job.max_retries + 1) (now / second) tasks

  abbrev pub book_run : ScheduledJob → ℕ → ℕ → Option ℕ → List TaskResult → SchedDb → SchedDb
  book_run job scheduled_for now task_result_id results db =
      let tasks = pin_retries job task_result_id now (record db.tasks { results = results }) in
      update_job job.id
        (λ j. record j {
          last_enqueued_at = some now;
          last_status = of_run queued;
          total_runs = j.total_runs + 1;
        })
        (record_run job queued scheduled_for task_result_id no_message now
          (record db { tasks = tasks }))

  -- `enqueue_and_record` in the `try` of `_process_job_body`, and the handlers.
  abbrev pub fired : ScheduledJob → ℕ → ℕ → Enqueued → Tick → Tick
  fired job observed now (enqueued_as task_result_id results) t = record {
    db = book_run job observed now task_result_id results t.db;
    result = count_enqueued t.result;
  }
  fired job observed now unresolvable t = record {
    db =
        update_job job.id (λ j. record j { enabled = false; last_status = invalid })
          (record_run job failed observed none task_unresolvable now t.db);
    result = count_error t.result;
  }
  fired job observed now not_enqueued t = record {
    db =
        update_job job.id (λ j. record j { last_status = of_run failed })
          (record_run job failed observed none enqueue_failed now t.db);
    result = count_error t.result;
  }

  unfoldable pub fire : ScheduledJob → ℕ → ℕ → Tick → Tick
  fire job observed now t = fired job observed now (b.enqueue job t.db.tasks.results) t

  abbrev pub catch_up_missed : ScheduledJob → ℕ → ℕ → Result ℕ → Tick → Ended × Tick
  catch_up_missed job observed now (ok missed) t =
      if leb 1 missed
      then (returned, skip_run job observed (missed_runs missed) now t)
      else (returned, fire job observed now t)
  catch_up_missed job observed now config_error t = (raised, t)
  catch_up_missed job observed now other_error t = (raised, t)

  abbrev pub catch_up : CatchUp → ScheduledJob → ℕ → ℕ → Tick → Ended × Tick
  catch_up run_once job observed now t = (returned, fire job observed now t)
  catch_up skip job observed now t =
      catch_up_missed job observed now (missed_periods job.cadence observed now) t

  -- What the tick that has won the claim does then.
  unfoldable pub settle : ScheduledJob → ℕ → ℕ → Option ℕ → Tick → Ended × Tick
  settle job observed now new_next t0 =
      let t = record t0 { result = count_retired new_next t0.result } in
      if not job.allow_overlap && previous_run_active job now t.db
      then (returned, skip_run job observed previous_active now t)
      else catch_up job.catch_up job observed now t

  unfoldable pub claim_job : ScheduledJob → ℕ → ℕ → SchedDb → Claim × SchedDb
  claim_job job observed now db = claim_with job observed (next_run job.cadence now) db

  abbrev pub after_claim : ScheduledJob → ℕ → ℕ → TickResult → Claim × SchedDb → Ended × Tick
  after_claim job observed now r (invalid_cadence, db) =
      (returned, record { db = db; result = count_error r })
  after_claim job observed now r (crashed, db) = (raised, record { db = db; result = r })
  after_claim job observed now r (lost_claim, db) = (returned, record { db = db; result = r })
  after_claim job observed now r (won new_next, db) =
      settle job observed now new_next (record { db = db; result = r })

  abbrev pub process_at : ScheduledJob → Option ℕ → ℕ → Tick → Ended × Tick
  process_at job none now t = (returned, t)
  process_at job (some observed) now t =
      after_claim job observed now t.result (claim_job job observed now t.db)

  unfoldable pub process_job_body : ScheduledJob → ℕ → Tick → Ended × Tick
  process_job_body job now t = process_at job job.next_run_at now t

  unfoldable pub process_jobs : List ScheduledJob → ℕ → Tick → Tick
  process_jobs [] now t = t
  process_jobs (job ∷ rest) now t = process_jobs rest now (caught (process_job_body job now t))

  -- `run_due_jobs` behind the sync of the code's schedules.
  unfoldable pub run_due_jobs : ℕ → SchedDb → Tick
  run_due_jobs now db =
      process_jobs (filter_where (is_due now) db.jobs) now
        (record { db = db; result = start_result })
