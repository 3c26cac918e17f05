-- ===== src/Scheduler/Records.antt =====
-- What a won claim leaves behind (`_process_job_body` of apps/scheduler/services.py).
use cwstation.Prelude.{
  ℕ, ◌+◌, ◌*◌, ◌≡◌, refl, subst, ◌||◌, Bool, true, false, not, ◌&&◌, Option, none, some, List, [],
  ◌∷◌, ◌++◌, leb, ltb, Bool-cases, Option-cases, inl, inr, arith, if◌then◌else◌, all_where,
  filter_where,
}
use cwstation.Tasks.Model.{TaskResult, Db}
use cwstation.Tasks.Policy.{World}
use cwstation.Tasks.Retry.{pin_max_attempts}
use cwstation.Scheduler.Model.{
  CatchUp, run_once, skip, RunStatus, skipped, failed, ScheduledJob, ScheduledJobRun, SchedDb, Tick,
  is_queued, Message, previous_active, missed_runs,
}
use cwstation.Scheduler.Schedules.{
  Result, ok, config_error, other_error, Calendar, second, missed_periods,
}
use cwstation.Scheduler.LeftOut.{all_where-filter_where}
use cwstation.Scheduler.Services.{
  run_unfinished, Backend, Enqueued, enqueued_as, unresolvable, not_enqueued, returned, fired, fire,
  skip_run, catch_up_missed, catch_up, settle, previous_run_active, active_run, count_retired,
  record_run, is_open_run, latest_of, pin_retries,
}

abbrev pub is_skipped_run : RunStatus → Bool
is_skipped_run skipped = true
is_skipped_run _ = false

abbrev pub is_failed_run : RunStatus → Bool
is_failed_run failed = true
is_failed_run _ = false

abbrev pub one_if : Bool → ℕ
one_if true = 1
one_if false = 0

-- One more run, of the job and for the time, and the counter that its status says.
unfoldable pub Recorded : ScheduledJob → ℕ → Tick → Tick → Type 0
Recorded job seen t t' =
    (run : ScheduledJobRun) × (t'.db.runs ≡ t.db.runs ++ run ∷ [])
    × (run.job_id ≡ job.id)
    × (run.scheduled_for ≡ seen)
    × (t'.result.enqueued ≡ t.result.enqueued + one_if (is_queued run.status))
    × (t'.result.skipped ≡ t.result.skipped + one_if (is_skipped_run run.status))
    × (t'.result.errors ≡ t.result.errors + one_if (is_failed_run run.status))

and_false : (x : Bool) → (x && false) ≡ false
and_false true = refl
and_false false = refl

latest_of-all :
    (q : ScheduledJobRun → Bool) (runs : List ScheduledJobRun) (r : ScheduledJobRun)
    → all_where q runs ≡ true
    → latest_of runs ≡ some r
    → q r ≡ true
latest_of-all q [] r h e = cc
latest_of-all q (x ∷ xs) r h e = elim (Option-cases (latest_of xs)) [
  | inl n ↦ ground (arith, n)
  | inr (s, n) ↦ ground (arith, n, latest_of-all q xs s)
]

all_where-filtered {ℓ} :
    {A : Type ℓ} (p : A → Bool) (xs : List A) → all_where p (filter_where p xs) ≡ true
all_where-filtered p [] = refl
all_where-filtered p (x ∷ xs) = ground (arith, all_where-filtered p xs)

module _ ⦃w : World⦄ ⦃cal : Calendar⦄ ⦃b : Backend⦄ where
  fired-Recorded :
      (job : ScheduledJob) (seen now : ℕ) (e : Enqueued) (t : Tick)
      → Recorded job seen t (fired job seen now e t)
  unfolding Recorded record_run
  fired-Recorded job seen now (enqueued_as id rs) t =
      (_, refl, refl, refl, refl, omega arith, omega arith)
  fired-Recorded job seen now unresolvable t = (_, refl, refl, refl, omega arith, omega arith, refl)
  fired-Recorded job seen now not_enqueued t = (_, refl, refl, refl, omega arith, omega arith, refl)

  skip_run-Recorded :
      (job : ScheduledJob) (seen now : ℕ) (m : Message) (t : Tick)
      → Recorded job seen t (skip_run job seen m now t)
  unfolding Recorded record_run
  skip_run-Recorded job seen now m t = (_, refl, refl, refl, omega arith, refl, omega arith)

  catch_up_missed-Recorded :
      (job : ScheduledJob) (seen now : ℕ) (r : Result ℕ) (t : Tick)
      → (catch_up_missed job seen now r t).0 ≡ returned
      → Recorded job seen t (catch_up_missed job seen now r t).1
  unfolding fire
  catch_up_missed-Recorded job seen now (ok n) t e = elim (Bool-cases (leb 1 n)) [
    | inl q ↦ rw q (skip_run-Recorded job seen now (missed_runs n) t)
    | inr q ↦ rw q (fired-Recorded job seen now (b.enqueue job t.db.tasks.results) t)
  ]
  catch_up_missed-Recorded job seen now config_error t e = cc
  catch_up_missed-Recorded job seen now other_error t e = cc

  catch_up-Recorded :
      (policy : CatchUp) (job : ScheduledJob) (seen now : ℕ) (t : Tick)
      → (catch_up policy job seen now t).0 ≡ returned
      → Recorded job seen t (catch_up policy job seen now t).1
  unfolding fire
  catch_up-Recorded run_once job seen now t e =
      fired-Recorded job seen now (b.enqueue job t.db.tasks.results) t
  catch_up-Recorded skip job seen now t e =
      catch_up_missed-Recorded job seen now (missed_periods job.cadence seen now) t e

  with_retired :
      (job : ScheduledJob) (seen : ℕ) (new : Option ℕ) (t t' : Tick)
      → Recorded job seen (record t { result = count_retired new t.result }) t'
      → Recorded job seen t t'
  unfolding Recorded
  with_retired job seen none t t' r = r
  with_retired job seen (some n) t t' r = r

  held-Recorded :
      (held : Bool) (job : ScheduledJob) (seen now : ℕ) (new : Option ℕ) (t t0 : Tick)
      → t ≡ record t0 { result = count_retired new t0.result }
      → (if held
          then (returned, skip_run job seen previous_active now t)
          else catch_up job.catch_up job seen now t).0
        ≡ returned
      → Recorded job seen t0
          (if held
            then (returned, skip_run job seen previous_active now t)
            else catch_up job.catch_up job seen now t).1
  held-Recorded true job seen now new t t0 p e =
      with_retired job seen new t0 (skip_run job seen previous_active now t) (
        subst (λ x. Recorded job seen x (skip_run job seen previous_active now t)) p
          (skip_run-Recorded job seen now previous_active t))
  held-Recorded false job seen now new t t0 p e =
      with_retired job seen new t0 (catch_up job.catch_up job seen now t).1 (
        subst (λ x. Recorded job seen x (catch_up job.catch_up job seen now t).1) p
          (catch_up-Recorded job.catch_up job seen now t e))

  -- A tick that has won a claim leaves exactly one more run, which is of that job and for the time that
  -- was due, and raises by one the counter of that run's status, whether the job is enqueued, is held
  -- back, or cannot be enqueued: whenever no exception leaves it.
  pub settle-Recorded :
      (job : ScheduledJob) (seen now : ℕ) (new : Option ℕ) (t : Tick)
      → (settle job seen now new t).0 ≡ returned
      → Recorded job seen t (settle job seen now new t).1
  unfolding settle
  settle-Recorded job seen now new t e =
      held-Recorded (not job.allow_overlap && previous_run_active job now t.db) job seen now new
        (record t { result = count_retired new t.result }) t refl e

  -- Not a run of the job that may still be going on: it was not enqueued, it is older than the threshold,
  -- or the engine has no unfinished result for it.
  abbrev pub is_over : ℕ → ℕ → Db → ScheduledJobRun → Bool
  is_over k now tasks r =
      not (is_open_run k r)
      || (ltb (r.created_at + b.stale_run_seconds * second) now
          || not (run_unfinished r.task_result_id now tasks))

  is_over-inactive :
      (k now : ℕ) (tasks : Db) (r : ScheduledJobRun)
      → is_open_run k r ≡ true
      → is_over k now tasks r ≡ true
      → active_run (some r) now tasks ≡ false
  is_over-inactive k now tasks r opened over = ground arith

  previous_run_over :
      (job : ScheduledJob) (now : ℕ) (db : SchedDb)
      → all_where (is_over job.id now db.tasks) db.runs ≡ true
      → previous_run_active job now db ≡ false
  unfolding previous_run_active
  previous_run_over job now db h =
      elim (Option-cases (latest_of (filter_where (is_open_run job.id) db.runs))) [
        | inl e ↦ rw e refl
        | inr (r, e) ↦ rw e (
            is_over-inactive job.id now db.tasks r
              (latest_of-all (is_open_run job.id) (filter_where (is_open_run job.id) db.runs) r
                (all_where-filtered (is_open_run job.id) db.runs) e)
              (latest_of-all (is_over job.id now db.tasks)
                (filter_where (is_open_run job.id) db.runs) r
                (all_where-filter_where (is_over job.id now db.tasks) (is_open_run job.id) db.runs
                  h)
                e))
      ]

  pin_retries-results :
      (job : ScheduledJob) (id : Option ℕ) (now : ℕ) (tasks : Db)
      → (pin_retries job id now tasks).results ≡ tasks.results
  unfolding pin_max_attempts
  pin_retries-results job none now tasks = refl
  pin_retries-results job (some k) now tasks = ground arith

  -- The task is in the engine's table, and one more run, queued and with the id of the task, says so.
  abbrev pub Fired : ScheduledJob → ℕ → Option ℕ → List TaskResult → Tick → Tick → Type 0
  Fired job seen id rs t t' =
      (run : ScheduledJobRun) × (t'.db.runs ≡ t.db.runs ++ run ∷ [])
      × (run.job_id ≡ job.id)
      × (run.scheduled_for ≡ seen)
      × (run.task_result_id ≡ id)
      × (is_queued run.status ≡ true)
      × (t'.db.tasks.results ≡ rs)
      × (t'.result.enqueued ≡ t.result.enqueued + 1)

  fired-Fired :
      (job : ScheduledJob) (seen now : ℕ) (new id : Option ℕ) (rs : List TaskResult) (t : Tick)
      → Fired job seen id rs t (
          fired job seen now (enqueued_as id rs) (record t { result = count_retired new t.result }))
  unfolding record_run
  fired-Fired job seen now none id rs t =
      (_, refl, refl, refl, refl, refl, pin_retries-results job id now _, refl)
  fired-Fired job seen now (some n) id rs t =
      (_, refl, refl, refl, refl, refl, pin_retries-results job id now _, refl)

  -- A dead worker cannot wedge a schedule: once each run of the job is finished, unknown to the engine, or
  -- older than the threshold, a tick that has won a claim enqueues the job, with overlap allowed or not, if
  -- the job is one that catches up and the backend takes it. The engine's table is then the one with the
  -- new task, and exactly one more run, queued, for the time that was due, carries the task's id.
  pub settle_over :
      (job : ScheduledJob) (seen now : ℕ) (new id : Option ℕ) (rs : List TaskResult) (t : Tick)
      → job.catch_up ≡ run_once
      → all_where (is_over job.id now t.db.tasks) t.db.runs ≡ true
      → b.enqueue job t.db.tasks.results ≡ enqueued_as id rs
      → let after = (settle job seen now new t).1 in
        (run : ScheduledJobRun) × (after.db.runs ≡ t.db.runs ++ run ∷ [])
        × (run.job_id ≡ job.id)
        × (run.scheduled_for ≡ seen)
        × (run.task_result_id ≡ id)
        × (is_queued run.status ≡ true)
        × (after.db.tasks.results ≡ rs)
        × (after.result.enqueued ≡ t.result.enqueued + 1)
  unfolding settle fire
  settle_over job seen now new id rs t policy over taken =
      simp (previous_run_over job now t.db over, policy, taken, and_false (not job.allow_overlap))
        (fired-Fired job seen now new id rs t)
