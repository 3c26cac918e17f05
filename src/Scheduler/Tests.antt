-- ===== src/Scheduler/Tests.antt =====
-- The theorems about the scheduler at concrete inputs.
use cwstation.Prelude.{
  ℕ, ◌+◌, ◌*◌, ◌≤◌, ◌<◌, ◌≡◌, refl, true, false, none, some, List, [], ◌∷◌, ◌++◌, String, codes,
  arith, count_where, is_space, lstrip,
}
use cwstation.Tasks.Model.{ready}
use cwstation.Tasks.Chain.{chain_outcome, walk, visit, outcome_at, chain_status}
use cwstation.Tasks.Retry.{decide, pin_max_attempts}
use cwstation.Tasks.Samples.{small_world, a_result, busy}
use cwstation.Scheduler.Model.{
  run_once, queued, blank, ScheduledJob, no_message, SchedDb, Tick, ScheduledJobRun, is_queued,
}
use cwstation.Scheduler.Schedules.{
  ok, CalendarUnit, months, years, fixed, interval, Calendar, second, day, add_fixed,
  parse_interval, unit_match, step_loop, step_interval, jump, next_run, missed_periods,
}
use cwstation.Scheduler.Services.{
  Backend, enqueued_as, returned, settle, fire, record_run, previous_run_active, claim_job,
  process_job_body, process_jobs, run_due_jobs, is_due, start_result,
}
use cwstation.Scheduler.Next.{CalendarLaws}
use cwstation.Scheduler.Steps.{step_interval-step_loop}
use cwstation.Scheduler.Claims.{Step, claims, settles, take_steps, take_steps_once}
use cwstation.Scheduler.Left.{run_due_jobs-is_due}
use cwstation.Scheduler.Records.{Recorded, settle-Recorded, settle_over}

-- Months of 31 days and years of 366, and one cron expression, that of every hour.
abbrev days_of : CalendarUnit → ℕ
days_of months = 31
days_of years = 366

abbrev plain_calendar : Calendar
plain_calendar = record {
  add_calendar = λ unit n t. some (t + n * (days_of unit * day));
  cron_next = λ expr zone t. some (t + 3600 * second);
}

later_units : (n t : ℕ) (u : CalendarUnit) → 0 < n → t + 28 * day ≤ t + n * (days_of u * day)
later_units n t months h = omega arith
later_units n t years h = omega arith

plain_calendar_laws : CalendarLaws plain_calendar
plain_calendar_laws = record {
  month_long = λ u n t t' h e. ground (arith, later_units n t u h);
  cron_later = λ expr zone t t' e. ground arith;
}

abbrev plain_backend : Backend
plain_backend = record {
  stale_run_seconds = 60;
  enqueue = λ job rows. enqueued_as (some 50) (rows ++ a_result 50 ready "" "" ∷ []);
}

abbrev a_job : ℕ → String → ℕ → ScheduledJob
a_job k spec due = record {
  id = k;
  task_path = "jobs.send";
  kwargs = 0;
  queue_name = "default";
  cadence = record {
    schedule_type = interval;
    interval_spec = codes spec;
    anchor_at = some 0;
    cron_expression = [];
    run_at = none;
    timezone = [];
  };
  enabled = true;
  allow_overlap = false;
  catch_up = run_once;
  max_retries = 2;
  next_run_at = some due;
  last_enqueued_at = none;
  last_status = blank;
  total_runs = 0;
}

abbrev minute : ℕ
minute = 60 * second

-- Two jobs are due, one of them with a cadence that does not parse. The task of the first one's last
-- run has never ended.
abbrev two_due : SchedDb
two_due = record {
  jobs = a_job 1 " 5m" (10 * minute) ∷ a_job 2 "often" (11 * minute) ∷ [];
  runs =
      record {
        job_id = 1;
        status = queued;
        scheduled_for = 5 * minute;
        created_at = 5 * minute;
        task_result_id = some 2;
        message = no_message;
      }
      ∷ [];
  tasks = busy;
}

program : Unit {0}
unfolding parse_interval unit_match step_loop step_interval jump next_run missed_periods settle fire
    record_run previous_run_active claim_job process_job_body process_jobs run_due_jobs
    chain_outcome walk visit outcome_at chain_status decide pin_max_attempts take_steps lstrip
    is_space
program = tt

five_minutes : parse_interval (codes "5m ") ≡ ok (fixed (5 * minute))
unfolding program
five_minutes = refl

step_interval-step_loop_example :
    step_interval ⦃cal = plain_calendar⦄ 7 (codes "5m ") (23 * minute)
    ≡ step_loop 6 (λ t. add_fixed t (5 * minute)) (23 * minute) 7
step_interval-step_loop_example =
    step_interval-step_loop ⦃cal = plain_calendar⦄ 6 7 (5 * minute) (23 * minute) (codes "5m ")
      five_minutes (omega arith)

-- Two ticks have loaded the first job; both claim it before either settles.
abbrev two_ticks : List Step
two_ticks =
    claims (a_job 1 " 5m" (10 * minute)) (12 * minute)
    ∷ claims (a_job 1 " 5m" (10 * minute)) (13 * minute)
    ∷ settles (a_job 1 " 5m" (10 * minute)) (10 * minute) (12 * minute) (some (15 * minute))
    ∷ []

one_of_two :
    (take_steps ⦃w = small_world⦄ ⦃cal = plain_calendar⦄ ⦃b = plain_backend⦄
      (10 * minute)
      two_ticks
      two_due).0
    ≡ 1
unfolding program
one_of_two = refl

take_steps_once_example :
    (take_steps ⦃w = small_world⦄ ⦃cal = plain_calendar⦄ ⦃b = plain_backend⦄
      (10 * minute)
      two_ticks
      two_due).0
    ≤ 1
take_steps_once_example =
    take_steps_once ⦃w = small_world⦄ ⦃cal = plain_calendar⦄ ⦃b = plain_backend⦄ plain_calendar_laws
      1 (10 * minute) two_ticks two_due refl

one_enqueued :
    (run_due_jobs ⦃w = small_world⦄ ⦃cal = plain_calendar⦄ ⦃b = plain_backend⦄
      (12 * minute)
      two_due).result
    ≡ record { enqueued = 1; skipped = 0; retired = 0; errors = 1 }
unfolding program
one_enqueued = refl

run_due_jobs-is_due_example :
    count_where
      (is_due (12 * minute))
      (run_due_jobs ⦃w = small_world⦄ ⦃cal = plain_calendar⦄ ⦃b = plain_backend⦄
        (12 * minute)
        two_due).db.jobs
    ≤ (run_due_jobs ⦃w = small_world⦄ ⦃cal = plain_calendar⦄ ⦃b = plain_backend⦄
        (12 * minute)
        two_due).result.errors
run_due_jobs-is_due_example =
    run_due_jobs-is_due ⦃w = small_world⦄ ⦃cal = plain_calendar⦄ ⦃b = plain_backend⦄
      plain_calendar_laws (12 * minute) two_due refl (λ k. ground arith)

abbrev begun : Tick
begun = record { db = two_due; result = start_result }

first_ended :
    (settle ⦃w = small_world⦄ ⦃cal = plain_calendar⦄ ⦃b = plain_backend⦄
      (a_job 1 " 5m" (10 * minute))
      (10 * minute)
      (12 * minute)
      (some (15 * minute))
      begun).0
    ≡ returned
unfolding program
first_ended = refl

settle-Recorded_example :
    Recorded
      (a_job 1 " 5m" (10 * minute))
      (10 * minute)
      begun
      (settle ⦃w = small_world⦄ ⦃cal = plain_calendar⦄ ⦃b = plain_backend⦄
        (a_job 1 " 5m" (10 * minute))
        (10 * minute)
        (12 * minute)
        (some (15 * minute))
        begun).1
settle-Recorded_example =
    settle-Recorded ⦃w = small_world⦄ ⦃cal = plain_calendar⦄ ⦃b = plain_backend⦄
      (a_job 1 " 5m" (10 * minute)) (10 * minute) (12 * minute) (some (15 * minute)) begun
      first_ended

settle_over_example :
    let after =
      (settle ⦃w = small_world⦄ ⦃cal = plain_calendar⦄ ⦃b = plain_backend⦄
        (a_job 1 " 5m" (10 * minute))
        (10 * minute)
        (12 * minute)
        (some (15 * minute))
        begun).1 in
    (run : ScheduledJobRun) × (after.db.runs ≡ begun.db.runs ++ run ∷ [])
    × (run.job_id ≡ 1)
    × (run.scheduled_for ≡ 10 * minute)
    × (run.task_result_id ≡ some 50)
    × (is_queued run.status ≡ true)
    × (after.db.tasks.results ≡ busy.results ++ a_result 50 ready "" "" ∷ [])
    × (after.result.enqueued ≡ 1)
settle_over_example =
    settle_over ⦃w = small_world⦄ ⦃cal = plain_calendar⦄ ⦃b = plain_backend⦄
      (a_job 1 " 5m" (10 * minute)) (10 * minute) (12 * minute) (some (15 * minute)) (some 50)
      (busy.results ++ a_result 50 ready "" "" ∷ []) begun refl refl refl
