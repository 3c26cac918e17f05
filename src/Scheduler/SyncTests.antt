-- ===== src/Scheduler/SyncTests.antt =====
-- The theorem about the sync of the code's schedules at a concrete table.
use cwstation.Prelude.{
  ◌+◌, ◌≡◌, refl, Bool, true, false, none, some, List, [], ◌∷◌, Text, codes, find_first, ◌⊎◌,
  lstrip, is_space,
}
use cwstation.Scheduler.Model.{run_once}
use cwstation.Scheduler.Schedules.{
  interval, Schedule, Calendar, next_run, step_interval, parse_interval, unit_match, jump,
}
use cwstation.Scheduler.Registry.{
  Source, code, ui, JobRow, ScheduleSpec, Zones, is_job_named, sync_code_jobs, sync_specs,
  sync_spec, create_job, refresh_job, wired, reseed, live_names, retire_orphans, is_declared,
}
use cwstation.Scheduler.Kept.{kept_off, kept_on}
use cwstation.Scheduler.Retired.{sync_code_jobs-keeps}
use cwstation.Scheduler.Reversible.{declares, sync_code_jobs-retires, sync_code_jobs-restores}

abbrev hourly : Calendar
hourly = record { add_calendar = λ unit n t. some (t + n); cron_next = λ expr zone t. some (t + 1) }

abbrev one_zone : Zones
one_zone = record {
  is_known = λ zone. true;
  resolve_anchor = λ anchor zone. none;
  canonical = λ zone. some zone;
}

abbrev every : Text → Schedule
every spec = record {
  schedule_type = interval;
  interval_spec = spec;
  anchor_at = none;
  cron_expression = [];
  run_at = none;
  timezone = [];
}

abbrev a_row : Text → Text → Bool → Source → JobRow
a_row name spec on source = record {
  name = name;
  task_path = codes "jobs.send";
  kwargs = 0;
  queue_name = codes "default";
  cadence = every spec;
  catch_up = run_once;
  allow_overlap = false;
  enabled = on;
  source = source;
  schedule_overridden = false;
  auto_retired = false;
  next_run_at = none;
}

abbrev a_spec : Text → Text → ScheduleSpec
a_spec name spec = record {
  name = name;
  task_path = codes "jobs.digest";
  kwargs = 1;
  queue_name = codes "default";
  cadence = every spec;
  anchor = [];
  catch_up = run_once;
  allow_overlap = false;
}

-- The operator has turned the digest off; the code has the digest at another pace, and a new job.
abbrev digest : JobRow
digest = a_row (codes "digest") (codes "2h") false code

abbrev gone : JobRow
gone = a_row (codes "gone") (codes "7m") true code

abbrev rows : List JobRow
rows = a_row (codes "mine") (codes "7m") true ui ∷ digest ∷ gone ∷ []

abbrev specs : List ScheduleSpec
specs = a_spec (codes "digest") (codes "5m") ∷ a_spec (codes "sweep") (codes "1d") ∷ []

abbrev synced : List JobRow
synced = (sync_code_jobs ⦃z = one_zone⦄ ⦃cal = hourly⦄ 90 specs rows).1

sync_code_jobs-keeps_example :
    (j : JobRow) × (find_first (is_job_named (codes "digest")) synced ≡ some j)
    × (kept_off j ≡ true)
    × (kept_on j ≡ false)
sync_code_jobs-keeps_example =
    sync_code_jobs-keeps ⦃z = one_zone⦄ ⦃cal = hourly⦄ 90 specs rows (codes "digest") digest refl
      refl

-- The code has dropped that job.
sync_code_jobs-retires_example :
    (j : JobRow) × (find_first (is_job_named (codes "gone")) synced ≡ some j)
    × ((j.enabled ≡ true)
        ⊎ ((is_declared j.source ≡ true)
            × (declares (codes "gone") specs ≡ false)
            × (j.auto_retired ≡ true)
            × (j.next_run_at ≡ none)))
sync_code_jobs-retires_example =
    sync_code_jobs-retires ⦃z = one_zone⦄ ⦃cal = hourly⦄ 90 specs rows (codes "gone") gone refl refl

-- And then has it again.
abbrev retired : JobRow
retired = record gone { enabled = false; auto_retired = true; next_run_at = none }

abbrev more_specs : List ScheduleSpec
more_specs = a_spec (codes "gone") (codes "7m") ∷ specs

no_exception : (sync_code_jobs ⦃z = one_zone⦄ ⦃cal = hourly⦄ 95 more_specs (retired ∷ [])).0 ≡ false
unfolding sync_code_jobs sync_specs sync_spec create_job refresh_job wired reseed live_names
    retire_orphans next_run step_interval parse_interval unit_match jump lstrip is_space
no_exception = refl

sync_code_jobs-restores_example :
    let after = (sync_code_jobs ⦃z = one_zone⦄ ⦃cal = hourly⦄ 95 more_specs (retired ∷ [])).1 in
    (j : JobRow) × (find_first (is_job_named (codes "gone")) after ≡ some j)
    × (j.enabled ≡ true)
    × (j.auto_retired ≡ false)
sync_code_jobs-restores_example =
    sync_code_jobs-restores ⦃z = one_zone⦄ ⦃cal = hourly⦄ 95 more_specs (retired ∷ [])
      (codes "gone") retired refl refl refl no_exception
