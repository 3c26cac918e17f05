-- ===== src/Scheduler/Registry.antt =====
-- apps/scheduler/registry.py: the sync of the code's schedules with the table of jobs. Names are
-- unique in the table. A save computes the next run from the same time again, which changes nothing,
-- and is left out.
use cwstation.Prelude.{
  ℕ, ◌+◌, ◌*◌, Bool, true, false, not, ◌&&◌, ◌||◌, Option, none, some, List, [], ◌∷◌, ◌++◌, Text,
  text_eq, leb, ◌==◌, if◌then◌else◌, find_first, filter_where, update_where, any_where, length,
}
use cwstation.Scheduler.Model.{CatchUp}
use cwstation.Scheduler.Schedules.{
  Result, ok, config_error, other_error, ScheduleType, once, interval, cron, unknown, Schedule,
  Calendar, next_run,
}

pub data Source : Type 0 where
  code ui : Source

-- The columns of ScheduledJob that the sync reads or writes.
pub record JobRow : Type 0 where
  pub name : Text
  pub task_path : Text
  pub kwargs : ℕ
  pub queue_name : Text
  pub cadence : Schedule
  pub catch_up : CatchUp
  pub allow_overlap : Bool
  pub enabled : Bool
  pub source : Source
  pub schedule_overridden : Bool
  pub auto_retired : Bool
  pub next_run_at : Option ℕ

-- The `anchor_at` of a specification's cadence is not read; `anchor` is its text.
pub record ScheduleSpec : Type 0 where
  pub name : Text
  pub task_path : Text
  pub kwargs : ℕ
  pub queue_name : Text
  pub cadence : Schedule
  pub anchor : Text
  pub catch_up : CatchUp
  pub allow_overlap : Bool

-- `schedule_tz` (whether it knows a zone), what `_resolve_anchor` makes of a text in a zone, and
-- `canonical_timezone`.
pub record Zones : Type 0 where
  pub is_known : Text → Bool
  pub resolve_anchor : Text → Text → Option ℕ
  pub canonical : Text → Option Text

abbrev pub is_job_named : Text → JobRow → Bool
is_job_named name job = text_eq job.name name

abbrev type_eq : ScheduleType → ScheduleType → Bool
type_eq once once = true
type_eq interval interval = true
type_eq cron cron = true
type_eq unknown unknown = true
type_eq _ _ = false

abbrev time_eq : Option ℕ → Option ℕ → Bool
time_eq none none = true
time_eq (some a) (some b) = a == b
time_eq _ _ = false

-- `_CADENCE_FIELDS` are all the same.
abbrev same_fields : Schedule → Schedule → Bool
same_fields a b =
    type_eq a.schedule_type b.schedule_type
    && (text_eq a.interval_spec b.interval_spec
        && (text_eq a.cron_expression b.cron_expression
            && (time_eq a.run_at b.run_at && text_eq a.timezone b.timezone)))

abbrev is_blank_text : Text → Bool
is_blank_text [] = true
is_blank_text (c ∷ rest) = false

abbrev pub is_none_time : Option ℕ → Bool
is_none_time none = true
is_none_time (some t) = false

-- The row that a save leaves has the canonical name of a zone that it knows.
abbrev or_same : Text → Option Text → Text
or_same zone none = zone
or_same zone (some name) = name

-- `_reseed_next_run`: an invalid cadence is left unscheduled; `none` is another exception.
abbrev pub seeded : JobRow → Result (Option ℕ) → Option JobRow
seeded job (ok next) = some (record job { next_run_at = next })
seeded job config_error = some (record job { next_run_at = none })
seeded job other_error = none

abbrev pub is_declared : Source → Bool
is_declared code = true
is_declared ui = false

-- The anchor that a text gives, or the one that is there.
abbrev or_kept : Option ℕ → Option ℕ → Option ℕ
or_kept none kept = kept
or_kept (some t) kept = some t

module _ ⦃z : Zones⦄ ⦃cal : Calendar⦄ where
  unfoldable pub reseed : ℕ → JobRow → Option JobRow
  reseed now job = seeded job (next_run job.cadence now)

  abbrev anchor_of : ScheduleSpec → Text → Option ℕ
  anchor_of spec zone =
      if is_blank_text spec.anchor then none else z.resolve_anchor spec.anchor zone

  abbrev canonical_zone : Text → Text
  canonical_zone zone = if is_blank_text zone then zone else or_same zone (z.canonical zone)

  -- The row of a new specification, before its first run is computed.
  abbrev pub row_for : ScheduleSpec → JobRow
  row_for spec = record {
    name = spec.name;
    task_path = spec.task_path;
    kwargs = spec.kwargs;
    queue_name = spec.queue_name;
    cadence = record spec.cadence {
      anchor_at = none;
      timezone = canonical_zone spec.cadence.timezone;
    };
    catch_up = spec.catch_up;
    allow_overlap = spec.allow_overlap;
    enabled = true;
    source = code;
    schedule_overridden = false;
    auto_retired = false;
    next_run_at = none;
  }

  -- The same with its anchor, which is read in the row's zone.
  abbrev pub anchored : ScheduleSpec → JobRow → JobRow
  anchored spec job = record job {
    cadence = record job.cadence {
      anchor_at = or_kept (anchor_of spec job.cadence.timezone) job.cadence.anchor_at;
    };
  }

  abbrev pub anchor_row : JobRow → List JobRow → Option JobRow → Bool × List JobRow
  anchor_row first jobs none = (true, jobs ++ first ∷ [])
  anchor_row first jobs (some new) = (false, jobs ++ new ∷ [])

  -- The row is in the table before its zone is looked up and its anchor is set.
  abbrev pub created_row : ℕ → ScheduleSpec → List JobRow → Option JobRow → Bool × List JobRow
  created_row now spec jobs none = (true, jobs)
  created_row now spec jobs (some first) =
      anchor_row first jobs
        (if z.is_known first.cadence.timezone then reseed now (anchored spec first) else none)

  unfoldable pub create_job : ℕ → ScheduleSpec → List JobRow → Bool × List JobRow
  create_job now spec jobs = created_row now spec jobs (reseed now (row_for spec))

  -- The fields that follow the code.
  unfoldable pub wired : ScheduleSpec → JobRow → JobRow
  wired spec job = record job {
    task_path = spec.task_path;
    kwargs = spec.kwargs;
    cadence = if job.schedule_overridden then job.cadence else record spec.cadence {
      anchor_at = or_kept (anchor_of spec job.cadence.timezone) job.cadence.anchor_at;
      timezone =
          if text_eq job.cadence.timezone spec.cadence.timezone
          then job.cadence.timezone
          else canonical_zone spec.cadence.timezone;
    };
    enabled = job.enabled || job.auto_retired;
    auto_retired = false;
  }

  -- Whether the sync has written a cadence field or the anchor.
  abbrev pub recast : ScheduleSpec → JobRow → Bool
  recast spec job =
      not job.schedule_overridden
      && (not (same_fields job.cadence spec.cadence)
          || not (
              time_eq (or_kept (anchor_of spec job.cadence.timezone) job.cadence.anchor_at)
                job.cadence.anchor_at))

  unfoldable pub refresh_job : ℕ → ScheduleSpec → JobRow → Option JobRow
  refresh_job now spec job =
      let new = wired spec job in
      let again = reseed now new in
      if not (z.is_known job.cadence.timezone)
      then none
      else if new.enabled && (recast spec job || is_none_time job.next_run_at)
      then again
      else some new

  abbrev pub put_row : Text → List JobRow → Option JobRow → Bool × List JobRow
  put_row name jobs none = (true, jobs)
  put_row name jobs (some new) = (false, update_where (is_job_named name) (λ job. new) jobs)

  abbrev pub sync_found : ℕ → ScheduleSpec → List JobRow → Option JobRow → Bool × List JobRow
  sync_found now spec jobs none = create_job now spec jobs
  sync_found now spec jobs (some job) = put_row spec.name jobs (refresh_job now spec job)

  -- One round of the loop: whether an exception has left it, and the rows.
  unfoldable pub sync_spec : ℕ → ScheduleSpec → List JobRow → Bool × List JobRow
  sync_spec now spec jobs = sync_found now spec jobs (find_first (is_job_named spec.name) jobs)

  unfoldable pub sync_specs : ℕ → List ScheduleSpec → List JobRow → Bool × List JobRow
  sync_specs now [] jobs = (false, jobs)
  sync_specs now (spec ∷ rest) jobs =
      let first = sync_spec now spec jobs in
      let more = sync_specs now rest first.1 in if first.0 then first else more

-- `live_names`, a set.
unfoldable pub live_names : List ScheduleSpec → List Text
live_names [] = []
live_names (spec ∷ rest) =
    let names = live_names rest in
    if any_where (λ n. text_eq n spec.name) names then names else spec.name ∷ names

abbrev pub is_orphan : List Text → JobRow → Bool
is_orphan names job =
    is_declared job.source && (job.enabled && not (any_where (λ n. text_eq n job.name) names))

-- `_retirement_is_plausible`
unfoldable pub retirement_is_plausible : List JobRow → List Text → Bool
retirement_is_plausible orphans names = leb (length orphans * 2) (length names + length orphans)

abbrev pub retire : JobRow → JobRow
retire job = record job { enabled = false; auto_retired = true; next_run_at = none }

abbrev pub has_names : List Text → Bool
has_names [] = false
has_names (n ∷ names) = true

unfoldable pub retire_orphans : List Text → List JobRow → List JobRow
retire_orphans names jobs =
    if has_names names && retirement_is_plausible (filter_where (is_orphan names) jobs) names
    then update_where (is_orphan names) retire jobs
    else jobs

abbrev pub after_sync : List ScheduleSpec → Bool × List JobRow → Bool × List JobRow
after_sync specs (true, jobs) = (true, jobs)
after_sync specs (false, jobs) = (false, retire_orphans (live_names specs) jobs)

unfoldable pub sync_code_jobs :
    ⦃z : Zones⦄ ⦃cal : Calendar⦄ → ℕ → List ScheduleSpec → List JobRow → Bool × List JobRow
sync_code_jobs now specs jobs = after_sync specs (sync_specs now specs jobs)
