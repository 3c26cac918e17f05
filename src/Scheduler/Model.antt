-- ===== src/Scheduler/Model.antt =====
-- apps/scheduler/models.py: the rows of the scheduler. Times are microseconds, as in Schedules;
-- the fields that only a person reads (name, description, the reserved job kinds) are left out.
use cwstation.Prelude.{ℕ, Bool, true, false, Option, none, some, List, String, ◌==◌}
use cwstation.Tasks.Model.{Db}
use cwstation.Scheduler.Schedules.{Schedule}

pub data CatchUp : Type 0 where
  run_once skip : CatchUp

pub data RunStatus : Type 0 where
  queued skipped success failed : RunStatus

-- `last_status`: blank, "invalid", or the status of a run.
pub data LastStatus : Type 0 where
  blank invalid : LastStatus
  of_run : RunStatus → LastStatus

-- `kwargs` stands for the arguments of the task, `cadence` for the fields that say when it is due.
pub record ScheduledJob : Type 0 where
  pub id : ℕ
  pub task_path : String
  pub kwargs : ℕ
  pub queue_name : String
  pub cadence : Schedule
  pub enabled : Bool
  pub allow_overlap : Bool
  pub catch_up : CatchUp
  pub max_retries : ℕ
  pub next_run_at : Option ℕ
  pub last_enqueued_at : Option ℕ
  pub last_status : LastStatus
  pub total_runs : ℕ

-- What the text of a run's `message` says.
pub data Message : Type 0 where
  no_message previous_active task_unresolvable enqueue_failed : Message
  missed_runs : ℕ → Message

pub record ScheduledJobRun : Type 0 where
  pub job_id : ℕ
  pub status : RunStatus
  pub scheduled_for : ℕ
  pub created_at : ℕ
  pub task_result_id : Option ℕ
  pub message : Message

-- The tables that a tick reads and writes. The jobs stand in the order of their names, the runs in
-- that of their creation.
pub record SchedDb : Type 0 where
  pub jobs : List ScheduledJob
  pub runs : List ScheduledJobRun
  pub tasks : Db

pub record TickResult : Type 0 where
  pub enqueued : ℕ
  pub skipped : ℕ
  pub retired : ℕ
  pub errors : ℕ

-- The variables of a tick: the database and the counters.
pub record Tick : Type 0 where
  pub db : SchedDb
  pub result : TickResult

abbrev pub is_queued : RunStatus → Bool
is_queued queued = true
is_queued _ = false

abbrev pub is_at : Option ℕ → ℕ → Bool
is_at none t = false
is_at (some s) t = s == t
