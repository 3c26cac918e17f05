-- ===== src/Tasks/Heartbeat.antt =====
-- apps/tasks/heartbeat.py: the worker's rows, and its thread that beats and reaps. A database write
-- that raises is a flag of the round; a reaper's pass that raises part of the way is not modelled.
-- Host name, pid and queues carry no behaviour, and the label is taken as it is stored.
use text.Mathlib.Text.{◌==◌ as str_eq}
use cwstation.Prelude.{
  ℕ, ◌+◌, ◌%◌, Bool, false, none, some, List, [], ◌∷◌, ◌++◌, String, leb, ◌==◌, if◌then◌else◌,
  any_where, update_where,
}
use cwstation.Tasks.Model.{WorkerHeartbeat, Db}
use cwstation.Tasks.Policy.{World}
use cwstation.Tasks.Reaper.{reap_lost_tasks}

abbrev pub default_reap_every : ℕ
default_reap_every = 4

abbrev pub max_missed_beats_before_yielding : ℕ
max_missed_beats_before_yielding = 2

abbrev pub heartbeat_key : String → WorkerHeartbeat → Bool
heartbeat_key worker_id hb = str_eq hb.worker_id worker_id

unfoldable pub register_worker : String → String → ℕ → Db → Db
register_worker worker_id label db_now db =
    if any_where (heartbeat_key worker_id) db.heartbeats
    then record db {
      heartbeats =
          update_where (heartbeat_key worker_id)
            (λ hb. record hb { label = label; last_seen_at = db_now; stopped_at = none })
            db.heartbeats;
    }
    else record db {
      heartbeats =
          db.heartbeats
          ++ record {
            worker_id = worker_id;
            label = label;
            last_seen_at = db_now;
            stopped_at = none;
          }
            ∷ [];
    }

unfoldable pub beat : String → ℕ → Db → Db
beat worker_id db_now db = record db {
  heartbeats =
      update_where (heartbeat_key worker_id) (λ hb. record hb { last_seen_at = db_now })
        db.heartbeats;
}

-- Best effort: a write that fails leaves the row as it was.
unfoldable pub mark_stopped : Bool → String → ℕ → Db → Db
mark_stopped written worker_id db_now db =
    if written
    then record db {
      heartbeats =
          update_where (heartbeat_key worker_id)
            (λ hb. record hb { last_seen_at = db_now; stopped_at = some db_now }) db.heartbeats;
    }
    else db

-- `self.reap_every` and `self.missed_beats`, with the `beats` of `run`.
pub record HeartbeatThread : Type 0 where
  pub worker_id : String
  pub reap_every : ℕ
  pub missed_beats : ℕ
  pub beats : ℕ

unfoldable pub new_thread : String → ℕ → HeartbeatThread
new_thread worker_id reap_every = record {
  worker_id = worker_id;
  reap_every = if leb 1 reap_every then reap_every else 1;
  missed_beats = 0;
  beats = 0;
}

-- When a round comes, by the database's clock and the worker's, and whether the beat can be written.
pub record Round : Type 0 where
  pub written : Bool
  pub db_now : ℕ
  pub now : ℕ

-- `_beat`
unfoldable pub try_beat : Round → HeartbeatThread × Db → HeartbeatThread × Db
try_beat r (h, db) =
    if r.written
    then (record h { missed_beats = 0 }, beat h.worker_id r.db_now db)
    else (record h { missed_beats = h.missed_beats + 1 }, db)

module _ ⦃w : World⦄ where
  unfoldable pub safe_reap : String → Round → Db → Db
  safe_reap worker_id r db = (reap_lost_tasks r.db_now r.now false (worker_id ∷ []) db).1

  -- `_reap`
  unfoldable pub try_reap : Round → HeartbeatThread → Db → Db
  try_reap r h db =
      if leb max_missed_beats_before_yielding h.missed_beats then db else safe_reap h.worker_id r db

  -- One round of the loop of `run`.
  abbrev pub finish_round : Round → HeartbeatThread × Db → HeartbeatThread × Db
  finish_round r (h0, db) =
      let h = record h0 { beats = h0.beats + 1 } in
      (h, if h.beats % h.reap_every == 0 then try_reap r h db else db)

  unfoldable pub run_round : Round → HeartbeatThread × Db → HeartbeatThread × Db
  run_round r s = finish_round r (try_beat r s)

  unfoldable pub run_rounds : List Round → HeartbeatThread × Db → HeartbeatThread × Db
  run_rounds [] s = s
  run_rounds (r ∷ rest) s = run_rounds rest (run_round r s)
