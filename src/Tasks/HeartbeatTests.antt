-- ===== src/Tasks/HeartbeatTests.antt =====
-- The theorem about the heartbeat thread at a concrete input.
use cwstation.Prelude.{
  ℕ, ◌≡◌, inr, refl, subst, true, none, some, Option, List, [], arith, get_elem?, get_elem?-append,
}
use cwstation.Tasks.Model.{running, TaskResult}
use cwstation.Tasks.Reaper.{last_worker}
use cwstation.Tasks.Spared.{Holds, KeepsRows}
use cwstation.Tasks.Samples.{small_world, a_result, busy}
use cwstation.Tasks.Heartbeat.{HeartbeatThread, Round, run_round}
use cwstation.Tasks.Alive.{IsAlive, run_round-spares}

abbrev rows_of : Option (ℕ × List TaskResult) → List TaskResult
rows_of none = []
rows_of (some (_, rows)) = rows

insert_keeps_rows : KeepsRows ⦃w = small_world⦄
insert_keeps_rows row at rows k rows1 e i old h =
    subst (λ o. get_elem? (rows_of o) i ≡ some old) e (get_elem?-append rows _ i old h)

-- The fourth round of a third worker, which reaps: one of the two running tasks is lost.
abbrev fourth : Round
fourth = record { written = true; db_now = 1000; now = 1000 }

abbrev third_worker : HeartbeatThread
third_worker = record { worker_id = "w9"; reap_every = 4; missed_beats = 0; beats = 3 }

second_beats : IsAlive ⦃w = small_world⦄ (a_result 2 running "w2" "") third_worker fourth busy
unfolding IsAlive last_worker
second_beats = inr (
  record { worker_id = "w2"; label = ""; last_seen_at = 980; stopped_at = none },
  refl,
  refl,
  omega arith,
)

run_round-spares_example :
    Holds 1 (a_result 2 running "w2" "") (run_round ⦃w = small_world⦄ fourth (third_worker, busy)).1
run_round-spares_example =
    run_round-spares ⦃w = small_world⦄ fourth third_worker busy 1 (a_result 2 running "w2" "")
      insert_keeps_rows refl (omega arith) refl refl refl second_beats
