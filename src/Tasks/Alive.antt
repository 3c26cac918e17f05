-- ===== src/Tasks/Alive.antt =====
-- Workers that are alive keep their tasks (apps/tasks/heartbeat.py with reaper.py).
use text.Mathlib.Text.{◌==◌ as str_eq}
use text.Mathlib.TextPositions.{eq_refl}
use cwstation.Prelude.{
  ℕ, ◌+◌, ◌%◌, ◌≤◌, ◌≡◌, ◌⊎◌, inl, inr, refl, ap, ◌∙◌, Bool, true, false, not, none, some, List, [],
  ◌∷◌, String, leb, ◌==◌, if◌then◌else◌, Bool-cases, arith, all_where, all_where-update_where,
  count_where, find_first-update_where, map_some,
}
use cwstation.Tasks.Model.{TaskResult, WorkerHeartbeat, Db, is_running}
use cwstation.Tasks.Policy.{World}
use cwstation.Tasks.Reaper.{last_worker, heartbeat_of}
use cwstation.Tasks.Verdict.{worker_heartbeat, is_lost_row}
use cwstation.Tasks.Spared.{Holds, KeepsRows, reap_lost_tasks-spares}
use cwstation.Tasks.Heartbeat.{
  heartbeat_key, beat, HeartbeatThread, Round, try_beat, safe_reap, try_reap, finish_round,
  run_round, run_rounds,
}

abbrev touched : String → ℕ → WorkerHeartbeat → WorkerHeartbeat
touched worker t hb = if str_eq hb.worker_id worker then record hb { last_seen_at = t } else hb

touched_stopped :
    (worker : String) (t : ℕ) (hb : WorkerHeartbeat)
    → (touched worker t hb).stopped_at ≡ hb.stopped_at
touched_stopped worker t hb = elim (Bool-cases (str_eq hb.worker_id worker)) [
  | inl e ↦ simp e refl
  | inr e ↦ simp e refl
]

touched_soon :
    (worker : String) (t bound : ℕ) (hb : WorkerHeartbeat)
    → t ≤ hb.last_seen_at + bound
    → t ≤ (touched worker t hb).last_seen_at + bound
touched_soon worker t bound hb h = elim (Bool-cases (str_eq hb.worker_id worker)) [
  | inl e ↦ simp e (omega arith)
  | inr e ↦ simp e h
]

heartbeat_of-beat :
    (worker who : String) (t : ℕ) (db : Db)
    → heartbeat_of who (beat worker t db).heartbeats
      ≡ map_some (touched worker t) (heartbeat_of who db.heartbeats)
unfolding beat
heartbeat_of-beat worker who t db =
    find_first-update_where (λ hb. str_eq hb.worker_id who) (heartbeat_key worker)
      (λ hb. record hb { last_seen_at = t }) (λ hb. refl) db.heartbeats

beat_named :
    (worker : String) (t : ℕ) (db : Db)
    → all_where (λ (hb : WorkerHeartbeat). not (str_eq hb.worker_id "")) db.heartbeats ≡ true
    → all_where
        (λ (hb : WorkerHeartbeat). not (str_eq hb.worker_id ""))
        (beat worker t db).heartbeats
      ≡ true
unfolding beat
beat_named worker t db h =
    all_where-update_where (λ hb. not (str_eq hb.worker_id "")) (heartbeat_key worker)
      (λ hb. record hb { last_seen_at = t }) (λ hb e. e) db.heartbeats h

if_same {ℓ} : {A : Type ℓ} (b : Bool) (x : A) → (if b then x else x) ≡ x
if_same true x = refl
if_same false x = refl

module _ ⦃w : World⦄ where
  starved_round :
      (r : Round) (h : HeartbeatThread) (db : Db)
      → 1 ≤ h.missed_beats
      → r.written ≡ false
      → run_round r (h, db)
        ≡ (record h { missed_beats = h.missed_beats + 1; beats = h.beats + 1 }, db)
  unfolding run_round try_beat try_reap
  starved_round r h db missed unwritten =
      let yields : leb 2 (h.missed_beats + 1) ≡ true = ground arith in
      simp (unwritten, yields, if_same) refl

  -- A worker that cannot write its heartbeat changes nothing: after a first beat that was missed, no round
  -- whose beat is missed as well touches the database, however many there are.
  pub run_rounds_starved :
      (rounds : List Round) (h : HeartbeatThread) (db : Db)
      → 1 ≤ h.missed_beats
      → all_where (λ (r : Round). not r.written) rounds ≡ true
      → (run_rounds rounds (h, db)).1 ≡ db
  unfolding run_rounds run_round try_beat try_reap
  run_rounds_starved [] h db missed starved = refl
  run_rounds_starved (r ∷ rest) h db missed starved =
      let unwritten : r.written ≡ false = ground arith in
      let next : HeartbeatThread = record h {
        missed_beats = h.missed_beats + 1;
        beats = h.beats + 1;
      } in
      ap (λ s. (run_rounds rest s).1) (starved_round r h db missed unwritten)
      ∙ run_rounds_starved rest next db (omega arith) (ground arith)

  own_spared :
      (row : TaskResult) (worker : String) (db_now now : ℕ) (hbs : List WorkerHeartbeat)
      → last_worker row.worker_ids ≡ worker
      → str_eq worker "" ≡ false
      → is_lost_row db_now now (worker ∷ []) hbs row ≡ false
  own_spared row worker db_now now hbs mine named = rw mine (ground (arith, named, eq_refl worker))

  beat_alive :
      (row : TaskResult) (worker : String) (t db_now now : ℕ) (exclude : List String) (db : Db)
      (hb : WorkerHeartbeat)
      → worker_heartbeat row db.heartbeats ≡ some hb
      → hb.stopped_at ≡ none
      → db_now ≤ (touched worker t hb).last_seen_at + w.lost_after_seconds
      → is_lost_row db_now now exclude (beat worker t db).heartbeats row ≡ false
  beat_alive row worker t db_now now exclude db hb found running soon =
      rw (heartbeat_of-beat worker (last_worker row.worker_ids) t db, found)
        (ground (arith, touched_stopped worker t hb, running))

  -- The task is the thread's own, or its worker has not stopped and has beaten within the threshold.
  unfoldable pub IsAlive : TaskResult → HeartbeatThread → Round → Db → Type 0
  IsAlive row h r db =
      (last_worker row.worker_ids ≡ h.worker_id)
      ⊎ ((hb : WorkerHeartbeat) × (worker_heartbeat row db.heartbeats ≡ some hb)
          × (hb.stopped_at ≡ none)
          × (r.db_now ≤ hb.last_seen_at + w.lost_after_seconds))

  alive_not_lost :
      (row : TaskResult) (h : HeartbeatThread) (r : Round) (db : Db)
      → str_eq h.worker_id "" ≡ false
      → IsAlive row h r db
      → is_lost_row r.db_now r.now (h.worker_id ∷ []) db.heartbeats row ≡ false
  unfolding IsAlive
  alive_not_lost row h r db named (inl own) =
      own_spared row h.worker_id r.db_now r.now db.heartbeats own named
  alive_not_lost row h r db named (inr (hb, found, running, soon)) =
      rw found (ground (arith, running, soon))

  beat-IsAlive :
      (row : TaskResult) (h : HeartbeatThread) (r : Round) (db : Db)
      → IsAlive row h r db
      → IsAlive row h r (beat h.worker_id r.db_now db)
  unfolding IsAlive
  beat-IsAlive row h r db (inl own) = inl own
  beat-IsAlive row h r db (inr (hb, found, running, soon)) = inr (
    touched h.worker_id r.db_now hb,
    heartbeat_of-beat h.worker_id (last_worker row.worker_ids) r.db_now db
        ∙ ap (map_some (touched h.worker_id r.db_now)) found,
    touched_stopped h.worker_id r.db_now hb ∙ running,
    touched_soon h.worker_id r.db_now w.lost_after_seconds hb soon,
  )

  finish_round-spares :
      (r : Round) (h h' : HeartbeatThread) (db : Db) (i : ℕ) (row : TaskResult)
      → KeepsRows
      → all_where (λ (hb : WorkerHeartbeat). not (str_eq hb.worker_id "")) db.heartbeats ≡ true
      → count_where (λ (x : TaskResult). x.id == row.id) db.results ≤ 1
      → str_eq h.worker_id "" ≡ false
      → Holds i row db
      → is_running row.status ≡ true
      → IsAlive row h r db
      → h'.worker_id ≡ h.worker_id
      → Holds i row (finish_round r (h', db)).1
  unfolding try_reap safe_reap
  finish_round-spares r h h' db i row keeps named unique real holds running alive same =
      elim (Bool-cases ((h'.beats + 1) % h'.reap_every == 0)) [
        | inr e ↦ simp e holds
        | inl e ↦ elim (Bool-cases (leb 2 h'.missed_beats)) [
          | inl y ↦ simp (e, y) holds
          | inr n ↦
              simp (e, n, same)
                (reap_lost_tasks-spares r.db_now r.now false (h.worker_id ∷ []) db i row keeps named
                  unique holds running (alive_not_lost row h r db real alive))
        ]
      ]

  -- A round of a worker's thread leaves a running task as it was if the task is the worker's own or its
  -- worker has not stopped and has beaten within the threshold; whether the round's own beat is written or
  -- not, and whether it reaps or not. Ids are unique, no worker's id is empty, and enqueueing only inserts.
  pub run_round-spares :
      (r : Round) (h : HeartbeatThread) (db : Db) (i : ℕ) (row : TaskResult)
      → KeepsRows
      → all_where (λ (hb : WorkerHeartbeat). not (str_eq hb.worker_id "")) db.heartbeats ≡ true
      → count_where (λ (x : TaskResult). x.id == row.id) db.results ≤ 1
      → str_eq h.worker_id "" ≡ false
      → Holds i row db
      → is_running row.status ≡ true
      → IsAlive row h r db
      → Holds i row (run_round r (h, db)).1
  unfolding run_round try_beat beat
  run_round-spares r h db i row keeps named unique real holds running alive =
      elim (Bool-cases r.written) [
        | inl e ↦
            let after : Db = beat h.worker_id r.db_now db in
            simp e (
              finish_round-spares r h (record h { missed_beats = 0 }) after i row keeps
                (beat_named h.worker_id r.db_now db named) unique real holds running
                (beat-IsAlive row h r db alive) refl)
        | inr e ↦ simp e (
            finish_round-spares r h (record h { missed_beats = h.missed_beats + 1 }) db i row keeps
              named unique real holds running alive refl)
      ]
