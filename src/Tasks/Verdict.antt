-- ===== src/Tasks/Verdict.antt =====
-- Which tasks the reaper takes for lost.
use text.Mathlib.Text.{◌==◌ as str_eq}
use text.Mathlib.TextEquality.{eq_iff}
use text.Mathlib.TextPositions.{eq_refl}
use cwstation.Prelude.{
  ℕ, ◌+◌, ◌≡◌, refl, ap, Bool, true, false, not, ◌&&◌, ◌||◌, Option, none, some, List, [], ◌∷◌,
  ◌++◌, String, ltb, map, if◌then◌else◌, Bool-cases, inl, inr, arith, all_where, filter_where,
  find_first-filter_where, find_first-excluded,
}
use cwstation.Tasks.Model.{TaskResult, WorkerHeartbeat, Db, is_running, is_none}
use cwstation.Tasks.Policy.{World}
use cwstation.Tasks.Reaper.{
  Reason, LostTask, last_worker, mem_string, is_empty_list, started_of, lost_as, heartbeat_of,
  is_named, lost_reason, judge, judge_all, find_lost_tasks,
}

-- The heartbeat of the worker that runs a task, if it has one.
abbrev pub worker_heartbeat : TaskResult → List WorkerHeartbeat → Option WorkerHeartbeat
worker_heartbeat r hbs = heartbeat_of (last_worker r.worker_ids) hbs

abbrev pub is_excluded : List String → TaskResult → Bool
is_excluded exclude r =
    not (str_eq (last_worker r.worker_ids) "") && mem_string (last_worker r.worker_ids) exclude

-- The join over the rows that were fetched is the join over the table.
heartbeat_of-fetched :
    (r : TaskResult) (hbs : List WorkerHeartbeat) (q : WorkerHeartbeat → Bool)
    → all_where (λ (hb : WorkerHeartbeat). not (str_eq hb.worker_id "")) hbs ≡ true
    → ((hb : WorkerHeartbeat)
        → (not (is_empty_list r.worker_ids) && str_eq (last_worker r.worker_ids) hb.worker_id)
          ≡ true
        → q hb ≡ true)
    → worker_heartbeat r (filter_where q hbs) ≡ worker_heartbeat r hbs
heartbeat_of-fetched r hbs q named fetched = ids r.worker_ids fetched
  where
    ids :
        (ws : List String)
        → ((hb : WorkerHeartbeat)
            → (not (is_empty_list ws) && str_eq (last_worker ws) hb.worker_id) ≡ true
            → q hb ≡ true)
        → heartbeat_of (last_worker ws) (filter_where q hbs) ≡ heartbeat_of (last_worker ws) hbs
    ids [] f = unfold last_worker in find_first-excluded (λ hb. str_eq hb.worker_id "") q hbs named
    ids (x ∷ xs) f =
        find_first-filter_where (λ hb. str_eq hb.worker_id (last_worker (x ∷ xs))) q
          (λ hb e. f hb (rw ((eq_iff hb.worker_id (last_worker (x ∷ xs))).0 e) (eq_refl _))) hbs

map-append {ℓ κ} :
    {A : Type ℓ} {B : Type κ} (f : A → B) (xs ys : List A) → map f (xs ++ ys) ≡ map f xs ++ map f ys
map-append f [] ys = refl
map-append f (x ∷ xs) ys = ap (λ zs. f x ∷ zs) (map-append f xs ys)

map_if :
    (b : Bool) (r : TaskResult) (rows : List TaskResult)
    → (if b then r.id ∷ [] else []) ++ map (λ (x : TaskResult). x.id) rows
      ≡ map (λ (x : TaskResult). x.id) (if b then r ∷ rows else rows)
map_if true r rows = refl
map_if false r rows = refl

module _ ⦃w : World⦄ where
  abbrev pub is_dead : ℕ → ℕ → TaskResult → Option WorkerHeartbeat → Bool
  is_dead db_now now r none = ltb (started_of r + w.orphan_seconds) now
  is_dead db_now now r (some hb) =
      not (is_none hb.stopped_at) || ltb (hb.last_seen_at + w.lost_after_seconds) db_now

  -- When a result counts as lost, read off the tables: it is RUNNING under a worker that is not the
  -- caller, and its worker stopped, has not beaten for too long, or has no heartbeat while the task
  -- is far too old.
  abbrev pub is_lost_row : ℕ → ℕ → List String → List WorkerHeartbeat → TaskResult → Bool
  is_lost_row db_now now exclude hbs r =
      is_running r.status
      && (not (is_excluded exclude r) && is_dead db_now now r (worker_heartbeat r hbs))

  lost_reason-is_dead :
      (r : TaskResult) (o : Option WorkerHeartbeat) (db_now now : ℕ)
      → is_none (lost_reason r o db_now now) ≡ not (is_dead db_now now r o)
  unfolding lost_reason
  lost_reason-is_dead r none db_now now = ground arith
  lost_reason-is_dead r (some hb) db_now now = ground arith

  judge-is_dead :
      (db_now now : ℕ) (exclude : List String) (hbs : List WorkerHeartbeat) (r : TaskResult)
      → map (λ (t : LostTask). t.result_id) (judge db_now now exclude hbs r) ≡ (
          if not (is_excluded exclude r) && is_dead db_now now r (worker_heartbeat r hbs)
          then r.id ∷ []
          else [])
  unfolding judge
  judge-is_dead db_now now exclude hbs r = elim (Bool-cases (is_excluded exclude r)) [
    | inl e ↦ rw e refl
    | inr e ↦ rw e (reasoned _ _ (lost_reason-is_dead r (worker_heartbeat r hbs) db_now now))
  ]
    where
      reasoned :
          (dead : Bool) (o : Option Reason)
          → is_none o ≡ not dead
          → map (λ (t : LostTask). t.result_id) (lost_as r (last_worker r.worker_ids) o)
            ≡ (if dead then r.id ∷ [] else [])
      reasoned true none h = cc
      reasoned false none h = refl
      reasoned true (some reason) h = refl
      reasoned false (some reason) h = cc

  judge_all-is_lost_row :
      (db_now now : ℕ) (exclude : List String) (hbs : List WorkerHeartbeat)
      (q : WorkerHeartbeat → Bool)
      → all_where (λ (hb : WorkerHeartbeat). not (str_eq hb.worker_id "")) hbs ≡ true
      → (rows : List TaskResult)
      → ((hb : WorkerHeartbeat)
          → is_named (filter_where (λ r. is_running r.status) rows) hb ≡ true
          → q hb ≡ true)
      → map
          (λ (t : LostTask). t.result_id)
          (judge_all db_now now exclude
            (filter_where q hbs)
            (filter_where (λ r. is_running r.status) rows))
        ≡ map (λ (r : TaskResult). r.id) (filter_where (is_lost_row db_now now exclude hbs) rows)
  unfolding judge_all
  judge_all-is_lost_row db_now now exclude hbs q named [] fetched = refl
  judge_all-is_lost_row db_now now exclude hbs q named (r ∷ rs) fetched =
      elim (Bool-cases (is_running r.status)) [
        | inl e ↦
            let rest =
              judge_all-is_lost_row db_now now exclude hbs q named rs
                (λ hb h. fetched hb (rw e (ground arith))) in
            let join =
              heartbeat_of-fetched r hbs q named (λ hb h. fetched hb (rw e (ground arith))) in
            rw
              (
                e,
                map-append (λ (t : LostTask). t.result_id)
                    (judge db_now now exclude (filter_where q hbs) r) _,
                judge-is_dead db_now now exclude (filter_where q hbs) r,
                join,
                rest,
              )
              (map_if _ r _)
        | inr e ↦
            rw e (
              judge_all-is_lost_row db_now now exclude hbs q named rs (λ hb h. fetched hb (rw e h)))
      ]

  -- What is found lost are the rows that count as lost, in the order of the table: when no worker's
  -- id is empty, to fetch only the heartbeats that the running tasks name changes no verdict.
  pub find_lost_tasks-is_lost_row :
      (db_now now : ℕ) (exclude : List String) (db : Db)
      → all_where (λ (hb : WorkerHeartbeat). not (str_eq hb.worker_id "")) db.heartbeats ≡ true
      → map (λ (t : LostTask). t.result_id) (find_lost_tasks db_now now exclude db).1
        ≡ map
            (λ (r : TaskResult). r.id)
            (filter_where (is_lost_row db_now now exclude db.heartbeats) db.results)
  unfolding find_lost_tasks
  find_lost_tasks-is_lost_row db_now now exclude db named =
      judge_all-is_lost_row db_now now exclude db.heartbeats
        (is_named (filter_where (λ r. is_running r.status) db.results)) named db.results (λ hb h. h)
