-- ===== src/Scheduler/Claims.antt =====
-- Ticks that overlap (apps/scheduler/services.py): each claims a job by one update and settles what
-- it has won by later ones, and these take turns in any order.
use cwstation.Prelude.{
  ℕ, ◌+◌, ◌≤◌, ◌≡◌, refl, ap, subst, Bool, true, false, ◌&&◌, Option, none, some, List, [], ◌∷◌,
  leb, ltb, ◌==◌, Bool-cases, inl, inr, arith, any_where, all_where, any_where-update_where,
  any_where-cleared, ltb→lt, ◌*◌,
}
use cwstation.Tasks.Policy.{World}
use cwstation.Scheduler.Model.{ScheduledJob, SchedDb, Tick, is_at, invalid}
use cwstation.Scheduler.Schedules.{
  Result, ok, config_error, other_error, Calendar, or_after, max_steps, day, next_run,
}
use cwstation.Scheduler.Next.{CalendarLaws, next_run-later}
use cwstation.Scheduler.Quiet.{QuietUpdate, settle-QuietUpdate}
use cwstation.Scheduler.Services.{
  Backend, Claim, won, job_key, update_job, still_due, claim_with, claim_job, settle, start_result,
  is_reached,
}

-- The anchor of an interval is at most 10000 times 28 days before `now`.
abbrev pub anchor_near : ℕ → ScheduledJob → Bool
anchor_near now job = ltb now (or_after job.cadence.anchor_at now + max_steps * (28 * day))

-- A step of one of the ticks that run at the same time: its claim of a job, from the copy that it has
-- loaded and its time, or its settlement of a claim that it has won.
pub data Step : Type 0 where
  claims : ScheduledJob → ℕ → Step
  settles : ScheduledJob → ℕ → ℕ → Option ℕ → Step

abbrev pub count_any : Bool → ℕ
count_any true = 1
count_any false = 0

abbrev pub wins : Claim → ℕ
wins (won _) = 1
wins _ = 0

-- The copy is of the job, shows the cursor as it was, and the tick came when that was due.
abbrev pub is_copy : ℕ → ℕ → Step → Bool
is_copy k observed (claims job now) = job.id == k && (leb observed now && anchor_near now job)
is_copy k observed (settles job seen now new) = true

count_any_bound : (b : Bool) → count_any b ≤ 1
count_any_bound true = omega arith
count_any_bound false = omega arith

le_via : {a b c : ℕ} → a ≤ b → b ≤ c → a ≤ c
le_via h k = omega arith

-- The cursor of a due job moves past the tick's time.
is_reached-is_at :
    (new : Option ℕ) (observed now : ℕ)
    → observed ≤ now
    → is_reached new now ≡ false
    → is_at new observed ≡ false
is_reached-is_at none observed now h e = refl
is_reached-is_at (some t) observed now h e = ground arith

module _ ⦃cal : Calendar⦄ (laws : CalendarLaws cal) where
  pub next_run-is_reached :
      (job : ScheduledJob) (now : ℕ) (new : Option ℕ)
      → anchor_near now job ≡ true
      → next_run job.cadence now ≡ ok new
      → is_reached new now ≡ false
  next_run-is_reached job now none near e = refl
  next_run-is_reached job now (some t) near e =
      ground (arith, next_run-later laws job.cadence now t (ltb→lt _ _ near) e)

-- Neither a settlement nor an update of the other fields moves a cursor.
update_job-still_due :
    (k observed i : ℕ) (f : ScheduledJob → ScheduledJob) (db : SchedDb)
    → ((j : ScheduledJob) → still_due k observed (f j) ≡ still_due k observed j)
    → any_where (still_due k observed) (update_job i f db).jobs
      ≡ any_where (still_due k observed) db.jobs
update_job-still_due k observed i f db same =
    any_where-update_where (still_due k observed) (job_key i) f same db.jobs

-- A claim wins only while a row still shows the cursor that the copy showed; afterwards none does.
claim_with_once :
    (job : ScheduledJob) (observed : ℕ) (r : Result (Option ℕ)) (db : SchedDb)
    → ((new : Option ℕ) → r ≡ ok new → is_at new observed ≡ false)
    → wins (claim_with job observed r db).0
        + count_any (any_where (still_due job.id observed) (claim_with job observed r db).1.jobs)
      ≤ count_any (any_where (still_due job.id observed) db.jobs)
claim_with_once job observed (ok new) db moved =
    elim (Bool-cases (any_where (still_due job.id observed) db.jobs)) [
      | inl e ↦
          rw
            (
              e,
              any_where-cleared (still_due job.id observed) (λ j. record j { next_run_at = new })
                  (λ j. ground (arith, moved new refl)) db.jobs,
            )
            (omega arith)
      | inr e ↦ rw (e, e) (omega arith)
    ]
claim_with_once job observed config_error db moved =
    rw
      (update_job-still_due job.id observed job.id
        (λ j. record j { enabled = false; last_status = invalid }) db (λ j. refl))
      (omega arith)
claim_with_once job observed other_error db moved = omega arith

module _ ⦃w : World⦄ ⦃cal : Calendar⦄ ⦃b : Backend⦄ where
  settle-still_due :
      (k observed : ℕ) (job : ScheduledJob) (seen now : ℕ) (new : Option ℕ) (t : Tick)
      → any_where (still_due k observed) (settle job seen now new t).1.db.jobs
        ≡ any_where (still_due k observed) t.db.jobs
  unfolding QuietUpdate
  settle-still_due k observed job seen now new t = quiet (settle-QuietUpdate job seen now new t)
    where
      quiet :
          QuietUpdate job.id t (settle job seen now new t).1
          → any_where (still_due k observed) (settle job seen now new t).1.db.jobs
            ≡ any_where (still_due k observed) t.db.jobs
      quiet (f, q, e, h) = rw e (
          any_where-update_where (still_due k observed) (job_key job.id) f
            (λ j. rw (q.keeps_id j, q.keeps_cursor j) refl) t.db.jobs)

  abbrev pub take_step : ℕ → Step → SchedDb → ℕ × SchedDb
  take_step observed (claims job now) db = let r = claim_job job observed now db in (wins r.0, r.1)
  take_step observed (settles job seen now new) db =
      (0, (settle job seen now new (record { db = db; result = start_result })).1.db)

  -- The steps of all the ticks in the order they happen, and how many claims have won.
  unfoldable pub take_steps : ℕ → List Step → SchedDb → ℕ × SchedDb
  take_steps observed [] db = (0, db)
  take_steps observed (s ∷ rest) db =
      let r = take_step observed s db in let q = take_steps observed rest r.1 in (r.0 + q.0, q.1)

  claim_once :
      (laws : CalendarLaws cal) (k observed : ℕ) (job : ScheduledJob) (now : ℕ) (db : SchedDb)
      → is_copy k observed (claims job now) ≡ true
      → (wins (claim_job job observed now db).0
            + count_any (any_where (still_due k observed) (claim_job job observed now db).1.jobs)
          ≤ count_any (any_where (still_due k observed) db.jobs))
  unfolding claim_job
  claim_once laws k observed job now db copy =
      let same : job.id ≡ k = ground arith in
      let due : observed ≤ now = ground arith in
      let near : anchor_near now job ≡ true = ground arith in
      subst
        (λ i.
          wins (claim_job job observed now db).0
            + count_any (any_where (still_due i observed) (claim_job job observed now db).1.jobs)
          ≤ count_any (any_where (still_due i observed) db.jobs))
        same
        (claim_with_once job observed (next_run job.cadence now) db (λ new e.
          is_reached-is_at new observed now due (next_run-is_reached laws job now new near e)))

  wins-bounded :
      (laws : CalendarLaws cal) (k observed : ℕ) (steps : List Step) (db : SchedDb)
      → all_where (is_copy k observed) steps ≡ true
      → (take_steps observed steps db).0 ≤ count_any (any_where (still_due k observed) db.jobs)
  unfolding take_steps
  wins-bounded laws k observed [] db h = omega arith
  wins-bounded laws k observed (claims job now ∷ rest) db h =
      let h1 : is_copy k observed (claims job now) ≡ true = ground arith in
      let h2 : all_where (is_copy k observed) rest ≡ true = ground arith in
      omega (
        arith,
        claim_once laws k observed job now db h1,
        wins-bounded laws k observed rest (claim_job job observed now db).1 h2,
      )
  wins-bounded laws k observed (settles job seen now new ∷ rest) db h =
      let t : Tick = record { db = db; result = start_result } in
      let later : (take_steps observed rest (settle job seen now new t).1.db).0
          ≤ count_any (any_where (still_due k observed) (settle job seen now new t).1.db.jobs) =
        wins-bounded laws k observed rest (settle job seen now new t).1.db h in
      omega (arith, later, ap count_any (settle-still_due k observed job seen now new t))

  -- Ticks that run at the same time, their claims and settlements in any order: of the claims of one
  -- job, each from a copy that shows it due at `observed`, at most one wins. The calendar keeps its
  -- laws, and no copy's anchor is more than 10000 times 28 days back.
  pub take_steps_once :
      (laws : CalendarLaws cal) (k observed : ℕ) (steps : List Step) (db : SchedDb)
      → all_where (is_copy k observed) steps ≡ true
      → (take_steps observed steps db).0 ≤ 1
  take_steps_once laws k observed steps db h =
      le_via (wins-bounded laws k observed steps db h)
        (count_any_bound (any_where (still_due k observed) db.jobs))
