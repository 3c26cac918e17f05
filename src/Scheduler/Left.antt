-- ===== src/Scheduler/Left.antt =====
-- What is still due after a tick (`run_due_jobs` of apps/scheduler/services.py).
use cwstation.Prelude.{
  ℕ, ◌+◌, ◌≤◌, ◌≡◌, refl, sym, ◌∙◌, true, false, Option, some, List, [], ◌∷◌, Bool-cases, inl, inr,
  arith, any_where, all_where, update_where, filter_where, count_where, Option-cases, subst,
}
use cwstation.Tasks.Policy.{World}
use cwstation.Scheduler.Model.{invalid, ScheduledJob, SchedDb, Tick}
use cwstation.Scheduler.Schedules.{Result, ok, config_error, other_error, Calendar, next_run}
use cwstation.Scheduler.Next.{CalendarLaws}
use cwstation.Scheduler.Quiet.{QuietUpdate, settle-QuietUpdate}
use cwstation.Scheduler.Claims.{anchor_near, next_run-is_reached}
use cwstation.Scheduler.Services.{
  Backend, Ended, returned, raised, job_key, still_due, claim_with, claim_job, settle, after_claim,
  process_at, process_job_body, caught, process_jobs, is_reached, is_due, run_due_jobs,
  start_result,
}
use cwstation.Scheduler.LeftOut.{
  left_out, left_out-Quiet, left_out-crashed, left_out-lost, left_out-won, left_out-disabled,
  left_out_unscheduled, left_out_start, left_out_end, OnePerId, keys_kept, all_where-filter_where,
}

-- One job of the loop: what is left out without its copy is paid for by an error.
Paid : ℕ → ScheduledJob → List ScheduledJob → Tick → Tick → Type 0
Paid now c rest t t' =
    (count_where (left_out now rest) t'.db.jobs + t.result.errors
      ≤ count_where (left_out now (c ∷ rest)) t.db.jobs + t'.result.errors)
    × ((k : ℕ) → count_where (job_key k) t'.db.jobs ≡ count_where (job_key k) t.db.jobs)

module _ ⦃w : World⦄ ⦃cal : Calendar⦄ ⦃b : Backend⦄ where
  settle-Paid :
      (now o : ℕ) (new : Option ℕ) (c : ScheduledJob) (rest : List ScheduledJob) (t t' : Tick)
      → c.next_run_at ≡ some o
      → is_reached new now ≡ false
      → QuietUpdate c.id
          (record t {
            db = record t.db {
              jobs =
                  update_where (still_due c.id o) (λ j. record j { next_run_at = new }) t.db.jobs;
            };
          })
          t'
      → Paid now c rest t t'
  unfolding Paid QuietUpdate
  settle-Paid now o new c rest t t' e h (f, q, same, more) =
      let jobs : List ScheduledJob =
        update_where (still_due c.id o) (λ j. record j { next_run_at = new }) t.db.jobs in
      (
        rw same (
            omega (
              arith,
              more,
              left_out-Quiet now c.id f rest jobs q,
              left_out-won now o new c rest t.db.jobs e h,
            )),
        λ k. rw same (
            keys_kept k (job_key c.id) f jobs q.keeps_id
            ∙ keys_kept k (still_due c.id o) (λ j. record j { next_run_at = new }) t.db.jobs
                (λ j. refl)),
      )

  caught_errors : (r : Ended × Tick) → r.1.result.errors ≤ (caught r).result.errors
  caught_errors (returned, t) = omega arith
  caught_errors (raised, t) = omega arith

  caught_jobs : (r : Ended × Tick) → (caught r).db.jobs ≡ r.1.db.jobs
  caught_jobs (returned, t) = refl
  caught_jobs (raised, t) = refl

  caught-Paid :
      (now : ℕ) (c : ScheduledJob) (rest : List ScheduledJob) (t : Tick) (r : Ended × Tick)
      → Paid now c rest t r.1
      → Paid now c rest t (caught r)
  unfolding Paid
  caught-Paid now c rest t r (h, k) =
      (rw (caught_jobs r) (omega (arith, h, caught_errors r)), λ i. rw (caught_jobs r) (k i))

  claimed-Paid :
      (laws : CalendarLaws cal) (now o : ℕ) (c : ScheduledJob) (rest : List ScheduledJob) (t : Tick)
      → c.next_run_at ≡ some o
      → anchor_near now c ≡ true
      → OnePerId t.db
      → (r : Result (Option ℕ)) → next_run c.cadence now ≡ r
      → Paid now c rest t (caught (after_claim c o now t.result (claim_with c o r t.db)))
  unfolding Paid
  claimed-Paid laws now o c rest t e near unique (ok new) q =
      elim (Bool-cases (any_where (still_due c.id o) t.db.jobs)) [
        | inl y ↦
            let claimed : Tick = record t {
              db = record t.db {
                jobs =
                    update_where (still_due c.id o) (λ j. record j { next_run_at = new }) t.db.jobs;
              };
            } in
            rw y (
              caught-Paid now c rest t (settle c o now new claimed) (
                settle-Paid now o new c rest t (settle c o now new claimed).1 e
                  (next_run-is_reached laws c now new near q)
                  (settle-QuietUpdate c o now new claimed)))
        | inr n ↦ rw n (omega (arith, left_out-lost now o c rest t.db.jobs e n), λ k. refl)
      ]
  claimed-Paid laws now o c rest t e near unique config_error q = (
    omega (arith, left_out-disabled now o c rest t.db.jobs e),
    λ k.
        keys_kept k (job_key c.id) (λ j. record j { enabled = false; last_status = invalid })
          t.db.jobs (λ j. refl),
  )
  claimed-Paid laws now o c rest t e near unique other_error q =
      (omega (arith, left_out-crashed now c rest t.db.jobs, unique c.id), λ k. refl)

  body-Paid :
      (laws : CalendarLaws cal) (now : ℕ) (c : ScheduledJob) (rest : List ScheduledJob) (t : Tick)
      → anchor_near now c ≡ true
      → OnePerId t.db
      → Paid now c rest t (caught (process_job_body c now t))
  unfolding process_job_body claim_job Paid
  body-Paid laws now c rest t near unique = elim (Option-cases c.next_run_at) [
    | inl e ↦
        subst (λ s. Paid now c rest t (caught (process_at c s now t))) (sym e)
          (omega (arith, left_out_unscheduled now c rest t.db.jobs e), λ k. refl)
    | inr (o, e) ↦
        subst (λ s. Paid now c rest t (caught (process_at c s now t))) (sym e)
          (claimed-Paid laws now o c rest t e near unique (next_run c.cadence now) refl)
  ]

  process_jobs-Paid :
      (laws : CalendarLaws cal) (now : ℕ) (copies : List ScheduledJob) (t : Tick)
      → all_where (anchor_near now) copies ≡ true
      → OnePerId t.db
      → count_where (left_out now []) (process_jobs copies now t).db.jobs + t.result.errors
        ≤ count_where (left_out now copies) t.db.jobs + (process_jobs copies now t).result.errors
  unfolding process_jobs Paid
  process_jobs-Paid laws now [] t near unique = omega arith
  process_jobs-Paid laws now (c ∷ rest) t near unique =
      let first : Paid now c rest t (caught (process_job_body c now t)) =
        body-Paid laws now c rest t (ground arith) unique in
      let later : count_where (left_out now [])
              (process_jobs rest now (caught (process_job_body c now t))).db.jobs
            + (caught (process_job_body c now t)).result.errors
          ≤ count_where (left_out now rest) (caught (process_job_body c now t)).db.jobs
            + (process_jobs rest now (caught (process_job_body c now t))).result.errors =
        process_jobs-Paid laws now rest (caught (process_job_body c now t)) (ground arith)
          (λ k. rw (first.1 k) (unique k)) in
      omega (arith, first.0, later)

  -- Every job that is due when a tick comes is dealt with: as many jobs as are still due behind the tick,
  -- so many errors it has counted at least. The calendar keeps its laws, no two jobs have the same key, and
  -- no anchor is more than 10000 times 28 days back.
  pub run_due_jobs-is_due :
      (laws : CalendarLaws cal) (now : ℕ) (db : SchedDb)
      → all_where (anchor_near now) db.jobs ≡ true
      → OnePerId db
      → count_where (is_due now) (run_due_jobs now db).db.jobs ≤ (run_due_jobs now db).result.errors
  unfolding run_due_jobs
  run_due_jobs-is_due laws now db near unique =
      let t : Tick = record { db = db; result = start_result } in
      let copies : List ScheduledJob = filter_where (is_due now) db.jobs in
      omega (
        arith,
        process_jobs-Paid laws now copies t
            (all_where-filter_where (anchor_near now) (is_due now) db.jobs near) unique,
        left_out_start now db.jobs,
        left_out_end now (process_jobs copies now t).db.jobs,
      )
