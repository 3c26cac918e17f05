-- ===== src/Scheduler/Quiet.antt =====
-- What a tick does to the table of jobs once it has won a claim (`_process_job_body` of
-- apps/scheduler/services.py): it rewrites fields of that job other than the cursor.
use cwstation.Prelude.{
  ℕ, ◌+◌, ◌≤◌, ◌≡◌, refl, sym, ◌∙◌, Bool, true, false, not, ◌&&◌, Option, none, some, List, [], ◌∷◌,
  leb, Bool-cases, inl, inr, arith, update_where,
}
use cwstation.Tasks.Policy.{World}
use cwstation.Scheduler.Model.{
  CatchUp, run_once, skip, queued, failed, invalid, of_run, ScheduledJob, TickResult, Tick,
}
use cwstation.Scheduler.Schedules.{Result, ok, config_error, other_error, Calendar, missed_periods}
use cwstation.Scheduler.Services.{
  Backend, Enqueued, enqueued_as, unresolvable, not_enqueued, job_key, fired, fire, catch_up_missed,
  catch_up, settle, previous_run_active, count_retired, record_run,
}

-- The key and the cursor stay, and nothing is enabled.
pub record Quiet (f : ScheduledJob → ScheduledJob) : Type 0 where
  pub keeps_id : (j : ScheduledJob) → (f j).id ≡ j.id
  pub keeps_cursor : (j : ScheduledJob) → (f j).next_run_at ≡ j.next_run_at
  pub not_enabled : (j : ScheduledJob) → (f j).enabled ≡ true → j.enabled ≡ true

unfoldable pub QuietUpdate : ℕ → Tick → Tick → Type 0
QuietUpdate k t t' =
    (f : ScheduledJob → ScheduledJob) × Quiet f
    × (t'.db.jobs ≡ update_where (job_key k) f t.db.jobs)
    × (t.result.errors ≤ t'.result.errors)

update_where-same {ℓ} : {A : Type ℓ} (p : A → Bool) (xs : List A) → update_where p (λ x. x) xs ≡ xs
update_where-same p [] = refl
update_where-same p (x ∷ xs) = ground (arith, update_where-same p xs)

unchanged :
    (k : ℕ) (t t' : Tick)
    → t'.db.jobs ≡ t.db.jobs
    → t.result.errors ≤ t'.result.errors
    → QuietUpdate k t t'
unfolding QuietUpdate
unchanged k t t' e h = (
  λ j. j,
  record { keeps_id = λ j. refl; keeps_cursor = λ j. refl; not_enabled = λ j h. h },
  e ∙ sym (update_where-same (job_key k) t.db.jobs),
  h,
)

module _ ⦃w : World⦄ ⦃cal : Calendar⦄ ⦃b : Backend⦄ where
  fired-QuietUpdate :
      (job : ScheduledJob) (seen now : ℕ) (e : Enqueued) (t : Tick)
      → QuietUpdate job.id t (fired job seen now e t)
  unfolding QuietUpdate record_run
  fired-QuietUpdate job seen now (enqueued_as id rs) t = (
    λ j. record j {
      last_enqueued_at = some now;
      last_status = of_run queued;
      total_runs = j.total_runs + 1;
    },
    record { keeps_id = λ j. refl; keeps_cursor = λ j. refl; not_enabled = λ j h. h },
    refl,
    omega arith,
  )
  fired-QuietUpdate job seen now unresolvable t = (
    λ j. record j { enabled = false; last_status = invalid },
    record { keeps_id = λ j. refl; keeps_cursor = λ j. refl; not_enabled = λ j h. cc },
    refl,
    omega arith,
  )
  fired-QuietUpdate job seen now not_enqueued t = (
    λ j. record j { last_status = of_run failed },
    record { keeps_id = λ j. refl; keeps_cursor = λ j. refl; not_enabled = λ j h. h },
    refl,
    omega arith,
  )

  catch_up_missed-QuietUpdate :
      (job : ScheduledJob) (seen now : ℕ) (r : Result ℕ) (t : Tick)
      → QuietUpdate job.id t (catch_up_missed job seen now r t).1
  unfolding fire record_run
  catch_up_missed-QuietUpdate job seen now (ok n) t = elim (Bool-cases (leb 1 n)) [
    | inl e ↦ rw e (unchanged job.id t _ refl (omega arith))
    | inr e ↦ rw e (fired-QuietUpdate job seen now (b.enqueue job t.db.tasks.results) t)
  ]
  catch_up_missed-QuietUpdate job seen now config_error t = unchanged job.id t t refl (omega arith)
  catch_up_missed-QuietUpdate job seen now other_error t = unchanged job.id t t refl (omega arith)

  catch_up-QuietUpdate :
      (policy : CatchUp) (job : ScheduledJob) (seen now : ℕ) (t : Tick)
      → QuietUpdate job.id t (catch_up policy job seen now t).1
  unfolding fire
  catch_up-QuietUpdate run_once job seen now t =
      fired-QuietUpdate job seen now (b.enqueue job t.db.tasks.results) t
  catch_up-QuietUpdate skip job seen now t =
      catch_up_missed-QuietUpdate job seen now (missed_periods job.cadence seen now) t

  retired-errors : (new : Option ℕ) (r : TickResult) → (count_retired new r).errors ≡ r.errors
  retired-errors none r = refl
  retired-errors (some t) r = refl

  widen :
      (k : ℕ) (t : Tick) (new : Option ℕ) (t' : Tick)
      → QuietUpdate k (record t { result = count_retired new t.result }) t'
      → QuietUpdate k t t'
  unfolding QuietUpdate
  widen k t new t' (f, q, e, h) = (f, q, e, omega (arith, h, retired-errors new t.result))

  pub settle-QuietUpdate :
      (job : ScheduledJob) (seen now : ℕ) (new : Option ℕ) (t : Tick)
      → QuietUpdate job.id t (settle job seen now new t).1
  unfolding settle record_run
  settle-QuietUpdate job seen now new t =
      elim (Bool-cases (not job.allow_overlap && previous_run_active job now t.db)) [
        | inl e ↦ rw e (unchanged job.id t _ refl (omega (arith, retired-errors new t.result)))
        | inr e ↦ rw e (
            widen job.id t new _ (
              catch_up-QuietUpdate job.catch_up job seen now
                (record t { result = count_retired new t.result })))
      ]
