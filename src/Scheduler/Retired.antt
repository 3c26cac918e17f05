-- ===== src/Scheduler/Retired.antt =====
-- Which jobs a sync turns off or on (`sync_code_jobs` of apps/scheduler/registry.py).
use cwstation.Prelude.{
  ℕ, ◌≡◌, refl, ◌∙◌, subst, Bool, true, false, ◌&&◌, ◌||◌, Option, none, some, List, [], ◌∷◌, Text,
  text_eq→eq, if◌then◌else◌, find_first, find_first_sound, filter_where, map_some,
  find_first-update_where, Bool-cases, inl, inr, arith,
}
use cwstation.Scheduler.Schedules.{Calendar, next_run}
use cwstation.Scheduler.Registry.{
  JobRow, ScheduleSpec, Zones, is_job_named, seeded, reseed, create_job, created_row, anchor_row,
  row_for, wired, refresh_job, recast, is_none_time, put_row, sync_found, sync_spec, sync_specs,
  live_names, is_orphan, retirement_is_plausible, retire, has_names, retire_orphans, after_sync,
  sync_code_jobs,
}
use cwstation.Scheduler.Kept.{
  kept_off, kept_on, holds, Under, find_first-snoc_found, put-Under, seeded-kept_on,
  seeded-kept_off, unseeded, stays_on, renamed,
}

module _ ⦃z : Zones⦄ ⦃cal : Calendar⦄ where
  wired-kept_off :
      (spec : ScheduleSpec) (job : JobRow)
      → kept_off job ≡ true
      → (kept_off (wired spec job) ≡ true)
        × ((wired spec job).name ≡ job.name)
        × ((wired spec job).enabled ≡ false)
  unfolding wired
  wired-kept_off spec job h = ground arith

  pub refresh-name :
      (now : ℕ) (spec : ScheduleSpec) (job new : JobRow)
      → refresh_job now spec job ≡ some new
      → new.name ≡ job.name
  unfolding refresh_job wired reseed
  refresh-name now spec job new e =
      renamed (z.is_known job.cadence.timezone) (recast spec job || is_none_time job.next_run_at)
        (seeded (wired spec job) (next_run (wired spec job).cadence now)) (wired spec job) new
        job.name refl
        (λ f. (seeded-kept_off (wired spec job) (next_run (wired spec job).cadence now) new f).1) e

  refresh-kept_off :
      (now : ℕ) (spec : ScheduleSpec) (job new : JobRow)
      → refresh_job now spec job ≡ some new
      → kept_off job ≡ true
      → (kept_off new ≡ true) × (new.name ≡ job.name)
  unfolding refresh_job
  refresh-kept_off now spec job new e h =
      let off = wired-kept_off spec job h in
      let same : wired spec job ≡ new =
        unseeded (z.is_known job.cadence.timezone) (recast spec job || is_none_time job.next_run_at)
          (reseed now (wired spec job)) (wired spec job) new off.2 e in
      subst (λ j. (kept_off j ≡ true) × (j.name ≡ job.name)) same (off.0, off.1)

  -- What every refresh keeps, no sync loses before it retires.
  module _ (keep : JobRow → Bool)
      (refresh-keep : (now : ℕ) (spec : ScheduleSpec) (job new : JobRow)
        → refresh_job now spec job ≡ some new
        → keep job ≡ true
        → keep new ≡ true) where
    pub create-Under :
        (now : ℕ) (spec : ScheduleSpec) (jobs : List JobRow) (name : Text)
        → Under keep name jobs
        → Under keep name (create_job now spec jobs).1
    unfolding create_job Under
    create-Under now spec jobs name h = go (reseed now (row_for spec))
      where
        last :
            (first : JobRow) (second : Option JobRow)
            → holds keep (find_first (is_job_named name) (anchor_row first jobs second).1) ≡ true
        last first none = find_first-snoc_found keep (is_job_named name) jobs first h
        last first (some new) = find_first-snoc_found keep (is_job_named name) jobs new h

        go :
            (r : Option JobRow)
            → holds keep (find_first (is_job_named name) (created_row now spec jobs r).1) ≡ true
        go none = h
        go (some first) = last first _

    pub sync_spec-Under :
        (now : ℕ) (spec : ScheduleSpec) (jobs : List JobRow) (name : Text)
        → Under keep name jobs
        → Under keep name (sync_spec now spec jobs).1
    unfolding sync_spec
    sync_spec-Under now spec jobs name h = by_row (find_first (is_job_named spec.name) jobs) refl
      where
        by_refresh :
            (job : JobRow) (r : Option JobRow)
            → find_first (is_job_named spec.name) jobs ≡ some job
            → refresh_job now spec job ≡ r
            → Under keep name (put_row spec.name jobs r).1
        by_refresh job none e f = h
        by_refresh job (some new) e f =
            put-Under keep spec.name jobs job new name e (refresh-keep now spec job new f)
              (refresh-name now spec job new f
                ∙ text_eq→eq job.name spec.name (find_first_sound (is_job_named spec.name) jobs e))
              h

        by_row :
            (found : Option JobRow)
            → find_first (is_job_named spec.name) jobs ≡ found
            → Under keep name (sync_found now spec jobs found).1
        by_row none e = create-Under now spec jobs name h
        by_row (some job) e = by_refresh job (refresh_job now spec job) e refl

    pub sync_specs-Under :
        (now : ℕ) (specs : List ScheduleSpec) (jobs : List JobRow) (name : Text)
        → Under keep name jobs
        → Under keep name (sync_specs now specs jobs).1
    unfolding sync_specs
    sync_specs-Under now [] jobs name h = h
    sync_specs-Under now (spec ∷ rest) jobs name h =
        let first = sync_spec-Under now spec jobs name h in
        elim (Bool-cases (sync_spec now spec jobs).0) [
          | inl raised ↦ rw raised first
          | inr fine ↦ rw fine (sync_specs-Under now rest (sync_spec now spec jobs).1 name first)
        ]

  refresh-kept_on :
      (now : ℕ) (spec : ScheduleSpec) (job new : JobRow)
      → refresh_job now spec job ≡ some new
      → kept_on job ≡ true
      → kept_on new ≡ true
  unfolding refresh_job wired reseed
  refresh-kept_on now spec job new e h =
      stays_on (z.is_known job.cadence.timezone) (recast spec job || is_none_time job.next_run_at)
        (seeded (wired spec job) (next_run (wired spec job).cadence now)) (wired spec job) new
        (ground arith) (seeded-kept_on (wired spec job) (next_run (wired spec job).cadence now) new)
        e

-- A retirement passes by the rows that it is not about.
retire-Under :
    (keep : JobRow → Bool) (names : List Text) (jobs : List JobRow) (name : Text)
    → ((job : JobRow) → keep job ≡ true → is_orphan names job ≡ false)
    → Under keep name jobs
    → Under keep name (retire_orphans names jobs)
unfolding retire_orphans Under
retire-Under keep names jobs name spared h =
    elim (Bool-cases
      (has_names names && retirement_is_plausible (filter_where (is_orphan names) jobs) names)) [
        | inl go ↦
            rw
              (
                go,
                find_first-update_where (is_job_named name) (is_orphan names) retire (λ x. refl)
                    jobs,
              )
              (passed (find_first (is_job_named name) jobs) h)
        | inr stop ↦ rw stop h
      ]
  where
    passed :
        (found : Option JobRow)
        → holds keep found ≡ true
        → holds keep (map_some (λ x. if is_orphan names x then retire x else x) found) ≡ true
    passed none h = cc
    passed (some job) h = rw (spared job h) h

after_sync-Under :
    (keep : JobRow → Bool) (specs : List ScheduleSpec) (r : Bool × List JobRow) (name : Text)
    → ((job : JobRow) → keep job ≡ true → is_orphan (live_names specs) job ≡ false)
    → Under keep name r.1
    → Under keep name (after_sync specs r).1
after_sync-Under keep specs (true, jobs) name spared h = h
after_sync-Under keep specs (false, jobs) name spared h =
    retire-Under keep (live_names specs) jobs name spared h

off_spared : (names : List Text) (job : JobRow) → kept_off job ≡ true → is_orphan names job ≡ false
off_spared names job h = ground arith

on_spared : (names : List Text) (job : JobRow) → kept_on job ≡ true → is_orphan names job ≡ false
on_spared names job h = ground arith

pub found_as :
    (keep : JobRow → Bool) (found : Option JobRow)
    → holds keep found ≡ true
    → (after : JobRow) × (found ≡ some after) × (keep after ≡ true)
found_as keep none h = cc
found_as keep (some job) h = (job, refl, h)

-- The two ways to be kept exclude each other.
kept_ways :
    (job j : JobRow)
    → ((kept_off job && kept_off j) || (kept_on job && kept_on j)) ≡ true
    → (kept_off j ≡ kept_off job) × (kept_on j ≡ kept_on job)
kept_ways job j h = ground arith

module _ ⦃z : Zones⦄ ⦃cal : Calendar⦄ where
  -- A sync keeps to what operators have chosen, whatever the code declares and even if an exception
  -- leaves it: a job that is off and was not retired by a sync stays off, with no mark of a
  -- retirement, and a job that was made in the pages and is on stays on.
  pub sync_code_jobs-keeps :
      (now : ℕ) (specs : List ScheduleSpec) (jobs : List JobRow) (name : Text) (job : JobRow)
      → find_first (is_job_named name) jobs ≡ some job
      → (kept_off job || kept_on job) ≡ true
      → let after = find_first (is_job_named name) (sync_code_jobs now specs jobs).1 in
        (j : JobRow) × (after ≡ some j) × (kept_off j ≡ kept_off job) × (kept_on j ≡ kept_on job)
  unfolding sync_code_jobs Under
  sync_code_jobs-keeps now specs jobs name job e either = elim (Bool-cases (kept_off job)) [
    | inl off ↦
        let (j, f, still) = found_as kept_off _ (
          after_sync-Under kept_off specs (sync_specs now specs jobs) name
            (off_spared (live_names specs))
            (sync_specs-Under kept_off (λ n spec j new g h. (refresh-kept_off n spec j new g h).0)
              now specs jobs name (rw e off))) in
        let same = kept_ways job j (ground arith) in (j, f, same.0, same.1)
    | inr not_off ↦
        let on : kept_on job ≡ true = ground arith in
        let (j, f, still) = found_as kept_on _ (
          after_sync-Under kept_on specs (sync_specs now specs jobs) name
            (on_spared (live_names specs))
            (sync_specs-Under kept_on refresh-kept_on now specs jobs name (rw e on))) in
        let same = kept_ways job j (ground arith) in (j, f, same.0, same.1)
  ]
