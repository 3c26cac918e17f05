-- ===== src/Scheduler/Reversible.antt =====
-- A retirement can be undone, and takes only what no code declares (`sync_code_jobs` of
-- apps/scheduler/registry.py).
use cwstation.Prelude.{
  ℕ, ◌≡◌, ◌⊎◌, refl, sym, ap, ◌∙◌, subst, Bool, true, false, not, ◌&&◌, ◌||◌, Option, none, some,
  List, [], ◌∷◌, Text, text_eq, text_eq→eq, if◌then◌else◌, find_first, find_first_sound,
  filter_where, find_first-update_where, any_where, Bool-cases, inl, inr, arith,
}
use cwstation.Scheduler.Schedules.{Result, ok, config_error, other_error, Calendar, next_run}
use cwstation.Scheduler.Registry.{
  is_declared, JobRow, ScheduleSpec, Zones, is_job_named, seeded, reseed, wired, refresh_job,
  recast, is_none_time, put_row, sync_found, sync_spec, sync_specs, live_names, is_orphan,
  retirement_is_plausible, retire, has_names, retire_orphans, after_sync, sync_code_jobs,
}
use cwstation.Scheduler.Kept.{Under, holds, put_hit, named_self}
use cwstation.Scheduler.Retired.{found_as, refresh-name, sync_spec-Under, sync_specs-Under}

abbrev is_on : JobRow → Bool
is_on job = job.enabled && not job.auto_retired

-- On, or turned off by a sync.
abbrev can_return : JobRow → Bool
can_return job = job.enabled || job.auto_retired

abbrev pub declares : Text → List ScheduleSpec → Bool
declares name specs = any_where (λ spec. text_eq spec.name name) specs

live_names-declares :
    (name : Text) (specs : List ScheduleSpec)
    → any_where (λ n. text_eq n name) (live_names specs) ≡ declares name specs
unfolding live_names
live_names-declares name [] = refl
live_names-declares name (spec ∷ rest) =
    let more = live_names-declares name rest in
    elim (Bool-cases (any_where (λ n. text_eq n spec.name) (live_names rest))) [
      | inr new ↦ rw new (ap (λ b. text_eq spec.name name || b) more)
      | inl seen ↦ rw seen (elim (Bool-cases (text_eq spec.name name)) [
        | inl same ↦ rw same (
            subst (λ k. any_where (λ n. text_eq n k) (live_names rest) ≡ true)
              (text_eq→eq spec.name name same) seen)
        | inr other ↦ rw other more
      ])
    ]

seeded-same :
    (job : JobRow) (r : Result (Option ℕ)) (new : JobRow)
    → seeded job r ≡ some new
    → (new.enabled ≡ job.enabled) × (new.auto_retired ≡ job.auto_retired)
seeded-same job (ok next) new e = ground arith
seeded-same job config_error new e = ground arith
seeded-same job other_error new e = cc

refreshed :
    (known again_needed : Bool) (again : Option JobRow) (w new : JobRow)
    → (again ≡ some new → (new.enabled ≡ w.enabled) × (new.auto_retired ≡ w.auto_retired))
    → (if not known then none else if w.enabled && again_needed then again else some w) ≡ some new
    → (new.enabled ≡ w.enabled) × (new.auto_retired ≡ w.auto_retired)
refreshed known again_needed again w new f e = ground (arith, f)

-- A retirement marks the rows that it is about, and passes by the others.
retire_orphans-at :
    (names : List Text) (jobs : List JobRow) (name : Text) (job : JobRow)
    → find_first (is_job_named name) jobs ≡ some job
    → let after = find_first (is_job_named name) (retire_orphans names jobs) in
      (after ≡ some job) ⊎ ((is_orphan names job ≡ true) × (after ≡ some (retire job)))
unfolding retire_orphans
retire_orphans-at names jobs name job e =
    elim (Bool-cases
      (has_names names && retirement_is_plausible (filter_where (is_orphan names) jobs) names)) [
        | inr stop ↦ rw stop (inl e)
        | inl go ↦
            rw
              (
                go,
                find_first-update_where (is_job_named name) (is_orphan names) retire (λ x. refl)
                    jobs,
                e,
              )
              (elim (Bool-cases (is_orphan names job)) [
                | inl taken ↦ rw taken (inr (refl, refl))
                | inr spared ↦ rw spared (inl refl)
              ])
      ]

module _ ⦃z : Zones⦄ ⦃cal : Calendar⦄ where
  refresh-state :
      (now : ℕ) (spec : ScheduleSpec) (job new : JobRow)
      → refresh_job now spec job ≡ some new
      → (new.enabled ≡ (job.enabled || job.auto_retired)) × (new.auto_retired ≡ false)
  unfolding refresh_job wired reseed
  refresh-state now spec job new e =
      refreshed (z.is_known job.cadence.timezone) (recast spec job || is_none_time job.next_run_at)
        (seeded (wired spec job) (next_run (wired spec job).cadence now)) (wired spec job) new
        (seeded-same (wired spec job) (next_run (wired spec job).cadence now) new) e

  refresh-enabled :
      (now : ℕ) (spec : ScheduleSpec) (job new : JobRow)
      → refresh_job now spec job ≡ some new
      → job.enabled ≡ true
      → new.enabled ≡ true
  refresh-enabled now spec job new e h =
      let state = refresh-state now spec job new e in ground arith

  refresh-is_on :
      (now : ℕ) (spec : ScheduleSpec) (job new : JobRow)
      → refresh_job now spec job ≡ some new
      → can_return job ≡ true
      → is_on new ≡ true
  refresh-is_on now spec job new e h = let state = refresh-state now spec job new e in ground arith

  stays_returnable : (job : JobRow) → is_on job ≡ true → can_return job ≡ true
  stays_returnable job h = ground arith

  -- The round of its specification turns a job on.
  sync_spec-is_on :
      (now : ℕ) (spec : ScheduleSpec) (jobs : List JobRow)
      → Under can_return spec.name jobs
      → (sync_spec now spec jobs).0 ≡ false
      → Under is_on spec.name (sync_spec now spec jobs).1
  unfolding sync_spec Under
  sync_spec-is_on now spec jobs h fine =
      by_row (find_first (is_job_named spec.name) jobs) refl h fine
    where
      by_refresh :
          (job : JobRow) (r : Option JobRow)
          → find_first (is_job_named spec.name) jobs ≡ some job
          → refresh_job now spec job ≡ r
          → can_return job ≡ true
          → (put_row spec.name jobs r).0 ≡ false
          → holds is_on (find_first (is_job_named spec.name) (put_row spec.name jobs r).1) ≡ true
      by_refresh job none e f c fine = cc
      by_refresh job (some new) e f c fine =
          let named =
            refresh-name now spec job new f
            ∙ text_eq→eq job.name spec.name (find_first_sound (is_job_named spec.name) jobs e) in
          rw (put_hit (is_job_named spec.name) new jobs job (named_self new spec.name named) e)
            (refresh-is_on now spec job new f c)

      by_row :
          (found : Option JobRow)
          → find_first (is_job_named spec.name) jobs ≡ found
          → holds can_return found ≡ true
          → (sync_found now spec jobs found).0 ≡ false
          → holds is_on (find_first (is_job_named spec.name) (sync_found now spec jobs found).1)
            ≡ true
      by_row none e h fine = cc
      by_row (some job) e h fine = by_refresh job (refresh_job now spec job) e refl h fine

  sync_specs-is_on :
      (now : ℕ) (specs : List ScheduleSpec) (jobs : List JobRow) (name : Text)
      → declares name specs ≡ true
      → Under can_return name jobs
      → (sync_specs now specs jobs).0 ≡ false
      → Under is_on name (sync_specs now specs jobs).1
  unfolding sync_specs
  sync_specs-is_on now [] jobs name d h fine = cc
  sync_specs-is_on now (spec ∷ rest) jobs name d h fine =
      elim (Bool-cases (sync_spec now spec jobs).0) [
        | inl raised ↦ (let never : true ≡ false = rw raised at fine in cc)
        | inr passed ↦
            let more : (sync_specs now rest (sync_spec now spec jobs).1).0 ≡ false =
              rw passed at fine in
            elim (Bool-cases (text_eq spec.name name)) [
              | inl same ↦
                  let one = text_eq→eq spec.name name same in
                  let on : Under is_on name (sync_spec now spec jobs).1 =
                    subst (λ k. Under is_on k (sync_spec now spec jobs).1) one
                      (sync_spec-is_on now spec jobs
                        (subst (λ k. Under can_return k jobs) (sym one) h) passed) in
                  rw passed (
                    sync_specs-Under is_on
                      (λ n s job new e k. refresh-is_on n s job new e (stays_returnable job k)) now
                      rest (sync_spec now spec jobs).1 name on)
              | inr other ↦ rw passed (
                  sync_specs-is_on now rest (sync_spec now spec jobs).1 name (rw other at d)
                    (sync_spec-Under can_return
                      (λ n s job new e k. stays_returnable new (refresh-is_on n s job new e k)) now
                      spec jobs name h)
                    more)
            ]
      ]

  named_as :
      (rows : List JobRow) (name : Text) (j : JobRow)
      → find_first (is_job_named name) rows ≡ some j
      → j.name ≡ name
  named_as rows name j f = text_eq→eq j.name name (find_first_sound (is_job_named name) rows f)

  undeclared :
      (specs : List ScheduleSpec) (name : Text) (j : JobRow)
      → j.name ≡ name
      → is_orphan (live_names specs) j ≡ true
      → declares name specs ≡ false
  undeclared specs name j n o =
      let orphan : any_where (λ k. text_eq k j.name) (live_names specs) ≡ false = ground arith in
      sym (live_names-declares name specs)
      ∙ subst (λ k. any_where (λ x. text_eq x k) (live_names specs) ≡ false) n orphan

  -- A sync turns a job off only if the code made it and no longer declares its name, and it then
  -- leaves the mark of a retirement and no next run.
  pub sync_code_jobs-retires :
      (now : ℕ) (specs : List ScheduleSpec) (jobs : List JobRow) (name : Text) (job : JobRow)
      → find_first (is_job_named name) jobs ≡ some job
      → job.enabled ≡ true
      → let after = find_first (is_job_named name) (sync_code_jobs now specs jobs).1 in
        (j : JobRow) × (after ≡ some j)
        × ((j.enabled ≡ true)
            ⊎ ((is_declared j.source ≡ true)
                × (declares name specs ≡ false)
                × (j.auto_retired ≡ true)
                × (j.next_run_at ≡ none)))
  unfolding sync_code_jobs Under
  sync_code_jobs-retires now specs jobs name job e on =
      taken (sync_specs now specs jobs)
        (sync_specs-Under (λ j. j.enabled) refresh-enabled now specs jobs name (rw e on))
    where
      taken :
          (r : Bool × List JobRow)
          → holds (λ j. j.enabled) (find_first (is_job_named name) r.1) ≡ true
          → (j : JobRow) × (find_first (is_job_named name) (after_sync specs r).1 ≡ some j)
            × ((j.enabled ≡ true)
                ⊎ ((is_declared j.source ≡ true)
                    × (declares name specs ≡ false)
                    × (j.auto_retired ≡ true)
                    × (j.next_run_at ≡ none)))
      taken (true, rows) h =
          (let (j, f, on) = found_as (λ j. j.enabled) (find_first (is_job_named name) rows) h in
            (j, f, inl on))
      taken (false, rows) h =
          (let (j, f, on) = found_as (λ j. j.enabled) (find_first (is_job_named name) rows) h in
            elim (retire_orphans-at (live_names specs) rows name j f) [
              | inl spared ↦ (j, spared, inl on)
              | inr (orphan, gone) ↦ (
                retire j,
                gone,
                inr (
                  ground arith,
                  undeclared specs name j (named_as rows name j f) orphan,
                  refl,
                  refl,
                ),
              )
            ])

  -- A job that is on, or was retired by a sync, is on with no mark of a retirement after each sync
  -- that no exception leaves and for which the code declares its name.
  pub sync_code_jobs-restores :
      (now : ℕ) (specs : List ScheduleSpec) (jobs : List JobRow) (name : Text) (job : JobRow)
      → find_first (is_job_named name) jobs ≡ some job
      → (job.enabled || job.auto_retired) ≡ true
      → declares name specs ≡ true
      → (sync_code_jobs now specs jobs).0 ≡ false
      → let after = find_first (is_job_named name) (sync_code_jobs now specs jobs).1 in
        (j : JobRow) × (after ≡ some j) × (j.enabled ≡ true) × (j.auto_retired ≡ false)
  unfolding sync_code_jobs Under
  sync_code_jobs-restores now specs jobs name job e back declared fine =
      kept (sync_specs now specs jobs) declared fine
        (λ f. sync_specs-is_on now specs jobs name declared (rw e back) f)
    where
      kept :
          (r : Bool × List JobRow)
          → declares name specs ≡ true
          → (after_sync specs r).0 ≡ false
          → (r.0 ≡ false → holds is_on (find_first (is_job_named name) r.1) ≡ true)
          → (j : JobRow) × (find_first (is_job_named name) (after_sync specs r).1 ≡ some j)
            × (j.enabled ≡ true)
            × (j.auto_retired ≡ false)
      kept (true, rows) declared fine h = cc
      kept (false, rows) declared fine h =
          (let (j, f, on) = found_as is_on (find_first (is_job_named name) rows) (h refl) in
            elim (retire_orphans-at (live_names specs) rows name j f) [
              | inl spared ↦ (j, spared, ground arith, ground arith)
              | inr (orphan, gone) ↦
                  let no : declares name specs ≡ false =
                    undeclared specs name j (named_as rows name j f) orphan in
                  cc
            ])
