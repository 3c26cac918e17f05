-- ===== src/Scheduler/Kept.antt =====
-- What a job keeps when the sync writes it or another (apps/scheduler/registry.py).
use cwstation.Prelude.{
  ℕ, ◌≡◌, refl, sym, subst, Bool, true, false, not, ◌&&◌, Option, none, some, List, [], ◌∷◌, ◌++◌,
  Text, text_eq, text_eq→eq, text_eq_refl, if◌then◌else◌, find_first, update_where, Bool-cases, inl,
  inr, arith,
}
use cwstation.Scheduler.Schedules.{Result, ok, config_error, other_error}
use cwstation.Scheduler.Registry.{is_declared, JobRow, is_job_named, seeded}

-- Turned off by an operator: there is no mark of a retirement.
abbrev pub kept_off : JobRow → Bool
kept_off job = not job.enabled && not job.auto_retired

-- Made in the pages, and on.
abbrev pub kept_on : JobRow → Bool
kept_on job = job.enabled && not (is_declared job.source)

abbrev pub holds : (JobRow → Bool) → Option JobRow → Bool
holds keep none = false
holds keep (some job) = keep job

-- The row with the name is there and is as wanted.
unfoldable pub Under : (JobRow → Bool) → Text → List JobRow → Type 0
Under keep name jobs = holds keep (find_first (is_job_named name) jobs) ≡ true

pub find_first-snoc_found :
    (keep p : JobRow → Bool) (xs : List JobRow) (x : JobRow)
    → holds keep (find_first p xs) ≡ true
    → holds keep (find_first p (xs ++ x ∷ [])) ≡ true
find_first-snoc_found keep p [] x h = cc
find_first-snoc_found keep p (y ∷ xs) x h = ground (arith, find_first-snoc_found keep p xs x)

pub seeded-kept_off :
    (job : JobRow) (r : Result (Option ℕ)) (new : JobRow)
    → seeded job r ≡ some new
    → (kept_off new ≡ kept_off job) × (new.name ≡ job.name)
seeded-kept_off job (ok next) new e = ground arith
seeded-kept_off job config_error new e = ground arith
seeded-kept_off job other_error new e = cc

pub put_hit :
    (p : JobRow → Bool) (new : JobRow) (xs : List JobRow) (job : JobRow)
    → p new ≡ true
    → find_first p xs ≡ some job
    → find_first p (update_where p (λ j. new) xs) ≡ some new
put_hit p new [] job n e = cc
put_hit p new (x ∷ xs) job n e = elim (Bool-cases (p x)) [
  | inl hit ↦ ground (arith, hit)
  | inr miss ↦ ground (arith, miss, put_hit p new xs job n)
]

pub put_miss :
    (p q : JobRow → Bool) (new : JobRow)
    → q new ≡ false
    → ((x : JobRow) → p x ≡ true → q x ≡ false)
    → (xs : List JobRow) → find_first q (update_where p (λ j. new) xs) ≡ find_first q xs
put_miss p q new n apart [] = refl
put_miss p q new n apart (x ∷ xs) = elim (Bool-cases (p x)) [
  | inl hit ↦ ground (arith, hit, apart x hit, put_miss p q new n apart xs)
  | inr miss ↦ ground (arith, miss, put_miss p q new n apart xs)
]

pub named_self : (new : JobRow) (name : Text) → new.name ≡ name → is_job_named name new ≡ true
named_self new name e = rw e (text_eq_refl name)

pub named_apart :
    (a b : Text) (x : JobRow)
    → text_eq a b ≡ false
    → is_job_named a x ≡ true
    → is_job_named b x ≡ false
named_apart a b x apart e = rw (text_eq→eq x.name a e) apart

-- The row that a round writes is the one under its specification's name.
pub put-Under :
    (keep : JobRow → Bool) (key : Text) (jobs : List JobRow) (job new : JobRow) (name : Text)
    → find_first (is_job_named key) jobs ≡ some job
    → (keep job ≡ true → keep new ≡ true)
    → new.name ≡ key
    → Under keep name jobs
    → Under keep name (update_where (is_job_named key) (λ j. new) jobs)
unfolding Under
put-Under keep key jobs job new name e keeps named h = elim (Bool-cases (text_eq key name)) [
  | inl same ↦
      let one : key ≡ name = text_eq→eq key name same in
      let was : keep job ≡ true =
        subst (λ o. holds keep o ≡ true) e
          (subst (λ k. holds keep (find_first (is_job_named k) jobs) ≡ true) (sym one) h) in
      subst
        (λ k.
          holds keep (find_first (is_job_named k) (update_where (is_job_named key) (λ j. new) jobs))
          ≡ true)
        one (rw (put_hit (is_job_named key) new jobs job (named_self new key named) e) (keeps was))
  | inr apart ↦
      rw
        (put_miss (is_job_named key) (is_job_named name) new
          (named_apart key name new apart (named_self new key named))
          (λ x hit. named_apart key name x apart hit) jobs)
        h
]

pub unseeded :
    (known again_needed : Bool) (again : Option JobRow) (w new : JobRow)
    → w.enabled ≡ false
    → (if not known then none else if w.enabled && again_needed then again else some w) ≡ some new
    → w ≡ new
unseeded known again_needed again w new off e = ground arith

pub stays_on :
    (known again_needed : Bool) (again : Option JobRow) (w new : JobRow)
    → kept_on w ≡ true
    → (again ≡ some new → kept_on new ≡ kept_on w)
    → (if not known then none else if w.enabled && again_needed then again else some w) ≡ some new
    → kept_on new ≡ true
stays_on known again_needed again w new f g e = ground (arith, g)

pub seeded-kept_on :
    (job : JobRow) (r : Result (Option ℕ)) (new : JobRow)
    → seeded job r ≡ some new
    → kept_on new ≡ kept_on job
seeded-kept_on job (ok next) new e = ground arith
seeded-kept_on job config_error new e = ground arith
seeded-kept_on job other_error new e = cc

pub renamed :
    (known again_needed : Bool) (again : Option JobRow) (w new : JobRow) (name : Text)
    → w.name ≡ name
    → (again ≡ some new → new.name ≡ name)
    → (if not known then none else if w.enabled && again_needed then again else some w) ≡ some new
    → new.name ≡ name
renamed known again_needed again w new name f g e = ground (arith, g)
