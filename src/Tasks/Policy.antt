-- ===== src/Tasks/Policy.antt =====
-- apps/tasks/reliability.py: RetryPolicy, its registry and the exception test. What the module asks
-- of Django, of the task modules and of the random generator is the record `World`: nothing is
-- assumed of it here.
use text.Mathlib.Text.{◌==◌ as str_eq}
use cwstation.Prelude.{
  ℕ, ◌+◌, ◌-◌, ◌*◌, ◌^◌, Bool, true, false, ◌&&◌, ◌||◌, Option, none, some, List, [], ◌∷◌, String,
  ltb, if◌then◌else◌, any_where,
}
use cwstation.Tasks.Model.{TaskResult}

-- `retry_on` holds the classes by their names. Backoffs are in seconds.
pub record RetryPolicy : Type 0 where
  pub max_attempts : Option ℕ
  pub backoff : Option ℕ
  pub backoff_max : Option ℕ
  pub retry_on : List String
  pub retry_lost : Bool

-- What `import_string` made of an exception's path: whether it is a class, and its superclasses.
pub record Imported : Type 0 where
  pub is_class : Bool
  pub is_subclass : String → Bool

pub record World : Type 0 where
  -- SMALLSTACK_TASKS_DEFAULT_MAX_ATTEMPTS, _BACKOFF_SECONDS and _BACKOFF_MAX_SECONDS
  pub default_max_attempts : ℕ
  pub backoff_seconds : ℕ
  pub backoff_max_seconds : ℕ
  -- SMALLSTACK_TASKS_LOST_AFTER_SECONDS and _ORPHAN_SECONDS
  pub lost_after_seconds : ℕ
  pub orphan_seconds : ℕ
  -- `_POLICIES` once `import_string(task_path)` was tried
  pub policies : String → Option RetryPolicy
  -- `import_string(exception_class_path)`; `none` where it raises
  pub import_class : String → Option Imported
  -- `random.uniform(0, x)`, in milliseconds
  pub uniform : ℕ → ℕ
  -- `import_string(row.task_path).using(…, run_after=…).enqueue(…)` for a copy of the row: the new
  -- row's id and the table with it, or `none` where that raises. `run_after` is in milliseconds.
  pub enqueue : TaskResult → ℕ → List TaskResult → Option (ℕ × List TaskResult)

abbrev pub default_policy : RetryPolicy
default_policy = record {
  max_attempts = none;
  backoff = none;
  backoff_max = none;
  retry_on = "Exception" ∷ [];
  retry_lost = true;
}

abbrev pub implicit_pinned_policy : RetryPolicy
implicit_pinned_policy = record default_policy { retry_lost = false }

-- The validation of the decorator `retry_policy`; `none` is its ValueError.
unfoldable pub retry_policy : RetryPolicy → Option RetryPolicy
retry_policy p = elim p.max_attempts [ none ↦ some p | some n ↦ if ltb n 1 then none else some p ]

abbrev pub or_default : Option ℕ → ℕ → ℕ
or_default none d = d
or_default (some n) _ = n

module _ ⦃w : World⦄ where
  -- RetryPolicy.attempts
  unfoldable pub attempts_of : RetryPolicy → ℕ
  attempts_of p = or_default p.max_attempts w.default_max_attempts

  -- The cap on a wait and the bound of the wait behind an attempt.
  unfoldable pub cap_of : RetryPolicy → ℕ
  cap_of p = or_default p.backoff_max w.backoff_max_seconds

  unfoldable pub base_of : RetryPolicy → ℕ → ℕ
  base_of p attempt =
      let doubled = or_default p.backoff w.backoff_seconds * 2 ^ (attempt - 1) in
      if ltb doubled (cap_of p) then doubled else cap_of p

  -- RetryPolicy.delay, in milliseconds, so that half of a whole number of seconds is exact.
  unfoldable pub delay : RetryPolicy → ℕ → ℕ
  delay p attempt = let base = base_of p attempt in base * 500 + w.uniform (base * 500)

  -- `policy_for`, where `none` says that it is DEFAULT_POLICY.
  abbrev pub policy_for : String → Option RetryPolicy
  policy_for path = w.policies path

  -- `_matches`
  unfoldable pub matches : String → List String → Bool
  matches path retry_on = elim (w.import_class path) [
    | none ↦ any_where (λ c. str_eq c "Exception" || str_eq c "BaseException") retry_on
    | some cls ↦ cls.is_class && any_where cls.is_subclass retry_on
  ]
