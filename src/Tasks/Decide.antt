-- ===== src/Tasks/Decide.antt =====
-- When `_decide` lets a task run again.
use cwstation.Prelude.{ℕ, ◌<◌, ◌≡◌, true, false, none, some, List, arith}
use cwstation.Tasks.Model.{Cause, TaskResult, TaskAttempt, is_failed, is_bookkeeping}
use cwstation.Tasks.Policy.{World, policy_for}
use cwstation.Tasks.Retry.{
  Decision, attempt_info, classify, is_worker_death, budget_of, retryable, decide,
}

module _ ⦃w : World⦄ where
  -- What a decision to retry rests on.
  pub record IsAllowed (rows : List TaskAttempt) (row : TaskResult) (cause : Cause) (d : Decision)
      : Type 0 where
    pub is_over : is_failed row.status ≡ true
    pub is_genuine : is_bookkeeping row.exception_class_path ≡ false
    pub info_is : d.info ≡ attempt_info row.id rows
    pub cause_is : d.cause ≡ classify row cause
    pub budget_is : d.budget ≡ budget_of d.info d.policy
    pub has_budget : d.info.attempt < d.budget
    pub policy_allows : retryable row d.cause d.policy ≡ true

  -- A decision to retry is made only for a FAILED row that records an execution, whose attempt
  -- number lies below the budget of its chain, and under a policy that allows what happened: a
  -- worker's death by `retry_lost`, an exception by `retry_on`.
  pub decide-IsAllowed :
      (rows : List TaskAttempt) (row : TaskResult) (cause : Cause) (d : Decision)
      → decide rows row cause ≡ some d
      → IsAllowed rows row cause d
  unfolding decide
  decide-IsAllowed rows row cause d h = ground arith

  -- Once a budget was pinned on a task with no policy of its own, the death of a worker never leads
  -- to a retry.
  pub decide-pinned_worker_death :
      (rows : List TaskAttempt) (row : TaskResult) (cause : Cause) (n : ℕ)
      → (attempt_info row.id rows).max_attempts ≡ some n
      → policy_for row.task_path ≡ none
      → is_worker_death (classify row cause) ≡ true
      → decide rows row cause ≡ none
  unfolding decide
  decide-pinned_worker_death rows row cause n pinned plain death =
      simp (pinned, plain, death) (ground arith)
