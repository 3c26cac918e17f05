-- ===== src/Tasks/Chain.antt =====
-- apps/tasks/reliability.py: `chain_outcome` and the note on double execution.
use cwstation.Prelude.{
  ℕ, zero, suc, ◌+◌, Bool, true, false, not, ◌&&◌, ◌||◌, Option, none, some, List, leb,
  if◌then◌else◌,
}
use cwstation.Tasks.Model.{
  Status, Cause, TaskResult, TaskAttempt, Db, is_failed, is_none, result_of, child_of,
}
use cwstation.Tasks.Policy.{World}
use cwstation.Tasks.Retry.{decide}
use cwstation.Tasks.Repair.{repair_window}

pub data ChainStatus : Type 0 where
  engine : Status → ChainStatus
  retrying : ChainStatus

pub record ChainOutcome : Type 0 where
  pub status : ChainStatus
  pub row : TaskResult
  pub attempt : ℕ
  pub executed_more_than_once : Bool
  pub superseded_attempt : Option ℕ
  pub superseded_status : Option Status
  pub resurrected_cancelled_retry : Bool

-- The variables of the loop.
pub record Walk : Type 0 where
  pub current : ℕ
  pub attempt : ℕ
  pub superseded_attempt : Option ℕ
  pub superseded_status : Option Status
  pub forked : Bool
  pub resurrected : Bool

abbrev pub start_walk : ℕ → Walk
start_walk result_id = record {
  current = result_id;
  attempt = 1;
  superseded_attempt = none;
  superseded_status = none;
  forked = false;
  resurrected = false;
}

abbrev pub advance : TaskAttempt → Walk → Walk
advance child s = record s { current = child.result_id; attempt = child.attempt }

-- The body of the loop behind `child is None`: the variables, and whether the loop goes on.
unfoldable pub visit : List TaskAttempt → TaskAttempt → Walk → Walk × Bool
visit rows child s =
    if is_none child.parent_completed_at
    then (advance child s, true)
    else (let s1 = record s {
      superseded_attempt = some s.attempt;
      superseded_status = child.parent_status;
    } in
        if child.retry_cancelled
        then if is_none (child_of child.result_id rows)
          then (s1, false)
          else (advance child (record s1 { resurrected = true }), true)
        else (advance child (record s1 { forked = true }), true))

-- One round: the loop breaks off, or the next round goes on.
abbrev pub resume : (Walk → Walk × Bool) → Walk × Bool → Walk × Bool
resume next (s, true) = next s
resume next (s, false) = (s, true)

abbrev pub follow :
    (Walk → Walk × Bool) → List TaskAttempt → Walk → Option TaskAttempt → Walk × Bool
follow next rows s none = (s, true)
follow next rows s (some child) = resume next (visit rows child s)

-- `for _ in range(_MAX_CHAIN)`; the flag says that the loop has broken off.
unfoldable pub walk : ℕ → List TaskAttempt → Walk → Walk × Bool
walk zero rows s = (s, false)
walk (suc rounds) rows s = follow (walk rounds rows) rows s (child_of s.current rows)

abbrev pub max_chain : ℕ
max_chain = 1000

abbrev is_ready_chain : ChainStatus → Bool
is_ready_chain (engine Status.ready) = true
is_ready_chain _ = false

module _ ⦃w : World⦄ where
  -- FAILED reads as RETRYING while another attempt may still be on its way.
  unfoldable pub chain_status : List TaskAttempt → ℕ → TaskResult → ChainStatus
  chain_status rows now row =
      let recent : Bool = elim row.finished_at [
        | none ↦ true
        | some t ↦ leb now (t + repair_window)
      ] in
      if is_failed row.status && (recent && not (is_none (decide rows row Cause.failed)))
      then retrying
      else engine row.status

  unfoldable pub outcome_at : Walk → List TaskAttempt → ℕ → TaskResult → ChainOutcome
  outcome_at s rows now row =
      let status = chain_status rows now row in
      record {
        status = status;
        row = row;
        attempt = s.attempt;
        executed_more_than_once = s.forked || s.resurrected && not (is_ready_chain status);
        superseded_attempt = s.superseded_attempt;
        superseded_status = s.superseded_status;
        resurrected_cancelled_retry = s.resurrected;
      }

  abbrev pub outcome_of : Walk → List TaskAttempt → ℕ → Option TaskResult → Option ChainOutcome
  outcome_of s rows now none = none
  outcome_of s rows now (some row) = some (outcome_at s rows now row)

  unfoldable pub chain_outcome : ℕ → ℕ → Db → Option ChainOutcome
  chain_outcome result_id now db =
      let s = (walk max_chain db.attempts (start_walk result_id)).0 in
      outcome_of s db.attempts now (result_of s.current db.results)
