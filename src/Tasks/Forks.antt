-- ===== src/Tasks/Forks.antt =====
-- Whether `chain_outcome` says that a chain executed more than once.
use cwstation.Prelude.{
  ℕ, zero, suc, ◌<◌, ◌≡◌, refl, sym, subst, Bool, true, false, Option, none, some, List, arith,
  all_where, all_where-find_first,
}
use cwstation.Tasks.Model.{TaskResult, TaskAttempt, Db, is_none, is_id, child_of}
use cwstation.Tasks.Policy.{World}
use cwstation.Tasks.Chain.{
  Walk, ChainOutcome, start_walk, visit, resume, follow, walk, max_chain, outcome_at, outcome_of,
  chain_outcome,
}

some-injective : {a b : ℕ} → some a ≡ some b → a ≡ b
some-injective e = cc

resume-forked :
    (next : Walk → Walk × Bool) (m : Walk × Bool)
    → m.0.forked ≡ true
    → ((s : Walk) → s.forked ≡ true → (next s).0.forked ≡ true)
    → (resume next m).0.forked ≡ true
resume-forked next (s, false) h keeps = h
resume-forked next (s, true) h keeps = keeps s h

visit-forked :
    (rows : List TaskAttempt) (child : TaskAttempt) (s : Walk)
    → s.forked ≡ true
    → (visit rows child s).0.forked ≡ true
unfolding visit
visit-forked rows child s h = ground arith

-- A fork that the walk has seen is not forgotten.
walk-forked :
    (rounds : ℕ) (rows : List TaskAttempt) (s : Walk)
    → s.forked ≡ true
    → (walk rounds rows s).0.forked ≡ true
unfolding walk
walk-forked zero rows s h = h
walk-forked (suc rounds) rows s h =
    followed (child_of s.current rows) (λ s1. walk-forked rounds rows s1)
  where
    followed :
        (o : Option TaskAttempt)
        → ((s1 : Walk) → s1.forked ≡ true → (walk rounds rows s1).0.forked ≡ true)
        → (follow (walk rounds rows) rows s o).0.forked ≡ true
    followed none keeps = h
    followed (some child) keeps =
        resume-forked (walk rounds rows) (visit rows child s) (visit-forked rows child s h) keeps

visit-sees_fork :
    (rows : List TaskAttempt) (child : TaskAttempt) (s : Walk)
    → is_none child.parent_completed_at ≡ false
    → child.retry_cancelled ≡ false
    → (visit rows child s).0.forked ≡ true
unfolding visit
visit-sees_fork rows child s marked kept = ground arith

walk-sees_fork :
    (rounds : ℕ) (rows : List TaskAttempt) (s : Walk) (child : TaskAttempt)
    → child_of s.current rows ≡ some child
    → is_none child.parent_completed_at ≡ false
    → child.retry_cancelled ≡ false
    → (walk (suc rounds) rows s).0.forked ≡ true
unfolding walk
walk-sees_fork rounds rows s child found marked kept =
    subst (λ o. (follow (walk rounds rows) rows s o).0.forked ≡ true) (sym found)
      (resume-forked (walk rounds rows) (visit rows child s)
        (visit-sees_fork rows child s marked kept) (walk-forked rounds rows))

-- The retry so many retries further down the chain of a result.
unfoldable pub retry_below : ℕ → List TaskAttempt → ℕ → Option ℕ
retry_below zero rows k = some k
retry_below (suc n) rows k = elim (child_of k rows) [
  | none ↦ none
  | some child ↦ retry_below n rows child.result_id
]

-- The walk goes on to a retry that has been retried.
visit-goes :
    (rows : List TaskAttempt) (child : TaskAttempt) (s : Walk)
    → is_none (child_of child.result_id rows) ≡ false
    → ((visit rows child s).1 ≡ true) × ((visit rows child s).0.current ≡ child.result_id)
unfolding visit
visit-goes rows child s more = ground arith

retried_below :
    (n : ℕ) (rows : List TaskAttempt) (j k : ℕ)
    → retry_below n rows j ≡ some k
    → is_none (child_of k rows) ≡ false
    → is_none (child_of j rows) ≡ false
unfolding retry_below
retried_below zero rows j k e h = rw (some-injective e) h
retried_below (suc n) rows j k e h = there (child_of j rows) e
  where
    there :
        (o : Option TaskAttempt)
        → elim o [ none ↦ none | some child ↦ retry_below n rows child.result_id ] ≡ some k
        → is_none o ≡ false
    there none f = cc
    there (some child) f = refl

resume-goes :
    (next : Walk → Walk × Bool) (m : Walk × Bool)
    → m.1 ≡ true
    → (next m.0).0.forked ≡ true
    → (resume next m).0.forked ≡ true
resume-goes next (s, false) g h = cc
resume-goes next (s, true) g h = h

walk-sees_fork_below :
    (n rounds : ℕ) (rows : List TaskAttempt) (s : Walk) (j k : ℕ) (child : TaskAttempt)
    → n < rounds
    → s.current ≡ j
    → retry_below n rows j ≡ some k
    → child_of k rows ≡ some child
    → is_none child.parent_completed_at ≡ false
    → child.retry_cancelled ≡ false
    → (walk rounds rows s).0.forked ≡ true
unfolding retry_below walk
walk-sees_fork_below n zero rows s j k child low at e found marked kept = ground (arith, low)
walk-sees_fork_below zero (suc more) rows s j k child low at e found marked kept =
    walk-sees_fork more rows s child (rw (at, some-injective e) found) marked kept
walk-sees_fork_below (suc n) (suc more) rows s j k child low at e found marked kept =
    subst (λ i. (follow (walk more rows) rows s (child_of i rows)).0.forked ≡ true) (sym at)
      (there (child_of j rows) e (λ s1 i goes f.
        walk-sees_fork_below n more rows s1 i k child (omega (arith, low)) goes f found marked
          kept))
  where
    there :
        (o : Option TaskAttempt)
        → elim o [ none ↦ none | some c ↦ retry_below n rows c.result_id ] ≡ some k
        → ((s1 : Walk) (i : ℕ)
            → s1.current ≡ i
            → retry_below n rows i ≡ some k
            → (walk more rows s1).0.forked ≡ true)
        → (follow (walk more rows) rows s o).0.forked ≡ true
    there none f next = cc
    there (some c) f next =
        let goes = visit-goes rows c s (retried_below n rows c.result_id k f (rw found refl)) in
        resume-goes (walk more rows) (visit rows c s) goes.0
          (next (visit rows c s).0 c.result_id goes.1 f)

-- The variables of a walk that has seen no late completion.
pub record IsClean (s : Walk) : Type 0 where
  pub unforked : s.forked ≡ false
  pub unresurrected : s.resurrected ≡ false
  pub unmarked : s.superseded_attempt ≡ none

visit-IsClean :
    (rows : List TaskAttempt) (child : TaskAttempt) (s : Walk)
    → is_none child.parent_completed_at ≡ true
    → IsClean s
    → IsClean (visit rows child s).0
unfolding visit
visit-IsClean rows child s unmarked c = ground arith

resume-IsClean :
    (next : Walk → Walk × Bool) (m : Walk × Bool)
    → IsClean m.0
    → ((s : Walk) → IsClean s → IsClean (next s).0)
    → IsClean (resume next m).0
resume-IsClean next (s, false) c keeps = c
resume-IsClean next (s, true) c keeps = keeps s c

walk-IsClean :
    (rounds : ℕ) (rows : List TaskAttempt) (s : Walk)
    → all_where (λ (a : TaskAttempt). is_none a.parent_completed_at) rows ≡ true
    → IsClean s
    → IsClean (walk rounds rows s).0
unfolding walk
walk-IsClean zero rows s plain c = c
walk-IsClean (suc rounds) rows s plain c =
    followed (child_of s.current rows) refl (λ s1. walk-IsClean rounds rows s1 plain)
  where
    followed :
        (o : Option TaskAttempt)
        → child_of s.current rows ≡ o
        → ((s1 : Walk) → IsClean s1 → IsClean (walk rounds rows s1).0)
        → IsClean (follow (walk rounds rows) rows s o).0
    followed none e keeps = c
    followed (some child) e keeps =
        resume-IsClean (walk rounds rows) (visit rows child s)
          (visit-IsClean rows child s
            (all_where-find_first (λ (a : TaskAttempt). is_none a.parent_completed_at)
              (λ (a : TaskAttempt). is_id a.parent_id s.current) rows child plain e)
            c)
          keeps

module _ ⦃w : World⦄ where
  outcome_of-IsClean :
      (s : Walk) (rows : List TaskAttempt) (now : ℕ) (r : Option TaskResult) (o : ChainOutcome)
      → IsClean s
      → outcome_of s rows now r ≡ some o
      → (o.executed_more_than_once ≡ false) × (o.superseded_attempt ≡ none)
  outcome_of-IsClean s rows now none o c h = cc
  outcome_of-IsClean s rows now (some row) o c h = unfold outcome_at in ground arith

  outcome_of-forked :
      (s : Walk) (rows : List TaskAttempt) (now : ℕ) (r : Option TaskResult) (o : ChainOutcome)
      → s.forked ≡ true
      → outcome_of s rows now r ≡ some o
      → o.executed_more_than_once ≡ true
  outcome_of-forked s rows now none o f h = cc
  outcome_of-forked s rows now (some row) o f h = unfold outcome_at in ground arith

  -- As long as no attempt row is marked with a late completion, a chain is never reported to have
  -- executed more than once, and no attempt is named as superseded.
  pub chain_outcome-unmarked :
      (result_id now : ℕ) (db : Db) (o : ChainOutcome)
      → all_where (λ (a : TaskAttempt). is_none a.parent_completed_at) db.attempts ≡ true
      → chain_outcome result_id now db ≡ some o
      → (o.executed_more_than_once ≡ false) × (o.superseded_attempt ≡ none)
  unfolding chain_outcome
  chain_outcome-unmarked result_id now db o plain h =
      let clean : IsClean (start_walk result_id) = record {
        unforked = refl;
        unresurrected = refl;
        unmarked = refl;
      } in
      outcome_of-IsClean _ db.attempts now _ o
        (walk-IsClean max_chain db.attempts (start_walk result_id) plain clean) h

  -- A retry that replaced an attempt which then completed, and was not cancelled, is never missed:
  -- wherever in the chain it stands, up to its thousandth retry, the chain is reported to have
  -- executed more than once, whatever came after it.
  pub chain_outcome-forked :
      (n result_id k now : ℕ) (child : TaskAttempt) (db : Db) (o : ChainOutcome)
      → n < 1000
      → retry_below n db.attempts result_id ≡ some k
      → child_of k db.attempts ≡ some child
      → is_none child.parent_completed_at ≡ false
      → child.retry_cancelled ≡ false
      → chain_outcome result_id now db ≡ some o
      → o.executed_more_than_once ≡ true
  unfolding chain_outcome
  chain_outcome-forked n result_id k now child db o near below found marked kept h =
      outcome_of-forked _ db.attempts now _ o
        (walk-sees_fork_below n 1000 db.attempts (start_walk result_id) result_id k child near refl
          below found marked kept)
        h
