-- ===== src/Tasks/Keys.antt =====
-- What the unique columns and the budgets of the attempt table amount to: one operation at a time.
use cwstation.Prelude.{
  ◌||◌, ℕ, ◌+◌, ◌≤◌, ◌<◌, ◌≡◌, refl, sym, ap, subst, Bool, true, false, Option, none, some, List,
  [], ◌∷◌, ◌++◌, leb, ◌==◌, Bool-cases, inl, inr, arith, count_where, all_where, any_where,
  find_first-none, update_where, count_where-append, count_where-none, count_where-update_where,
  all_where-append, all_where-update_where,
}
use cwstation.Tasks.Model.{Cause, TaskResult, TaskAttempt, Db, is_id, is_none, result_of, child_of}
use cwstation.Tasks.Policy.{RetryPolicy, World}
use cwstation.Tasks.Retry.{
  AttemptInfo, Decision, budget_of, retry_row, create_attempt, decide, enqueue_retry, maybe_retry,
  save_attempt, save_retry, retry_decided, retry_found,
}
use cwstation.Tasks.Decide.{IsAllowed, decide-IsAllowed}

-- A first attempt, or one within the budget that its own row carries: a retry copies it from the
-- attempt that it replaces.
abbrev pub within : TaskAttempt → Bool
within a = elim a.max_attempts [ none ↦ true | some n ↦ leb a.attempt 1 || leb a.attempt n ]

-- Each result has one row and one retry, and no row is beyond its budget.
pub record Sound (rows : List TaskAttempt) : Type 0 where
  pub one_row : (k : ℕ) → count_where (λ (a : TaskAttempt). a.result_id == k) rows ≤ 1
  pub one_child : (k : ℕ) → count_where (λ (a : TaskAttempt). is_id a.parent_id k) rows ≤ 1
  pub budgets : all_where within rows ≡ true

count_where-snoc :
    (p : TaskAttempt → Bool) (rows : List TaskAttempt) (new : TaskAttempt)
    → (p new ≡ true → any_where p rows ≡ false)
    → count_where p rows ≤ 1
    → count_where p (rows ++ new ∷ []) ≤ 1
count_where-snoc p rows new fresh h =
    rw (count_where-append p rows (new ∷ [])) (elim (Bool-cases (p new)) [
      | inl e ↦ rw (e, count_where-none p rows (fresh e)) (omega arith)
      | inr e ↦ rw e (omega arith)
    ])

is_none→none : {A : Type 0} (o : Option A) → is_none o ≡ true → o ≡ none
is_none→none none h = refl
is_none→none (some x) h = cc

is_id→some : (o : Option ℕ) (k : ℕ) → is_id o k ≡ true → o ≡ some k
is_id→some none k h = cc
is_id→some (some j) k h = ap some (ground arith)

pub ==→eq : (a b : ℕ) → (a == b) ≡ true → a ≡ b
==→eq a b h = ground arith

-- What the unique columns have checked of a row that was let in.
pub record IsFresh (new : TaskAttempt) (rows rows' : List TaskAttempt) : Type 0 where
  pub appended : rows' ≡ rows ++ new ∷ []
  pub new_id : any_where (λ a. a.result_id == new.result_id) rows ≡ false
  pub new_parent : (k : ℕ) → new.parent_id ≡ some k → child_of k rows ≡ none

pub create_attempt-IsFresh :
    (new : TaskAttempt) (rows rows' : List TaskAttempt)
    → create_attempt new rows ≡ some rows'
    → IsFresh new rows rows'
unfolding create_attempt
create_attempt-IsFresh new rows rows' h = record {
  appended = ground arith;
  new_id = ground arith;
  new_parent = λ k e. is_none→none (child_of k rows) (ground arith);
}

-- A row that the unique columns let in, and that is within its budget.
pub create_attempt-Sound :
    (new : TaskAttempt) (rows rows' : List TaskAttempt)
    → create_attempt new rows ≡ some rows'
    → within new ≡ true
    → Sound rows
    → Sound rows'
create_attempt-Sound new rows rows' h ok s =
    let fresh = create_attempt-IsFresh new rows rows' h in
    subst Sound (sym fresh.appended) (record {
      one_row = λ k.
          count_where-snoc (λ (a : TaskAttempt). a.result_id == k) rows new
            (λ e. rw (← ==→eq new.result_id k e) fresh.new_id) (s.one_row k);
      one_child = λ k.
          count_where-snoc (λ (a : TaskAttempt). is_id a.parent_id k) rows new
            (λ e.
              find_first-none (λ (a : TaskAttempt). is_id a.parent_id k) rows
                (fresh.new_parent k (is_id→some new.parent_id k e)))
            (s.one_child k);
      budgets = rw (all_where-append within rows (new ∷ []), s.budgets, ok) refl;
    })

lt→leb : (a b : ℕ) → a < b → (leb (a + 1) 1 || leb (a + 1) b) ≡ true
lt→leb a b h = ground arith

-- An update that leaves the keys alone.
pub update_where-Sound :
    (p : TaskAttempt → Bool) (f : TaskAttempt → TaskAttempt) (rows : List TaskAttempt)
    → ((a : TaskAttempt) → (f a).result_id ≡ a.result_id)
    → ((a : TaskAttempt) → (f a).parent_id ≡ a.parent_id)
    → ((a : TaskAttempt) → within a ≡ true → within (f a) ≡ true)
    → Sound rows
    → Sound (update_where p f rows)
update_where-Sound p f rows same_id same_parent keeps s = record {
  one_row = λ k.
      rw
        (count_where-update_where (λ (a : TaskAttempt). a.result_id == k) p f
          (λ a. ap (λ i. i == k) (same_id a)) rows)
        (s.one_row k);
  one_child = λ k.
      rw
        (count_where-update_where (λ (a : TaskAttempt). is_id a.parent_id k) p f
          (λ a. ap (λ i. is_id i k) (same_parent a)) rows)
        (s.one_child k);
  budgets = all_where-update_where within p f keeps rows s.budgets;
}

module _ ⦃w : World⦄ where
  budget_of-pinned :
      (info : AttemptInfo) (p : RetryPolicy) (n : ℕ)
      → info.max_attempts ≡ some n
      → budget_of info p ≡ n
  budget_of-pinned info p n e = simp (e, budget_of)

  below_budget :
      (rows : List TaskAttempt) (row : TaskResult) (cause : Cause) (d : Decision) (n : ℕ)
      → IsAllowed rows row cause d
      → d.info.max_attempts ≡ some n
      → d.info.attempt < n
  below_budget rows row cause d n a e =
      omega (arith, a.has_budget, a.budget_is, budget_of-pinned d.info d.policy n e)

  -- The row of a retry that was decided on is within the chain's budget.
  retry_row-within :
      (rows : List TaskAttempt) (row : TaskResult) (cause : Cause) (d : Decision) (new_id now : ℕ)
      → IsAllowed rows row cause d
      → within (retry_row row d new_id now) ≡ true
  retry_row-within rows row cause d new_id now a = budget_case d.info.max_attempts refl
    where
      budget_case :
          (o : Option ℕ) → d.info.max_attempts ≡ o → within (retry_row row d new_id now) ≡ true
      budget_case none e = rw e refl
      budget_case (some n) e = simp e (lt→leb _ n (below_budget rows row cause d n a e))

  save_attempt-Sound :
      (new : TaskAttempt) (k : ℕ) (results : List TaskResult) (db : Db)
      → within new ≡ true
      → Sound db.attempts
      → Sound (save_attempt k results (create_attempt new db.attempts) db).1.attempts
  save_attempt-Sound new k results db ok s = saved (create_attempt new db.attempts) refl
    where
      saved :
          (o : Option (List TaskAttempt))
          → create_attempt new db.attempts ≡ o
          → Sound (save_attempt k results o db).1.attempts
      saved none e = s
      saved (some rows) e = create_attempt-Sound new db.attempts rows e ok s

  enqueue_retry-Sound :
      (row : TaskResult) (d : Decision) (now : ℕ) (db : Db)
      → ((k : ℕ) → within (retry_row row d k now) ≡ true)
      → Sound db.attempts
      → Sound (enqueue_retry row d now db).1.attempts
  unfolding enqueue_retry
  enqueue_retry-Sound row d now db ok s = saved (w.enqueue row _ db.results)
    where
      saved : (o : Option (ℕ × List TaskResult)) → Sound (save_retry row d now o db).1.attempts
      saved none = s
      saved (some (k, results)) = save_attempt-Sound (retry_row row d k now) k results db (ok k) s

  pub maybe_retry-Sound :
      (result_id : ℕ) (cause : Cause) (now : ℕ) (db : Db)
      → Sound db.attempts
      → Sound (maybe_retry result_id cause now db).1.attempts
  unfolding maybe_retry
  maybe_retry-Sound result_id cause now db s = found (result_of result_id db.results)
    where
      decided :
          (row : TaskResult) (o : Option Decision)
          → decide db.attempts row cause ≡ o
          → Sound (retry_decided row o now db).1.attempts
      decided row none e = s
      decided row (some d) e =
          enqueue_retry-Sound row d now db
            (λ k.
              retry_row-within db.attempts row cause d k now
                (decide-IsAllowed db.attempts row cause d e))
            s

      found : (o : Option TaskResult) → Sound (retry_found o cause now db).1.attempts
      found none = s
      found (some row) = decided row (decide db.attempts row cause) refl
