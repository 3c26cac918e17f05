-- ===== src/Tasks/Walks.antt =====
-- What `chain_outcome` reports of a chain of attempts.
use cwstation.Prelude.{
  ℕ, zero, suc, ◌+◌, ◌≤◌, ◌<◌, ◌≡◌, refl, sym, ap, ◌∙◌, Bool, true, false, Option, none, some, List,
  arith,
}
use cwstation.Tasks.Model.{TaskAttempt, child_of}
use cwstation.Tasks.Chain.{Walk, start_walk, visit, resume, follow, walk, max_chain}

-- The attempt that follows a walk's current one has a higher number.
abbrev pub IsAhead : List TaskAttempt → Walk → Type 0
IsAhead rows s = (a : TaskAttempt) → child_of s.current rows ≡ some a → s.attempt < a.attempt

-- Attempt numbers grow along every chain, and none exceeds the bound of the walk.
pub record IsForward (rows : List TaskAttempt) : Type 0 where
  pub grows :
      (a b : TaskAttempt) (k : ℕ)
      → child_of k rows ≡ some a
      → child_of a.result_id rows ≡ some b
      → a.attempt < b.attempt
  pub bounded : (a : TaskAttempt) (k : ℕ) → child_of k rows ≡ some a → a.attempt ≤ max_chain

-- Where `visit` goes on, it goes on at the child.
visit-advances :
    (rows : List TaskAttempt) (child : TaskAttempt) (s : Walk)
    → (visit rows child s).1 ≡ true
    → ((visit rows child s).0.current ≡ child.result_id)
      × ((visit rows child s).0.attempt ≡ child.attempt)
unfolding visit
visit-advances rows child s h = ground arith

resume-stops :
    (next : Walk → Walk × Bool) (child : TaskAttempt) (m : Walk × Bool)
    → (m.1 ≡ true → (m.0.current ≡ child.result_id) × (m.0.attempt ≡ child.attempt))
    → ((s : Walk) → s.current ≡ child.result_id → s.attempt ≡ child.attempt → (next s).1 ≡ true)
    → (resume next m).1 ≡ true
resume-stops next child (s, false) at goes = refl
resume-stops next child (s, true) at goes = goes s (at refl).0 (at refl).1

follow-stops :
    (next : Walk → Walk × Bool) (rows : List TaskAttempt) (s : Walk) (o : Option TaskAttempt)
    → ((child : TaskAttempt)
        → o ≡ some child
        → (s1 : Walk) → s1.current ≡ child.result_id
        → s1.attempt ≡ child.attempt
        → (next s1).1 ≡ true)
    → (follow next rows s o).1 ≡ true
follow-stops next rows s none goes = refl
follow-stops next rows s (some child) goes =
    resume-stops next child (visit rows child s) (visit-advances rows child s) (goes child refl)

walk_stops :
    (rounds : ℕ) (rows : List TaskAttempt) (s : Walk)
    → IsForward rows
    → IsAhead rows s
    → s.attempt ≤ max_chain
    → max_chain < s.attempt + rounds
    → (walk rounds rows s).1 ≡ true
unfolding walk
walk_stops zero rows s f ahead low enough = ground arith
walk_stops (suc rounds) rows s f ahead low enough =
    follow-stops (walk rounds rows) rows s (child_of s.current rows) (λ child e s1 c a.
      let grew = ahead child e in
      let bounded = f.bounded child s.current e in
      walk_stops rounds rows s1 f
        (λ b g.
          let found = ap (λ k. child_of k rows) (sym c) ∙ g in
          omega (arith, f.grows child b s.current e found, a))
        (omega (arith, a, bounded)) (omega (arith, a, grew, enough)))

-- Where attempt numbers grow along the chains, and none exceeds 1000, the loop of `chain_outcome`
-- reaches the end of the chain: its bound of 1000 rounds never cuts a walk short.
pub walk-finishes :
    (rows : List TaskAttempt) (result_id : ℕ)
    → IsForward rows
    → ((a : TaskAttempt) → child_of result_id rows ≡ some a → 1 < a.attempt)
    → (walk max_chain rows (start_walk result_id)).1 ≡ true
walk-finishes rows result_id f ahead =
    walk_stops max_chain rows (start_walk result_id) f ahead (omega arith) (omega arith)
