-- ===== src/Approvals/History.antt =====
-- What a decision outlives.
use cwstation.Prelude.{
  ℕ, Bool, true, false, ◌&&◌, Option, none, some, List, [], ◌∷◌, String, Bool-cases, inl, inr,
  get_elem?-append, if◌then◌else◌,
}
use cwstation.Approvals.Model.{
  approved, rejected, canceled, ApprovalRequest, Actor, Site, ApprovalDb, is_pending, is_overdue,
}
use cwstation.Approvals.Permissions.{can_decide, can_cancel}
use cwstation.Approvals.Services.{
  Reply, done, not_pending, claim, as_expired, as_decided, conclude, decide, cancel, count_claim,
  expire_all, mark_expired, over_cap, is_unknown, request_approval,
}
use cwstation.Approvals.Race.{Settled, claim-Settled, finish-Settled, conclude-Settled}

module _ ⦃site : Site⦄ where
  decide-Settled :
      (req : ApprovalRequest) (actor : Actor) (approve : Bool) (note : String) (now : ℕ)
      (db : ApprovalDb) (i : ℕ) (r : ApprovalRequest)
      → Settled i r db
      → Settled i r (decide req actor approve note now db).1
  unfolding decide
  decide-Settled req actor approve note now db i r s = elim (Bool-cases site.approvals_enabled) [
    | inr e ↦ simp e s
    | inl e ↦ simp e (elim (Bool-cases (is_overdue now req)) [
      | inl g ↦ rw g (claimed (as_expired now) not_pending)
      | inr g ↦ rw g (elim (Bool-cases (is_pending req.status)) [
        | inr h ↦ rw h s
        | inl h ↦ rw h (elim (Bool-cases (can_decide actor req db)) [
          | inr j ↦ rw j s
          | inl j ↦
              rw j
                (claimed (as_decided (if approve then approved else rejected) actor now note) done)
        ])
      ])
    ])
  ]
    where
      claimed :
          (f : ApprovalRequest → ApprovalRequest) (reply : Reply)
          → Settled i r (conclude req.id reply (claim req.id f db)).1
      claimed f reply =
          conclude-Settled req.id reply (claim req.id f db) i r (claim-Settled req.id f db i r s)

  cancel-Settled :
      (req : ApprovalRequest) (actor : Actor) (note : String) (now : ℕ) (db : ApprovalDb) (i : ℕ)
      (r : ApprovalRequest)
      → Settled i r db
      → Settled i r (cancel req actor note now db).1
  unfolding cancel
  cancel-Settled req actor note now db i r s =
      let f = as_decided canceled actor now note in
      elim (Bool-cases site.approvals_enabled) [
        | inr e ↦ simp e s
        | inl e ↦ simp e (elim (Bool-cases (can_cancel actor req)) [
          | inr j ↦ rw j s
          | inl j ↦ rw j (
              conclude-Settled req.id done (claim req.id f db) i r
                (claim-Settled req.id f db i r s))
        ])
      ]

  expire_all-Settled :
      (ks : List ℕ) (now : ℕ) (m : ℕ × ApprovalDb) (i : ℕ) (r : ApprovalRequest)
      → Settled i r m.1
      → Settled i r (expire_all now ks m).1
  unfolding expire_all
  expire_all-Settled [] now (n, db) i r s = s
  expire_all-Settled (k ∷ ks) now (n, db) i r s =
      expire_all-Settled ks now (count_claim k (claim k (as_expired now) db) n) i r
        (counted (claim k (as_expired now) db) (claim-Settled k (as_expired now) db i r s))
    where
      counted : (m : Bool × ApprovalDb) → Settled i r m.1 → Settled i r (count_claim k m n).1
      counted (false, db1) t = t
      counted (true, db1) t = finish-Settled k db1 i r t

  mark_expired-Settled :
      (limit : Option ℕ) (now : ℕ) (db : ApprovalDb) (i : ℕ) (r : ApprovalRequest)
      → Settled i r db
      → Settled i r (mark_expired now limit db).1
  unfolding mark_expired
  mark_expired-Settled none now db i r s = expire_all-Settled _ now (0, db) i r s
  mark_expired-Settled (some limit) now db i r s = expire_all-Settled _ now (0, db) i r s

  request_approval-Settled :
      (k : ℕ) (kind : String) (actor : Actor) (assignees : List ℕ) (at within : Option ℕ)
      (known : Bool) (now : ℕ) (db : ApprovalDb) (i : ℕ) (r : ApprovalRequest)
      → Settled i r db
      → Settled i r (request_approval k kind actor assignees at within known now db).1
  unfolding request_approval
  request_approval-Settled k kind actor assignees at within known now db i r s =
      elim (Bool-cases site.approvals_enabled) [
        | inr e ↦ simp e s
        | inl e ↦ simp e (elim (Bool-cases (over_cap kind actor now db)) [
          | inl g ↦ simp g s
          | inr g ↦ simp g (elim (Bool-cases (known && is_unknown (site.get_kind kind))) [
            | inl h ↦ simp h s
            | inr h ↦ simp h (record {
              row = s.row;
              stands = get_elem?-append db.requests _ i s.row s.stands;
              over = s.over;
              same_verdict = s.same_verdict;
            })
          ])
        ])
      ]

  -- One call of a service, by anyone, with any copy of a request.
  pub data ServiceStep : ApprovalDb → ApprovalDb → Type 0 where
    filed :
        {db : ApprovalDb} (k : ℕ) (kind : String) (actor : Actor) (assignees : List ℕ)
        (at within : Option ℕ) (known : Bool) (now : ℕ)
        → ServiceStep db (request_approval k kind actor assignees at within known now db).1
    decided :
        {db : ApprovalDb} (req : ApprovalRequest) (actor : Actor) (approve : Bool) (note : String)
        (now : ℕ)
        → ServiceStep db (decide req actor approve note now db).1
    withdrawn :
        {db : ApprovalDb} (req : ApprovalRequest) (actor : Actor) (note : String) (now : ℕ)
        → ServiceStep db (cancel req actor note now db).1
    swept :
        {db : ApprovalDb} (limit : Option ℕ) (now : ℕ)
        → ServiceStep db (mark_expired now limit db).1

  pub data ServiceSteps : ApprovalDb → ApprovalDb → Type 0 where
    rest : {db : ApprovalDb} → ServiceSteps db db
    next :
        {db db1 db2 : ApprovalDb} → ServiceStep db db1 → ServiceSteps db1 db2 → ServiceSteps db db2

  ServiceStep-Settled :
      {db db1 : ApprovalDb} (i : ℕ) (r : ApprovalRequest)
      → ServiceStep db db1
      → Settled i r db
      → Settled i r db1
  ServiceStep-Settled i r (filed k kind actor assignees at within known now) s =
      request_approval-Settled k kind actor assignees at within known now _ i r s
  ServiceStep-Settled i r (decided req actor approve note now) s =
      decide-Settled req actor approve note now _ i r s
  ServiceStep-Settled i r (withdrawn req actor note now) s =
      cancel-Settled req actor note now _ i r s
  ServiceStep-Settled i r (swept limit now) s = mark_expired-Settled limit now _ i r s

  -- A request that is no longer pending never changes its verdict: whatever services are called after
  -- that, in any order and with copies of any age, its status, who decided it, when, and the note stay
  -- what they were.
  pub ServiceSteps-Settled :
      {db db1 : ApprovalDb} (i : ℕ) (r : ApprovalRequest)
      → ServiceSteps db db1
      → Settled i r db
      → Settled i r db1
  ServiceSteps-Settled i r rest s = s
  ServiceSteps-Settled i r (next step more) s =
      ServiceSteps-Settled i r more (ServiceStep-Settled i r step s)
