-- ===== src/Approvals/Race.antt =====
-- Decisions are made once, and only by those who may make them.
use cwstation.Prelude.{
  ℕ, List, [], ◌∷◌, ◌≡◌, ◌⊎◌, refl, Bool, true, false, ◌&&◌, ◌||◌, not, Option, none, some, String,
  ◌==◌, arith, Bool-cases, inl, inr, any_where, find_first, update_where, if◌then◌else◌, get_elem?,
  get_elem?-update_where, get_elem?-update_where-hit, any_where-update_where, any_where-cleared,
}
use cwstation.Approvals.Model.{
  ApprovalStatus, approved, rejected, ApprovalRequest, Actor, Site, ApprovalDb, is_pending,
}
use cwstation.Approvals.Permissions.{
  is_user, acting_pk, is_staff, has_any, assignees_of, is_eligible, can_decide, can_decide_as,
}
use cwstation.Approvals.Services.{
  Reply, done, not_pending, is_open, claim, as_expired, as_decided, with_error, callback_fails,
  run_callback, finish, conclude, decide,
}

abbrev pub is_done : Reply → Bool
is_done done = true
is_done _ = false

-- No pending row has the id.
abbrev pub Closed : ℕ → ApprovalDb → Type 0
Closed k db = any_where (is_open k) db.requests ≡ false

claim-Closed :
    (k : ℕ) (f : ApprovalRequest → ApprovalRequest) (db : ApprovalDb)
    → ((r : ApprovalRequest) → is_pending (f r).status ≡ false)
    → Closed k (claim k f db).1
unfolding claim
claim-Closed k f db over = any_where-cleared (is_open k) f (λ r. ground (arith, over r)) db.requests

-- A request that was decided: the columns that hold the decision.
abbrev pub verdict : ApprovalRequest → ApprovalStatus × Option ℕ × Option ℕ × String
verdict r = (r.status, r.decided_by, r.decided_at, r.decision_note)

pub record Settled (i : ℕ) (r : ApprovalRequest) (db : ApprovalDb) : Type 0 where
  pub row : ApprovalRequest
  pub stands : get_elem? db.requests i ≡ some row
  pub over : is_pending row.status ≡ false
  pub same_verdict : verdict row ≡ verdict r

pub claim-Settled :
    (k : ℕ) (f : ApprovalRequest → ApprovalRequest) (db : ApprovalDb) (i : ℕ) (r : ApprovalRequest)
    → Settled i r db
    → Settled i r (claim k f db).1
unfolding claim
claim-Settled k f db i r s = record {
  row = s.row;
  stands =
      get_elem?-update_where (is_open k) f db.requests i s.row s.stands (ground (arith, s.over));
  over = s.over;
  same_verdict = s.same_verdict;
}

decided_over : (b : Bool) → is_pending (if b then approved else rejected) ≡ false
decided_over true = refl
decided_over false = refl

module _ ⦃site : Site⦄ where
  finish-Closed : (j k : ℕ) (db : ApprovalDb) → Closed k db → Closed k (finish j db)
  unfolding finish run_callback
  finish-Closed j k db c =
      elim (Bool-cases
        (callback_fails (find_first (λ (r : ApprovalRequest). r.id == j) db.requests))) [
          | inl e ↦
              rw
                (
                  e,
                  any_where-update_where (is_open k) (λ (r : ApprovalRequest). r.id == j) with_error
                      (λ r. refl) db.requests,
                )
                c
          | inr e ↦ rw e c
        ]

  run_callback-Settled :
      (k : ℕ) (db : ApprovalDb) (i : ℕ) (r : ApprovalRequest)
      → Settled i r db
      → Settled i r (run_callback k db)
  unfolding run_callback
  run_callback-Settled k db i r s =
      elim (Bool-cases
        (callback_fails (find_first (λ (x : ApprovalRequest). x.id == k) db.requests))) [
          | inl e ↦ rw e (noted (Bool-cases (s.row.id == k)))
          | inr e ↦ rw e s
        ]
    where
      failed : ApprovalDb
      failed = record db {
        requests = update_where (λ (x : ApprovalRequest). x.id == k) with_error db.requests;
      }

      noted : ((s.row.id == k) ≡ true) ⊎ ((s.row.id == k) ≡ false) → Settled i r failed
      noted (inl f) = record {
        row = with_error s.row;
        stands =
            get_elem?-update_where-hit (λ (x : ApprovalRequest). x.id == k) with_error db.requests i
              s.row s.stands f;
        over = s.over;
        same_verdict = s.same_verdict;
      }
      noted (inr f) = record {
        row = s.row;
        stands =
            get_elem?-update_where (λ (x : ApprovalRequest). x.id == k) with_error db.requests i
              s.row s.stands f;
        over = s.over;
        same_verdict = s.same_verdict;
      }

  pub finish-Settled :
      (k : ℕ) (db : ApprovalDb) (i : ℕ) (r : ApprovalRequest)
      → Settled i r db
      → Settled i r (finish k db)
  unfolding finish
  finish-Settled k db i r s =
      let t = run_callback-Settled k db i r s in
      record { row = t.row; stands = t.stands; over = t.over; same_verdict = t.same_verdict }

  pub conclude-Settled :
      (k : ℕ) (reply : Reply) (m : Bool × ApprovalDb) (i : ℕ) (r : ApprovalRequest)
      → Settled i r m.1
      → Settled i r (conclude k reply m).1
  conclude-Settled k reply (false, db) i r s = s
  conclude-Settled k reply (true, db) i r s = finish-Settled k db i r s

  conclude-Closed :
      (k : ℕ) (reply : Reply) (m : Bool × ApprovalDb)
      → Closed k m.1
      → Closed k (conclude k reply m).1
  conclude-Closed k reply (false, db) c = c
  conclude-Closed k reply (true, db) c = finish-Closed k k db c

  conclude-not_pending :
      (k : ℕ) (m : Bool × ApprovalDb) → is_done (conclude k not_pending m).0 ≡ false
  conclude-not_pending k (false, db) = refl
  conclude-not_pending k (true, db) = refl

  conclude-lost :
      (k : ℕ) (reply : Reply) (m : Bool × ApprovalDb)
      → m.0 ≡ false
      → is_done (conclude k reply m).0 ≡ false
  conclude-lost k reply (false, db) h = refl
  conclude-lost k reply (true, db) h = cc

  decide-Closed :
      (req : ApprovalRequest) (actor : Actor) (approve : Bool) (note : String) (now : ℕ)
      (db : ApprovalDb)
      → is_done (decide req actor approve note now db).0 ≡ true
      → Closed req.id (decide req actor approve note now db).1
  unfolding decide
  decide-Closed req actor approve note now db h =
      let f = as_decided (if approve then approved else rejected) actor now note in
      let late = claim req.id (as_expired now) db in
      ground (
        arith,
        conclude-not_pending req.id late,
        conclude-Closed req.id done (claim req.id f db)
            (claim-Closed req.id f db (λ r. decided_over approve)),
      )

  Closed-decide :
      (req : ApprovalRequest) (actor : Actor) (approve : Bool) (note : String) (now : ℕ)
      (db : ApprovalDb)
      → Closed req.id db
      → is_done (decide req actor approve note now db).0 ≡ false
  unfolding decide
  Closed-decide req actor approve note now db c =
      let f = as_decided (if approve then approved else rejected) actor now note in
      ground (
        arith,
        conclude-not_pending req.id (claim req.id (as_expired now) db),
        conclude-lost req.id done (claim req.id f db) (unfold claim in c),
      )

  -- Of two decisions on the same copy of a request exactly one can win: once `decide` has returned the
  -- request, another `decide` on that copy does not, whoever makes it and whatever it decides.
  pub decide-race :
      (req : ApprovalRequest) (actor actor1 : Actor) (approve approve1 : Bool) (note note1 : String)
      (now now1 : ℕ) (db : ApprovalDb)
      → is_done (decide req actor approve note now db).0 ≡ true
      → is_done (decide req actor1 approve1 note1 now1 (decide req actor approve note now db).1).0
        ≡ false
  decide-race req actor actor1 approve approve1 note note1 now now1 db won =
      Closed-decide req actor1 approve1 note1 now1 _
        (decide-Closed req actor approve note now db won)

  -- What a decision shows of the one who made it: the account is active, it is not the requester's
  -- own unless the site allows that, and it is an assignee of the stored request, or staff where the
  -- request names nobody or the site lets staff step in.
  pub record IsEntitled (actor : Actor) (req : ApprovalRequest) (db : ApprovalDb) : Type 0 where
    pub pk : ℕ
    pub account : actor.pk ≡ some pk
    pub active : actor.active ≡ true
    pub not_own : (is_user req.requested_by pk && not site.allow_self_approve) ≡ false
    pub trusted :
        (any_where (λ j. j == pk) (assignees_of req.id db)
          || (actor.staff && (not (has_any (assignees_of req.id db)) || site.staff_override)))
        ≡ true

  acting_pk-active :
      (actor : Actor) (pk : ℕ)
      → acting_pk actor ≡ some pk
      → (actor.pk ≡ some pk) × (actor.active ≡ true)
  unfolding acting_pk
  acting_pk-active actor pk e = ground arith

  trusted_way :
      (actor : Actor) (pk : ℕ) (assignees : List ℕ)
      → is_eligible pk actor assignees ≡ true
      → (any_where (λ j. j == pk) assignees
          || (actor.staff && (not (has_any assignees) || site.staff_override)))
        ≡ true
  unfolding is_staff
  trusted_way actor pk [] h = ground arith
  trusted_way actor pk (j ∷ assignees) h = ground arith

  can_decide-IsEntitled :
      (actor : Actor) (req : ApprovalRequest) (db : ApprovalDb)
      → can_decide actor req db ≡ true
      → IsEntitled actor req db
  unfolding can_decide
  can_decide-IsEntitled actor req db h = entitled (acting_pk actor) refl h
    where
      entitled :
          (o : Option ℕ)
          → acting_pk actor ≡ o
          → can_decide_as o actor req db ≡ true
          → IsEntitled actor req db
      entitled none e g = cc
      entitled (some pk) e g =
          let acts = acting_pk-active actor pk e in
          record {
            pk = pk;
            account = acts.0;
            active = acts.1;
            not_own = ground arith;
            trusted = trusted_way actor pk (assignees_of req.id db) (ground arith);
          }

  -- A request is decided only by an active account, which is an assignee of the stored request, or
  -- staff where the request names no assignee or the site lets staff step in; and never by the
  -- requester unless the site allows self-approval.
  pub decide-IsEntitled :
      (req : ApprovalRequest) (actor : Actor) (approve : Bool) (note : String) (now : ℕ)
      (db : ApprovalDb)
      → is_done (decide req actor approve note now db).0 ≡ true
      → IsEntitled actor req db
  unfolding decide
  decide-IsEntitled req actor approve note now db won =
      let late = claim req.id (as_expired now) db in
      can_decide-IsEntitled actor req db (ground (arith, conclude-not_pending req.id late))
