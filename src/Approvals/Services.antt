-- ===== src/Approvals/Services.antt =====
-- apps/approvals/services.py. A `req` is the caller's copy of a row and may be out of date; the kind's
-- callback is taken to touch no approval row. Audit rows and log lines are left out.
use cwstation.Prelude.{
  ℕ, ◌+◌, ◌*◌, Bool, true, false, ◌&&◌, not, Option, none, some, List, [], ◌∷◌, ◌++◌, String, leb,
  ◌==◌, any_where, find_first, filter_where, update_where, count_where, take, map, if◌then◌else◌,
}
use text.Mathlib.Text.{◌==◌ as str_eq}
use cwstation.Approvals.Model.{
  ApprovalStatus, pending, approved, rejected, canceled, expired, ApprovalRequest, Actor, Kind,
  Site, ApprovalDb, is_pending, is_overdue, is_actionable,
}
use cwstation.Approvals.Permissions.{is_user, can_decide, can_cancel}

-- What a call ends in: the request, or one of the exceptions.
pub data Reply : Type 0 where
  done not_pending not_eligible unknown_kind too_many_pending approvals_disabled : Reply

abbrev pub is_open : ℕ → ApprovalRequest → Bool
is_open k r = r.id == k && is_pending r.status

-- `_claim`: the conditional UPDATE; the flag is false where it raises NotPending.
unfoldable pub claim : ℕ → (ApprovalRequest → ApprovalRequest) → ApprovalDb → Bool × ApprovalDb
claim k f db = (
  any_where (is_open k) db.requests,
  record db { requests = update_where (is_open k) f db.requests },
)

abbrev pub as_expired : ℕ → ApprovalRequest → ApprovalRequest
as_expired now r = record r { status = expired; decided_at = some now }

abbrev pub as_decided : ApprovalStatus → Actor → ℕ → String → ApprovalRequest → ApprovalRequest
as_decided status actor now note r = record r {
  status = status;
  decided_by = actor.pk;
  decided_at = some now;
  decision_note = note;
}

abbrev pub with_error : ApprovalRequest → ApprovalRequest
with_error r = record r { callback_error = true }

abbrev expires : ApprovalRequest → ℕ
expires r = elim r.expires_at [ none ↦ 0 | some t ↦ t ]

-- Ascending by `expires_at`, equal keys in the table's order.
insert_expiring : ApprovalRequest → List ApprovalRequest → List ApprovalRequest
insert_expiring r [] = r ∷ []
insert_expiring r (s ∷ rest) =
    let later = insert_expiring r rest in
    if leb (expires r) (expires s) then r ∷ s ∷ rest else s ∷ later

order_expiring : List ApprovalRequest → List ApprovalRequest
order_expiring [] = []
order_expiring (r ∷ rest) = insert_expiring r (order_expiring rest)

-- The query of `mark_expired` over all rows.
unfoldable pub overdue_ids : ℕ → ApprovalDb → List ℕ
unfolding order_expiring insert_expiring
overdue_ids now db =
    map (λ (r : ApprovalRequest). r.id) (order_expiring (filter_where (is_overdue now) db.requests))

module _ ⦃site : Site⦄ where
  -- Whether the callback of a row's kind raises.
  abbrev pub callback_fails : Option ApprovalRequest → Bool
  callback_fails none = false
  callback_fails (some r) = elim (site.get_kind r.kind) [
    | none ↦ false
    | some kind ↦ elim kind.on_decision [ none ↦ false | some callback ↦ not (callback r) ]
  ]

  -- `_run_callback`
  unfoldable pub run_callback : ℕ → ApprovalDb → ApprovalDb
  run_callback k db =
      if callback_fails (find_first (λ (r : ApprovalRequest). r.id == k) db.requests)
      then record db {
        requests = update_where (λ (r : ApprovalRequest). r.id == k) with_error db.requests;
      }
      else db

  -- `_finish`: the fields that it saves again are those that were just read.
  unfoldable pub finish : ℕ → ApprovalDb → ApprovalDb
  finish k db = let db1 = run_callback k db in record db1 { decisions = k ∷ db1.decisions }

  -- A claim and what follows it.
  abbrev pub conclude : ℕ → Reply → Bool × ApprovalDb → Reply × ApprovalDb
  conclude k reply (false, db) = (not_pending, db)
  conclude k reply (true, db) = (reply, finish k db)

  unfoldable pub decide :
      ApprovalRequest → Actor → Bool → String → ℕ → ApprovalDb → Reply × ApprovalDb
  decide req actor approve note now db =
      if not site.approvals_enabled
      then (approvals_disabled, db)
      else if is_overdue now req
      then conclude req.id not_pending (claim req.id (as_expired now) db)
      else if not (is_pending req.status)
      then (not_pending, db)
      else if not (can_decide actor req db)
      then (not_eligible, db)
      else conclude req.id done
          (claim req.id (as_decided (if approve then approved else rejected) actor now note) db)

  unfoldable pub cancel : ApprovalRequest → Actor → String → ℕ → ApprovalDb → Reply × ApprovalDb
  cancel req actor note now db =
      if not site.approvals_enabled
      then (approvals_disabled, db)
      else if not (can_cancel actor req)
      then (not_eligible, db)
      else conclude req.id done (claim req.id (as_decided canceled actor now note) db)

  -- The loop of `mark_expired`, and what it counts.
  abbrev pub count_claim : ℕ → Bool × ApprovalDb → ℕ → ℕ × ApprovalDb
  count_claim k (false, db) n = (n, db)
  count_claim k (true, db) n = (n + 1, finish k db)

  unfoldable pub expire_all : ℕ → List ℕ → ℕ × ApprovalDb → ℕ × ApprovalDb
  expire_all now [] (n, db) = (n, db)
  expire_all now (k ∷ ks) (n, db) =
      expire_all now ks (count_claim k (claim k (as_expired now) db) n)

  unfoldable pub mark_expired : ℕ → Option ℕ → ApprovalDb → ℕ × ApprovalDb
  mark_expired now none db = expire_all now (overdue_ids now db) (0, db)
  mark_expired now (some limit) db = expire_all now (take limit (overdue_ids now db)) (0, db)

  -- `_check_pending_cap`
  unfoldable pub over_cap : String → Actor → ℕ → ApprovalDb → Bool
  over_cap kind actor now db = elim actor.pk [
    | none ↦ false
    | some pk ↦
        not (site.max_pending == 0)
        && leb site.max_pending (
            count_where
              (λ (r : ApprovalRequest).
                is_actionable now r && (is_user r.requested_by pk && str_eq r.kind kind))
              db.requests)
  ]

  abbrev kind_default : Option Kind → Option ℕ
  kind_default none = none
  kind_default (some kind) = kind.default_expires_in

  abbrev site_default : Option ℕ → Option ℕ
  site_default (some t) = some t
  site_default none =
      if site.default_expires_minutes == 0 then none else some (site.default_expires_minutes * 60)

  abbrev from_now : ℕ → Option ℕ → Option ℕ
  from_now now none = none
  from_now now (some t) = some (now + t)

  -- The precedence of the expiry.
  unfoldable pub expiry : String → Option ℕ → Option ℕ → ℕ → Option ℕ
  expiry kind (some at) within now = some at
  expiry kind none (some t) now = some (now + t)
  expiry kind none none now = from_now now (site_default (kind_default (site.get_kind kind)))

  abbrev pub is_unknown : Option Kind → Bool
  is_unknown none = true
  is_unknown (some _) = false

  unfoldable pub request_approval :
      ℕ → String → Actor → List ℕ → Option ℕ → Option ℕ → Bool → ℕ → ApprovalDb → Reply × ApprovalDb
  request_approval k kind actor assignees expires_at expires_in require_known_kind now db =
      if not site.approvals_enabled
      then (approvals_disabled, db)
      else if over_cap kind actor now db
      then (too_many_pending, db)
      else if require_known_kind && is_unknown (site.get_kind kind)
      then (unknown_kind, db)
      else (
        done,
        record db {
          requests =
              db.requests
              ++ record {
                id = k;
                kind = kind;
                requested_by = actor.pk;
                assignees = assignees;
                status = pending;
                decided_by = none;
                decided_at = none;
                decision_note = "";
                expires_at = expiry kind expires_at expires_in now;
                callback_error = false;
              }
                ∷ [];
        },
      )
