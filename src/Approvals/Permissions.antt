-- ===== src/Approvals/Permissions.antt =====
-- apps/approvals/permissions.py
use cwstation.Prelude.{
  ℕ, Bool, true, false, ◌&&◌, ◌||◌, not, Option, none, some, List, [], ◌==◌, any_where, find_first,
  if◌then◌else◌,
}
use cwstation.Approvals.Model.{ApprovalRequest, Actor, Kind, Site, ApprovalDb, is_pending}

-- `_pk`
unfoldable pub acting_pk : Actor → Option ℕ
acting_pk user = if user.active then user.pk else none

unfoldable pub is_staff : Actor → Bool
is_staff user = user.staff && user.active

abbrev pub mem_id : ℕ → List ℕ → Bool
mem_id k ids = any_where (λ j. j == k) ids

abbrev pub is_user : Option ℕ → ℕ → Bool
is_user none k = false
is_user (some j) k = j == k

abbrev assignees_in : Option ApprovalRequest → List ℕ
assignees_in none = []
assignees_in (some row) = row.assignees

-- What `req.assignees` finds in the database, whatever the age of the copy `req`.
abbrev pub assignees_of : ℕ → ApprovalDb → List ℕ
assignees_of k db = assignees_in (find_first (λ (r : ApprovalRequest). r.id == k) db.requests)

abbrev pub has_any : List ℕ → Bool
has_any [] = false
has_any _ = true

abbrev can_view_as : Option ℕ → Actor → ApprovalRequest → ApprovalDb → Bool
can_view_as none user req db = false
can_view_as (some pk) user req db =
    is_staff user || (is_user req.requested_by pk || mem_id pk (assignees_of req.id db))

unfoldable pub can_view : Actor → ApprovalRequest → ApprovalDb → Bool
can_view user req db = can_view_as (acting_pk user) user req db

abbrev can_cancel_as : Option ℕ → Actor → ApprovalRequest → Bool
can_cancel_as none user req = false
can_cancel_as (some pk) user req =
    is_pending req.status && (is_user req.requested_by pk || is_staff user)

unfoldable pub can_cancel : Actor → ApprovalRequest → Bool
can_cancel user req = can_cancel_as (acting_pk user) user req

-- A hook that raises fails closed.
abbrev hook_allows : Option Kind → Actor → ApprovalRequest → Bool
hook_allows none user req = true
hook_allows (some kind) user req = elim kind.can_decide_hook [
  | none ↦ true
  | some hook ↦ elim (hook user req) [ none ↦ false | some b ↦ b ]
]

module _ ⦃site : Site⦄ where
  abbrev pub is_eligible : ℕ → Actor → List ℕ → Bool
  is_eligible pk user assignees =
      if has_any assignees
      then mem_id pk assignees || (is_staff user && site.staff_override)
      else is_staff user

  abbrev pub can_decide_as : Option ℕ → Actor → ApprovalRequest → ApprovalDb → Bool
  can_decide_as none user req db = false
  can_decide_as (some pk) user req db =
      if not (is_pending req.status)
      then false
      else if is_user req.requested_by pk && not site.allow_self_approve
      then false
      else if not (is_eligible pk user (assignees_of req.id db))
      then false
      else hook_allows (site.get_kind req.kind) user req

  unfoldable pub can_decide : Actor → ApprovalRequest → ApprovalDb → Bool
  can_decide user req db = can_decide_as (acting_pk user) user req db
