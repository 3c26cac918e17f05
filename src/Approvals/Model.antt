-- ===== src/Approvals/Model.antt =====
-- apps/approvals/models.py, and what the app asks of its settings and of the registry of kinds. Users
-- and requests are numbers, times are seconds; titles, context and target are left out.
use cwstation.Prelude.{
  ℕ, ◌≡◌, arith, Bool, true, false, ◌&&◌, ◌||◌, not, Option, none, some, List, String, leb,
}

pub data ApprovalStatus : Type 0 where
  pending approved rejected canceled expired : ApprovalStatus

-- `callback_error` says whether a failure of the callback was stored.
pub record ApprovalRequest : Type 0 where
  pub id : ℕ
  pub kind : String
  pub requested_by : Option ℕ
  pub assignees : List ℕ
  pub status : ApprovalStatus
  pub decided_by : Option ℕ
  pub decided_at : Option ℕ
  pub decision_note : String
  pub expires_at : Option ℕ
  pub callback_error : Bool

-- A user, or a visitor with no primary key.
pub record Actor : Type 0 where
  pub pk : Option ℕ
  pub active : Bool
  pub staff : Bool

-- A registered kind. The hook and the callback may raise: `none`, and false.
pub record Kind : Type 0 where
  pub default_expires_in : Option ℕ
  pub can_decide_hook : Option (Actor → ApprovalRequest → Option Bool)
  pub on_decision : Option (ApprovalRequest → Bool)

pub record Site : Type 0 where
  pub approvals_enabled : Bool
  pub max_pending : ℕ
  pub default_expires_minutes : ℕ
  pub allow_self_approve : Bool
  pub staff_override : Bool
  pub get_kind : String → Option Kind

-- The table, and the requests that `approval_decided` was sent for, the newest first.
pub record ApprovalDb : Type 0 where
  pub requests : List ApprovalRequest
  pub decisions : List ℕ

abbrev pub is_pending : ApprovalStatus → Bool
is_pending pending = true
is_pending _ = false

-- `expires_at and expires_at <= now`
abbrev pub is_past : Option ℕ → ℕ → Bool
is_past none now = false
is_past (some t) now = leb t now

-- ApprovalRequest.is_overdue, and the row test of the queryset's `overdue`
abbrev pub is_overdue : ℕ → ApprovalRequest → Bool
is_overdue now r = is_pending r.status && is_past r.expires_at now

-- The row test of the queryset's `actionable`
abbrev pub is_actionable : ℕ → ApprovalRequest → Bool
is_actionable now r = is_pending r.status && not (is_past r.expires_at now)

abbrev pub status_eq : ApprovalStatus → ApprovalStatus → Bool
status_eq pending pending = true
status_eq approved approved = true
status_eq rejected rejected = true
status_eq canceled canceled = true
status_eq expired expired = true
status_eq _ _ = false

-- ApprovalRequest.effective_status
unfoldable pub effective_status : ℕ → ApprovalRequest → ApprovalStatus
effective_status now r = elim (is_overdue now r) [ true ↦ expired | false ↦ r.status ]

-- The row test of the queryset's `for_effective_status`
unfoldable pub has_effective_status : ApprovalStatus → ℕ → ApprovalRequest → Bool
has_effective_status pending now r = is_actionable now r
has_effective_status expired now r = status_eq r.status expired || is_overdue now r
has_effective_status approved now r = status_eq r.status approved
has_effective_status rejected now r = status_eq r.status rejected
has_effective_status canceled now r = status_eq r.status canceled

-- The queryset and the property agree: a row is listed under a status exactly when that is the status
-- that it is shown with.
pub has_effective_status-effective_status :
    (value : ApprovalStatus) (now : ℕ) (r : ApprovalRequest)
    → has_effective_status value now r ≡ status_eq (effective_status now r) value
unfolding has_effective_status effective_status
has_effective_status-effective_status pending now r = ground arith
has_effective_status-effective_status approved now r = ground arith
has_effective_status-effective_status rejected now r = ground arith
has_effective_status-effective_status canceled now r = ground arith
has_effective_status-effective_status expired now r = ground arith
