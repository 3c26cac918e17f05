-- ===== src/Approvals/Tests.antt =====
-- The theorems about approvals at concrete inputs.
use cwstation.Prelude.{ℕ, ◌≡◌, refl, true, false, none, some, [], ◌∷◌}
use cwstation.Approvals.Model.{pending, approved, ApprovalRequest, Actor, Site, ApprovalDb}
use cwstation.Approvals.Permissions.{acting_pk, is_staff, can_decide, can_cancel}
use cwstation.Approvals.Services.{
  claim, run_callback, finish, decide, cancel, expire_all, mark_expired, overdue_ids,
}
use cwstation.Approvals.Race.{is_done, Settled, decide-race, IsEntitled, decide-IsEntitled}
use cwstation.Approvals.History.{ServiceSteps, rest, next, withdrawn, swept, ServiceSteps-Settled}

abbrev site : Site
site = record {
  approvals_enabled = true;
  max_pending = 50;
  default_expires_minutes = 0;
  allow_self_approve = false;
  staff_override = true;
  get_kind = λ _. none;
}

abbrev staff_member : ℕ → Actor
staff_member k = record { pk = some k; active = true; staff = true }

abbrev a_request : ApprovalRequest
a_request = record {
  id = 1;
  kind = "calendar.publish";
  requested_by = some 7;
  assignees = [];
  status = pending;
  decided_by = none;
  decided_at = none;
  decision_note = "";
  expires_at = some 100;
  callback_error = false;
}

abbrev queue : ApprovalDb
queue = record { requests = a_request ∷ []; decisions = [] }

program : Unit {0}
unfolding acting_pk is_staff can_decide can_cancel claim run_callback finish decide cancel
    expire_all mark_expired overdue_ids
program = tt

won : is_done (decide ⦃site = site⦄ a_request (staff_member 8) true "" 50 queue).0 ≡ true
unfolding program
won = refl

abbrev after_first : ApprovalDb
after_first = (decide ⦃site = site⦄ a_request (staff_member 8) true "" 50 queue).1

decide-race_example :
    is_done (decide ⦃site = site⦄ a_request (staff_member 9) false "no" 51 after_first).0 ≡ false
decide-race_example =
    decide-race ⦃site = site⦄ a_request (staff_member 8) (staff_member 9) true false "" "no" 50 51
      queue won

decide-IsEntitled_example : IsEntitled ⦃site = site⦄ (staff_member 8) a_request queue
decide-IsEntitled_example =
    decide-IsEntitled ⦃site = site⦄ a_request (staff_member 8) true "" 50 queue won

abbrev approved_request : ApprovalRequest
approved_request = record a_request { status = approved; decided_by = some 8; decided_at = some 50 }

first-Settled : Settled 0 approved_request after_first
unfolding program
first-Settled = record { row = approved_request; stands = refl; over = refl; same_verdict = refl }

abbrev after_all : ApprovalDb
after_all =
    (mark_expired ⦃site = site⦄ 200 none
      (cancel ⦃site = site⦄ a_request (staff_member 7) "" 60 after_first).1).1

later : ServiceSteps ⦃site = site⦄ after_first after_all
later = next (withdrawn a_request (staff_member 7) "" 60) (next (swept none 200) rest)

ServiceSteps-Settled_example : Settled 0 approved_request after_all
ServiceSteps-Settled_example =
    ServiceSteps-Settled ⦃site = site⦄ 0 approved_request later first-Settled
