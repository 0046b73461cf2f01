-- ===== src/Approval/Decided.antt =====
-- When `decide` of `application/use_cases/manage_approval.py` goes through, and when it is refused.
use issue_to_pr_agent.Prelude.{
  not-false, ℕ, ◌≡◌, refl, String, Bool, true, false, not, Option, none, some, List, ok, ok_parts,
  ok_injective, raise_if, approval_error, ErrorKind, ap,
}
use issue_to_pr_agent.Domain.Json.{Dict, get, dict_value}
use issue_to_pr_agent.Domain.Approvals.{
  ApprovalStatus, pending, approved, rejected, ApprovalReviewerDecision, ApprovalRecord, is_pending,
}
use issue_to_pr_agent.Approval.Payload.{
  read_decisions, existing_decisions, has_reviewed, approval_is_expired,
}
use issue_to_pr_agent.Approval.Context.{ApprovalPolicy}
use issue_to_pr_agent.Approval.Workflow.{
  ApprovalWorkflowResult, persist_approval, decided_receipt, review_request, approval_or_raise,
  Review, made_decision, decide,
}
use issue_to_pr_agent.Repository.{Repository, get_approval}

-- What `decide` writes and returns for a stored approval.
abbrev pub decision_outcome :
    ℕ
    → Review
    → ApprovalRecord × Dict
    → List ApprovalReviewerDecision
    → Repository
    → Repository × ApprovalWorkflowResult
decision_outcome now v row before repo =
    persist_approval row.0.created_at now (decided_receipt row.0 row.1 before (made_decision now v))
      row.0.receipt_path (dict_value (get "policy_snapshot" row.1)) repo

-- What makes a decision go through, and what it stores.
pub record Decided (policy : ApprovalPolicy) (checked_at now : ℕ) (v : Review) (repo : Repository)
    (end : Repository × ApprovalWorkflowResult) : Type 0 where
  pub row : ApprovalRecord × Dict
  pub before : List ApprovalReviewerDecision
  pub found : get_approval v.approval_id repo ≡ some row
  pub open_status : row.0.status ≡ pending
  pub in_time : approval_is_expired row.1 checked_at ≡ false
  pub permitted :
      policy.ensure_reviewer_can_decide (review_request row.0 row.1 v.actor v.team) ≡ ok tt
  pub first_time : has_reviewed v.actor (existing_decisions row.1) ≡ false
  pub read : read_decisions (existing_decisions row.1) ≡ ok before
  pub stored : decision_outcome now v row before repo ≡ end

pub raise_if-passes :
    (test : Bool) (kind : ErrorKind) (message : String)
    → raise_if test kind message ≡ ok tt
    → test ≡ false
raise_if-passes true kind message h = cc
raise_if-passes false kind message h = refl

is_pending-status : (s : ApprovalStatus) → is_pending s ≡ true → s ≡ pending
is_pending-status pending h = refl
is_pending-status approved h = cc
is_pending-status rejected h = cc

approval_or_raise-found :
    (id : String) (found : Option (ApprovalRecord × Dict)) (row : ApprovalRecord × Dict)
    → approval_or_raise id found ≡ ok row
    → found ≡ some row
approval_or_raise-found id none row h = cc
approval_or_raise-found id (some r) row h = ap some (ok_injective h)

pub decide-Decided :
    (policy : ApprovalPolicy) (checked_at now : ℕ) (v : Review) (repo : Repository)
    (end : Repository × ApprovalWorkflowResult)
    → decide policy checked_at now v repo ≡ ok end
    → Decided policy checked_at now v repo end
unfolding decide
decide-Decided policy checked_at now v repo end h =
    let (row, found, h1) =
      ok_parts (approval_or_raise v.approval_id (get_approval v.approval_id repo)) _ h in
    let (_, opened, h2) =
      ok_parts (raise_if (not (is_pending row.0.status)) approval_error _) _ h1 in
    let (_, timely, h3) =
      ok_parts (raise_if (approval_is_expired row.1 checked_at) approval_error _) _ h2 in
    let (_, permitted, h4) =
      ok_parts (policy.ensure_reviewer_can_decide (review_request row.0 row.1 v.actor v.team)) _
        h3 in
    let (_, first_time, h5) =
      ok_parts (raise_if (has_reviewed v.actor (existing_decisions row.1)) approval_error _) _ h4 in
    let (before, read, h6) = ok_parts (read_decisions (existing_decisions row.1)) _ h5 in
    record {
      row = row;
      before = before;
      found = approval_or_raise-found v.approval_id _ row found;
      open_status =
          is_pending-status row.0.status (not-false _ (raise_if-passes _ approval_error _ opened));
      in_time = raise_if-passes _ approval_error _ timely;
      permitted = permitted;
      first_time = raise_if-passes _ approval_error _ first_time;
      read = read;
      stored = ok_injective h6;
    }

pub Decided-decide :
    (policy : ApprovalPolicy) (checked_at now : ℕ) (v : Review) (repo : Repository)
    (end : Repository × ApprovalWorkflowResult)
    → Decided policy checked_at now v repo end
    → decide policy checked_at now v repo ≡ ok end
unfolding decide
Decided-decide policy checked_at now v repo end d =
    rw (d.found, d.open_status, d.in_time, d.permitted, d.first_time, d.read, d.stored)
