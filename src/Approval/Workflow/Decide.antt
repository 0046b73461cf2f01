-- ===== src/Approval/Workflow/Decide.antt =====
-- `decide` of `application/use_cases/manage_approval.py`.
use issue_to_pr_agent.Prelude.{
  ℕ, String, not, Option, none, some, List, [], ◌∷◌, ◌++◌, count, leb, if◌then◌else◌, is_empty,
  format, Result, ok, raise, raise_if, value_error, approval_error, ◌>>=◌, ◌>>◌,
}
use issue_to_pr_agent.Domain.Json.{string_list, Dict, time, dict_value, get}
use issue_to_pr_agent.Domain.Approvals.{
  ApprovalStatus, pending, approved, rejected, ApprovalDecision, approve, reject,
  ApprovalReviewerDecision, ApprovalReceipt, ApprovalRecord, approval_status_value, is_approve,
  is_pending,
}
use issue_to_pr_agent.Approval.Payload.{
  text_at, read_decisions, existing_decisions, has_reviewed, expires_at_of, approval_is_expired,
}
use issue_to_pr_agent.Approval.Context.{ApprovalPolicy, ReviewRequest}
use issue_to_pr_agent.Repository.{Repository, get_approval}
use issue_to_pr_agent.Approval.Workflow.Persist.{
  ApprovalWorkflowResult, persist_approval, status_summary,
}

-- `a or b` of two texts.
abbrev pub text_or_else : String → String → String
text_or_else a b = if is_empty a then b else a

abbrev pub approvals_among : List ApprovalReviewerDecision → ℕ
approvals_among decisions = count (λ d. is_approve d.decision) decisions

-- `status`, for the new decision, the number of approvals and the number that is required.
abbrev pub decided_status : ApprovalDecision → ℕ → ℕ → ApprovalStatus
decided_status reject approvals required = rejected
decided_status approve approvals required = if leb required approvals then approved else pending

abbrev pub decided_message : ApprovalDecision → String → String → Option String
decided_message reject actor comment =
    some (text_or_else comment (format ("Rejected by " ∷ actor ∷ "." ∷ [])))
decided_message approve actor comment = none

-- `receipt` of a decision.
abbrev pub decided_receipt :
    ApprovalRecord
    → Dict
    → List ApprovalReviewerDecision
    → ApprovalReviewerDecision
    → ApprovalReceipt
decided_receipt r payload before decision =
    let decisions = before ++ decision ∷ [] in
    let approvals = approvals_among decisions in
    let status = decided_status decision.decision approvals r.required_approvals in
    record {
      approval_id = r.approval_id;
      action = r.action;
      linked_run_id = r.linked_run_id;
      linked_execution_id = r.linked_execution_id;
      linked_verification_id = r.linked_verification_id;
      repo_full_name = r.repo_full_name;
      status = status;
      risk_level = r.risk_level;
      requested_by = r.requested_by;
      requester_team = r.requester_team;
      request_comment = text_at "request_comment" payload;
      required_approvals = r.required_approvals;
      approved_count = approvals;
      expires_at = expires_at_of payload;
      required_reviewer_teams = string_list (get "required_reviewer_teams" payload);
      assigned_reviewers = string_list (get "assigned_reviewers" payload);
      assigned_reviewer_teams = string_list (get "assigned_reviewer_teams" payload);
      reasons = string_list (get "reasons" payload);
      blocked_reasons = string_list (get "blocked_reasons" payload);
      decisions = decisions;
      summary = status_summary status r.risk_level approvals r.required_approvals;
      error_message = decided_message decision.decision decision.actor decision.comment;
    }

abbrev pub review_request : ApprovalRecord → Dict → String → String → ReviewRequest
review_request r payload actor team = record {
  repo_full_name = r.repo_full_name;
  requested_by = r.requested_by;
  actor = actor;
  reviewer_team = team;
  required_reviewer_teams = string_list (get "required_reviewer_teams" payload);
  assigned_reviewers = string_list (get "assigned_reviewers" payload);
  assigned_reviewer_teams = string_list (get "assigned_reviewer_teams" payload);
}

abbrev pub approval_or_raise :
    String → Option (ApprovalRecord × Dict) → Result (ApprovalRecord × Dict)
approval_or_raise id none = raise value_error (format ("Approval not found: " ∷ id ∷ []))
approval_or_raise id (some row) = ok row

-- The arguments of a decision.
pub record Review : Type 0 where
  pub approval_id : String
  pub actor : String
  pub team : String
  pub decision : ApprovalDecision
  pub comment : String

-- `reviewer_decision`
abbrev pub made_decision : ℕ → Review → ApprovalReviewerDecision
made_decision now v = record {
  actor = v.actor;
  team = v.team;
  decision = v.decision;
  comment = v.comment;
  decided_at = time now;
}

-- `decide`; the clock is read for the expiry and for the decision.
unfoldable pub decide :
    ApprovalPolicy
    → (checked_at now : ℕ) → Review
    → Repository
    → Result (Repository × ApprovalWorkflowResult)
unfolding persist_approval
decide policy checked_at now v repo = do
  row ← approval_or_raise v.approval_id (get_approval v.approval_id repo)
  raise_if (not (is_pending row.0.status)) approval_error (
      format (
        "Approval "
        ∷ v.approval_id
        ∷ " is already in a final state: "
        ∷ approval_status_value row.0.status
        ∷ "."
        ∷ []))
  raise_if (approval_is_expired row.1 checked_at) approval_error
      (format ("Approval " ∷ v.approval_id ∷ " has expired and can no longer be reviewed." ∷ []))
  policy.ensure_reviewer_can_decide (review_request row.0 row.1 v.actor v.team)
  raise_if (has_reviewed v.actor (existing_decisions row.1)) approval_error
      (format ("Actor '" ∷ v.actor ∷ "' has already reviewed approval " ∷ v.approval_id ∷ "." ∷ []))
  before ← read_decisions (existing_decisions row.1)
  ok (
      persist_approval row.0.created_at now
        (decided_receipt row.0 row.1 before (made_decision now v)) row.0.receipt_path
        (dict_value (get "policy_snapshot" row.1)) repo)
