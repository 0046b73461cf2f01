-- ===== src/Approval/Workflow/Request.antt =====
-- `request_delivery_approval` of `application/use_cases/manage_approval.py`.
use issue_to_pr_agent.Prelude.{
  ℕ, ◌+◌, ◌*◌, String, Bool, true, false, not, Option, none, some, List, [], ◌∷◌, ◌++◌, map, filter,
  eqb, if◌then◌else◌, has_text, strip, format, join, Result, ok, raise_if, approval_error, ◌>>=◌,
  ◌>>◌,
}
use issue_to_pr_agent.Domain.Queue.{FilePath}
use issue_to_pr_agent.Domain.Approvals.{
  ApprovalStatus, pending, approved, rejected, delivery, ApprovalEvaluation, ApprovalReceipt,
  is_pending,
}
use issue_to_pr_agent.Queue.Process.{parent}
use issue_to_pr_agent.Approval.Context.{ApprovalPolicy, DeliveryContext, load_delivery_context}
use issue_to_pr_agent.Repository.{Repository}
use issue_to_pr_agent.Approval.Workflow.Persist.{ApprovalWorkflowResult, persist_approval}

abbrev hour : ℕ
hour = 3600000000

-- `_resolve_expires_at`; an hour in microseconds.
unfoldable pub resolve_expires_at : ℕ → Option ℕ → Result (Option ℕ)
resolve_expires_at created_at none = ok none
resolve_expires_at created_at (some hours) = do
  raise_if (eqb hours 0) approval_error "Approval expiry must be greater than zero hours."
  ok (some (created_at + hours * hour))

-- `_clean_string_list`
abbrev pub clean_strings : List String → List String
clean_strings items = map strip (filter has_text items)

abbrev pub no_strings : List String → Bool
no_strings [] = true
no_strings (s ∷ rest) = false

-- The keyword arguments of a request; an absent list is empty.
pub record RequestArguments : Type 0 where
  pub run_id : String
  pub execution_id : String
  pub verification_id : String
  pub actor : String
  pub team : String
  pub comment : String
  pub expires_in_hours : Option ℕ
  pub assigned_reviewers : List String
  pub assigned_reviewer_teams : List String

abbrev pub status_of : ApprovalEvaluation → ApprovalStatus
status_of e =
    if not (no_strings e.blocked_reasons)
    then rejected
    else if e.approval_required
    then pending
    else approved

abbrev pub blocked_message : List String → Option String
blocked_message [] = none
blocked_message (reason ∷ rest) = some (join "; " (reason ∷ rest))

abbrev pub reviewer_teams : RequestArguments → ApprovalEvaluation → List String
reviewer_teams a e =
    let given = clean_strings a.assigned_reviewer_teams in
    if no_strings given then e.required_reviewer_teams else given

-- `receipt` of a request.
abbrev pub requested_receipt :
    String → RequestArguments → DeliveryContext → ApprovalEvaluation → Option ℕ → ApprovalReceipt
requested_receipt id a c e expires_at = record {
  approval_id = id;
  action = delivery;
  linked_run_id = a.run_id;
  linked_execution_id = a.execution_id;
  linked_verification_id = a.verification_id;
  repo_full_name = c.run.repo_full_name;
  status = status_of e;
  risk_level = e.risk_level;
  requested_by = a.actor;
  requester_team = a.team;
  request_comment = a.comment;
  required_approvals = e.required_approvals;
  approved_count = 0;
  expires_at = expires_at;
  required_reviewer_teams = e.required_reviewer_teams;
  assigned_reviewers = clean_strings a.assigned_reviewers;
  assigned_reviewer_teams = reviewer_teams a e;
  reasons = e.reasons;
  blocked_reasons = e.blocked_reasons;
  decisions = [];
  summary = e.summary;
  error_message = blocked_message e.blocked_reasons;
}

abbrev pub approval_path : DeliveryContext → String → FilePath
approval_path c id = parent c.run.audit_path ++ ("approvals" ∷ format (id ∷ ".json" ∷ []) ∷ [])

-- `request_delivery_approval`
unfoldable pub request_delivery_approval :
    ApprovalPolicy
    → ℕ
    → String
    → RequestArguments
    → Repository
    → Result (Repository × ApprovalWorkflowResult)
unfolding persist_approval
request_delivery_approval policy now id a repo = do
  c ← load_delivery_context repo a.run_id a.execution_id a.verification_id
  e ← policy.evaluate_delivery c.run.repo_full_name c a.team
  expires_at ←
      (if is_pending (status_of e) then resolve_expires_at now a.expires_in_hours else ok none)
  ok (
      persist_approval now now (requested_receipt id a c e expires_at) (approval_path c id)
        e.policy_snapshot repo)
