-- ===== src/Domain/Approvals.antt =====
-- The approvals' part of `domain/entities.py`.
use issue_to_pr_agent.Prelude.{ℕ, String, Option, List, Bool, true, false}
use issue_to_pr_agent.Domain.Json.{Dict, Json}
use issue_to_pr_agent.Domain.Queue.{FilePath}

pub data ApprovalAction : Type 0 where
  delivery : ApprovalAction

pub data ApprovalStatus : Type 0 where
  pending approved rejected : ApprovalStatus

pub data ApprovalDecision : Type 0 where
  approve reject : ApprovalDecision

pub data ApprovalRiskLevel : Type 0 where
  low medium high critical : ApprovalRiskLevel

-- The time of a decision is the value that a payload holds for it.
pub record ApprovalReviewerDecision : Type 0 where
  pub actor : String
  pub team : String
  pub decision : ApprovalDecision
  pub comment : String
  pub decided_at : Json

pub record ApprovalEvaluation : Type 0 where
  pub action : ApprovalAction
  pub risk_level : ApprovalRiskLevel
  pub approval_required : Bool
  pub required_approvals : ℕ
  pub required_reviewer_teams : List String
  pub reasons : List String
  pub blocked_reasons : List String
  pub summary : String
  pub policy_snapshot : Dict

pub record DeliveryGovernanceEvaluation : Type 0 where
  pub rollout_stage : Option String
  pub branch_protection_required : Bool
  pub branch_protection_verified : Bool
  pub reasons : List String
  pub blocked_reasons : List String
  pub summary : String
  pub policy_snapshot : Dict

pub record ApprovalReceipt : Type 0 where
  pub approval_id : String
  pub action : ApprovalAction
  pub linked_run_id : String
  pub linked_execution_id : String
  pub linked_verification_id : String
  pub repo_full_name : String
  pub status : ApprovalStatus
  pub risk_level : ApprovalRiskLevel
  pub requested_by : String
  pub requester_team : String
  pub request_comment : String
  pub required_approvals : ℕ
  pub approved_count : ℕ
  pub expires_at : Option ℕ
  pub required_reviewer_teams : List String
  pub assigned_reviewers : List String
  pub assigned_reviewer_teams : List String
  pub reasons : List String
  pub blocked_reasons : List String
  pub decisions : List ApprovalReviewerDecision
  pub summary : String
  pub error_message : Option String

pub record ApprovalRecord : Type 0 where
  pub approval_id : String
  pub created_at : ℕ
  pub updated_at : ℕ
  pub action : ApprovalAction
  pub linked_run_id : String
  pub linked_execution_id : String
  pub linked_verification_id : String
  pub repo_full_name : String
  pub status : ApprovalStatus
  pub risk_level : ApprovalRiskLevel
  pub requested_by : String
  pub requester_team : String
  pub required_approvals : ℕ
  pub approved_count : ℕ
  pub summary : String
  pub receipt_path : FilePath
  pub expires_at : Option ℕ
  pub error_message : Option String

-- `ApprovalAction.value`, and those of the others below.
abbrev pub action_value : ApprovalAction → String
action_value delivery = "delivery"

abbrev pub approval_status_value : ApprovalStatus → String
approval_status_value pending = "pending"
approval_status_value approved = "approved"
approval_status_value rejected = "rejected"

abbrev pub decision_value : ApprovalDecision → String
decision_value approve = "approve"
decision_value reject = "reject"

abbrev pub risk_value : ApprovalRiskLevel → String
risk_value low = "low"
risk_value medium = "medium"
risk_value high = "high"
risk_value critical = "critical"

-- `risk_level.value.capitalize()`
abbrev pub risk_title : ApprovalRiskLevel → String
risk_title low = "Low"
risk_title medium = "Medium"
risk_title high = "High"
risk_title critical = "Critical"

abbrev pub is_approve : ApprovalDecision → Bool
is_approve approve = true
is_approve reject = false

abbrev pub is_pending : ApprovalStatus → Bool
is_pending pending = true
is_pending _ = false
