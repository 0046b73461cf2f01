-- ===== src/Approval/Workflow/Persist.antt =====
-- `_persist_approval` and `_approval_status_summary` of `application/use_cases/manage_approval.py`.
use issue_to_pr_agent.Prelude.{ℕ, String, [], ◌∷◌, count, format, show}
use issue_to_pr_agent.Domain.Json.{Dict}
use issue_to_pr_agent.Domain.Queue.{FilePath}
use issue_to_pr_agent.Domain.Approvals.{
  ApprovalStatus, pending, approved, rejected, ApprovalRiskLevel, ApprovalReceipt, ApprovalRecord,
  risk_title,
}
use issue_to_pr_agent.Queue.Store.{write_json}
use issue_to_pr_agent.Approval.Payload.{receipt_payload}
use issue_to_pr_agent.Repository.{Repository, save_approval}

pub record ApprovalWorkflowResult : Type 0 where
  pub approval_id : String
  pub receipt : ApprovalReceipt
  pub receipt_path : FilePath

-- `record` of `_persist_approval`
abbrev pub record_of : ℕ → ℕ → ApprovalReceipt → FilePath → ApprovalRecord
record_of created_at updated_at r path = record {
  approval_id = r.approval_id;
  created_at = created_at;
  updated_at = updated_at;
  action = r.action;
  linked_run_id = r.linked_run_id;
  linked_execution_id = r.linked_execution_id;
  linked_verification_id = r.linked_verification_id;
  repo_full_name = r.repo_full_name;
  status = r.status;
  risk_level = r.risk_level;
  requested_by = r.requested_by;
  requester_team = r.requester_team;
  required_approvals = r.required_approvals;
  approved_count = r.approved_count;
  summary = r.summary;
  receipt_path = path;
  expires_at = r.expires_at;
  error_message = r.error_message;
}

-- `_persist_approval`
unfoldable pub persist_approval :
    ℕ → ℕ → ApprovalReceipt → FilePath → Dict → Repository → Repository × ApprovalWorkflowResult
persist_approval created_at updated_at r path policy_snapshot repo =
    let payload = receipt_payload created_at updated_at r policy_snapshot in
    (
      save_approval (record_of created_at updated_at r path) payload
          (record repo { queue = write_json path payload repo.queue }),
      record { approval_id = r.approval_id; receipt = r; receipt_path = path },
    )

-- `_approval_status_summary`
unfoldable pub status_summary : ApprovalStatus → ApprovalRiskLevel → ℕ → ℕ → String
status_summary approved risk count required = format (
    risk_title risk
    ∷ "-risk delivery approval completed with "
    ∷ show count
    ∷ "/"
    ∷ show required
    ∷ " approvals."
    ∷ [])
status_summary rejected risk count required =
    format (risk_title risk ∷ "-risk delivery approval was rejected." ∷ [])
status_summary pending risk count required = format (
    risk_title risk
    ∷ "-risk delivery approval is pending with "
    ∷ show count
    ∷ "/"
    ∷ show required
    ∷ " approvals collected."
    ∷ [])
