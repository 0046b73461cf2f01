-- ===== src/Repository.antt =====
-- `RunRepository`: the tables of `infrastructure/persistence/run_repository.py` together.
use issue_to_pr_agent.Prelude.{String, ◌==◌, Option, none, List, [], ◌∷◌, ◌++◌, find, filter, not}
use issue_to_pr_agent.Domain.Json.{Dict}
use issue_to_pr_agent.Domain.Approvals.{ApprovalRecord}
use issue_to_pr_agent.Domain.Runs.{RunRecord, PatchExecutionRecord, VerificationRecord}
use issue_to_pr_agent.Queue.Store.{QueueStore}
use issue_to_pr_agent.Tenant.Store.{TenantStore}

pub record Repository : Type 0 where
  pub queue : QueueStore
  pub tenancy : TenantStore
  pub runs : List (RunRecord × Dict)
  pub executions : List (PatchExecutionRecord × Dict)
  pub verifications : List (VerificationRecord × Dict)
  pub approvals : List (ApprovalRecord × Dict)

unfoldable pub get_run : String → Repository → Option (RunRecord × Dict)
get_run id repo = find (λ (r, _). r.run_id == id) repo.runs

unfoldable pub get_execution : String → Repository → Option (PatchExecutionRecord × Dict)
get_execution id repo = find (λ (r, _). r.execution_id == id) repo.executions

unfoldable pub get_verification : String → Repository → Option (VerificationRecord × Dict)
get_verification id repo = find (λ (r, _). r.verification_id == id) repo.verifications

unfoldable pub get_approval : String → Repository → Option (ApprovalRecord × Dict)
get_approval id repo = find (λ (r, _). r.approval_id == id) repo.approvals

-- The table has no column for the expiry, which only the payload keeps.
unfoldable pub save_approval : ApprovalRecord → Dict → Repository → Repository
save_approval approval payload repo = record repo {
  approvals =
      filter (λ (r, _). not (r.approval_id == approval.approval_id)) repo.approvals
      ++ (record approval { expires_at = none }, payload) ∷ [];
}

unfoldable pub save_execution : PatchExecutionRecord → Dict → Repository → Repository
save_execution execution payload repo = record repo {
  executions =
      filter (λ (r, _). not (r.execution_id == execution.execution_id)) repo.executions
      ++ (execution, payload) ∷ [];
}
