-- ===== src/Domain/Runs.antt =====
-- Planning runs, patch executions and verifications in `domain/entities.py`: what the other
-- components read of their records.
use issue_to_pr_agent.Prelude.{ℕ, String, Option}
use issue_to_pr_agent.Domain.Queue.{FilePath}

pub data RunStatus : Type 0 where
  succeeded failed : RunStatus

pub data PlannerProvider : Type 0 where
  heuristic openai : PlannerProvider

pub data ExecutionMode : Type 0 where
  plan_only prepare_branch : ExecutionMode

pub record RunRecord : Type 0 where
  pub run_id : String
  pub created_at : ℕ
  pub repo_full_name : String
  pub issue_number : ℕ
  pub planner_provider : PlannerProvider
  pub execution_mode : ExecutionMode
  pub status : RunStatus
  pub branch_name : String
  pub summary : String
  pub issue_url : String
  pub report_path : FilePath
  pub pr_draft_path : FilePath
  pub audit_path : FilePath
  pub error_message : Option String

pub data PatchExecutionMode : Type 0 where
  dry_run apply : PatchExecutionMode

pub data PatchExecutionStatus : Type 0 where
  succeeded failed : PatchExecutionStatus

pub record PatchExecutionRecord : Type 0 where
  pub execution_id : String
  pub created_at : ℕ
  pub proposal_id : String
  pub linked_run_id : Option String
  pub mode : PatchExecutionMode
  pub status : PatchExecutionStatus
  pub summary : String
  pub repo_root : FilePath
  pub receipt_path : FilePath
  pub error_message : Option String

pub data VerificationStatus : Type 0 where
  succeeded failed : VerificationStatus

pub data VerificationStopReason : Type 0 where
  success no_candidate_commands no_allowed_commands : VerificationStopReason
  candidate_commands_exhausted max_attempts_reached execution_error : VerificationStopReason

pub record VerificationRecord : Type 0 where
  pub verification_id : String
  pub created_at : ℕ
  pub linked_run_id : Option String
  pub linked_execution_id : Option String
  pub status : VerificationStatus
  pub stop_reason : VerificationStopReason
  pub summary : String
  pub repo_root : FilePath
  pub receipt_path : FilePath
  pub error_message : Option String
