-- ===== src/Domain/Patches.antt =====
-- The patches' part of `domain/entities.py`.
use issue_to_pr_agent.Prelude.{ℕ, String, Bool, Option, List}
use issue_to_pr_agent.Domain.Queue.{FilePath}
use issue_to_pr_agent.Domain.Runs.{PatchExecutionMode, PatchExecutionStatus}

pub data PatchOperationType : Type 0 where
  write_file replace_text append_text : PatchOperationType

pub record PatchOperation : Type 0 where
  pub type : PatchOperationType
  pub path : String
  pub content : String
  pub find_text : String
  pub replace_text : String
  pub allow_overwrite : Bool

pub record PatchProposal : Type 0 where
  pub proposal_id : String
  pub summary : String
  pub linked_run_id : Option String
  pub operations : List PatchOperation

pub record FileMutationReceipt : Type 0 where
  pub operation_index : ℕ
  pub operation_type : PatchOperationType
  pub path : String
  pub changed : Bool
  pub before_sha256 : Option String
  pub after_sha256 : String
  pub before_bytes : ℕ
  pub after_bytes : ℕ
  pub detail : String

pub record PatchExecutionReceipt : Type 0 where
  pub execution_id : String
  pub proposal_id : String
  pub linked_run_id : Option String
  pub mode : PatchExecutionMode
  pub status : PatchExecutionStatus
  pub repo_root : FilePath
  pub summary : String
  pub receipts : List FileMutationReceipt
  pub blocked_paths : List String
  pub error_message : Option String

abbrev pub operation_value : PatchOperationType → String
operation_value write_file = "write_file"
operation_value replace_text = "replace_text"
operation_value append_text = "append_text"

abbrev pub mode_value : PatchExecutionMode → String
mode_value PatchExecutionMode.dry_run = "dry_run"
mode_value PatchExecutionMode.apply = "apply"

abbrev pub execution_status_value : PatchExecutionStatus → String
execution_status_value PatchExecutionStatus.succeeded = "succeeded"
execution_status_value PatchExecutionStatus.failed = "failed"
