-- ===== src/Patch/Record.antt =====
-- The end of `execute` in `application/use_cases/execute_patch_proposal.py`: its receipt and its record.
use issue_to_pr_agent.Prelude.{
  ℕ, String, Bool, true, false, Option, none, some, List, [], ◌∷◌, Result, ok, raise_if, format,
  value_error, ◌>>=◌, ◌>>◌,
}
use issue_to_pr_agent.Domain.Json.{
  Items, Dict, bool, str, time, arr, obj, nil, cons, empty, entry, nat, strs, opt_str,
}
use issue_to_pr_agent.Domain.Queue.{FilePath}
use issue_to_pr_agent.Domain.Runs.{PatchExecutionMode, PatchExecutionStatus, PatchExecutionRecord}
use issue_to_pr_agent.Domain.Patches.{
  PatchOperation, PatchProposal, FileMutationReceipt, PatchExecutionReceipt, operation_value,
  mode_value, execution_status_value,
}
use issue_to_pr_agent.Queue.Create.{path_text}
use issue_to_pr_agent.Patch.Files.{Files, Host, write_text}
use issue_to_pr_agent.Patch.Guardrails.{Guardrails}
use issue_to_pr_agent.Patch.Execute.{
  linked, read_linked, execution_path, allowed_paths, ExecutionSetting, PatchProgress,
  run_operations,
}
use issue_to_pr_agent.Repository.{Repository, save_execution}

pub record PatchExecutionResult : Type 0 where
  pub execution_id : String
  pub linked_run_id : Option String
  pub mode : PatchExecutionMode
  pub receipt : PatchExecutionReceipt
  pub receipt_path : FilePath

-- The files and the tables after an execution, and its result. A receipt with the status failed is the
-- one that `PatchExecutionFailedError` carries.
pub record ExecutionOutcome : Type 0 where
  pub files : Files
  pub repository : Repository
  pub result : PatchExecutionResult

abbrev pub mutation_entry : FileMutationReceipt → Dict
mutation_entry r = entry "operation_index" (nat r.operation_index) (
    entry "operation_type" (str (operation_value r.operation_type)) (
      entry "path" (str r.path) (
        entry "changed" (bool r.changed) (
          entry "before_sha256" (opt_str r.before_sha256) (
            entry "after_sha256" (str r.after_sha256) (
              entry "before_bytes" (nat r.before_bytes) (
                entry "after_bytes" (nat r.after_bytes) (entry "detail" (str r.detail) empty))))))))

abbrev pub mutation_entries : List FileMutationReceipt → Items
mutation_entries [] = nil
mutation_entries (r ∷ rest) = cons (obj (mutation_entry r)) (mutation_entries rest)

-- `_receipt_payload`
unfoldable pub patch_payload : ℕ → PatchExecutionReceipt → Dict
patch_payload created_at r = entry "execution_id" (str r.execution_id) (
    entry "created_at" (time created_at) (
      entry "proposal_id" (str r.proposal_id) (
        entry "linked_run_id" (opt_str r.linked_run_id) (
          entry "mode" (str (mode_value r.mode)) (
            entry "status" (str (execution_status_value r.status)) (
              entry "repo_root" (str (path_text r.repo_root)) (
                entry "summary" (str r.summary) (
                  entry "blocked_paths" (arr (strs r.blocked_paths)) (
                    entry "receipts" (arr (mutation_entries r.receipts))
                      (entry "error_message" (opt_str r.error_message) empty))))))))))

abbrev pub status_after : Option String → PatchExecutionStatus
status_after none = PatchExecutionStatus.succeeded
status_after (some message) = PatchExecutionStatus.failed

abbrev pub patch_receipt :
    String → PatchProposal → FilePath → PatchExecutionMode → PatchProgress → PatchExecutionReceipt
patch_receipt id proposal repo_root mode p = record {
  execution_id = id;
  proposal_id = proposal.proposal_id;
  linked_run_id = proposal.linked_run_id;
  mode = mode;
  status = status_after p.failure;
  repo_root = repo_root;
  summary = proposal.summary;
  receipts = p.receipts;
  blocked_paths = p.blocked_paths;
  error_message = p.failure;
}

abbrev pub execution_record : ℕ → PatchExecutionReceipt → FilePath → PatchExecutionRecord
execution_record created_at r path = record {
  execution_id = r.execution_id;
  created_at = created_at;
  proposal_id = r.proposal_id;
  linked_run_id = r.linked_run_id;
  mode = r.mode;
  status = r.status;
  summary = r.summary;
  repo_root = r.repo_root;
  receipt_path = path;
  error_message = r.error_message;
}

-- The text of a receipt's file.
abbrev pub receipt_text : Host → ℕ → PatchExecutionReceipt → String
receipt_text host created_at r = format (host.dumps (patch_payload created_at r) ∷ "\n" ∷ [])

-- What follows the loop, and what its `except` does: the receipt's file is written beside what the
-- operations left.
unfoldable pub conclude :
    Host → ℕ → PatchExecutionReceipt → FilePath → Files → Repository → ExecutionOutcome
conclude host created_at r path files repo = record {
  files = write_text (host.resolve path) (receipt_text host created_at r) files;
  repository =
      save_execution (execution_record created_at r path) (patch_payload created_at r) repo;
  result = record {
    execution_id = r.execution_id;
    linked_run_id = r.linked_run_id;
    mode = r.mode;
    receipt = r;
    receipt_path = path;
  };
}

abbrev pub has_no_operation : List PatchOperation → Bool
has_no_operation [] = true
has_no_operation (op ∷ rest) = false

abbrev pub at_loop_start : Files → PatchProgress
at_loop_start files = record { files = files; receipts = []; blocked_paths = []; failure = none }

-- `execute`
unfoldable pub execute :
    Host
    → Guardrails
    → ℕ
    → String
    → PatchProposal
    → (repo_root artifact_dir : FilePath) → PatchExecutionMode
    → Repository
    → Files
    → Result ExecutionOutcome
unfolding run_operations conclude
execute host g created_at id proposal repo_root artifact_dir mode repo files = do
  run ← read_linked repo (linked proposal.linked_run_id)
  raise_if (has_no_operation proposal.operations) value_error
      "Patch proposal must contain at least one operation."
  allowed ← allowed_paths host run
  let setting : ExecutionSetting = record {
    host = host;
    guardrails = g;
    repo_root = repo_root;
    mode = mode;
    allowed = allowed;
  }
  let p : PatchProgress = run_operations setting 0 proposal.operations (at_loop_start files)
  ok (
      conclude host created_at (patch_receipt id proposal repo_root mode p)
        (execution_path artifact_dir id run) p.files repo)
