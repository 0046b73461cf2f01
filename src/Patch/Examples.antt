-- ===== src/Patch/Examples.antt =====
-- The theorems on patches at a concrete proposal.
use issue_to_pr_agent.Policy.Read.{ends_with_slash, matching_paths, extract_changed_paths}
use issue_to_pr_agent.Policy.Directories.{IsDirectoryRule}
use issue_to_pr_agent.Policy.Delivered.{execute_directories_missed}
use issue_to_pr_agent.Prelude.{
  All, List, String, strip, path_parts, ◌≡◌, refl, true, false, none, some, [], ◌∷◌, ok, format,
  length, codes,
}
use issue_to_pr_agent.Domain.Queue.{FilePath}
use issue_to_pr_agent.Domain.Runs.{PatchExecutionMode}
use issue_to_pr_agent.Domain.Patches.{PatchOperation, PatchOperationType, PatchProposal}
use issue_to_pr_agent.Approval.Samples.{delivery_repository}
use issue_to_pr_agent.Patch.Files.{write_text, Files, FileContent, Host, content_at}
use issue_to_pr_agent.Patch.Guardrails.{validate_operation, default_guardrails}
use issue_to_pr_agent.Patch.Mutator.{apply_operation, compute_after_text}
use issue_to_pr_agent.Patch.Execute.{ExecutionSetting, PatchProgress, run_operations}
use issue_to_pr_agent.Patch.Record.{
  patch_payload, ExecutionOutcome, execute, conclude, patch_receipt, at_loop_start,
}
use issue_to_pr_agent.Patch.Replace.{replace_text-ReplacedOnce, ReplacedOnce}
use issue_to_pr_agent.Patch.Outcome.{Accountable, execute-Accountable}

-- A host without links.
abbrev sample_host : Host
sample_host = record {
  resolve = λ path. path;
  is_symlink = λ path. false;
  byte_length = λ s. length (codes s);
  sha256 = λ s. s;
  not_in_subpath = λ path root. format (path ∷ " is not in the subpath of " ∷ root ∷ []);
  dumps = λ payload. "{}";
  isoformat = λ t. "2026-01-01";
  is_a_directory = λ path. format ("Is a directory: " ∷ path ∷ []);
}

abbrev sample_root : FilePath
sample_root = "srv" ∷ "site" ∷ []

abbrev main_path : FilePath
main_path = "srv" ∷ "site" ∷ "infra" ∷ "main.tf" ∷ []

abbrev sample_files : Files
sample_files = (main_path, FileContent.text "size = 1\n") ∷ []

abbrev sample_operation : PatchOperation
sample_operation = record {
  type = PatchOperationType.replace_text;
  path = "infra/main.tf";
  content = "";
  find_text = "= 1";
  replace_text = "= 2";
  allow_overwrite = false;
}

abbrev escaping_operation : PatchOperation
escaping_operation = record sample_operation { path = "/etc/passwd" }

abbrev sample_proposal : PatchProposal
sample_proposal = record {
  proposal_id = "proposal-1";
  summary = "Patch it.";
  linked_run_id = none;
  operations = sample_operation ∷ escaping_operation ∷ [];
}

abbrev sample_setting : ExecutionSetting
sample_setting = record {
  host = sample_host;
  guardrails = default_guardrails;
  repo_root = sample_root;
  mode = PatchExecutionMode.apply;
  allowed = none;
}

abbrev sample_progress : PatchProgress
sample_progress =
    run_operations sample_setting 0 sample_proposal.operations (at_loop_start sample_files)

abbrev sample_outcome : ExecutionOutcome
sample_outcome =
    conclude sample_host 300
      (patch_receipt "exec-2" sample_proposal sample_root PatchExecutionMode.apply sample_progress)
      ("artifacts" ∷ "executions" ∷ "exec-2.json" ∷ []) sample_progress.files delivery_repository

executes :
    execute sample_host default_guardrails 300 "exec-2" sample_proposal sample_root
      ("artifacts" ∷ [])
      PatchExecutionMode.apply
      delivery_repository
      sample_files
    ≡ ok sample_outcome
unfolding execute format
executes = refl

-- The second operation fails, and what the first one wrote stays.
stops : sample_progress.failure ≡ some "Absolute paths are not allowed: /etc/passwd"
unfolding run_operations validate_operation path_parts content_at apply_operation format
stops = refl

has_written : content_at main_path sample_progress.files ≡ some (FileContent.text "size = 2\n")
unfolding run_operations content_at validate_operation path_parts apply_operation format write_text
has_written = refl

execute-Accountable_example :
    Accountable sample_host 300 sample_root PatchExecutionMode.apply sample_files sample_outcome
execute-Accountable_example =
    execute-Accountable sample_host default_guardrails 300 "exec-2" sample_proposal sample_root
      ("artifacts" ∷ []) PatchExecutionMode.apply delivery_repository sample_files sample_outcome
      executes

abbrev directory_rules : List String
directory_rules = "infra/" ∷ "secrets/" ∷ []

are_directories : All IsDirectoryRule directory_rules
unfolding ends_with_slash strip
are_directories = ((refl, refl), ((refl, refl), tt))

-- The rule on infra/ misses the change of infra/main.tf.
execute_directories_missed_example :
    matching_paths
      (extract_changed_paths (patch_payload 300 sample_outcome.result.receipt))
      directory_rules
    ≡ []
execute_directories_missed_example =
    execute_directories_missed sample_host default_guardrails 300 "exec-2" sample_proposal
      sample_root ("artifacts" ∷ []) PatchExecutionMode.apply delivery_repository sample_files
      sample_outcome directory_rules executes are_directories

replaces :
    compute_after_text sample_operation PatchOperationType.replace_text "size = 1\n" true
    ≡ ok ("size = 2\n", "replace text")
unfolding compute_after_text format
replaces = refl

replace_text-ReplacedOnce_example : ReplacedOnce "= 1" "= 2" "size = 1\n" "size = 2\n"
replace_text-ReplacedOnce_example =
    replace_text-ReplacedOnce sample_operation "size = 1\n" true ("size = 2\n", "replace text") refl
      replaces
