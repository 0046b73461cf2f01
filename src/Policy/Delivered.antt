-- ===== src/Policy/Delivered.antt =====
-- The rules on directories of `application/services/approval_policy.py`, on what
-- `application/use_cases/execute_patch_proposal.py` records.
use issue_to_pr_agent.Prelude.{
  ℕ, ◌≡◌, String, true, ◌&&◌, List, [], ◌∷◌, All, All-append, ok, has_text, is_absolute, if_rule,
}
use issue_to_pr_agent.Domain.Json.{get}
use issue_to_pr_agent.Domain.Queue.{FilePath}
use issue_to_pr_agent.Domain.Runs.{PatchExecutionMode}
use issue_to_pr_agent.Domain.Patches.{PatchProposal, FileMutationReceipt, PatchExecutionReceipt}
use issue_to_pr_agent.Patch.Files.{Files, Host}
use issue_to_pr_agent.Patch.Guardrails.{Guardrails}
use issue_to_pr_agent.Patch.Record.{
  ExecutionOutcome, execute, patch_payload, mutation_entry, mutation_entries,
}
use issue_to_pr_agent.Patch.Outcome.{execute-Accountable}
use issue_to_pr_agent.Policy.Read.{
  extract_changed_paths, changed_paths_of, changed_path, matching_paths,
}
use issue_to_pr_agent.Policy.Directories.{IsDirectoryRule, matching-directories}
use issue_to_pr_agent.Repository.{Repository}

abbrev AllAbsolute : List String → Type 0
AllAbsolute paths = All (λ path. is_absolute path ≡ true) paths

entry-AllAbsolute :
    (r : FileMutationReceipt)
    → is_absolute r.path ≡ true
    → AllAbsolute (changed_path (mutation_entry r))
unfolding get
entry-AllAbsolute r h =
    if_rule AllAbsolute (r.changed && has_text r.path) (r.path ∷ []) [] (λ _. (h, tt)) (λ _. tt)

entries-AllAbsolute :
    (rs : List FileMutationReceipt)
    → All (λ r. is_absolute r.path ≡ true) rs
    → AllAbsolute (changed_paths_of (mutation_entries rs))
unfolding changed_paths_of
entries-AllAbsolute [] h = tt
entries-AllAbsolute (r ∷ rest) h =
    All-append (λ path. is_absolute path ≡ true) (changed_path (mutation_entry r))
      (changed_paths_of (mutation_entries rest)) (entry-AllAbsolute r h.0)
      (entries-AllAbsolute rest h.1)

payload-AllAbsolute :
    (created_at : ℕ) (r : PatchExecutionReceipt)
    → All (λ q. is_absolute q.path ≡ true) r.receipts
    → AllAbsolute (extract_changed_paths (patch_payload created_at r))
unfolding patch_payload get
payload-AllAbsolute created_at r h = entries-AllAbsolute r.receipts h

-- No path that the execution of a patch records as changed matches a rule of the approval policy that
-- names a directory of the repository, whichever files the patch changed.
pub execute_directories_missed :
    (host : Host) (g : Guardrails) (created_at : ℕ) (id : String) (proposal : PatchProposal)
    (repo_root artifact_dir : FilePath) (mode : PatchExecutionMode) (repo : Repository)
    (files : Files) (out : ExecutionOutcome) (rules : List String)
    → execute host g created_at id proposal repo_root artifact_dir mode repo files ≡ ok out
    → All IsDirectoryRule rules
    → matching_paths (extract_changed_paths (patch_payload created_at out.result.receipt)) rules
      ≡ []
execute_directories_missed host g created_at id proposal repo_root artifact_dir mode repo files out
      rules h directories =
    let a =
      execute-Accountable host g created_at id proposal repo_root artifact_dir mode repo files out
        h in
    matching-directories (extract_changed_paths (patch_payload created_at out.result.receipt)) rules
      (payload-AllAbsolute created_at out.result.receipt a.absolute) directories
