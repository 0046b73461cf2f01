-- ===== src/Patch/Outcome.antt =====
-- What `execute` of `application/use_cases/execute_patch_proposal.py` guarantees.
use issue_to_pr_agent.Prelude.{
  ℕ, suc, ◌≡◌, refl, sym, ap, subst, ◌∙◌, String, Bool, true, false, Option, none, some, List, [],
  ◌∷◌, All, is_absolute, Result, ok, err, ok_parts, ok_injective, raise_if, value_error,
}
use issue_to_pr_agent.Domain.Queue.{FilePath}
use issue_to_pr_agent.Domain.Runs.{PatchExecutionMode}
use issue_to_pr_agent.Domain.Patches.{PatchOperation, PatchProposal, FileMutationReceipt}
use issue_to_pr_agent.Approval.Context.{is_apply}
use issue_to_pr_agent.Patch.Files.{Files, Host, below, content_at, write_text}
use issue_to_pr_agent.Patch.Guardrails.{Guardrails, validate_operation}
use issue_to_pr_agent.Patch.Mutator.{apply_operation}
use issue_to_pr_agent.Patch.Execute.{
  ExecutionSetting, PatchProgress, run_operation, run_operations, after_validation,
  unless_forbidden, after_operation, is_forbidden, unless_failed, failed_with, linked, read_linked,
  allowed_paths,
}
use issue_to_pr_agent.Patch.Record.{
  ExecutionOutcome, execute, conclude, receipt_text, has_no_operation, at_loop_start,
}
use issue_to_pr_agent.Patch.Effects.{
  Effects, IsWithin, says_changed, validate-IsWithin, apply-Applied, Applied-Effects,
}
use issue_to_pr_agent.Repository.{Repository}

-- A failure changes neither the tree nor the receipts.
halt :
    (e : ExecutionSetting) (start : Files) (p q : PatchProgress)
    → p.files ≡ q.files
    → p.receipts ≡ q.receipts
    → Effects e start p
    → Effects e start q
halt e start p q files receipts v = record {
  dry = λ d. sym files ∙ v.dry d;
  confined = λ path out. ap (content_at path) (sym files) ∙ v.confined path out;
  accounted = λ path quiet. ap (content_at path) (sym files) ∙ v.accounted path (rw receipts quiet);
  absolute = subst (All (λ r. is_absolute r.path ≡ true)) receipts v.absolute;
}

after_operation-Effects :
    (e : ExecutionSetting) (start : Files) (index : ℕ) (op : PatchOperation) (p : PatchProgress)
    (target : FilePath) (end : Result (Files × FileMutationReceipt))
    → apply_operation e.host index e.mode target op p.files ≡ end
    → IsWithin e target
    → Effects e start p
    → Effects e start (after_operation p end)
after_operation-Effects e start index op p target (err x) h within v =
    halt e start p (failed_with p x.message) refl refl v
after_operation-Effects e start index op p target (ok (files, r)) h within v =
    Applied-Effects e start p target files r v within
      (apply-Applied e index target op p.files (files, r) h)

unless_forbidden-Effects :
    (e : ExecutionSetting) (start : Files) (index : ℕ) (op : PatchOperation) (p : PatchProgress)
    (target : FilePath) (forbidden : Result Bool)
    → IsWithin e target
    → Effects e start p
    → Effects e start (unless_forbidden e index op p target forbidden)
unless_forbidden-Effects e start index op p target (err x) within v =
    halt e start p (failed_with p x.message) refl refl v
unless_forbidden-Effects e start index op p target (ok true) within v =
    halt e start p (unless_forbidden e index op p target (ok true)) refl refl v
unless_forbidden-Effects e start index op p target (ok false) within v =
    after_operation-Effects e start index op p target
      (apply_operation e.host index e.mode target op p.files) refl within v

after_validation-Effects :
    (e : ExecutionSetting) (start : Files) (index : ℕ) (op : PatchOperation) (p : PatchProgress)
    (target : Result FilePath)
    → validate_operation e.host e.guardrails e.repo_root e.allowed p.files op ≡ target
    → Effects e start p
    → Effects e start (after_validation e index op p target)
after_validation-Effects e start index op p (err x) h v =
    halt e start p (failed_with p x.message) refl refl v
after_validation-Effects e start index op p (ok target) h v =
    unless_forbidden-Effects e start index op p target (is_forbidden e target p.files)
      (validate-IsWithin e p.files op target h) v

unless_failed-Effects :
    (e : ExecutionSetting) (start : Files) (p : PatchProgress)
    (next : PatchProgress → PatchProgress) (failure : Option String)
    → Effects e start p
    → (Effects e start p → Effects e start (next p))
    → Effects e start (unless_failed p next failure)
unless_failed-Effects e start p next none v step = step v
unless_failed-Effects e start p next (some message) v step = v

run_operations-Effects :
    (e : ExecutionSetting) (start : Files) (index : ℕ) (ops : List PatchOperation)
    (p : PatchProgress)
    → Effects e start p
    → Effects e start (run_operations e index ops p)
unfolding run_operations run_operation
run_operations-Effects e start index [] p v = v
run_operations-Effects e start index (op ∷ rest) p v =
    let q = run_operation e index op p in
    unless_failed-Effects e start q (λ r. run_operations e (suc index) rest r) q.failure
      (after_validation-Effects e start index op p
        (validate_operation e.host e.guardrails e.repo_root e.allowed p.files op) refl v)
      (λ w. run_operations-Effects e start (suc index) rest q w)

-- What an outcome says of the tree that the operations leave, and of the files after the receipt's.
pub record Accountable (host : Host) (created_at : ℕ) (repo_root : FilePath)
    (mode : PatchExecutionMode) (files : Files) (out : ExecutionOutcome) : Type 0 where
  pub tree : Files
  pub receipt_written :
      out.files
      ≡ write_text
          (host.resolve out.result.receipt_path)
          (receipt_text host created_at out.result.receipt)
          tree
  pub dry : is_apply mode ≡ false → tree ≡ files
  pub confined :
      (path : FilePath)
      → below (host.resolve repo_root) path ≡ none
      → content_at path tree ≡ content_at path files
  pub accounted :
      (path : FilePath)
      → says_changed path out.result.receipt.receipts ≡ false
      → content_at path tree ≡ content_at path files
  pub absolute : All (λ r. is_absolute r.path ≡ true) out.result.receipt.receipts

-- Whether an execution succeeds or fails halfway, the files after it are a tree with the receipt's text
-- written at the receipt's path. For the tree: a dry run leaves it as it was, no path that is not below
-- the resolved root is touched, and a path is as it was unless some receipt says that it was changed.
-- Each receipt names an absolute path.
pub execute-Accountable :
    (host : Host) (g : Guardrails) (created_at : ℕ) (id : String) (proposal : PatchProposal)
    (repo_root artifact_dir : FilePath) (mode : PatchExecutionMode) (repo : Repository)
    (files : Files) (out : ExecutionOutcome)
    → execute host g created_at id proposal repo_root artifact_dir mode repo files ≡ ok out
    → Accountable host created_at repo_root mode files out
unfolding execute conclude
execute-Accountable host g created_at id proposal repo_root artifact_dir mode repo files out h =
    let (run, _, h1) = ok_parts (read_linked repo (linked proposal.linked_run_id)) _ h in
    let (_, _, h2) =
      ok_parts (raise_if (has_no_operation proposal.operations) value_error _) _ h1 in
    let (allowed, _, h3) = ok_parts (allowed_paths host run) _ h2 in
    let setting : ExecutionSetting = record {
      host = host;
      guardrails = g;
      repo_root = repo_root;
      mode = mode;
      allowed = allowed;
    } in
    let p = run_operations setting 0 proposal.operations (at_loop_start files) in
    let v =
      run_operations-Effects setting files 0 proposal.operations (at_loop_start files) (record {
        dry = λ _. refl;
        confined = λ _ _. refl;
        accounted = λ _ _. refl;
        absolute = tt;
      }) in
    subst (Accountable host created_at repo_root mode files) (ok_injective h3) (record {
      tree = p.files;
      receipt_written = refl;
      dry = v.dry;
      confined = λ path out. v.confined path (rw out refl);
      accounted = v.accounted;
      absolute = v.absolute;
    })
