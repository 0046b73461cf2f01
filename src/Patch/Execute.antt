-- ===== src/Patch/Execute.antt =====
-- `ExecutePatchProposalUseCase` of `application/use_cases/execute_patch_proposal.py`.
use issue_to_pr_agent.Prelude.{
  ℕ, suc, String, Bool, true, false, not, ◌&&◌, ◌||◌, ◌==◌, Option, none, some, List, [], ◌∷◌, ◌++◌,
  if◌then◌else◌, Result, ok, err, raise, value_error, type_error, or_else, ◌>>=◌, format, contains,
  is_absolute, path_parts,
}
use issue_to_pr_agent.Domain.Json.{
  Json, Items, Dict, str, time, arr, obj, nil, cons, strs, get, dict_value, type_name, characters,
  keys,
}
use issue_to_pr_agent.Domain.Queue.{FilePath}
use issue_to_pr_agent.Domain.Runs.{PatchExecutionMode, RunRecord}
use issue_to_pr_agent.Domain.Patches.{PatchOperation, FileMutationReceipt}
use issue_to_pr_agent.Queue.Process.{parent}
use issue_to_pr_agent.Patch.Files.{Files, Host, below, exists, relative_text, absolute_text}
use issue_to_pr_agent.Patch.Guardrails.{Guardrails, validate_operation, restricts}
use issue_to_pr_agent.Patch.Mutator.{apply_operation}
use issue_to_pr_agent.Repository.{Repository, get_run}

-- `repo_root / path`
abbrev pub joined : FilePath → String → FilePath
joined root path = if is_absolute path then path_parts path else root ++ path_parts path

abbrev pub subpath : Host → FilePath → FilePath → Option FilePath → Result FilePath
subpath host root path none =
    raise value_error (host.not_in_subpath (absolute_text path) (absolute_text root))
subpath host root path (some relative) = ok relative

-- `str(path.resolve().relative_to(root.resolve()).parent)`
abbrev pub directory_of : Host → FilePath → FilePath → Result String
directory_of host root path = do
  relative ←
      subpath host (host.resolve root) (host.resolve path)
        (below (host.resolve root) (host.resolve path))
  ok (relative_text (parent relative))

unfoldable pub directories_of : Host → FilePath → List String → Result (List String)
directories_of host root [] = ok []
directories_of host root (path ∷ rest) = do
  first ← directory_of host root (joined root path)
  more ← directories_of host root rest
  ok (first ∷ more)

-- `_is_allowed_new_file`
unfoldable pub is_allowed_new_file : Host → FilePath → List String → FilePath → Result Bool
unfolding directories_of
is_allowed_new_file host root allowed target = do
  parent_text ← directory_of host root target
  directories ← directories_of host root allowed
  ok (parent_text == "tests" || (not (parent_text == ".") && contains directories parent_text))

unfoldable pub text_items : Items → List String
text_items nil = []
text_items (cons (str s) rest) = s ∷ text_items rest
text_items (cons _ rest) = text_items rest

abbrev pub path_of_item : Option Json → List String
path_of_item (some (str s)) = s ∷ []
path_of_item _ = []

unfoldable pub item_paths : Items → List String
item_paths nil = []
item_paths (cons (obj d) rest) = path_of_item (get "path" d) ++ item_paths rest
item_paths (cons _ rest) = item_paths rest

-- `for item in value`
abbrev pub iterate : Host → Json → Result Items
iterate host (arr items) = ok items
iterate host (str s) = ok (strs (characters s))
iterate host (time t) = ok (strs (characters (host.isoformat t)))
iterate host (obj d) = ok (strs (keys d))
iterate host value =
    raise type_error (format ("'" ∷ type_name value ∷ "' object is not iterable" ∷ []))

-- The items of `d.get(key, [])`.
abbrev pub items_at : Host → String → Dict → Result Items
items_at host key d = iterate host (or_else (get key d) (arr nil))

-- Of a plan or a context that is no object, no path is read.
abbrev pub planned_paths : Host → Dict → Result (List String)
planned_paths host payload = do
  inspected ← items_at host "files_to_inspect" (dict_value (get "plan" payload))
  ranked ← items_at host "ranked_files" (dict_value (get "planning_context" payload))
  ok (text_items inspected ++ item_paths ranked)

-- `_allowed_existing_paths` and `_receipt_path` read the linked run, if one is named.
abbrev pub linked : Option String → Option String
linked none = none
linked (some id) = if id == "" then none else some id

abbrev pub linked_run_or_raise : String → Option (RunRecord × Dict) → Result (RunRecord × Dict)
linked_run_or_raise id none = raise value_error (format ("Linked run not found: " ∷ id ∷ []))
linked_run_or_raise id (some row) = ok row

abbrev pub read_linked : Repository → Option String → Result (Option (RunRecord × Dict))
read_linked repo none = ok none
read_linked repo (some id) = do row ← linked_run_or_raise id (get_run id repo); ok (some row)

abbrev pub execution_path : FilePath → String → Option (RunRecord × Dict) → FilePath
execution_path artifact_dir id none =
    artifact_dir ++ ("executions" ∷ format (id ∷ ".json" ∷ []) ∷ [])
execution_path artifact_dir id (some row) =
    parent row.0.audit_path ++ ("executions" ∷ format (id ∷ ".json" ∷ []) ∷ [])

-- `_allowed_existing_paths`; a set of which the members matter.
abbrev pub allowed_paths : Host → Option (RunRecord × Dict) → Result (Option (List String))
allowed_paths host none = ok none
allowed_paths host (some row) = do paths ← planned_paths host row.1; ok (some paths)

-- What stays the same in the loop.
pub record ExecutionSetting : Type 0 where
  pub host : Host
  pub guardrails : Guardrails
  pub repo_root : FilePath
  pub mode : PatchExecutionMode
  pub allowed : Option (List String)

-- The variables of the loop; a failure ends it.
pub record PatchProgress : Type 0 where
  pub files : Files
  pub receipts : List FileMutationReceipt
  pub blocked_paths : List String
  pub failure : Option String

abbrev pub given_paths : Option (List String) → List String
given_paths none = []
given_paths (some paths) = paths

-- Whether the target is a new file that the linked run does not allow.
abbrev pub is_forbidden : ExecutionSetting → FilePath → Files → Result Bool
is_forbidden e target files =
    if restricts e.allowed && not (exists target files)
    then is_allowed_new_file e.host e.repo_root (given_paths e.allowed) target
      >>= (λ allowed. ok (not allowed))
    else ok false

abbrev pub failed_with : PatchProgress → String → PatchProgress
failed_with p message = record p { failure = some message }

abbrev pub after_operation : PatchProgress → Result (Files × FileMutationReceipt) → PatchProgress
after_operation p (err e) = failed_with p e.message
after_operation p (ok (files, receipt)) = record p {
  files = files;
  receipts = p.receipts ++ receipt ∷ [];
}

abbrev pub unless_forbidden :
    ExecutionSetting → ℕ → PatchOperation → PatchProgress → FilePath → Result Bool → PatchProgress
unless_forbidden e index op p target (err x) = failed_with p x.message
unless_forbidden e index op p target (ok true) = record p {
  blocked_paths = p.blocked_paths ++ op.path ∷ [];
  failure =
      some
        (format ("New file path is outside allowed directories for linked run: " ∷ op.path ∷ []));
}
unless_forbidden e index op p target (ok false) =
    after_operation p (apply_operation e.host index e.mode target op p.files)

abbrev pub after_validation :
    ExecutionSetting → ℕ → PatchOperation → PatchProgress → Result FilePath → PatchProgress
after_validation e index op p (err x) = failed_with p x.message
after_validation e index op p (ok target) =
    unless_forbidden e index op p target (is_forbidden e target p.files)

-- One round of the loop.
unfoldable pub run_operation : ExecutionSetting → ℕ → PatchOperation → PatchProgress → PatchProgress
run_operation e index op p =
    after_validation e index op p
      (validate_operation e.host e.guardrails e.repo_root e.allowed p.files op)

abbrev pub unless_failed :
    PatchProgress → (PatchProgress → PatchProgress) → Option String → PatchProgress
unless_failed p next none = next p
unless_failed p next (some message) = p

-- The loop over the operations.
unfoldable pub run_operations :
    ExecutionSetting → ℕ → List PatchOperation → PatchProgress → PatchProgress
unfolding run_operation
run_operations e index [] p = p
run_operations e index (op ∷ rest) p =
    let q = run_operation e index op p in
    unless_failed q (λ r. run_operations e (suc index) rest r) q.failure
