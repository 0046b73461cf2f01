-- ===== src/Patch/Guardrails.antt =====
-- `WorkspaceGuardrails` of `domain/policies/workspace.py`.
use issue_to_pr_agent.Prelude.{
  ℕ, String, Bool, true, false, not, ◌&&◌, Option, none, some, List, [], ◌∷◌, ◌++◌, Result, ok,
  raise, raise_if, execution_error, ◌>>=◌, ◌>>◌, format, is_empty, is_absolute, any, contains, ltb,
  path_parts,
}
use issue_to_pr_agent.Domain.Queue.{FilePath}
use issue_to_pr_agent.Domain.Patches.{
  PatchOperation, PatchOperationType, write_file, replace_text, append_text,
}
use issue_to_pr_agent.Patch.Files.{
  Files, FileContent, text, binary, directory, Host, below, content_at, exists, relative_text,
  absolute_text,
}

-- The two arguments of the constructor.
pub record Guardrails : Type 0 where
  pub blocked_roots : List String
  pub max_file_bytes : ℕ

abbrev pub default_guardrails : Guardrails
default_guardrails = record {
  blocked_roots = ".git" ∷ ".issue-to-pr" ∷ "__pycache__" ∷ [];
  max_file_bytes = 512000;
}

abbrev pub within_root : String → Option FilePath → Result FilePath
within_root path none =
    raise execution_error (format ("Path escapes repository root: " ∷ path ∷ []))
within_root path (some relative) = ok relative

-- `resolve_path`, with the path relative to the root beside it.
unfoldable pub resolve_path : Host → Guardrails → FilePath → String → Result (FilePath × FilePath)
resolve_path host g repo_root path = do
  raise_if (is_absolute path) execution_error
      (format ("Absolute paths are not allowed: " ∷ path ∷ []))
  let normalized : FilePath = host.resolve (repo_root ++ path_parts path)
  relative ← within_root path (below (host.resolve repo_root) normalized)
  raise_if (any (contains g.blocked_roots) (path_parts path)) execution_error
      (format ("Path is inside a blocked directory: " ∷ path ∷ []))
  ok (normalized, relative)

abbrev pub size_of : Host → FileContent → ℕ
size_of host (text s) = host.byte_length s
size_of host (binary n) = n
size_of host (directory n) = n

-- `ensure_file_is_safe`, of a path where something stands.
unfoldable pub ensure_file_is_safe : Host → Guardrails → FilePath → FileContent → Result (Unit {0})
ensure_file_is_safe host g path content = do
  raise_if (host.is_symlink path) execution_error
      (format ("Symlinks are not supported for patch execution: " ∷ absolute_text path ∷ []))
  raise_if (ltb g.max_file_bytes (size_of host content)) execution_error
      (format ("File exceeds the execution size limit: " ∷ absolute_text path ∷ []))

abbrev pub ensure_safe_if_there :
    Host → Guardrails → FilePath → Option FileContent → Result (Unit {0})
ensure_safe_if_there host g path none = ok tt
ensure_safe_if_there host g path (some content) = ensure_file_is_safe host g path content

-- The tests of each type of operation, on whether the target exists.
abbrev pub check_type : PatchOperation → PatchOperationType → Bool → Result (Unit {0})
check_type op replace_text there = do
  raise_if (not there) execution_error
      (format ("replace_text target does not exist: " ∷ op.path ∷ []))
  raise_if (is_empty op.find_text) execution_error
      (format ("replace_text requires find_text: " ∷ op.path ∷ []))
check_type op append_text there = do
  raise_if (not there) execution_error
      (format ("append_text target does not exist: " ∷ op.path ∷ []))
  raise_if (is_empty op.content) execution_error
      (format ("append_text requires content: " ∷ op.path ∷ []))
check_type op write_file there = raise_if (there && not op.allow_overwrite) execution_error (
    format ("write_file would overwrite an existing file without allow_overwrite: " ∷ op.path ∷ []))

-- `allowed_existing_paths`, which restricts nothing when it is missing or empty.
abbrev pub restricts : Option (List String) → Bool
restricts none = false
restricts (some []) = false
restricts (some (path ∷ rest)) = true

abbrev pub is_among : Option (List String) → String → Bool
is_among none path = false
is_among (some paths) path = contains paths path

-- `validate_operation`
unfoldable pub validate_operation :
    Host → Guardrails → FilePath → Option (List String) → Files → PatchOperation → Result FilePath
unfolding resolve_path ensure_file_is_safe
validate_operation host g repo_root allowed files op = do
  raise_if (is_empty op.path) execution_error "Patch operations must include a relative path."
  resolved ← resolve_path host g repo_root op.path
  let there : Bool = exists resolved.0 files
  raise_if (restricts allowed && (there && not (is_among allowed (relative_text resolved.1))))
      execution_error
      (format ("Operation targets a file outside the allowed execution set: " ∷ op.path ∷ []))
  check_type op op.type there
  ensure_safe_if_there host g resolved.0 (content_at resolved.0 files)
  ok resolved.0
