-- ===== src/Patch/Mutator.antt =====
-- `LocalWorkspaceMutator` of `infrastructure/workspace/mutator.py`.
use issue_to_pr_agent.Prelude.{
  ℕ, zero, suc, String, Bool, true, false, not, ◌&&◌, ◌==◌, eqb, Option, none, some, [], ◌∷◌,
  if◌then◌else◌, Result, ok, raise, raise_if, execution_error, os_error, ◌>>=◌, ◌>>◌, format, show,
  length, codes,
}
use Prim.Native.Char.{Char, code}
use issue_to_pr_agent.Domain.Queue.{FilePath}
use issue_to_pr_agent.Domain.Runs.{PatchExecutionMode}
use issue_to_pr_agent.Domain.Patches.{
  PatchOperation, PatchOperationType, write_file, replace_text, append_text, FileMutationReceipt,
}
use issue_to_pr_agent.Approval.Context.{is_apply}
use issue_to_pr_agent.Patch.Files.{
  Files, FileContent, text, binary, directory, Host, content_at, write_text, absolute_text,
}

-- What follows the part at the start of a text.
unfoldable pub after_prefix : String → String → Option String
after_prefix String.[] s = some s
after_prefix (String.◌∷◌ c part) String.[] = none
after_prefix (String.◌∷◌ c part) (String.◌∷◌ d s) =
    let rest = after_prefix part s in if eqb (code c) (code d) then rest else none

abbrev pub one_more : Char → Option (String × String) → Option (String × String)
one_more c none = none
one_more c (some (before, after)) = some (String.◌∷◌ c before, after)

abbrev pub or_later : Option String → Char → Option (String × String) → Option (String × String)
or_later (some rest) c later = some ("", rest)
or_later none c later = one_more c later

-- The texts before and after the first occurrence of a part that is not empty.
unfoldable pub split_first : String → String → Option (String × String)
unfolding after_prefix
split_first part String.[] = none
split_first part (String.◌∷◌ c s) =
    let later = split_first part s in or_later (after_prefix part (String.◌∷◌ c s)) c later

abbrev pub counted : (String → ℕ) → Option (String × String) → ℕ
counted more none = 0
counted more (some (before, after)) = suc (more after)

-- `text.count(part)`: each occurrence takes a character off at least, so the length is enough fuel.
unfoldable pub count_fuel : ℕ → String → String → ℕ
unfolding split_first
count_fuel zero part s = 0
count_fuel (suc fuel) part s = counted (λ after. count_fuel fuel part after) (split_first part s)

unfoldable pub occurrences : String → String → ℕ
unfolding count_fuel
occurrences part s = count_fuel (length (codes s)) part s

-- `text.replace(part, new, 1)`
abbrev pub replaced : String → String → Option (String × String) → String
replaced s new none = s
replaced s new (some (before, after)) = format (before ∷ new ∷ after ∷ [])

-- `_compute_after_text`
unfoldable pub compute_after_text :
    PatchOperation → PatchOperationType → String → Bool → Result (String × String)
unfolding occurrences
compute_after_text op write_file before existed =
    ok (op.content, if existed then "overwrite file" else "create file")
compute_after_text op append_text before existed =
    ok (format (before ∷ op.content ∷ []), "append text")
compute_after_text op replace_text before existed = do
  let found : ℕ = occurrences op.find_text before
  raise_if (eqb found 0) execution_error
      (format ("Text to replace was not found in " ∷ op.path ∷ []))
  raise_if (not (eqb found 1)) execution_error (
      format (
        "Text replacement is ambiguous in "
        ∷ op.path
        ∷ "; found "
        ∷ show found
        ∷ " occurrences"
        ∷ []))
  ok (replaced before op.replace_text (split_first op.find_text before), "replace text")

-- `_read_text`, or no text where nothing stands.
abbrev pub read_text : Host → FilePath → Option FileContent → Result String
read_text host path none = ok ""
read_text host path (some (text s)) = ok s
read_text host path (some (binary n)) =
    raise execution_error
      (format ("Binary or non-UTF8 files are not supported: " ∷ absolute_text path ∷ []))
read_text host path (some (directory n)) = raise os_error (host.is_a_directory (absolute_text path))

abbrev pub digest_before : Host → Option FileContent → String → Option String
digest_before host none before = none
digest_before host (some content) before = some (host.sha256 before)

abbrev pub bytes_before : Host → Option FileContent → String → ℕ
bytes_before host none before = 0
bytes_before host (some content) before = host.byte_length before

abbrev pub is_there : Option FileContent → Bool
is_there none = false
is_there (some content) = true

-- `FileMutationReceipt(...)`
abbrev pub mutation_receipt :
    Host
    → ℕ
    → PatchOperation
    → FilePath
    → Option FileContent
    → String
    → String × String
    → FileMutationReceipt
mutation_receipt host index op path content before (after, detail) = record {
  operation_index = index;
  operation_type = op.type;
  path = absolute_text path;
  changed = not (before == after);
  before_sha256 = digest_before host content before;
  after_sha256 = host.sha256 after;
  before_bytes = bytes_before host content before;
  after_bytes = host.byte_length after;
  detail = detail;
}

-- The write, which only an apply makes, and only of a text that is new.
abbrev pub written : PatchExecutionMode → FilePath → String → String → Files → Files
written mode path before after files =
    let new = write_text path after files in
    if is_apply mode && not (before == after) then new else files

-- `apply_operation`
unfoldable pub apply_operation :
    Host
    → ℕ
    → PatchExecutionMode
    → FilePath
    → PatchOperation
    → Files
    → Result (Files × FileMutationReceipt)
unfolding compute_after_text
apply_operation host index mode path op files = do
  let content : Option FileContent = content_at path files
  before ← read_text host path content
  after ← compute_after_text op op.type before (is_there content)
  ok (
    written mode path before after.0 files,
    mutation_receipt host index op path content before after,
  )
