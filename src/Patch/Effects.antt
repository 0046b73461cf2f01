-- ===== src/Patch/Effects.antt =====
-- What the execution of a patch does to the working tree.
use issue_to_pr_agent.Prelude.{
  ℕ, ◌≡◌, refl, sym, ◌∙◌, ap, subst, String, Bool, true, false, not, ◌&&◌, ◌||◌, ◌==◌, eq_iff,
  Option, none, some, List, [], ◌∷◌, ◌++◌, All, All-append, any, any-append, is_some, ok, ok_parts,
  ok_injective, arith, Bool-cases, inl, inr, if_rule, is_absolute, is_empty, path_parts, contains,
  raise_if, execution_error,
}
use issue_to_pr_agent.Domain.Queue.{FilePath}
use issue_to_pr_agent.Domain.Runs.{PatchExecutionMode}
use issue_to_pr_agent.Domain.Patches.{PatchOperation, FileMutationReceipt}
use issue_to_pr_agent.Approval.Context.{is_apply}
use issue_to_pr_agent.Patch.Files.{
  Files, Host, below, same_path, same_path-eq, content_at, write_text, content_at-write_text,
  exists, absolute_text, absolute_text-is_absolute, relative_text,
}
use issue_to_pr_agent.Patch.Guardrails.{
  Guardrails, resolve_path, within_root, validate_operation, restricts, is_among, check_type,
  ensure_safe_if_there,
}
use issue_to_pr_agent.Patch.Mutator.{
  apply_operation, compute_after_text, read_text, written, is_there,
}
use issue_to_pr_agent.Patch.Execute.{ExecutionSetting, PatchProgress}

-- A path that is below the root of the repository, once both are resolved.
abbrev pub IsWithin : ExecutionSetting → FilePath → Type 0
IsWithin e path = is_some (below (e.host.resolve e.repo_root) path) ≡ true

-- The receipts say that the file at a path was changed.
abbrev pub says_changed : FilePath → List FileMutationReceipt → Bool
says_changed path receipts = any (λ r. r.changed && r.path == absolute_text path) receipts

-- What may have happened to the tree, by the receipts.
pub record Effects (e : ExecutionSetting) (files : Files) (p : PatchProgress) : Type 0 where
  pub dry : is_apply e.mode ≡ false → p.files ≡ files
  pub confined :
      (path : FilePath)
      → is_some (below (e.host.resolve e.repo_root) path) ≡ false
      → content_at path p.files ≡ content_at path files
  pub accounted :
      (path : FilePath)
      → says_changed path p.receipts ≡ false
      → content_at path p.files ≡ content_at path files
  pub absolute : All (λ r. is_absolute r.path ≡ true) p.receipts

within_root-some :
    (path : String) (found : Option FilePath) (relative : FilePath)
    → within_root path found ≡ ok relative
    → is_some found ≡ true
within_root-some path none relative h = absurd (cc h)
within_root-some path (some r) relative h = refl

resolve_path-within :
    (host : Host) (g : Guardrails) (root : FilePath) (path : String) (end : FilePath × FilePath)
    → resolve_path host g root path ≡ ok end
    → is_some (below (host.resolve root) end.0) ≡ true
unfolding resolve_path
resolve_path-within host g root path end h =
    let (_, _, h1) = ok_parts (raise_if (is_absolute path) execution_error _) _ h in
    let (relative, found, h2) =
      ok_parts
        (within_root path (below (host.resolve root) (host.resolve (root ++ path_parts path)))) _
        h1 in
    let (_, _, h3) =
      ok_parts (raise_if (any (contains g.blocked_roots) (path_parts path)) execution_error _) _
        h2 in
    subst (λ p. is_some (below (host.resolve root) p.0) ≡ true) (ok_injective h3)
      (within_root-some path _ relative found)

pub validate-IsWithin :
    (e : ExecutionSetting) (files : Files) (op : PatchOperation) (target : FilePath)
    → validate_operation e.host e.guardrails e.repo_root e.allowed files op ≡ ok target
    → IsWithin e target
unfolding validate_operation
validate-IsWithin e files op target h =
    let (_, _, h1) = ok_parts (raise_if (is_empty op.path) execution_error _) _ h in
    let (resolved, found, h2) =
      ok_parts (resolve_path e.host e.guardrails e.repo_root op.path) _ h1 in
    let there : Bool = exists resolved.0 files in
    let (_, _, h3) =
      ok_parts
        (raise_if
          (restricts e.allowed && (there && not (is_among e.allowed (relative_text resolved.1))))
          execution_error _)
        _ h2 in
    let (_, _, h4) = ok_parts (check_type op op.type there) _ h3 in
    let (_, _, h5) =
      ok_parts (ensure_safe_if_there e.host e.guardrails resolved.0 (content_at resolved.0 files)) _
        h4 in
    subst (IsWithin e) (ok_injective h5)
      (resolve_path-within e.host e.guardrails e.repo_root op.path resolved found)

-- Nothing but the target is written.
written-elsewhere :
    (mode : PatchExecutionMode) (target path : FilePath) (before after : String) (files : Files)
    → same_path target path ≡ false
    → content_at path (written mode target before after files) ≡ content_at path files
written-elsewhere mode target path before after files h =
    if_rule (λ f. content_at path f ≡ content_at path files)
      (is_apply mode && not (before == after)) (write_text target after files) files
      (λ _. content_at-write_text target path after files h) (λ _. refl)

written-unchanged :
    (mode : PatchExecutionMode) (target : FilePath) (before after : String) (files : Files)
    → not (before == after) ≡ false
    → written mode target before after files ≡ files
written-unchanged PatchExecutionMode.dry_run target before after files h = refl
written-unchanged PatchExecutionMode.apply target before after files h = rw h

-- The receipt of one operation tells what it did to the tree.
pub record Applied (e : ExecutionSetting) (target : FilePath) (files after : Files)
    (r : FileMutationReceipt) : Type 0 where
  dry : is_apply e.mode ≡ false → after ≡ files
  elsewhere :
      (path : FilePath)
      → same_path target path ≡ false
      → content_at path after ≡ content_at path files
  unchanged : r.changed ≡ false → after ≡ files
  named : r.path ≡ absolute_text target

pub apply-Applied :
    (e : ExecutionSetting) (index : ℕ) (target : FilePath) (op : PatchOperation) (files : Files)
    (end : Files × FileMutationReceipt)
    → apply_operation e.host index e.mode target op files ≡ ok end
    → Applied e target files end.0 end.1
unfolding apply_operation
apply-Applied e index target op files end h =
    let (before, _, h1) = ok_parts (read_text e.host target (content_at target files)) _ h in
    let (after, _, h2) =
      ok_parts (compute_after_text op op.type before (is_there (content_at target files))) _ h1 in
    subst (λ p. Applied e target files p.0 p.1) (ok_injective h2)
      (record {
        dry = λ d. rw d;
        elsewhere = λ path s. written-elsewhere e.mode target path before after.0 files s;
        unchanged = λ u. written-unchanged e.mode target before after.0 files u;
        named = refl;
      })

not-same :
    (target path : FilePath) → (same_path target path ≡ true → ⊥) → same_path target path ≡ false
not-same target path h = elim (Bool-cases (same_path target path)) [
  | inl s ↦ absurd (h s)
  | inr d ↦ d
]

or-false : (a b : Bool) → (a || (b || false)) ≡ false → (a ≡ false) × (b ≡ false)
or-false a b h = ground arith

-- What the last receipt does not tell did not happen.
Applied-quiet :
    (e : ExecutionSetting) (target path : FilePath) (files after : Files) (r : FileMutationReceipt)
    → Applied e target files after r
    → (r.changed && r.path == absolute_text path) ≡ false
    → content_at path after ≡ content_at path files
Applied-quiet e target path files after r a quiet = elim (Bool-cases r.changed) [
  | inl changed ↦ a.elsewhere path (
      not-same target path (λ s.
        let named : (r.path == absolute_text path) ≡ true =
          (eq_iff r.path (absolute_text path)).1
            (a.named ∙ ap absolute_text (same_path-eq target path s)) in
        absurd (cc (rw (changed, named) at quiet))))
  | inr same ↦ ap (content_at path) (a.unchanged same)
]

-- One more operation and its receipt.
pub Applied-Effects :
    (e : ExecutionSetting) (start : Files) (p : PatchProgress) (target : FilePath) (files : Files)
    (r : FileMutationReceipt)
    → Effects e start p
    → IsWithin e target
    → Applied e target p.files files r
    → Effects e start (record p { files = files; receipts = p.receipts ++ r ∷ [] })
Applied-Effects e start p target files r v within a = record {
  dry = λ d. a.dry d ∙ v.dry d;
  confined = λ path out.
      a.elsewhere path
        (not-same target path (λ s. absurd (cc (rw (same_path-eq target path s) at within, out))))
      ∙ v.confined path out;
  accounted = λ path quiet.
      let (before, last) =
        or-false (says_changed path p.receipts) (r.changed && r.path == absolute_text path) (
          sym (any-append (λ q. q.changed && q.path == absolute_text path) p.receipts (r ∷ []))
          ∙ quiet) in
      Applied-quiet e target path p.files files r a last ∙ v.accounted path before;
  absolute =
      All-append (λ q. is_absolute q.path ≡ true) p.receipts (r ∷ []) v.absolute
        (rw a.named (absolute_text-is_absolute target), tt);
}
