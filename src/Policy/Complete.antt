-- ===== src/Policy/Complete.antt =====
-- `_load_policy` and `_repo_policy` keep every key of the default policy, so that the evaluators find
-- each of the keys that they index.
use issue_to_pr_agent.Prelude.{
  String, true, ◌≡◌, subst, Option, none, some, List, [], ◌∷◌, ◌==◌, eq_iff, is_some, ok, ok_parts,
  ok_injective, Bool-cases, inl, inr,
}
use issue_to_pr_agent.Domain.Json.{
  Json, Dict, null, bool, num, str, time, arr, obj, get, put, get-put, dict_value,
}
use issue_to_pr_agent.Policy.Load.{
  merge_dicts, PolicyKind, PolicyFile, merged_section, merge_sections, object_or_raise, read_file,
  load_file, with_overrides, load_policy, repo_policy, with_repo,
}
use issue_to_pr_agent.Policy.Merge.{Keeps, merge_dicts-Keeps}

-- The section that applies to every repository.
abbrev pub default_of : Dict → Dict
default_of policy = dict_value (get "default" policy)

section-Keeps :
    (key : String) (section policy : Dict)
    → Keeps
        (default_of policy)
        (default_of (put key (obj (merge_dicts (dict_value (get key policy)) section)) policy))
section-Keeps key section policy k h =
    let written =
      get-put key "default" (obj (merge_dicts (dict_value (get key policy)) section)) policy in
    elim (Bool-cases (key == "default")) [
      | inl hit ↦
          let same = (eq_iff key "default").0 hit in
          rw (written, hit, same)
            (merge_dicts-Keeps (dict_value (get "default" policy)) section k h)
      | inr miss ↦ rw (written, miss) h
    ]

-- The default section has kept its keys.
abbrev pub Grows : Dict → Dict → Type 0
Grows policy after = Keeps (default_of policy) (default_of after)

Grows-ok : (policy after : Dict) → ok policy ≡ ok after → Grows policy after
Grows-ok policy after h = subst (Grows policy) (ok_injective h) (λ k e. e)

merged_section-Grows :
    (name key : String) (policy : Dict) (section : Option Json) (after : Dict)
    → merged_section name key policy section ≡ ok after
    → Grows policy after
merged_section-Grows name key policy none after h = Grows-ok policy after h
merged_section-Grows name key policy (some value) after h =
    let (section, _, end) = ok_parts (object_or_raise _ value) _ h in
    subst (Grows policy) (ok_injective end) (section-Keeps key section policy)

merge_sections-Grows :
    (name : String) (sections : List String) (document policy after : Dict)
    → merge_sections name sections document policy ≡ ok after
    → Grows policy after
unfolding merge_sections
merge_sections-Grows name [] document policy after h = Grows-ok policy after h
merge_sections-Grows name (key ∷ rest) document policy after h =
    let (merged, first, more) = ok_parts (merged_section name key policy (get key document)) _ h in
    λ k e.
      merge_sections-Grows name rest document merged after more k
        (merged_section-Grows name key policy (get key document) merged first k e)

load_file-Grows :
    (kind : PolicyKind) (file : Option PolicyFile) (after : Dict)
    → load_file kind file ≡ ok after
    → Grows kind.default_policy after
load_file-Grows kind none after h = Grows-ok kind.default_policy after h
load_file-Grows kind (some file) after h =
    let (document, _, end) = ok_parts (read_file kind file) _ h in
    merge_sections-Grows kind.name kind.sections document kind.default_policy after end

with_overrides-Grows :
    (kind : PolicyKind) (overrides : Option Json) (policy after : Dict)
    → with_overrides kind overrides policy ≡ ok after
    → Grows policy after
with_overrides-Grows kind none policy after h = Grows-ok policy after h
with_overrides-Grows kind (some value) policy after h =
    let (document, _, end) = ok_parts (object_or_raise _ value) _ h in
    merge_sections-Grows _ kind.sections document policy after end

with_repo-Keeps :
    (defaults : Dict) (override : Option Json) → Keeps defaults (with_repo defaults override)
with_repo-Keeps defaults none k h = h
with_repo-Keeps defaults (some null) k h = h
with_repo-Keeps defaults (some (bool b)) k h = h
with_repo-Keeps defaults (some (num n)) k h = h
with_repo-Keeps defaults (some (str s)) k h = h
with_repo-Keeps defaults (some (time t)) k h = h
with_repo-Keeps defaults (some (arr items)) k h = h
with_repo-Keeps defaults (some (obj override)) k h = merge_dicts-Keeps defaults override k h

-- However a policy is loaded, from a file, with a tenant's overrides, for any repository: the policy of
-- the repository has every key of the default section of the default policy.
pub repo_policy_complete :
    (kind : PolicyKind) (file : Option PolicyFile) (overrides : Option Json) (policy : Dict)
    (repo key : String)
    → load_policy kind file overrides ≡ ok policy
    → is_some (get key (default_of kind.default_policy)) ≡ true
    → is_some (get key (repo_policy policy repo)) ≡ true
unfolding load_policy repo_policy
repo_policy_complete kind file overrides policy repo key h has =
    let (base, first, end) = ok_parts (load_file kind file) _ h in
    with_repo-Keeps (default_of policy) (get repo (dict_value (get "repos" policy))) key (
      with_overrides-Grows kind overrides base policy end key
        (load_file-Grows kind file base first key has))
