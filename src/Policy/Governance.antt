-- ===== src/Policy/Governance.antt =====
-- `DeliveryGovernancePolicyEvaluator` of `application/services/delivery_governance.py`: its rules.
use Prim.Native.String.{compare}
use Prim.Native.Char.{code}
use text.Mathlib.Text.{is_lt}
use issue_to_pr_agent.Prelude.{
  String, Bool, true, false, not, ◌&&◌, ◌||◌, ◌==◌, eqb, Option, none, some, List, [], ◌∷◌, map,
  filter, any, contains, if◌then◌else◌, or_else, has_text, strip, lower_text, is_empty, format,
  codes, has_part, as_posix, fnmatch,
}
use issue_to_pr_agent.Domain.Json.{
  Json, Items, Dict, bool, str, arr, obj, nil, cons, get, string_list, dict_value,
}
use issue_to_pr_agent.Approval.Workflow.{no_strings}
use issue_to_pr_agent.Queue.Create.{sorted_set}
use issue_to_pr_agent.Policy.Read.{is_true, extract_changed_paths, has_prefix}

-- `sorted`, which keeps what stands twice.
unfoldable pub sorted : List String → List String
sorted [] = []
sorted (t ∷ ts) = insert t (sorted ts)
  where
    insert : String → List String → List String
    insert s [] = s ∷ []
    insert s (x ∷ xs) =
        let rest = insert s xs in if is_lt (compare x s) then x ∷ rest else s ∷ x ∷ xs

-- `_string_list`
abbrev pub clean_list : String → Dict → List String
clean_list key repo = map strip (string_list (get key repo))

-- `_string_value`
abbrev pub clean_text : Option Json → String
clean_text (some (str s)) = strip s
clean_text _ = ""

-- `_normalize_optional`
unfoldable pub normalize_optional : Option String → Option String
normalize_optional none = none
normalize_optional (some value) = if has_text value then some (lower_text (strip value)) else none

-- `text.rstrip("/")`
unfoldable pub without_slashes : String → String
without_slashes String.[] = ""
without_slashes (String.◌∷◌ c s) =
    let rest = without_slashes s in
    if is_empty rest && eqb (code c) b'/' then "" else String.◌∷◌ c rest

abbrev pub has_wildcard : String → Bool
has_wildcard pattern =
    any (λ token. has_part (codes token) (codes pattern)) ("*" ∷ "?" ∷ "[" ∷ "]" ∷ [])

-- `_matches_path_pattern`
unfoldable pub matches_path_pattern : String → String → Bool
unfolding without_slashes
matches_path_pattern path pattern =
    let trimmed = without_slashes (as_posix pattern) in
    if is_empty pattern
    then false
    else if has_wildcard (as_posix pattern)
    then fnmatch (as_posix path) (as_posix pattern)
    else as_posix path == trimmed || has_prefix (as_posix path) (format (trimmed ∷ "/" ∷ []))

-- `_matching_paths`
abbrev pub governed_paths : List String → List String → List String
governed_paths paths patterns = filter (λ path. any (matches_path_pattern path) patterns) paths

-- `_extract_changed_paths`
abbrev pub delivered_paths : Dict → List String
delivered_paths execution_payload = map strip (extract_changed_paths execution_payload)

-- `_extract_plan_commands`
abbrev pub plan_commands : Dict → List String
plan_commands run_payload = clean_list "commands" (dict_value (get "plan" run_payload))

unfoldable pub assessment_decisions : Items → List String
assessment_decisions nil = []
assessment_decisions (cons (obj d) rest) =
    lower_text (clean_text (get "decision" d)) ∷ assessment_decisions rest
assessment_decisions (cons _ rest) = assessment_decisions rest

abbrev pub assessments_of : Dict → List String
assessments_of run_payload = decisions (get "command_assessments" run_payload)
  where
    decisions : Option Json → List String
    decisions (some (arr items)) = assessment_decisions items
    decisions _ = []

-- The arguments of an evaluation.
pub record GovernanceRequest : Type 0 where
  pub repo_full_name : String
  pub base_branch : String
  pub base_branch_protected : Bool
  pub rollout_stage : Option String
  pub run_payload : Dict
  pub execution_payload : Dict
  pub patch_payload : Option Dict

abbrev pub patch_of : GovernanceRequest → Dict
patch_of r = or_else r.patch_payload Dict.empty

abbrev pub planner_provider : GovernanceRequest → String
planner_provider r = clean_text (get "planner_provider" r.run_payload)

abbrev pub patch_provider : GovernanceRequest → String
patch_provider r = clean_text (get "provider" (patch_of r))

abbrev pub planner_model : GovernanceRequest → String
planner_model r = clean_text (get "planner_model" r.run_payload)

abbrev pub patch_model : GovernanceRequest → String
patch_model r = clean_text (get "model" (patch_of r))

-- A value that is given, where some are allowed, and that is none of them.
abbrev pub is_unlisted : String → List String → Bool
is_unlisted value allowed =
    not (is_empty value)
    && (not (no_strings allowed) && not (contains (map lower_text allowed) (lower_text value)))

abbrev pub stage_unlisted : Option String → List String → Bool
stage_unlisted none allowed = false
stage_unlisted (some stage) allowed =
    not (no_strings allowed) && not (contains (map lower_text allowed) (lower_text stage))

abbrev pub is_production : Option String → Bool
is_production none = false
is_production (some stage) = stage == "production"

abbrev pub matched_repos : Dict → GovernanceRequest → List String
matched_repos repo r =
    sorted (filter (fnmatch r.repo_full_name) (clean_list "blocked_repo_patterns" repo))

abbrev pub governed_at : String → Dict → GovernanceRequest → List String
governed_at key repo r = governed_paths (delivered_paths r.execution_payload) (clean_list key repo)

abbrev pub blocked_commands : Dict → GovernanceRequest → List String
blocked_commands repo r = sorted (
    filter (λ command. any (fnmatch command) (clean_list "blocked_command_patterns" repo))
      (plan_commands r.run_payload))

abbrev pub blocked_assessments : Dict → GovernanceRequest → List String
blocked_assessments repo r = sorted_set (
    filter (contains (map lower_text (clean_list "blocked_command_decisions" repo)))
      (assessments_of r.run_payload))

abbrev pub protection_required : Dict → Bool
protection_required repo = is_true (or_else (get "require_base_branch_protection" repo) (bool true))

abbrev pub repo_unlisted : Dict → GovernanceRequest → Bool
repo_unlisted repo r =
    let allowed = clean_list "allowed_repo_patterns" repo in
    not (no_strings allowed) && not (any (fnmatch r.repo_full_name) allowed)
