-- ===== src/Policy/Examples.antt =====
-- The theorems on policies at concrete ones.
use issue_to_pr_agent.Queue.Create.{sorted_set}
use issue_to_pr_agent.Policy.Governance.{
  matches_path_pattern, sorted, GovernanceRequest, normalize_optional,
}
use issue_to_pr_agent.Policy.GovernanceEvaluator.{
  governance_kind, governance_blocks, evaluate_governance,
}
use issue_to_pr_agent.Policy.Gates.{Passes, evaluate_governance_iff}
use issue_to_pr_agent.Prelude.{
  fnmatch, format, has_part, as_posix, has_text, join, lower_text, starts_with, ◌≡◌, refl, String,
  true, none, some, List, [], ◌∷◌, ok, is_some, strip,
}
use issue_to_pr_agent.Domain.Json.{
  arr, Items, put, string_items, Dict, Json, empty, entry, str, obj, nat, get,
}
use issue_to_pr_agent.Approval.Context.{IsLawful, ReviewRequest}
use issue_to_pr_agent.Policy.Load.{merge_sections, merge_dicts, load_policy, repo_policy}
use issue_to_pr_agent.Policy.Merge.{merged_at, get-merge_dicts}
use issue_to_pr_agent.Policy.Complete.{repo_policy_complete}
use issue_to_pr_agent.Policy.Read.{changed_paths_of, lowercase_strings, matching_paths}
use issue_to_pr_agent.Policy.Evaluate.{reason_if, Signals, assess}
use issue_to_pr_agent.Policy.Evaluator.{
  approval_kind, default_section, evaluator, ensure_reviewer_can_decide,
}
use issue_to_pr_agent.Policy.Lawful.{MayDecide, ensure_reviewer_iff, evaluator-IsLawful}
use issue_to_pr_agent.Policy.Risk.{assess-worst, worst, critical_signal, high_signal, medium_signal}

abbrev base : Dict
base =
    entry "low" (nat 0)
      (entry "limits" (obj (entry "files" (nat 2) (entry "size" (nat 9) empty))) empty)

abbrev override : Dict
override = entry "limits" (obj (entry "files" (nat 5) empty)) (entry "team" (str "ops") empty)

-- The file's limit is the override's, and the size is still there.
merges :
    merge_dicts base override
    ≡ entry "low" (nat 0) (
        entry "limits"
          (obj (entry "files" (nat 5) (entry "size" (nat 9) empty)))
          (entry "team" (str "ops") empty))
unfolding merge_dicts put get
merges = refl

get-merge_dicts_example :
    get "limits" (merge_dicts base override) ≡ merged_at (get "limits" override) (get "limits" base)
unfolding get
get-merge_dicts_example = get-merge_dicts "limits" base override (refl, (refl, tt))

abbrev tenant_policy : Dict
tenant_policy = entry "default" (obj default_section) (
    entry "repos"
      (obj (entry "acme/site" (obj (entry "allow_self_approval" (Json.bool true) empty)) empty))
      (entry "teams" (obj empty) empty))

abbrev overrides : Dict
overrides =
    entry "repos"
      (obj (entry "acme/site" (obj (entry "allow_self_approval" (Json.bool true) empty)) empty))
      empty

loads_overrides : load_policy approval_kind none (some (obj overrides)) ≡ ok tenant_policy
unfolding load_policy merge_sections get put merge_dicts
loads_overrides = refl

repo_policy_complete_example :
    is_some (get "high_risk_paths" (repo_policy tenant_policy "acme/site")) ≡ true
unfolding get
repo_policy_complete_example =
    repo_policy_complete approval_kind none (some (obj overrides)) tenant_policy "acme/site"
      "high_risk_paths" loads_overrides refl

abbrev sample_request : ReviewRequest
sample_request = record {
  repo_full_name = "acme/site";
  requested_by = "ana";
  actor = "ana";
  reviewer_team = " ops ";
  required_reviewer_teams = "Ops" ∷ [];
  assigned_reviewers = [];
  assigned_reviewer_teams = [];
}

ensure_reviewer_iff_example :
    (ensure_reviewer_can_decide tenant_policy sample_request ≡ ok tt
      → MayDecide tenant_policy sample_request)
    × (MayDecide tenant_policy sample_request
        → ensure_reviewer_can_decide tenant_policy sample_request ≡ ok tt)
ensure_reviewer_iff_example = ensure_reviewer_iff tenant_policy sample_request

-- With self-approval, the requester may decide, and the case of a team's name does not matter.
decides_own : ensure_reviewer_can_decide tenant_policy sample_request ≡ ok tt
unfolding ensure_reviewer_can_decide has_text get lowercase_strings repo_policy put string_items
    lower_text strip
decides_own = refl

evaluator-IsLawful_example : IsLawful (evaluator tenant_policy)
evaluator-IsLawful_example = evaluator-IsLawful tenant_policy

abbrev risky : Signals
risky = record {
  changed_paths = "infra/main.tf" ∷ "secrets/key" ∷ [];
  blocked_labels = [];
  critical_labels = [];
  high_labels = [];
  command_decisions = "review" ∷ [];
  attempts = 2;
  skipped_commands = 0;
}

assess-worst_example :
    (assess default_section risky).risk_level
    ≡ worst
        (critical_signal default_section risky)
        (high_signal default_section risky)
        (medium_signal default_section risky)
assess-worst_example = assess-worst default_section risky

abbrev critical_rules : List String
critical_rules = "secrets/" ∷ "policies/" ∷ "deploy/prod/" ∷ "ops/" ∷ []

-- A relative path does match.
matches_relative : matching_paths ("secrets/key" ∷ []) critical_rules ≡ "secrets/key" ∷ []
unfolding matching_paths has_text strip starts_with as_posix join
matches_relative = refl

abbrev sample_delivery : GovernanceRequest
sample_delivery = record {
  repo_full_name = "acme/site";
  base_branch = "main";
  base_branch_protected = true;
  rollout_stage = some " Staging ";
  run_payload = entry "planner_provider" (str "OpenAI") empty;
  execution_payload =
      entry "receipts"
        (arr (
          Items.cons
            (obj (entry "path" (str "infra/main.tf") (entry "changed" (Json.bool true) empty)))
            Items.nil))
        empty;
  patch_payload = none;
}

evaluate_governance_iff_example :
    ((evaluate_governance governance_kind.default_policy sample_delivery).blocked_reasons ≡ []
      → Passes
          (repo_policy governance_kind.default_policy "acme/site")
          sample_delivery
          (normalize_optional (some " Staging ")))
    × (Passes
          (repo_policy governance_kind.default_policy "acme/site")
          sample_delivery
          (normalize_optional (some " Staging "))
        → (evaluate_governance governance_kind.default_policy sample_delivery).blocked_reasons ≡ [])
evaluate_governance_iff_example =
    evaluate_governance_iff governance_kind.default_policy sample_delivery

-- A path of infra/ passes with a stage, and not without one.
passes_staged :
    (governance_blocks
        (repo_policy governance_kind.default_policy "acme/site")
        sample_delivery
        (some "staging")
      ≡ [])
    × (governance_blocks
          (repo_policy governance_kind.default_policy "acme/site")
          sample_delivery
          none
        ≡ "Delivery requires an explicit rollout stage for paths: infra/main.tf" ∷ [])
unfolding governance_blocks reason_if get repo_policy string_items fnmatch strip sorted
    changed_paths_of matches_path_pattern has_part as_posix join lower_text sorted_set format
passes_staged = (refl, refl)
