-- ===== src/Policy/GovernanceEvaluator.antt =====
-- `DeliveryGovernancePolicyEvaluator` of `application/services/delivery_governance.py`: its default
-- policy, and the evaluation of a delivery.
use issue_to_pr_agent.Prelude.{
  String, Bool, true, false, not, ◌&&◌, Option, none, some, List, [], ◌∷◌, ◌++◌, is_some, format,
  join, show, length, if◌then◌else◌, or_else, is_empty,
}
use issue_to_pr_agent.Domain.Json.{Dict, bool, str, arr, obj, empty, entry, strs}
use issue_to_pr_agent.Domain.Approvals.{DeliveryGovernanceEvaluation}
use issue_to_pr_agent.Approval.Workflow.{no_strings}
use issue_to_pr_agent.Policy.Load.{PolicyKind, repo_policy}
use issue_to_pr_agent.Policy.Evaluate.{reason_if}
use issue_to_pr_agent.Policy.Governance.{
  sorted, clean_list, normalize_optional, delivered_paths, GovernanceRequest, planner_provider,
  patch_provider, planner_model, patch_model, is_unlisted, stage_unlisted, is_production,
  matched_repos, governed_at, blocked_commands, blocked_assessments, protection_required,
  repo_unlisted,
}

-- `_DEFAULT_POLICY`
abbrev pub governance_kind : PolicyKind
governance_kind = record {
  default_policy =
      entry "default"
        (obj (
          entry "allowed_repo_patterns" (arr (strs ("*" ∷ []))) (
            entry "blocked_repo_patterns" (arr (strs [])) (
              entry "blocked_path_patterns" (arr (strs [])) (
                entry "require_rollout_stage_for_paths"
                  (arr (
                    strs (
                      ".github/workflows/*" ∷ "infra/*" ∷ "terraform/*" ∷ "deploy/*" ∷ "ops/*"
                      ∷ "policies/*" ∷ [])))
                  (entry "require_production_rollout_for_paths"
                    (arr (strs ("deploy/prod/*" ∷ "ops/prod/*" ∷ [])))
                    (entry "allowed_rollout_stages"
                      (arr (strs ("dev" ∷ "staging" ∷ "production" ∷ [])))
                      (entry "blocked_command_patterns" (arr (strs [])) (
                        entry "blocked_command_decisions" (arr (strs ("block" ∷ []))) (
                          entry "allowed_planner_providers"
                            (arr (strs ("heuristic" ∷ "openai" ∷ [])))
                            (entry "allowed_patch_providers" (arr (strs [])) (
                              entry "allowed_planner_models" (arr (strs [])) (
                                entry "allowed_patch_models" (arr (strs [])) (
                                  entry "require_base_branch_protection" (bool true)
                                    empty))))))))))))))
        (entry "repos" (obj empty) empty);
  sections = "default" ∷ "repos" ∷ [];
  name = "Delivery governance policy";
  override_name = "Tenant delivery governance";
}

-- An `if` that appends to the blocked reasons: its test, and the parts of the reason.
abbrev pub Gate : Type 0
Gate = Bool × List String

unfoldable pub reasons_of : List Gate → List String
reasons_of [] = []
reasons_of ((test, parts) ∷ rest) = reason_if test parts ++ reasons_of rest

-- A list of texts that the reason names.
abbrev pub listed_gate : List String → String → Gate
listed_gate found reason = (not (no_strings found), reason ∷ join ", " found ∷ [])

abbrev pub unlisted_gate : String → String → List String → Gate
unlisted_gate kind value allowed = (
  is_unlisted value allowed,
  kind ∷ " '" ∷ value ∷ "' is not allowed by delivery governance policy." ∷ [],
)

-- A list of paths that need what the stage does not give.
abbrev pub staged_gate : Bool → List String → String → Gate
staged_gate given paths reason =
    (not (no_strings paths) && not given, reason ∷ join ", " (sorted paths) ∷ [])

-- The tests, in their order.
abbrev pub gates : Dict → GovernanceRequest → Option String → List Gate
gates repo r stage =
    (
      repo_unlisted repo r,
      "Repository '" ∷ r.repo_full_name ∷ "' is not allowed by delivery governance policy." ∷ [],
    )
    ∷ listed_gate (matched_repos repo r) "Repository matches blocked governance patterns: "
    ∷ staged_gate false (governed_at "blocked_path_patterns" repo r)
        "Blocked paths cannot be delivered automatically: "
    ∷ staged_gate (is_some stage) (governed_at "require_rollout_stage_for_paths" repo r)
        "Delivery requires an explicit rollout stage for paths: "
    ∷ (
      stage_unlisted stage (clean_list "allowed_rollout_stages" repo),
      "Rollout stage '" ∷ or_else stage "" ∷ "' is not allowed by delivery governance policy." ∷ [],
    )
    ∷ staged_gate (is_production stage) (governed_at "require_production_rollout_for_paths" repo r)
        "Delivery requires rollout stage 'production' for paths: "
    ∷ unlisted_gate "Planner provider" (planner_provider r)
        (clean_list "allowed_planner_providers" repo)
    ∷ unlisted_gate "Patch provider" (patch_provider r) (clean_list "allowed_patch_providers" repo)
    ∷ unlisted_gate "Planner model" (planner_model r) (clean_list "allowed_planner_models" repo)
    ∷ unlisted_gate "Patch model" (patch_model r) (clean_list "allowed_patch_models" repo)
    ∷ listed_gate (blocked_commands repo r)
        "Planner commands are blocked by delivery governance policy: "
    ∷ listed_gate (blocked_assessments repo r)
        "Planner command assessments are blocked for delivery: "
    ∷ (
      protection_required repo && not r.base_branch_protected,
      "Base branch '" ∷ r.base_branch
          ∷ "' is not protected, but delivery governance requires branch protection." ∷ [],
    )
    ∷ []

unfoldable pub governance_blocks : Dict → GovernanceRequest → Option String → List String
unfolding reasons_of
governance_blocks repo r stage = reasons_of (gates repo r stage)

abbrev pub stage_reason : Option String → List String
stage_reason none = []
stage_reason (some stage) =
    format ("Rollout stage '" ∷ stage ∷ "' was declared for delivery." ∷ []) ∷ []

abbrev pub governance_reasons : Dict → GovernanceRequest → Option String → List String
governance_reasons repo r stage =
    stage_reason stage
    ++ reason_if (protection_required repo && r.base_branch_protected)
        ("Base branch '" ∷ r.base_branch ∷ "' is protected." ∷ [])
    ++ reason_if (not (is_empty (planner_provider r)))
        ("Planner provider '" ∷ planner_provider r ∷ "' passed delivery governance." ∷ [])
    ++ reason_if (not (is_empty (patch_provider r)))
        ("Patch provider '" ∷ patch_provider r ∷ "' passed delivery governance." ∷ [])

-- `_summary`
unfoldable pub governance_summary : List String → GovernanceRequest → Option String → String
governance_summary blocked r stage =
    if not (no_strings blocked)
    then "Delivery is blocked by governance policy."
    else format (
        "Delivery governance passed for "
        ∷ show (length (delivered_paths r.execution_payload))
        ∷ " changed file(s) against base branch '"
        ∷ r.base_branch
        ∷ "' ("
        ∷ (if r.base_branch_protected then "protected" else "unprotected")
        ∷ ") at rollout stage '"
        ∷ or_else stage "unspecified"
        ∷ "'."
        ∷ [])

abbrev listed : List String → Dict → Dict → Dict
listed [] repo rest = rest
listed (key ∷ more) repo rest = entry key (arr (strs (clean_list key repo))) (listed more repo rest)

abbrev pub governance_snapshot : Dict → GovernanceRequest → Dict
governance_snapshot repo r = entry "repo_full_name" (str r.repo_full_name) (
    entry "base_branch" (str r.base_branch) (
      listed
        ("allowed_repo_patterns" ∷ "blocked_repo_patterns" ∷ "blocked_path_patterns"
          ∷ "require_rollout_stage_for_paths" ∷ "require_production_rollout_for_paths"
          ∷ "allowed_rollout_stages" ∷ "blocked_command_patterns" ∷ "blocked_command_decisions"
          ∷ "allowed_planner_providers" ∷ "allowed_patch_providers" ∷ "allowed_planner_models"
          ∷ "allowed_patch_models" ∷ [])
        repo (entry "require_base_branch_protection" (bool (protection_required repo)) empty)))

-- `evaluate_delivery`
unfoldable pub evaluate_governance : Dict → GovernanceRequest → DeliveryGovernanceEvaluation
unfolding governance_blocks governance_summary
evaluate_governance policy r =
    let repo = repo_policy policy r.repo_full_name in
    let stage = normalize_optional r.rollout_stage in
    let blocked = governance_blocks repo r stage in
    record {
      rollout_stage = stage;
      branch_protection_required = protection_required repo;
      branch_protection_verified = r.base_branch_protected;
      reasons = governance_reasons repo r stage;
      blocked_reasons = blocked;
      summary = governance_summary blocked r stage;
      policy_snapshot = governance_snapshot repo r;
    }
