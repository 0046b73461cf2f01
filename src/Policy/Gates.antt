-- ===== src/Policy/Gates.antt =====
-- Which deliveries `application/services/delivery_governance.py` lets pass.
use issue_to_pr_agent.Prelude.{
  ◌≡◌, ◌↔◌, refl, String, Bool, true, false, not, ◌&&◌, Option, List, [], ◌∷◌, is_some, All, arith,
  not-false,
}
use issue_to_pr_agent.Domain.Json.{Dict}
use issue_to_pr_agent.Approval.Workflow.{no_strings}
use issue_to_pr_agent.Policy.Load.{repo_policy}
use issue_to_pr_agent.Policy.Evaluate.{reason_if}
use issue_to_pr_agent.Policy.Governance.{
  clean_list, normalize_optional, GovernanceRequest, planner_provider, patch_provider,
  planner_model, patch_model, is_unlisted, stage_unlisted, is_production, matched_repos,
  governed_at, blocked_commands, blocked_assessments, protection_required, repo_unlisted,
}
use issue_to_pr_agent.Policy.GovernanceEvaluator.{
  Gate, gates, reasons_of, governance_blocks, evaluate_governance,
}

-- What a delivery has to be to pass.
pub record Passes (repo : Dict) (r : GovernanceRequest) (stage : Option String) : Type 0 where
  pub repo_allowed : repo_unlisted repo r ≡ false
  pub repo_not_blocked : no_strings (matched_repos repo r) ≡ true
  pub paths_not_blocked : no_strings (governed_at "blocked_path_patterns" repo r) ≡ true
  pub staged :
      is_some stage ≡ false
      → no_strings (governed_at "require_rollout_stage_for_paths" repo r) ≡ true
  pub stage_allowed : stage_unlisted stage (clean_list "allowed_rollout_stages" repo) ≡ false
  pub in_production :
      is_production stage ≡ false
      → no_strings (governed_at "require_production_rollout_for_paths" repo r) ≡ true
  pub planner_allowed :
      is_unlisted (planner_provider r) (clean_list "allowed_planner_providers" repo) ≡ false
  pub patcher_allowed :
      is_unlisted (patch_provider r) (clean_list "allowed_patch_providers" repo) ≡ false
  pub planner_model_allowed :
      is_unlisted (planner_model r) (clean_list "allowed_planner_models" repo) ≡ false
  pub patch_model_allowed :
      is_unlisted (patch_model r) (clean_list "allowed_patch_models" repo) ≡ false
  pub commands_not_blocked : no_strings (blocked_commands repo r) ≡ true
  pub assessments_not_blocked : no_strings (blocked_assessments repo r) ≡ true
  pub protected : protection_required repo ≡ true → r.base_branch_protected ≡ true

-- Nothing is said exactly when no test holds.
reasons_of-All : (items : List Gate) → reasons_of items ≡ [] → All (λ g. g.0 ≡ false) items
unfolding reasons_of reason_if
reasons_of-All [] h = tt
reasons_of-All ((true, parts) ∷ rest) h = absurd (cc h)
reasons_of-All ((false, parts) ∷ rest) h = (refl, reasons_of-All rest h)

All-reasons_of : (items : List Gate) → All (λ g. g.0 ≡ false) items → reasons_of items ≡ []
unfolding reasons_of reason_if
All-reasons_of [] h = refl
All-reasons_of ((true, parts) ∷ rest) h = absurd (cc h.0)
All-reasons_of ((false, parts) ∷ rest) h = All-reasons_of rest h.1

not-true : (b : Bool) → b ≡ true → not b ≡ false
not-true true h = refl
not-true false h = cc

given_unless :
    (given clear : Bool) → (not clear && not given) ≡ false → given ≡ false → clear ≡ true
given_unless given clear h g = ground arith

unless-given :
    (given clear : Bool) → (given ≡ false → clear ≡ true) → (not clear && not given) ≡ false
unless-given true true h = refl
unless-given true false h = refl
unless-given false clear h = rw (h refl) refl

protected_if :
    (required held : Bool) → (required && not held) ≡ false → required ≡ true → held ≡ true
protected_if required held h r = ground arith

if-protected :
    (required held : Bool) → (required ≡ true → held ≡ true) → (required && not held) ≡ false
if-protected true held h = rw (h refl) refl
if-protected false held h = refl

Passes-blocks :
    (repo : Dict) (r : GovernanceRequest) (stage : Option String)
    → Passes repo r stage
    → governance_blocks repo r stage ≡ []
unfolding governance_blocks
Passes-blocks repo r stage p = All-reasons_of (gates repo r stage) (
  p.repo_allowed,
  (
    not-true _ p.repo_not_blocked,
    (
      unless-given false _ (λ _. p.paths_not_blocked),
      (
        unless-given (is_some stage) _ p.staged,
        (
          p.stage_allowed,
          (
            unless-given (is_production stage) _ p.in_production,
            (
              p.planner_allowed,
              (
                p.patcher_allowed,
                (
                  p.planner_model_allowed,
                  (
                    p.patch_model_allowed,
                    (
                      not-true _ p.commands_not_blocked,
                      (
                        not-true _ p.assessments_not_blocked,
                        (
                          if-protected (protection_required repo) r.base_branch_protected
                              p.protected,
                          tt,
                        ),
                      ),
                    ),
                  ),
                ),
              ),
            ),
          ),
        ),
      ),
    ),
  ),
)

blocks-Passes :
    (repo : Dict) (r : GovernanceRequest) (stage : Option String)
    → governance_blocks repo r stage ≡ []
    → Passes repo r stage
unfolding governance_blocks
blocks-Passes repo r stage h =
    let (g1, (g2, (g3, (g4, (g5, (g6, (o1, (o2, (o3, (o4, (o5, (o6, (o7, _))))))))))))) =
      reasons_of-All (gates repo r stage) h in
    record {
      repo_allowed = g1;
      repo_not_blocked = not-false _ g2;
      paths_not_blocked = given_unless false _ g3 refl;
      staged = given_unless _ _ g4;
      stage_allowed = g5;
      in_production = given_unless _ _ g6;
      planner_allowed = o1;
      patcher_allowed = o2;
      planner_model_allowed = o3;
      patch_model_allowed = o4;
      commands_not_blocked = not-false _ o5;
      assessments_not_blocked = not-false _ o6;
      protected = protected_if _ _ o7;
    }

-- A delivery passes, without any blocked reason, exactly when: its repository is allowed and not blocked,
-- no path is blocked, paths that need a stage have one and paths that need production have that, the
-- stage, the providers and the models are allowed, no command and no assessment is blocked, and the base
-- branch is protected where that is required.
pub evaluate_governance_iff :
    (policy : Dict) (r : GovernanceRequest)
    → ((evaluate_governance policy r).blocked_reasons ≡ [])
      ↔ Passes (repo_policy policy r.repo_full_name) r (normalize_optional r.rollout_stage)
unfolding evaluate_governance
evaluate_governance_iff policy r = (
  blocks-Passes (repo_policy policy r.repo_full_name) r (normalize_optional r.rollout_stage),
  Passes-blocks (repo_policy policy r.repo_full_name) r (normalize_optional r.rollout_stage),
)
