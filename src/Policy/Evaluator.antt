-- ===== src/Policy/Evaluator.antt =====
-- `ApprovalPolicyEvaluator` of `application/services/approval_policy.py`: its default policy and its two
-- methods, as the approval workflow uses them.
use issue_to_pr_agent.Prelude.{
  String, Bool, false, not, ◌&&◌, Option, some, List, [], ◌∷◌, ltb, Result, ok, raise_if,
  policy_error, ◌>>=◌, ◌>>◌, format, strip, has_text, length, ◌==◌,
}
use issue_to_pr_agent.Domain.Json.{Json, Dict, bool, str, arr, obj, empty, entry, nat, strs}
use issue_to_pr_agent.Domain.Approvals.{
  delivery, ApprovalRiskLevel, low, medium, high, critical, ApprovalEvaluation,
}
use issue_to_pr_agent.Approval.Context.{ApprovalPolicy, ReviewRequest}
use issue_to_pr_agent.Approval.Workflow.{no_strings}
use issue_to_pr_agent.Policy.Load.{PolicyKind, repo_policy}
use issue_to_pr_agent.Policy.Read.{
  item, is_true, lowercase_strings, texts_of, extract_issue_labels, extract_changed_paths,
  command_decisions, length_at, required_approvals, labels_among,
}
use issue_to_pr_agent.Policy.Evaluate.{
  team_may, list_at, is_left_out, Signals, assess, evaluation_summary, blocked_reasons_of,
}

-- `_DEFAULT_POLICY`
abbrev pub default_section : Dict
default_section =
    entry "required_approvals_by_risk"
      (obj (
        entry "low" (nat 0)
          (entry "medium" (nat 1) (entry "high" (nat 1) (entry "critical" (nat 2) empty)))))
      (entry "allow_self_approval" (bool false) (
        entry "blocked_labels" (arr (strs ("do-not-merge" ∷ "wip" ∷ []))) (
          entry "high_risk_labels" (arr (strs ("security" ∷ "infra" ∷ "production" ∷ []))) (
            entry "critical_risk_labels" (arr (strs ("security-critical" ∷ []))) (
              entry "high_risk_paths"
                (arr (
                  strs (
                    ".github/" ∷ "infra/" ∷ "terraform/" ∷ "Dockerfile" ∷ "docker-compose.yml"
                    ∷ "pyproject.toml" ∷ "requirements" ∷ "package.json" ∷ "package-lock.json"
                    ∷ "Cargo.toml" ∷ "go.mod" ∷ [])))
                (entry "critical_risk_paths"
                  (arr (strs ("secrets/" ∷ "policies/" ∷ "deploy/prod/" ∷ "ops/" ∷ [])))
                  (entry "required_reviewer_teams" (arr (strs [])) (
                    entry "allowed_requester_teams" (arr (strs [])) (
                      entry "allowed_reviewer_teams" (arr (strs [])) (
                        entry "max_low_risk_changed_files" (nat 2)
                          (entry "max_medium_risk_changed_files" (nat 6) empty)))))))))))

abbrev pub approval_kind : PolicyKind
approval_kind = record {
  default_policy =
      entry "default" (obj default_section)
        (entry "repos" (obj empty) (entry "teams" (obj empty) empty));
  sections = "default" ∷ "repos" ∷ "teams" ∷ [];
  name = "Approval policy";
  override_name = "Tenant policy";
}

-- `policy_snapshot`
unfoldable pub snapshot_of : String → Dict → Dict
unfolding required_approvals
snapshot_of repo_full_name repo =
    let required : ApprovalRiskLevel → Json =
      λ risk. nat (required_approvals (item "required_approvals_by_risk" repo) risk) in
    let listed : String → Json = λ key. arr (strs (list_at key repo)) in
    entry "repo_full_name" (str repo_full_name) (
      entry "required_approvals_by_risk"
        (obj (
          entry "low" (required low) (
            entry "medium" (required medium)
              (entry "high" (required high) (entry "critical" (required critical) empty)))))
        (entry "allow_self_approval" (bool (is_true (item "allow_self_approval" repo))) (
          entry "required_reviewer_teams" (listed "required_reviewer_teams") (
            entry "allowed_requester_teams" (listed "allowed_requester_teams") (
              entry "allowed_reviewer_teams" (listed "allowed_reviewer_teams") (
                entry "blocked_labels" (listed "blocked_labels") (
                  entry "high_risk_labels" (listed "high_risk_labels") (
                    entry "critical_risk_labels" (listed "critical_risk_labels") (
                      entry "high_risk_paths" (listed "high_risk_paths")
                        (entry "critical_risk_paths" (listed "critical_risk_paths") empty))))))))))

-- What `evaluate_delivery` returns for the signals of the payloads.
unfoldable pub evaluation : Dict → String → Option String → Signals → ApprovalEvaluation
unfolding assess required_approvals snapshot_of
evaluation policy repo_full_name team s =
    let repo = repo_policy policy repo_full_name in
    let a = assess repo s in
    let blocked = blocked_reasons_of policy repo team s in
    let required = required_approvals (item "required_approvals_by_risk" repo) a.risk_level in
    record {
      action = delivery;
      risk_level = a.risk_level;
      approval_required = ltb 0 required && no_strings blocked;
      required_approvals = required;
      required_reviewer_teams = list_at "required_reviewer_teams" repo;
      reasons = a.reasons;
      blocked_reasons = blocked;
      summary = evaluation_summary a.risk_level required blocked (length s.changed_paths);
      policy_snapshot = snapshot_of repo_full_name repo;
    }

-- What `evaluate_delivery` reads of the three payloads.
unfoldable pub signals_of : Dict → Dict → Dict → Dict → Result Signals
unfolding labels_among
signals_of repo run_payload execution_payload verification_payload = do
  found ← texts_of (extract_issue_labels run_payload)
  let labels : List String = lowercase_strings found
  blocked_labels ← labels_among labels (item "blocked_labels" repo)
  critical_labels ← labels_among labels (item "critical_risk_labels" repo)
  high_labels ← labels_among labels (item "high_risk_labels" repo)
  decisions ← command_decisions run_payload
  ok (record {
    changed_paths = extract_changed_paths execution_payload;
    blocked_labels = blocked_labels;
    critical_labels = critical_labels;
    high_labels = high_labels;
    command_decisions = decisions;
    attempts = length_at "attempts" verification_payload;
    skipped_commands = length_at "skipped_commands" verification_payload;
  })

-- `evaluate_delivery`
unfoldable pub evaluate_delivery :
    Dict → String → Dict → Dict → Dict → Option String → Result ApprovalEvaluation
unfolding signals_of evaluation
evaluate_delivery policy repo_full_name run_payload execution_payload verification_payload team = do
  s ←
      signals_of (repo_policy policy repo_full_name) run_payload execution_payload
        verification_payload
  ok (evaluation policy repo_full_name team s)

abbrev pub allows_self_approval : Dict → String → Bool
allows_self_approval policy repo_full_name =
    is_true (item "allow_self_approval" (repo_policy policy repo_full_name))

-- `ensure_reviewer_can_decide`
unfoldable pub ensure_reviewer_can_decide : Dict → ReviewRequest → Result (Unit {0})
unfolding team_may
ensure_reviewer_can_decide policy r = do
  let team : String = strip r.reviewer_team
  raise_if (not (has_text r.reviewer_team)) policy_error
      "Reviewer team is required for approval decisions."
  raise_if (not (team_may "can_review" policy team)) policy_error
      (format ("Team '" ∷ team ∷ "' is not allowed to review approvals." ∷ []))
  raise_if
      (is_left_out team (list_at "allowed_reviewer_teams" (repo_policy policy r.repo_full_name)))
      policy_error
      (format (
        "Team '" ∷ team ∷ "' is not allowed to review approvals for " ∷ r.repo_full_name ∷ "."
        ∷ []))
  raise_if (is_left_out team r.required_reviewer_teams) policy_error
      (format ("Team '" ∷ team ∷ "' does not satisfy the required reviewer teams." ∷ []))
  raise_if (is_left_out r.actor r.assigned_reviewers) policy_error
      (format ("Reviewer '" ∷ r.actor ∷ "' is not assigned to approval review." ∷ []))
  raise_if (is_left_out team r.assigned_reviewer_teams) policy_error
      (format ("Team '" ∷ team ∷ "' is not assigned to approval review." ∷ []))
  raise_if (not (allows_self_approval policy r.repo_full_name) && r.actor == r.requested_by)
      policy_error "Self-approval is disabled by policy."
  ok tt

-- The evaluator of a policy that has been loaded.
abbrev pub evaluator : Dict → ApprovalPolicy
evaluator policy = record {
  allows_self_approval = allows_self_approval policy;
  evaluate_delivery = λ repo c team.
      evaluate_delivery policy repo c.run_payload c.execution_payload c.verification_payload
        (some team);
  ensure_reviewer_can_decide = ensure_reviewer_can_decide policy;
}
