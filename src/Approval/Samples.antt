-- ===== src/Approval/Samples.antt =====
-- Test data: a delivery that is waiting for an approval, and the default policy.
use issue_to_pr_agent.Prelude.{true, none, some, [], ◌∷◌}
use issue_to_pr_agent.Domain.Json.{
  Dict, empty, entry, str, bool, arr, obj, nil, cons, get, dict_value,
}
use issue_to_pr_agent.Domain.Runs.{
  RunRecord, RunStatus, PlannerProvider, ExecutionMode, PatchExecutionRecord, PatchExecutionMode,
  PatchExecutionStatus, VerificationRecord, VerificationStatus, VerificationStopReason,
}
use issue_to_pr_agent.Domain.Approvals.{approve, ApprovalRecord, ApprovalEvaluation}
use issue_to_pr_agent.Queue.Samples.{sample_repository}
use issue_to_pr_agent.Approval.Context.{ApprovalPolicy, DeliveryContext}
use issue_to_pr_agent.Approval.Workflow.{
  ApprovalWorkflowResult, RequestArguments, Review, persist_approval, requested_receipt,
  approval_path, record_of,
}
use issue_to_pr_agent.Approval.Payload.{receipt_payload}
use issue_to_pr_agent.Approval.Decided.{decision_outcome}
use issue_to_pr_agent.Policy.Evaluate.{Signals}
use issue_to_pr_agent.Policy.Evaluator.{approval_kind, evaluation, evaluator}
use issue_to_pr_agent.Repository.{Repository}

abbrev pub sample_run : RunRecord
sample_run = record {
  run_id = "run-1";
  created_at = 10;
  repo_full_name = "acme/site";
  issue_number = 7;
  planner_provider = PlannerProvider.heuristic;
  execution_mode = ExecutionMode.plan_only;
  status = RunStatus.succeeded;
  branch_name = "issue-7";
  summary = "Plan it.";
  issue_url = "https://example.org/7";
  report_path = "artifacts" ∷ "report.md" ∷ [];
  pr_draft_path = "artifacts" ∷ "draft.md" ∷ [];
  audit_path = "artifacts" ∷ "audit.json" ∷ [];
  error_message = none;
}

abbrev pub sample_execution : PatchExecutionRecord
sample_execution = record {
  execution_id = "exec-1";
  created_at = 20;
  proposal_id = "proposal-1";
  linked_run_id = some "run-1";
  mode = PatchExecutionMode.apply;
  status = PatchExecutionStatus.succeeded;
  summary = "Patch it.";
  repo_root = "srv" ∷ "site" ∷ [];
  receipt_path = "artifacts" ∷ "exec-1.json" ∷ [];
  error_message = none;
}

abbrev pub sample_verification : VerificationRecord
sample_verification = record {
  verification_id = "ver-1";
  created_at = 30;
  linked_run_id = some "run-1";
  linked_execution_id = some "exec-1";
  status = VerificationStatus.succeeded;
  stop_reason = VerificationStopReason.success;
  summary = "Verified.";
  repo_root = "srv" ∷ "site" ∷ [];
  receipt_path = "artifacts" ∷ "ver-1.json" ∷ [];
  error_message = none;
}

abbrev pub run_payload : Dict
run_payload = entry "issue" (obj (entry "labels" (arr (cons (str "Bug") nil)) empty)) empty

abbrev pub execution_payload : Dict
execution_payload =
    entry "receipts"
      (arr
        (cons (obj (entry "path" (str "infra/main.tf") (entry "changed" (bool true) empty))) nil))
      empty

abbrev pub delivery_repository : Repository
delivery_repository = record sample_repository {
  runs = (sample_run, run_payload) ∷ [];
  executions = (sample_execution, execution_payload) ∷ [];
  verifications = (sample_verification, empty) ∷ [];
}

abbrev pub default_policy : Dict
default_policy = approval_kind.default_policy

abbrev pub sample_policy : ApprovalPolicy
sample_policy = evaluator default_policy

abbrev pub sample_arguments : RequestArguments
sample_arguments = record {
  run_id = "run-1";
  execution_id = "exec-1";
  verification_id = "ver-1";
  actor = "ana";
  team = "web";
  comment = "Please.";
  expires_in_hours = some 2;
  assigned_reviewers = [];
  assigned_reviewer_teams = [];
}

abbrev pub sample_signals : Signals
sample_signals = record {
  changed_paths = "infra/main.tf" ∷ [];
  blocked_labels = [];
  critical_labels = [];
  high_labels = [];
  command_decisions = [];
  attempts = 0;
  skipped_commands = 0;
}

abbrev pub sample_evaluation : ApprovalEvaluation
sample_evaluation = evaluation default_policy "acme/site" (some "web") sample_signals

abbrev pub sample_context : DeliveryContext
sample_context = record {
  run = sample_run;
  run_payload = run_payload;
  execution = sample_execution;
  execution_payload = execution_payload;
  verification = sample_verification;
  verification_payload = empty;
}

abbrev pub requested : Repository × ApprovalWorkflowResult
requested =
    persist_approval 100 100
      (requested_receipt "ap-1" sample_arguments sample_context sample_evaluation (some 7200000100))
      (approval_path sample_context "ap-1") sample_evaluation.policy_snapshot delivery_repository

abbrev pub requested_row : ApprovalRecord × Dict
requested_row = (
  record (record_of 100 100
      (requested_receipt "ap-1" sample_arguments sample_context sample_evaluation (some 7200000100))
      (approval_path sample_context "ap-1")) { expires_at = none },
  receipt_payload 100 100
      (requested_receipt "ap-1" sample_arguments sample_context sample_evaluation (some 7200000100))
      sample_evaluation.policy_snapshot,
)

abbrev pub sample_review : Review
sample_review = record {
  approval_id = "ap-1";
  actor = "bob";
  team = "ops";
  decision = approve;
  comment = "Fine.";
}

abbrev pub reviewed : Repository × ApprovalWorkflowResult
reviewed = decision_outcome 200 sample_review requested_row [] requested.0

abbrev pub reviewed_row : ApprovalRecord × Dict
reviewed_row = (
  record (record_of 100 200 reviewed.1.receipt (approval_path sample_context "ap-1")) {
    expires_at = none;
  },
  receipt_payload 100 200 reviewed.1.receipt (dict_value (get "policy_snapshot" requested_row.1)),
)
