-- ===== src/Approval/Context.antt =====
-- `_load_delivery_context` of `application/use_cases/manage_approval.py`, and the policy as the
-- workflow sees it.
use issue_to_pr_agent.Prelude.{
  String, Bool, true, false, not, ◌==◌, Option, none, some, List, [], ◌∷◌, Result, ok, raise,
  raise_if, value_error, approval_error, ◌>>=◌, ◌>>◌, format, ◌≡◌,
}
use issue_to_pr_agent.Domain.Json.{Dict}
use issue_to_pr_agent.Domain.Runs.{
  RunRecord, RunStatus, PatchExecutionRecord, PatchExecutionMode, PatchExecutionStatus,
  VerificationRecord, VerificationStatus, VerificationStopReason,
}
use issue_to_pr_agent.Domain.Approvals.{ApprovalEvaluation}
use issue_to_pr_agent.Repository.{Repository, get_run, get_execution, get_verification}

pub record DeliveryContext : Type 0 where
  pub run : RunRecord
  pub run_payload : Dict
  pub execution : PatchExecutionRecord
  pub execution_payload : Dict
  pub verification : VerificationRecord
  pub verification_payload : Dict

-- The arguments of `ensure_reviewer_can_decide`.
pub record ReviewRequest : Type 0 where
  pub repo_full_name : String
  pub requested_by : String
  pub actor : String
  pub reviewer_team : String
  pub required_reviewer_teams : List String
  pub assigned_reviewers : List String
  pub assigned_reviewer_teams : List String

-- `ApprovalPolicyEvaluator`, by its two methods and by what it says of self-approval in a repository.
pub record ApprovalPolicy : Type 0 where
  pub allows_self_approval : String → Bool
  pub evaluate_delivery : String → DeliveryContext → String → Result ApprovalEvaluation
  pub ensure_reviewer_can_decide : ReviewRequest → Result (Unit {0})

abbrev pub found_or_raise {ℓ} : {A : Type ℓ} → String → String → Option A → Result A
found_or_raise name id none = raise value_error (format (name ∷ " not found: " ∷ id ∷ []))
found_or_raise name id (some row) = ok row

abbrev pub run_succeeded : RunStatus → Bool
run_succeeded RunStatus.succeeded = true
run_succeeded RunStatus.failed = false

abbrev pub execution_succeeded : PatchExecutionStatus → Bool
execution_succeeded PatchExecutionStatus.succeeded = true
execution_succeeded PatchExecutionStatus.failed = false

abbrev pub is_apply : PatchExecutionMode → Bool
is_apply PatchExecutionMode.apply = true
is_apply PatchExecutionMode.dry_run = false

abbrev pub verification_succeeded : VerificationStatus → Bool
verification_succeeded VerificationStatus.succeeded = true
verification_succeeded VerificationStatus.failed = false

abbrev pub stopped_with_success : VerificationStopReason → Bool
stopped_with_success VerificationStopReason.success = true
stopped_with_success _ = false

-- `linked == id`
abbrev pub links_to : Option String → String → Bool
links_to none id = false
links_to (some linked) id = linked == id

-- The eight tests, in their order.
unfoldable pub check_context : String → String → String → DeliveryContext → Result (Unit {0})
check_context run_id execution_id verification_id c = do
  raise_if (not (run_succeeded c.run.status)) approval_error
      (format ("Run " ∷ run_id ∷ " is not in a succeeded state." ∷ []))
  raise_if (not (execution_succeeded c.execution.status)) approval_error
      (format ("Execution " ∷ execution_id ∷ " is not in a succeeded state." ∷ []))
  raise_if (not (is_apply c.execution.mode)) approval_error
      (format ("Execution " ∷ execution_id ∷ " must be an apply run before approval." ∷ []))
  raise_if (not (verification_succeeded c.verification.status)) approval_error
      (format ("Verification " ∷ verification_id ∷ " is not in a succeeded state." ∷ []))
  raise_if (not (stopped_with_success c.verification.stop_reason)) approval_error
      (format ("Verification " ∷ verification_id ∷ " did not stop with success." ∷ []))
  raise_if (not (links_to c.execution.linked_run_id run_id)) approval_error
      (format ("Execution " ∷ execution_id ∷ " is not linked to run " ∷ run_id ∷ "." ∷ []))
  raise_if (not (links_to c.verification.linked_run_id run_id)) approval_error
      (format ("Verification " ∷ verification_id ∷ " is not linked to run " ∷ run_id ∷ "." ∷ []))
  raise_if (not (links_to c.verification.linked_execution_id execution_id)) approval_error (
      format (
        "Verification " ∷ verification_id ∷ " is not linked to execution " ∷ execution_id ∷ "."
        ∷ []))

-- `_load_delivery_context`
unfoldable pub load_delivery_context :
    Repository → String → String → String → Result DeliveryContext
unfolding check_context
load_delivery_context repo run_id execution_id verification_id = do
  run ← found_or_raise "Run" run_id (get_run run_id repo)
  execution ← found_or_raise "Execution" execution_id (get_execution execution_id repo)
  verification ←
      found_or_raise "Verification" verification_id (get_verification verification_id repo)
  let c : DeliveryContext = record {
    run = run.0;
    run_payload = run.1;
    execution = execution.0;
    execution_payload = execution.1;
    verification = verification.0;
    verification_payload = verification.1;
  }
  check_context run_id execution_id verification_id c
  ok c

-- What the workflow relies on: an evaluation that asks for no approval and blocks nothing requires
-- none, and the requester may decide only where self-approval is allowed.
pub record IsLawful (policy : ApprovalPolicy) : Type 0 where
  pub none_required :
      (repo : String) (c : DeliveryContext) (team : String) (e : ApprovalEvaluation)
      → policy.evaluate_delivery repo c team ≡ ok e
      → e.blocked_reasons ≡ []
      → e.approval_required ≡ false
      → e.required_approvals ≡ 0
  pub independent :
      (r : ReviewRequest)
      → policy.ensure_reviewer_can_decide r ≡ ok tt
      → r.actor ≡ r.requested_by
      → policy.allows_self_approval r.repo_full_name ≡ true
