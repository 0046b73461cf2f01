-- ===== src/Approval/Examples.antt =====
-- The theorems on approvals at a concrete delivery.
use issue_to_pr_agent.Policy.Evaluate.{reason_if, requester_reasons, rule, two_rules}
use issue_to_pr_agent.Queue.Create.{sorted_set}
use issue_to_pr_agent.Prelude.{
  as_posix, has_text, join, lower_text, starts_with, strip, ◌≡◌, ◌≢◌, refl, true, some, [], ok, inr,
}
use issue_to_pr_agent.Domain.Json.{string_items, get, empty}
use issue_to_pr_agent.Domain.Approvals.{approved, pending, is_pending}
use issue_to_pr_agent.Approval.Payload.{
  receipt_payload, read_decisions, has_reviewed, approval_is_expired,
}
use issue_to_pr_agent.Approval.Context.{load_delivery_context}
use issue_to_pr_agent.Approval.Workflow.{
  request_delivery_approval, decide, persist_approval, resolve_expires_at, status_of,
  review_request,
}
use issue_to_pr_agent.Approval.Decided.{Decided}
use issue_to_pr_agent.Approval.Legit.{Reach, here, next, request, review}
use issue_to_pr_agent.Approval.Guarantee.{
  decide_iff, decide_once, Reach-Warranted, Warranted, decide_closed, Refused,
}
use issue_to_pr_agent.Approval.RoundTrip.{Says, receipt_payload-Says}
use issue_to_pr_agent.Approval.Samples.{
  sample_policy, default_policy, sample_arguments, delivery_repository, requested, requested_row,
  sample_review, reviewed, reviewed_row, sample_context, run_payload, execution_payload,
  sample_signals, sample_evaluation,
}
use issue_to_pr_agent.Policy.Load.{repo_policy}
use issue_to_pr_agent.Policy.Read.{
  changed_paths_of, matching_paths, texts_of, labels_among, lowercase_strings,
}
use issue_to_pr_agent.Policy.Evaluator.{
  evaluate_delivery, evaluation, signals_of, ensure_reviewer_can_decide,
}
use issue_to_pr_agent.Policy.Lawful.{evaluator-IsLawful}
use issue_to_pr_agent.Repository.{
  get_approval, save_approval, get_run, get_execution, get_verification,
}

loads : load_delivery_context delivery_repository "run-1" "exec-1" "ver-1" ≡ ok sample_context
unfolding load_delivery_context get_run get_execution get_verification
loads = refl

reads_signals :
    signals_of (repo_policy default_policy "acme/site") run_payload execution_payload empty
    ≡ ok sample_signals
unfolding signals_of repo_policy get texts_of labels_among lowercase_strings has_text
    changed_paths_of sorted_set lower_text strip
reads_signals = refl

evaluates :
    evaluate_delivery default_policy "acme/site" run_payload execution_payload empty (some "web")
    ≡ ok sample_evaluation
unfolding evaluate_delivery
evaluates = rw reads_signals

is_waiting : is_pending (status_of sample_evaluation) ≡ true
unfolding evaluation requester_reasons has_text get lowercase_strings repo_policy string_items rule
    two_rules sorted_set matching_paths strip starts_with as_posix join reason_if
is_waiting = refl

requests :
    request_delivery_approval sample_policy 100 "ap-1" sample_arguments delivery_repository
    ≡ ok requested
unfolding request_delivery_approval resolve_expires_at
requests = rw (loads, evaluates, is_waiting)

finds_request : get_approval "ap-1" requested.0 ≡ some requested_row
unfolding get_approval persist_approval save_approval
finds_request = refl

open_status : requested_row.0.status ≡ pending
unfolding evaluation requester_reasons has_text get lowercase_strings repo_policy string_items rule
    two_rules sorted_set matching_paths strip starts_with as_posix join reason_if
open_status = refl

may_decide :
    ensure_reviewer_can_decide default_policy
      (review_request requested_row.0 requested_row.1 "bob" "ops")
    ≡ ok tt
unfolding ensure_reviewer_can_decide has_text get lowercase_strings repo_policy string_items
    receipt_payload evaluation
may_decide = refl

sample_Decided : Decided sample_policy 150 200 sample_review requested.0 reviewed
unfolding approval_is_expired has_reviewed read_decisions receipt_payload get
sample_Decided = record {
  row = requested_row;
  before = [];
  found = finds_request;
  open_status = open_status;
  in_time = refl;
  permitted = may_decide;
  first_time = refl;
  read = refl;
  stored = refl;
}

sample_Reach : Reach sample_policy delivery_repository reviewed.0
sample_Reach = next (next here (request 100 "ap-1" sample_arguments requested.1 requests)) (
    review 150 200 sample_review reviewed.1
      ((decide_iff sample_policy 150 200 sample_review requested.0 reviewed).1 sample_Decided))

finds_review : get_approval "ap-1" reviewed.0 ≡ some reviewed_row
unfolding get_approval persist_approval save_approval
finds_review = refl

is_approved : reviewed_row.0.status ≡ approved
unfolding evaluation persist_approval get repo_policy rule two_rules sorted_set matching_paths
    string_items strip starts_with as_posix join
is_approved = refl

Reach-Warranted_example : Warranted sample_policy reviewed_row
Reach-Warranted_example =
    Reach-Warranted sample_policy delivery_repository reviewed.0 "ap-1" reviewed_row
      (evaluator-IsLawful default_policy) refl sample_Reach finds_review is_approved

decide_iff_example :
    (decide sample_policy 150 200 sample_review requested.0 ≡ ok reviewed
      → Decided sample_policy 150 200 sample_review requested.0 reviewed)
    × (Decided sample_policy 150 200 sample_review requested.0 reviewed
        → decide sample_policy 150 200 sample_review requested.0 ≡ ok reviewed)
decide_iff_example = decide_iff sample_policy 150 200 sample_review requested.0 reviewed

decides : decide sample_policy 150 200 sample_review requested.0 ≡ ok reviewed
decides = (decide_iff sample_policy 150 200 sample_review requested.0 reviewed).1 sample_Decided

decide_once_example : decide sample_policy 160 210 sample_review reviewed.0 ≢ ok requested
decide_once_example =
    decide_once sample_policy 150 200 sample_review requested.0 reviewed sample_policy 160 210
      sample_review requested decides refl refl

has_expired : approval_is_expired requested_row.1 7200000100 ≡ true
unfolding approval_is_expired receipt_payload get
has_expired = refl

decide_closed_example :
    Refused (decide sample_policy 7200000100 7200000200 sample_review requested.0)
decide_closed_example =
    decide_closed sample_policy 7200000100 7200000200 sample_review requested.0 requested_row
      finds_request (inr has_expired)

receipt_payload-Says_example :
    Says (receipt_payload 100 200 reviewed.1.receipt empty) reviewed.1.receipt empty
receipt_payload-Says_example = receipt_payload-Says 100 200 reviewed.1.receipt empty
