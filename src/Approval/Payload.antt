-- ===== src/Approval/Payload.antt =====
-- `_receipt_payload` of `application/use_cases/manage_approval.py`, and the reading of a payload.
use issue_to_pr_agent.Prelude.{
  ℕ, String, Bool, false, ◌||◌, ◌==◌, Option, none, some, List, [], ◌∷◌, if◌then◌else◌, leb, Result,
  ok, raise, value_error, ◌>>=◌, format, or_else,
}
use issue_to_pr_agent.Domain.Json.{
  Json, Items, Dict, str, time, arr, obj, nil, cons, empty, entry, get, opt_str, opt_time, nat,
  strs,
}
use issue_to_pr_agent.Domain.Approvals.{
  ApprovalDecision, approve, reject, ApprovalReviewerDecision, ApprovalReceipt, action_value,
  approval_status_value, decision_value, risk_value,
}

abbrev pub decision_entry : ApprovalReviewerDecision → Dict
decision_entry d = entry "actor" (str d.actor) (
    entry "team" (str d.team) (
      entry "decision" (str (decision_value d.decision))
        (entry "comment" (str d.comment) (entry "decided_at" d.decided_at empty))))

abbrev pub decision_entries : List ApprovalReviewerDecision → Items
decision_entries [] = nil
decision_entries (d ∷ rest) = cons (obj (decision_entry d)) (decision_entries rest)

-- `_receipt_payload`
unfoldable pub receipt_payload : ℕ → ℕ → ApprovalReceipt → Dict → Dict
receipt_payload created_at updated_at r policy_snapshot = entry "approval_id" (str r.approval_id) (
    entry "created_at" (time created_at) (
      entry "updated_at" (time updated_at) (
        entry "action" (str (action_value r.action)) (
          entry "linked_run_id" (str r.linked_run_id) (
            entry "linked_execution_id" (str r.linked_execution_id) (
              entry "linked_verification_id" (str r.linked_verification_id) (
                entry "repo_full_name" (str r.repo_full_name) (
                  entry "status" (str (approval_status_value r.status))
                    (entry "risk_level" (str (risk_value r.risk_level)) rest)))))))))
  where
    ending : Dict
    ending = entry "reasons" (arr (strs r.reasons)) (
        entry "blocked_reasons" (arr (strs r.blocked_reasons)) (
          entry "decisions" (arr (decision_entries r.decisions)) (
            entry "summary" (str r.summary) (
              entry "policy_snapshot" (obj policy_snapshot)
                (entry "error_message" (opt_str r.error_message) empty)))))

    rest : Dict
    rest = entry "requested_by" (str r.requested_by) (
        entry "requester_team" (str r.requester_team) (
          entry "request_comment" (str r.request_comment) (
            entry "required_approvals" (nat r.required_approvals) (
              entry "approved_count" (nat r.approved_count) (
                entry "expires_at" (opt_time r.expires_at) (
                  entry "required_reviewer_teams" (arr (strs r.required_reviewer_teams)) (
                    entry "assigned_reviewers" (arr (strs r.assigned_reviewers)) (
                      entry "assigned_reviewer_teams" (arr (strs r.assigned_reviewer_teams))
                        ending))))))))

-- `str(d.get(key, ""))` of a text, which is what a payload holds for these keys.
abbrev pub text_at : String → Dict → String
text_at key d = text_of (get key d)
  where
    text_of : Option Json → String
    text_of (some (str s)) = s
    text_of _ = ""

-- `ApprovalDecision(text)`
unfoldable pub parse_decision : String → Result ApprovalDecision
parse_decision text =
    if text == "approve"
    then ok approve
    else if text == "reject"
    then ok reject
    else raise value_error (format ("'" ∷ text ∷ "' is not a valid ApprovalDecision" ∷ []))

-- A decision that is missing reads as an approval.
abbrev pub decision_text : Dict → String
decision_text d = text_of (get "decision" d)
  where
    text_of : Option Json → String
    text_of none = "approve"
    text_of (some (str s)) = s
    text_of (some _) = ""

unfoldable pub read_decision : Dict → Result ApprovalReviewerDecision
unfolding parse_decision
read_decision d = do
  decision ← parse_decision (decision_text d)
  ok (record {
    actor = text_at "actor" d;
    team = text_at "team" d;
    decision = decision;
    comment = text_at "comment" d;
    decided_at = or_else (get "decided_at" d) (str "");
  })

-- The decisions of a payload's list, the items that are not objects left out.
unfoldable pub read_decisions : Items → Result (List ApprovalReviewerDecision)
unfolding read_decision
read_decisions nil = ok []
read_decisions (cons (obj d) rest) = do
  decision ← read_decision d
  more ← read_decisions rest
  ok (decision ∷ more)
read_decisions (cons _ rest) = read_decisions rest

-- `existing_decisions`
abbrev pub existing_decisions : Dict → Items
existing_decisions payload = items_of (get "decisions" payload)
  where
    items_of : Option Json → Items
    items_of (some (arr items)) = items
    items_of _ = nil

-- Some object of the list has the actor.
unfoldable pub has_reviewed : String → Items → Bool
has_reviewed actor nil = false
has_reviewed actor (cons (obj d) rest) = actor_is (get "actor" d) || has_reviewed actor rest
  where
    actor_is : Option Json → Bool
    actor_is (some (str s)) = s == actor
    actor_is _ = false
has_reviewed actor (cons _ rest) = has_reviewed actor rest

-- `_optional_string(payload.get("expires_at"))`, a time or nothing.
abbrev pub expires_at_of : Dict → Option ℕ
expires_at_of payload = time_of (get "expires_at" payload)
  where
    time_of : Option Json → Option ℕ
    time_of (some (time t)) = some t
    time_of _ = none

-- `approval_is_expired`
unfoldable pub approval_is_expired : Dict → ℕ → Bool
approval_is_expired payload now = is_over (expires_at_of payload)
  where
    is_over : Option ℕ → Bool
    is_over none = false
    is_over (some at) = leb at now
