-- ===== src/Approval/RoundTrip.antt =====
-- What a payload of an approval says is what its receipt said.
use issue_to_pr_agent.Prelude.{
  ℕ, ◌≡◌, refl, String, ◌==◌, Option, none, some, List, [], ◌∷◌, any, filter, has_text, ok,
}
use issue_to_pr_agent.Domain.Json.{string_list, string_items, Dict, get, strs, dict_value, opt_time}
use issue_to_pr_agent.Domain.Approvals.{
  ApprovalDecision, approve, reject, ApprovalReviewerDecision, ApprovalReceipt, decision_value,
}
use issue_to_pr_agent.Approval.Payload.{
  receipt_payload, decision_entry, decision_entries, parse_decision, read_decision, read_decisions,
  existing_decisions, has_reviewed, expires_at_of,
}

parse-decision_value : (d : ApprovalDecision) → parse_decision (decision_value d) ≡ ok d
unfolding parse_decision
parse-decision_value approve = refl
parse-decision_value reject = refl

read-decision_entry : (d : ApprovalReviewerDecision) → read_decision (decision_entry d) ≡ ok d
unfolding read_decision get
read-decision_entry d = rw (parse-decision_value d.decision)

pub read-decision_entries :
    (ds : List ApprovalReviewerDecision) → read_decisions (decision_entries ds) ≡ ok ds
unfolding read_decisions
read-decision_entries [] = refl
read-decision_entries (d ∷ rest) = rw (read-decision_entry d, read-decision_entries rest)

pub has_reviewed-decision_entries :
    (actor : String) (ds : List ApprovalReviewerDecision)
    → has_reviewed actor (decision_entries ds) ≡ any (λ d. d.actor == actor) ds
unfolding has_reviewed get
has_reviewed-decision_entries actor [] = refl
has_reviewed-decision_entries actor (d ∷ rest) = rw (has_reviewed-decision_entries actor rest)

string_items-strs : (items : List String) → string_items (strs items) ≡ filter has_text items
unfolding string_items
string_items-strs [] = refl
string_items-strs (s ∷ rest) = rw (string_items-strs rest)

-- What `decide` reads of a payload.
pub record Says (payload : Dict) (r : ApprovalReceipt) (policy_snapshot : Dict) : Type 0 where
  pub decisions : read_decisions (existing_decisions payload) ≡ ok r.decisions
  pub reviewed :
      (actor : String)
      → has_reviewed actor (existing_decisions payload) ≡ any (λ d. d.actor == actor) r.decisions
  pub expires_at : expires_at_of payload ≡ r.expires_at
  pub required :
      string_list (get "required_reviewer_teams" payload)
      ≡ filter has_text r.required_reviewer_teams
  pub assigned :
      string_list (get "assigned_reviewers" payload) ≡ filter has_text r.assigned_reviewers
  pub assigned_teams :
      string_list (get "assigned_reviewer_teams" payload)
      ≡ filter has_text r.assigned_reviewer_teams
  pub snapshot : dict_value (get "policy_snapshot" payload) ≡ policy_snapshot

opt_time-expires :
    (t : Option ℕ) (payload : Dict)
    → get "expires_at" payload ≡ some (opt_time t)
    → expires_at_of payload ≡ t
opt_time-expires none payload h = rw h
opt_time-expires (some t) payload h = rw h

-- What `decide` reads of a payload that `_receipt_payload` wrote is what the receipt holds: the
-- decisions with their order, who has reviewed, the expiry, the policy, and the lists of reviewers and
-- teams without their blank items.
pub receipt_payload-Says :
    (created_at updated_at : ℕ) (r : ApprovalReceipt) (policy_snapshot : Dict)
    → Says (receipt_payload created_at updated_at r policy_snapshot) r policy_snapshot
unfolding receipt_payload get
receipt_payload-Says created_at updated_at r policy_snapshot = record {
  decisions = read-decision_entries r.decisions;
  reviewed = λ actor. has_reviewed-decision_entries actor r.decisions;
  expires_at =
      opt_time-expires r.expires_at (receipt_payload created_at updated_at r policy_snapshot) refl;
  required = string_items-strs r.required_reviewer_teams;
  assigned = string_items-strs r.assigned_reviewers;
  assigned_teams = string_items-strs r.assigned_reviewer_teams;
  snapshot = refl;
}
