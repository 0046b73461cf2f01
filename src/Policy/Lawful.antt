-- ===== src/Policy/Lawful.antt =====
-- The evaluator of `application/services/approval_policy.py` is what the approval workflow relies on.
use issue_to_pr_agent.Prelude.{
  not-false, ℕ, ◌≡◌, ◌↔◌, refl, String, Bool, true, false, not, ◌&&◌, Option, some, [], ◌==◌,
  eq_iff, arith, ok, ok_parts, ok_injective, subst, ap, ltb, strip, has_text, raise_if,
  policy_error, Bool-cases, inl, inr,
}
use issue_to_pr_agent.Domain.Json.{Dict}
use issue_to_pr_agent.Domain.Approvals.{ApprovalEvaluation}
use issue_to_pr_agent.Approval.Context.{IsLawful, ReviewRequest}
use issue_to_pr_agent.Approval.Workflow.{no_strings}
use issue_to_pr_agent.Approval.Decided.{raise_if-passes}
use issue_to_pr_agent.Policy.Load.{repo_policy}
use issue_to_pr_agent.Policy.Evaluate.{team_may, list_at, is_left_out, Signals}
use issue_to_pr_agent.Policy.Evaluator.{
  evaluation, signals_of, evaluate_delivery, allows_self_approval, ensure_reviewer_can_decide,
  evaluator,
}

-- What a reviewer has to be.
pub record MayDecide (policy : Dict) (r : ReviewRequest) : Type 0 where
  pub team_named : has_text r.reviewer_team ≡ true
  pub team_may_review : team_may "can_review" policy (strip r.reviewer_team) ≡ true
  pub team_allowed :
      is_left_out
        (strip r.reviewer_team)
        (list_at "allowed_reviewer_teams" (repo_policy policy r.repo_full_name))
      ≡ false
  pub team_required : is_left_out (strip r.reviewer_team) r.required_reviewer_teams ≡ false
  pub actor_assigned : is_left_out r.actor r.assigned_reviewers ≡ false
  pub team_assigned : is_left_out (strip r.reviewer_team) r.assigned_reviewer_teams ≡ false
  pub independent : r.actor ≡ r.requested_by → allows_self_approval policy r.repo_full_name ≡ true

passed :
    (test : Bool) (message : String) → raise_if test policy_error message ≡ ok tt → test ≡ false
passed test message h = raise_if-passes test policy_error message h

self_approval-passed :
    (allowed : Bool) (a b : String) → (not allowed && a == b) ≡ false → a ≡ b → allowed ≡ true
self_approval-passed allowed a b h same = ground (arith, eq_iff a b)

ensure_reviewer-MayDecide :
    (policy : Dict) (r : ReviewRequest)
    → ensure_reviewer_can_decide policy r ≡ ok tt
    → MayDecide policy r
unfolding ensure_reviewer_can_decide
ensure_reviewer-MayDecide policy r h =
    let (_, p1, h1) = ok_parts (raise_if _ policy_error _) _ h in
    let (_, p2, h2) = ok_parts (raise_if _ policy_error _) _ h1 in
    let (_, p3, h3) = ok_parts (raise_if _ policy_error _) _ h2 in
    let (_, p4, h4) = ok_parts (raise_if _ policy_error _) _ h3 in
    let (_, p5, h5) = ok_parts (raise_if _ policy_error _) _ h4 in
    let (_, p6, h6) = ok_parts (raise_if _ policy_error _) _ h5 in
    let (_, p7, h7) = ok_parts (raise_if _ policy_error _) _ h6 in
    record {
      team_named = not-false _ (passed _ _ p1);
      team_may_review = not-false _ (passed _ _ p2);
      team_allowed = passed _ _ p3;
      team_required = passed _ _ p4;
      actor_assigned = passed _ _ p5;
      team_assigned = passed _ _ p6;
      independent = self_approval-passed _ r.actor r.requested_by (passed _ _ p7);
    }

self_approval-passes :
    (allowed : Bool) (a b : String) → (a ≡ b → allowed ≡ true) → (not allowed && a == b) ≡ false
self_approval-passes allowed a b h = elim (Bool-cases (a == b)) [
  | inl same ↦ rw (h ((eq_iff a b).0 same)) refl
  | inr other ↦ ground arith
]

MayDecide-ensure_reviewer :
    (policy : Dict) (r : ReviewRequest)
    → MayDecide policy r
    → ensure_reviewer_can_decide policy r ≡ ok tt
unfolding ensure_reviewer_can_decide
MayDecide-ensure_reviewer policy r m = rw (
  m.team_named,
  m.team_may_review,
  m.team_allowed,
  m.team_required,
  m.actor_assigned,
  m.team_assigned,
  self_approval-passes (allows_self_approval policy r.repo_full_name) r.actor r.requested_by
      m.independent,
)

-- A reviewer may decide exactly when: the team is named and may review, it is among the teams that the
-- repository allows, that the approval requires and that it is assigned to, the actor is among the
-- assigned reviewers, each where there are any, and the actor is not the requester unless the policy
-- allows self-approval in the repository.
pub ensure_reviewer_iff :
    (policy : Dict) (r : ReviewRequest)
    → (ensure_reviewer_can_decide policy r ≡ ok tt) ↔ MayDecide policy r
ensure_reviewer_iff policy r =
    (ensure_reviewer-MayDecide policy r, MayDecide-ensure_reviewer policy r)

-- Every evaluation comes from the signals of its payloads.
pub evaluate-signals :
    (policy : Dict) (repo : String) (run execution verification : Dict) (team : Option String)
    (e : ApprovalEvaluation)
    → evaluate_delivery policy repo run execution verification team ≡ ok e
    → (s : Signals) × (signals_of (repo_policy policy repo) run execution verification ≡ ok s)
      × (evaluation policy repo team s ≡ e)
unfolding evaluate_delivery
evaluate-signals policy repo run execution verification team e h =
    let (s, read, end) =
      ok_parts (signals_of (repo_policy policy repo) run execution verification) _ h in
    (s, read, ok_injective end)

abbrev NoneRequired : ApprovalEvaluation → Type 0
NoneRequired e = e.blocked_reasons ≡ [] → e.approval_required ≡ false → e.required_approvals ≡ 0

none_required_lem :
    (required : ℕ) (clear : Bool) → clear ≡ true → (ltb 0 required && clear) ≡ false → required ≡ 0
none_required_lem required clear h e = ground arith

evaluation-NoneRequired :
    (policy : Dict) (repo : String) (team : Option String) (s : Signals)
    → NoneRequired (evaluation policy repo team s)
unfolding evaluation
evaluation-NoneRequired policy repo team s clear free =
    none_required_lem _ _ (ap no_strings clear) free

-- The evaluator of any policy is lawful: an evaluation without blocked reasons that asks for no approval
-- requires none, and the requester may decide only where self-approval is allowed.
pub evaluator-IsLawful : (policy : Dict) → IsLawful (evaluator policy)
evaluator-IsLawful policy = record {
  none_required = λ repo c team e done.
      let (s, _, same) = evaluate-signals policy repo _ _ _ (some team) e done in
      subst NoneRequired same (evaluation-NoneRequired policy repo (some team) s);
  independent = λ r h. (ensure_reviewer-MayDecide policy r h).independent;
}
