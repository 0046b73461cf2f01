-- ===== src/Approval/Rests.antt =====
-- What an approval of `application/use_cases/manage_approval.py` rests on: the decisions of distinct,
-- independent reviewers.
use issue_to_pr_agent.Prelude.{
  ℕ, ◌≤◌, ◌≡◌, ◌≢◌, refl, String, true, false, ◌==◌, eq_iff, List, [], ◌∷◌, ◌++◌, any, any-append,
  All, All-append, length, count-append, length-append, arith,
}
use issue_to_pr_agent.Domain.Json.{Dict}
use issue_to_pr_agent.Domain.Queue.{FilePath}
use issue_to_pr_agent.Domain.Approvals.{
  pending, approved, rejected, ApprovalDecision, approve, reject, ApprovalReviewerDecision,
  ApprovalRecord, is_approve,
}
use issue_to_pr_agent.Approval.Context.{ApprovalPolicy}
use issue_to_pr_agent.Approval.Workflow.{
  approvals_among, decided_status, decided_receipt, record_of,
}

-- No actor decided twice.
abbrev pub DistinctActors : List ApprovalReviewerDecision → Type 0
DistinctActors [] = Unit
DistinctActors (d ∷ rest) = (any (λ e. e.actor == d.actor) rest ≡ false) × DistinctActors rest

abbrev pub Independent : ApprovalPolicy → ApprovalRecord → ApprovalReviewerDecision → Type 0
Independent policy r d =
    d.actor ≡ r.requested_by → policy.allows_self_approval r.repo_full_name ≡ true

-- The decisions that an approval rests on.
pub record Rests (policy : ApprovalPolicy) (r : ApprovalRecord) (ds : List ApprovalReviewerDecision)
    : Type 0 where
  pub counted : r.approved_count ≡ approvals_among ds
  pub distinct : DistinctActors ds
  pub enough : r.status ≡ approved → r.required_approvals ≤ approvals_among ds
  pub unanimous : r.status ≢ rejected → approvals_among ds ≡ length ds
  pub independent : All (Independent policy r) ds

eq_false_sym : (a b : String) → (a == b) ≡ false → (b == a) ≡ false
eq_false_sym a b h = ground (arith, eq_iff a b, eq_iff b a)

DistinctActors-append :
    (ds : List ApprovalReviewerDecision) (d : ApprovalReviewerDecision)
    → DistinctActors ds
    → any (λ e. e.actor == d.actor) ds ≡ false
    → DistinctActors (ds ++ d ∷ [])
DistinctActors-append [] d distinct new = (refl, tt)
DistinctActors-append (e ∷ rest) d distinct new = (
  ground (arith, any-append (λ f. f.actor == e.actor) rest (d ∷ []), eq_false_sym e.actor d.actor),
  DistinctActors-append rest d distinct.1 (ground arith),
)

decided_status-enough :
    (decision : ApprovalDecision) (approvals required : ℕ)
    → decided_status decision approvals required ≡ approved
    → required ≤ approvals
decided_status-enough approve approvals required h = ground arith
decided_status-enough reject approvals required h = cc

decided_status-unanimous :
    (decision : ApprovalDecision) (approvals required : ℕ)
    → decided_status decision approvals required ≢ rejected
    → is_approve decision ≡ true
decided_status-unanimous approve approvals required h = refl
decided_status-unanimous reject approvals required h = absurd (h refl)

unanimous-append :
    (ds : List ApprovalReviewerDecision) (d : ApprovalReviewerDecision)
    → is_approve d.decision ≡ true
    → approvals_among ds ≡ length ds
    → approvals_among (ds ++ d ∷ []) ≡ length (ds ++ d ∷ [])
unanimous-append ds d approves before =
    ground (arith, count-append (λ e. is_approve e.decision) ds (d ∷ []), length-append ds (d ∷ []))

-- One more decision on a pending approval.
pub decided_receipt-Rests :
    (policy : ApprovalPolicy) (r : ApprovalRecord) (payload : Dict)
    (ds : List ApprovalReviewerDecision) (d : ApprovalReviewerDecision) (now : ℕ) (path : FilePath)
    → Rests policy r ds
    → r.status ≡ pending
    → any (λ e. e.actor == d.actor) ds ≡ false
    → Independent policy r d
    → Rests policy (record_of r.created_at now (decided_receipt r payload ds d) path) (ds ++ d ∷ [])
decided_receipt-Rests policy r payload ds d now path rests open_status new independent = record {
  counted = refl;
  distinct = DistinctActors-append ds d rests.distinct new;
  enough = decided_status-enough d.decision (approvals_among (ds ++ d ∷ [])) r.required_approvals;
  unanimous = λ h.
      unanimous-append ds d (decided_status-unanimous d.decision _ r.required_approvals h)
        (rests.unanimous (rw open_status (λ e. cc)));
  independent = All-append (Independent policy r) ds (d ∷ []) rests.independent (independent, tt);
}
