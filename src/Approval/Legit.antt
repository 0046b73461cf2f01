-- ===== src/Approval/Legit.antt =====
-- The table of approvals that `application/use_cases/manage_approval.py` keeps.
use issue_to_pr_agent.Prelude.{
  ℕ, arith, ◌≡◌, refl, String, true, ◌==◌, none, List, [], ◌∷◌, any, All, All-append, All-filter,
  find-All, ok, ok_parts, ok_injective, subst, sym, Bool-cases, inl, inr, if◌then◌else◌, ◌∙◌,
}
use issue_to_pr_agent.Domain.Json.{Dict}
use issue_to_pr_agent.Domain.Queue.{FilePath}
use issue_to_pr_agent.Domain.Approvals.{
  approved, ApprovalReviewerDecision, ApprovalEvaluation, ApprovalReceipt, ApprovalRecord,
  is_pending,
}
use issue_to_pr_agent.Approval.Payload.{read_decisions, existing_decisions, has_reviewed}
use issue_to_pr_agent.Approval.Context.{
  ApprovalPolicy, IsLawful, DeliveryContext, load_delivery_context,
}
use issue_to_pr_agent.Approval.Workflow.{
  ApprovalWorkflowResult, record_of, persist_approval, RequestArguments, status_of, no_strings,
  requested_receipt, approval_path, request_delivery_approval, resolve_expires_at, Review,
  made_decision, decide,
}
use issue_to_pr_agent.Approval.RoundTrip.{receipt_payload-Says}
use issue_to_pr_agent.Approval.Rests.{Rests, decided_receipt-Rests}
use issue_to_pr_agent.Approval.Decided.{decide-Decided}
use issue_to_pr_agent.Repository.{Repository, get_approval, save_approval}

-- A stored approval whose payload holds decisions that it rests on.
pub record Legit (policy : ApprovalPolicy) (row : ApprovalRecord × Dict) : Type 0 where
  pub decisions : List ApprovalReviewerDecision
  pub read : read_decisions (existing_decisions row.1) ≡ ok decisions
  pub reviewed :
      (actor : String)
      → has_reviewed actor (existing_decisions row.1) ≡ any (λ d. d.actor == actor) decisions
  pub rests : Rests policy row.0 decisions

abbrev pub AllLegit : ApprovalPolicy → Repository → Type 0
AllLegit policy repo = All (Legit policy) repo.approvals

-- Writing a receipt whose record rests on the receipt's decisions.
persist_approval-AllLegit :
    (policy : ApprovalPolicy) (created_at updated_at : ℕ) (r : ApprovalReceipt) (path : FilePath)
    (policy_snapshot : Dict) (repo : Repository)
    → Rests policy (record_of created_at updated_at r path) r.decisions
    → AllLegit policy repo
    → AllLegit policy (persist_approval created_at updated_at r path policy_snapshot repo).0
unfolding persist_approval save_approval
persist_approval-AllLegit policy created_at updated_at r path policy_snapshot repo rests v =
    let says = receipt_payload-Says created_at updated_at r policy_snapshot in
    All-append (Legit policy) _ _ (All-filter (Legit policy) _ repo.approvals v) (
      record {
        decisions = r.decisions;
        read = says.decisions;
        reviewed = says.reviewed;
        rests = record {
          counted = rests.counted;
          distinct = rests.distinct;
          enough = rests.enough;
          unanimous = rests.unanimous;
          independent = rests.independent;
        };
      },
      tt,
    )

pub decide-AllLegit :
    (policy : ApprovalPolicy) (checked_at now : ℕ) (v : Review) (repo : Repository)
    (end : Repository × ApprovalWorkflowResult)
    → IsLawful policy
    → decide policy checked_at now v repo ≡ ok end
    → AllLegit policy repo
    → AllLegit policy end.0
unfolding get_approval
decide-AllLegit policy checked_at now v repo end lawful h valid =
    let d = decide-Decided policy checked_at now v repo end h in
    let l = find-All (Legit policy) _ repo.approvals d.row valid d.found in
    let same = ok_injective (sym d.read ∙ l.read) in
    subst (λ p. AllLegit policy p.0) d.stored
      (persist_approval-AllLegit policy _ now _ _ _ repo
        (decided_receipt-Rests policy d.row.0 d.row.1 d.before (made_decision now v) now
          d.row.0.receipt_path (rw same l.rests) d.open_status
          (rw same (sym (l.reviewed v.actor) ∙ d.first_time)) (lawful.independent _ d.permitted))
        valid)

no_strings-empty : (items : List String) → no_strings items ≡ true → items ≡ []
no_strings-empty [] h = refl
no_strings-empty (s ∷ rest) h = cc

-- A request that is approved at once requires no approval.
status_of-approved :
    (policy : ApprovalPolicy) (repo : String) (c : DeliveryContext) (team : String)
    (e : ApprovalEvaluation)
    → IsLawful policy
    → policy.evaluate_delivery repo c team ≡ ok e
    → status_of e ≡ approved
    → e.required_approvals ≡ 0
status_of-approved policy repo c team e lawful evaluated h =
    elim (Bool-cases (no_strings e.blocked_reasons)) [
      | inl clear ↦ elim (Bool-cases e.approval_required) [
        | inl required ↦ absurd (cc (rw (clear, required) at h))
        | inr free ↦
            lawful.none_required repo c team e evaluated (no_strings-empty e.blocked_reasons clear)
              free
      ]
      | inr blocked ↦ absurd (cc (rw blocked at h))
    ]

pub request-AllLegit :
    (policy : ApprovalPolicy) (now : ℕ) (id : String) (a : RequestArguments) (repo : Repository)
    (end : Repository × ApprovalWorkflowResult)
    → IsLawful policy
    → request_delivery_approval policy now id a repo ≡ ok end
    → AllLegit policy repo
    → AllLegit policy end.0
unfolding request_delivery_approval
request-AllLegit policy now id a repo end lawful h valid =
    let (c, _, h1) =
      ok_parts (load_delivery_context repo a.run_id a.execution_id a.verification_id) _ h in
    let (e, evaluated, h2) =
      ok_parts (policy.evaluate_delivery c.run.repo_full_name c a.team) _ h1 in
    let (expires, _, h3) =
      ok_parts
        (if is_pending (status_of e) then resolve_expires_at now a.expires_in_hours else ok none) _
        h2 in
    subst (λ p. AllLegit policy p.0) (ok_injective h3)
      (persist_approval-AllLegit policy now now (requested_receipt id a c e expires)
        (approval_path c id) e.policy_snapshot repo
        (record {
          counted = refl;
          distinct = tt;
          enough =
              λ s. rw (status_of-approved policy _ c a.team e lawful evaluated s) (omega arith);
          unanimous = λ _. refl;
          independent = tt;
        })
        valid)

-- What writes approvals: a request, a decision, and every other operation of the program, which
-- leaves the table as it is.
pub data Step (policy : ApprovalPolicy) (before after : Repository) : Type 0 where
  request :
      (now : ℕ) (id : String) (a : RequestArguments) (result : ApprovalWorkflowResult)
      → request_delivery_approval policy now id a before ≡ ok (after, result)
      → Step policy before after
  review :
      (checked_at now : ℕ) (v : Review) (result : ApprovalWorkflowResult)
      → decide policy checked_at now v before ≡ ok (after, result)
      → Step policy before after
  other : after.approvals ≡ before.approvals → Step policy before after

pub data Reach (policy : ApprovalPolicy) (start : Repository) : Repository → Type 0 where
  here : Reach policy start start
  next :
      {repo after : Repository}
      → Reach policy start repo
      → Step policy repo after
      → Reach policy start after

Step-AllLegit :
    (policy : ApprovalPolicy) (before after : Repository)
    → IsLawful policy
    → Step policy before after
    → AllLegit policy before
    → AllLegit policy after
Step-AllLegit policy before after lawful (request now id a result h) v =
    request-AllLegit policy now id a before (after, result) lawful h v
Step-AllLegit policy before after lawful (review checked_at now w result h) v =
    decide-AllLegit policy checked_at now w before (after, result) lawful h v
Step-AllLegit policy before after lawful (other same) v = rw same v

pub Reach-AllLegit :
    (policy : ApprovalPolicy) (start : Repository) {end : Repository}
    → IsLawful policy
    → start.approvals ≡ []
    → Reach policy start end
    → AllLegit policy end
Reach-AllLegit policy start lawful none_yet here = rw none_yet tt
Reach-AllLegit policy start lawful none_yet (next reach step) =
    Step-AllLegit policy _ _ lawful step (Reach-AllLegit policy start lawful none_yet reach)
