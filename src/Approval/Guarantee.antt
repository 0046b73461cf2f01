-- ===== src/Approval/Guarantee.antt =====
-- What the operations of `application/use_cases/manage_approval.py` guarantee together.
use issue_to_pr_agent.Prelude.{
  ℕ, ◌≡◌, ◌≢◌, ◌≤◌, refl, sym, subst, ◌∙◌, ◌↔◌, ◌⊎◌, inl, inr, String, Bool, true, false, not, ◌==◌,
  eq_iff, eq_refl, none, some, List, [], ◌∷◌, ◌++◌, any-append, All, find-All, filter, find, length,
  Result, ok, err, arith, Bool-cases, approval_error, some_injective,
}
use issue_to_pr_agent.Domain.Json.{Dict, get, dict_value}
use issue_to_pr_agent.Domain.Queue.{FilePath}
use issue_to_pr_agent.Queue.Store.{write_json}
use issue_to_pr_agent.Domain.Approvals.{
  ApprovalReceipt, approved, ApprovalReviewerDecision, ApprovalRecord, is_pending,
}
use issue_to_pr_agent.Approval.Payload.{
  receipt_payload, read_decisions, existing_decisions, has_reviewed, approval_is_expired,
}
use issue_to_pr_agent.Approval.Context.{ApprovalPolicy, IsLawful}
use issue_to_pr_agent.Approval.Workflow.{
  ApprovalWorkflowResult, record_of, Review, decide, made_decision, approvals_among,
  persist_approval, decided_receipt,
}
use issue_to_pr_agent.Approval.RoundTrip.{receipt_payload-Says}
use issue_to_pr_agent.Approval.Rests.{DistinctActors, Independent}
use issue_to_pr_agent.Approval.Decided.{Decided, decide-Decided, Decided-decide, decision_outcome}
use issue_to_pr_agent.Approval.Legit.{Legit, Reach, Reach-AllLegit}
use issue_to_pr_agent.Repository.{Repository, get_approval, save_approval}

-- `decide` succeeds with an outcome exactly when the approval is stored and pending, it has not
-- expired, the policy lets the actor decide, the actor has not reviewed it before and its decisions
-- can be read; the outcome is then the write of the receipt with the new decision added.
pub decide_iff :
    (policy : ApprovalPolicy) (checked_at now : ℕ) (v : Review) (repo : Repository)
    (end : Repository × ApprovalWorkflowResult)
    → (decide policy checked_at now v repo ≡ ok end) ↔ Decided policy checked_at now v repo end
decide_iff policy checked_at now v repo end = (
  decide-Decided policy checked_at now v repo end,
  Decided-decide policy checked_at now v repo end,
)

-- The decisions of a payload approve enough, by distinct actors, each of them independent.
pub record Warranted (policy : ApprovalPolicy) (row : ApprovalRecord × Dict) : Type 0 where
  pub decisions : List ApprovalReviewerDecision
  pub read : read_decisions (existing_decisions row.1) ≡ ok decisions
  pub distinct : DistinctActors decisions
  pub all_approve : approvals_among decisions ≡ length decisions
  pub enough : row.0.required_approvals ≤ length decisions
  pub independent : All (Independent policy row.0) decisions

Legit-Warranted :
    (policy : ApprovalPolicy) (row : ApprovalRecord × Dict)
    → row.0.status ≡ approved
    → Legit policy row
    → Warranted policy row
Legit-Warranted policy row h l =
    let all_approve = l.rests.unanimous (λ e. cc) in
    record {
      decisions = l.decisions;
      read = l.read;
      distinct = l.rests.distinct;
      all_approve = all_approve;
      enough = subst (λ n. row.0.required_approvals ≤ n) all_approve (l.rests.enough h);
      independent = l.rests.independent;
    }

-- Under a lawful policy, whatever requests, decisions and other operations run from a repository
-- without approvals, an approval that is found with the status approved has a payload whose decisions
-- are all approvals, at least as many as it requires, by distinct actors, and none of them the
-- requester unless the policy allows self-approval in that repository.
pub Reach-Warranted :
    (policy : ApprovalPolicy) (start end : Repository) (id : String) (row : ApprovalRecord × Dict)
    → IsLawful policy
    → start.approvals ≡ []
    → Reach policy start end
    → get_approval id end ≡ some row
    → row.0.status ≡ approved
    → Warranted policy row
unfolding get_approval
Reach-Warranted policy start end id row lawful none_yet reach found h =
    Legit-Warranted policy row h (
      find-All (Legit policy) _ end.approvals row
        (Reach-AllLegit policy start lawful none_yet reach) found)

find-last {ℓ} :
    {A : Type ℓ} (p : A → Bool) (rows : List A) (x : A)
    → p x ≡ true
    → find p (filter (λ y. not (p y)) rows ++ x ∷ []) ≡ some x
find-last p [] x h = rw h
find-last p (y ∷ rows) x h = elim (Bool-cases (p y)) [
  | inl hit ↦ rw hit (find-last p rows x h)
  | inr miss ↦ rw (miss, miss) (find-last p rows x h)
]

get-save :
    (r : ApprovalRecord) (payload : Dict) (repo : Repository)
    → get_approval r.approval_id (save_approval r payload repo)
      ≡ some (record r { expires_at = none }, payload)
unfolding get_approval save_approval
get-save r payload repo =
    find-last (λ (q : ApprovalRecord × Dict). q.0.approval_id == r.approval_id) repo.approvals
      (record r { expires_at = none }, payload) (eq_refl r.approval_id)

find-holds {ℓ} : {A : Type ℓ} (p : A → Bool) (xs : List A) (x : A) → find p xs ≡ some x → p x ≡ true
find-holds p [] x found = cc
find-holds p (y ∷ xs) x found = elim (Bool-cases (p y)) [
  | inl hit ↦ subst (λ z. p z ≡ true) (some_injective (rw hit at found)) hit
  | inr miss ↦ find-holds p xs x (rw miss at found)
]

found_id :
    (id : String) (repo : Repository) (row : ApprovalRecord × Dict)
    → get_approval id repo ≡ some row
    → row.0.approval_id ≡ id
unfolding get_approval
found_id id repo row found =
    (eq_iff row.0.approval_id id).0
      (find-holds (λ (q : ApprovalRecord × Dict). q.0.approval_id == id) repo.approvals row found)

persist_approval-get :
    (created_at updated_at : ℕ) (r : ApprovalReceipt) (path : FilePath) (policy_snapshot : Dict)
    (repo : Repository)
    → get_approval r.approval_id
        (persist_approval created_at updated_at r path policy_snapshot repo).0
      ≡ some (
        record (record_of created_at updated_at r path) { expires_at = none },
        receipt_payload created_at updated_at r policy_snapshot,
      )
unfolding persist_approval
persist_approval-get created_at updated_at r path policy_snapshot repo =
    get-save (record_of created_at updated_at r path)
      (receipt_payload created_at updated_at r policy_snapshot)
      (record repo {
        queue =
            write_json path (receipt_payload created_at updated_at r policy_snapshot) repo.queue;
      })

-- The next reader finds that the actor has reviewed.
decision_outcome-has_reviewed :
    (now : ℕ) (v : Review) (row : ApprovalRecord × Dict) (before : List ApprovalReviewerDecision)
    (repo : Repository) (after : ApprovalRecord × Dict)
    → get_approval row.0.approval_id (decision_outcome now v row before repo).0 ≡ some after
    → has_reviewed v.actor (existing_decisions after.1) ≡ true
decision_outcome-has_reviewed now v row before repo after found =
    let d = made_decision now v in
    let r = decided_receipt row.0 row.1 before d in
    let snapshot = dict_value (get "policy_snapshot" row.1) in
    let saved = persist_approval-get row.0.created_at now r row.0.receipt_path snapshot repo in
    subst (λ q. has_reviewed v.actor (existing_decisions q.1) ≡ true)
      (some_injective (sym saved ∙ found))
      ((receipt_payload-Says row.0.created_at now r snapshot).reviewed v.actor
        ∙ any-append (λ e. e.actor == v.actor) before (d ∷ [])
        ∙ ground (arith, eq_refl v.actor))

-- After a decision, a second one of the same actor on the same approval is refused, whatever the
-- policy, the times and the second decision.
pub decide_once :
    (policy : ApprovalPolicy) (checked_at now : ℕ) (v : Review) (repo : Repository)
    (end : Repository × ApprovalWorkflowResult) (other : ApprovalPolicy) (later at : ℕ) (w : Review)
    (result : Repository × ApprovalWorkflowResult)
    → decide policy checked_at now v repo ≡ ok end
    → w.approval_id ≡ v.approval_id
    → w.actor ≡ v.actor
    → decide other later at w end.0 ≢ ok result
decide_once policy checked_at now v repo end other later at w result h same_id same_actor again =
    let d = decide-Decided policy checked_at now v repo end h in
    let e = decide-Decided other later at w end.0 result again in
    let reviewed =
      decision_outcome-has_reviewed now v d.row d.before repo e.row
        (rw (d.stored, found_id v.approval_id repo d.row d.found, sym same_id) e.found) in
    absurd (cc (reviewed, rw same_actor at e.first_time))

-- An approval error, and no other end.
abbrev pub Refused {ℓ} : {A : Type ℓ} → Result A → Type 0
Refused (ok _) = ⊥
Refused (err e) = e.kind ≡ approval_error

-- A stored approval that is not pending, or that has expired, cannot be reviewed: the decision ends in
-- an approval error, whatever the policy, the actor and the decision.
pub decide_closed :
    (policy : ApprovalPolicy) (checked_at now : ℕ) (v : Review) (repo : Repository)
    (row : ApprovalRecord × Dict)
    → get_approval v.approval_id repo ≡ some row
    → (is_pending row.0.status ≡ false) ⊎ (approval_is_expired row.1 checked_at ≡ true)
    → Refused (decide policy checked_at now v repo)
unfolding decide
decide_closed policy checked_at now v repo row found (inl final) = rw (found, final) refl
decide_closed policy checked_at now v repo row found (inr expired) =
    elim (Bool-cases (is_pending row.0.status)) [
      | inl waiting ↦ rw (found, waiting, expired) refl
      | inr final ↦ rw (found, final) refl
    ]
