-- ===== src/Queue/Limits.antt =====
-- What a claim keeps: the concurrency limits and the primary key.
use issue_to_pr_agent.Prelude.{
  ℕ, ◌+◌, ◌≤◌, ◌<◌, ◌≡◌, refl, String, true, false, Option, none, some, List, arith, is_empty,
  eq_iff, Bool-cases, Option-cases, inl, inr,
}
use issue_to_pr_agent.Queue.Store.{QueueRow, count_running_jobs, requeue_expired, runs_for}
use issue_to_pr_agent.Queue.Claim.{
  ClaimRequest, claim, claimed, claim_selected, update_row, worker_is_full, select_claimable,
  is_eligible, tenant_running,
}
use issue_to_pr_agent.Queue.Rows.{
  UniqueIds, one_if, count-update-le, update_row-UniqueIds, requeue_expired-UniqueIds,
  count_running-requeue-le,
}
use issue_to_pr_agent.Queue.Select.{select_claimable_sound}

-- No worker runs more than `n` jobs.
abbrev pub WorkersWithin : ℕ → List QueueRow → Type 0
WorkersWithin n rows = (w : String) → count_running_jobs none (some w) none rows ≤ n

-- No tenant runs more than `n` jobs.
abbrev pub TenantsWithin : ℕ → List QueueRow → Type 0
TenantsWithin n rows =
    (t : String) → is_empty t ≡ false → count_running_jobs (some t) none none rows ≤ n

-- No concurrency key is held by two running jobs.
abbrev pub KeysExclusive : List QueueRow → Type 0
KeysExclusive rows =
    (k : String) → is_empty k ≡ false → count_running_jobs none none (some k) rows ≤ 1

-- A rule for what holds after a claim: it holds after requeuing, and the update keeps it.
pub claim_rule :
    (P : List QueueRow → Type 0) (req : ClaimRequest) (rows : List QueueRow)
    → P (requeue_expired req.now rows).0
    → ((r : QueueRow)
        → worker_is_full req (requeue_expired req.now rows).0 ≡ false
        → is_eligible req (requeue_expired req.now rows).0 r ≡ true
        → P (update_row (claimed req r) (requeue_expired req.now rows).0))
    → P (claim req rows).0
unfolding claim claim_selected
claim_rule P req rows start update =
    let after = (requeue_expired req.now rows).0 in
    elim (Bool-cases (worker_is_full req after)) [
      | inl full ↦ rw full start
      | inr room ↦ rw room (elim (Option-cases (select_claimable req after)) [
        | inl nothing ↦ rw nothing start
        | inr (r, found) ↦ rw found (update r room (select_claimable_sound req after r found).2)
      ])
    ]

-- Claiming keeps the primary key.
pub claim-UniqueIds :
    (req : ClaimRequest) (rows : List QueueRow) → UniqueIds rows → UniqueIds (claim req rows).0
claim-UniqueIds req rows u =
    let after = requeue_expired-UniqueIds req.now rows u in
    claim_rule UniqueIds req rows after (λ r _ _. update_row-UniqueIds (claimed req r) _ after)

-- The number of running jobs of one kind after the update: one more if the claimed job is of that
-- kind, and no more if it is not.
running-update-le :
    (tenant worker key : Option String) (req : ClaimRequest) (rows : List QueueRow) (r : QueueRow)
    → UniqueIds rows
    → count_running_jobs tenant worker key
        (update_row (claimed req r) (requeue_expired req.now rows).0)
      ≤ count_running_jobs tenant worker key (requeue_expired req.now rows).0
        + one_if (runs_for tenant worker key (claimed req r))
unfolding count_running_jobs
running-update-le tenant worker key req rows r u =
    count-update-le (runs_for tenant worker key) (claimed req r) _
      (requeue_expired-UniqueIds req.now rows u)

-- Each limit is met with room for one more by what the claim tests.
room_for_worker :
    (w : String) (req : ClaimRequest) (rows : List QueueRow) (r : QueueRow)
    → 0 < req.max_running_jobs_per_worker
    → count_running_jobs none (some w) none rows ≤ req.max_running_jobs_per_worker
    → worker_is_full req rows ≡ false
    → count_running_jobs none (some w) none rows
        + one_if (runs_for none (some w) none (claimed req r))
      ≤ req.max_running_jobs_per_worker
unfolding claimed one_if
room_for_worker w req rows r p h room = ground (arith, eq_iff req.worker_id w)

room_for_tenant :
    (t : String) (req : ClaimRequest) (rows : List QueueRow) (r : QueueRow)
    → is_empty t ≡ false
    → 0 < req.max_running_jobs_per_tenant
    → count_running_jobs (some t) none none rows ≤ req.max_running_jobs_per_tenant
    → is_eligible req rows r ≡ true
    → count_running_jobs (some t) none none rows
        + one_if (runs_for (some t) none none (claimed req r))
      ≤ req.max_running_jobs_per_tenant
unfolding claimed one_if is_eligible tenant_running
room_for_tenant t req rows r full p h e = split r.job.tenant_id refl
  where
    split :
        (tenant : Option String)
        → r.job.tenant_id ≡ tenant
        → count_running_jobs (some t) none none rows
            + one_if (runs_for (some t) none none (claimed req r))
          ≤ req.max_running_jobs_per_tenant
    split none q = ground arith
    split (some u) q = ground (arith, eq_iff u t)

room_for_key :
    (k : String) (req : ClaimRequest) (rows : List QueueRow) (r : QueueRow)
    → is_empty k ≡ false
    → count_running_jobs none none (some k) rows ≤ 1
    → is_eligible req rows r ≡ true
    → count_running_jobs none none (some k) rows
        + one_if (runs_for none none (some k) (claimed req r))
      ≤ 1
unfolding claimed one_if is_eligible
room_for_key k req rows r full h e = split r.job.concurrency_key refl
  where
    split :
        (key : Option String)
        → r.job.concurrency_key ≡ key
        → count_running_jobs none none (some k) rows
            + one_if (runs_for none none (some k) (claimed req r))
          ≤ 1
    split none q = ground arith
    split (some u) q = ground (arith, eq_iff u k)

-- If job identifiers are unique and no worker runs more jobs than the worker limit, which is not
-- zero, then no worker does after a claim.
pub claim-WorkersWithin :
    (req : ClaimRequest) (rows : List QueueRow)
    → UniqueIds rows
    → 0 < req.max_running_jobs_per_worker
    → WorkersWithin req.max_running_jobs_per_worker rows
    → WorkersWithin req.max_running_jobs_per_worker (claim req rows).0
claim-WorkersWithin req rows u p h w =
    let n = req.max_running_jobs_per_worker in
    let start : count_running_jobs none (some w) none (requeue_expired req.now rows).0 ≤ n =
      omega (arith, count_running-requeue-le none (some w) none req.now rows, h w) in
    claim_rule (λ after. count_running_jobs none (some w) none after ≤ n) req rows start
      λ r room _. omega (
        arith,
        running-update-le none (some w) none req rows r u,
        room_for_worker w req (requeue_expired req.now rows).0 r p start room,
      )

-- If job identifiers are unique and no tenant with a name that is not empty runs more jobs than the
-- tenant limit, which is not zero, then no such tenant does after a claim.
pub claim-TenantsWithin :
    (req : ClaimRequest) (rows : List QueueRow)
    → UniqueIds rows
    → 0 < req.max_running_jobs_per_tenant
    → TenantsWithin req.max_running_jobs_per_tenant rows
    → TenantsWithin req.max_running_jobs_per_tenant (claim req rows).0
claim-TenantsWithin req rows u p h t full =
    let n = req.max_running_jobs_per_tenant in
    let start : count_running_jobs (some t) none none (requeue_expired req.now rows).0 ≤ n =
      omega (arith, count_running-requeue-le (some t) none none req.now rows, h t full) in
    claim_rule (λ after. count_running_jobs (some t) none none after ≤ n) req rows start
      λ r _ eligible. omega (
        arith,
        running-update-le (some t) none none req rows r u,
        room_for_tenant t req (requeue_expired req.now rows).0 r full p start eligible,
      )

-- If job identifiers are unique and no concurrency key that is not empty is held by two running jobs,
-- then none is after a claim.
pub claim-KeysExclusive :
    (req : ClaimRequest) (rows : List QueueRow)
    → UniqueIds rows
    → KeysExclusive rows
    → KeysExclusive (claim req rows).0
claim-KeysExclusive req rows u h k full =
    let start : count_running_jobs none none (some k) (requeue_expired req.now rows).0 ≤ 1 =
      omega (arith, count_running-requeue-le none none (some k) req.now rows, h k full) in
    claim_rule (λ after. count_running_jobs none none (some k) after ≤ 1) req rows start
      λ r _ eligible. omega (
        arith,
        running-update-le none none (some k) req rows r u,
        room_for_key k req (requeue_expired req.now rows).0 r full start eligible,
      )
