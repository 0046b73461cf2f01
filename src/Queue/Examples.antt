-- ===== src/Queue/Examples.antt =====
-- The theorems on claims, and those on the operations of the queue, at concrete data.
use issue_to_pr_agent.Prelude.{
  ◌≡◌, refl, true, false, some, arith, inl, inr, In, eq_iff, has_text, strip,
}
use issue_to_pr_agent.Domain.Json.{get}
use issue_to_pr_agent.Queue.Store.{QueueRow, count_running_jobs}
use issue_to_pr_agent.Queue.Claim.{
  claim, is_eligible, is_candidate, is_fairer, tenant_running, select_claimable, candidates,
  order_by, insert_in_order, scan, take_fairer, claim_next_queue_job,
}
use issue_to_pr_agent.Queue.Rows.{UniqueIds}
use issue_to_pr_agent.Queue.Select.{select_claimable_sound, select_claimable_best}
use issue_to_pr_agent.Queue.Limits.{
  WorkersWithin, TenantsWithin, KeysExclusive, claim-WorkersWithin, claim-TenantsWithin,
  claim-KeysExclusive,
}
use issue_to_pr_agent.Queue.Preserve.{StoreValid, claim-StoreValid}
use issue_to_pr_agent.Queue.Samples.{waiting_row, sample_rows, sample_store, sample_request}

sample_rows_unique : UniqueIds sample_rows
sample_rows_unique = (refl, (refl, tt))

sample_workers : WorkersWithin 2 sample_rows
unfolding count_running_jobs
sample_workers w = ground (arith, eq_iff "worker-b" w)

claim-WorkersWithin_example : WorkersWithin 2 (claim sample_request sample_rows).0
claim-WorkersWithin_example =
    claim-WorkersWithin sample_request sample_rows sample_rows_unique (omega arith) sample_workers

sample_tenants : TenantsWithin 2 sample_rows
unfolding count_running_jobs
sample_tenants t full = ground (arith, eq_iff "acme" t)

claim-TenantsWithin_example : TenantsWithin 2 (claim sample_request sample_rows).0
claim-TenantsWithin_example =
    claim-TenantsWithin sample_request sample_rows sample_rows_unique (omega arith) sample_tenants

sample_keys : KeysExclusive sample_rows
unfolding count_running_jobs
sample_keys k full = ground (arith, eq_iff "acme/docs" k)

claim-KeysExclusive_example : KeysExclusive (claim sample_request sample_rows).0
claim-KeysExclusive_example =
    claim-KeysExclusive sample_request sample_rows sample_rows_unique sample_keys

sample_selected : select_claimable sample_request sample_rows ≡ some waiting_row
unfolding select_claimable scan candidates order_by insert_in_order is_eligible tenant_running
    count_running_jobs take_fairer has_text strip
sample_selected = refl

select_claimable_sound_example :
    In waiting_row sample_rows
    × (is_candidate sample_request waiting_row ≡ true)
    × (is_eligible sample_request sample_rows waiting_row ≡ true)
select_claimable_sound_example =
    select_claimable_sound sample_request sample_rows waiting_row sample_selected

sample_eligible : is_eligible sample_request sample_rows waiting_row ≡ true
unfolding is_eligible tenant_running count_running_jobs has_text strip
sample_eligible = refl

select_claimable_best_example :
    (best : QueueRow) × (select_claimable sample_request sample_rows ≡ some best)
    × (is_fairer sample_rows waiting_row best ≡ false)
select_claimable_best_example =
    select_claimable_best sample_request sample_rows waiting_row (omega arith) (inr (inl refl)) refl
      sample_eligible

pub sample_store-StoreValid : StoreValid sample_store
unfolding get
sample_store-StoreValid = record {
  unique = sample_rows_unique;
  rows = (
    record {
      held = refl;
      timed = refl;
      status_shown = refl;
      token_shown = refl;
      attempts_shown = refl;
    },
    (
      record {
        held = refl;
        timed = refl;
        status_shown = refl;
        token_shown = refl;
        attempts_shown = refl;
      },
      tt,
    ),
  );
}

claim-StoreValid_example : StoreValid (claim_next_queue_job sample_request sample_store).0
claim-StoreValid_example = claim-StoreValid sample_request sample_store sample_store-StoreValid
