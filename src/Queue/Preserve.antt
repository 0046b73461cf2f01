-- ===== src/Queue/Preserve.antt =====
-- Every operation of the queue keeps its table sound.
use issue_to_pr_agent.Prelude.{ℕ, ◌≡◌, refl, String, some, List, arith, eq_iff, ok}
use issue_to_pr_agent.Domain.Json.{get}
use issue_to_pr_agent.Queue.Store.{
  QueueRow, QueueStore, has_id, get_queue_job, save_queue_job, requeue_expired,
  requeue_expired_queue_jobs, write_json,
}
use issue_to_pr_agent.Queue.Claim.{ClaimRequest, claimed, claim_next_queue_job}
use issue_to_pr_agent.Queue.Rows.{
  find-insert_or_replace, UniqueIds, insert_or_replace-UniqueIds, requeue_expired-UniqueIds,
}
use issue_to_pr_agent.Queue.Limits.{claim_rule, claim-UniqueIds}
use issue_to_pr_agent.Queue.Invariant.{
  RowValid, RowsValid, claimed-RowValid, requeue-RowsValid, update-RowsValid,
  insert_or_replace-RowsValid, find-RowValid,
}
use issue_to_pr_agent.Queue.Budget.{Settings}
use issue_to_pr_agent.Queue.Create.{NewJob, new_record, new_payload, create_job}
use issue_to_pr_agent.Queue.Manage.{load_mutable_job, found_job}
use issue_to_pr_agent.Repository.{Repository}

-- The primary key is respected and every row is valid.
pub record StoreValid (store : QueueStore) : Type 0 where
  pub unique : UniqueIds store.jobs
  pub rows : RowsValid store.jobs

requeue_expired-RowsValid :
    (now : ℕ) (rows : List QueueRow) → RowsValid rows → RowsValid (requeue_expired now rows).0
unfolding requeue_expired
requeue_expired-RowsValid = requeue-RowsValid

-- Requeuing the jobs whose leases ran out keeps a valid table of jobs valid.
pub requeue-StoreValid :
    (now : ℕ) (store : QueueStore)
    → StoreValid store
    → StoreValid (requeue_expired_queue_jobs now store).0
unfolding requeue_expired_queue_jobs
requeue-StoreValid now store v = record {
  unique = requeue_expired-UniqueIds now store.jobs v.unique;
  rows = requeue_expired-RowsValid now store.jobs v.rows;
}

-- A claim, with the requeuing at its start, keeps a valid table of jobs valid.
pub claim-StoreValid :
    (req : ClaimRequest) (store : QueueStore)
    → StoreValid store
    → StoreValid (claim_next_queue_job req store).0
unfolding claim_next_queue_job
claim-StoreValid req store v =
    let start = requeue_expired-RowsValid req.now store.jobs v.rows in
    record {
      unique = claim-UniqueIds req store.jobs v.unique;
      rows =
          claim_rule RowsValid req store.jobs start
            (λ r _ _. update-RowsValid (claimed req r) _ (claimed-RowValid req r) start);
    }

pub save-StoreValid :
    (row : QueueRow) (store : QueueStore)
    → RowValid row
    → StoreValid store
    → StoreValid (save_queue_job row.job row.payload store)
unfolding save_queue_job
save-StoreValid row store r v = record {
  unique = insert_or_replace-UniqueIds row store.jobs v.unique;
  rows = insert_or_replace-RowsValid row store.jobs r v.rows;
}

-- A saved row is found under its key.
pub save-find :
    (id : String) (row : QueueRow) (store : QueueStore)
    → row.job.job_id ≡ id
    → get_queue_job id (save_queue_job row.job row.payload store) ≡ some row
unfolding get_queue_job save_queue_job
save-find id row store same =
    ground (arith, find-insert_or_replace id row store.jobs, eq_iff row.job.job_id id)

new-RowValid :
    (s : Settings) (now : ℕ) (id text : String) (new : NewJob)
    → RowValid (record {
      job = new_record s now id new;
      payload = new_payload (new_record s now id new) text new.parameters;
    })
unfolding new_record new_payload get
new-RowValid s now id text new = record {
  held = refl;
  timed = refl;
  status_shown = refl;
  token_shown = refl;
  attempts_shown = refl;
}

-- Creating a job keeps a valid table of jobs valid.
pub create-StoreValid :
    (s : Settings) (now : ℕ) (id : String) (new : NewJob) (store : QueueStore)
    → StoreValid store
    → StoreValid (create_job s now id new store).0
unfolding create_job write_json
create-StoreValid s now id new store v =
    save-StoreValid _ _ (new-RowValid s now id _ new) (record { unique = v.unique; rows = v.rows })

-- The row that `_load_mutable_job` returns is stored under the identifier.
pub load_mutable_job-found :
    (repo : Repository) (id actor team : String) (row : QueueRow)
    → load_mutable_job repo id actor team ≡ ok row
    → get_queue_job id repo.queue ≡ some row
unfolding load_mutable_job found_job
load_mutable_job-found repo id actor team row h = ground arith

pub loaded-RowValid :
    (repo : Repository) (id actor team : String) (row : QueueRow)
    → StoreValid repo.queue
    → load_mutable_job repo id actor team ≡ ok row
    → RowValid row
unfolding get_queue_job
loaded-RowValid repo id actor team row v h =
    find-RowValid (has_id id) repo.queue.jobs row v.rows
      (load_mutable_job-found repo id actor team row h)
