-- ===== src/Queue/Outcome.antt =====
-- How `_process_job` leaves its job.
use issue_to_pr_agent.Prelude.{
  ℕ, ◌<◌, ◌≡◌, refl, String, false, Option, none, some, List, arith, Bool-cases, inl, inr, ◌⊎◌,
  Error, ltb,
}
use issue_to_pr_agent.Domain.Queue.{queued, is_running}
use issue_to_pr_agent.Queue.Store.{QueueRow, QueueStore, has_id, get_queue_job}
use issue_to_pr_agent.Queue.Rows.{find-has_id}
use issue_to_pr_agent.Queue.Budget.{Settings, next_retry_at}
use issue_to_pr_agent.Queue.Process.{
  Dispatch, Draws, AttemptEnd, cancelled_before, completed, raised, try_attempt, latest_or,
  cancelled_after,
}
use issue_to_pr_agent.Queue.Finish.{
  Event, Processed, finalize_cancelled, finished_row, settle, success_verdict, failure_verdict,
  after_failure, after_attempt, process_job,
}
use issue_to_pr_agent.Queue.Preserve.{StoreValid}
use issue_to_pr_agent.Queue.Invariant.{
  RowValid, cancelled_after-RowValid, finished-RowValid, find-RowValid,
}
use issue_to_pr_agent.Tenant.Store.{TenantRow}
use issue_to_pr_agent.Repository.{Repository}
use issue_to_pr_agent.Queue.Ends.{persist-find, persist-StoreValid, process_rule}

-- The job is stored under its key with the status that is returned, and holds no lease.
pub record Settled (id : String) (result : Processed) : Type 0 where
  pub row : QueueRow
  pub stored : get_queue_job id result.repository.queue ≡ some row
  pub same_status : row.job.status ≡ result.status
  pub not_running : is_running row.job.status ≡ false
  pub no_token : row.job.lease_token ≡ none
  pub no_expiry : row.job.lease_expires_at ≡ none

latest-id :
    (id : String) (store : QueueStore) (latest claimed : QueueRow)
    → claimed.job.job_id ≡ id
    → (get_queue_job id store ≡ some latest) ⊎ (latest ≡ claimed)
    → latest.job.job_id ≡ id
unfolding get_queue_job
latest-id id store latest claimed e (inl there) = find-has_id id store.jobs latest there
latest-id id store latest claimed e (inr same) = rw same e

latest-RowValid :
    (id : String) (store : QueueStore) (latest claimed : QueueRow)
    → RowValid claimed
    → StoreValid store
    → (get_queue_job id store ≡ some latest) ⊎ (latest ≡ claimed)
    → RowValid latest
unfolding get_queue_job
latest-RowValid id store latest claimed c v (inl there) =
    find-RowValid (has_id id) store.jobs latest v.rows there
latest-RowValid id store latest claimed c v (inr same) = rw same c

-- Whatever the work does to the tables, and whoever holds the job by then, the job ends stored with
-- the status that is returned, not running and without a lease.
pub process_job-Settled :
    (s : Settings) (dispatch : Dispatch) (worker : String) (d : Draws) (claimed : QueueRow)
    (repo : Repository)
    → Settled claimed.job.job_id (process_job s dispatch worker d claimed repo)
unfolding finalize_cancelled settle cancelled_after finished_row
process_job-Settled s dispatch worker d claimed repo =
    process_rule (Settled claimed.job.job_id) s dispatch worker d claimed repo
      (λ latest summary events from. record {
        row = cancelled_after worker d.finished_at summary latest;
        stored =
            persist-find worker d _ _ _ _ _
              (latest-id claimed.job.job_id _ latest claimed refl from);
        same_status = refl;
        not_running = refl;
        no_token = refl;
        no_expiry = refl;
      })
      (λ v events over. record {
        row = finished_row worker d.finished_at v claimed;
        stored = persist-find worker d _ _ _ _ _ (refl);
        same_status = refl;
        not_running = over;
        no_token = refl;
        no_expiry = refl;
      })

-- If the table is valid when the work ends and the claimed row is, it is valid after the job.
pub process_job-StoreValid :
    (s : Settings) (dispatch : Dispatch) (worker : String) (d : Draws) (claimed : QueueRow)
    (repo : Repository)
    → RowValid claimed
    → StoreValid (try_attempt s dispatch claimed repo).0.queue
    → StoreValid (process_job s dispatch worker d claimed repo).repository.queue
unfolding finalize_cancelled settle
process_job-StoreValid s dispatch worker d claimed repo c v =
    process_rule (λ p. StoreValid p.repository.queue) s dispatch worker d claimed repo
      (λ latest summary events from.
        persist-StoreValid worker d _ _ _ _
          (cancelled_after-RowValid worker d.finished_at summary latest
            (latest-RowValid claimed.job.job_id _ latest claimed c v from))
          v)
      (λ v' events over.
        persist-StoreValid worker d _ _ _ _
          (finished-RowValid worker d.finished_at v' claimed over c) v)

-- A row that is stored again, with the attempts that are left and the time of the next one.
pub record Retried (s : Settings) (d : Draws) (claimed latest : QueueRow) (result : Processed)
    : Type 0 where
  pub row : QueueRow
  pub stored : get_queue_job claimed.job.job_id result.repository.queue ≡ some row
  pub waits : row.job.status ≡ queued
  pub no_token : row.job.lease_token ≡ none
  pub no_expiry : row.job.lease_expires_at ≡ none
  pub attempts : row.job.attempt_count ≡ claimed.job.attempt_count
  pub maximum : row.job.max_attempts ≡ claimed.job.max_attempts
  pub type_kept : row.job.job_type ≡ claimed.job.job_type
  pub urgency : row.job.priority ≡ claimed.job.priority
  pub due : row.job.next_run_at ≡ next_retry_at s latest.job.attempt_count d.retry_base
  pub cancel_kept : row.job.cancel_requested ≡ claimed.job.cancel_requested
  pub not_cancelled : latest.job.cancel_requested ≡ false
  pub attempts_left : latest.job.attempt_count < latest.job.max_attempts

after_failure-Retried :
    (s : Settings) (worker : String) (d : Draws) (claimed : QueueRow) (tenant : Option TenantRow)
    (charge : ℕ) (e : Error) (repo : Repository) (events : List Event)
    → (after_failure s worker d claimed tenant charge e repo events).status ≡ queued
    → Retried s d claimed
        (latest_or (get_queue_job claimed.job.job_id repo.queue) claimed)
        (after_failure s worker d claimed tenant charge e repo events)
unfolding after_failure settle failure_verdict finished_row
after_failure-Retried s worker d claimed tenant charge e repo events h =
    let latest = latest_or (get_queue_job claimed.job.job_id repo.queue) claimed in
    elim (Bool-cases latest.job.cancel_requested) [
      | inl wanted ↦ absurd (ground arith)
      | inr kept ↦ elim (Bool-cases (ltb latest.job.attempt_count latest.job.max_attempts)) [
        | inl again ↦ simp kept (record {
          row =
              finished_row worker d.finished_at (failure_verdict s d.retry_base latest.job charge e)
                claimed;
          stored = persist-find worker d _ _ _ _ _ refl;
          waits = rw again refl;
          no_token = refl;
          no_expiry = refl;
          attempts = refl;
          maximum = refl;
          type_kept = refl;
          urgency = refl;
          due = rw again refl;
          cancel_kept = rw again refl;
          not_cancelled = kept;
          attempts_left = ground arith;
        })
        | inr over ↦ absurd (ground arith)
      ]
    ]

after_attempt-Retried :
    (s : Settings) (worker : String) (d : Draws) (claimed : QueueRow)
    (end : Repository × AttemptEnd) (events : List Event)
    → (after_attempt s worker d claimed end events).status ≡ queued
    → Retried s d claimed
        (latest_or (get_queue_job claimed.job.job_id end.0.queue) claimed)
        (after_attempt s worker d claimed end events)
unfolding after_attempt settle success_verdict
after_attempt-Retried s worker d claimed (repo, cancelled_before latest) events h = cc
after_attempt-Retried s worker d claimed (repo, completed tenant charge result) events h = cc
after_attempt-Retried s worker d claimed (repo, raised tenant charge e) events h =
    after_failure-Retried s worker d claimed tenant charge e repo events h

-- If a processed job ends queued again, then its row is stored as queued, without a lease and with the
-- attempts, the maximum, the type, the priority and the cancel request of the claimed row. Its next run is at the
-- time that the backoff gives for the attempts of the row that was stored when the work ended (or of
-- the claimed one, if it was gone); that row had fewer attempts than its maximum and no cancel request.
pub process_job_retries :
    (s : Settings) (dispatch : Dispatch) (worker : String) (d : Draws) (claimed : QueueRow)
    (repo : Repository)
    → (process_job s dispatch worker d claimed repo).status ≡ queued
    → let after = (try_attempt s dispatch claimed repo).0 in
      Retried s d claimed
        (latest_or (get_queue_job claimed.job.job_id after.queue) claimed)
        (process_job s dispatch worker d claimed repo)
unfolding process_job
process_job_retries s dispatch worker d claimed repo h =
    after_attempt-Retried s worker d claimed (try_attempt s dispatch claimed repo) _ h
