-- ===== src/Queue/Retry.antt =====
-- A job that `_process_job` put back, and the next claims.
use issue_to_pr_agent.Prelude.{◌≤◌, ◌≡◌, String, true, false, some, arith}
use issue_to_pr_agent.Domain.Queue.{queued}
use issue_to_pr_agent.Queue.Store.{QueueRow, QueueStore, get_queue_job}
use issue_to_pr_agent.Queue.Claim.{ClaimRequest, is_candidate, type_in}
use issue_to_pr_agent.Queue.Budget.{Settings, next_retry_at}
use issue_to_pr_agent.Queue.Process.{Dispatch, Draws, try_attempt, latest_or}
use issue_to_pr_agent.Queue.Finish.{Processed, process_job}
use issue_to_pr_agent.Queue.Outcome.{Retried, process_job_retries}
use issue_to_pr_agent.Repository.{Repository}

-- A stored job that a claim may take.
pub record Waits (id : String) (req : ClaimRequest) (store : QueueStore) : Type 0 where
  pub row : QueueRow
  pub stored : get_queue_job id store ≡ some row
  pub candidate : is_candidate req row ≡ true

Retried-Waits :
    (s : Settings) (d : Draws) (claimed latest : QueueRow) (result : Processed) (req : ClaimRequest)
    → Retried s d claimed latest result
    → claimed.job.cancel_requested ≡ false
    → type_in req.allowed_types claimed.job.job_type ≡ true
    → next_retry_at s latest.job.attempt_count d.retry_base ≤ req.now
    → Waits claimed.job.job_id req result.repository.queue
Retried-Waits s d claimed latest result req r unmarked taken due = record {
  row = r.row;
  stored = r.stored;
  candidate = ground (arith, r.waits, r.cancel_kept, r.type_kept, r.due, unmarked, taken, due);
}

-- A job that a worker puts back waits for the next claims: if it ends queued and was not marked as
-- cancelled when it was claimed, then it is stored as a candidate of each claim that takes its type
-- and comes when the backoff is over, or later. The backoff is that of the attempts of the row that
-- was stored when the work ended, or of the claimed one, if it was gone.
pub process_job-Waits :
    (s : Settings) (dispatch : Dispatch) (worker : String) (d : Draws) (claimed : QueueRow)
    (repo : Repository) (req : ClaimRequest)
    → (process_job s dispatch worker d claimed repo).status ≡ queued
    → claimed.job.cancel_requested ≡ false
    → type_in req.allowed_types claimed.job.job_type ≡ true
    → next_retry_at s
        (latest_or
          (get_queue_job claimed.job.job_id (try_attempt s dispatch claimed repo).0.queue)
          claimed).job.attempt_count
        d.retry_base
      ≤ req.now
    → Waits claimed.job.job_id req (process_job s dispatch worker d claimed repo).repository.queue
process_job-Waits s dispatch worker d claimed repo req h unmarked taken due =
    Retried-Waits s d claimed _ _ req (process_job_retries s dispatch worker d claimed repo h)
      unmarked taken due
