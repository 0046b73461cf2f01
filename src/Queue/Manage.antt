-- ===== src/Queue/Manage.antt =====
-- `cancel_job` and `resume_job` of `application/use_cases/manage_queue.py`.
use issue_to_pr_agent.Prelude.{
  ℕ, String, Bool, true, false, not, ◌&&◌, Option, none, some, [], ◌∷◌, leb, if◌then◌else◌, Result,
  ok, raise, raise_if, policy_error, value_error, ◌>>=◌, ◌>>◌, format,
}
use issue_to_pr_agent.Domain.Json.{null, bool, str, time, nat, opt_str, opt_time, put}
use issue_to_pr_agent.Domain.Queue.{
  QueueJobStatus, queued, succeeded, failed, cancelled, status_value, is_queued,
}
use issue_to_pr_agent.Domain.Tenant.{operate_queue}
use issue_to_pr_agent.Queue.Store.{QueueRow, get_queue_job, save_queue_job}
use issue_to_pr_agent.Queue.Create.{QueueJobResult}
use issue_to_pr_agent.Tenant.Access.{require_repo_permission}
use issue_to_pr_agent.Repository.{Repository}

unfoldable pub found_job : String → Option QueueRow → Result QueueRow
found_job id none = raise value_error (format ("Queue job not found: " ∷ id ∷ []))
found_job id (some row) = ok row

-- `_load_mutable_job`
unfoldable pub load_mutable_job : Repository → String → String → String → Result QueueRow
load_mutable_job repo id actor team = do
  row ← found_job id (get_queue_job id repo.queue)
  allowed ←
      require_repo_permission repo.tenancy row.job.repo_full_name (some actor) operate_queue
        (some team)
  ok row

-- `status in {SUCCEEDED, CANCELLED}`
abbrev pub is_final : QueueJobStatus → Bool
is_final succeeded = true
is_final cancelled = true
is_final _ = false

-- `updated` and `updated_payload`; only a queued job is cancelled at once.
unfoldable pub cancelled_row : ℕ → String → QueueRow → QueueRow
cancelled_row now actor r = record {
  job = record job {
    updated_at = now;
    status = status;
    summary = summary;
    cancel_requested = true;
  };
  payload = put "lease_expires_at" (opt_time job.lease_expires_at) (
      put "lease_token" (opt_str job.lease_token) (
        put "cancel_requested" (bool true) (
          put "summary" (str summary)
            (put "status" (str (status_value status)) (put "updated_at" (time now) r.payload)))));
}
  where
    open r use {job}

    status : QueueJobStatus
    status = if is_queued job.status then cancelled else job.status

    summary : String
    summary =
        if is_queued job.status
        then format (job.summary ∷ " (cancelled by " ∷ actor ∷ ")" ∷ [])
        else format (job.summary ∷ " (cancel requested by " ∷ actor ∷ ")" ∷ [])

abbrev pub job_result : QueueRow → QueueJobResult
job_result r = record {
  job_id = r.job.job_id;
  status = r.job.status;
  receipt_path = r.job.receipt_path;
}

abbrev pub saved : Repository → QueueRow → Repository
saved repo r = record repo { queue = save_queue_job r.job r.payload repo.queue }

unfoldable pub cancel_job :
    ℕ → String → String → String → Repository → Result (Repository × QueueJobResult)
cancel_job now id actor team repo = do
  row ← load_mutable_job repo id actor team
  raise_if (is_final row.job.status) policy_error
      (format ("Queue job " ∷ id ∷ " is already in a final state." ∷ []))
  ok (saved repo (cancelled_row now actor row), job_result (cancelled_row now actor row))

-- `status in {FAILED, CANCELLED}`
abbrev pub is_resumable : QueueJobStatus → Bool
is_resumable failed = true
is_resumable cancelled = true
is_resumable _ = false

unfoldable pub resumed_row : ℕ → Bool → QueueRow → QueueRow
resumed_row now reset r = record {
  job = record job {
    updated_at = now;
    status = queued;
    worker_id = none;
    attempt_count = attempt_count;
    budget_used = budget_used;
    next_run_at = now;
    lease_token = none;
    lease_expires_at = none;
    cancel_requested = false;
    error_message = none;
  };
  payload = put "lease_expires_at" null (
      put "lease_token" null (
        put "error_message" null (
          put "cancel_requested" (bool false) (
            put "next_run_at" (time now) (
              put "worker_id" null (
                put "budget_used" (nat budget_used) (
                  put "attempt_count" (nat attempt_count) (
                    put "status" (str (status_value queued))
                      (put "updated_at" (time now) r.payload)))))))));
}
  where
    open r use {job}

    attempt_count : ℕ
    attempt_count = if reset then 0 else job.attempt_count

    budget_used : ℕ
    budget_used = if reset then 0 else job.budget_used

unfoldable pub resume_job :
    ℕ → String → String → String → Bool → Repository → Result (Repository × QueueJobResult)
resume_job now id actor team reset repo = do
  row ← load_mutable_job repo id actor team
  raise_if (not (is_resumable row.job.status)) policy_error (
      format (
        "Queue job "
        ∷ id
        ∷ " is not resumable from status "
        ∷ status_value row.job.status
        ∷ "."
        ∷ []))
  raise_if (not reset && leb row.job.max_attempts row.job.attempt_count) policy_error
      "Queue job has exhausted its attempts. Use reset_attempts to resume it."
  ok (saved repo (resumed_row now reset row), job_result (resumed_row now reset row))
