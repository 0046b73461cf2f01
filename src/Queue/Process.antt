-- ===== src/Queue/Process.antt =====
-- `_process_job` and `_finalize_cancelled` of `application/use_cases/process_queue.py`. The work
-- itself, `_dispatch_job`, is an argument: it plans, verifies or delivers, and it may leave any
-- repository behind, since other processes write to the same tables while it runs.
use issue_to_pr_agent.Prelude.{
  ℕ, String, Bool, true, false, Option, none, some, [], ◌∷◌, ◌++◌, leb, if◌then◌else◌, format, show,
  strip, Result, ok, err, Error,
}
use issue_to_pr_agent.Domain.Json.{
  Json, Dict, null, bool, str, time, nat, opt_str, obj, empty, entry, get, put, dict_value,
}
use issue_to_pr_agent.Domain.Queue.{
  FilePath, QueueJobType, deliver, cancelled, QueueJobRecord, QueueAttemptStatus, status_value,
}
use issue_to_pr_agent.Domain.Tenant.{PlatformPermission, operate_queue}
use issue_to_pr_agent.Queue.Store.{
  QueueRow, QueueStore, get_queue_job, save_queue_job, save_queue_attempt, write_json,
}
use issue_to_pr_agent.Queue.Budget.{Settings, ensure_attempt_within_budget}
use issue_to_pr_agent.Tenant.Store.{TenantRow}
use issue_to_pr_agent.Tenant.Access.{require_repo_permission}
use issue_to_pr_agent.Repository.{Repository}

pub record DispatchResult : Type 0 where
  pub summary : String
  pub linked_run_id : Option String
  pub linked_execution_id : Option String
  pub linked_verification_id : Option String
  pub payload : Dict

abbrev pub Dispatch : Type 0
Dispatch =
    QueueJobRecord → Dict → Option TenantRow → Repository → Repository × Result DispatchResult

-- What `datetime.now` and `uuid4` give in one call.
pub record Draws : Type 0 where
  pub started_at : ℕ
  pub retry_base : ℕ
  pub finished_at : ℕ
  pub attempt_id : String

-- How the `try` block ends: by the early return, normally, or by an exception. The tenant and the
-- charge are what its variables hold by then.
pub data AttemptEnd : Type 0 where
  cancelled_before : QueueRow → AttemptEnd
  completed : Option TenantRow → ℕ → DispatchResult → AttemptEnd
  raised : Option TenantRow → ℕ → Error → AttemptEnd

abbrev string_value : Option Json → String
string_value (some (str s)) = strip s
string_value _ = ""

abbrev pub parameters_of : QueueRow → Dict
parameters_of row = dict_value (get "parameters" row.payload)

-- `required_permission`
abbrev pub needs : QueueJobType → PlatformPermission
needs deliver = PlatformPermission.deliver
needs _ = operate_queue

abbrev pub wants_cancel : Option QueueRow → Bool
wants_cancel none = false
wants_cancel (some row) = row.job.cancel_requested

abbrev pub latest_or : Option QueueRow → QueueRow → QueueRow
latest_or none row = row
latest_or (some latest) row = latest

unfoldable pub dispatched :
    Option TenantRow → ℕ → Repository × Result DispatchResult → Repository × AttemptEnd
dispatched tenant charge (repo, ok result) = (repo, completed tenant charge result)
dispatched tenant charge (repo, err e) = (repo, raised tenant charge e)

unfoldable pub charged :
    Dispatch → QueueRow → Option TenantRow → Result ℕ → Repository → Repository × AttemptEnd
unfolding dispatched
charged dispatch row tenant (err e) repo = (repo, raised tenant 0 e)
charged dispatch row tenant (ok charge) repo =
    dispatched tenant charge (dispatch row.job (parameters_of row) tenant repo)

unfoldable pub permitted :
    Settings
    → Dispatch
    → QueueRow
    → Result (Option TenantRow)
    → Repository
    → Repository × AttemptEnd
unfolding charged
permitted s dispatch row (err e) repo = (repo, raised none 0 e)
permitted s dispatch row (ok tenant) repo =
    let latest = get_queue_job row.job.job_id repo.queue in
    if wants_cancel latest
    then (repo, cancelled_before (latest_or latest row))
    else charged dispatch row tenant
        (ensure_attempt_within_budget s row.job.budget_units row.job.budget_used row.job.job_type
          (some (string_value (get "provider" (parameters_of row)))))
        repo

-- The `try` block.
unfoldable pub try_attempt : Settings → Dispatch → QueueRow → Repository → Repository × AttemptEnd
unfolding permitted
try_attempt s dispatch row repo =
    permitted s dispatch row
      (require_repo_permission repo.tenancy row.job.repo_full_name row.job.requested_by
        (needs row.job.job_type) (some (string_value (get "team" (parameters_of row)))))
      repo

-- `path.parent`
abbrev pub parent : FilePath → FilePath
parent [] = []
parent (part ∷ []) = []
parent (part ∷ next ∷ rest) = part ∷ parent (next ∷ rest)

-- `f"{n:02d}"`
abbrev pub two_digits : ℕ → String
two_digits n = if leb n 9 then format ("0" ∷ show n ∷ []) else show n

abbrev pub attempt_path : QueueJobRecord → FilePath
attempt_path job =
    parent job.receipt_path
    ++ (job.job_id ∷ format ("attempt-" ∷ two_digits job.attempt_count ∷ ".json" ∷ []) ∷ [])

abbrev attempt_value : QueueAttemptStatus → String
attempt_value QueueAttemptStatus.started = "started"
attempt_value QueueAttemptStatus.succeeded = "succeeded"
attempt_value QueueAttemptStatus.failed = "failed"
attempt_value QueueAttemptStatus.cancelled = "cancelled"

-- `_persist_job`
unfoldable pub persist_job : QueueRow → QueueStore → QueueStore
persist_job row store =
    save_queue_job row.job row.payload (write_json row.job.receipt_path row.payload store)

-- `_persist_attempt`
unfoldable pub persist_attempt :
    String → Draws → FilePath → QueueAttemptStatus → QueueRow → QueueStore → QueueStore
persist_attempt worker d path status row store =
    save_queue_attempt
      (record {
        attempt_id = d.attempt_id;
        job_id = row.job.job_id;
        attempt_index = row.job.attempt_count;
        created_at = d.started_at;
        finished_at = some d.finished_at;
        worker_id = worker;
        status = status;
        summary = row.job.summary;
        payload_path = path;
        error_message = row.job.error_message;
      })
      payload (write_json path payload store)
  where
    payload : Dict
    payload = entry "attempt_id" (str d.attempt_id) (
        entry "job_id" (str row.job.job_id) (
          entry "attempt_index" (nat row.job.attempt_count) (
            entry "created_at" (time d.started_at) (
              entry "finished_at" (time d.finished_at) (
                entry "worker_id" (str worker) (
                  entry "status" (str (attempt_value status)) (
                    entry "summary" (str row.job.summary) (
                      entry "error_message" (opt_str row.job.error_message) (
                        entry "job_status" (str (status_value row.job.status))
                          (entry "job_payload" (obj row.payload) empty))))))))))

-- `updated_record` and `payload` of `_finalize_cancelled`.
unfoldable pub cancelled_after : String → ℕ → String → QueueRow → QueueRow
cancelled_after worker now summary r = record {
  job = record job {
    updated_at = now;
    status = cancelled;
    worker_id = some worker;
    summary = summary;
    lease_token = none;
    lease_expires_at = none;
    cancel_requested = true;
    error_message = none;
  };
  payload = put "lease_expires_at" null (
      put "lease_token" null (
        put "error_message" null (
          put "cancel_requested" (bool true) (
            put "summary" (str summary) (
              put "status" (str (status_value cancelled))
                (put "updated_at" (time now) r.payload))))));
}
  where
    open r use {job}
