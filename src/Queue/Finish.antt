-- ===== src/Queue/Finish.antt =====
-- The end of `_process_job` of `application/use_cases/process_queue.py`: what each outcome of the
-- `try` block writes, and the events that it emits.
use issue_to_pr_agent.Prelude.{
  ℕ, ◌+◌, String, Bool, true, false, Option, none, some, List, [], ◌∷◌, ◌++◌, ltb, if◌then◌else◌,
  format, show, is_empty, Error,
}
use issue_to_pr_agent.Domain.Json.{Dict, null, str, time, nat, opt_str, obj, empty, entry, put}
use issue_to_pr_agent.Domain.Queue.{
  QueueJobType, deliver, QueueJobStatus, queued, succeeded, failed, cancelled, QueueJobRecord,
  QueueAttemptStatus, status_value,
}
use issue_to_pr_agent.Queue.Store.{QueueRow, QueueStore, get_queue_job}
use issue_to_pr_agent.Queue.Budget.{Settings, next_retry_at}
use issue_to_pr_agent.Queue.Process.{
  DispatchResult, Dispatch, Draws, AttemptEnd, cancelled_before, completed, raised, try_attempt,
  latest_or, attempt_path, persist_job, persist_attempt, cancelled_after,
}
use issue_to_pr_agent.Tenant.Store.{TenantRow}
use issue_to_pr_agent.Repository.{Repository}

-- Calls of the trace recorder, the notification outbox and the alert manager, all three given.
pub data Event : Type 0 where
  traced : String → String → String → Event
  notified : String → Bool → Event
  alerted : Option String → String → Event

-- `_emit_delivery_notification`
unfoldable pub delivery_notification : Option TenantRow → QueueJobType → Bool → List Event
delivery_notification (some row) deliver success = notified row.tenant.tenant_id success ∷ []
delivery_notification _ _ success = []

pub record Processed : Type 0 where
  pub repository : Repository
  pub status : QueueJobStatus
  pub events : List Event

abbrev pub on_queue : (QueueStore → QueueStore) → Repository → Repository
on_queue f repo = record repo { queue = f repo.queue }

-- `_finalize_cancelled`, called with an attempt.
unfoldable pub finalize_cancelled :
    String → Draws → QueueRow → QueueRow → String → Repository → Repository
finalize_cancelled worker d claimed latest summary repo =
    let row = cancelled_after worker d.finished_at summary latest in
    on_queue
      (λ store.
        persist_attempt worker d (attempt_path claimed.job) QueueAttemptStatus.cancelled row
          (persist_job row store))
      repo

-- The values that the `try` and `except` blocks leave in their variables.
pub record Verdict : Type 0 where
  pub status : QueueJobStatus
  pub budget_used : ℕ
  pub next_run_at : ℕ
  pub error_message : Option String
  pub result : DispatchResult

-- `a or b`
abbrev pub text_or : Option String → Option String → Option String
text_or none other = other
text_or (some s) other = if is_empty s then other else some s

abbrev pub put_given : String → Option String → Dict → Dict
put_given key none d = d
put_given key (some s) d = put key (str s) d

abbrev pub put_result : Dict → Dict → Dict
put_result empty d = d
put_result (entry k v rest) d = put "result" (obj (entry k v rest)) d

abbrev pub keeps_cancel : QueueJobStatus → Bool → Bool
keeps_cancel succeeded requested = false
keeps_cancel _ requested = requested

-- `updated_record` and `finished_payload`, made from the row as it was claimed.
unfoldable pub finished_row : String → ℕ → Verdict → QueueRow → QueueRow
finished_row worker now v r = record {
  job = record job {
    updated_at = now;
    status = v.status;
    worker_id = some worker;
    budget_used = v.budget_used;
    next_run_at = v.next_run_at;
    summary = v.result.summary;
    linked_run_id = text_or v.result.linked_run_id job.linked_run_id;
    linked_execution_id = text_or v.result.linked_execution_id job.linked_execution_id;
    linked_verification_id = text_or v.result.linked_verification_id job.linked_verification_id;
    lease_token = none;
    lease_expires_at = none;
    cancel_requested = keeps_cancel v.status job.cancel_requested;
    error_message = v.error_message;
  };
  payload =
      put "lease_expires_at" null (put "lease_token" null (put_result v.result.payload linked));
}
  where
    open r use {job, payload}

    updated : Dict
    updated = put "error_message" (opt_str v.error_message) (
        put "next_run_at" (time v.next_run_at) (
          put "budget_used" (nat v.budget_used) (
            put "worker_id" (str worker) (
              put "summary" (str v.result.summary) (
                put "status" (str (status_value v.status))
                  (put "updated_at" (time now) payload))))))

    linked : Dict
    linked = put_given "linked_verification_id" v.result.linked_verification_id (
        put_given "linked_execution_id" v.result.linked_execution_id
          (put_given "linked_run_id" v.result.linked_run_id updated))

abbrev pub attempt_status : QueueJobStatus → QueueAttemptStatus
attempt_status succeeded = QueueAttemptStatus.succeeded
attempt_status _ = QueueAttemptStatus.failed

abbrev pub failure_alert : QueueJobStatus → QueueJobRecord → List Event
failure_alert failed job = alerted job.tenant_id job.job_id ∷ []
failure_alert _ job = []

unfoldable pub settle : String → Draws → QueueRow → Verdict → List Event → Repository → Processed
settle worker d claimed v events repo =
    let row = finished_row worker d.finished_at v claimed in
    record {
      repository =
          on_queue
            (λ store.
              persist_attempt worker d (attempt_path claimed.job) (attempt_status v.status) row
                (persist_job row store))
            repo;
      status = v.status;
      events =
          events
          ++ (traced "queue.job.completed" (status_value v.status) claimed.job.job_id
              ∷ failure_alert v.status row.job);
    }

unfoldable pub success_verdict : QueueJobRecord → ℕ → DispatchResult → Verdict
success_verdict job charge result = record {
  status = succeeded;
  budget_used = job.budget_used + charge;
  next_run_at = job.next_run_at;
  error_message = none;
  result = result;
}

-- The `except` block; `latest` is the row as it is stored now, or the claimed one if it is gone.
unfoldable pub failure_verdict : Settings → ℕ → QueueJobRecord → ℕ → Error → Verdict
failure_verdict s now latest charge e =
    let should_retry = ltb latest.attempt_count latest.max_attempts in
    record {
      status = if should_retry then queued else failed;
      budget_used = latest.budget_used + charge;
      next_run_at =
          if should_retry then next_retry_at s latest.attempt_count now else latest.next_run_at;
      error_message = some e.message;
      result = record {
        summary =
            if should_retry
            then format ("Retry scheduled after attempt " ∷ show latest.attempt_count ∷ "." ∷ [])
            else format
                ("Queue job failed after " ∷ show latest.attempt_count ∷ " attempt(s)." ∷ []);
        linked_run_id = none;
        linked_execution_id = none;
        linked_verification_id = none;
        payload = entry "error_message" (str e.message) empty;
      };
    }

abbrev pub cancelled_result : Repository → List Event → Processed
cancelled_result repo events = record { repository = repo; status = cancelled; events = events }

unfoldable pub after_failure :
    Settings
    → String
    → Draws
    → QueueRow
    → Option TenantRow
    → ℕ
    → Error
    → Repository
    → List Event
    → Processed
after_failure s worker d claimed tenant charge e repo events =
    let stored = get_queue_job claimed.job.job_id repo.queue in
    let latest = latest_or stored claimed in
    if latest.job.cancel_requested
    then cancelled_result
        (finalize_cancelled worker d claimed latest
          (format ("Queue job cancelled after failure: " ∷ e.message ∷ [])) repo)
        events
    else settle worker d claimed (failure_verdict s d.retry_base latest.job charge e)
        (events ++ delivery_notification tenant claimed.job.job_type false) repo

unfoldable pub after_attempt :
    Settings → String → Draws → QueueRow → Repository × AttemptEnd → List Event → Processed
after_attempt s worker d claimed (repo, cancelled_before latest) events =
    cancelled_result
      (finalize_cancelled worker d claimed latest "Queue job was cancelled before execution began."
        repo)
      events
after_attempt s worker d claimed (repo, completed tenant charge result) events =
    settle worker d claimed (success_verdict claimed.job charge result)
      (events ++ delivery_notification tenant claimed.job.job_type true) repo
after_attempt s worker d claimed (repo, raised tenant charge e) events =
    after_failure s worker d claimed tenant charge e repo events

-- `_process_job`
unfoldable pub process_job :
    Settings → Dispatch → String → Draws → QueueRow → Repository → Processed
unfolding after_attempt
process_job s dispatch worker d claimed repo =
    after_attempt s worker d claimed (try_attempt s dispatch claimed repo)
      (traced "queue.job.started" "started" claimed.job.job_id ∷ [])
