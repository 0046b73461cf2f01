-- ===== src/Queue/RunExamples.antt =====
-- The theorems on the operations of the queue and on a worker's run, at concrete data.
use issue_to_pr_agent.Prelude.{◌≡◌, ◌≤◌, arith, refl, false, none, some, ok, strip}
use issue_to_pr_agent.Domain.Json.{get}
use issue_to_pr_agent.Domain.Queue.{queued, succeeded}
use issue_to_pr_agent.Queue.Store.{get_queue_job, save_queue_job, requeue_row, count_queue_jobs}
use issue_to_pr_agent.Queue.Claim.{ClaimRequest, is_candidate}
use issue_to_pr_agent.Queue.Budget.{
  ensure_can_enqueue, ensure_attempt_within_budget, estimate_units, next_retry_at,
  ensure_tenant_can_enqueue,
}
use issue_to_pr_agent.Queue.Create.{QueueJobResult, create_job}
use issue_to_pr_agent.Queue.Manage.{
  cancel_job, resume_job, cancelled_row, resumed_row, load_mutable_job, found_job, saved,
  job_result,
}
use issue_to_pr_agent.Queue.Enqueue.{enqueue, new_job}
use issue_to_pr_agent.Queue.Process.{try_attempt, latest_or}
use issue_to_pr_agent.Queue.Finish.{
  process_job, settle, success_verdict, failure_verdict, after_failure,
}
use issue_to_pr_agent.Queue.Worker.{process}
use issue_to_pr_agent.Queue.Preserve.{StoreValid, create-StoreValid}
use issue_to_pr_agent.Queue.Outcome.{Settled, Retried, process_job-Settled, process_job_retries}
use issue_to_pr_agent.Queue.Retry.{Waits, process_job-Waits}
use issue_to_pr_agent.Queue.Spending.{process_job_budget, WithinBudget}
use issue_to_pr_agent.Queue.Runs.{process-StoreValid}
use issue_to_pr_agent.Queue.Counts.{process_counts, CountsJobs}
use issue_to_pr_agent.Queue.Control.{
  Changed, CancelMarked, Resumed, cancel_job-Changed, resume_job-Changed, cancel-StoreValid,
  cancelled_running_job_stranded,
}
use issue_to_pr_agent.Queue.Admission.{HasRoom, Admitted, ensure_can_enqueue_iff, enqueue-Admitted}
use issue_to_pr_agent.Queue.Examples.{sample_store-StoreValid}
use issue_to_pr_agent.Tenant.Access.{require_repo_permission, resolve_tenant_for_repo}
use issue_to_pr_agent.Tenant.Store.{list_tenants}
use issue_to_pr_agent.Repository.{Repository}
use issue_to_pr_agent.Queue.Samples.{
  sample_settings, waiting_row, leased_row, sample_store, sample_request, sample_repository,
  sample_draft, sample_options, sample_draws, good_work, bad_work, sample_round, sample_worker,
}

process_job-Settled_example :
    Settled "job-2"
      (process_job sample_settings good_work "worker-b" sample_draws leased_row sample_repository)
process_job-Settled_example =
    process_job-Settled sample_settings good_work "worker-b" sample_draws leased_row
      sample_repository

sample_retry :
    (process_job sample_settings bad_work "worker-b" sample_draws leased_row
      sample_repository).status
    ≡ queued
unfolding process_job try_attempt require_repo_permission resolve_tenant_for_repo list_tenants
    get_queue_job ensure_attempt_within_budget estimate_units get strip after_failure settle
    failure_verdict
sample_retry = refl

process_job_retries_example :
    let after = (try_attempt sample_settings bad_work leased_row sample_repository).0 in
    Retried sample_settings sample_draws leased_row
      (latest_or (get_queue_job "job-2" after.queue) leased_row)
      (process_job sample_settings bad_work "worker-b" sample_draws leased_row sample_repository)
process_job_retries_example =
    process_job_retries sample_settings bad_work "worker-b" sample_draws leased_row
      sample_repository sample_retry

-- A claim after the backoff of half a minute.
abbrev later_request : ClaimRequest
later_request = record sample_request { now = 40000000 }

sample_due :
    let after = (try_attempt sample_settings bad_work leased_row sample_repository).0 in
    let latest = latest_or (get_queue_job "job-2" after.queue) leased_row in
    next_retry_at sample_settings latest.job.attempt_count sample_draws.retry_base
    ≤ later_request.now
unfolding try_attempt require_repo_permission resolve_tenant_for_repo list_tenants get_queue_job
    ensure_attempt_within_budget estimate_units get strip next_retry_at
sample_due = omega arith

process_job-Waits_example :
    Waits "job-2" later_request
      (process_job sample_settings bad_work "worker-b" sample_draws leased_row
        sample_repository).repository.queue
process_job-Waits_example =
    process_job-Waits sample_settings bad_work "worker-b" sample_draws leased_row sample_repository
      later_request sample_retry refl refl sample_due

sample_success :
    (process_job sample_settings good_work "worker-b" sample_draws leased_row
      sample_repository).status
    ≡ succeeded
unfolding process_job try_attempt require_repo_permission resolve_tenant_for_repo list_tenants
    get_queue_job ensure_attempt_within_budget estimate_units get strip settle success_verdict
sample_success = refl

process_job_budget_example :
    WithinBudget "job-2" 30
      (process_job sample_settings good_work "worker-b" sample_draws leased_row sample_repository)
process_job_budget_example =
    process_job_budget sample_settings good_work "worker-b" sample_draws leased_row
      sample_repository sample_success

process-StoreValid_example :
    StoreValid
      (process 3 sample_settings good_work sample_worker 90 140 sample_round
        sample_repository).repository.queue
process-StoreValid_example =
    process-StoreValid 3 sample_settings good_work sample_worker 90 140 sample_round
      sample_repository (λ job parameters tenant repo v. v) sample_store-StoreValid

process_counts_example :
    CountsJobs 3
      (process 3 sample_settings good_work sample_worker 90 140 sample_round sample_repository)
process_counts_example =
    process_counts 3 sample_settings good_work sample_worker 90 140 sample_round sample_repository

create-StoreValid_example :
    StoreValid
      (create_job sample_settings 150 "job-3"
        (new_job sample_draft sample_options none 3 20)
        sample_store).0
create-StoreValid_example =
    create-StoreValid sample_settings 150 "job-3" (new_job sample_draft sample_options none 3 20)
      sample_store sample_store-StoreValid

-- The running job is cancelled, and the waiting one.
abbrev marked_repository : Repository
marked_repository = saved sample_repository (cancelled_row 200 "ana" leased_row)

abbrev cancelled_repository : Repository
cancelled_repository = saved sample_repository (cancelled_row 200 "ana" waiting_row)

cancels_running :
    cancel_job 200 "job-2" "ana" "web" sample_repository
    ≡ ok (marked_repository, job_result (cancelled_row 200 "ana" leased_row))
unfolding cancel_job load_mutable_job found_job get_queue_job require_repo_permission
    resolve_tenant_for_repo list_tenants
cancels_running = refl

cancel_job-Changed_example : Changed CancelMarked "job-2" sample_store marked_repository.queue
cancel_job-Changed_example =
    cancel_job-Changed 200 "job-2" "ana" "web" sample_repository marked_repository _ cancels_running

cancels_waiting :
    cancel_job 200 "job-1" "ana" "web" sample_repository
    ≡ ok (cancelled_repository, job_result (cancelled_row 200 "ana" waiting_row))
unfolding cancel_job load_mutable_job found_job get_queue_job require_repo_permission
    resolve_tenant_for_repo list_tenants
cancels_waiting = refl

cancel-StoreValid_example : StoreValid cancelled_repository.queue
cancel-StoreValid_example =
    cancel-StoreValid 200 "job-1" "ana" "web" sample_repository cancelled_repository _
      sample_store-StoreValid cancels_waiting

abbrev resumed_repository : Repository
resumed_repository =
    saved cancelled_repository (resumed_row 300 false (cancelled_row 200 "ana" waiting_row))

resumes_cancelled :
    resume_job 300 "job-1" "ana" "web" false cancelled_repository
    ≡ ok (
      resumed_repository,
      job_result (resumed_row 300 false (cancelled_row 200 "ana" waiting_row)),
    )
unfolding resume_job load_mutable_job found_job get_queue_job save_queue_job cancelled_row
    require_repo_permission resolve_tenant_for_repo list_tenants
resumes_cancelled = refl

resume_job-Changed_example :
    Changed (Resumed 300 false) "job-1" cancelled_repository.queue resumed_repository.queue
resume_job-Changed_example =
    resume_job-Changed 300 "job-1" "ana" "web" false cancelled_repository resumed_repository _
      resumes_cancelled

cancelled_running_job_stranded_example :
    let left = requeue_row 6000 (cancelled_row 200 "ana" leased_row) in
    (left.job.status ≡ queued) × (is_candidate sample_request left ≡ false)
cancelled_running_job_stranded_example =
    cancelled_running_job_stranded 200 6000 "ana" leased_row sample_request refl refl

ensure_can_enqueue_iff_example :
    (ensure_can_enqueue sample_settings sample_store (some "acme") 20 ≡ ok tt
      → HasRoom sample_settings sample_store (some "acme") 20)
    × (HasRoom sample_settings sample_store (some "acme") 20
        → ensure_can_enqueue sample_settings sample_store (some "acme") 20 ≡ ok tt)
ensure_can_enqueue_iff_example =
    ensure_can_enqueue_iff sample_settings sample_store (some "acme") 20

abbrev enqueued : Repository × QueueJobResult
enqueued = (
  record sample_repository {
    queue =
        (create_job sample_settings 150 "job-3" (new_job sample_draft sample_options none 3 20)
          sample_store).0;
  },
  (create_job sample_settings 150 "job-3" (new_job sample_draft sample_options none 3 20)
      sample_store).1,
)

enqueues :
    enqueue sample_settings 150 "job-3" sample_draft sample_options sample_repository ≡ ok enqueued
unfolding enqueue require_repo_permission resolve_tenant_for_repo list_tenants ensure_can_enqueue
    ensure_tenant_can_enqueue count_queue_jobs create_job
enqueues = refl

enqueue-Admitted_example :
    Admitted sample_settings 150 "job-3" sample_draft sample_options enqueued.0.queue enqueued.1
enqueue-Admitted_example =
    enqueue-Admitted sample_settings 150 "job-3" sample_draft sample_options sample_repository
      enqueued.0 enqueued.1 enqueues
