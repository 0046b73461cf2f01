-- ===== src/Queue/Trace.antt =====
-- The events of `_process_job` in `application/use_cases/process_queue.py`, against `count_status`.
use issue_to_pr_agent.Prelude.{
  ℕ, suc, ◌+◌, ◌≤◌, ◌≡◌, ◌≢◌, refl, String, Bool, true, false, not, ◌&&◌, ◌==◌, Option, none, some,
  List, [], ◌∷◌, ◌++◌, arith, Bool-cases, inl, inr, count, count-append, Error,
}
use issue_to_pr_agent.Domain.Queue.{
  QueueJobType, plan, verify, deliver, QueueJobStatus, queued, succeeded, failed, cancelled,
  QueueJobRecord, status_value,
}
use issue_to_pr_agent.Queue.Store.{QueueRow, get_queue_job}
use issue_to_pr_agent.Queue.Budget.{Settings}
use issue_to_pr_agent.Queue.Process.{
  Dispatch, Draws, AttemptEnd, cancelled_before, completed, raised, try_attempt, latest_or,
}
use issue_to_pr_agent.Queue.Finish.{
  Event, traced, Verdict, Processed, delivery_notification, failure_alert, failure_verdict,
  success_verdict, settle, after_failure, after_attempt, process_job,
}
use issue_to_pr_agent.Queue.Worker.{Counters, count_status, no_jobs}
use issue_to_pr_agent.Tenant.Store.{TenantRow}
use issue_to_pr_agent.Repository.{Repository}

-- The trace that a job emits when it begins, and those that it emits when it ends.
abbrev pub is_start : Event → Bool
is_start (traced name status id) = name == "queue.job.started"
is_start _ = false

abbrev pub is_success : Event → Bool
is_success (traced name status id) = name == "queue.job.completed" && status == "succeeded"
is_success _ = false

abbrev pub is_failure : Event → Bool
is_failure (traced name status id) = name == "queue.job.completed" && not (status == "succeeded")
is_failure _ = false

-- The counters count the jobs of the trace.
pub record Counted (c : Counters) (events : List Event) : Type 0 where
  pub begun : c.processed_jobs ≡ count is_start events
  pub successes : c.succeeded_jobs ≡ count is_success events
  pub failures : c.failed_jobs ≡ count is_failure events
  pub total : c.processed_jobs ≡ c.succeeded_jobs + c.failed_jobs + c.cancelled_jobs

-- One more job, with its events, on counters that fit.
pub count_status-Counted :
    (status : QueueJobStatus) (c : Counters) (before events : List Event)
    → Counted c before
    → Counted (count_status status no_jobs) events
    → Counted (count_status status c) (before ++ events)
unfolding count_status
count_status-Counted status c before events v w = record {
  begun = ground (arith, count-append is_start before events, v.begun, w.begun);
  successes = ground (arith, count-append is_success before events, v.successes, w.successes);
  failures = ground (arith, count-append is_failure before events, v.failures, w.failures);
  total = ground (arith, v.total);
}

pub count_status-capped :
    (status : QueueJobStatus) (c : Counters) (n : ℕ)
    → c.processed_jobs ≤ n
    → (count_status status c).processed_jobs ≤ suc n
unfolding count_status
count_status-capped status c n h = ground arith

-- Events that count nothing.
record Quiet (events : List Event) : Type 0 where
  pub starts : count is_start events ≡ 0
  pub successes : count is_success events ≡ 0
  pub failures : count is_failure events ≡ 0

nothing-Quiet : Quiet []
nothing-Quiet = record { starts = refl; successes = refl; failures = refl }

delivery_notification-Quiet :
    (tenant : Option TenantRow) (type : QueueJobType) (success : Bool)
    → Quiet (delivery_notification tenant type success)
unfolding delivery_notification
delivery_notification-Quiet none type success = nothing-Quiet
delivery_notification-Quiet (some row) deliver success = record {
  starts = refl;
  successes = refl;
  failures = refl;
}
delivery_notification-Quiet (some row) plan success = nothing-Quiet
delivery_notification-Quiet (some row) verify success = nothing-Quiet

failure_alert-Quiet :
    (status : QueueJobStatus) (job : QueueJobRecord) → Quiet (failure_alert status job)
failure_alert-Quiet failed job = record { starts = refl; successes = refl; failures = refl }
failure_alert-Quiet succeeded job = nothing-Quiet
failure_alert-Quiet queued job = nothing-Quiet
failure_alert-Quiet QueueJobStatus.running job = nothing-Quiet
failure_alert-Quiet cancelled job = nothing-Quiet

-- One job's events, by the status with which it ends.
abbrev ending : List Event → QueueJobStatus → String → List Event → List Event
ending notes status id alerts =
    (traced "queue.job.started" "started" id ∷ [] ++ notes)
    ++ (traced "queue.job.completed" (status_value status) id ∷ alerts)

completed-successes :
    (status : QueueJobStatus) (id : String) (alerts : List Event)
    → Quiet alerts
    → count is_success (traced "queue.job.completed" (status_value status) id ∷ alerts)
      ≡ (count_status status no_jobs).succeeded_jobs
unfolding count_status
completed-successes succeeded id alerts a = rw a.successes
completed-successes queued id alerts a = a.successes
completed-successes QueueJobStatus.running id alerts a = a.successes
completed-successes failed id alerts a = a.successes
completed-successes cancelled id alerts a = a.successes

completed-failures :
    (status : QueueJobStatus) (id : String) (alerts : List Event)
    → Quiet alerts
    → status ≢ cancelled
    → count is_failure (traced "queue.job.completed" (status_value status) id ∷ alerts)
      ≡ (count_status status no_jobs).failed_jobs
unfolding count_status
completed-failures succeeded id alerts a h = a.failures
completed-failures queued id alerts a h = rw a.failures
completed-failures QueueJobStatus.running id alerts a h = rw a.failures
completed-failures failed id alerts a h = rw a.failures
completed-failures cancelled id alerts a h = absurd (h refl)

ending-Counted :
    (notes alerts : List Event) (status : QueueJobStatus) (id : String)
    → Quiet notes
    → Quiet alerts
    → status ≢ cancelled
    → Counted (count_status status no_jobs) (ending notes status id alerts)
unfolding count_status
ending-Counted notes alerts status id n a h = record {
  begun = ground (
    arith,
    count-append is_start notes (traced "queue.job.completed" (status_value status) id ∷ alerts),
    n.starts,
    a.starts,
  );
  successes =
      grind
        (arith, count-append is_success notes, n.successes, completed-successes status id alerts a);
  failures =
      grind
        (arith, count-append is_failure notes, n.failures, completed-failures status id alerts a h);
  total = ground arith;
}

-- The counters of one job fit the events that it emits.
abbrev pub CountsOne : Processed → Type 0
CountsOne p = Counted (count_status p.status no_jobs) p.events

settle-CountsOne :
    (worker : String) (d : Draws) (claimed : QueueRow) (v : Verdict) (tenant : Option TenantRow)
    (success : Bool) (repo : Repository)
    → v.status ≢ cancelled
    → CountsOne (
        settle worker d claimed v
          (traced "queue.job.started" "started" claimed.job.job_id ∷ []
            ++ delivery_notification tenant claimed.job.job_type success)
          repo)
unfolding settle
settle-CountsOne worker d claimed v tenant success repo h =
    ending-Counted (delivery_notification tenant claimed.job.job_type success) _ v.status
      claimed.job.job_id (delivery_notification-Quiet tenant claimed.job.job_type success)
      (failure_alert-Quiet v.status _) h

failure_goes_on :
    (s : Settings) (now : ℕ) (row : QueueRow) (charge : ℕ) (e : Error)
    → (failure_verdict s now row.job charge e).status ≢ cancelled
unfolding failure_verdict
failure_goes_on s now row charge e = ground arith

cancelled-Counted :
    (id : String)
    → Counted (count_status cancelled no_jobs) (traced "queue.job.started" "started" id ∷ [])
unfolding count_status
cancelled-Counted id = record { begun = refl; successes = refl; failures = refl; total = refl }

after_attempt-CountsOne :
    (s : Settings) (worker : String) (d : Draws) (claimed : QueueRow)
    (end : Repository × AttemptEnd)
    → CountsOne (
        after_attempt s worker d claimed end
          (traced "queue.job.started" "started" claimed.job.job_id ∷ []))
unfolding after_attempt after_failure success_verdict
after_attempt-CountsOne s worker d claimed (repo, cancelled_before latest) =
    cancelled-Counted claimed.job.job_id
after_attempt-CountsOne s worker d claimed (repo, completed tenant charge result) =
    settle-CountsOne worker d claimed (success_verdict claimed.job charge result) tenant true repo
      cc
after_attempt-CountsOne s worker d claimed (repo, raised tenant charge e) =
    let latest = latest_or (get_queue_job claimed.job.job_id repo.queue) claimed in
    elim (Bool-cases latest.job.cancel_requested) [
      | inl wanted ↦ rw wanted (cancelled-Counted claimed.job.job_id)
      | inr kept ↦ rw kept (
          settle-CountsOne worker d claimed _ tenant false repo
            (failure_goes_on s d.retry_base latest charge e))
    ]

pub process_job-CountsOne :
    (s : Settings) (dispatch : Dispatch) (worker : String) (d : Draws) (claimed : QueueRow)
    (repo : Repository)
    → CountsOne (process_job s dispatch worker d claimed repo)
unfolding process_job
process_job-CountsOne s dispatch worker d claimed repo =
    after_attempt-CountsOne s worker d claimed (try_attempt s dispatch claimed repo)
