-- ===== src/Queue/Worker.antt =====
-- `process` and `_emit_heartbeat` of `application/use_cases/process_queue.py`: a worker's run. What
-- the clock, `uuid4` and the shutdown flag give in round `i` are arguments.
use issue_to_pr_agent.Prelude.{
  if◌then◌else◌, ℕ, zero, suc, String, Bool, Option, none, some, List, [], ◌∷◌, ◌++◌, map, filter,
  has_text, strip, format, show,
}
use issue_to_pr_agent.Domain.Json.{Dict, str, time, nat, opt_str, arr, strs, empty, entry}
use issue_to_pr_agent.Domain.Queue.{
  FilePath, QueueJobType, QueueJobStatus, succeeded, cancelled, WorkerStatus, idle, stopped,
  WorkerHeartbeatRecord, type_value,
}
use issue_to_pr_agent.Queue.Store.{
  QueueRow, requeue_expired_queue_jobs, save_worker_heartbeat, write_json,
}
use issue_to_pr_agent.Queue.Claim.{ClaimRequest, claim_next_queue_job}
use issue_to_pr_agent.Queue.Budget.{Settings}
use issue_to_pr_agent.Queue.Create.{path_text, sorted_set}
use issue_to_pr_agent.Queue.Process.{Dispatch, Draws}
use issue_to_pr_agent.Queue.Finish.{Event, traced, process_job}
use issue_to_pr_agent.Repository.{Repository}

pub record Counters : Type 0 where
  pub processed_jobs : ℕ
  pub succeeded_jobs : ℕ
  pub failed_jobs : ℕ
  pub cancelled_jobs : ℕ

-- One round's draws.
pub record Round : Type 0 where
  pub shutdown_requested : Bool
  pub now : ℕ
  pub lease_token : String
  pub heartbeat_at : ℕ
  pub draws : Draws

pub record WorkerArguments : Type 0 where
  pub worker_id : String
  pub allowed_types : List QueueJobType
  pub worker_tags : List String

abbrev worker_status_value : WorkerStatus → String
worker_status_value idle = "idle"
worker_status_value WorkerStatus.running = "running"
worker_status_value stopped = "stopped"

-- `_emit_heartbeat`. The file's name is the time; it is given as its number of microseconds.
unfoldable pub emit_heartbeat :
    Settings
    → WorkerArguments
    → ℕ
    → WorkerStatus
    → Option String
    → String
    → Counters
    → Option String
    → Repository
    → Repository
emit_heartbeat s w at status job_id summary c lease repo = record repo {
  queue = save_worker_heartbeat heartbeat payload (write_json path payload repo.queue);
}
  where
    path : FilePath
    path = s.metrics_dir ++ ("workers" ∷ w.worker_id ∷ format (show at ∷ ".json" ∷ []) ∷ [])

    heartbeat : WorkerHeartbeatRecord
    heartbeat = record {
      worker_id = w.worker_id;
      recorded_at = at;
      status = status;
      current_job_id = job_id;
      summary = summary;
      processed_jobs = c.processed_jobs;
      succeeded_jobs = c.succeeded_jobs;
      failed_jobs = c.failed_jobs;
      cancelled_jobs = c.cancelled_jobs;
      payload_path = path;
      advertised_worker_tags = w.worker_tags;
      active_lease_token = lease;
      queue_capacity = s.queue_max_running_jobs_per_worker;
    }

    payload : Dict
    payload = entry "worker_id" (str w.worker_id) (
        entry "recorded_at" (time at) (
          entry "status" (str (worker_status_value status)) (
            entry "current_job_id" (opt_str job_id) (
              entry "summary" (str summary) (
                entry "processed_jobs" (nat c.processed_jobs) (
                  entry "succeeded_jobs" (nat c.succeeded_jobs) (
                    entry "failed_jobs" (nat c.failed_jobs) (
                      entry "cancelled_jobs" (nat c.cancelled_jobs) (
                        entry "advertised_worker_tags" (arr (strs w.worker_tags)) (
                          entry "active_lease_token" (opt_str lease) (
                            entry "queue_capacity" (nat s.queue_max_running_jobs_per_worker)
                              (entry "payload_path" (str (path_text path)) empty))))))))))))

unfoldable pub count_status : QueueJobStatus → Counters → Counters
count_status succeeded c = record c {
  processed_jobs = suc c.processed_jobs;
  succeeded_jobs = suc c.succeeded_jobs;
}
count_status cancelled c = record c {
  processed_jobs = suc c.processed_jobs;
  cancelled_jobs = suc c.cancelled_jobs;
}
count_status _ c = record c {
  processed_jobs = suc c.processed_jobs;
  failed_jobs = suc c.failed_jobs;
}

pub record WorkerState : Type 0 where
  pub repository : Repository
  pub counters : Counters
  pub events : List Event

abbrev pub claim_request : Settings → WorkerArguments → Round → ClaimRequest
claim_request s w r = record {
  worker_id = w.worker_id;
  now = r.now;
  lease_token = r.lease_token;
  allowed_types = w.allowed_types;
  worker_tags = w.worker_tags;
  lease_seconds = s.queue_lease_seconds;
  max_running_jobs_per_worker = s.queue_max_running_jobs_per_worker;
  max_running_jobs_per_tenant = s.queue_max_running_jobs_per_tenant;
  candidate_scan_limit = s.queue_candidate_scan_limit;
}

-- `requeue_expired_queue_jobs` and `claim_next_queue_job` of a round.
unfoldable pub claim_round :
    Settings → WorkerArguments → Round → Repository → Repository × Option QueueRow
claim_round s w r repo =
    let (store, claimed) =
      claim_next_queue_job (claim_request s w r) (requeue_expired_queue_jobs r.now repo.queue).0 in
    (record repo { queue = store }, claimed)

-- The rest of a round that claimed a job.
unfoldable pub work :
    Settings → Dispatch → WorkerArguments → Round → QueueRow → WorkerState → WorkerState
work s dispatch w r row state =
    let started =
      emit_heartbeat s w r.heartbeat_at WorkerStatus.running (some row.job.job_id)
        (format ("Processing " ∷ type_value row.job.job_type ∷ " job " ∷ row.job.job_id ∷ "." ∷ []))
        state.counters row.job.lease_token state.repository in
    let done = process_job s dispatch w.worker_id r.draws row started in
    record {
      repository = done.repository;
      counters = count_status done.status state.counters;
      events = state.events ++ done.events;
    }

unfoldable pub after_claim :
    Settings
    → Dispatch
    → WorkerArguments
    → Round
    → (WorkerState → WorkerState)
    → WorkerState
    → Repository × Option QueueRow
    → WorkerState
after_claim s dispatch w r next state (repo, none) = record state { repository = repo }
after_claim s dispatch w r next state (repo, some row) =
    next (work s dispatch w r row (record state { repository = repo }))

-- The body of the loop; `next` is the rest of the loop.
unfoldable pub one_round :
    Settings
    → Dispatch
    → WorkerArguments
    → Round
    → (WorkerState → WorkerState)
    → WorkerState
    → WorkerState
unfolding after_claim
one_round s dispatch w r next state =
    if r.shutdown_requested
    then state
    else after_claim s dispatch w r next state (claim_round s w r state.repository)

-- The `for` loop over `range(max_jobs)`; it ends early on a shutdown or with nothing to claim.
unfoldable pub rounds :
    ℕ → Settings → Dispatch → WorkerArguments → (ℕ → Round) → WorkerState → WorkerState
rounds zero s dispatch w draw state = state
rounds (suc left) s dispatch w draw state =
    one_round s dispatch w (draw left) (rounds left s dispatch w draw) state

abbrev pub no_jobs : Counters
no_jobs = record { processed_jobs = 0; succeeded_jobs = 0; failed_jobs = 0; cancelled_jobs = 0 }

-- `process`: the worker's tags are cleaned, and heartbeats and traces stand at both ends.
unfoldable pub process :
    ℕ
    → Settings
    → Dispatch
    → WorkerArguments
    → (started_at stopped_at : ℕ) → (ℕ → Round)
    → Repository
    → WorkerState
unfolding rounds emit_heartbeat
process max_jobs s dispatch given started_at stopped_at draw repo =
    let w = record given {
      worker_tags = sorted_set (map strip (filter has_text given.worker_tags));
    } in
    let start = emit_heartbeat s w started_at idle none "Worker started." no_jobs none repo in
    let end = rounds max_jobs s dispatch w draw (record {
      repository = start;
      counters = no_jobs;
      events = traced "worker.run.started" "started" "" ∷ [];
    }) in
    record {
      repository =
          emit_heartbeat s w stopped_at stopped none
            (format (
              "Worker stopped after processing "
              ∷ show end.counters.processed_jobs
              ∷ " job(s)."
              ∷ []))
            end.counters none end.repository;
      counters = end.counters;
      events = end.events ++ traced "worker.run.completed" "completed" "" ∷ [];
    }
