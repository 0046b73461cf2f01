-- ===== src/Queue/Store.antt =====
-- The queue tables of `infrastructure/persistence/run_repository.py`, and the receipt files beside
-- them. `jobs` lists the rows of `queue_jobs` in the order of their insertion.
use issue_to_pr_agent.Prelude.{
  ℕ, suc, String, Bool, true, false, not, ◌&&◌, ◌==◌, Option, none, some, List, [], ◌∷◌, ◌++◌, map,
  eqb, leb, if◌then◌else◌, filter, count, find, any,
}
use issue_to_pr_agent.Domain.Json.{Dict, null, obj, str, time, nat, opt_str, opt_time, put}
use issue_to_pr_agent.Domain.Queue.{
  FilePath, QueueJobStatus, queued, QueueJobRecord, QueueAttemptRecord, WorkerHeartbeatRecord,
  status_value, is_running, same_status,
}

-- A row of `queue_jobs`: its columns, and the object in `payload_json`.
pub record QueueRow : Type 0 where
  pub job : QueueJobRecord
  pub payload : Dict

pub record QueueStore : Type 0 where
  pub jobs : List QueueRow
  pub attempts : List (QueueAttemptRecord × Dict)
  pub heartbeats : List (WorkerHeartbeatRecord × Dict)
  pub files : List (FilePath × Dict)

abbrev pub has_id : String → QueueRow → Bool
has_id id row = row.job.job_id == id

-- `INSERT OR REPLACE`: the row with the same primary key goes, and the new one is the last.
unfoldable pub insert_or_replace : QueueRow → List QueueRow → List QueueRow
insert_or_replace row rows = filter (λ r. not (has_id row.job.job_id r)) rows ++ row ∷ []

unfoldable pub save_queue_job : QueueJobRecord → Dict → QueueStore → QueueStore
unfolding insert_or_replace
save_queue_job job payload store = record store {
  jobs = insert_or_replace (record { job = job; payload = payload }) store.jobs;
}

unfoldable pub get_queue_job : String → QueueStore → Option QueueRow
get_queue_job id store = find (has_id id) store.jobs

unfoldable pub save_queue_attempt : QueueAttemptRecord → Dict → QueueStore → QueueStore
save_queue_attempt attempt payload store = record store {
  attempts =
      filter (λ (a, _). not (a.attempt_id == attempt.attempt_id)) store.attempts
      ++ (attempt, payload) ∷ [];
}

-- The primary key of `worker_heartbeats` is the worker with the time.
abbrev same_heartbeat : WorkerHeartbeatRecord → WorkerHeartbeatRecord → Bool
same_heartbeat a b = a.worker_id == b.worker_id && eqb a.recorded_at b.recorded_at

unfoldable pub save_worker_heartbeat : WorkerHeartbeatRecord → Dict → QueueStore → QueueStore
save_worker_heartbeat heartbeat payload store = record store {
  heartbeats =
      filter (λ (h, _). not (same_heartbeat h heartbeat)) store.heartbeats
      ++ (heartbeat, payload) ∷ [];
}

-- `path.write_text(json.dumps(payload))`
unfoldable pub write_json : FilePath → Dict → QueueStore → QueueStore
write_json path payload store = record store { files = store.files ++ (path, payload) ∷ [] }

-- `column = ?`, a clause that is there only if the argument is given; NULL equals nothing.
abbrev pub column_is : Option String → Option String → Bool
column_is none column = true
column_is (some wanted) none = false
column_is (some wanted) (some value) = value == wanted

abbrev pub status_in : List QueueJobStatus → QueueJobStatus → Bool
status_in [] status = true
status_in (s ∷ rest) status = any (same_status status) (s ∷ rest)

unfoldable pub count_queue_jobs : List QueueJobStatus → Option String → QueueStore → ℕ
count_queue_jobs statuses tenant store =
    count (λ r. status_in statuses r.job.status && column_is tenant r.job.tenant_id) store.jobs

abbrev pub runs_for : Option String → Option String → Option String → QueueRow → Bool
runs_for tenant worker key r =
    is_running r.job.status
    && (column_is tenant r.job.tenant_id
        && (column_is worker r.job.worker_id && column_is key r.job.concurrency_key))

-- `_count_running_jobs_conn`
unfoldable pub count_running_jobs :
    Option String → Option String → Option String → List QueueRow → ℕ
count_running_jobs tenant worker key rows = count (runs_for tenant worker key) rows

-- `status = 'running' AND lease_expires_at IS NOT NULL AND lease_expires_at <= ?`
abbrev pub is_expired : ℕ → QueueJobRecord → Bool
is_expired now job = is_running job.status && lease_over job.lease_expires_at
  where
    lease_over : Option ℕ → Bool
    lease_over none = false
    lease_over (some at) = leb at now

-- The row that the UPDATE of `_requeue_expired_queue_jobs_conn` leaves.
unfoldable pub requeued : ℕ → QueueRow → QueueRow
requeued now r = record {
  job = record job {
    updated_at = now;
    status = queued;
    worker_id = none;
    lease_token = none;
    lease_expires_at = none;
    rehydration_count = suc job.rehydration_count;
  };
  payload = put "resume_state" (obj resume_state) (
      put "rehydration_count" (nat (suc job.rehydration_count)) (
        put "lease_expires_at" null (
          put "lease_token" null (
            put "worker_id" null (
              put "updated_at" (time now) (put "status" (str (status_value queued)) r.payload))))));
}
  where
    job : QueueJobRecord
    job = r.job

    resume_state : Dict
    resume_state = Dict.entry "last_worker_id" (opt_str job.worker_id) (
        Dict.entry "last_lease_token" (opt_str job.lease_token) (
          Dict.entry "last_lease_expires_at" (opt_time job.lease_expires_at)
            (Dict.entry "reclaimed_at" (time now) Dict.empty)))

abbrev pub requeue_row : ℕ → QueueRow → QueueRow
requeue_row now r = if is_expired now r.job then requeued now r else r

-- The rows after the loop, and the number reclaimed.
unfoldable pub requeue_expired : ℕ → List QueueRow → List QueueRow × ℕ
requeue_expired now rows = (map (requeue_row now) rows, count (λ r. is_expired now r.job) rows)

unfoldable pub requeue_expired_queue_jobs : ℕ → QueueStore → QueueStore × ℕ
unfolding requeue_expired
requeue_expired_queue_jobs now store =
    let (rows, reclaimed) = requeue_expired now store.jobs in
    (record store { jobs = rows }, reclaimed)
