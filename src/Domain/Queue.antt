-- ===== src/Domain/Queue.antt =====
-- The queue's part of `domain/entities.py`. A timestamp is the number of microseconds since the
-- epoch: the code writes instants by `isoformat` in UTC, where texts are ordered as instants are.
-- A path is the list of its parts.
use issue_to_pr_agent.Prelude.{ℕ, String, Option, List, Bool, true, false, ℤ}

abbrev pub FilePath : Type 0
FilePath = List String

pub data QueueJobType : Type 0 where
  plan verify deliver : QueueJobType

pub data QueueJobStatus : Type 0 where
  queued running succeeded failed cancelled : QueueJobStatus

pub data QueueAttemptStatus : Type 0 where
  started succeeded failed cancelled : QueueAttemptStatus

pub data WorkerStatus : Type 0 where
  idle running stopped : WorkerStatus

pub record QueueJobRecord : Type 0 where
  pub job_id : String
  pub created_at : ℕ
  pub updated_at : ℕ
  pub job_type : QueueJobType
  pub status : QueueJobStatus
  pub repo_full_name : String
  pub issue_number : Option ℕ
  pub priority : ℤ
  pub requested_by : Option String
  pub tenant_id : Option String
  pub worker_id : Option String
  pub attempt_count : ℕ
  pub max_attempts : ℕ
  pub budget_units : ℕ
  pub budget_used : ℕ
  pub next_run_at : ℕ
  pub summary : String
  pub receipt_path : FilePath
  pub linked_run_id : Option String
  pub linked_execution_id : Option String
  pub linked_verification_id : Option String
  pub concurrency_key : Option String
  pub required_worker_tags : List String
  pub lease_token : Option String
  pub lease_expires_at : Option ℕ
  pub rehydration_count : ℕ
  pub cancel_requested : Bool
  pub error_message : Option String

pub record QueueAttemptRecord : Type 0 where
  pub attempt_id : String
  pub job_id : String
  pub attempt_index : ℕ
  pub created_at : ℕ
  pub finished_at : Option ℕ
  pub worker_id : String
  pub status : QueueAttemptStatus
  pub summary : String
  pub payload_path : FilePath
  pub error_message : Option String

pub record WorkerHeartbeatRecord : Type 0 where
  pub worker_id : String
  pub recorded_at : ℕ
  pub status : WorkerStatus
  pub current_job_id : Option String
  pub summary : String
  pub processed_jobs : ℕ
  pub succeeded_jobs : ℕ
  pub failed_jobs : ℕ
  pub cancelled_jobs : ℕ
  pub payload_path : FilePath
  pub advertised_worker_tags : List String
  pub active_lease_token : Option String
  pub queue_capacity : ℕ

-- `QueueJobStatus.value`
abbrev pub status_value : QueueJobStatus → String
status_value queued = "queued"
status_value running = "running"
status_value succeeded = "succeeded"
status_value failed = "failed"
status_value cancelled = "cancelled"

-- `QueueJobType.value`
abbrev pub type_value : QueueJobType → String
type_value plan = "plan"
type_value verify = "verify"
type_value deliver = "deliver"

abbrev pub is_queued : QueueJobStatus → Bool
is_queued queued = true
is_queued _ = false

abbrev pub is_running : QueueJobStatus → Bool
is_running running = true
is_running _ = false

abbrev pub same_type : QueueJobType → QueueJobType → Bool
same_type plan plan = true
same_type verify verify = true
same_type deliver deliver = true
same_type _ _ = false

abbrev pub same_status : QueueJobStatus → QueueJobStatus → Bool
same_status queued queued = true
same_status running running = true
same_status succeeded succeeded = true
same_status failed failed = true
same_status cancelled cancelled = true
same_status _ _ = false
