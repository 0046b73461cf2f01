-- ===== src/Queue/Samples.antt =====
-- Test data: two jobs of one tenant, one of them running, and the settings of a small worker.
use issue_to_pr_agent.Prelude.{ℕ, false, none, some, List, [], ◌∷◌, pos, ok, err, runtime_error}
use issue_to_pr_agent.Domain.Json.{empty, entry, str, Dict, Json}
use issue_to_pr_agent.Domain.Queue.{plan, queued, running, QueueJobRecord}
use issue_to_pr_agent.Domain.Tenant.{operate_queue}
use issue_to_pr_agent.Queue.Store.{QueueRow, QueueStore}
use issue_to_pr_agent.Queue.Claim.{ClaimRequest}
use issue_to_pr_agent.Queue.Budget.{Settings}
use issue_to_pr_agent.Queue.Enqueue.{JobDraft, EnqueueOptions}
use issue_to_pr_agent.Queue.Process.{Dispatch, Draws}
use issue_to_pr_agent.Queue.Worker.{Round, WorkerArguments}
use issue_to_pr_agent.Repository.{Repository}

abbrev pub sample_settings : Settings
sample_settings = record {
  artifact_dir = "artifacts" ∷ [];
  metrics_dir = "metrics" ∷ [];
  queue_backoff_seconds = 30;
  queue_max_attempts = 3;
  queue_lease_seconds = 900;
  queue_max_running_jobs_per_worker = 2;
  queue_max_running_jobs_per_tenant = 2;
  queue_candidate_scan_limit = 10;
  budget_max_units_per_job = 100;
  budget_max_pending_jobs = 5;
  budget_max_pending_jobs_per_tenant = 4;
  budget_cost_plan_heuristic = 1;
  budget_cost_plan_openai = 10;
  budget_cost_verify = 5;
  budget_cost_deliver = 8;
}

abbrev pub sample_job : QueueJobRecord
sample_job = record {
  job_id = "job-1";
  created_at = 10;
  updated_at = 10;
  job_type = plan;
  status = queued;
  repo_full_name = "acme/site";
  issue_number = some 7;
  priority = pos 1;
  requested_by = some "ana";
  tenant_id = some "acme";
  worker_id = none;
  attempt_count = 0;
  max_attempts = 3;
  budget_units = 30;
  budget_used = 0;
  next_run_at = 10;
  summary = "Plan it.";
  receipt_path = "artifacts" ∷ "job-1.json" ∷ [];
  linked_run_id = none;
  linked_execution_id = none;
  linked_verification_id = none;
  concurrency_key = some "acme/site";
  required_worker_tags = "gpu" ∷ [];
  lease_token = none;
  lease_expires_at = none;
  rehydration_count = 0;
  cancel_requested = false;
  error_message = none;
}

abbrev pub sample_parameters : Dict
sample_parameters = entry "provider" (str "heuristic") (entry "team" (str "web") empty)

abbrev pub waiting_row : QueueRow
waiting_row = record {
  job = sample_job;
  payload = entry "status" (str "queued") (
      entry "lease_token" Json.null (
        entry "attempt_count" (Json.num (pos 0))
          (entry "parameters" (Json.obj sample_parameters) empty)));
}

-- It runs for the first time, with a lease until 5000.
abbrev pub leased_row : QueueRow
leased_row = record {
  job = record sample_job {
    job_id = "job-2";
    status = running;
    worker_id = some "worker-b";
    attempt_count = 1;
    concurrency_key = some "acme/docs";
    lease_token = some "token-b";
    lease_expires_at = some 5000;
  };
  payload = entry "status" (str "running") (
      entry "lease_token" (str "token-b") (
        entry "attempt_count" (Json.num (pos 1))
          (entry "parameters" (Json.obj sample_parameters) empty)));
}

abbrev pub sample_rows : List QueueRow
sample_rows = leased_row ∷ waiting_row ∷ []

abbrev pub sample_store : QueueStore
sample_store = record { jobs = sample_rows; attempts = []; heartbeats = []; files = [] }

abbrev pub sample_repository : Repository
sample_repository = record {
  queue = sample_store;
  tenancy = record { tenants = []; memberships = [] };
  runs = [];
  executions = [];
  verifications = [];
  approvals = [];
}

abbrev pub sample_request : ClaimRequest
sample_request = record {
  worker_id = "worker-a";
  now = 100;
  lease_token = "token-a";
  allowed_types = plan ∷ [];
  worker_tags = "gpu" ∷ [];
  lease_seconds = 900;
  max_running_jobs_per_worker = 2;
  max_running_jobs_per_tenant = 2;
  candidate_scan_limit = 10;
}

abbrev pub sample_draws : Draws
sample_draws = record {
  started_at = 110;
  retry_base = 120;
  finished_at = 130;
  attempt_id = "attempt-1";
}

-- Work that does nothing but report a result, and work that fails.
abbrev pub good_work : Dispatch
good_work job parameters tenant repo = (
  repo,
  ok (record {
    summary = "Planned.";
    linked_run_id = some "run-1";
    linked_execution_id = none;
    linked_verification_id = none;
    payload = empty;
  }),
)

abbrev pub bad_work : Dispatch
bad_work job parameters tenant repo =
    (repo, err (record { kind = runtime_error; message = "No network." }))

abbrev pub sample_round : ℕ → Round
sample_round left = record {
  shutdown_requested = false;
  now = 100;
  lease_token = "token-a";
  heartbeat_at = 105;
  draws = sample_draws;
}

abbrev pub sample_worker : WorkerArguments
sample_worker = record { worker_id = "worker-a"; allowed_types = []; worker_tags = "gpu" ∷ [] }

abbrev pub sample_draft : JobDraft
sample_draft = record {
  job_type = plan;
  permission = operate_queue;
  repo_full_name = "acme/site";
  issue_number = some 8;
  provider = some "heuristic";
  default_attempts = 3;
  summary = "Plan another.";
  parameters = sample_parameters;
  linked_run_id = none;
  linked_execution_id = none;
  linked_verification_id = none;
}

abbrev pub sample_options : EnqueueOptions
sample_options = record {
  actor = "ana";
  team = "web";
  repo_root = "/srv/site";
  priority = pos 0;
  max_attempts = none;
  budget_units = some 20;
  output_dir = none;
  required_worker_tags = [];
  concurrency_key = none;
}
