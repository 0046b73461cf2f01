-- ===== src/Queue/Enqueue/Common.antt =====
-- What the `enqueue_` methods of `application/use_cases/manage_queue.py` share.
use issue_to_pr_agent.Prelude.{
  ℕ, String, Option, none, some, List, eqb, if◌then◌else◌, ℤ, or_else, Result, ok, ◌>>=◌, ◌>>◌,
}
use issue_to_pr_agent.Domain.Json.{Dict, Json, str, arr, strs, empty, entry}
use issue_to_pr_agent.Domain.Queue.{QueueJobType}
use issue_to_pr_agent.Domain.Tenant.{PlatformPermission}
use issue_to_pr_agent.Queue.Store.{QueueStore}
use issue_to_pr_agent.Queue.Budget.{Settings, default_budget_units, ensure_can_enqueue}
use issue_to_pr_agent.Queue.Create.{
  NewJob, QueueJobResult, clean_worker_tags, create_job, path_text,
}
use issue_to_pr_agent.Tenant.Store.{TenantRow}
use issue_to_pr_agent.Tenant.Access.{require_repo_permission}
use issue_to_pr_agent.Repository.{Repository}

-- The arguments that the four methods share.
pub record EnqueueOptions : Type 0 where
  pub actor : String
  pub team : String
  pub repo_root : String
  pub priority : ℤ
  pub max_attempts : Option ℕ
  pub budget_units : Option ℕ
  pub output_dir : Option String
  pub required_worker_tags : List String
  pub concurrency_key : Option String

-- `value or default` for a number that may be absent.
abbrev pub nat_or : Option ℕ → ℕ → ℕ
nat_or none d = d
nat_or (some n) d = if eqb n 0 then d else n

abbrev pub tenant_id_of : Option TenantRow → Option String
tenant_id_of none = none
tenant_id_of (some row) = some row.tenant.tenant_id

-- What each method says of its job once the permission and the numbers are settled.
pub record JobDraft : Type 0 where
  pub job_type : QueueJobType
  pub permission : PlatformPermission
  pub repo_full_name : String
  pub issue_number : Option ℕ
  pub provider : Option String
  pub default_attempts : ℕ
  pub summary : String
  pub parameters : Dict
  pub linked_run_id : Option String
  pub linked_execution_id : Option String
  pub linked_verification_id : Option String

abbrev pub new_job : JobDraft → EnqueueOptions → Option String → ℕ → ℕ → NewJob
new_job d o tenant attempts budget = record {
  job_type = d.job_type;
  repo_full_name = d.repo_full_name;
  issue_number = d.issue_number;
  requested_by = o.actor;
  tenant_id = tenant;
  priority = o.priority;
  max_attempts = attempts;
  budget_units = budget;
  summary = d.summary;
  parameters = d.parameters;
  linked_run_id = d.linked_run_id;
  linked_execution_id = d.linked_execution_id;
  linked_verification_id = d.linked_verification_id;
  required_worker_tags = o.required_worker_tags;
  concurrency_key = o.concurrency_key;
}

abbrev pub stored : Repository → QueueStore × QueueJobResult → Repository × QueueJobResult
stored repo (store, result) = (record repo { queue = store }, result)

-- The statements that the four bodies have in common: permission, numbers, budget, creation.
unfoldable pub enqueue :
    Settings
    → ℕ
    → String
    → JobDraft
    → EnqueueOptions
    → Repository
    → Result (Repository × QueueJobResult)
enqueue s now id d o repo = do
  tenant ←
      require_repo_permission repo.tenancy d.repo_full_name (some o.actor) d.permission
        (some o.team)
  let attempts = nat_or o.max_attempts d.default_attempts
  let budget = nat_or o.budget_units (default_budget_units s d.job_type attempts d.provider)
  ensure_can_enqueue s repo.queue (tenant_id_of tenant) budget
  ok (
      stored repo
        (create_job s now id (new_job d o (tenant_id_of tenant) attempts budget) repo.queue))

abbrev pub shared_parameters : EnqueueOptions → Dict
shared_parameters o = entry "team" (str o.team) (
    entry "required_worker_tags" (arr (strs (clean_worker_tags o.required_worker_tags)))
      (entry "concurrency_key" (str (or_else o.concurrency_key "")) empty))

abbrev pub output_text : Settings → EnqueueOptions → Json
output_text s o = str (or_else o.output_dir (path_text s.artifact_dir))
