-- ===== src/Queue/Budget.antt =====
-- `application/services/queue_budget.py`, and the settings of `infrastructure/config/settings.py`
-- that the queue reads.
use issue_to_pr_agent.Prelude.{
  ℕ, ◌+◌, ◌*◌, max, String, Bool, false, ◌==◌, Option, none, some, [], ◌∷◌, leb, ltb, if◌then◌else◌,
  Result, ok, raise, raise_if, policy_error, ◌>>◌, format,
}
use issue_to_pr_agent.Domain.Queue.{FilePath, QueueJobType, plan, verify, deliver, queued, running}
use issue_to_pr_agent.Queue.Store.{QueueStore, count_queue_jobs}
use issue_to_pr_agent.Queue.Claim.{after_seconds}

pub record Settings : Type 0 where
  pub artifact_dir : FilePath
  pub metrics_dir : FilePath
  pub queue_backoff_seconds : ℕ
  pub queue_max_attempts : ℕ
  pub queue_lease_seconds : ℕ
  pub queue_max_running_jobs_per_worker : ℕ
  pub queue_max_running_jobs_per_tenant : ℕ
  pub queue_candidate_scan_limit : ℕ
  pub budget_max_units_per_job : ℕ
  pub budget_max_pending_jobs : ℕ
  pub budget_max_pending_jobs_per_tenant : ℕ
  pub budget_cost_plan_heuristic : ℕ
  pub budget_cost_plan_openai : ℕ
  pub budget_cost_verify : ℕ
  pub budget_cost_deliver : ℕ

abbrev is_openai : Option String → Bool
is_openai none = false
is_openai (some provider) = provider == "openai"

unfoldable pub estimate_units : Settings → QueueJobType → Option String → ℕ
estimate_units s plan provider =
    if is_openai provider then s.budget_cost_plan_openai else s.budget_cost_plan_heuristic
estimate_units s verify provider = s.budget_cost_verify
estimate_units s deliver provider = s.budget_cost_deliver

unfoldable pub default_budget_units : Settings → QueueJobType → ℕ → Option String → ℕ
default_budget_units s job_type max_attempts provider =
    estimate_units s job_type provider * max_attempts

-- Jobs that are queued or running, of all tenants or of one.
abbrev pub pending : Option String → QueueStore → ℕ
pending tenant store = count_queue_jobs (queued ∷ running ∷ []) tenant store

unfoldable pub ensure_tenant_can_enqueue : Settings → QueueStore → Option String → Result (Unit {0})
ensure_tenant_can_enqueue s store none = ok tt
ensure_tenant_can_enqueue s store (some tenant) =
    raise_if (leb s.budget_max_pending_jobs_per_tenant (pending (some tenant) store)) policy_error
      (format ("Tenant '" ∷ tenant ∷ "' has exhausted its pending queue budget." ∷ []))

unfoldable pub ensure_can_enqueue : Settings → QueueStore → Option String → ℕ → Result (Unit {0})
unfolding ensure_tenant_can_enqueue
ensure_can_enqueue s store tenant units = do
  raise_if (leb units 0) policy_error "Queue job budget units must be greater than zero."
  raise_if (ltb s.budget_max_units_per_job units) policy_error
      "Queue job budget exceeds ISSUE_TO_PR_BUDGET_MAX_UNITS_PER_JOB."
  raise_if (leb s.budget_max_pending_jobs (pending none store)) policy_error
      "Global pending queue budget has been exhausted."
  ensure_tenant_can_enqueue s store tenant

unfoldable pub ensure_attempt_within_budget :
    Settings → ℕ → ℕ → QueueJobType → Option String → Result ℕ
ensure_attempt_within_budget s units used job_type provider =
    let next_cost = estimate_units s job_type provider in
    if ltb units (used + next_cost)
    then raise policy_error "Queue job budget would be exceeded by the next attempt."
    else ok next_cost

unfoldable pub next_retry_at : Settings → ℕ → ℕ → ℕ
next_retry_at s attempt_count now =
    after_seconds now (s.queue_backoff_seconds * max attempt_count 1)
