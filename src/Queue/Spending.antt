-- ===== src/Queue/Spending.antt =====
-- What `_process_job` of `application/use_cases/process_queue.py` spends of a job's budget.
use issue_to_pr_agent.Prelude.{ℕ, ◌+◌, ◌≤◌, ◌≡◌, refl, String, Option, some, List, arith}
use issue_to_pr_agent.Domain.Queue.{succeeded}
use issue_to_pr_agent.Queue.Store.{QueueRow, get_queue_job}
use issue_to_pr_agent.Queue.Budget.{Settings, ensure_attempt_within_budget}
use issue_to_pr_agent.Queue.Process.{
  Dispatch, DispatchResult, Draws, AttemptEnd, cancelled_before, completed, raised, try_attempt,
}
use issue_to_pr_agent.Queue.Finish.{
  Event, Processed, finished_row, settle, success_verdict, failure_verdict, after_failure,
  after_attempt, process_job,
}
use issue_to_pr_agent.Tenant.Store.{TenantRow}
use issue_to_pr_agent.Repository.{Repository}
use issue_to_pr_agent.Queue.Ends.{persist-find}

charge_fits :
    (s : Settings) (dispatch : Dispatch) (claimed : QueueRow) (repo : Repository)
    (tenant : Option TenantRow) (charge : ℕ) (result : DispatchResult)
    → (try_attempt s dispatch claimed repo).1 ≡ completed tenant charge result
    → claimed.job.budget_used + charge ≤ claimed.job.budget_units
unfolding try_attempt ensure_attempt_within_budget
charge_fits s dispatch claimed repo tenant charge result h = ground arith

-- The stored row has used no more than its units, which are `units`.
abbrev pub WithinBudget : String → ℕ → Processed → Type 0
WithinBudget id units p =
    (row : QueueRow) × (get_queue_job id p.repository.queue ≡ some row)
    × (row.job.budget_used ≤ row.job.budget_units)
    × (row.job.budget_units ≡ units)

after_attempt-budget :
    (s : Settings) (worker : String) (d : Draws) (claimed : QueueRow) (repo : Repository)
    (end : AttemptEnd) (events : List Event)
    → ((tenant : Option TenantRow) (charge : ℕ) (result : DispatchResult)
        → end ≡ completed tenant charge result
        → claimed.job.budget_used + charge ≤ claimed.job.budget_units)
    → (after_attempt s worker d claimed (repo, end) events).status ≡ succeeded
    → WithinBudget claimed.job.job_id claimed.job.budget_units
        (after_attempt s worker d claimed (repo, end) events)
unfolding after_attempt after_failure settle finished_row success_verdict failure_verdict
after_attempt-budget s worker d claimed repo (cancelled_before latest) events fits h = cc
after_attempt-budget s worker d claimed repo (completed tenant charge result) events fits h =
    let v = success_verdict claimed.job charge result in
    (
      finished_row worker d.finished_at v claimed,
      persist-find worker d _ _ _ _ _ refl,
      fits tenant charge result refl,
      refl,
    )
after_attempt-budget s worker d claimed repo (raised tenant charge e) events fits h =
    absurd (ground arith)

-- A job that succeeds is stored with no more budget used than the units it was claimed with.
pub process_job_budget :
    (s : Settings) (dispatch : Dispatch) (worker : String) (d : Draws) (claimed : QueueRow)
    (repo : Repository)
    → (process_job s dispatch worker d claimed repo).status ≡ succeeded
    → WithinBudget claimed.job.job_id claimed.job.budget_units
        (process_job s dispatch worker d claimed repo)
unfolding process_job
process_job_budget s dispatch worker d claimed repo =
    after_attempt-budget s worker d claimed (try_attempt s dispatch claimed repo).0
      (try_attempt s dispatch claimed repo).1 _ (charge_fits s dispatch claimed repo)
