-- ===== src/Queue/Ends.antt =====
-- The ends of `_process_job` in `application/use_cases/process_queue.py`: what it persists, and the
-- two ways in which it does.
use issue_to_pr_agent.Prelude.{
  ℕ, ◌≡◌, refl, String, false, Option, some, List, arith, Bool-cases, Option-cases, inl, inr, ◌⊎◌,
  Error, eq_iff,
}
use issue_to_pr_agent.Domain.Queue.{is_running, QueueAttemptStatus, FilePath}
use issue_to_pr_agent.Queue.Store.{
  QueueRow, QueueStore, get_queue_job, save_queue_job, save_queue_attempt, write_json,
}
use issue_to_pr_agent.Queue.Rows.{find-insert_or_replace}
use issue_to_pr_agent.Queue.Budget.{Settings}
use issue_to_pr_agent.Queue.Process.{
  Dispatch, Draws, AttemptEnd, cancelled_before, completed, raised, try_attempt, latest_or,
  persist_job, persist_attempt,
}
use issue_to_pr_agent.Queue.Finish.{
  Event, Processed, Verdict, finalize_cancelled, cancelled_result, settle, success_verdict,
  failure_verdict, after_failure, after_attempt, process_job,
}
use issue_to_pr_agent.Queue.Preserve.{StoreValid, save-StoreValid}
use issue_to_pr_agent.Queue.Invariant.{RowValid}
use issue_to_pr_agent.Tenant.Store.{TenantRow}
use issue_to_pr_agent.Repository.{Repository}

-- A persisted row is found under its key.
pub persist-find :
    (worker : String) (d : Draws) (path : FilePath) (status : QueueAttemptStatus) (row : QueueRow)
    (store : QueueStore) (id : String)
    → row.job.job_id ≡ id
    → get_queue_job id (persist_attempt worker d path status row (persist_job row store)) ≡ some row
unfolding persist_attempt persist_job save_queue_job save_queue_attempt write_json get_queue_job
persist-find worker d path status row store id same =
    ground (arith, find-insert_or_replace id row store.jobs, eq_iff row.job.job_id id)

pub persist-StoreValid :
    (worker : String) (d : Draws) (path : FilePath) (status : QueueAttemptStatus) (row : QueueRow)
    (store : QueueStore)
    → RowValid row
    → StoreValid store
    → StoreValid (persist_attempt worker d path status row (persist_job row store))
unfolding persist_attempt persist_job save_queue_attempt write_json
persist-StoreValid worker d path status row store r v =
    let saved =
      save-StoreValid row (write_json row.job.receipt_path row.payload store) r
        (record { unique = v.unique; rows = v.rows }) in
    record { unique = saved.unique; rows = saved.rows }

-- The two ways in which the end of a job writes its row, for a property of the result: cancelled,
-- made from the stored row or from the claimed one, or finished with a status that is not running.
abbrev pub OnStop : (Processed → Type 0) → String → Draws → QueueRow → Repository → Type 0
OnStop P worker d claimed repo =
    (latest : QueueRow) (summary : String) (events : List Event)
    → (get_queue_job claimed.job.job_id repo.queue ≡ some latest) ⊎ (latest ≡ claimed)
    → P (cancelled_result (finalize_cancelled worker d claimed latest summary repo) events)

abbrev pub OnFinish : (Processed → Type 0) → String → Draws → QueueRow → Repository → Type 0
OnFinish P worker d claimed repo =
    (v : Verdict) (events : List Event)
    → is_running v.status ≡ false
    → P (settle worker d claimed v events repo)

failure_stops :
    (s : Settings) (now : ℕ) (row : QueueRow) (charge : ℕ) (e : Error)
    → is_running (failure_verdict s now row.job charge e).status ≡ false
unfolding failure_verdict
failure_stops s now row charge e = ground arith

latest-cases :
    (id : String) (repo : Repository) (claimed : QueueRow)
    → (get_queue_job id repo.queue ≡ some (latest_or (get_queue_job id repo.queue) claimed))
      ⊎ (latest_or (get_queue_job id repo.queue) claimed ≡ claimed)
latest-cases id repo claimed = elim (Option-cases (get_queue_job id repo.queue)) [
  | inl gone ↦ inr (rw gone)
  | inr (row, there) ↦ inl (rw there)
]

module _ (P : Processed → Type 0) (s : Settings) (worker : String) (d : Draws) (claimed : QueueRow)
    (repo : Repository) (stop : OnStop P worker d claimed repo)
    (finish : OnFinish P worker d claimed repo) where
  after_failure_rule :
      (tenant : Option TenantRow) (charge : ℕ) (e : Error) (events : List Event)
      → P (after_failure s worker d claimed tenant charge e repo events)
  unfolding after_failure
  after_failure_rule tenant charge e events =
      let latest = latest_or (get_queue_job claimed.job.job_id repo.queue) claimed in
      elim (Bool-cases latest.job.cancel_requested) [
        | inl wanted ↦
            rw wanted (stop latest _ events (latest-cases claimed.job.job_id repo claimed))
        | inr not_wanted ↦ rw not_wanted (finish _ _ (failure_stops s d.retry_base latest charge e))
      ]

  after_attempt_rule :
      (end : AttemptEnd) (events : List Event)
      → ((latest : QueueRow)
          → end ≡ cancelled_before latest
          → get_queue_job claimed.job.job_id repo.queue ≡ some latest)
      → P (after_attempt s worker d claimed (repo, end) events)
  unfolding after_attempt success_verdict
  after_attempt_rule (cancelled_before latest) events h = stop latest _ events (inl (h latest refl))
  after_attempt_rule (completed tenant charge result) events h = finish _ _ refl
  after_attempt_rule (raised tenant charge e) events h = after_failure_rule tenant charge e events

-- The early return is taken with the row as it is stored.
cancelled_before-stored :
    (s : Settings) (dispatch : Dispatch) (claimed : QueueRow) (repo : Repository)
    (latest : QueueRow)
    → (try_attempt s dispatch claimed repo).1 ≡ cancelled_before latest
    → get_queue_job claimed.job.job_id (try_attempt s dispatch claimed repo).0.queue ≡ some latest
unfolding try_attempt
cancelled_before-stored s dispatch claimed repo latest h = ground arith

-- What both ways to write the row give holds of the result.
pub process_rule :
    (P : Processed → Type 0) (s : Settings) (dispatch : Dispatch) (worker : String) (d : Draws)
    (claimed : QueueRow) (repo : Repository)
    → OnStop P worker d claimed (try_attempt s dispatch claimed repo).0
    → OnFinish P worker d claimed (try_attempt s dispatch claimed repo).0
    → P (process_job s dispatch worker d claimed repo)
unfolding process_job
process_rule P s dispatch worker d claimed repo stop finish =
    after_attempt_rule P s worker d claimed (try_attempt s dispatch claimed repo).0 stop finish
      (try_attempt s dispatch claimed repo).1 _ (cancelled_before-stored s dispatch claimed repo)
