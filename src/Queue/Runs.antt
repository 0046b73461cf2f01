-- ===== src/Queue/Runs.antt =====
-- A worker's run keeps the table valid.
use issue_to_pr_agent.Prelude.{
  ℕ, zero, suc, ◌≡◌, refl, String, Option, none, some, List, [], ◌∷◌, Bool-cases, inl, inr, Result,
  ok, err, subst, some_injective, map, filter, strip, has_text,
}
use issue_to_pr_agent.Domain.Json.{Dict}
use issue_to_pr_agent.Domain.Queue.{QueueJobRecord, WorkerStatus}
use issue_to_pr_agent.Queue.Store.{
  QueueRow, QueueStore, get_queue_job, requeue_expired, save_worker_heartbeat, write_json,
}
use issue_to_pr_agent.Queue.Claim.{
  ClaimRequest, claim, claim_selected, claim_next_queue_job, worker_is_full,
}
use issue_to_pr_agent.Queue.Budget.{Settings}
use issue_to_pr_agent.Queue.Create.{sorted_set}
use issue_to_pr_agent.Queue.Process.{
  Dispatch, try_attempt, permitted, charged, dispatched, DispatchResult, parameters_of,
  wants_cancel,
}
use issue_to_pr_agent.Queue.Finish.{traced}
use issue_to_pr_agent.Queue.Worker.{
  Counters, Round, WorkerArguments, WorkerState, emit_heartbeat, claim_request, claim_round, work,
  rounds, process, one_round, after_claim, no_jobs,
}
use issue_to_pr_agent.Queue.Invariant.{RowValid, claimed-RowValid}
use issue_to_pr_agent.Queue.Preserve.{StoreValid, claim-StoreValid, requeue-StoreValid}
use issue_to_pr_agent.Queue.Outcome.{process_job-StoreValid}
use issue_to_pr_agent.Tenant.Store.{TenantRow}
use issue_to_pr_agent.Repository.{Repository}

-- The work, with what others write meanwhile, keeps the queue's table valid.
abbrev pub KeepsValid : Dispatch → Type 0
KeepsValid dispatch =
    (job : QueueJobRecord) (parameters : Dict) (tenant : Option TenantRow) (repo : Repository)
    → StoreValid repo.queue
    → StoreValid (dispatch job parameters tenant repo).0.queue

dispatched-StoreValid :
    (tenant : Option TenantRow) (charge : ℕ) (end : Repository × Result DispatchResult)
    → StoreValid end.0.queue
    → StoreValid (dispatched tenant charge end).0.queue
unfolding dispatched
dispatched-StoreValid tenant charge (repo, ok result) v = v
dispatched-StoreValid tenant charge (repo, err e) v = v

charged-StoreValid :
    (dispatch : Dispatch) (row : QueueRow) (tenant : Option TenantRow) (charge : Result ℕ)
    (repo : Repository)
    → KeepsValid dispatch
    → StoreValid repo.queue
    → StoreValid (charged dispatch row tenant charge repo).0.queue
unfolding charged
charged-StoreValid dispatch row tenant (err e) repo keeps v = v
charged-StoreValid dispatch row tenant (ok charge) repo keeps v =
    dispatched-StoreValid tenant charge (dispatch row.job (parameters_of row) tenant repo)
      (keeps row.job (parameters_of row) tenant repo v)

permitted-StoreValid :
    (s : Settings) (dispatch : Dispatch) (row : QueueRow) (tenant : Result (Option TenantRow))
    (repo : Repository)
    → KeepsValid dispatch
    → StoreValid repo.queue
    → StoreValid (permitted s dispatch row tenant repo).0.queue
unfolding permitted
permitted-StoreValid s dispatch row (err e) repo keeps v = v
permitted-StoreValid s dispatch row (ok tenant) repo keeps v =
    elim (Bool-cases (wants_cancel (get_queue_job row.job.job_id repo.queue))) [
      | inl wanted ↦ rw wanted v
      | inr not_wanted ↦ rw not_wanted (charged-StoreValid dispatch row tenant _ repo keeps v)
    ]

try_attempt-StoreValid :
    (s : Settings) (dispatch : Dispatch) (row : QueueRow) (repo : Repository)
    → KeepsValid dispatch
    → StoreValid repo.queue
    → StoreValid (try_attempt s dispatch row repo).0.queue
unfolding try_attempt
try_attempt-StoreValid s dispatch row repo keeps v =
    permitted-StoreValid s dispatch row _ repo keeps v

-- A claimed row is valid.
claim_selected-RowValid :
    (req : ClaimRequest) (rows : List QueueRow) (found : Option QueueRow) (row : QueueRow)
    → (claim_selected req rows found).1 ≡ some row
    → RowValid row
unfolding claim_selected
claim_selected-RowValid req rows none row h = cc
claim_selected-RowValid req rows (some r) row h =
    subst RowValid (some_injective h) (claimed-RowValid req r)

claim-RowValid :
    (req : ClaimRequest) (store : QueueStore) (row : QueueRow)
    → (claim_next_queue_job req store).1 ≡ some row
    → RowValid row
unfolding claim_next_queue_job claim
claim-RowValid req store row h =
    elim (Bool-cases (worker_is_full req (requeue_expired req.now store.jobs).0)) [
      | inl full ↦ absurd (cc (rw full at h))
      | inr room ↦ claim_selected-RowValid req _ _ row (rw room at h)
    ]

emit_heartbeat-StoreValid :
    (s : Settings) (w : WorkerArguments) (at : ℕ) (status : WorkerStatus) (job_id : Option String)
    (summary : String) (c : Counters) (lease : Option String) (repo : Repository)
    → StoreValid repo.queue
    → StoreValid (emit_heartbeat s w at status job_id summary c lease repo).queue
unfolding emit_heartbeat save_worker_heartbeat write_json
emit_heartbeat-StoreValid s w at status job_id summary c lease repo v = record {
  unique = v.unique;
  rows = v.rows;
}

work-StoreValid :
    (s : Settings) (dispatch : Dispatch) (w : WorkerArguments) (r : Round) (row : QueueRow)
    (state : WorkerState)
    → KeepsValid dispatch
    → RowValid row
    → StoreValid state.repository.queue
    → StoreValid (work s dispatch w r row state).repository.queue
unfolding work
work-StoreValid s dispatch w r row state keeps c v =
    process_job-StoreValid s dispatch w.worker_id r.draws row _ c (
      try_attempt-StoreValid s dispatch row _ keeps (
        emit_heartbeat-StoreValid s w r.heartbeat_at WorkerStatus.running (some row.job.job_id) _
          state.counters row.job.lease_token state.repository v))

claim_round-StoreValid :
    (s : Settings) (w : WorkerArguments) (r : Round) (repo : Repository)
    → StoreValid repo.queue
    → StoreValid (claim_round s w r repo).0.queue
unfolding claim_round
claim_round-StoreValid s w r repo v =
    claim-StoreValid (claim_request s w r) _ (requeue-StoreValid r.now repo.queue v)

claim_round-RowValid :
    (s : Settings) (w : WorkerArguments) (r : Round) (repo : Repository) (row : QueueRow)
    → (claim_round s w r repo).1 ≡ some row
    → RowValid row
unfolding claim_round
claim_round-RowValid s w r repo row h = claim-RowValid (claim_request s w r) _ row h

after_claim-StoreValid :
    (s : Settings) (dispatch : Dispatch) (w : WorkerArguments) (r : Round)
    (next : WorkerState → WorkerState) (state : WorkerState) (end : Repository × Option QueueRow)
    → KeepsValid dispatch
    → ((state' : WorkerState)
        → StoreValid state'.repository.queue
        → StoreValid (next state').repository.queue)
    → StoreValid end.0.queue
    → ((row : QueueRow) → end.1 ≡ some row → RowValid row)
    → StoreValid (after_claim s dispatch w r next state end).repository.queue
unfolding after_claim
after_claim-StoreValid s dispatch w r next state (repo, none) keeps rest v valid = v
after_claim-StoreValid s dispatch w r next state (repo, some row) keeps rest v valid = rest _ (
    work-StoreValid s dispatch w r row (record state { repository = repo }) keeps (valid row refl)
      v)

rounds-StoreValid :
    (left : ℕ) (s : Settings) (dispatch : Dispatch) (w : WorkerArguments) (draw : ℕ → Round)
    (state : WorkerState)
    → KeepsValid dispatch
    → StoreValid state.repository.queue
    → StoreValid (rounds left s dispatch w draw state).repository.queue
unfolding rounds one_round
rounds-StoreValid zero s dispatch w draw state keeps v = v
rounds-StoreValid (suc left) s dispatch w draw state keeps v =
    elim (Bool-cases (draw left).shutdown_requested) [
      | inl stop ↦ simp stop v
      | inr go ↦ simp go (
          after_claim-StoreValid s dispatch w (draw left) (rounds left s dispatch w draw) state _
            keeps (λ next. rounds-StoreValid left s dispatch w draw next keeps)
            (claim_round-StoreValid s w (draw left) state.repository v)
            (claim_round-RowValid s w (draw left) state.repository))
    ]

-- If the work keeps the queue's table valid, then a whole run of a worker does: after any number of
-- rounds no two rows have one key, a lease is held exactly by the running jobs, and each payload
-- shows its row's status, lease token and attempts.
pub process-StoreValid :
    (max_jobs : ℕ) (s : Settings) (dispatch : Dispatch) (w : WorkerArguments)
    (started_at stopped_at : ℕ) (draw : ℕ → Round) (repo : Repository)
    → KeepsValid dispatch
    → StoreValid repo.queue
    → StoreValid (process max_jobs s dispatch w started_at stopped_at draw repo).repository.queue
unfolding process
process-StoreValid max_jobs s dispatch given started_at stopped_at draw repo keeps v =
    let w : WorkerArguments = record given {
      worker_tags = sorted_set (map strip (filter has_text given.worker_tags));
    } in
    let start : Repository =
      emit_heartbeat s w started_at WorkerStatus.idle none "Worker started." no_jobs none repo in
    let first : WorkerState = record {
      repository = start;
      counters = no_jobs;
      events = traced "worker.run.started" "started" "" ∷ [];
    } in
    let end : WorkerState = rounds max_jobs s dispatch w draw first in
    emit_heartbeat-StoreValid s w stopped_at WorkerStatus.stopped none _ end.counters none
      end.repository
      (rounds-StoreValid max_jobs s dispatch w draw first keeps (
        emit_heartbeat-StoreValid s w started_at WorkerStatus.idle none "Worker started." no_jobs
          none repo v))
