-- ===== src/Queue/Counts.antt =====
-- The counters of a worker's run, against the events that the jobs emit.
use issue_to_pr_agent.Prelude.{
  ℕ, zero, suc, ◌+◌, ◌≤◌, refl, Option, none, some, List, [], ◌∷◌, ◌++◌, arith, Bool-cases, inl,
  inr, count-append,
}
use issue_to_pr_agent.Queue.Store.{QueueRow}
use issue_to_pr_agent.Queue.Budget.{Settings}
use issue_to_pr_agent.Queue.Process.{Dispatch}
use issue_to_pr_agent.Queue.Finish.{Event, traced}
use issue_to_pr_agent.Queue.Worker.{
  Counters, Round, WorkerArguments, WorkerState, work, rounds, process, one_round, after_claim,
  claim_round, no_jobs,
}
use issue_to_pr_agent.Repository.{Repository}
use issue_to_pr_agent.Queue.Trace.{
  is_start, is_success, is_failure, Counted, count_status-Counted, count_status-capped,
  process_job-CountsOne,
}

-- The counters of a run, and a limit on its jobs.
pub record CountsJobs (limit : ℕ) (state : WorkerState) : Type 0 where
  pub counted : Counted state.counters state.events
  pub capped : state.counters.processed_jobs ≤ limit

work-CountsJobs :
    (s : Settings) (dispatch : Dispatch) (w : WorkerArguments) (r : Round) (row : QueueRow)
    (state : WorkerState) (n : ℕ)
    → CountsJobs n state
    → CountsJobs (suc n) (work s dispatch w r row state)
unfolding work
work-CountsJobs s dispatch w r row state n c = record {
  counted =
      count_status-Counted _ state.counters state.events _ c.counted
        (process_job-CountsOne s dispatch w.worker_id r.draws row _);
  capped = count_status-capped _ state.counters n c.capped;
}

after_claim-CountsJobs :
    (s : Settings) (dispatch : Dispatch) (w : WorkerArguments) (r : Round)
    (next : WorkerState → WorkerState) (state : WorkerState) (end : Repository × Option QueueRow)
    (n limit : ℕ)
    → n ≤ limit
    → ((state' : WorkerState) → CountsJobs (suc n) state' → CountsJobs limit (next state'))
    → CountsJobs n state
    → CountsJobs limit (after_claim s dispatch w r next state end)
unfolding after_claim
after_claim-CountsJobs s dispatch w r next state (repo, none) n limit le rest c = record {
  counted = c.counted;
  capped = omega (arith, c.capped);
}
after_claim-CountsJobs s dispatch w r next state (repo, some row) n limit le rest c = rest _ (
    work-CountsJobs s dispatch w r row (record state { repository = repo }) n
      (record { counted = c.counted; capped = c.capped }))

rounds-CountsJobs :
    (left : ℕ) (s : Settings) (dispatch : Dispatch) (w : WorkerArguments) (draw : ℕ → Round)
    (state : WorkerState) (n limit : ℕ)
    → n + left ≤ limit
    → CountsJobs n state
    → CountsJobs limit (rounds left s dispatch w draw state)
unfolding rounds one_round
rounds-CountsJobs zero s dispatch w draw state n limit le c = record {
  counted = c.counted;
  capped = omega (arith, c.capped);
}
rounds-CountsJobs (suc left) s dispatch w draw state n limit le c =
    elim (Bool-cases (draw left).shutdown_requested) [
      | inl stop ↦ simp stop (record { counted = c.counted; capped = omega (arith, c.capped) })
      | inr go ↦ simp go (
          after_claim-CountsJobs s dispatch w (draw left) (rounds left s dispatch w draw) state
            (claim_round s w (draw left) state.repository) n limit (omega arith)
            (λ next. rounds-CountsJobs left s dispatch w draw next (suc n) limit (omega arith)) c)
    ]

-- The trace at the end of a run is none of a job.
stopped-Counted :
    (c : Counters) (events : List Event)
    → Counted c events
    → Counted c (events ++ traced "worker.run.completed" "completed" "" ∷ [])
stopped-Counted c events v = record {
  begun = ground (
    arith,
    count-append is_start events (traced "worker.run.completed" "completed" "" ∷ []),
    v.begun,
  );
  successes = ground (
    arith,
    count-append is_success events (traced "worker.run.completed" "completed" "" ∷ []),
    v.successes,
  );
  failures = ground (
    arith,
    count-append is_failure events (traced "worker.run.completed" "completed" "" ∷ []),
    v.failures,
  );
  total = v.total;
}

stopped-CountsJobs :
    (limit : ℕ) (state : WorkerState) (repo : Repository)
    → CountsJobs limit state
    → CountsJobs limit (record {
      repository = repo;
      counters = state.counters;
      events = state.events ++ traced "worker.run.completed" "completed" "" ∷ [];
    })
stopped-CountsJobs limit state repo c = record {
  counted = stopped-Counted state.counters state.events c.counted;
  capped = c.capped;
}

started-CountsJobs :
    (left : ℕ) (s : Settings) (dispatch : Dispatch) (w : WorkerArguments) (draw : ℕ → Round)
    (repo : Repository)
    → CountsJobs left (
        rounds left s dispatch w draw (record {
          repository = repo;
          counters = no_jobs;
          events = traced "worker.run.started" "started" "" ∷ [];
        }))
started-CountsJobs left s dispatch w draw repo =
    rounds-CountsJobs left s dispatch w draw _ 0 left (omega arith) (record {
      counted = record { begun = refl; successes = refl; failures = refl; total = refl };
      capped = omega arith;
    })

-- A run processes no more jobs than it is allowed, and its counters count its jobs as the trace shows
-- them: as many are processed as have begun, as many succeeded as are traced completed with the
-- status succeeded, as many failed as are traced completed with another status, and the others are
-- cancelled.
pub process_counts :
    (max_jobs : ℕ) (s : Settings) (dispatch : Dispatch) (w : WorkerArguments)
    (started_at stopped_at : ℕ) (draw : ℕ → Round) (repo : Repository)
    → CountsJobs max_jobs (process max_jobs s dispatch w started_at stopped_at draw repo)
unfolding process
process_counts max_jobs s dispatch w started_at stopped_at draw repo =
    stopped-CountsJobs max_jobs _ _ (started-CountsJobs max_jobs s dispatch _ draw _)
