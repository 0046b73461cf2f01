-- ===== src/Queue/Control.antt =====
-- What `cancel_job` and `resume_job` of `application/use_cases/manage_queue.py` do to the table.
use issue_to_pr_agent.Prelude.{
  ℕ, ◌≡◌, ◌<◌, refl, String, Bool, true, false, none, some, arith, if◌then◌else◌, ◌⊎◌, ok, ok_parts,
  ◌==◌, eq_iff, subst,
}
use issue_to_pr_agent.Domain.Queue.{queued, running, failed, cancelled, is_queued}
use issue_to_pr_agent.Queue.Store.{
  QueueRow, QueueStore, get_queue_job, save_queue_job, requeue_row, requeued, is_expired,
}
use issue_to_pr_agent.Queue.Claim.{ClaimRequest, is_candidate}
use issue_to_pr_agent.Queue.Rows.{find-insert_or_replace, find-has_id}
use issue_to_pr_agent.Queue.Preserve.{
  save-find, StoreValid, save-StoreValid, load_mutable_job-found, loaded-RowValid,
}
use issue_to_pr_agent.Queue.Invariant.{RowValid, cancelled-RowValid, resumed-RowValid}
use issue_to_pr_agent.Queue.Create.{QueueJobResult}
use issue_to_pr_agent.Queue.Manage.{
  load_mutable_job, cancel_job, resume_job, cancelled_row, resumed_row, is_final, saved,
  is_resumable,
}
use issue_to_pr_agent.Repository.{Repository}

-- The row that was found and let through, and that its status allows the change.
cancel_job-row :
    (now : ℕ) (id actor team : String) (repo : Repository) (p : Repository × QueueJobResult)
    → cancel_job now id actor team repo ≡ ok p
    → (row : QueueRow) × (load_mutable_job repo id actor team ≡ ok row)
      × (is_final row.job.status ≡ false)
      × (saved repo (cancelled_row now actor row) ≡ p.0)
unfolding cancel_job
cancel_job-row now id actor team repo p h =
    let (row, loaded, rest) = ok_parts (load_mutable_job repo id actor team) _ h in
    (row, loaded, ground arith, ground arith)

resume_job-row :
    (now : ℕ) (id actor team : String) (reset : Bool) (repo : Repository)
    (p : Repository × QueueJobResult)
    → resume_job now id actor team reset repo ≡ ok p
    → (row : QueueRow) × (load_mutable_job repo id actor team ≡ ok row)
      × (is_resumable row.job.status ≡ true)
      × ((reset ≡ true) ⊎ (row.job.attempt_count < row.job.max_attempts))
      × (saved repo (resumed_row now reset row) ≡ p.0)
unfolding resume_job
resume_job-row now id actor team reset repo p h =
    let (row, loaded, rest) = ok_parts (load_mutable_job repo id actor team) _ h in
    (row, loaded, ground arith, ground arith, ground arith)

-- The stored job of a cancelled one: it is cancelled at once if it was queued; otherwise it keeps
-- its status, its worker and its lease, and is only marked.
pub record CancelMarked (old new : QueueRow) : Type 0 where
  pub still_open : is_final old.job.status ≡ false
  pub marked : new.job.cancel_requested ≡ true
  pub status : new.job.status ≡ (if is_queued old.job.status then cancelled else old.job.status)
  pub same_worker : new.job.worker_id ≡ old.job.worker_id
  pub same_token : new.job.lease_token ≡ old.job.lease_token
  pub same_expiry : new.job.lease_expires_at ≡ old.job.lease_expires_at
  pub same_attempts : new.job.attempt_count ≡ old.job.attempt_count

-- What a change of the job under `id` leaves: the row of the job is as `Is` says, and every other
-- job is as before.
pub record Changed (Is : QueueRow → QueueRow → Type 0) (id : String) (before after : QueueStore)
    : Type 0 where
  pub old : QueueRow
  pub new : QueueRow
  pub was : get_queue_job id before ≡ some old
  pub now_is : get_queue_job id after ≡ some new
  pub as_said : Is old new
  pub others : (j : String) → (id == j) ≡ false → get_queue_job j after ≡ get_queue_job j before

save-others :
    (id j : String) (row : QueueRow) (store : QueueStore)
    → row.job.job_id ≡ id
    → (id == j) ≡ false
    → get_queue_job j (save_queue_job row.job row.payload store) ≡ get_queue_job j store
unfolding get_queue_job save_queue_job
save-others id j row store same other =
    ground (arith, find-insert_or_replace j row store.jobs, eq_iff row.job.job_id j, eq_iff id j)

found-id :
    (id : String) (store : QueueStore) (row : QueueRow)
    → get_queue_job id store ≡ some row
    → row.job.job_id ≡ id
unfolding get_queue_job
found-id id store row h = find-has_id id store.jobs row h

saved-Changed :
    (Is : QueueRow → QueueRow → Type 0) (id actor team : String) (repo after : Repository)
    (row new : QueueRow)
    → load_mutable_job repo id actor team ≡ ok row
    → new.job.job_id ≡ row.job.job_id
    → Is row new
    → saved repo new ≡ after
    → Changed Is id repo.queue after.queue
saved-Changed Is id actor team repo after row new loaded key is end =
    let there = load_mutable_job-found repo id actor team row loaded in
    let same = found-id id repo.queue row there in
    subst (λ p. Changed Is id repo.queue p.queue) end
      (record {
        old = row;
        new = new;
        was = there;
        now_is = save-find id new repo.queue (cc);
        as_said = is;
        others = λ j other. save-others id j new repo.queue (cc) other;
      })

-- The job that a successful `cancel_job` is about is stored and neither succeeded nor cancelled;
-- afterwards it is marked, cancelled if it was queued and otherwise of the same status, with the same
-- worker, lease and attempts; and every other job is as before.
pub cancel_job-Changed :
    (now : ℕ) (id actor team : String) (repo after : Repository) (result : QueueJobResult)
    → cancel_job now id actor team repo ≡ ok (after, result)
    → Changed CancelMarked id repo.queue after.queue
unfolding cancelled_row
cancel_job-Changed now id actor team repo after result h =
    let (row, loaded, open_status, end) = cancel_job-row now id actor team repo (after, result) h in
    saved-Changed CancelMarked id actor team repo after row (cancelled_row now actor row) loaded
      refl
      (record {
        still_open = open_status;
        marked = refl;
        status = refl;
        same_worker = refl;
        same_token = refl;
        same_expiry = refl;
        same_attempts = refl;
      })
      end

-- What resuming makes of a job that failed or was cancelled.
pub record Resumed (now : ℕ) (reset : Bool) (old new : QueueRow) : Type 0 where
  pub resumable : (old.job.status ≡ failed) ⊎ (old.job.status ≡ cancelled)
  pub status : new.job.status ≡ queued
  pub unmarked : new.job.cancel_requested ≡ false
  pub due : new.job.next_run_at ≡ now
  pub no_token : new.job.lease_token ≡ none
  pub no_expiry : new.job.lease_expires_at ≡ none
  pub attempts : new.job.attempt_count ≡ (if reset then 0 else old.job.attempt_count)
  pub budget : new.job.budget_used ≡ (if reset then 0 else old.job.budget_used)
  pub some_left : reset ≡ false → new.job.attempt_count < new.job.max_attempts

resumed_row-Resumed :
    (now : ℕ) (reset : Bool) (row : QueueRow)
    → is_resumable row.job.status ≡ true
    → (reset ≡ true) ⊎ (row.job.attempt_count < row.job.max_attempts)
    → Resumed now reset row (resumed_row now reset row)
unfolding resumed_row
resumed_row-Resumed now reset row can left = record {
  resumable = ground arith;
  status = refl;
  unmarked = refl;
  due = refl;
  no_token = refl;
  no_expiry = refl;
  attempts = refl;
  budget = refl;
  some_left = ground arith;
}

-- The job that a successful `resume_job` is about had failed or was cancelled; afterwards it is queued,
-- due now, unmarked and without a lease, its attempts and used budget are zero if they are reset and
-- as before otherwise, and then its attempts are below the maximum; and every other job is as before.
pub resume_job-Changed :
    (now : ℕ) (id actor team : String) (reset : Bool) (repo after : Repository)
    (result : QueueJobResult)
    → resume_job now id actor team reset repo ≡ ok (after, result)
    → Changed (Resumed now reset) id repo.queue after.queue
unfolding resumed_row
resume_job-Changed now id actor team reset repo after result h =
    let (row, loaded, can, left, end) =
      resume_job-row now id actor team reset repo (after, result) h in
    saved-Changed (Resumed now reset) id actor team repo after row (resumed_row now reset row)
      loaded refl (resumed_row-Resumed now reset row can left) end

saved-StoreValid :
    (repo after : Repository) (new : QueueRow)
    → RowValid new
    → StoreValid repo.queue
    → saved repo new ≡ after
    → StoreValid after.queue
saved-StoreValid repo after new r v end =
    subst (λ p. StoreValid p.queue) end (save-StoreValid new repo.queue r v)

-- A successful cancel keeps a valid table of jobs valid.
pub cancel-StoreValid :
    (now : ℕ) (id actor team : String) (repo after : Repository) (result : QueueJobResult)
    → StoreValid repo.queue
    → cancel_job now id actor team repo ≡ ok (after, result)
    → StoreValid after.queue
cancel-StoreValid now id actor team repo after result v h =
    let (row, loaded, open_status, end) = cancel_job-row now id actor team repo (after, result) h in
    saved-StoreValid repo after (cancelled_row now actor row)
      (cancelled-RowValid now actor row (loaded-RowValid repo id actor team row v loaded)) v end

-- A successful resume keeps a valid table of jobs valid.
pub resume-StoreValid :
    (now : ℕ) (id actor team : String) (reset : Bool) (repo after : Repository)
    (result : QueueJobResult)
    → StoreValid repo.queue
    → resume_job now id actor team reset repo ≡ ok (after, result)
    → StoreValid after.queue
resume-StoreValid now id actor team reset repo after result v h =
    let (row, loaded, can, left, end) =
      resume_job-row now id actor team reset repo (after, result) h in
    saved-StoreValid repo after (resumed_row now reset row) (resumed-RowValid now reset row) v end

-- A job that is cancelled while it runs, and whose lease then runs out, is queued again and is never
-- a candidate of a claim.
pub cancelled_running_job_stranded :
    (now later : ℕ) (actor : String) (r : QueueRow) (req : ClaimRequest)
    → r.job.status ≡ running
    → is_expired later r.job ≡ true
    → let left = requeue_row later (cancelled_row now actor r) in
      (left.job.status ≡ queued) × (is_candidate req left ≡ false)
unfolding cancelled_row requeued
cancelled_running_job_stranded now later actor r req runs expired = (ground arith, ground arith)
