-- ===== src/Queue/Admission.antt =====
-- What `application/services/queue_budget.py` admits, and how `application/use_cases/manage_queue.py`
-- stores what is admitted.
use issue_to_pr_agent.Prelude.{
  ℕ, suc, ◌≡◌, ◌<◌, ◌≤◌, refl, String, Option, none, some, [], ◌∷◌, arith, ok, ok_parts,
  ok_injective, subst, sym, ◌&&◌,
}
use issue_to_pr_agent.Domain.Queue.{queued, running}
use issue_to_pr_agent.Queue.Store.{
  QueueRow, QueueStore, get_queue_job, save_queue_job, write_json, count_queue_jobs, status_in,
  column_is,
}
use issue_to_pr_agent.Queue.Rows.{count-insert_or_replace-le, one_if}
use issue_to_pr_agent.Queue.Budget.{
  Settings, pending, ensure_can_enqueue, ensure_tenant_can_enqueue,
}
use issue_to_pr_agent.Queue.Create.{
  NewJob, QueueJobResult, new_record, new_payload, path_text, create_job,
}
use issue_to_pr_agent.Queue.Enqueue.{EnqueueOptions, JobDraft, enqueue, nat_or}
use issue_to_pr_agent.Tenant.Access.{require_repo_permission}
use issue_to_pr_agent.Queue.Preserve.{save-find}
use issue_to_pr_agent.Repository.{Repository}

-- There is room for one more pending job, of all tenants and of the job's own.
abbrev pub TenantRoom : Settings → QueueStore → Option String → Type 0
TenantRoom s store none = Unit
TenantRoom s store (some tenant) =
    pending (some tenant) store < s.budget_max_pending_jobs_per_tenant

pub record HasRoom (s : Settings) (store : QueueStore) (tenant : Option String) (units : ℕ)
    : Type 0 where
  pub some_units : 0 < units
  pub few_units : units ≤ s.budget_max_units_per_job
  pub room : pending none store < s.budget_max_pending_jobs
  pub tenant_room : TenantRoom s store tenant

admits-HasRoom :
    (s : Settings) (store : QueueStore) (tenant : Option String) (units : ℕ)
    → ensure_can_enqueue s store tenant units ≡ ok tt
    → HasRoom s store tenant units
unfolding ensure_can_enqueue ensure_tenant_can_enqueue
admits-HasRoom s store none units h = record {
  some_units = ground arith;
  few_units = ground arith;
  room = ground arith;
  tenant_room = tt;
}
admits-HasRoom s store (some tenant) units h = record {
  some_units = ground arith;
  few_units = ground arith;
  room = ground arith;
  tenant_room = ground arith;
}

HasRoom-admits :
    (s : Settings) (store : QueueStore) (tenant : Option String) (units : ℕ)
    → HasRoom s store tenant units
    → ensure_can_enqueue s store tenant units ≡ ok tt
unfolding ensure_can_enqueue ensure_tenant_can_enqueue
HasRoom-admits s store none units r = ground (arith, r.some_units, r.few_units, r.room)
HasRoom-admits s store (some tenant) units r =
    ground (arith, r.some_units, r.few_units, r.room, r.tenant_room)

-- A job is admitted exactly when its units are more than none and within the limit of a job, and
-- the pending jobs of all tenants, and of the job's tenant if it has one, are below their limits.
pub ensure_can_enqueue_iff :
    (s : Settings) (store : QueueStore) (tenant : Option String) (units : ℕ)
    → (ensure_can_enqueue s store tenant units ≡ ok tt → HasRoom s store tenant units)
      × (HasRoom s store tenant units → ensure_can_enqueue s store tenant units ≡ ok tt)
ensure_can_enqueue_iff s store tenant units =
    (admits-HasRoom s store tenant units, HasRoom-admits s store tenant units)

save-pending :
    (tenant : Option String) (row : QueueRow) (store : QueueStore)
    → pending tenant (save_queue_job row.job row.payload store) ≤ suc (pending tenant store)
unfolding save_queue_job count_queue_jobs one_if
save-pending tenant row store = ground (
  arith,
  count-insert_or_replace-le
      (λ r. status_in (queued ∷ running ∷ []) r.job.status && column_is tenant r.job.tenant_id) row
      store.jobs,
)

create-pending :
    (s : Settings) (now : ℕ) (id : String) (new : NewJob) (tenant : Option String)
    (store : QueueStore)
    → pending tenant (create_job s now id new store).0 ≤ suc (pending tenant store)
unfolding create_job write_json count_queue_jobs
create-pending s now id new tenant store = save-pending tenant _ _

create-find :
    (s : Settings) (now : ℕ) (id : String) (new : NewJob) (store : QueueStore)
    → (row : QueueRow) × (get_queue_job id (create_job s now id new store).0 ≡ some row)
      × (row.job ≡ new_record s now id new)
unfolding create_job new_record
create-find s now id new store =
    let job = new_record s now id new in
    let row : QueueRow = record {
      job = job;
      payload = new_payload job (path_text job.receipt_path) new.parameters;
    } in
    (row, save-find id row (write_json job.receipt_path row.payload store) refl, refl)

-- What `enqueue` leaves when it admits a job.
pub record Admitted (s : Settings) (now : ℕ) (id : String) (d : JobDraft) (o : EnqueueOptions)
    (after : QueueStore) (result : QueueJobResult) : Type 0 where
  pub bounded : pending none after ≤ s.budget_max_pending_jobs
  pub row : QueueRow
  pub stored : get_queue_job id after ≡ some row
  pub status : row.job.status ≡ queued
  pub told : (result.job_id ≡ id) × (result.status ≡ queued)
  pub due : row.job.next_run_at ≡ now
  pub fresh : (row.job.attempt_count ≡ 0) × (row.job.budget_used ≡ 0) × (row.job.lease_token ≡ none)
  pub attempts : row.job.max_attempts ≡ nat_or o.max_attempts d.default_attempts
  pub units : (0 < row.job.budget_units) × (row.job.budget_units ≤ s.budget_max_units_per_job)
  pub by : row.job.requested_by ≡ some o.actor

created-Admitted :
    (s : Settings) (now : ℕ) (id : String) (d : JobDraft) (o : EnqueueOptions) (new : NewJob)
    (tenant : Option String) (store : QueueStore)
    → HasRoom s store tenant new.budget_units
    → new.max_attempts ≡ nat_or o.max_attempts d.default_attempts
    → new.requested_by ≡ o.actor
    → Admitted s now id d o (create_job s now id new store).0 (create_job s now id new store).1
unfolding create_job new_record
created-Admitted s now id d o new tenant store room attempts by =
    let (row, there, is) = create-find s now id new store in
    record {
      bounded = ground (arith, create-pending s now id new none store, room.room);
      row = row;
      stored = there;
      status = simp is;
      told = (refl, refl);
      due = simp is;
      fresh = (simp is, simp is, simp is);
      attempts = simp (is, attempts);
      units = (
        subst (λ j. 0 < j.budget_units) (sym is) room.some_units,
        subst (λ j. j.budget_units ≤ s.budget_max_units_per_job) (sym is) room.few_units,
      );
      by = simp (is, by);
    }

-- An enqueue that succeeds stores a queued job under the identifier that it returns: due at once,
-- with no attempt, no budget used and no lease, with the attempts that were asked for or the default
-- ones, units within the limit of a job, and the actor as its requester; and the pending jobs are
-- then within their limit.
pub enqueue-Admitted :
    (s : Settings) (now : ℕ) (id : String) (d : JobDraft) (o : EnqueueOptions)
    (repo after : Repository) (result : QueueJobResult)
    → enqueue s now id d o repo ≡ ok (after, result)
    → Admitted s now id d o after.queue result
unfolding enqueue
enqueue-Admitted s now id d o repo after result h =
    let (tenant, allowed, rest) = ok_parts (require_repo_permission repo.tenancy _ _ _ _) _ h in
    let (done, room, end) = ok_parts (ensure_can_enqueue s repo.queue _ _) _ rest in
    subst (λ p. Admitted s now id d o p.0.queue p.1) (ok_injective end)
      (created-Admitted s now id d o _ _ repo.queue (admits-HasRoom s repo.queue _ _ room) refl
        refl)
