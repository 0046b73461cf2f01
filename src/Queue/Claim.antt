-- ===== src/Queue/Claim.antt =====
-- `claim_next_queue_job` and `_select_claimable_queue_job` of
-- `infrastructure/persistence/run_repository.py`: one transaction, `BEGIN IMMEDIATE` to `commit`.
use issue_to_pr_agent.Prelude.{
  ℕ, suc, ◌+◌, ◌*◌, String, Bool, true, false, not, ◌&&◌, ◌||◌, Option, none, some, List, [], ◌∷◌,
  map, leb, ltb, eqb, if◌then◌else◌, filter, any, all, take, contains, ltb_ℤ, eqb_ℤ, is_empty,
  strip, has_text, count, is_some,
}
use issue_to_pr_agent.Domain.Json.{str, time, nat, opt_str, arr, strs, put}
use issue_to_pr_agent.Domain.Queue.{
  QueueJobType, QueueJobRecord, running, is_queued, is_running, same_type, status_value,
}
use issue_to_pr_agent.Queue.Store.{
  QueueRow, QueueStore, has_id, count_running_jobs, requeue_expired,
}

-- The keyword arguments, with the lease token that `uuid4` draws. An absent list is empty.
pub record ClaimRequest : Type 0 where
  pub worker_id : String
  pub now : ℕ
  pub lease_token : String
  pub allowed_types : List QueueJobType
  pub worker_tags : List String
  pub lease_seconds : ℕ
  pub max_running_jobs_per_worker : ℕ
  pub max_running_jobs_per_tenant : ℕ
  pub candidate_scan_limit : ℕ

abbrev pub type_in : List QueueJobType → QueueJobType → Bool
type_in [] t = true
type_in (a ∷ rest) t = any (same_type t) (a ∷ rest)

-- The WHERE clause.
abbrev pub is_candidate : ClaimRequest → QueueRow → Bool
is_candidate req r =
    is_queued r.job.status
    && (not r.job.cancel_requested
        && (leb r.job.next_run_at req.now && type_in req.allowed_types r.job.job_type))

-- ORDER BY priority DESC, created_at ASC: `a` may stand before `b`.
abbrev pub in_order : QueueRow → QueueRow → Bool
in_order a b =
    ltb_ℤ b.job.priority a.job.priority
    || (eqb_ℤ a.job.priority b.job.priority && leb a.job.created_at b.job.created_at)

unfoldable pub insert_in_order : QueueRow → List QueueRow → List QueueRow
insert_in_order r [] = r ∷ []
insert_in_order r (x ∷ xs) = if in_order r x then r ∷ x ∷ xs else x ∷ insert_in_order r xs

unfoldable pub order_by : List QueueRow → List QueueRow
unfolding insert_in_order
order_by [] = []
order_by (r ∷ rs) = insert_in_order r (order_by rs)

-- What the query returns: the candidates in order, cut to the scan limit.
unfoldable pub candidates : ClaimRequest → List QueueRow → List QueueRow
unfolding order_by
candidates req rows = take req.candidate_scan_limit (order_by (filter (is_candidate req) rows))

-- `bool(text)` of an optional text.
abbrev pub is_set : Option String → Bool
is_set none = false
is_set (some s) = not (is_empty s)

-- `running_by_tenant.get(tenant_id or "", 0)`. NULL and the empty text share the key "", and the
-- group of the empty text, if there is one, is written last.
unfoldable pub tenant_running : Option String → List QueueRow → ℕ
tenant_running tenant rows =
    if is_set tenant
    then count_running_jobs tenant none none rows
    else (let blank = count_running_jobs (some "") none none rows in
        if eqb blank 0
        then count (λ r. is_running r.job.status && not (is_some r.job.tenant_id)) rows
        else blank)

-- The three tests of the loop that `continue`.
abbrev pub tags_fit : ClaimRequest → QueueJobRecord → Bool
tags_fit req job =
    all (contains (map strip (filter has_text req.worker_tags)))
      (filter has_text job.required_worker_tags)

abbrev pub key_is_free : List QueueRow → QueueJobRecord → Bool
key_is_free rows job =
    not (is_set job.concurrency_key)
    || eqb (count_running_jobs none none job.concurrency_key rows) 0

abbrev pub tenant_has_room : ClaimRequest → List QueueRow → QueueJobRecord → Bool
tenant_has_room req rows job =
    not (is_set job.tenant_id)
    || (eqb req.max_running_jobs_per_tenant 0
        || ltb (tenant_running job.tenant_id rows) req.max_running_jobs_per_tenant)

-- The body of the loop reaches the comparison for this row.
unfoldable pub is_eligible : ClaimRequest → List QueueRow → QueueRow → Bool
is_eligible req rows r =
    tags_fit req r.job && (key_is_free rows r.job && tenant_has_room req rows r.job)

-- `fairness_key(a) < fairness_key(b)` for (-priority, tenant_running, created_at).
unfoldable pub is_fairer : List QueueRow → QueueRow → QueueRow → Bool
is_fairer rows a b =
    let running_a = tenant_running a.job.tenant_id rows in
    let running_b = tenant_running b.job.tenant_id rows in
    ltb_ℤ b.job.priority a.job.priority
    || (eqb_ℤ a.job.priority b.job.priority
        && (ltb running_a running_b
            || (eqb running_a running_b && ltb a.job.created_at b.job.created_at)))

unfoldable pub take_fairer : List QueueRow → Option QueueRow → QueueRow → Option QueueRow
take_fairer rows none r = some r
take_fairer rows (some best) r = if is_fairer rows r best then some r else some best

-- The loop over the fetched rows; `selected` is its variable.
unfoldable pub scan :
    ClaimRequest → List QueueRow → Option QueueRow → List QueueRow → Option QueueRow
scan req rows selected [] = selected
scan req rows selected (r ∷ rest) =
    scan req rows (if is_eligible req rows r then take_fairer rows selected r else selected) rest

unfoldable pub select_claimable : ClaimRequest → List QueueRow → Option QueueRow
select_claimable req rows = scan req rows none (candidates req rows)

-- A second has a million microseconds.
abbrev pub after_seconds : ℕ → ℕ → ℕ
after_seconds now seconds = now + seconds * 1000000

-- `updated_record` and `updated_payload`.
unfoldable pub claimed : ClaimRequest → QueueRow → QueueRow
claimed req r = record {
  job = record job {
    updated_at = req.now;
    status = running;
    worker_id = some req.worker_id;
    attempt_count = suc job.attempt_count;
    lease_token = some req.lease_token;
    lease_expires_at = some (after_seconds req.now req.lease_seconds);
    error_message = none;
  };
  payload = put "concurrency_key" (opt_str job.concurrency_key) (
      put "required_worker_tags" (arr (strs job.required_worker_tags)) (
        put "lease_expires_at" (time (after_seconds req.now req.lease_seconds)) (
          put "lease_token" (str req.lease_token) (
            put "updated_at" (time req.now) (
              put "attempt_count" (nat (suc job.attempt_count)) (
                put "worker_id" (str req.worker_id)
                  (put "status" (str (status_value running)) r.payload)))))));
}
  where
    open r use {job}

-- `UPDATE … WHERE job_id = ?` by the primary key.
unfoldable pub update_row : QueueRow → List QueueRow → List QueueRow
update_row new rows = map (λ r. if has_id new.job.job_id r then new else r) rows

abbrev pub worker_is_full : ClaimRequest → List QueueRow → Bool
worker_is_full req rows =
    ltb 0 req.max_running_jobs_per_worker
    && leb req.max_running_jobs_per_worker (count_running_jobs none (some req.worker_id) none rows)

unfoldable pub claim_selected :
    ClaimRequest → List QueueRow → Option QueueRow → List QueueRow × Option QueueRow
claim_selected req rows none = (rows, none)
claim_selected req rows (some r) = (update_row (claimed req r) rows, some (claimed req r))

-- The transaction on the rows.
unfoldable pub claim : ClaimRequest → List QueueRow → List QueueRow × Option QueueRow
claim req before =
    let rows = (requeue_expired req.now before).0 in
    if worker_is_full req rows
    then (rows, none)
    else claim_selected req rows (select_claimable req rows)

unfoldable pub claim_next_queue_job : ClaimRequest → QueueStore → QueueStore × Option QueueRow
claim_next_queue_job req store =
    let (rows, selected) = claim req store.jobs in (record store { jobs = rows }, selected)
