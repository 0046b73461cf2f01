-- ===== src/Queue/Create.antt =====
-- `_create_job` of `application/use_cases/manage_queue.py`, and the cleaning of its arguments.
use Prim.Native.String.{compare}
use text.Mathlib.Text.{is_lt}
use issue_to_pr_agent.Prelude.{
  ℕ, String, false, ◌==◌, Option, none, some, List, [], ◌∷◌, ◌++◌, map, if◌then◌else◌, filter,
  has_text, strip, format, ℤ,
}
use issue_to_pr_agent.Domain.Json.{
  Json, Dict, null, bool, num, str, time, arr, obj, nat, opt_str, strs, empty, entry,
}
use issue_to_pr_agent.Domain.Queue.{
  FilePath, QueueJobType, QueueJobStatus, queued, QueueJobRecord, status_value, type_value,
}
use issue_to_pr_agent.Queue.Store.{QueueStore, save_queue_job, write_json}
use issue_to_pr_agent.Queue.Budget.{Settings}

-- `sorted({…})`: each text once, by code points.
insert_tag : String → List String → List String
insert_tag t [] = t ∷ []
insert_tag t (x ∷ xs) =
    let rest = insert_tag t xs in
    if t == x then x ∷ xs else if is_lt (compare t x) then t ∷ x ∷ xs else x ∷ rest

unfoldable pub sorted_set : List String → List String
unfolding insert_tag
sorted_set [] = []
sorted_set (t ∷ ts) = insert_tag t (sorted_set ts)

unfoldable pub clean_worker_tags : List String → List String
unfolding sorted_set
clean_worker_tags tags = sorted_set (map strip (filter has_text tags))

-- `key.strip() if key.strip() else None`
unfoldable pub clean_key : Option String → Option String
clean_key none = none
clean_key (some key) = if has_text key then some (strip key) else none

pub record NewJob : Type 0 where
  pub job_type : QueueJobType
  pub repo_full_name : String
  pub issue_number : Option ℕ
  pub requested_by : String
  pub tenant_id : Option String
  pub priority : ℤ
  pub max_attempts : ℕ
  pub budget_units : ℕ
  pub summary : String
  pub parameters : Dict
  pub linked_run_id : Option String
  pub linked_execution_id : Option String
  pub linked_verification_id : Option String
  pub required_worker_tags : List String
  pub concurrency_key : Option String

pub record QueueJobResult : Type 0 where
  pub job_id : String
  pub status : QueueJobStatus
  pub receipt_path : FilePath

abbrev opt_nat : Option ℕ → Json
opt_nat none = null
opt_nat (some n) = nat n

abbrev pub job_receipt_path : Settings → String → FilePath
job_receipt_path s id = s.artifact_dir ++ ("queue" ∷ "jobs" ∷ format (id ∷ ".json" ∷ []) ∷ [])

-- `record`, for the instant and the identifier that the call draws.
unfoldable pub new_record : Settings → ℕ → String → NewJob → QueueJobRecord
new_record s now id new = record {
  job_id = id;
  created_at = now;
  updated_at = now;
  job_type = new.job_type;
  status = queued;
  repo_full_name = new.repo_full_name;
  issue_number = new.issue_number;
  priority = new.priority;
  requested_by = some new.requested_by;
  tenant_id = new.tenant_id;
  worker_id = none;
  attempt_count = 0;
  max_attempts = new.max_attempts;
  budget_units = new.budget_units;
  budget_used = 0;
  next_run_at = now;
  summary = new.summary;
  receipt_path = job_receipt_path s id;
  linked_run_id = new.linked_run_id;
  linked_execution_id = new.linked_execution_id;
  linked_verification_id = new.linked_verification_id;
  concurrency_key = clean_key new.concurrency_key;
  required_worker_tags = clean_worker_tags new.required_worker_tags;
  lease_token = none;
  lease_expires_at = none;
  rehydration_count = 0;
  cancel_requested = false;
  error_message = none;
}

-- `payload`; the receipt path is given as the text that `str` makes of it.
unfoldable pub new_payload : QueueJobRecord → String → Dict → Dict
new_payload job receipt_text parameters = entry "job_id" (str job.job_id) (
    entry "created_at" (time job.created_at) (
      entry "updated_at" (time job.updated_at) (
        entry "job_type" (str (type_value job.job_type)) (
          entry "status" (str (status_value job.status)) (
            entry "repo_full_name" (str job.repo_full_name) (
              entry "issue_number" (opt_nat job.issue_number) (
                entry "priority" (num job.priority) (
                  entry "requested_by" (opt_str job.requested_by)
                    (entry "tenant_id" (opt_str job.tenant_id) rest)))))))))
  where
    ending : Dict
    ending = entry "lease_token" null (
        entry "lease_expires_at" null (
          entry "rehydration_count" (nat 0) (
            entry "cancel_requested" (bool false)
              (entry "error_message" null (entry "parameters" (obj parameters) empty)))))

    links : Dict
    links = entry "linked_run_id" (opt_str job.linked_run_id) (
        entry "linked_execution_id" (opt_str job.linked_execution_id) (
          entry "linked_verification_id" (opt_str job.linked_verification_id) (
            entry "concurrency_key" (opt_str job.concurrency_key)
              (entry "required_worker_tags" (arr (strs job.required_worker_tags)) ending))))

    rest : Dict
    rest = entry "worker_id" null (
        entry "attempt_count" (nat 0) (
          entry "max_attempts" (nat job.max_attempts) (
            entry "budget_units" (nat job.budget_units) (
              entry "budget_used" (nat 0) (
                entry "next_run_at" (time job.next_run_at) (
                  entry "summary" (str job.summary)
                    (entry "receipt_path" (str receipt_text) links)))))))

-- `str(path)`
abbrev pub path_text : FilePath → String
path_text [] = ""
path_text (part ∷ []) = part
path_text (part ∷ next ∷ rest) = format (part ∷ "/" ∷ path_text (next ∷ rest) ∷ [])

unfoldable pub create_job :
    Settings → ℕ → String → NewJob → QueueStore → QueueStore × QueueJobResult
unfolding new_record new_payload
create_job s now id new store =
    let job = new_record s now id new in
    let payload = new_payload job (path_text job.receipt_path) new.parameters in
    (
      save_queue_job job payload (write_json job.receipt_path payload store),
      record { job_id = id; status = job.status; receipt_path = job.receipt_path },
    )
