-- ===== src/Queue/Enqueue/Methods.antt =====
-- The four `enqueue_` methods of `application/use_cases/manage_queue.py`.
use issue_to_pr_agent.Prelude.{
  ℕ, String, Bool, Option, none, some, List, [], ◌∷◌, map, filter, has_text, strip, format, show,
  or_else, Result, ◌>>=◌,
}
use issue_to_pr_agent.Domain.Json.{Dict, bool, str, arr, obj, nat, opt_str, strs, empty, entry}
use issue_to_pr_agent.Domain.Queue.{QueueJobType, plan}
use issue_to_pr_agent.Domain.Tenant.{PlatformPermission, operate_queue}
use issue_to_pr_agent.Queue.IssueNumber.{parse_external_issue_number}
use issue_to_pr_agent.Queue.Budget.{Settings}
use issue_to_pr_agent.Queue.Create.{QueueJobResult, clean_worker_tags}
use issue_to_pr_agent.Repository.{Repository, get_run}
use issue_to_pr_agent.Queue.Linked.{run_or_raise, resolve_run_record}
use issue_to_pr_agent.Queue.Enqueue.Common.{EnqueueOptions, enqueue, shared_parameters, output_text}

abbrev plan_parameters : Settings → String → Option String → Bool → EnqueueOptions → Dict → Dict
plan_parameters s provider objective create_branch o more = entry "repo_root" (str o.repo_root) (
    entry "provider" (str provider) (
      entry "objective" (str (or_else objective "")) (
        entry "create_branch" (bool create_branch) (
          entry "output_dir" (output_text s o) (
            entry "team" (str o.team) (
              entry "required_worker_tags" (arr (strs (clean_worker_tags o.required_worker_tags)))
                (entry "concurrency_key" (str (or_else o.concurrency_key "")) more)))))))

unfoldable pub enqueue_plan :
    Settings
    → ℕ
    → String
    → (repo_full_name : String) → (issue_number : ℕ) → (provider : String)
    → (objective : Option String) → (create_branch : Bool) → EnqueueOptions
    → Repository
    → Result (Repository × QueueJobResult)
unfolding enqueue
enqueue_plan s now id name number provider objective create_branch o =
    enqueue s now id
      (record {
        job_type = plan;
        permission = operate_queue;
        repo_full_name = name;
        issue_number = some number;
        provider = some provider;
        default_attempts = s.queue_max_attempts;
        summary = format ("Queued plan for " ∷ name ∷ "#" ∷ show number ∷ []);
        parameters = plan_parameters s provider objective create_branch o empty;
        linked_run_id = none;
        linked_execution_id = none;
        linked_verification_id = none;
      })
      o

pub record ExternalIssue : Type 0 where
  pub key : String
  pub title : String
  pub body : String
  pub labels : List String
  pub url : String
  pub source_system : String

abbrev external_json : ExternalIssue → Dict
external_json e =
    entry "external_issue"
      (obj (
        entry "system" (str e.source_system) (
          entry "key" (str e.key) (
            entry "title" (str e.title) (
              entry "body" (str e.body) (
                entry "labels" (arr (strs (map strip (filter has_text e.labels))))
                  (entry "url" (str e.url) empty)))))))
      empty

unfoldable pub enqueue_external_plan :
    Settings
    → ℕ
    → String
    → (repo_full_name : String) → ExternalIssue
    → (provider : String) → (objective : Option String) → (create_branch : Bool) → EnqueueOptions
    → Repository
    → Result (Repository × QueueJobResult)
unfolding enqueue
enqueue_external_plan s now id name issue provider objective create_branch o =
    enqueue s now id
      (record {
        job_type = plan;
        permission = operate_queue;
        repo_full_name = name;
        issue_number = some (parse_external_issue_number issue.key);
        provider = some provider;
        default_attempts = s.queue_max_attempts;
        summary =
            format ("Queued " ∷ issue.source_system ∷ " plan for " ∷ name ∷ " " ∷ issue.key ∷ []);
        parameters = plan_parameters s provider objective create_branch o (external_json issue);
        linked_run_id = none;
        linked_execution_id = none;
        linked_verification_id = none;
      })
      o

unfoldable pub enqueue_verify :
    Settings
    → ℕ
    → String
    → (run_id execution_id : Option String) → (verify_max_attempts timeout_seconds : ℕ)
    → EnqueueOptions
    → Repository
    → Result (Repository × QueueJobResult)
unfolding enqueue
enqueue_verify s now id run_id execution_id verify_max_attempts timeout_seconds o repo = do
  run ← resolve_run_record repo run_id execution_id
  enqueue s now id
      (record {
        job_type = QueueJobType.verify;
        permission = PlatformPermission.deliver;
        repo_full_name = run.repo_full_name;
        issue_number = some run.issue_number;
        provider = none;
        default_attempts = s.queue_max_attempts;
        summary = format ("Queued verification for " ∷ run.repo_full_name ∷ []);
        parameters = entry "repo_root" (str o.repo_root) (
            entry "output_dir" (output_text s o) (
              entry "verify_max_attempts" (nat verify_max_attempts)
                (entry "timeout_seconds" (nat timeout_seconds) (shared_parameters o))));
        linked_run_id = run_id;
        linked_execution_id = execution_id;
        linked_verification_id = none;
      })
      o repo

pub record DeliverArguments : Type 0 where
  pub run_id : String
  pub execution_id : String
  pub verification_id : String
  pub approval_id : Option String
  pub base_branch : Option String
  pub rollout_stage : Option String
  pub commit_message : Option String
  pub pr_title : Option String
  pub publish_pr_comment : Bool

unfoldable pub enqueue_deliver :
    Settings
    → ℕ
    → String
    → DeliverArguments
    → EnqueueOptions
    → Repository
    → Result (Repository × QueueJobResult)
unfolding enqueue
enqueue_deliver s now id d o repo = do
  run ← run_or_raise d.run_id (get_run d.run_id repo)
  enqueue s now id
      (record {
        job_type = QueueJobType.deliver;
        permission = operate_queue;
        repo_full_name = run.repo_full_name;
        issue_number = some run.issue_number;
        provider = none;
        default_attempts = 1;
        summary = format ("Queued delivery for " ∷ run.repo_full_name ∷ []);
        parameters = entry "approval_id" (opt_str d.approval_id) (
            entry "repo_root" (str o.repo_root) (
              entry "base_branch" (opt_str d.base_branch) (
                entry "rollout_stage" (opt_str d.rollout_stage) (
                  entry "commit_message" (opt_str d.commit_message) (
                    entry "pr_title" (opt_str d.pr_title) (
                      entry "publish_pr_comment" (bool d.publish_pr_comment)
                        (shared_parameters o)))))));
        linked_run_id = some d.run_id;
        linked_execution_id = some d.execution_id;
        linked_verification_id = some d.verification_id;
      })
      o repo
