-- ===== src/Lib.antt =====
-- A model of issue-to-pr-agent, a service that turns issues into pull requests: it plans an issue,
-- verifies the patch and delivers it, as jobs of a queue that workers claim, on behalf of tenants
-- whose members have roles. Paths are from src/issue_to_pr_agent.
--
-- The parts and how they interact. An operator enqueues a job
-- (application/use_cases/manage_queue.py): the tenant's access rules
-- (application/services/tenant_access.py) and the budget (application/services/queue_budget.py)
-- admit it, and it is stored in the tables (infrastructure/persistence/run_repository.py). A worker
-- (application/use_cases/process_queue.py) requeues the jobs whose leases ran out, claims the
-- fairest one within the limits, works on it and writes how it ended. An operator can cancel or
-- resume a job meanwhile. Before a delivery, somebody requests an approval and reviewers decide on
-- it (application/use_cases/manage_approval.py), as the approval policy says
-- (application/services/approval_policy.py); a second policy
-- (application/services/delivery_governance.py) says what may be delivered at all. The patch that
-- is delivered was carried out before (application/use_cases/execute_patch_proposal.py), within the
-- guard rails of domain/policies/workspace.py, by infrastructure/workspace/mutator.py.
--
-- Prelude: tests on the native ℕ, lists, texts, integers, `Result` for Python's exceptions
--   (shared/exceptions.py), and `fnmatch` and parts of `pathlib` of Python's standard library.
-- Domain.Json: `dict[str, object]`, the payload of a row. Domain.Queue, Domain.Tenant, Domain.Runs:
--   the enumerations and dataclasses of domain/entities.py.
-- Repository: all tables together; `get_run`, `get_execution`, `get_verification`.
-- Tenant.Store: `tenants` and `tenant_memberships`. Tenant.Access: `TenantAccessController`, its
--   checks of actors, and Tenant.Principal: those of authenticated principals.
-- Tenant.Authorization: who passes its checks.
-- Queue.Store: `save_queue_job`, `get_queue_job`, `count_queue_jobs`, the requeuing of expired
--   leases, attempts, heartbeats and receipt files. Queue.Claim: `claim_next_queue_job` and
--   `_select_claimable_queue_job`.
-- Queue.Budget: `QueueBudgetManager`. Queue.Create: `_create_job`. Queue.IssueNumber: the number in
--   an external key. Queue.Enqueue: the four `enqueue_` methods, by one function for the statements
--   that they share, and Queue.Linked: the run of a job. Queue.Manage: `cancel_job` and
--   `resume_job`.
-- Queue.Process: the `try` block of `_process_job`, with `_dispatch_job` as an argument that may
--   change every table. Queue.Finish: what `_process_job` and `_finalize_cancelled` write.
--   Queue.Worker: `process`, the run of a worker.
-- Queue.Rows, Queue.Select, Queue.Limits: a row of a table, the selection, the limits of a claim.
-- Queue.Invariant, Queue.Preserve: what every row keeps, and that the operations keep it.
-- Queue.Admission, Queue.Control, Queue.Ends, Queue.Outcome, Queue.Retry,
--   Queue.Spending, Queue.Runs, Queue.Trace, Queue.Counts: enqueuing, cancelling and resuming, the
--   end of a job, what waits after it and its budget, a whole run, its events and its counters.
-- Safety.Commands: `SafetyPolicy` of domain/policies/safety.py. Safety.Allowed: what it lets pass.
-- Verification.Commands: the candidates without repeats (application/services/
--   verification_strategy.py) and the reflection on a result (verification_reflection.py beside
--   it). Verification.Attempts: `verify` of application/use_cases/verify_run.py from the resolved
--   candidates on, with the command runner as an argument. Verification.Tally,
--   Verification.Verdict, Verification.Dedupe: what a verification runs and what its outcome means.
-- Domain.Approvals: the approvals' part of domain/entities.py. Approval.Payload: `_receipt_payload`
--   and what is read of it. Approval.Context: `_load_delivery_context`, and the policy as a record
--   of operations with the laws that the workflow relies on. Approval.Workflow:
--   `request_delivery_approval` and `decide`. Approval.RoundTrip, Approval.Rests, Approval.Decided,
--   Approval.Legit, Approval.Guarantee: a payload read back, the decisions that an approval rests
--   on, when a decision goes through, the table after any steps, what follows for readers.
-- Policy.Load: `_merge_dicts`, `_load_policy` and `_repo_policy`. Policy.Read, Policy.Evaluate,
--   Policy.Evaluator: `ApprovalPolicyEvaluator`, which fills the record of Approval.Context.
--   Policy.Governance, Policy.GovernanceEvaluator: `DeliveryGovernancePolicyEvaluator`, with the
--   same loading of policies; Policy.Gates: what it lets pass. Policy.Merge, Policy.Complete,
--   Policy.Lawful, Policy.Risk, Policy.Directories, Policy.Delivered: merged policies, their keys,
--   the laws, the level of risk, the rules on directories.
-- Domain.Patches: the patches' part of domain/entities.py. Patch.Files: what stands at the paths of
--   a working tree. Patch.Guardrails: `WorkspaceGuardrails`. Patch.Mutator:
--   `LocalWorkspaceMutator`. Patch.Execute: the loop of `execute`, and Patch.Record: its receipt
--   and record. Patch.Effects, Patch.Outcome: what an execution does to the tree. Patch.Replace:
--   what a replacement does.
-- Queue.Samples, Approval.Samples and the modules Examples: the theorems at concrete data.
--
-- How the code is read. A method that runs in one transaction is a function on the tables, and a
-- table is the list of its rows in the order of insertion; INSERT OR REPLACE removes and appends,
-- and rows that tie in an ORDER BY keep the order of the table. The columns of a row and its
-- payload are kept apart, as they are in the database, and a payload is always an object, as all
-- writers make it. A method raises by returning an error. The clock, `uuid4` and the shutdown flag
-- are arguments. A timestamp is its number of microseconds, and `isoformat` in UTC orders texts as
-- instants. Numbers are natural, so negative attempts, budgets, limits and settings are left out; a
-- priority is an integer. Digits are those of ASCII. A path is the list of its parts, and the text
-- that `Path.resolve` gives is an argument. Calls of the trace recorder, the notification outbox
-- and the alert manager are events, which cannot fail. The logger is left out, and writing a file
-- cannot fail. In the safety policy `str.lower` names the characters whose lower case has a letter
-- of ASCII; in the approval policy it changes the letters of ASCII only. A text in a payload that
-- an approval reads (an actor, a team, a comment) is a text or missing, and a Boolean where a
-- policy wants a number is 0 or 1. A set of texts is a list of which only the members matter, and
-- `sorted` lists each member once. What `json.loads` makes of a policy file is an argument. The
-- file system of the patch executor is a table of what stands at each resolved path, a text, a
-- binary file or a directory, and the executor's receipt is written into it; the receipts of jobs,
-- attempts, heartbeats and approvals are a list of what was written. Reading and writing keep the
-- ends of lines, and the directories that a write creates are not entered. `Path.resolve`,
-- `is_symlink`, the digest and the size of a text, and the texts of `json.dumps` and `isoformat`
-- are arguments.
--
-- Bounds. The run of a worker is a recursion on the number of rounds, which is `max_jobs` and is
-- never exceeded by the `for` loop. `fnmatch` recurses on the pattern with its length as fuel, and
-- each step takes a character off; `text.count` recurses on the length of the text, and each
-- occurrence takes a character off; `show` has the number and one more as fuel, and each step
-- divides it by ten.
--
-- Not modelled: the planning and delivery that a job does, how a verification finds its candidates
-- and saves its record, the generation of patches, sandboxes, identity synchronisation, retention,
-- metrics, the reading of settings, and the clients of services, the HTTP application and the
-- command line around the use cases.
pub mod Prelude
pub mod Domain
pub mod Queue
pub mod Tenant
pub mod Repository
pub mod Safety
pub mod Verification
pub mod Approval
pub mod Policy
pub mod Patch
