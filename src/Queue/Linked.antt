-- ===== src/Queue/Linked.antt =====
-- The runs that a job is linked to: `_resolve_run_record` of `application/use_cases/manage_queue.py`.
use issue_to_pr_agent.Prelude.{
  String, Option, none, some, [], ◌∷◌, if◌then◌else◌, format, is_empty, Result, ok, raise,
  value_error,
}
use issue_to_pr_agent.Domain.Json.{Dict}
use issue_to_pr_agent.Domain.Runs.{RunRecord, PatchExecutionRecord}
use issue_to_pr_agent.Repository.{Repository, get_run, get_execution}

unfoldable pub run_or_raise : String → Option (RunRecord × Dict) → Result RunRecord
run_or_raise id none = raise value_error (format ("Run not found: " ∷ id ∷ []))
run_or_raise id (some (r, _)) = ok r

-- `_resolve_run_record`
abbrev present : Option String → Option String
present none = none
present (some s) = if is_empty s then none else some s

linked_run : Repository → String → Option String → Result RunRecord
linked_run repo execution_id none =
    raise value_error
      (format ("Execution " ∷ execution_id ∷ " is not linked to a planning run." ∷ []))
linked_run repo execution_id (some run_id) = run_or_raise run_id (get_run run_id repo)

run_of_execution : Repository → String → Option (PatchExecutionRecord × Dict) → Result RunRecord
unfolding linked_run
run_of_execution repo id none = raise value_error (format ("Execution not found: " ∷ id ∷ []))
run_of_execution repo id (some (e, _)) = linked_run repo id (present e.linked_run_id)

resolve_present : Repository → Option String → Option String → Result RunRecord
unfolding run_of_execution
resolve_present repo (some run_id) execution_id = run_or_raise run_id (get_run run_id repo)
resolve_present repo none (some id) = run_of_execution repo id (get_execution id repo)
resolve_present repo none none = raise value_error "Either run_id or execution_id is required."

unfoldable pub resolve_run_record : Repository → Option String → Option String → Result RunRecord
unfolding resolve_present
resolve_run_record repo run_id execution_id =
    resolve_present repo (present run_id) (present execution_id)
