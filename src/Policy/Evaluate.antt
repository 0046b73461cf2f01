-- ===== src/Policy/Evaluate.antt =====
-- `evaluate_delivery` of `application/services/approval_policy.py`.
use issue_to_pr_agent.Prelude.{
  ℕ, String, Bool, true, false, not, ◌&&◌, Option, none, some, List, [], ◌∷◌, ◌++◌, if◌then◌else◌,
  format, join, show, contains, strip, has_text, lower_text, ltb, leb, length, or_else,
}
use issue_to_pr_agent.Domain.Json.{Json, Dict, bool, obj, get, string_list, dict_value}
use issue_to_pr_agent.Domain.Approvals.{ApprovalRiskLevel, low, medium, high, critical, risk_title}
use issue_to_pr_agent.Queue.Create.{sorted_set}
use issue_to_pr_agent.Approval.Workflow.{no_strings}
use issue_to_pr_agent.Policy.Read.{item, is_true, int_value, lowercase_strings, matching_paths}

-- `_team_policy`, for one of its two permissions: it holds unless the team's object denies it.
unfoldable pub team_may : String → Dict → String → Bool
team_may permission policy team = allowed (get team (dict_value (get "teams" policy)))
  where
    allowed : Option Json → Bool
    allowed (some (obj d)) = is_true (or_else (get permission d) (bool true))
    allowed _ = true

abbrev pub list_at : String → Dict → List String
list_at key policy = string_list (get key policy)

-- The teams are listed, and this one is not among them.
abbrev pub is_left_out : String → List String → Bool
is_left_out name listed =
    not (no_strings (lowercase_strings listed))
    && not (contains (lowercase_strings listed) (lower_text name))

unfoldable pub reason_if : Bool → List String → List String
reason_if true parts = format parts ∷ []
reason_if false parts = []

-- `_evaluate_requester_permissions`, and the test that the request names a team.
unfoldable pub requester_reasons : Dict → Dict → Option String → List String
unfolding team_may
requester_reasons policy repo none = []
requester_reasons policy repo (some requester_team) =
    let team = strip requester_team in
    if not (has_text requester_team)
    then "Requester team is required by the approval policy." ∷ []
    else reason_if (not (team_may "can_request" policy team))
        ("Team '" ∷ team ∷ "' is not allowed to request delivery approvals." ∷ [])
      ++ reason_if (is_left_out team (list_at "allowed_requester_teams" repo))
          ("Team '" ∷ team ∷ "' is not allowed to request approvals for this repository." ∷ [])

-- What the payloads of a delivery show.
pub record Signals : Type 0 where
  pub changed_paths : List String
  pub blocked_labels : List String
  pub critical_labels : List String
  pub high_labels : List String
  pub command_decisions : List String
  pub attempts : ℕ
  pub skipped_commands : ℕ

abbrev pub risk_order : ApprovalRiskLevel → ℕ
risk_order low = 0
risk_order medium = 1
risk_order high = 2
risk_order critical = 3

-- `_max_risk`
abbrev pub max_risk : ApprovalRiskLevel → ApprovalRiskLevel → ApprovalRiskLevel
max_risk left right = if ltb (risk_order left) (risk_order right) then right else left

-- The two variables that the rules update.
pub record Assessment : Type 0 where
  pub risk_level : ApprovalRiskLevel
  pub reasons : List String

-- The body of a rule whose test holds.
abbrev pub raised : ApprovalRiskLevel → String → Assessment → Assessment
raised level reason a = record {
  risk_level = max_risk a.risk_level level;
  reasons = a.reasons ++ reason ∷ [];
}

unfoldable pub rule : Bool → ApprovalRiskLevel → String → Assessment → Assessment
rule test level reason a = if test then raised level reason a else a

-- A rule on a list of texts, which it names.
abbrev pub list_rule : List String → ApprovalRiskLevel → String → Assessment → Assessment
list_rule found level reason a =
    rule (not (no_strings found)) level (format (reason ∷ join ", " found ∷ [])) a

-- `if … elif …`
unfoldable pub two_rules :
    Bool → ApprovalRiskLevel → String → Bool → ApprovalRiskLevel → String → Assessment → Assessment
unfolding rule
two_rules first level reason second other_level other_reason a =
    if first then raised level reason a else rule second other_level other_reason a

abbrev pub file_reason : ℕ → String → String
file_reason files level = format (
    "Delivery touches "
    ∷ show files
    ∷ " files, exceeding the "
    ∷ level
    ∷ "-risk file threshold."
    ∷ [])

abbrev pub paths_at : String → Dict → Signals → List String
paths_at key repo s = sorted_set (matching_paths s.changed_paths (list_at key repo))

abbrev pub more_files_than : String → ℕ → Dict → Signals → Bool
more_files_than key default repo s =
    ltb (int_value (item key repo) default) (length s.changed_paths)

-- The rules on labels and paths.
abbrev pub assess_content : Dict → Signals → Assessment → Assessment
assess_content repo s a =
    list_rule (paths_at "high_risk_paths" repo s) high "High-risk delivery paths changed: " (
      list_rule (paths_at "critical_risk_paths" repo s) critical "Critical delivery paths changed: "
        (list_rule s.high_labels high "High-risk issue labels present: "
          (list_rule s.critical_labels critical "Critical issue labels present: " a)))

-- The rules on the number of files, on the commands and on the verification.
abbrev pub assess_process : Dict → Signals → Assessment → Assessment
assess_process repo s a =
    rule (ltb 0 s.skipped_commands) medium "Verification skipped one or more candidate commands." (
      rule (ltb 1 s.attempts) medium "Verification required multiple attempts." (
        two_rules (contains s.command_decisions "block") high
          "Planner proposed blocked commands that require human review before delivery."
          (contains s.command_decisions "review") medium
          "Planner proposed commands that were marked for manual review."
          (two_rules (more_files_than "max_medium_risk_changed_files" 6 repo s) high
            (file_reason (length s.changed_paths) "medium")
            (more_files_than "max_low_risk_changed_files" 2 repo s) medium
            (file_reason (length s.changed_paths) "low") a)))

unfoldable pub assess : Dict → Signals → Assessment
assess repo s =
    assess_process repo s (assess_content repo s (record { risk_level = low; reasons = [] }))

-- `_summary`
unfoldable pub evaluation_summary : ApprovalRiskLevel → ℕ → List String → ℕ → String
evaluation_summary risk required blocked files =
    if not (no_strings blocked)
    then "Delivery is blocked by approval policy."
    else if leb required 0
    then format ("Low-risk delivery is auto-approved for " ∷ show files ∷ " changed file(s)." ∷ [])
    else format (
        risk_title risk
        ∷ "-risk delivery requires "
        ∷ show required
        ∷ " approval(s) for "
        ∷ show files
        ∷ " changed file(s)."
        ∷ [])

abbrev pub blocked_reasons_of : Dict → Dict → Option String → Signals → List String
blocked_reasons_of policy repo team s =
    requester_reasons policy repo team
    ++ reason_if (not (no_strings s.blocked_labels))
        ("Repository policy blocks delivery for labels: " ∷ join ", " s.blocked_labels ∷ [])
