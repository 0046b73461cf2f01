-- ===== src/Policy/Risk.antt =====
-- The risk of a delivery in `application/services/approval_policy.py`.
use issue_to_pr_agent.Prelude.{
  ◌≡◌, refl, ◌∙◌, ap, String, Bool, true, false, not, ◌||◌, List, ltb, contains,
}
use issue_to_pr_agent.Domain.Json.{Dict}
use issue_to_pr_agent.Domain.Approvals.{ApprovalRiskLevel, low, medium, high, critical}
use issue_to_pr_agent.Approval.Workflow.{no_strings}
use issue_to_pr_agent.Policy.Evaluate.{
  Signals, Assessment, rule, two_rules, max_risk, paths_at, more_files_than, assess,
}

-- The level of the worst signal, for whether there are critical, high and medium ones.
abbrev pub worst : Bool → Bool → Bool → ApprovalRiskLevel
worst true h m = critical
worst false true m = high
worst false false true = medium
worst false false false = low

abbrev pub has_strings : List String → Bool
has_strings items = not (no_strings items)

abbrev pub critical_signal : Dict → Signals → Bool
critical_signal repo s =
    has_strings s.critical_labels || has_strings (paths_at "critical_risk_paths" repo s)

abbrev pub high_signal : Dict → Signals → Bool
high_signal repo s =
    ((has_strings s.high_labels || has_strings (paths_at "high_risk_paths" repo s))
      || more_files_than "max_medium_risk_changed_files" 6 repo s)
    || contains s.command_decisions "block"

abbrev pub medium_signal : Dict → Signals → Bool
medium_signal repo s =
    ((more_files_than "max_low_risk_changed_files" 2 repo s
        || contains s.command_decisions "review")
      || ltb 1 s.attempts)
    || ltb 0 s.skipped_commands

-- The assessment stands at the worst of the signals that have been read.
abbrev At : Assessment → Bool → Bool → Bool → Type 0
At a c h m = a.risk_level ≡ worst c h m

max-critical : (c h m : Bool) → max_risk (worst c h m) critical ≡ worst (c || true) h m
max-critical true h m = refl
max-critical false true m = refl
max-critical false false true = refl
max-critical false false false = refl

max-high : (c h m : Bool) → max_risk (worst c h m) high ≡ worst c (h || true) m
max-high true h m = refl
max-high false true m = refl
max-high false false true = refl
max-high false false false = refl

max-medium : (c h m : Bool) → max_risk (worst c h m) medium ≡ worst c h (m || true)
max-medium true h m = refl
max-medium false true m = refl
max-medium false false true = refl
max-medium false false false = refl

or_false : (b : Bool) → b || false ≡ b
or_false true = refl
or_false false = refl

critical-At :
    (test : Bool) (reason : String) (a : Assessment) (c h m : Bool)
    → At a c h m
    → At (rule test critical reason a) (c || test) h m
unfolding rule
critical-At true reason a c h m at = ap (λ l. max_risk l critical) at ∙ max-critical c h m
critical-At false reason a c h m at = rw (or_false c) at

high-At :
    (test : Bool) (reason : String) (a : Assessment) (c h m : Bool)
    → At a c h m
    → At (rule test high reason a) c (h || test) m
unfolding rule
high-At true reason a c h m at = ap (λ l. max_risk l high) at ∙ max-high c h m
high-At false reason a c h m at = rw (or_false h) at

medium-At :
    (test : Bool) (reason : String) (a : Assessment) (c h m : Bool)
    → At a c h m
    → At (rule test medium reason a) c h (m || test)
unfolding rule
medium-At true reason a c h m at = ap (λ l. max_risk l medium) at ∙ max-medium c h m
medium-At false reason a c h m at = rw (or_false m) at

worst-high : (c h m n : Bool) → worst c (h || true) m ≡ worst c (h || true) (m || n)
worst-high true h m n = refl
worst-high false true m n = refl
worst-high false false m n = refl

-- Once there is a high signal, a medium one changes nothing.
two-At :
    (first second : Bool) (reason other : String) (a : Assessment) (c h m : Bool)
    → At a c h m
    → At (two_rules first high reason second medium other a) c (h || first) (m || second)
unfolding two_rules
two-At true second reason other a c h m at =
    ap (λ l. max_risk l high) at ∙ max-high c h m ∙ worst-high c h m second
two-At false second reason other a c h m at = rw (or_false h) (medium-At second other a c h m at)

-- The risk of a delivery is that of its worst signal: critical with a critical label or path, otherwise
-- high with a high-risk label or path, too many files or a blocked command, otherwise medium with more
-- than a few files, a command to review, a second attempt or a skipped command, and otherwise low.
pub assess-worst :
    (repo : Dict) (s : Signals)
    → (assess repo s).risk_level
      ≡ worst (critical_signal repo s) (high_signal repo s) (medium_signal repo s)
unfolding assess
assess-worst repo s = medium-At _ _ _ _ _ _ (
    medium-At _ _ _ _ _ _ (
      two-At _ _ _ _ _ _ _ _ (
        two-At _ _ _ _ _ _ _ _ (
          high-At _ _ _ _ _ _ (
            critical-At _ _ _ _ _ _
              (high-At _ _ _ _ _ _ (critical-At _ _ _ false false false refl)))))))
