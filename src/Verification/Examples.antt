-- ===== src/Verification/Examples.antt =====
-- The theorems on verification at concrete candidates.
use issue_to_pr_agent.Prelude.{
  has_part, ◌≡◌, refl, String, List, [], ◌∷◌, pos, ok, ◌==◌, if◌then◌else◌, contains, strip,
}
use issue_to_pr_agent.Domain.Commands.{TestCommandCandidate}
use issue_to_pr_agent.Domain.Runs.{VerificationStatus}
use issue_to_pr_agent.Safety.Commands.{assess_command, decide_command, lower}
use issue_to_pr_agent.Verification.Commands.{dedupe_candidates, reflect}
use issue_to_pr_agent.Verification.Attempts.{Runner, verify_candidates}
use issue_to_pr_agent.Verification.Verdict.{IsTruthful, verify_candidates-IsTruthful}
use issue_to_pr_agent.Verification.Dedupe.{NoRepeats, commands, dedupe_candidates-NoRepeats}

abbrev candidate : String → TestCommandCandidate
candidate command = record { command = command; source = "plan.tests" }

abbrev three_candidates : List TestCommandCandidate
three_candidates = candidate "npm test" ∷ candidate "make check" ∷ candidate "pytest" ∷ []

-- Only `pytest` passes.
abbrev only_pytest : Runner
only_pytest index command = ok (record {
  exit_code = if command == "pytest" then pos 0 else pos 1;
  stdout = "";
  stderr = "";
  duration_ms = 5;
})

passes :
    (verify_candidates only_pytest ("out" ∷ []) 3 three_candidates).status
    ≡ VerificationStatus.succeeded
unfolding verify_candidates assess_command decide_command strip has_part lower reflect
passes = refl

verify_candidates-IsTruthful_example :
    IsTruthful 3 (verify_candidates only_pytest ("out" ∷ []) 3 three_candidates)
verify_candidates-IsTruthful_example =
    verify_candidates-IsTruthful only_pytest ("out" ∷ []) 3 three_candidates

abbrev twice : List TestCommandCandidate
twice = candidate "pytest" ∷ candidate "ls" ∷ candidate "pytest" ∷ []

dedupe_candidates-NoRepeats_example :
    NoRepeats (dedupe_candidates twice)
    × ((x : String) → contains (commands (dedupe_candidates twice)) x ≡ contains (commands twice) x)
dedupe_candidates-NoRepeats_example = dedupe_candidates-NoRepeats twice
