-- ===== src/Verification/Dedupe.antt =====
-- `_dedupe_candidates` of `application/services/verification_strategy.py` keeps each command once.
use issue_to_pr_agent.Prelude.{
  ◌≡◌, String, false, not, ◌&&◌, List, [], ◌∷◌, map, contains, arith, eq_iff,
}
use issue_to_pr_agent.Domain.Commands.{TestCommandCandidate}
use issue_to_pr_agent.Verification.Commands.{dedupe_from, dedupe_candidates}

abbrev pub commands : List TestCommandCandidate → List String
commands cs = map (λ c. c.command) cs

-- No command stands twice in the list.
abbrev pub NoRepeats : List TestCommandCandidate → Type 0
NoRepeats [] = Unit
NoRepeats (c ∷ rest) = (contains (commands rest) c.command ≡ false) × NoRepeats rest

contains-dedupe_from :
    (seen : List String) (cs : List TestCommandCandidate) (x : String)
    → contains (commands (dedupe_from seen cs)) x
      ≡ (not (contains seen x) && contains (commands cs) x)
unfolding dedupe_from
contains-dedupe_from seen [] x = ground arith
contains-dedupe_from seen (c ∷ rest) x = ground (
  arith,
  contains-dedupe_from seen rest x,
  contains-dedupe_from (c.command ∷ seen) rest x,
  eq_iff c.command x,
)

dedupe_from-NoRepeats :
    (seen : List String) (cs : List TestCommandCandidate) → NoRepeats (dedupe_from seen cs)
unfolding dedupe_from
dedupe_from-NoRepeats seen [] = tt
dedupe_from-NoRepeats seen (c ∷ rest) = ground (
  arith,
  dedupe_from-NoRepeats seen rest,
  dedupe_from-NoRepeats (c.command ∷ seen) rest,
  contains-dedupe_from (c.command ∷ seen) rest c.command,
  eq_iff c.command c.command,
)

-- The candidates that are kept have the commands of the given ones, each once.
pub dedupe_candidates-NoRepeats :
    (cs : List TestCommandCandidate)
    → NoRepeats (dedupe_candidates cs)
      × ((x : String) → contains (commands (dedupe_candidates cs)) x ≡ contains (commands cs) x)
unfolding dedupe_candidates
dedupe_candidates-NoRepeats cs =
    (dedupe_from-NoRepeats [] cs, λ x. ground (arith, contains-dedupe_from [] cs x))
