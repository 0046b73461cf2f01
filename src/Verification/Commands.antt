-- ===== src/Verification/Commands.antt =====
-- The commands of a verification: `_dedupe_candidates` of
-- `application/services/verification_strategy.py`, and `VerificationReflector` of
-- `application/services/verification_reflection.py`.
use issue_to_pr_agent.Prelude.{
  has_part, ℕ, ℤ, pos, eqb_ℤ, String, Bool, true, false, ◌||◌, Option, none, some, List, [], ◌∷◌,
  leb, contains, codes, format, if◌then◌else◌,
}
use issue_to_pr_agent.Domain.Commands.{TestCommandCandidate}
use issue_to_pr_agent.Domain.Runs.{VerificationStopReason}
use issue_to_pr_agent.Safety.Commands.{lower}

-- The loop; `seen` is its set.
unfoldable pub dedupe_from : List String → List TestCommandCandidate → List TestCommandCandidate
dedupe_from seen [] = []
dedupe_from seen (c ∷ rest) = elim (contains seen c.command) [
  | true ↦ dedupe_from seen rest
  | false ↦ c ∷ dedupe_from (c.command ∷ seen) rest
]

unfoldable pub dedupe_candidates : List TestCommandCandidate → List TestCommandCandidate
unfolding dedupe_from
dedupe_candidates candidates = dedupe_from [] candidates

pub record Reflection : Type 0 where
  pub continue_running : Bool
  pub stop_reason : Option VerificationStopReason
  pub note : String

abbrev pub is_unavailable : String → String → Bool
is_unavailable stdout stderr =
    let combined = lower (codes (format (stdout ∷ "\n" ∷ stderr ∷ []))) in
    has_part (codes "no module named pytest") combined
    || has_part (codes "command not found") combined

unfoldable pub reflect : ℤ → String → String → Bool → ℕ → ℕ → Reflection
reflect exit_code stdout stderr has_remaining_candidates attempts_used max_attempts =
    if eqb_ℤ exit_code (pos 0)
    then record {
      continue_running = false;
      stop_reason = some VerificationStopReason.success;
      note = "Verification command succeeded.";
    }
    else if leb max_attempts attempts_used
    then record {
      continue_running = false;
      stop_reason = some VerificationStopReason.max_attempts_reached;
      note = "Maximum verification attempts reached.";
    }
    else if has_remaining_candidates
    then record {
      continue_running = true;
      stop_reason = none;
      note =
          if is_unavailable stdout stderr
          then "Command appears unavailable in this environment; trying the next candidate."
          else "Command failed; trying the next verification candidate.";
    }
    else record {
      continue_running = false;
      stop_reason = some VerificationStopReason.candidate_commands_exhausted;
      note = "No verification candidates remain.";
    }
