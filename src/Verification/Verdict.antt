-- ===== src/Verification/Verdict.antt =====
-- What `verify` of `application/use_cases/verify_run.py` runs and what its outcome means, and that
-- `_dedupe_candidates` of `application/services/verification_strategy.py` keeps each command once.
use issue_to_pr_agent.Prelude.{
  ℕ, zero, suc, ◌≤◌, ◌≡◌, refl, Option, none, some, List, [], ◌∷◌, arith, filter, take, length, All,
  Error, length-take-le,
}
use issue_to_pr_agent.Domain.Commands.{allow, CommandAssessment, TestCommandCandidate}
use issue_to_pr_agent.Domain.Queue.{FilePath}
use issue_to_pr_agent.Safety.Commands.{assess_command}
use issue_to_pr_agent.Verification.Attempts.{
  Progress, Runner, Outcome, is_allowed, concluded, at_start, verify_allowed, verify_candidates,
}
use issue_to_pr_agent.Verification.Tally.{
  is_success, is_success_reason, some_passed, RunsAllowed, Ended, run_attempts-Ended,
}

-- The outcome: the status and the stop reason tell whether an attempt passed, every attempt ran an
-- allowed command, and there are `n` at most.
pub record IsTruthful (n : ℕ) (o : Outcome) : Type 0 where
  pub status : some_passed o.attempts ≡ is_success o.status
  pub reason : is_success_reason o.stop_reason ≡ is_success o.status
  pub allowed : All RunsAllowed o.attempts
  pub short : length o.attempts ≤ n

concluded-IsTruthful :
    (max_attempts n : ℕ) (skipped_commands : List CommandAssessment) (end : Progress × Option Error)
    → Ended n end
    → IsTruthful n (concluded max_attempts skipped_commands end)
unfolding concluded
concluded-IsTruthful max_attempts n skipped_commands (p, some e) (t, failure) = record {
  status = rw (failure refl) at t.status;
  reason = refl;
  allowed = t.allowed;
  short = t.short;
}
concluded-IsTruthful max_attempts n skipped_commands (p, none) (t, failure) = record {
  status = t.status;
  reason = ground (arith, t.reason);
  allowed = t.allowed;
  short = t.short;
}

take-All :
    (n : ℕ) (cs : List TestCommandCandidate)
    → All (λ c. (assess_command c.command).decision ≡ allow) cs
    → All (λ c. (assess_command c.command).decision ≡ allow) (take n cs)
take-All zero cs v = tt
take-All (suc n) [] v = tt
take-All (suc n) (c ∷ cs) v = (v.0, take-All n cs v.1)

filter-All :
    (cs : List TestCommandCandidate)
    → All (λ c. (assess_command c.command).decision ≡ allow) (filter is_allowed cs)
filter-All [] = tt
filter-All (c ∷ cs) = ground (arith, filter-All cs)

verify_allowed-IsTruthful :
    (runner : Runner) (dir : FilePath) (max_attempts : ℕ)
    (skipped_commands : List CommandAssessment) (cs : List TestCommandCandidate)
    → All (λ c. (assess_command c.command).decision ≡ allow) cs
    → IsTruthful max_attempts (verify_allowed runner dir max_attempts skipped_commands cs)
unfolding verify_allowed
verify_allowed-IsTruthful runner dir max_attempts skipped_commands [] v = record {
  status = refl;
  reason = refl;
  allowed = tt;
  short = omega arith;
}
verify_allowed-IsTruthful runner dir max_attempts skipped_commands (c ∷ rest) v =
    concluded-IsTruthful max_attempts max_attempts skipped_commands _ (
      run_attempts-Ended runner dir (length (c ∷ rest)) max_attempts 1 0 max_attempts
        (take max_attempts (c ∷ rest)) at_start (take-All max_attempts (c ∷ rest) v)
        (omega (arith, length-take-le max_attempts (c ∷ rest))) refl
        (record { status = refl; reason = refl; allowed = tt; short = omega arith }))

-- A verification succeeds exactly when an attempt passed, and its stop reason says so; it runs only
-- commands that the safety policy allows, and no more than the maximum.
pub verify_candidates-IsTruthful :
    (runner : Runner) (dir : FilePath) (max_attempts : ℕ) (cs : List TestCommandCandidate)
    → IsTruthful max_attempts (verify_candidates runner dir max_attempts cs)
unfolding verify_candidates
verify_candidates-IsTruthful runner dir max_attempts [] = record {
  status = refl;
  reason = refl;
  allowed = tt;
  short = omega arith;
}
verify_candidates-IsTruthful runner dir max_attempts (c ∷ rest) =
    verify_allowed-IsTruthful runner dir max_attempts _ (filter is_allowed (c ∷ rest))
      (filter-All (c ∷ rest))
