-- ===== src/Verification/Attempts.antt =====
-- `verify` of `application/use_cases/verify_run.py` from the resolved candidates on, to what it gives
-- `_finalize`. The command runner is an argument: it gives a result for an attempt or raises.
use issue_to_pr_agent.Prelude.{
  ℕ, suc, ℤ, pos, eqb_ℤ, String, Bool, true, false, not, Option, none, some, List, [], ◌∷◌, ◌++◌,
  map, filter, take, length, leb, ltb, format, show, if◌then◌else◌, Result, ok, err, Error, or_else,
}
use issue_to_pr_agent.Domain.Commands.{
  CommandDecision, allow, review, block, CommandAssessment, TestCommandCandidate,
}
use issue_to_pr_agent.Domain.Queue.{FilePath}
use issue_to_pr_agent.Domain.Runs.{VerificationStatus, VerificationStopReason}
use issue_to_pr_agent.Safety.Commands.{assess_command}
use issue_to_pr_agent.Verification.Commands.{Reflection, reflect}

pub data VerificationAttemptStatus : Type 0 where
  passed failed skipped : VerificationAttemptStatus

pub record CommandRunnerResult : Type 0 where
  pub exit_code : ℤ
  pub stdout : String
  pub stderr : String
  pub duration_ms : ℕ

pub record VerificationAttempt : Type 0 where
  pub attempt_index : ℕ
  pub command : String
  pub source : String
  pub status : VerificationAttemptStatus
  pub exit_code : ℤ
  pub duration_ms : ℕ
  pub stdout_path : FilePath
  pub stderr_path : FilePath
  pub note : String

-- The variables of the loop, and the log files that it wrote.
pub record Progress : Type 0 where
  pub attempts : List VerificationAttempt
  pub logs : List (FilePath × String)
  pub stop_reason : VerificationStopReason
  pub error_message : Option String
  pub final_status : VerificationStatus

abbrev pub Runner : Type 0
Runner = ℕ → String → Result CommandRunnerResult

abbrev pub log_path : FilePath → ℕ → String → FilePath
log_path dir index suffix = dir ++ format ("attempt-" ∷ show index ∷ suffix ∷ []) ∷ []

abbrev pub has_passed : CommandRunnerResult → Bool
has_passed r = eqb_ℤ r.exit_code (pos 0)

abbrev pub attempt_of :
    FilePath → ℕ → TestCommandCandidate → CommandRunnerResult → Reflection → VerificationAttempt
attempt_of dir index c r reflection = record {
  attempt_index = index;
  command = c.command;
  source = c.source;
  status = if has_passed r then passed else failed;
  exit_code = r.exit_code;
  duration_ms = r.duration_ms;
  stdout_path = log_path dir index ".stdout.log";
  stderr_path = log_path dir index ".stderr.log";
  note = reflection.note;
}

-- The logs are written and the attempt is appended.
abbrev pub recorded :
    FilePath → ℕ → TestCommandCandidate → CommandRunnerResult → Reflection → Progress → Progress
recorded dir index c r reflection p = record p {
  attempts = p.attempts ++ attempt_of dir index c r reflection ∷ [];
  logs =
      p.logs
      ++ (log_path dir index ".stdout.log", r.stdout)
        ∷ (log_path dir index ".stderr.log", r.stderr)
        ∷ [];
}

abbrev pub command_failed : TestCommandCandidate → Option String
command_failed c = some (format ("Verification command failed: " ∷ c.command ∷ []))

abbrev pub with_success : Progress → Progress
with_success p = record p {
  final_status = VerificationStatus.succeeded;
  stop_reason = VerificationStopReason.success;
  error_message = none;
}

-- The body of the loop for a result of the runner: `break`, or `next`, the rest of the loop.
unfoldable pub after_result :
    FilePath
    → (total max_attempts index : ℕ) → TestCommandCandidate
    → (Progress → Progress × Option Error)
    → Progress
    → CommandRunnerResult
    → Progress × Option Error
after_result dir total max_attempts index c next p r =
    let reflection = reflect r.exit_code r.stdout r.stderr (ltb index total) index max_attempts in
    let after = recorded dir index c r reflection p in
    let failure = record after { error_message = command_failed c } in
    if has_passed r
    then (with_success after, none)
    else if reflection.continue_running
    then next failure
    else (record failure { stop_reason = or_else reflection.stop_reason p.stop_reason }, none)

-- An exception of the runner ends the loop with what was recorded.
unfoldable pub after_run :
    FilePath
    → (total max_attempts index : ℕ) → TestCommandCandidate
    → (Progress → Progress × Option Error)
    → Progress
    → Result CommandRunnerResult
    → Progress × Option Error
unfolding after_result
after_run dir total max_attempts index c next p (err e) = (p, some e)
after_run dir total max_attempts index c next p (ok r) =
    after_result dir total max_attempts index c next p r

-- The loop over the candidates, of `total` allowed ones; `index` counts the attempts from 1.
unfoldable pub run_attempts :
    Runner → FilePath → ℕ → ℕ → ℕ → List TestCommandCandidate → Progress → Progress × Option Error
unfolding after_run
run_attempts runner dir total max_attempts index [] p = (p, none)
run_attempts runner dir total max_attempts index (c ∷ rest) p =
    after_run dir total max_attempts index c
      (run_attempts runner dir total max_attempts (suc index) rest) p (runner index c.command)

-- What `_finalize` is given.
pub record Outcome : Type 0 where
  pub status : VerificationStatus
  pub stop_reason : VerificationStopReason
  pub attempts : List VerificationAttempt
  pub skipped_commands : List CommandAssessment
  pub error_message : Option String
  pub logs : List (FilePath × String)

abbrev pub is_allowed : TestCommandCandidate → Bool
is_allowed c = is_allow (assess_command c.command).decision
  where
    is_allow : CommandDecision → Bool
    is_allow allow = true
    is_allow review = false
    is_allow block = false

-- The end of `verify`, and its `except` block.
unfoldable pub concluded : ℕ → List CommandAssessment → Progress × Option Error → Outcome
concluded max_attempts skipped_commands (p, some e) = record {
  status = VerificationStatus.failed;
  stop_reason = VerificationStopReason.execution_error;
  attempts = p.attempts;
  skipped_commands = skipped_commands;
  error_message = some e.message;
  logs = p.logs;
}
concluded max_attempts skipped_commands (p, none) = record {
  status = p.final_status;
  stop_reason = stop_reason p.final_status;
  attempts = p.attempts;
  skipped_commands = skipped_commands;
  error_message = p.error_message;
  logs = p.logs;
}
  where
    stop_reason : VerificationStatus → VerificationStopReason
    stop_reason VerificationStatus.succeeded = p.stop_reason
    stop_reason VerificationStatus.failed =
        if leb max_attempts (length p.attempts)
        then VerificationStopReason.max_attempts_reached
        else p.stop_reason

abbrev pub nothing_run : VerificationStopReason → List CommandAssessment → String → Outcome
nothing_run reason skipped_commands message = record {
  status = VerificationStatus.failed;
  stop_reason = reason;
  attempts = [];
  skipped_commands = skipped_commands;
  error_message = some message;
  logs = [];
}

abbrev pub at_start : Progress
at_start = record {
  attempts = [];
  logs = [];
  stop_reason = VerificationStopReason.candidate_commands_exhausted;
  error_message = none;
  final_status = VerificationStatus.failed;
}

unfoldable pub verify_allowed :
    Runner → FilePath → ℕ → List CommandAssessment → List TestCommandCandidate → Outcome
unfolding run_attempts concluded
verify_allowed runner dir max_attempts skipped_commands [] =
    nothing_run VerificationStopReason.no_allowed_commands skipped_commands
      "No candidate test commands passed the command safety policy."
verify_allowed runner dir max_attempts skipped_commands (c ∷ rest) =
    concluded max_attempts skipped_commands (
      run_attempts runner dir (length (c ∷ rest)) max_attempts 1 (take max_attempts (c ∷ rest))
        at_start)

unfoldable pub verify_candidates : Runner → FilePath → ℕ → List TestCommandCandidate → Outcome
unfolding verify_allowed
verify_candidates runner dir max_attempts [] =
    nothing_run VerificationStopReason.no_candidate_commands []
      "No candidate test commands were available."
verify_candidates runner dir max_attempts (c ∷ rest) =
    verify_allowed runner dir max_attempts
      (map (λ x. assess_command x.command) (filter (λ x. not (is_allowed x)) (c ∷ rest)))
      (filter is_allowed (c ∷ rest))
