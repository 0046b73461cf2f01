-- ===== src/Verification/Tally.antt =====
-- What the loop of `verify` in `application/use_cases/verify_run.py` keeps.
use issue_to_pr_agent.Prelude.{
  ℕ, suc, ◌+◌, ◌≤◌, ◌≡◌, refl, ℤ, pos, eqb_ℤ, String, Bool, true, false, ◌||◌, Option, List, [],
  ◌∷◌, ◌++◌, arith, length, All, sym, any, ltb, is_some, if_rule, Result, ok, err, Error, or_else,
  length-append, subst,
}
use issue_to_pr_agent.Domain.Commands.{allow, TestCommandCandidate}
use issue_to_pr_agent.Domain.Queue.{FilePath}
use issue_to_pr_agent.Domain.Runs.{VerificationStatus, VerificationStopReason}
use issue_to_pr_agent.Safety.Commands.{assess_command}
use issue_to_pr_agent.Verification.Commands.{reflect}
use issue_to_pr_agent.Verification.Attempts.{
  VerificationAttemptStatus, passed, failed, skipped, CommandRunnerResult, VerificationAttempt,
  Progress, Runner, has_passed, attempt_of, recorded, command_failed, run_attempts, after_run,
  after_result, with_success,
}

abbrev pub is_passed : VerificationAttemptStatus → Bool
is_passed passed = true
is_passed failed = false
is_passed skipped = false

abbrev pub is_success : VerificationStatus → Bool
is_success VerificationStatus.succeeded = true
is_success VerificationStatus.failed = false

abbrev pub is_success_reason : VerificationStopReason → Bool
is_success_reason VerificationStopReason.success = true
is_success_reason _ = false

abbrev pub some_passed : List VerificationAttempt → Bool
some_passed attempts = any (λ a. is_passed a.status) attempts

abbrev pub RunsAllowed : VerificationAttempt → Type 0
RunsAllowed a = (assess_command a.command).decision ≡ allow

-- The loop's variables: the status and the stop reason tell whether an attempt passed, every attempt
-- ran an allowed command, and there are `n` at most.
pub record Tally (n : ℕ) (p : Progress) : Type 0 where
  pub status : some_passed p.attempts ≡ is_success p.final_status
  pub reason : is_success_reason p.stop_reason ≡ is_success p.final_status
  pub allowed : All RunsAllowed p.attempts
  pub short : length p.attempts ≤ n

some_passed-snoc :
    (xs : List VerificationAttempt) (a : VerificationAttempt)
    → some_passed (xs ++ a ∷ []) ≡ (some_passed xs || is_passed a.status)
some_passed-snoc [] a = ground arith
some_passed-snoc (b ∷ xs) a = ground (arith, some_passed-snoc xs a)

All-snoc :
    (xs : List VerificationAttempt) (a : VerificationAttempt)
    → All RunsAllowed xs
    → RunsAllowed a
    → All RunsAllowed (xs ++ a ∷ [])
All-snoc [] a v h = (h, tt)
All-snoc (b ∷ xs) a v h = (v.0, All-snoc xs a v.1 h)

reflect_failure :
    (code : ℤ) (stdout stderr : String) (remaining : Bool) (used max_attempts : ℕ)
    (before : VerificationStopReason)
    → eqb_ℤ code (pos 0) ≡ false
    → is_success_reason before ≡ false
    → is_success_reason
        (or_else (reflect code stdout stderr remaining used max_attempts).stop_reason before)
      ≡ false
unfolding reflect
reflect_failure code stdout stderr remaining used max_attempts before h b = ground arith

-- One more attempt after some that did not pass.
added-Tally :
    (n : ℕ) (p q : Progress) (a : VerificationAttempt)
    → p.final_status ≡ VerificationStatus.failed
    → Tally n p
    → RunsAllowed a
    → q.attempts ≡ p.attempts ++ a ∷ []
    → is_passed a.status ≡ is_success q.final_status
    → is_success_reason q.stop_reason ≡ is_success q.final_status
    → Tally (suc n) q
added-Tally n p q a open_status t fine more passes reason = record {
  status = ground (arith, t.status, some_passed-snoc p.attempts a);
  reason = reason;
  allowed = subst (All RunsAllowed) (sym more) (All-snoc p.attempts a t.allowed fine);
  short = ground (arith, t.short, length-append p.attempts (a ∷ []));
}

-- The end of the loop: what holds of its variables, and the status after an exception.
abbrev pub Ended : ℕ → Progress × Option Error → Type 0
Ended n (p, e) = Tally n p × (is_some e ≡ true → p.final_status ≡ VerificationStatus.failed)

Tally-le : (n m : ℕ) (p : Progress) → n ≤ m → Tally n p → Tally m p
Tally-le n m p le t = record {
  status = t.status;
  reason = t.reason;
  allowed = t.allowed;
  short = omega (arith, t.short);
}

-- What the rest of the loop does with variables that no attempt passed in.
abbrev pub Continues : ℕ → ℕ → (Progress → Progress × Option Error) → Type 0
Continues n m next =
    (q : Progress) → q.final_status ≡ VerificationStatus.failed → Tally n q → Ended m (next q)

after_result-Ended :
    (dir : FilePath) (total max_attempts index n m : ℕ) (c : TestCommandCandidate)
    (next : Progress → Progress × Option Error) (p : Progress) (r : CommandRunnerResult)
    → (assess_command c.command).decision ≡ allow
    → suc n ≤ m
    → Continues (suc n) m next
    → p.final_status ≡ VerificationStatus.failed
    → Tally n p
    → Ended m (after_result dir total max_attempts index c next p r)
unfolding after_result
after_result-Ended dir total max_attempts index n m c next p r fine le rest open_status t =
    let reflection = reflect r.exit_code r.stdout r.stderr (ltb index total) index max_attempts in
    let a = attempt_of dir index c r reflection in
    let before : is_success_reason p.stop_reason ≡ false = rw open_status at t.reason in
    let failure = record (recorded dir index c r reflection p) {
      error_message = command_failed c;
    } in
    if_rule (Ended m) (has_passed r) _ _
      (λ good. (
        Tally-le (suc n) m _ le (
            added-Tally n p (with_success (recorded dir index c r reflection p)) a open_status t
              fine refl (simp good refl) refl),
        λ raised. absurd (cc raised),
      ))
      (λ bad.
        let added =
          added-Tally n p failure a open_status t fine refl (simp (bad, open_status) refl)
            t.reason in
        if_rule (Ended m) reflection.continue_running _ _ (λ more. rest failure open_status added)
          (λ stop. (
            Tally-le (suc n) m _ le (record {
              status = added.status;
              reason = rw open_status (
                  reflect_failure r.exit_code r.stdout r.stderr (ltb index total) index max_attempts
                    p.stop_reason bad before);
              allowed = added.allowed;
              short = added.short;
            }),
            λ raised. open_status,
          )))

after_run-Ended :
    (dir : FilePath) (total max_attempts index n m : ℕ) (c : TestCommandCandidate)
    (next : Progress → Progress × Option Error) (p : Progress) (result : Result CommandRunnerResult)
    → (assess_command c.command).decision ≡ allow
    → suc n ≤ m
    → Continues (suc n) m next
    → p.final_status ≡ VerificationStatus.failed
    → Tally n p
    → Ended m (after_run dir total max_attempts index c next p result)
unfolding after_run
after_run-Ended dir total max_attempts index n m c next p (err e) fine le rest open_status t =
    (Tally-le n m p (omega (arith, le)) t, λ raised. open_status)
after_run-Ended dir total max_attempts index n m c next p (ok r) fine le rest open_status t =
    after_result-Ended dir total max_attempts index n m c next p r fine le rest open_status t

pub run_attempts-Ended :
    (runner : Runner) (dir : FilePath) (total max_attempts index n m : ℕ)
    (cs : List TestCommandCandidate) (p : Progress)
    → All (λ c. (assess_command c.command).decision ≡ allow) cs
    → n + length cs ≤ m
    → p.final_status ≡ VerificationStatus.failed
    → Tally n p
    → Ended m (run_attempts runner dir total max_attempts index cs p)
unfolding run_attempts
run_attempts-Ended runner dir total max_attempts index n m [] p v le open_status t =
    (Tally-le n m p (omega (arith, le)) t, λ raised. open_status)
run_attempts-Ended runner dir total max_attempts index n m (c ∷ rest) p v le open_status t =
    after_run-Ended dir total max_attempts index n m c
      (run_attempts runner dir total max_attempts (suc index) rest) p (runner index c.command) v.0
      (omega (arith, le))
      (λ q still u.
        run_attempts-Ended runner dir total max_attempts (suc index) (suc n) m rest q v.1
          (omega (arith, le)) still u)
      open_status t
