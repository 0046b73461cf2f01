-- ===== src/Safety/Allowed.antt =====
-- What `SafetyPolicy` of `domain/policies/safety.py` lets pass.
use issue_to_pr_agent.Prelude.{
  starts_with, has_part, ℕ, ◌≡◌, ◌↔◌, refl, String, true, false, List, [], ◌∷◌, ◌++◌, arith, eqb,
  Bool-cases, inl, inr, codes, strip,
}
use issue_to_pr_agent.Domain.Commands.{allow}
use issue_to_pr_agent.Safety.Commands.{
  lower, shell_operators, blocked_terms, allowed_prefixes, has_any_of, starts_with_any_of,
  redirects, sudo_found, decide_command, assess_command,
}

-- A `>` stands in the text with no `=` after it.
pub record BareRedirect (text : List ℕ) : Type 0 where
  pub before : List ℕ
  pub after : List ℕ
  pub split : text ≡ before ++ b'>' ∷ after
  pub bare : starts_with (codes "=") after ≡ false

later : (c : ℕ) (text : List ℕ) → BareRedirect text → BareRedirect (c ∷ text)
later c text b = record {
  before = c ∷ b.before;
  after = b.after;
  split = rw b.split;
  bare = b.bare;
}

redirects-BareRedirect : (text : List ℕ) → redirects text ≡ true → BareRedirect text
unfolding redirects starts_with
redirects-BareRedirect [] h = cc
redirects-BareRedirect (c ∷ []) h = record {
  before = [];
  after = [];
  split = ground arith;
  bare = refl;
}
redirects-BareRedirect (c ∷ d ∷ rest) h = elim (Bool-cases (eqb c b'>')) [
  | inr other ↦
      let again : redirects (d ∷ rest) ≡ true = ground arith in
      later c (d ∷ rest) (redirects-BareRedirect (d ∷ rest) again)
  | inl arrow ↦ elim (Bool-cases (eqb d b'=')) [
    | inl equals ↦
        let again : redirects rest ≡ true = ground arith in
        later c (d ∷ rest) (later d rest (redirects-BareRedirect rest again))
    | inr bare ↦ record { before = []; after = d ∷ rest; split = ground arith; bare = ground arith }
  ]
]

BareRedirect-redirects :
    (before after : List ℕ)
    → starts_with (codes "=") after ≡ false
    → redirects (before ++ b'>' ∷ after) ≡ true
unfolding redirects starts_with
BareRedirect-redirects [] [] bare = refl
BareRedirect-redirects [] (d ∷ rest) bare = ground arith
BareRedirect-redirects (c ∷ []) after bare = ground (arith, BareRedirect-redirects [] after bare)
BareRedirect-redirects (c ∷ d ∷ more) after bare =
    ground
      (arith, BareRedirect-redirects (d ∷ more) after bare, BareRedirect-redirects more after bare)

-- The loop over the characters blocks a command exactly when a `>` stands in it with no `=` after.
pub redirects_iff : (text : List ℕ) → (redirects text ≡ true) ↔ BareRedirect text
redirects_iff text =
    (redirects-BareRedirect text, λ b. rw b.split (BareRedirect-redirects b.before b.after b.bare))

-- What an allowed command is like, once it is stripped.
pub record IsSafe (normalized : List ℕ) : Type 0 where
  pub operators : has_any_of shell_operators normalized ≡ false
  pub redirection : ¬ BareRedirect normalized
  pub privileged : sudo_found (lower normalized) ≡ false
  pub blocked : has_any_of blocked_terms (lower normalized) ≡ false
  pub approved : starts_with_any_of allowed_prefixes (lower normalized) ≡ true

guarded :
    (normalized : List ℕ) → has_part (codes ">") normalized ≡ false → redirects normalized ≡ false
unfolding redirects has_part starts_with
guarded [] h = refl
guarded (c ∷ []) h = ground arith
guarded (c ∷ d ∷ rest) h = ground (arith, guarded (d ∷ rest), guarded rest)

decide_command-IsSafe :
    (normalized : List ℕ)
    → (decide_command normalized (lower normalized)).0 ≡ allow
    → IsSafe normalized
unfolding decide_command
decide_command-IsSafe normalized h = record {
  operators = ground arith;
  redirection = λ b.
      ground (arith, guarded normalized, BareRedirect-redirects b.before b.after b.bare, b.split);
  privileged = ground arith;
  blocked = ground arith;
  approved = ground arith;
}

-- A command that is allowed, once it is stripped, has no shell operator and no `>` without a `=`
-- after it, and its lower case neither calls `sudo` nor has a blocked term, and starts with an
-- approved prefix.
pub assess_command-IsSafe :
    (command : String) → (assess_command command).decision ≡ allow → IsSafe (codes (strip command))
unfolding assess_command
assess_command-IsSafe command h = decide_command-IsSafe (codes (strip command)) h
