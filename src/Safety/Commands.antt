-- ===== src/Safety/Commands.antt =====
-- `SafetyPolicy` of `domain/policies/safety.py`, on code points.
use issue_to_pr_agent.Prelude.{
  starts_with, has_part, ℕ, ◌+◌, String, Bool, true, false, not, ◌&&◌, ◌||◌, List, [], ◌∷◌, ◌++◌,
  map, eqb, leb, any, if◌then◌else◌, codes, strip, Result, raise_if, policy_error, format,
}
use issue_to_pr_agent.Domain.Commands.{CommandDecision, allow, review, block, CommandAssessment}

-- `str.lower` of one character. Beside the letters of ASCII it names the two characters whose lower
-- case has a letter of ASCII, the dotted capital i and the Kelvin sign; the others stay as they are,
-- which no test below tells from their lower case.
unfoldable pub lower_code : ℕ → List ℕ
lower_code c =
    if leb b'A' c && leb c b'Z'
    then (c + 32) ∷ []
    else if eqb c 304
    then b'i' ∷ 775 ∷ []
    else if eqb c 8490
    then b'k' ∷ []
    else c ∷ []

unfoldable pub lower : List ℕ → List ℕ
unfolding lower_code
lower [] = []
lower (c ∷ cs) = lower_code c ++ lower cs

-- `shell_operators`, `blocked_terms` and `allowed_prefixes`.
abbrev pub shell_operators : List String
shell_operators = "|" ∷ ";" ∷ "&&" ∷ "||" ∷ "$(" ∷ "`" ∷ []

abbrev pub blocked_terms : List String
blocked_terms =
    "rm -rf" ∷ "git reset --hard" ∷ "git clean -fd" ∷ "curl " ∷ "wget " ∷ "chmod 777" ∷ "bash -c"
    ∷ "sh -c" ∷ "python -c" ∷ "python3 -c" ∷ "eval " ∷ "exec(" ∷ "nc " ∷ "ncat " ∷ "netcat "
    ∷ "git push" ∷ "git remote add" ∷ "mkfs" ∷ "dd if=" ∷ "format " ∷ "source " ∷ ". /" ∷ []

abbrev pub allowed_prefixes : List String
allowed_prefixes =
    "git status" ∷ "git diff" ∷ "git rev-parse" ∷ "git ls-files" ∷ "rg " ∷ "ls" ∷ "find "
    ∷ "python3 -m pytest" ∷ "python -m pytest" ∷ "python3 -m unittest" ∷ "python -m unittest"
    ∷ "pytest" ∷ "npm test" ∷ "go test" ∷ "cargo test" ∷ []

abbrev pub has_any_of : List String → List ℕ → Bool
has_any_of terms text = any (λ t. has_part (codes t) text) terms

abbrev pub starts_with_any_of : List String → List ℕ → Bool
starts_with_any_of prefixes text = any (λ p. starts_with (codes p) text) prefixes

-- The loop over the characters: a `>` blocks unless a `=` follows, and then both are passed.
unfoldable pub redirects : List ℕ → Bool
redirects [] = false
redirects (c ∷ []) = eqb c b'>'
redirects (c ∷ d ∷ rest) = elim (eqb c b'>') [
  | true ↦ elim (eqb d b'=') [ true ↦ redirects rest | false ↦ true ]
  | false ↦ redirects (d ∷ rest)
]

abbrev pub sudo_found : List ℕ → Bool
sudo_found lowered =
    (starts_with lowered (codes "sudo") && starts_with (codes "sudo") lowered)
    || (starts_with (codes "sudo ") lowered || has_part (codes " sudo ") lowered)

-- `not text`
abbrev pub no_codes : List ℕ → Bool
no_codes [] = true
no_codes (c ∷ cs) = false

-- The decision with its reason, of the stripped command and its lower case.
unfoldable pub decide_command : List ℕ → List ℕ → CommandDecision × String
unfolding redirects
decide_command normalized lowered =
    if no_codes normalized
    then (review, "Empty command requires manual review.")
    else if has_any_of shell_operators normalized
    then (block, "Command contains shell operators that could be used for injection.")
    else if has_part (codes ">") normalized && redirects normalized
    then (block, "Command contains shell operators that could be used for injection.")
    else if sudo_found lowered || has_any_of blocked_terms lowered
    then (block, "Command is destructive or pulls remote code without review.")
    else if starts_with_any_of allowed_prefixes lowered
    then (allow, "Command is read-only or an approved local test execution.")
    else (review, "Command is not in the approved allowlist and needs operator review.")

-- `_assess_command`
unfoldable pub assess_command : String → CommandAssessment
assess_command command =
    let normalized = codes (strip command) in
    let (decision, reason) = decide_command normalized (lower normalized) in
    record { command = command; decision = decision; reason = reason }

-- `assess_commands`
unfoldable pub assess_commands : List String → List CommandAssessment
assess_commands commands = map assess_command commands

-- `ensure_branch_name`, for the policy's prefix.
unfoldable pub ensure_branch_name : String → String → Result (Unit {0})
ensure_branch_name prefix name =
    raise_if (not (starts_with (codes prefix) (codes name))) policy_error
      (format ("Branch '" ∷ name ∷ "' violates policy. Expected prefix '" ∷ prefix ∷ "'." ∷ []))
