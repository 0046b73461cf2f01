-- ===== src/Policy/Directories.antt =====
-- Directory rules of `application/services/approval_policy.py` on the paths that receipts hold.
use issue_to_pr_agent.Prelude.{
  ◌≡◌, refl, String, true, false, ◌&&◌, List, [], ◌∷◌, any, All, strip, has_text, as_posix,
  is_absolute, as_posix-is_absolute, starts_with, arith,
}
use issue_to_pr_agent.Policy.Read.{ends_with_slash, has_prefix, matches_pattern, matching_paths}

-- A pattern that names a directory of the repository.
abbrev pub IsDirectoryRule : String → Type 0
IsDirectoryRule pattern =
    (ends_with_slash (strip pattern) ≡ true) × (is_absolute (strip pattern) ≡ false)

has_prefix-absolute :
    (text prefix : String)
    → is_absolute text ≡ true
    → ends_with_slash prefix ≡ true
    → is_absolute prefix ≡ false
    → has_prefix text prefix ≡ false
unfolding starts_with ends_with_slash
has_prefix-absolute text String.[] h slash relative = absurd (cc slash)
has_prefix-absolute String.[] (String.◌∷◌ c s) h slash relative = absurd (cc h)
has_prefix-absolute (String.◌∷◌ d t) (String.◌∷◌ c s) h slash relative = ground arith

matches-absolute :
    (path pattern : String)
    → is_absolute path ≡ true
    → ends_with_slash pattern ≡ true
    → is_absolute pattern ≡ false
    → matches_pattern path pattern ≡ false
unfolding matches_pattern
matches-absolute path pattern h slash relative =
    rw slash
      (has_prefix-absolute (as_posix path) pattern (as_posix-is_absolute path h) slash relative)

no_rule :
    (path : String) (patterns : List String)
    → is_absolute path ≡ true
    → All IsDirectoryRule patterns
    → any (λ pattern. has_text pattern && matches_pattern path (strip pattern)) patterns ≡ false
no_rule path [] h rules = refl
no_rule path (pattern ∷ rest) h ((slash, relative), rules) =
    ground
      (arith, matches-absolute path (strip pattern) h slash relative, no_rule path rest h rules)

-- No absolute path matches a rule that names a directory of the repository.
pub matching-directories :
    (paths patterns : List String)
    → All (λ path. is_absolute path ≡ true) paths
    → All IsDirectoryRule patterns
    → matching_paths paths patterns ≡ []
unfolding matching_paths
matching-directories [] patterns absolute rules = refl
matching-directories (path ∷ rest) patterns (h, absolute) rules =
    rw (no_rule path patterns h rules) (matching-directories rest patterns absolute rules)
