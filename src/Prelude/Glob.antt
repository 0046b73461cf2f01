-- ===== src/Prelude/Glob.antt =====
-- `fnmatch` of Python's standard library, on code points: `*`, `?`, `[seq]` and `[!seq]`.
use Prim.Native.Nat.{ℕ, zero, suc}
use Prim.Native.String.{String}
use mathlib.Core.Path.{◌≡◌, refl}
use mathlib.Core.Bool.{Bool, true, false, ◌&&◌, ◌||◌, not}
use mathlib.Core.List.{List, [], ◌∷◌}
use mathlib.Core.Option.{Option, none, some}
use issue_to_pr_agent.Prelude.Tests.{leb, eqb, if◌then◌else◌, or_else}
use issue_to_pr_agent.Prelude.Lists.{length}
use issue_to_pr_agent.Prelude.Text.{codes}

pub data Token : Type 0 where
  star any_one : Token
  literal : ℕ → Token
  one_of : Bool → List (ℕ × ℕ) → Token

-- The members of a bracket: single code points and ranges.
members : List ℕ → List (ℕ × ℕ)
members [] = []
members (a ∷ []) = (a, a) ∷ []
members (a ∷ b ∷ []) = (a, a) ∷ (b, b) ∷ []
members (a ∷ b ∷ c ∷ rest) = elim (eqb b b'-') [
  | true ↦ (a, c) ∷ members rest
  | false ↦ (a, a) ∷ members (b ∷ c ∷ rest)
]

-- The text up to the `]` that closes a bracket, what follows it, and whether there is one.
close : List ℕ → List ℕ × List ℕ × Bool
close [] = ([], [], false)
close (c ∷ rest) =
    let (inside, after, closed) = close rest in
    if eqb c b']' then ([], rest, true) else (c ∷ inside, after, closed)

-- A first `]` is a member.
close_body : List ℕ → List ℕ × List ℕ × Bool
unfolding close
close_body [] = ([], [], false)
close_body (c ∷ rest) =
    let (inside, after, closed) = close rest in
    if eqb c b']' then (c ∷ inside, after, closed) else close (c ∷ rest)

one_token : ℕ → Token
one_token c = if eqb c b'*' then star else if eqb c b'?' then any_one else literal c

bracket_token : Bool → List ℕ → Option (Token × List ℕ)
unfolding close_body members
bracket_token negated body =
    let (inside, after, closed) = close_body body in
    if closed then some (one_of negated (members inside), after) else none

-- What follows a `[`: a set, if a `]` closes it.
sequence : List ℕ → Option (Token × List ℕ)
unfolding bracket_token
sequence [] = none
sequence (c ∷ rest) = if eqb c b'!' then bracket_token true rest else bracket_token false (c ∷ rest)

next_token : ℕ → List ℕ → Token × List ℕ
unfolding sequence one_token
next_token c rest =
    if eqb c b'[' then or_else (sequence rest) (literal c, rest) else (one_token c, rest)

-- Each round takes a code point off the pattern at least, so its length is enough fuel.
tokens_fuel : ℕ → List ℕ → List Token
unfolding next_token
tokens_fuel zero pattern = []
tokens_fuel (suc fuel) [] = []
tokens_fuel (suc fuel) (c ∷ rest) =
    let (token, after) = next_token c rest in token ∷ tokens_fuel fuel after

in_ranges : List (ℕ × ℕ) → ℕ → Bool
in_ranges [] c = false
in_ranges ((lo, hi) ∷ rest) c = (leb lo c && leb c hi) || in_ranges rest c

accepts : Token → ℕ → Bool
unfolding in_ranges
accepts star c = true
accepts any_one c = true
accepts (literal d) c = eqb c d
accepts (one_of false ranges) c = in_ranges ranges c
accepts (one_of true ranges) c = not (in_ranges ranges c)

any_suffix : (List ℕ → Bool) → List ℕ → Bool
any_suffix p [] = p []
any_suffix p (c ∷ cs) = p (c ∷ cs) || any_suffix p cs

match_tokens : List Token → List ℕ → Bool
unfolding accepts any_suffix
match_tokens [] [] = true
match_tokens [] (c ∷ cs) = false
match_tokens (star ∷ ts) text = any_suffix (match_tokens ts) text
match_tokens (t ∷ ts) [] = false
match_tokens (t ∷ ts) (c ∷ cs) = accepts t c && match_tokens ts cs

-- `fnmatch(name, pattern)`
unfoldable pub fnmatch : String → String → Bool
unfolding tokens_fuel match_tokens
fnmatch name pattern =
    match_tokens (tokens_fuel (length (codes pattern)) (codes pattern)) (codes name)

fnmatch_runs :
    (fnmatch "acme/api" "acme/*" ≡ true)
    × (fnmatch "acme/api" "acme/ap[a-hj-z]" ≡ false)
    × (fnmatch "acme/ap[" "acme/a?[" ≡ true)
    × (fnmatch "a]" "a[]x]" ≡ true)
unfolding fnmatch
fnmatch_runs = (refl, refl, refl, refl)
