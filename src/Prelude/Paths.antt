-- ===== src/Prelude/Paths.antt =====
-- `pathlib.PurePosixPath` of a text: `as_posix` and `name`.
use Prim.Native.Char.{Char, code}
use Prim.Native.String.{String, ◌++◌}
use mathlib.Core.Path.{◌≡◌, refl}
use mathlib.Core.Bool.{Bool, true, false, ◌&&◌, ◌||◌, not}
use mathlib.Core.List.{List, [], ◌∷◌}
use text.Mathlib.Text.{◌==◌}
use text.Mathlib.TextLemmas.{cons-append}
use issue_to_pr_agent.Prelude.Tests.{eqb, if_rule, if◌then◌else◌}
use issue_to_pr_agent.Prelude.Lists.{filter}
use issue_to_pr_agent.Prelude.Text.{is_empty, join}

prefixed : Char → List String → List String
prefixed c [] = String.◌∷◌ c "" ∷ []
prefixed c (part ∷ rest) = String.◌∷◌ c part ∷ rest

-- `text.split("/")`
split_slash : String → List String
unfolding prefixed
split_slash String.[] = "" ∷ []
split_slash (String.◌∷◌ c s) =
    let parts = split_slash s in if eqb (code c) b'/' then "" ∷ parts else prefixed c parts

is_part : String → Bool
is_part part = not (is_empty part || part == ".")

unfoldable pub path_parts : String → List String
unfolding split_slash is_part
path_parts text = filter is_part (split_slash text)

abbrev pub is_slash : Char → Bool
is_slash c = eqb (code c) b'/'

abbrev pub is_absolute : String → Bool
is_absolute String.[] = false
is_absolute (String.◌∷◌ c s) = is_slash c

tail : String → String
tail String.[] = ""
tail (String.◌∷◌ c s) = s

-- Two slashes at the start are kept, and more than two are one.
slashes : String → String
unfolding tail
slashes rest = if is_absolute rest && not (is_absolute (tail rest)) then "//" else "/"

root_of : String → String
unfolding slashes tail
root_of text = let root = slashes (tail text) in if is_absolute text then root else ""

rooted : String → List String → String
rooted root parts = let text = root ++ join "/" parts in if is_empty text then "." else text

-- `Path(text).as_posix()`
unfoldable pub as_posix : String → String
unfolding root_of path_parts rooted
as_posix text = rooted (root_of text) (path_parts text)

last_part : List String → String
last_part [] = ""
last_part (part ∷ []) = part
last_part (part ∷ next ∷ rest) = last_part (next ∷ rest)

-- `Path(text).name`
unfoldable pub path_name : String → String
unfolding path_parts last_part
path_name text = last_part (path_parts text)

as_posix_runs :
    (as_posix "./infra//main.tf/" ≡ "infra/main.tf")
    × (as_posix "/srv/./repo" ≡ "/srv/repo")
    × (as_posix "//host/a" ≡ "//host/a")
    × (as_posix "///a" ≡ "/a")
    × (as_posix "." ≡ ".")
    × (path_name "infra/main.tf/" ≡ "main.tf")
    × (path_name "/" ≡ "")
unfolding as_posix path_name join
as_posix_runs = (refl, refl, refl, refl, refl, refl, refl)

slashes-is_absolute : (rest : String) → is_absolute (slashes rest) ≡ true
unfolding slashes
slashes-is_absolute rest =
    if_rule (λ root. is_absolute root ≡ true) (is_absolute rest && not (is_absolute (tail rest)))
      "//" "/" (λ _. refl) (λ _. refl)

rooted-is_absolute :
    (root : String) (parts : List String)
    → is_absolute root ≡ true
    → is_absolute (rooted root parts) ≡ true
unfolding rooted
rooted-is_absolute String.[] parts h = cc
rooted-is_absolute (String.◌∷◌ c s) parts h = rw (cons-append c s (join "/" parts)) h

-- An absolute path is absolute in its normal form.
pub as_posix-is_absolute :
    (text : String) → is_absolute text ≡ true → is_absolute (as_posix text) ≡ true
unfolding as_posix root_of
as_posix-is_absolute text h =
    rooted-is_absolute (root_of text) (path_parts text) (rw h (slashes-is_absolute (tail text)))

pub append-is_absolute :
    (root rest : String) → is_absolute root ≡ true → is_absolute (root ++ rest) ≡ true
append-is_absolute String.[] rest h = cc
append-is_absolute (String.◌∷◌ c s) rest h = rw (cons-append c s rest) h
