-- ===== src/Prelude/Text.antt =====
-- What the source uses of Python's `str`: code points, `strip`, truth, and membership in a list.
use Prim.Native.Nat.{ℕ, zero, suc, ◌/◌, ◌%◌}
use Prim.Native.Char.{Char, code}
use Prim.Native.String.{String, ◌++◌}
use mathlib.Core.Path.{◌≡◌, refl}
use mathlib.Core.Bool.{Bool, true, false, ◌&&◌, ◌||◌}
use mathlib.Core.List.{List, [], ◌∷◌}
use text.Mathlib.Text.{◌==◌}
use issue_to_pr_agent.Prelude.Tests.{leb, eqb, if◌then◌else◌}

abbrev pub codes : String → List ℕ
codes String.[] = []
codes (String.◌∷◌ c s) = code c ∷ codes s

-- `not s`
abbrev pub is_empty : String → Bool
is_empty String.[] = true
is_empty (String.◌∷◌ c s) = false

-- `str.isspace` of one character.
unfoldable pub is_space : ℕ → Bool
is_space c =
    (leb 9 c && leb c 13)
    || (leb 28 c && leb c 32)
    || eqb c 133
    || eqb c 160
    || eqb c 5760
    || (leb 8192 c && leb c 8202)
    || eqb c 8232
    || eqb c 8233
    || eqb c 8239
    || eqb c 8287
    || eqb c 12288

unfoldable pub lstrip : String → String
unfolding is_space
lstrip String.[] = String.[]
lstrip (String.◌∷◌ c s) = let rest = lstrip s in if is_space (code c) then rest else String.◌∷◌ c s

unfoldable pub rstrip : String → String
unfolding is_space
rstrip String.[] = String.[]
rstrip (String.◌∷◌ c s) =
    let rest = rstrip s in
    if is_empty rest && is_space (code c) then String.[] else String.◌∷◌ c rest

unfoldable pub strip : String → String
unfolding lstrip rstrip
strip s = lstrip (rstrip s)

-- `strip` on code points.
lstrip_codes : List ℕ → List ℕ
unfolding is_space
lstrip_codes [] = []
lstrip_codes (c ∷ s) = let rest = lstrip_codes s in if is_space c then rest else c ∷ s

put_back : ℕ → List ℕ → Bool → List ℕ
put_back c [] true = []
put_back c rest _ = c ∷ rest

rstrip_codes : List ℕ → List ℕ
unfolding is_space put_back
rstrip_codes [] = []
rstrip_codes (c ∷ s) = let rest = rstrip_codes s in put_back c rest (is_space c)

unfoldable pub strip_codes : List ℕ → List ℕ
unfolding lstrip_codes rstrip_codes
strip_codes s = lstrip_codes (rstrip_codes s)

-- `text.startswith(prefix)`
unfoldable pub starts_with : List ℕ → List ℕ → Bool
starts_with [] text = true
starts_with (p ∷ ps) [] = false
starts_with (p ∷ ps) (c ∷ cs) = eqb p c && starts_with ps cs

-- `part in text`
unfoldable pub has_part : List ℕ → List ℕ → Bool
unfolding starts_with
has_part part [] = starts_with part []
has_part part (c ∷ cs) = starts_with part (c ∷ cs) || has_part part cs

-- One character of `str.lower`, for the letters of ASCII.
lower_from : Char → String → String → Char
lower_from c (String.◌∷◌ u us) (String.◌∷◌ l ls) =
    let rest = lower_from c us ls in if eqb (code c) (code u) then l else rest
lower_from c _ _ = c

unfoldable pub lower_text : String → String
unfolding lower_from
lower_text String.[] = String.[]
lower_text (String.◌∷◌ c s) =
    String.◌∷◌ (lower_from c "ABCDEFGHIJKLMNOPQRSTUVWXYZ" "abcdefghijklmnopqrstuvwxyz")
      (lower_text s)

join_after : String → List String → String
join_after separator [] = ""
join_after separator (s ∷ rest) = separator ++ (s ++ join_after separator rest)

-- `separator.join(parts)`
unfoldable pub join : String → List String → String
unfolding join_after
join separator [] = ""
join separator (s ∷ rest) = s ++ join_after separator rest

-- `bool(s.strip())`
unfoldable pub has_text : String → Bool
unfolding is_space
has_text String.[] = false
has_text (String.◌∷◌ c s) = has_text s || (if is_space (code c) then false else true)

abbrev pub contains : List String → String → Bool
contains [] a = false
contains (x ∷ xs) a = x == a || contains xs a

-- The parts of an f-string, joined.
unfoldable pub format : List String → String
format [] = ""
format (s ∷ rest) = s ++ format rest

abbrev digit : ℕ → String
digit n =
    if eqb n 0
    then "0"
    else if eqb n 1
    then "1"
    else if eqb n 2
    then "2"
    else if eqb n 3
    then "3"
    else if eqb n 4
    then "4"
    else if eqb n 5
    then "5"
    else if eqb n 6
    then "6"
    else if eqb n 7
    then "7"
    else if eqb n 8
    then "8"
    else "9"

show_fuel : ℕ → ℕ → String
show_fuel zero n = ""
show_fuel (suc fuel) n =
    let more = show_fuel fuel (n / 10) ++ digit (n % 10) in if leb n 9 then digit n else more

-- `str` of a number that is not negative: `n + 1` rounds are enough, since each divides by 10.
unfoldable pub show : ℕ → String
unfolding show_fuel
show n = show_fuel (suc n) n

show_number : show 1204 ≡ "1204"
unfolding show
show_number = refl

strip_both_ends : strip " a b\n" ≡ "a b"
unfolding strip
strip_both_ends = refl
