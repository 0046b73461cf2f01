-- ===== src/Queue/IssueNumber.antt =====
-- The issue number in the key of an external ticket, such as `PROJ-42`. The digits of the key are
-- taken to be ASCII; `str.isdigit` knows others.
use issue_to_pr_agent.Prelude.{
  ℕ, ◌+◌, ◌*◌, ◌-◌, ◌≡◌, refl, String, Bool, true, ◌&&◌, List, [], ◌∷◌, eqb, leb, if◌then◌else◌,
  codes, strip_codes,
}

-- `key.rsplit("-", 1)[-1]`, on code points.
after_last_dash : List ℕ → List ℕ → List ℕ
after_last_dash part [] = part
after_last_dash part (c ∷ rest) =
    if eqb c b'-' then after_last_dash rest rest else after_last_dash part rest

all_digits : List ℕ → Bool
all_digits [] = true
all_digits (c ∷ rest) = (leb b'0' c && leb c b'9') && all_digits rest

read_digits : ℕ → List ℕ → ℕ
read_digits n [] = n
read_digits n (c ∷ rest) = read_digits (n * 10 + (c - b'0')) rest

number_or : ℕ → List ℕ → ℕ
unfolding all_digits read_digits
number_or fallback [] = fallback
number_or fallback (c ∷ rest) = if all_digits (c ∷ rest) then read_digits 0 (c ∷ rest) else fallback

-- `_external_issue_number` of `application/use_cases/process_queue.py`.
unfoldable pub external_issue_number : String → ℕ → ℕ
unfolding after_last_dash number_or strip_codes
external_issue_number key fallback =
    number_or fallback (strip_codes (after_last_dash (codes key) (codes key)))

-- `_parse_external_issue_number`, of
-- `application/use_cases/manage_queue.py`.
unfoldable pub parse_external_issue_number : String → ℕ
unfolding after_last_dash number_or strip_codes
parse_external_issue_number key =
    number_or 0 (strip_codes (after_last_dash (codes key) (codes key)))

parse_numbers :
    (parse_external_issue_number "PROJ-42 " ≡ 42) × (parse_external_issue_number "a-7-b" ≡ 0)
unfolding parse_external_issue_number
parse_numbers = (refl, refl)
