-- ===== src/Policy/Read.antt =====
-- What `application/services/approval_policy.py` reads of policies and payloads.
use issue_to_pr_agent.Prelude.{
  ℕ, suc, String, Bool, true, false, not, ◌||◌, ◌&&◌, Option, none, some, List, [], ◌∷◌, ◌++◌,
  if◌then◌else◌, Result, ok, raise, attribute_error, type_error, ◌>>=◌, format, map, filter, any,
  contains, has_text, is_empty, strip, lower_text, codes, starts_with, has_part, as_posix,
  path_name, fnmatch, or_else, pos, negsuc, eqb, ◌==◌,
}
use issue_to_pr_agent.Domain.Json.{
  Json, Items, Dict, null, bool, num, str, time, arr, obj, nil, cons, get, dict_value, type_name,
  characters, keys,
}
use issue_to_pr_agent.Queue.Create.{sorted_set}
use issue_to_pr_agent.Domain.Approvals.{ApprovalRiskLevel, low, medium, high, critical, risk_value}

-- `policy[key]` of a key that the policy has.
abbrev pub item : String → Dict → Json
item key policy = or_else (get key policy) null

-- `bool(value)`
abbrev pub is_true : Json → Bool
is_true null = false
is_true (bool b) = b
is_true (num (pos n)) = not (eqb n 0)
is_true (num (negsuc n)) = true
is_true (str s) = not (is_empty s)
is_true (time t) = true
is_true (arr nil) = false
is_true (arr (cons i rest)) = true
is_true (obj Dict.empty) = false
is_true (obj (Dict.entry k v rest)) = true

-- A number of `isinstance(value, int) and value >= 0`; a Boolean is the number 0 or 1.
abbrev pub natural : Json → Option ℕ
natural (num (pos n)) = some n
natural (bool true) = some 1
natural (bool false) = some 0
natural _ = none

-- `_int_value`
abbrev pub int_value : Json → ℕ → ℕ
int_value value default = or_else (natural value) default

-- `_lowercase_strings` of texts; a set of which only the members matter.
unfoldable pub lowercase_strings : List String → List String
lowercase_strings items = map (λ s. lower_text (strip s)) (filter has_text items)

-- `item.strip()` of what a payload's list holds.
unfoldable pub texts_of : Items → Result (List String)
texts_of nil = ok []
texts_of (cons (str s) rest) = do more ← texts_of rest; ok (s ∷ more)
texts_of (cons value rest) =
    raise attribute_error
      (format ("'" ∷ type_name value ∷ "' object has no attribute 'strip'" ∷ []))

-- `_extract_issue_labels`
abbrev pub extract_issue_labels : Dict → Items
extract_issue_labels run_payload = labels (get "labels" (dict_value (get "issue" run_payload)))
  where
    labels : Option Json → Items
    labels (some (arr items)) = items
    labels _ = nil

abbrev pub is_changed : Dict → Bool
is_changed receipt = changed (get "changed" receipt)
  where
    changed : Option Json → Bool
    changed (some (bool b)) = b
    changed _ = false

-- The path of a receipt that changed a file.
abbrev pub changed_path : Dict → List String
changed_path receipt = path (get "path" receipt)
  where
    path : Option Json → List String
    path (some (str p)) = if is_changed receipt && has_text p then p ∷ [] else []
    path _ = []

unfoldable pub changed_paths_of : Items → List String
changed_paths_of nil = []
changed_paths_of (cons (obj receipt) rest) = changed_path receipt ++ changed_paths_of rest
changed_paths_of (cons _ rest) = changed_paths_of rest

-- `_extract_changed_paths`
abbrev pub extract_changed_paths : Dict → List String
extract_changed_paths execution_payload = paths (get "receipts" execution_payload)
  where
    paths : Option Json → List String
    paths (some (arr items)) = changed_paths_of items
    paths _ = []

unfoldable pub ends_with_slash : String → Bool
ends_with_slash String.[] = false
ends_with_slash (String.◌∷◌ c s) =
    let more = ends_with_slash s in if is_empty s then eqb (Prim.Native.Char.code c) b'/' else more

abbrev pub has_prefix : String → String → Bool
has_prefix text prefix = starts_with (codes prefix) (codes text)

-- One pattern that is not blank, on one path.
unfoldable pub matches_pattern : String → String → Bool
unfolding ends_with_slash
matches_pattern path pattern =
    if ends_with_slash pattern
    then has_prefix (as_posix path) pattern
    else if has_part (codes "*") (codes pattern) || has_part (codes "?") (codes pattern)
    then fnmatch (as_posix path) pattern || fnmatch (path_name path) pattern
    else (as_posix path == pattern || path_name path == pattern)
      || has_prefix (path_name path) pattern

-- `_matching_paths`; a set of which the members matter.
unfoldable pub matching_paths : List String → List String → List String
unfolding matches_pattern
matching_paths paths patterns = map as_posix (
    filter
      (λ path. any (λ pattern. has_text pattern && matches_pattern path (strip pattern)) patterns)
      paths)

-- The decision of an object of `command_assessments`.
abbrev pub assessed : Dict → Result (List String)
assessed d = decision (get "decision" d)
  where
    decision : Option Json → Result (List String)
    decision (some (str s)) = ok (s ∷ [])
    decision (some (arr items)) = raise type_error "unhashable type: 'list'"
    decision (some (obj inner)) = raise type_error "unhashable type: 'dict'"
    decision _ = ok []

-- The texts among the decisions of `command_assessments`.
unfoldable pub assessed_decisions : Items → Result (List String)
assessed_decisions nil = ok []
assessed_decisions (cons (obj d) rest) = do
  first ← assessed d
  more ← assessed_decisions rest
  ok (first ++ more)
assessed_decisions (cons _ rest) = assessed_decisions rest

abbrev pub command_decisions : Dict → Result (List String)
command_decisions run_payload = decisions (get "command_assessments" run_payload)
  where
    decisions : Option Json → Result (List String)
    decisions (some (arr items)) = assessed_decisions items
    decisions _ = ok []

abbrev pub items_length : Items → ℕ
items_length nil = 0
items_length (cons i rest) = suc (items_length rest)

-- The length of the list at a key, or 0.
abbrev pub length_at : String → Dict → ℕ
length_at key payload = count_items (get key payload)
  where
    count_items : Option Json → ℕ
    count_items (some (arr items)) = items_length items
    count_items _ = 0

abbrev fallback : ApprovalRiskLevel → ℕ
fallback low = 0
fallback medium = 1
fallback high = 1
fallback critical = 2

-- `_required_approvals`, for one level of risk.
unfoldable pub required_approvals : Json → ApprovalRiskLevel → ℕ
required_approvals (obj d) risk = or_else (natural (item (risk_value risk) d)) (fallback risk)
required_approvals _ risk = fallback risk

-- The texts of `for item in value`.
unfoldable pub iterated : Json → Result (List String)
unfolding texts_of
iterated (arr items) = texts_of items
iterated (str s) = ok (characters s)
iterated (obj d) = ok (keys d)
iterated value = raise type_error (format ("'" ∷ type_name value ∷ "' object is not iterable" ∷ []))

-- The labels that a list of the policy has, which is read for each label and so not without one.
unfoldable pub labels_among : List String → Json → Result (List String)
unfolding iterated
labels_among [] value = ok []
labels_among (label ∷ rest) value = do
  listed ← iterated value
  ok (sorted_set (filter (contains (lowercase_strings listed)) (label ∷ rest)))
