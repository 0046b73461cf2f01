-- ===== src/Policy/Merge.antt =====
-- What merged policies hold: `_merge_dicts`, `_load_policy` and `_repo_policy`.
use issue_to_pr_agent.Prelude.{
  String, true, ◌≡◌, refl, Option, none, some, if◌then◌else◌, ◌==◌, eq_iff, is_some, sym, arith,
  Bool-cases, inl, inr,
}
use issue_to_pr_agent.Domain.Json.{
  Json, Dict, null, bool, num, str, time, arr, obj, empty, entry, get, put, get-put, dict_value,
}
use issue_to_pr_agent.Policy.Load.{merge_dicts, is_object}

-- No key stands twice, at this level of an object.
abbrev pub UniqueKeys : Dict → Type 0
UniqueKeys empty = Unit
UniqueKeys (entry key value rest) = (get key rest ≡ none) × UniqueKeys rest

-- Every key of the first object is one of the second.
abbrev pub Keeps : Dict → Dict → Type 0
Keeps d e = (k : String) → is_some (get k d) ≡ true → is_some (get k e) ≡ true

put-Keeps : (key : String) (value : Json) (d : Dict) → Keeps d (put key value d)
put-Keeps key value d k h = ground (arith, get-put key k value d)

abbrev pub nested : Dict → Option Json → Dict
nested inner (some (obj d)) = merge_dicts d inner
nested inner _ = inner

abbrev pub merged_value : Json → Option Json → Json
merged_value (obj inner) old = obj (nested inner old)
merged_value value old = value

nested_if :
    (old : Option Json) (inner : Dict)
    → (if is_object old then merge_dicts (dict_value old) inner else inner) ≡ nested inner old
nested_if none inner = refl
nested_if (some null) inner = refl
nested_if (some (bool b)) inner = refl
nested_if (some (num n)) inner = refl
nested_if (some (str s)) inner = refl
nested_if (some (time t)) inner = refl
nested_if (some (arr items)) inner = refl
nested_if (some (obj d)) inner = refl

-- One key of a merge: the override's value, merged with the base's where both are objects.
abbrev pub merged_at : Option Json → Option Json → Option Json
merged_at none old = old
merged_at (some value) old = some (merged_value value old)

merge_dicts-entry :
    (base : Dict) (key : String) (value : Json) (rest : Dict)
    → merge_dicts base (entry key value rest)
      ≡ merge_dicts (put key (merged_value value (get key base)) base) rest
unfolding merge_dicts
merge_dicts-entry base key null rest = refl
merge_dicts-entry base key (bool b) rest = refl
merge_dicts-entry base key (num n) rest = refl
merge_dicts-entry base key (str s) rest = refl
merge_dicts-entry base key (time t) rest = refl
merge_dicts-entry base key (arr items) rest = refl
merge_dicts-entry base key (obj inner) rest = rw (nested_if (get key base) inner)

pub merge_dicts-Keeps : (base override : Dict) → Keeps base (merge_dicts base override)
unfolding merge_dicts
merge_dicts-Keeps base empty k h = h
merge_dicts-Keeps base (entry key value rest) k h = rw (merge_dicts-entry base key value rest) (
    merge_dicts-Keeps (put key (merged_value value (get key base)) base) rest k
      (put-Keeps key (merged_value value (get key base)) base k h))

-- Merging keeps every key of the base that the override does not have, merges the two objects where both
-- have one at a key, and takes the override's value everywhere else.
pub get-merge_dicts :
    (k : String) (base override : Dict)
    → UniqueKeys override
    → get k (merge_dicts base override) ≡ merged_at (get k override) (get k base)
unfolding merge_dicts get
get-merge_dicts k base empty unique = refl
get-merge_dicts k base (entry key value rest) unique =
    let merged = put key (merged_value value (get key base)) base in
    let ih = get-merge_dicts k merged rest unique.1 in
    let written = get-put key k (merged_value value (get key base)) base in
    elim (Bool-cases (key == k)) [
      | inl hit ↦
          let same = (eq_iff key k).0 hit in
          rw (merge_dicts-entry base key value rest, ih, written, hit, sym same, unique.0)
      | inr miss ↦ rw (merge_dicts-entry base key value rest, ih, written, miss)
    ]
