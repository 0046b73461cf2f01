-- ===== src/Policy/Load.antt =====
-- The policy files and their sections: `_merge_dicts`, `_load_policy` and `_repo_policy`, which
-- `approval_policy.py` and `delivery_governance.py` of `application/services` both have.
use issue_to_pr_agent.Prelude.{
  String, Bool, true, false, Option, none, some, List, [], ◌∷◌, if◌then◌else◌, Result, ok, raise,
  configuration_error, ◌>>=◌, format,
}
use issue_to_pr_agent.Domain.Json.{Json, Dict, obj, empty, entry, get, put, dict_value}

abbrev pub is_object : Option Json → Bool
is_object (some (obj d)) = true
is_object _ = false

-- `_merge_dicts`
unfoldable pub merge_dicts : Dict → Dict → Dict
merge_dicts base empty = base
merge_dicts base (entry key (obj inner) rest) =
    let nested = merge_dicts (dict_value (get key base)) inner in
    merge_dicts (put key (obj (if is_object (get key base) then nested else inner)) base) rest
merge_dicts base (entry key value rest) = merge_dicts (put key value base) rest

-- What distinguishes the two policies: their default, their sections, and the words of their errors.
pub record PolicyKind : Type 0 where
  pub default_policy : Dict
  pub sections : List String
  pub name : String
  pub override_name : String

-- `if not isinstance(value, dict): raise`
abbrev pub object_or_raise : String → Json → Result Dict
object_or_raise message (obj d) = ok d
object_or_raise message _ = raise configuration_error message

abbrev pub merged_section : String → String → Dict → Option Json → Result Dict
merged_section name key policy none = ok policy
merged_section name key policy (some value) = do
  section ←
      object_or_raise (format (name ∷ " section '" ∷ key ∷ "' must be a JSON object." ∷ [])) value
  ok (put key (obj (merge_dicts (dict_value (get key policy)) section)) policy)

-- The loop over the sections.
unfoldable pub merge_sections : String → List String → Dict → Dict → Result Dict
merge_sections name [] document policy = ok policy
merge_sections name (key ∷ rest) document policy = do
  merged ← merged_section name key policy (get key document)
  merge_sections name rest document merged

-- The text of a policy file, as `json.loads` reads it: nothing where it is not valid.
pub record PolicyFile : Type 0 where
  pub path : String
  pub content : Option Json

abbrev pub read_file : PolicyKind → PolicyFile → Result Dict
read_file kind file = read file.content
  where
    read : Option Json → Result Dict
    read none =
        raise configuration_error
          (format (kind.name ∷ " file is not valid JSON: " ∷ file.path ∷ []))
    read (some value) =
        object_or_raise (format (kind.name ∷ " file must contain a JSON object." ∷ [])) value

abbrev pub load_file : PolicyKind → Option PolicyFile → Result Dict
load_file kind none = ok kind.default_policy
load_file kind (some file) = do
  document ← read_file kind file
  merge_sections kind.name kind.sections document kind.default_policy

abbrev pub with_overrides : PolicyKind → Option Json → Dict → Result Dict
with_overrides kind none policy = ok policy
with_overrides kind (some value) policy = do
  overrides ← object_or_raise "Tenant policy overrides must be a JSON object." value
  merge_sections (format (kind.override_name ∷ " override" ∷ [])) kind.sections overrides policy

-- `_load_policy`
unfoldable pub load_policy : PolicyKind → Option PolicyFile → Option Json → Result Dict
load_policy kind file overrides = do
  policy ← load_file kind file
  with_overrides kind overrides policy

abbrev pub with_repo : Dict → Option Json → Dict
with_repo defaults (some (obj override)) = merge_dicts defaults override
with_repo defaults _ = defaults

-- `_repo_policy`
unfoldable pub repo_policy : Dict → String → Dict
unfolding merge_dicts
repo_policy policy repo_full_name =
    with_repo (dict_value (get "default" policy))
      (get repo_full_name (dict_value (get "repos" policy)))
