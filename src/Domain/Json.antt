-- ===== src/Domain/Json.antt =====
-- The JSON objects that `infrastructure/persistence/run_repository.py` stores beside each row
-- (`payload_json`), and that the use cases read and update as `dict[str, object]`.
use issue_to_pr_agent.Prelude.{
  ℕ, String, ◌≡◌, refl, Option, none, some, List, [], ◌∷◌, arith, ◌==◌, eq_iff, ℤ, Bool,
  if◌then◌else◌, has_text, pos,
}

mutual
  -- `time` is the text that `datetime.isoformat` writes for an instant.
  pub data Json : Type 0 where
    null : Json
    bool : Bool → Json
    num : ℤ → Json
    str : String → Json
    time : ℕ → Json
    arr : Items → Json
    obj : Dict → Json

  pub data Items : Type 0 where
    nil : Items
    cons : Json → Items → Items

  pub data Dict : Type 0 where
    empty : Dict
    entry : String → Json → Dict → Dict

-- `d.get(key)`
unfoldable pub get : String → Dict → Option Json
get k empty = none
get k (entry j v d) = if j == k then some v else get k d

-- `d[key] = value`
unfoldable pub put : String → Json → Dict → Dict
put k v empty = entry k v empty
put k v (entry j w d) = if j == k then entry k v d else entry j w (put k v d)

-- A read after a write: the new value at the key, the old one elsewhere.
pub get-put :
    (k j : String) (v : Json) (d : Dict) → get j (put k v d) ≡ (if k == j then some v else get j d)
unfolding get put
get-put k j v empty = refl
get-put k j v (entry i w d) = ground (arith, eq_iff k j, eq_iff i k, eq_iff i j, get-put k j v d)

abbrev pub opt_str : Option String → Json
opt_str none = null
opt_str (some s) = str s

abbrev pub opt_time : Option ℕ → Json
opt_time none = null
opt_time (some t) = time t

abbrev pub nat : ℕ → Json
nat n = num (pos n)

abbrev pub strs : List String → Items
strs [] = nil
strs (s ∷ rest) = cons (str s) (strs rest)

-- `_dict_value`
abbrev pub dict_value : Option Json → Dict
dict_value (some (obj d)) = d
dict_value _ = empty

-- The strings of a list that are not blank, the others dropped (`_string_list`).
unfoldable pub string_items : Items → List String
unfolding has_text
string_items nil = []
string_items (cons (str s) rest) =
    let more = string_items rest in if has_text s then s ∷ more else more
string_items (cons _ rest) = string_items rest

abbrev pub string_list : Option Json → List String
string_list (some (arr items)) = string_items items
string_list _ = []

-- The name of a value's type, in an error.
abbrev pub type_name : Json → String
type_name null = "NoneType"
type_name (bool b) = "bool"
type_name (num n) = "int"
type_name (arr items) = "list"
type_name (obj d) = "dict"
type_name _ = "str"

-- What `for item in value` gives of a text and of an object.
abbrev pub characters : String → List String
characters String.[] = []
characters (String.◌∷◌ c s) = String.◌∷◌ c "" ∷ characters s

abbrev pub keys : Dict → List String
keys empty = []
keys (entry k v rest) = k ∷ keys rest
