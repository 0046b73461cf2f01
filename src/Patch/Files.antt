-- ===== src/Patch/Files.antt =====
-- The files of a working tree, and what the patch executor asks of the host.
use issue_to_pr_agent.Prelude.{
  ℕ, ◌≡◌, refl, String, Bool, true, false, ◌&&◌, ◌==◌, eq_iff, Option, none, some, List, [], ◌∷◌,
  if◌then◌else◌, format, join, arith, is_absolute, append-is_absolute, is_some, Bool-cases, inl,
  inr,
}
use issue_to_pr_agent.Domain.Json.{Dict}
use issue_to_pr_agent.Domain.Queue.{FilePath}

-- What stands at a path: a text, or what `read_text` cannot read, with its size.
pub data FileContent : Type 0 where
  text : String → FileContent
  binary : ℕ → FileContent
  directory : ℕ → FileContent

-- An absolute path is the list of its parts.
abbrev pub Files : Type 0
Files = List (FilePath × FileContent)

-- The operating system and the standard library: `Path.resolve` and `is_symlink`, the size of a text in
-- UTF-8, its digest, the words of the errors that name a path, and the texts of `json.dumps` and of
-- `datetime.isoformat`.
pub record Host : Type 0 where
  pub resolve : FilePath → FilePath
  pub is_symlink : FilePath → Bool
  pub byte_length : String → ℕ
  pub sha256 : String → String
  pub not_in_subpath : String → String → String
  pub is_a_directory : String → String
  pub dumps : Dict → String
  pub isoformat : ℕ → String

abbrev pub same_path : FilePath → FilePath → Bool
same_path [] [] = true
same_path [] (y ∷ ys) = false
same_path (x ∷ xs) [] = false
same_path (x ∷ xs) (y ∷ ys) = x == y && same_path xs ys

pub same_path-eq : (p q : FilePath) → same_path p q ≡ true → p ≡ q
same_path-eq [] [] h = refl
same_path-eq [] (y ∷ ys) h = cc
same_path-eq (x ∷ xs) [] h = cc
same_path-eq (x ∷ xs) (y ∷ ys) h = ground (arith, eq_iff x y, same_path-eq xs ys)

-- `str(path)` of an absolute path.
abbrev pub absolute_text : FilePath → String
absolute_text path = format ("/" ∷ join "/" path ∷ [])

-- `str(path)` of a relative path.
abbrev pub relative_text : FilePath → String
relative_text [] = "."
relative_text (part ∷ rest) = join "/" (part ∷ rest)

-- `path.relative_to(root)`, where it is below the root.
abbrev pub below : FilePath → FilePath → Option FilePath
below [] path = some path
below (r ∷ root) [] = none
below (r ∷ root) (part ∷ path) = let rest = below root path in if r == part then rest else none

unfoldable pub content_at : FilePath → Files → Option FileContent
content_at path [] = none
content_at path ((p, content) ∷ rest) =
    let more = content_at path rest in if same_path p path then some content else more

unfoldable pub write_text : FilePath → String → Files → Files
write_text path s [] = (path, text s) ∷ []
write_text path s ((p, content) ∷ rest) =
    let more = write_text path s rest in
    if same_path p path then (p, text s) ∷ rest else (p, content) ∷ more

-- `path.exists()`
abbrev pub exists : FilePath → Files → Bool
exists path files = is_some (content_at path files)

pub content_at-write_text :
    (path other : FilePath) (s : String) (files : Files)
    → same_path path other ≡ false
    → content_at other (write_text path s files) ≡ content_at other files
unfolding content_at write_text
content_at-write_text path other s [] h = rw h
content_at-write_text path other s ((p, content) ∷ rest) h = elim (Bool-cases (same_path p path)) [
  | inl hit ↦
      let elsewhere : same_path p other ≡ false = rw (same_path-eq p path hit) h in
      rw (hit, elsewhere)
  | inr miss ↦ rw (miss, content_at-write_text path other s rest h)
]

pub absolute_text-is_absolute : (path : FilePath) → is_absolute (absolute_text path) ≡ true
unfolding format
absolute_text-is_absolute path = append-is_absolute "/" (format (join "/" path ∷ [])) refl
