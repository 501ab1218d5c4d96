-- ===== src/Registry/Entries.antt =====
-- src/agent_lab/registry.py: `parse_registry`, over the tables of the TOML file.
pub mod Checked
use agent_lab.Common.{
  ℕ, suc, Bool, true, false, ◌&&◌, ◌||◌, not, List, [], ◌∷◌, ◌++◌, Option, none, some, String,
  str_eq, if◌then◌else◌, ◌==◌, length, ltb,
}
use agent_lab.Json.{Value, Fields, Items, arr, nil, cons, end, field, get}
use agent_lab.Config.Text.{codes, all_in, is_digit, is_lower, is_upper}
use agent_lab.Config.Size.{Python}
use agent_lab.Config.Section.{
  Section, Problem, of_section, of_field, between_fields, Read, ◌>>=◌, ◌>>◌, pure, open_section,
  finish, string, size,
}
use agent_lab.Registry.{ModelFile, ModelEntry, total_size}
use agent_lab.Registry.Files.{split_slashes, read_files}

abbrev id_char : ℕ → Bool
id_char c = is_lower c || is_digit c

abbrev mark : ℕ → Bool
mark c = (c == b'.') || ((c == b'_') || (c == b'-'))

-- `_ID_RE`: [a-z0-9][a-z0-9._-]*
unfoldable pub is_model_id : List ℕ → Bool
unfolding all_in is_lower is_digit
is_model_id [] = false
is_model_id (c ∷ cs) = id_char c && all_in (λ d. id_char d || mark d) cs

abbrev repo_char : ℕ → Bool
repo_char c = is_upper c || id_char c

-- [A-Za-z0-9][A-Za-z0-9._-]*
unfoldable pub is_repo_part : List ℕ → Bool
unfolding all_in is_lower is_upper is_digit
is_repo_part [] = false
is_repo_part (c ∷ cs) = repo_char c && all_in (λ d. repo_char d || mark d) cs

abbrev two_parts : List ℕ → List (List ℕ) → Bool
two_parts first (second ∷ []) = is_repo_part first && is_repo_part second
two_parts first _ = false

-- `_REPO_RE`: two such parts and a slash.
unfoldable pub is_repo : List ℕ → Bool
unfolding split_slashes is_repo_part
is_repo cs = let (first, rest) = split_slashes cs in two_parts first rest

-- `_REVISION_RE`: [0-9a-f]{40}
unfoldable pub is_revision : List ℕ → Bool
unfolding all_in is_digit
is_revision cs = (length cs == 40) && all_in (λ c. is_digit c || not (ltb c b'a' || ltb b'f' c)) cs

-- A registry, a ConfigError with the errors found, or an OverflowError of `int`.
pub data Loaded : Type 0 where
  registry : List ModelEntry → Loaded
  invalid : List Problem → Loaded
  overflow : Loaded

unfoldable pub has_id : String → List ModelEntry → Bool
has_id id [] = false
has_id id (e ∷ es) = str_eq e.id id || has_id id es

abbrev pub none_listed : List ModelFile → Bool
none_listed [] = true
none_listed (f ∷ fs) = false

-- files and disk_space and disk_space < entry.total_size
unfoldable pub too_small : ModelEntry → Bool
too_small e =
    not (none_listed e.files) && (not (e.disk_space == 0) && ltb e.disk_space (total_size e))

-- An entry after its section was read.
unfoldable pub add_entry :
    String → ModelEntry → List ModelEntry → List Problem → List ModelEntry × List Problem
unfolding has_id too_small
add_entry label e entries errors =
    if has_id e.id entries then (entries, of_field label "id" ∷ errors) else (
      if str_eq e.id "" then entries else entries ++ e ∷ [],
      if too_small e then of_field label "disk_space" ∷ errors else errors,
    )

unfoldable pub unknown_tables : Fields → List Problem
unknown_tables end = []
unknown_tables (field k v rest) =
    let others = unknown_tables rest in if str_eq k "model" then others else of_section k ∷ others

-- if errors: raise ConfigError
unfoldable pub conclude : Option (List ModelEntry × List Problem) → Loaded
conclude none = overflow
conclude (some (entries, [])) = registry entries
conclude (some (entries, e ∷ es)) = invalid (e ∷ es)

-- What an f-string makes of the number and the `id` of a table.
module _ (py : Python) (label : ℕ → Value → String) where
  -- The fields of a table.
  unfoldable pub entry_section : String → Read ModelEntry
  entry_section name = do
    id ← string "id" (λ s. is_model_id (codes s))
    description ← string "description" (λ s. true)
    repo ← string "repo" (λ s. is_repo (codes s))
    revision ← string "revision" (λ s. is_revision (codes s))
    disk_space ← size py "disk_space"
    files ← read_files name
    pure (record {
      id = id;
      description = description;
      repo = repo;
      revision = revision;
      disk_space = disk_space;
      files = files;
    })

  -- The body of the loop over the tables.
  unfoldable pub add_table :
      String → Value → List ModelEntry → List Problem → Option (List ModelEntry × List Problem)
  unfolding add_entry
  add_table name table entries errors =
      elim (entry_section name (open_section name (some table) errors)) [
        | none ↦ none
        | some (e, s) ↦ some (add_entry name e entries (finish s))
      ]

  unfoldable pub add_tables :
      ℕ → Items → List ModelEntry → List Problem → Option (List ModelEntry × List Problem)
  unfolding add_table
  add_tables n nil entries errors = some (entries, errors)
  add_tables n (cons table rest) entries errors =
      elim (add_table (label n table) table entries errors) [
        | none ↦ none
        | some (more, after) ↦ add_tables (suc n) rest more after
      ]

  -- `parse_registry(path, data)`
  unfoldable pub parse_registry : Fields → Loaded
  unfolding add_tables unknown_tables conclude
  parse_registry tables = elim (get "model" tables) [
    | none ↦ conclude (some ([], unknown_tables tables))
    | some (arr items) ↦ conclude (add_tables 0 items [] (unknown_tables tables))
    | some _ ↦ conclude (some ([], of_section "model" ∷ unknown_tables tables))
  ]
