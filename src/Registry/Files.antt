-- ===== src/Registry/Files.antt =====
-- src/agent_lab/registry.py: `_file_name_problem` and `_parse_files`. A problem is kept as the section
-- and the key that it names.
pub mod Checked
use agent_lab.Common.{
  ℕ, ◌≡◌, Bool, true, false, ◌&&◌, ◌||◌, not, List, [], ◌∷◌, ◌++◌, Option, none, some, String,
  if◌then◌else◌, ◌==◌, length, ltb,
}
use agent_lab.Common.Int.{pos}
use agent_lab.Json.{Value, Fields, Items, int, str, obj, arr, nil, cons, end, field, get, get_value}
use agent_lab.Json.SameBut.{contains}
use agent_lab.Config.Text.{codes, all_in, is_digit}
use agent_lab.Config.Size.{same_text}
use agent_lab.Config.Section.{Section, Problem, of_field, Read}
use agent_lab.Registry.{ModelFile, names}

-- The parts of a name between its slashes: the first, and the others.
unfoldable pub split_slashes : List ℕ → List ℕ × List (List ℕ)
split_slashes [] = ([], [])
split_slashes (c ∷ cs) =
    let (first, rest) = split_slashes cs in
    if c == b'/' then ([], first ∷ rest) else (c ∷ first, rest)

-- A part that is not "", "." or "..".
unfoldable pub part_fine : List ℕ → Bool
part_fine p = not (same_text p [] || (same_text p (codes ".") || same_text p (codes "..")))

unfoldable pub parts_fine : List (List ℕ) → Bool
unfolding part_fine
parts_fine [] = true
parts_fine (p ∷ ps) = part_fine p && parts_fine ps

-- Whether `_file_name_problem(name)` is None. A name that is empty or starts with a slash has an
-- empty part.
unfoldable pub name_fine : List ℕ → Bool
unfolding split_slashes part_fine parts_fine all_in
name_fine name =
    let (first, rest) = split_slashes name in
    all_in (λ c. not (c == b'\\')) name
    && (part_fine first && (parts_fine rest && not (same_text first (codes ".alab"))))

-- `_SHA256_RE`: [0-9a-f]{64}
unfoldable pub is_sha256 : List ℕ → Bool
unfolding all_in is_digit
is_sha256 cs = (length cs == 64) && all_in (λ c. is_digit c || not (ltb c b'a' || ltb b'f' c)) cs

abbrev pub file_fields : List String
file_fields = "name" ∷ "size" ∷ "sha256" ∷ []

unfoldable pub unknown_keys : String → Fields → List Problem → List Problem
unknown_keys label end errors = errors
unknown_keys label (field k v rest) errors =
    unknown_keys label rest (if contains file_fields k then errors else of_field label k ∷ errors)

-- The tests of the three fields.
unfoldable pub name_good : List String → Value → Bool
unfolding name_fine
name_good seen (str n) = name_fine (codes n) && not (contains seen n)
name_good seen _ = false

abbrev size_good : Value → Bool
size_good (int (pos n)) = true
size_good _ = false

unfoldable pub sha_good : Value → Bool
unfolding is_sha256
sha_good (str s) = is_sha256 (codes s)
sha_good _ = false

-- if not good: error
abbrev pub unless : Bool → String → String → List Problem → List Problem
unless true label key errors = errors
unless false label key errors = of_field label key ∷ errors

-- The file of three good values.
abbrev file_of : Value → Value → Value → Option ModelFile
file_of (str n) (int (pos k)) (str h) = some (record { name = n; size = k; sha256 = h })
file_of _ _ _ = none

-- `if ok: files.append(...)`
abbrev pub add_file : Option ModelFile → List ModelFile → List ModelFile
add_file none files = files
add_file (some f) files = files ++ f ∷ []

abbrev pub all_good : List String → Fields → Bool
all_good seen fs =
    name_good seen (get_value "name" fs)
    && (size_good (get_value "size" fs) && sha_good (get_value "sha256" fs))

-- One item of the list, with the files before it.
unfoldable pub parse_item :
    String → Value → List ModelFile → List Problem → List ModelFile × List Problem
unfolding unknown_keys name_good sha_good
parse_item label (obj fs) files errors = (
  if all_good (names files) fs
      then add_file (file_of (get_value "name" fs) (get_value "size" fs) (get_value "sha256" fs))
          files
      else files,
  unless (sha_good (get_value "sha256" fs)) label "sha256" (
      unless (size_good (get_value "size" fs)) label "size" (
        unless (name_good (names files) (get_value "name" fs)) label "name"
          (unknown_keys label fs errors))),
)
parse_item label _ files errors = (files, of_field label "files" ∷ errors)

unfoldable pub parse_items :
    String → Items → List ModelFile → List Problem → List ModelFile × List Problem
unfolding parse_item
parse_items label nil files errors = (files, errors)
parse_items label (cons item rest) files errors =
    let (more, after) = parse_item label item files errors in parse_items label rest more after

-- `_parse_files(where, value, errors)`
unfoldable pub parse_files : String → Option Value → List Problem → List ModelFile × List Problem
unfolding parse_items
parse_files label (some (arr (cons item rest))) errors =
    parse_items label (cons item rest) [] errors
parse_files label _ errors = ([], of_field label "files" ∷ errors)

-- s.seen.add("files"), and the files where the section is a table.
unfoldable pub read_files : String → Read (List ModelFile)
unfolding parse_files
read_files label s =
    let (files, errors) = parse_files label (get "files" s.table) s.errors in
    let seen = "files" ∷ s.seen in
    if s.valid
    then some (files, record s { seen = seen; errors = errors })
    else some ([], record s { seen = seen })
