-- ===== src/Pull.antt =====
-- src/agent_lab/pull.py: the directory of a model, the records of verified files (`_Records`) and
-- `local_state`. SHA-256 and `str` are parameters. A file is its bytes and the time of its last change.
pub mod Records
pub mod Download
pub mod Verify
mod Tests
use agent_lab.Common.{
  ℕ, Bool, true, false, ◌&&◌, ◌||◌, List, [], ◌∷◌, ◌++◌, Option, none, some, String, str_eq,
  if◌then◌else◌, length, map,
}
use agent_lab.Common.Int.{pos}
use agent_lab.Json.{
  Value, Fields, Items, int, str, obj, arr, nil, cons, end, field, get, get_value, put, remove,
  equals_nat,
}
use agent_lab.Json.SameBut.{contains}
use agent_lab.Registry.{ModelFile, ModelEntry}

pub record File : Type 0 where
  pub bytes : List ℕ
  pub mtime : ℕ

-- Files by name.
abbrev pub Files : Type 0
Files = String → Option File

abbrev pub update : Files → String → Option File → Files
update files k file j = if str_eq k j then file else files j

-- `_Records`: `verified` is the dict that the JSON holds.
pub record Memory : Type 0 where
  pub verified : Fields
  pub failed : List String

abbrev pub no_records : Memory
no_records = record { verified = end; failed = [] }

-- The file's size, time and hash, as `remember` writes them.
abbrev pub file_record : File → String → Value
file_record file sha = obj (
    field "size" (int (pos (length file.bytes)))
      (field "mtime_ns" (int (pos file.mtime)) (field "sha256" (str sha) end)))

abbrev text_of : Value → Option String
text_of (str s) = some s
text_of _ = none

-- The hash in a record that fits the file.
unfoldable pub known_of : Option Value → Option File → Option String
known_of (some (obj r)) (some file) =
    if equals_nat (get_value "size" r) (length file.bytes)
      && equals_nat (get_value "mtime_ns" r) file.mtime
    then text_of (get_value "sha256" r)
    else none
known_of _ _ = none

-- `known_sha256(path, name)`
unfoldable pub known_sha256 : Memory → Files → String → Option String
unfolding known_of
known_sha256 m files name = known_of (get name m.verified) (files name)

-- failed.remove(name), where it is there.
unfoldable pub remove_name : String → List String → List String
remove_name name [] = []
remove_name name (n ∷ ns) = let rest = remove_name name ns in if str_eq n name then ns else n ∷ rest

-- `remember(path, name, sha256)`, of a file that is there.
unfoldable pub remember : File → String → String → Memory → Memory
unfolding remove_name
remember file name sha m = record {
  verified = put name (file_record file sha) m.verified;
  failed = remove_name name m.failed;
}

-- `forget(name)`
unfoldable pub forget : String → Memory → Memory
forget name m = record m { verified = remove name m.verified }

unfoldable pub text_items : List String → Items
text_items [] = nil
text_items (s ∷ ss) = cons (str s) (text_items ss)

-- `save`: what state.json holds.
unfoldable pub save : Memory → Value
unfolding text_items
save m = obj (field "verified" (obj m.verified) (field "failed" (arr (text_items m.failed)) end))

module _ (to_text : Value → String) where
  -- [str(n) for n in failed]
  unfoldable pub texts : Items → List String
  texts nil = []
  texts (cons (str s) rest) = s ∷ texts rest
  texts (cons v rest) = to_text v ∷ texts rest

  -- data.get("verified", {}) and data.get("failed", []), where they are a dict and a list.
  load_parts : Option Value → Option Value → Memory
  unfolding texts
  load_parts none none = no_records
  load_parts none (some (arr ns)) = record { verified = end; failed = texts ns }
  load_parts (some (obj vs)) none = record { verified = vs; failed = [] }
  load_parts (some (obj vs)) (some (arr ns)) = record { verified = vs; failed = texts ns }
  load_parts _ _ = no_records

  -- `_Records.load`: none is a file that cannot be read or is not JSON.
  unfoldable pub load : Option Value → Memory
  unfolding load_parts
  load (some (obj fs)) = load_parts (get "verified" fs) (get "failed" fs)
  load _ = no_records

-- The directory of a model: its files, the partial downloads by hash, and state.json.
pub record Directory : Type 0 where
  pub files : Files
  pub partial : Files
  pub state : Option Value

pub data LocalState : Type 0 where
  not_downloaded incomplete unverified downloaded failed_verification : LocalState

abbrev pub is_there : Option File → Bool
is_there none = false
is_there (some file) = true

abbrev pub is_text : Option String → String → Bool
is_text none s = false
is_text (some t) s = str_eq t s

-- any(f.name in failed for f in files)
unfoldable pub any_failed : List ModelFile → List String → Bool
any_failed [] failed = false
any_failed (f ∷ fs) failed = contains failed f.name || any_failed fs failed

unfoldable pub all_there : List ModelFile → Files → Bool
all_there [] files = true
all_there (f ∷ fs) files = is_there (files f.name) && all_there fs files

unfoldable pub any_there : List ModelFile → Files → Bool
any_there [] files = false
any_there (f ∷ fs) files = is_there (files f.name) || any_there fs files

unfoldable pub all_known : List ModelFile → Memory → Files → Bool
unfolding known_sha256
all_known [] m files = true
all_known (f ∷ fs) m files = is_text (known_sha256 m files f.name) f.sha256 && all_known fs m files

-- `local_state(entry)`; whether `partial/` holds any file is an argument.
unfoldable pub local_state : (Value → String) → List ModelFile → Directory → Bool → LocalState
unfolding load any_failed all_there any_there all_known
local_state to_text fs d has_partial =
    let m = load to_text d.state in
    if any_failed fs m.failed
    then failed_verification
    else if all_there fs d.files
    then (if all_known fs m d.files then downloaded else unverified)
    else if any_there fs d.files || has_partial
    then incomplete
    else not_downloaded
