-- ===== src/Gateway/Keys.antt =====
-- src/agent_lab/gateway/keys.py: the key file, `alab keys create` and `revoke`, and the gateway's
-- `KeyStore`. SHA-256, the TOML parser and `str` are parameters. The lock of `_locked` is held
-- during a whole command, so a command is one step on the file. A TOML date stands as `null`.
pub mod Toml
pub mod Saved
pub mod Store
mod Tests
use Prim.Native.String.{◌++◌ as append}
use agent_lab.Common.{
  ℕ, ◌+◌, ◌-◌, ◌*◌, ◌≡◌, Bool, true, false, ◌&&◌, ◌||◌, not, List, [], ◌∷◌, ◌++◌, map, Option, none,
  some, String, str_eq, if◌then◌else◌, leb, ◌==◌, length,
}
use agent_lab.Json.{Value, Fields, null, str, obj, end, field, get}
use agent_lab.Config.Text.{codes, all_in, is_lower, is_digit}

pub record Hashing : Type 0 where
  -- tomllib: none is a TOMLDecodeError
  pub parse : String → Option Fields
  -- hashlib.sha256(key.encode()).digest() and .hexdigest()
  pub digest : String → List ℕ
  pub hexdigest : String → String
  -- str(value), of what is no text
  pub to_text : Value → String

pub record KeyEntry : Type 0 where
  pub name : String
  pub hash : String
  pub created : String

-- (st_ino, st_mtime_ns, st_size)
pub record Stamp : Type 0 where
  pub inode : ℕ
  pub modified : ℕ
  pub bytes : ℕ

pub data Contents : Type 0 where
  unreadable : Contents
  not_utf8 : Contents
  text : String → Contents

-- keys.toml: it does not exist, its path cannot be looked up or opened (any other OSError), or it has
-- a stamp and contents.
pub data KeysFile : Type 0 where
  absent unreachable : KeysFile
  present : Stamp → Contents → KeysFile

-- Entries, a KeysError, or a UnicodeDecodeError of the TOML parser.
pub data Loaded : Type 0 where
  entries : List KeyEntry → Loaded
  broken : Loaded
  undecodable : Loaded

-- The text after a prefix.
unfoldable pub strip_prefix : List ℕ → List ℕ → Option (List ℕ)
strip_prefix [] cs = some cs
strip_prefix (p ∷ ps) [] = none
strip_prefix (p ∷ ps) (c ∷ cs) = let rest = strip_prefix ps cs in if p == c then rest else none

abbrev name_char : ℕ → Bool
name_char c = is_lower c || is_digit c

-- `NAME_RE`: [a-z0-9][a-z0-9_-]{0,63}
unfoldable pub is_key_name : List ℕ → Bool
unfolding all_in is_lower is_digit
is_key_name [] = false
is_key_name (c ∷ cs) =
    name_char c && (leb (length cs) 63 && all_in (λ d. name_char d || (d == b'_' || d == b'-')) cs)

abbrev hex_char : ℕ → Bool
hex_char c = is_digit c || (leb b'a' c && leb c b'f')

-- `_HASH_RE`: sha256:[0-9a-f]{64}
unfoldable pub is_hash : List ℕ → Bool
unfolding strip_prefix all_in is_digit
is_hash cs = elim (strip_prefix (codes "sha256:") cs) [
  | none ↦ false
  | some rest ↦ (length rest == 64) && all_in hex_char rest
]

abbrev hex_value : ℕ → ℕ
hex_value c = if leb c b'9' then c - 48 else c - 87

-- `bytes.fromhex`, of hexadecimal digits.
unfoldable pub from_hex : List ℕ → List ℕ
from_hex (c ∷ d ∷ rest) = (hex_value c * 16 + hex_value d) ∷ from_hex rest
from_hex _ = []

-- `.removeprefix("sha256:")`
unfoldable pub remove_prefix : List ℕ → List ℕ
unfolding strip_prefix
remove_prefix cs = elim (strip_prefix (codes "sha256:") cs) [ none ↦ cs | some rest ↦ rest ]

-- "\n".join(lines)
unfoldable pub join_lines : List String → String
join_lines [] = ""
join_lines (line ∷ []) = line
join_lines (line ∷ lines) = append line (append "\n" (join_lines lines))

unfoldable pub entry_lines : List KeyEntry → List String
entry_lines [] = []
entry_lines (e ∷ es) =
    append "[keys." (append e.name "]")
    ∷ append "hash = \"" (append e.hash "\"")
    ∷ append "created = \"" (append e.created "\"")
    ∷ ""
    ∷ entry_lines es

-- `_render(entries)`
unfoldable pub render : List KeyEntry → String
unfolding join_lines entry_lines
render es = join_lines (
    "# API keys for the gateway, managed by `alab keys`. Only hashes are stored."
    ∷ ""
    ∷ entry_lines es)

-- any(e.name == name for e in entries)
unfoldable pub has_name : String → List KeyEntry → Bool
has_name name [] = false
has_name name (e ∷ es) = str_eq e.name name || has_name name es

-- [e for e in entries if e.name != name]
unfoldable pub without_name : String → List KeyEntry → List KeyEntry
without_name name [] = []
without_name name (e ∷ es) =
    let rest = without_name name es in if str_eq e.name name then rest else e ∷ rest

-- What a command of `alab keys` ends with.
pub data Outcome : Type 0 where
  made : String → Outcome
  revoked : Outcome
  -- KeysError
  refused : Outcome
  -- a UnicodeDecodeError
  failed : Outcome
  -- an OSError of `_save`
  not_written : Outcome

module _ (lib : Hashing) where
  unfoldable pub created_text : Fields → String
  created_text fs = elim (get "created" fs) [
    | none ↦ ""
    | some (str s) ↦ s
    | some v ↦ lib.to_text v
  ]

  -- One entry of the table, where it is valid.
  unfoldable pub read_entry : String → Value → Option KeyEntry
  unfolding created_text
  read_entry name (obj fs) = elim (get "hash" fs) [
    | some (str h) ↦
        if is_key_name (codes name) && is_hash (codes h)
        then some (record { name = name; hash = h; created = created_text fs })
        else none
    | _ ↦ none
  ]
  read_entry name _ = none

  unfoldable pub read_entries : Fields → Option (List KeyEntry)
  unfolding read_entry
  read_entries end = some []
  read_entries (field name item rest) = elim (read_entry name item) [
    | none ↦ none
    | some e ↦ elim (read_entries rest) [ none ↦ none | some es ↦ some (e ∷ es) ]
  ]

  -- data.get("keys", {}) and its entries.
  unfoldable pub read_table : Option Value → Loaded
  unfolding read_entries
  read_table none = entries []
  read_table (some (obj table)) = elim (read_entries table) [ none ↦ broken | some es ↦ entries es ]
  read_table (some _) = broken

  unfoldable pub load : KeysFile → Loaded
  unfolding read_table
  load absent = entries []
  load unreachable = broken
  load (present stamp unreadable) = broken
  load (present stamp not_utf8) = undecodable
  load (present stamp (text t)) = elim (lib.parse t) [
    | none ↦ broken
    | some table ↦ read_table (get "keys" table)
  ]

  -- `hash_key(key)`
  unfoldable pub hash_key : String → String
  hash_key key = append "sha256:" (lib.hexdigest key)

  -- `_save`: the stamp of the new file, or none where writing fails and the old file stays.
  unfoldable pub save : List KeyEntry → Option Stamp → Outcome → KeysFile → Outcome × KeysFile
  unfolding render
  save es none done file = (not_written, file)
  save es (some stamp) done file = (done, present stamp (text (render es)))

  -- KEY_PREFIX + the token
  abbrev pub new_key : String → String
  new_key token = append "sk-alab-" token

  abbrev pub new_entry : String → String → String → KeyEntry
  new_entry name token now = record { name = name; hash = hash_key (new_key token); created = now }

  -- `create(name)`: the token and the time are the arguments, and what writing the file gives.
  unfoldable pub create : String → String → String → Option Stamp → KeysFile → Outcome × KeysFile
  unfolding load save
  create name token now written file =
      if not (is_key_name (codes name)) then (refused, file) else elim (load file) [
        | broken ↦ (refused, file)
        | undecodable ↦ (failed, file)
        | entries es ↦
            if has_name name es
            then (refused, file)
            else save (es ++ new_entry name token now ∷ []) written (made (new_key token)) file
      ]

  -- `revoke(name)`
  unfoldable pub revoke : String → Option Stamp → KeysFile → Outcome × KeysFile
  unfolding load save
  revoke name written file = elim (load file) [
    | broken ↦ (refused, file)
    | undecodable ↦ (failed, file)
    | entries es ↦
        if length (without_name name es) == length es
        then (refused, file)
        else save (without_name name es) written revoked file
  ]
