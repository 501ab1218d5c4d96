-- ===== src/Gateway/Keys/Tests.antt =====
-- Keys made, checked and revoked, and the theorems about them.
use Prim.Native.String.{◌++◌ as append}
use agent_lab.Common.{
  ℕ, ◌≡◌, ◌≢◌, refl, List, [], ◌∷◌, ◌++◌, Option, none, some, String, str_eq, if◌then◌else◌,
}
use agent_lab.Json.{get}
use agent_lab.Config.Text.{codes, all_in, is_lower, is_digit}
use agent_lab.Gateway.Keys.{
  Hashing, KeyEntry, Stamp, text, KeysFile, present, entries, load, create, revoke, made, revoked,
  save, render, new_entry, hash_key, is_key_name, is_hash, has_name, without_name, strip_prefix,
  from_hex, join_lines, entry_lines, read_table, read_entries, read_entry, created_text,
}
use agent_lab.Gateway.Keys.Toml.{
  toml_text, toml_value, table_lines, pair_lines, broken_lines, table_fields, pair_fields,
  key_document, ReadsToml,
}
use agent_lab.Gateway.Keys.Store.{KeyStore, init, check, digests, find_last, refresh, adopt}
use agent_lab.Gateway.Keys.Store.View.{view}
use agent_lab.Gateway.Keys.Store.Served.{Served, fresh, checked, IsAnswer, check-view}
use agent_lab.Gateway.Keys.Store.Commands.{create-check, revoke-check}

abbrev ones : String
ones = "1111111111111111111111111111111111111111111111111111111111111111"

abbrev twos : String
twos = "2222222222222222222222222222222222222222222222222222222222222222"

abbrev digest_of : String → List ℕ
digest_of h = from_hex (codes h)

abbrev cursor : KeyEntry
cursor = record { name = "cursor"; hash = append "sha256:" ones; created = "2026-01-01T00:00:00Z" }

abbrev opencode : KeyEntry
opencode = record {
  name = "opencode";
  hash = append "sha256:" twos;
  created = "2026-01-02T00:00:00Z";
}

abbrev both : List KeyEntry
both = cursor ∷ opencode ∷ []

-- A hash that tells two keys apart, and a parser of two files.
abbrev lib : Hashing
lib = record {
  parse = λ t.
      if str_eq t (toml_text (key_document both))
      then some (toml_value (key_document both))
      else if str_eq t (toml_text (key_document (cursor ∷ [])))
      then some (toml_value (key_document (cursor ∷ [])))
      else none;
  digest = λ key. from_hex (codes (if str_eq key "sk-alab-b" then twos else ones));
  hexdigest = λ key. if str_eq key "sk-alab-b" then twos else ones;
  to_text = λ v. "";
}

abbrev stamp : ℕ → Stamp
stamp n = record { inode = n; modified = n; bytes = 300 }

abbrev one_key : KeysFile
one_key = present (stamp 1) (text (render (cursor ∷ [])))

abbrev two_keys : KeysFile
two_keys = present (stamp 2) (text (render both))

loads_one : load lib one_key ≡ entries (cursor ∷ [])
unfolding load read_table read_entries read_entry created_text get toml_text toml_value table_lines
    pair_lines broken_lines table_fields pair_fields render join_lines entry_lines is_key_name
    is_hash strip_prefix all_in is_lower is_digit
loads_one = refl

loads_two : load lib two_keys ≡ entries both
unfolding load read_table read_entries read_entry created_text get toml_text toml_value table_lines
    pair_lines broken_lines table_fields pair_fields render join_lines entry_lines is_key_name
    is_hash strip_prefix all_in is_lower is_digit
loads_two = refl

created :
    create lib "opencode" "b" "2026-01-02T00:00:00Z" (some (stamp 2)) one_key
    ≡ (made "sk-alab-b", two_keys)
unfolding create load save read_table read_entries read_entry created_text get toml_text toml_value
    table_lines pair_lines broken_lines table_fields pair_fields render join_lines entry_lines
    is_key_name is_hash strip_prefix all_in is_lower is_digit has_name hash_key
created = refl

gone :
    revoke lib "opencode" (some (stamp 3)) two_keys
    ≡ (revoked, present (stamp 3) (text (render (cursor ∷ []))))
unfolding revoke load save read_table read_entries read_entry created_text get toml_text toml_value
    table_lines pair_lines broken_lines table_fields pair_fields render join_lines entry_lines
    is_key_name is_hash strip_prefix all_in is_lower is_digit without_name
gone = refl

reads_both :
    ReadsToml lib
      (key_document (cursor ∷ [] ++ (new_entry lib "opencode" "b" "2026-01-02T00:00:00Z" ∷ [])))
unfolding toml_text toml_value table_lines pair_lines broken_lines table_fields pair_fields hash_key
reads_both = refl

reads_one : ReadsToml lib (key_document (without_name "opencode" both))
unfolding toml_text toml_value table_lines pair_lines broken_lines table_fields pair_fields
    without_name
reads_one = refl

create-check_example :
    (next : KeyStore) × (check lib init two_keys "sk-alab-b" ≡ some (some "opencode", next))
unfolding all_in is_digit from_hex
create-check_example =
    create-check lib "opencode" "b" "2026-01-02T00:00:00Z" (stamp 2) one_key two_keys "sk-alab-b"
      (cursor ∷ []) init created loads_one reads_both
      (record { digits = refl; hexadecimal = refl; digest = refl }) (λ same. cc)

revoke-check_example :
    (answer : Option String) × (next : KeyStore) × (check lib init
        (present (stamp 3) (text (render (cursor ∷ []))))
        "sk-alab-b"
      ≡ some (answer, next))
    × (answer ≢ some "opencode")
revoke-check_example =
    revoke-check lib "opencode" (stamp 3) two_keys (present (stamp 3) (text (render (cursor ∷ []))))
      "sk-alab-b" both init gone loads_two reads_one (λ same. cc)

-- A store that has read the file with one key.
abbrev one_read : KeyStore
one_read = record { stamp = some (stamp 1); hashes = digests (cursor ∷ []) }

checked_one : check lib init one_key "sk-alab-b" ≡ some (none, one_read)
unfolding check refresh adopt find_last digests from_hex load read_table read_entries read_entry
    created_text get toml_text toml_value table_lines pair_lines broken_lines table_fields
    pair_fields render join_lines entry_lines is_key_name is_hash strip_prefix all_in is_lower
    is_digit
checked_one = refl

checked_two :
    check lib one_read two_keys "sk-alab-b"
    ≡ some (some "opencode", record { stamp = some (stamp 2); hashes = digests both })
unfolding check refresh adopt find_last digests from_hex load read_table read_entries read_entry
    created_text get toml_text toml_value table_lines pair_lines broken_lines table_fields
    pair_fields render join_lines entry_lines is_key_name is_hash strip_prefix all_in is_lower
    is_digit
checked_two = refl

one_read-Served : Served lib (one_key ∷ []) one_read
one_read-Served = checked one_key "sk-alab-b" none one_read fresh checked_one

check-view_example :
    IsAnswer (lib.digest "sk-alab-b") (view lib two_keys) (some "opencode")
    × (digests both ≡ view lib two_keys)
check-view_example =
    check-view lib (record { stamp = some (stamp 2); hashes = digests both }) two_keys "sk-alab-b"
      (some "opencode") one_read-Served ((λ s now before. cc), tt) checked_two
