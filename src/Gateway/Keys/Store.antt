-- ===== src/Gateway/Keys/Store.antt =====
-- src/agent_lab/gateway/keys.py: `KeyStore`, the gateway's view of the key file.
pub mod View
pub mod Served
pub mod Commands
use agent_lab.Common.{
  ℕ, Bool, true, false, ◌&&◌, not, List, [], ◌∷◌, Option, none, some, String, if◌then◌else◌, ◌==◌,
}
use agent_lab.Config.Text.{codes}
use agent_lab.Config.Size.{same_text}
use agent_lab.Gateway.Keys.{
  Hashing, KeyEntry, Stamp, Contents, KeysFile, unreachable, present, Loaded, entries, broken,
  undecodable, load, from_hex, remove_prefix,
}

-- `path` is the file that every operation is given.
pub record KeyStore : Type 0 where
  pub stamp : Option Stamp
  pub hashes : List (String × List ℕ)

abbrev pub init : KeyStore
init = record { stamp = none; hashes = [] }

abbrev pub same_stamp : Stamp → Stamp → Bool
same_stamp s t = (s.inode == t.inode) && ((s.modified == t.modified) && (s.bytes == t.bytes))

-- stamp == self._stamp and stamp is not None
abbrev pub unchanged : Option Stamp → Option Stamp → Bool
unchanged (some s) (some t) = same_stamp s t
unchanged _ _ = false

abbrev pub stamp_of : KeysFile → Option Stamp
stamp_of (present stamp contents) = some stamp
stamp_of _ = none

-- Whether `path.stat()` returns or finds no file, and raises no other OSError.
abbrev pub is_reachable : KeysFile → Bool
is_reachable unreachable = false
is_reachable _ = true

-- [(e.name, bytes.fromhex(...)) for e in entries]
unfoldable pub digests : List KeyEntry → List (String × List ℕ)
unfolding from_hex remove_prefix
digests [] = []
digests (e ∷ es) = (e.name, from_hex (remove_prefix (codes e.hash))) ∷ digests es

-- The last key whose digest is the one looked for.
unfoldable pub find_last : List ℕ → List (String × List ℕ) → Option String
find_last digest [] = none
find_last digest ((name, stored) ∷ rest) = elim (find_last digest rest) [
  | some later ↦ some later
  | none ↦ if same_text digest stored then some name else none
]

-- The store after a reading; a broken file accepts no key.
unfoldable pub adopt : Option Stamp → Loaded → Option KeyStore
unfolding digests
adopt stamp (entries es) = some (record { stamp = stamp; hashes = digests es })
adopt stamp broken = some (record { stamp = stamp; hashes = [] })
adopt stamp undecodable = none

module _ (lib : Hashing) where
  -- `_refresh()`: none is an exception, which leaves the store as it was.
  unfoldable pub refresh : KeyStore → KeysFile → Option KeyStore
  unfolding load adopt
  refresh store file =
      if is_reachable file
      then (if unchanged (stamp_of file) store.stamp
          then some store
          else adopt (stamp_of file) (load lib file))
      else none

  -- `check(key)`
  unfoldable pub check : KeyStore → KeysFile → String → Option (Option String × KeyStore)
  unfolding refresh find_last
  check store file key = elim (refresh store file) [
    | none ↦ none
    | some now ↦ some (find_last (lib.digest key) now.hashes, now)
  ]
