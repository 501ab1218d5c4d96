-- ===== src/Pull/Verify.antt =====
-- src/agent_lab/pull.py: `pull`: which files are in place and verified, the room for the rest, their
-- download, and what is recorded. The lock is held during a whole pull, so no other pull interleaves.
pub mod Known
pub mod Loops
pub mod Done
use agent_lab.Common.{
  ℕ, ◌+◌, ◌-◌, ◌*◌, ◌^◌, ◌≡◌, Bool, true, false, not, List, [], ◌∷◌, ◌++◌, Option, none, some,
  String, str_eq, if◌then◌else◌, ltb, leb, length,
}
use agent_lab.Json.{Value}
use agent_lab.Json.SameBut.{contains}
use agent_lab.Registry.{ModelFile}
use agent_lab.Pull.{
  File, Files, update, Memory, known_sha256, remember, forget, save, load, Directory,
}
use agent_lab.Pull.Download.{Network, Ended, complete, refused, size_of, download}

-- A pull while it runs: the directory, and the records in memory.
pub record Work : Type 0 where
  pub files : Files
  pub partial : Files
  pub memory : Memory

-- The wanted hashes.
abbrev pub hashes : List ModelFile → List String
hashes [] = []
hashes (f ∷ fs) = f.sha256 ∷ hashes fs

-- `_remove_stray_partials(entry)`
unfoldable pub remove_strays : List ModelFile → Files → Files
remove_strays fs partial sha = if contains (hashes fs) sha then partial sha else none

-- target.unlink() and forget
unfoldable pub drop : String → Work → Work
drop name w = record w { files = update w.files name none; memory = forget name w.memory }

-- What is left to download of a file.
unfoldable pub remaining_of : ModelFile → Option File → ℕ
remaining_of f p = if leb (size_of p) f.size then f.size - size_of p else f.size

unfoldable pub remaining : List ModelFile → Files → ℕ
unfolding remaining_of
remaining [] partial = 0
remaining (f ∷ fs) partial = remaining_of f (partial f.sha256) + remaining fs partial

-- What the loop of the downloads knows at its end: its mismatches, or that a download raised.
pub data Fetched : Type 0 where
  fetched : List String → Fetched
  broken_off : Fetched

-- failed.append(name), where it is not there.
unfoldable pub fail : String → Memory → Memory
fail name m = record m {
  failed = if contains m.failed name then m.failed else m.failed ++ name ∷ [];
}

-- The names that do not match, after one file.
abbrev with_name : String → Fetched → Fetched
with_name name broken_off = broken_off
with_name name (fetched names) = fetched (name ∷ names)

-- The loop after one file: a download that raises ends it.
unfoldable pub after_file : String → Option Bool → Work → Fetched × Work → Fetched × Work
after_file name none next rest = (broken_off, next)
after_file name (some true) next rest = rest
after_file name (some false) next (ends, last) = (with_name name ends, last)

module _ (sha256 : List ℕ → String) where
  -- known, after an existing file was hashed where it had to be.
  unfoldable pub learn : Bool → String → File → Work → String × Work
  learn recheck name file w = elim (if recheck then none else known_sha256 w.memory w.files name) [
    | some sha ↦ (sha, w)
    | none ↦
        (sha256 file.bytes, record w { memory = remember file name (sha256 file.bytes) w.memory })
  ]

  -- The first loop, for one file: whether it is missing.
  unfoldable pub check_file : Bool → ModelFile → Work → Bool × Work
  unfolding learn drop
  check_file recheck f w = elim (w.files f.name) [
    | none ↦ (true, record w { memory = forget f.name w.memory })
    | some file ↦
        let (sha, known) = learn recheck f.name file w in
        if str_eq sha f.sha256 then (false, known) else (true, drop f.name known)
  ]

  -- The first loop: the missing files.
  unfoldable pub check_files : Bool → List ModelFile → Work → List ModelFile × Work
  unfolding check_file
  check_files recheck [] w = ([], w)
  check_files recheck (f ∷ fs) w =
      let (miss, next) = check_file recheck f w in
      let (more, last) = check_files recheck fs next in (if miss then f ∷ more else more, last)

  -- A downloaded file: moved into place, or deleted where its hash is not the registry's.
  unfoldable pub place : ModelFile → File → Work → Bool × Work
  unfolding fail
  place f file w =
      if str_eq (sha256 file.bytes) f.sha256
      then (
        true,
        record {
          files = update w.files f.name (some file);
          partial = update w.partial f.sha256 none;
          memory = remember file f.name (sha256 file.bytes) w.memory;
        },
      )
      else (
        false,
        record w { partial = update w.partial f.sha256 none; memory = fail f.name w.memory },
      )

  -- What follows a download: none where it raised.
  unfoldable pub after_download : ModelFile → Ended → Option File → Work → Option Bool × Work
  unfolding place
  after_download f complete (some file) w = let (good, next) = place f file w in (some good, next)
  after_download f _ p w = (none, record w { partial = update w.partial f.sha256 p })

  -- One file of the last loop: whether it is in place.
  unfoldable pub fetch_file : Network → ModelFile → Work → Option Bool × Work
  unfolding after_download
  fetch_file net f w =
      let (how, p) = download net f.size (w.partial f.sha256) in after_download f how p w

  -- The last loop.
  unfoldable pub fetch_files : (ModelFile → Network) → List ModelFile → Work → Fetched × Work
  unfolding fetch_file after_file
  fetch_files net [] w = (fetched [], w)
  fetch_files net (f ∷ fs) w =
      let (result, next) = fetch_file (net f) f w in
      let rest = fetch_files net fs next in after_file f.name result next rest

-- How `pull` ends: it returns, there is no room, a download raised, or a hash does not match.
pub data Pulled : Type 0 where
  pulled no_room gave_up mismatched : Pulled

-- 512 MiB
abbrev pub disk_margin : ℕ
disk_margin = 512 * 1024 ^ 2

-- The directory, with the records as they were saved last.
abbrev pub saved : Work → Directory
saved w = record { files = w.files; partial = w.partial; state = some (save w.memory) }

-- The end of `pull`, after the downloads.
unfoldable pub conclude : Fetched → Work → Pulled × Directory
conclude broken_off w = (gave_up, saved w)
conclude (fetched (n ∷ ns)) w = (mismatched, saved w)
conclude (fetched []) w =
    (pulled, saved (record w { memory = record { verified = w.memory.verified; failed = [] } }))

module _ (sha256 : List ℕ → String) (to_text : Value → String) where
  -- `pull(entry)`: the free space of the disk is the argument `free`.
  unfoldable pub pull :
      Bool → (ModelFile → Network) → ℕ → List ModelFile → Directory → Pulled × Directory
  unfolding remove_strays check_files remaining fetch_files conclude load
  pull recheck net free fs d =
      let start : Work = record {
        files = d.files;
        partial = remove_strays fs d.partial;
        memory = load to_text d.state;
      } in
      let (missing, checked) = check_files sha256 recheck fs start in
      let (ends, last) = fetch_files sha256 net missing checked in
      if ltb free (remaining missing checked.partial + disk_margin)
      then (no_room, saved checked)
      else conclude ends last
