-- ===== src/Launch.antt =====
-- src/agent_lab/backend/launch.py: `_LogStream`, the memory watchdog and the filter of `do_post`. A text is
-- the list of its code points; `str.strip` and `str.rstrip` are parameters.
pub mod Lines
pub mod Guard
mod Tests
use agent_lab.Common.{
  ℕ, ◌≡◌, Bool, true, false, List, [], ◌∷◌, ◌++◌, Option, none, some, String, if◌then◌else◌, ltb,
  ◌==◌,
}

-- A line break.
abbrev pub newline : ℕ
newline = 10

-- One more character before what was split.
abbrev pub before_lines : ℕ → List (List ℕ) × List ℕ → List (List ℕ) × List ℕ
before_lines c ([], rest) = ([], c ∷ rest)
before_lines c (line ∷ lines, rest) = ((c ∷ line) ∷ lines, rest)

-- `*lines, rest = text.split("\n")`
unfoldable pub split_lines : List ℕ → List (List ℕ) × List ℕ
split_lines [] = ([], [])
split_lines (c ∷ cs) =
    let (lines, rest) = split_lines cs in
    if c == newline then ([] ∷ lines, rest) else before_lines c (lines, rest)

-- A `_LogStream`: its buffer, and what its logger was given, oldest first.
pub record LogStream : Type 0 where
  pub buffer : List ℕ
  pub logged : List (List ℕ)

module _ (strip rstrip : List ℕ → List ℕ) where
  -- if line.strip(): log(line.rstrip())
  abbrev pub log_line : List ℕ → List (List ℕ)
  log_line line = elim (strip line) [ [] ↦ [] | c ∷ cs ↦ rstrip line ∷ [] ]

  unfoldable pub log_lines : List (List ℕ) → List (List ℕ)
  log_lines [] = []
  log_lines (line ∷ lines) = log_line line ++ log_lines lines

  -- `write(text)`
  unfoldable pub write : LogStream → List ℕ → LogStream
  unfolding split_lines log_lines
  write s written =
      let (lines, rest) = split_lines (s.buffer ++ written) in
      record { buffer = rest; logged = s.logged ++ log_lines lines }

  -- `flush()`
  unfoldable pub flush : LogStream → LogStream
  flush s = record { buffer = []; logged = s.logged ++ log_line s.buffer }

-- One turn of the watchdog: the reading, where there is one, and whether a sample is due.
pub record Tick : Type 0 where
  pub active : Option ℕ
  pub due : Bool

-- Why the watchdog stops the backend: it cannot read the memory in use, or that is over the limit.
pub data Reason : Type 0 where
  unreadable : Reason
  exceeded : ℕ → Reason

-- `check_memory(active_bytes, limit)`
unfoldable pub check_memory : ℕ → ℕ → Option Reason
check_memory active limit = if ltb limit active then some (exceeded active) else none

-- What the watchdog did: the readings that it passed to `on_sample`, and why it stopped the backend.
pub record Watched : Type 0 where
  pub samples : List ℕ
  pub reason : Option Reason

-- After a reading that is within the limit. An exception of `on_sample` is only logged.
abbrev pub sampled : Bool → ℕ → Watched → Watched
sampled due n w = record w { samples = if due then n ∷ w.samples else w.samples }

abbrev pub checked : Option Reason → Bool → ℕ → Watched → Watched
checked none due n rest = sampled due n rest
checked (some reason) due n rest = record { samples = []; reason = some reason }

-- `watch`, over its turns until the event `stopped` is set.
unfoldable pub watch : ℕ → List Tick → Watched
unfolding check_memory
watch limit [] = record { samples = []; reason = none }
watch limit (t ∷ rest) =
    let later = watch limit rest in
    elim t.active [
      | none ↦ record { samples = []; reason = some unreadable }
      | some n ↦ checked (check_memory n limit) t.due n later
    ]

-- `do_post`: a request with an Origin is answered with 403, none is left to mlx-lm.
unfoldable pub do_post : Option String → Option ℕ
do_post none = none
do_post (some origin) = some 403
