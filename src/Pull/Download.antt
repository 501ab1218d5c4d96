-- ===== src/Pull/Download.antt =====
-- src/agent_lab/pull.py: `_download`, with its attempts. What the server and the connection do is a
-- parameter.
pub mod Ends
pub mod Resume
use agent_lab.Common.{
  ℕ, zero, suc, ◌+◌, ◌-◌, Bool, true, false, ◌&&◌, not, List, [], ◌∷◌, ◌++◌, Option, none, some,
  if◌then◌else◌, ltb, leb, ◌==◌, length,
}
use agent_lab.Pull.{File}

-- One attempt: the request fails in a way worth another attempt, it is refused for good (PullError),
-- or there is an answer: its status, its chunks, and whether the connection breaks after them.
pub data Reply : Type 0 where
  failure refusal : Reply
  answer : ℕ → List (List ℕ) → Bool → Reply

-- How `_download` ends: it returns, or raises PullError.
pub data Ended : Type 0 where
  complete refused : Ended

abbrev pub bytes_of : Option File → List ℕ
bytes_of none = []
bytes_of (some file) = file.bytes

abbrev pub size_of : Option File → ℕ
size_of p = length (bytes_of p)

-- The loop over the chunks: the bytes written, and whether it stopped after too many.
unfoldable pub write_chunks : ℕ → List ℕ → List (List ℕ) → List ℕ × Bool
write_chunks size bytes [] = (bytes, false)
write_chunks size bytes (c ∷ cs) =
    let rest = write_chunks size (bytes ++ c) cs in
    if ltb size (length (bytes ++ c)) then (bytes ++ c, true) else rest

-- The partial file where it is longer than the file should be: it is deleted.
unfoldable pub usable : ℕ → Option File → Option File
usable size p = if ltb size (size_of p) then none else p

-- partial.touch()
abbrev pub touch : ℕ → Option File → Option File
touch now p = some (record { bytes = bytes_of p; mtime = now })

-- What an attempt leaves: the end of the download, or another attempt.
pub data Attempt : Type 0 where
  ended : Ended → Option File → Attempt
  again : Option File → Attempt

-- The sizes after an answer without an error.
unfoldable pub check_size : Bool → ℕ → File → Attempt
check_size last size file =
    if length file.bytes == size
    then ended complete (some file)
    else if ltb size (length file.bytes)
    then ended refused none
    else if last
    then ended refused (some file)
    else again (some file)

-- `except transient`
abbrev pub after_error : Bool → Option File → Attempt
after_error last p = if last then ended refused p else again p

-- What an answer writes onto: the partial file where the server honoured the range.
abbrev pub base : ℕ → List ℕ → List ℕ
base status bytes = if status == 206 then bytes else []

-- What an answer does: an error that comes once too much was written is not waited for.
unfoldable pub receive : Bool → ℕ → ℕ → List ℕ → ℕ → List (List ℕ) → Bool → Attempt
unfolding write_chunks check_size
receive last size now bytes status chunks breaks =
    let (written, stopped) = write_chunks size (base status bytes) chunks in
    if breaks && not stopped
    then after_error last (some (record { bytes = written; mtime = now }))
    else check_size last size (record { bytes = written; mtime = now })

-- The request and its answer, the partial file usable and too short.
unfoldable pub request : Bool → ℕ → ℕ → Option File → Reply → Attempt
unfolding receive
request last size now p failure = after_error last p
request last size now p refusal = ended refused p
request last size now p (answer status chunks breaks) =
    receive last size now (bytes_of p) status chunks breaks

-- One round of the loop.
unfoldable pub attempt : Bool → ℕ → ℕ → Option File → Reply → Attempt
unfolding usable request
attempt last size now p reply =
    if size_of (usable size p) == size
    then ended complete (touch now (usable size p))
    else request last size now (usable size p) reply

-- What the network does: the reply to the request of an attempt, from an offset; and the clock.
pub record Network : Type 0 where
  pub fetch : ℕ → ℕ → Reply
  pub clock : ℕ → ℕ

-- `for attempt in range(n, RETRIES + 1)`, with the number of attempts that are left.
unfoldable pub attempts : Network → ℕ → ℕ → ℕ → Option File → Ended × Option File
unfolding attempt
attempts net size zero n p = (complete, p)
attempts net size (suc left) n p =
    elim (attempt (left == 0) size (net.clock n) p (net.fetch n (size_of (usable size p)))) [
      | ended how q ↦ (how, q)
      | again q ↦ attempts net size left (suc n) q
    ]

-- `_download`: RETRIES is 3.
unfoldable pub download : Network → ℕ → Option File → Ended × Option File
unfolding attempts
download net size p = attempts net size 3 1 p
