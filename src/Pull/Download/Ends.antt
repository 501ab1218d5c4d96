-- ===== src/Pull/Download/Ends.antt =====
-- How `_download` of src/agent_lab/pull.py ends, and the size of what it leaves.
use agent_lab.Common.{
  ℕ, zero, suc, ◌≤◌, ◌≡◌, refl, inl, inr, Bool, true, false, ◌&&◌, not, List, [], ◌∷◌, ◌++◌, Option,
  some, if◌then◌else◌, ltb, ◌==◌, length, arith, Bool-cases,
}
use agent_lab.Pull.{File, is_there}
use agent_lab.Pull.Download.{
  Reply, failure, refusal, answer, Ended, complete, refused, bytes_of, size_of, write_chunks,
  usable, touch, Attempt, ended, again, check_size, after_error, base, receive, request, attempt,
  Network, attempts, download,
}

-- The end of a download: a complete file has its size, and what is left otherwise is not longer.
abbrev pub IsEnd : ℕ → Ended → Option File → Type 0
IsEnd size complete q = (size_of q ≡ size) × (is_there q ≡ true)
IsEnd size refused q = size_of q ≤ size

abbrev IsRound : Bool → ℕ → Attempt → Type 0
IsRound last size (ended how q) = IsEnd size how q
IsRound last size (again q) = last ≡ false

write_chunks-fits :
    (size : ℕ) (bytes : List ℕ) (cs : List (List ℕ))
    → length bytes ≤ size
    → (write_chunks size bytes cs).1 ≡ false
    → length (write_chunks size bytes cs).0 ≤ size
unfolding write_chunks
write_chunks-fits size bytes [] h e = h
write_chunks-fits size bytes (c ∷ cs) h e = ground (arith, write_chunks-fits size (bytes ++ c) cs)

usable-fits : (size : ℕ) (p : Option File) → size_of (usable size p) ≤ size
unfolding usable
usable-fits size p = elim (Bool-cases (ltb size (size_of p))) [
  | inl b ↦ rw b (omega arith)
  | inr b ↦ rw b (ground arith)
]

check_size-IsRound :
    (last : Bool) (size : ℕ) (file : File) → IsRound last size (check_size last size file)
unfolding check_size
check_size-IsRound last size file = ground arith

after_error-IsRound :
    (last : Bool) (size : ℕ) (q : Option File)
    → size_of q ≤ size
    → IsRound last size (after_error last q)
after_error-IsRound true size q h = h
after_error-IsRound false size q h = refl

receive-IsRound :
    (last : Bool) (size now : ℕ) (bytes : List ℕ) (status : ℕ) (chunks : List (List ℕ))
    (breaks : Bool)
    → length bytes ≤ size
    → IsRound last size (receive last size now bytes status chunks breaks)
unfolding receive
receive-IsRound last size now bytes status chunks breaks h =
    go breaks (write_chunks size onto chunks).1 (write_chunks-fits size onto chunks onto_fits)
  where
    onto : List ℕ
    onto = base status bytes

    onto_fits : length onto ≤ size
    onto_fits = ground arith

    file : File
    file = record { bytes = (write_chunks size onto chunks).0; mtime = now }

    go :
        (b c : Bool)
        → (c ≡ false → length file.bytes ≤ size)
        → IsRound last size
            (if b && not c then after_error last (some file) else check_size last size file)
    go true false fits = after_error-IsRound last size (some file) (fits refl)
    go true true fits = check_size-IsRound last size file
    go false c fits = check_size-IsRound last size file

attempt-IsRound :
    (last : Bool) (size now : ℕ) (p : Option File) (reply : Reply)
    → IsRound last size (attempt last size now p reply)
unfolding attempt request
attempt-IsRound last size now p reply = go reply (size_of (usable size p) == size) refl
  where
    q : Option File
    q = usable size p

    go :
        (r : Reply) (b : Bool)
        → (size_of q == size) ≡ b
        → IsRound last size (if b then ended complete (touch now q) else request last size now q r)
    go r true e = (ground (arith, e), refl)
    go failure false e = after_error-IsRound last size q (usable-fits size p)
    go refusal false e = usable-fits size p
    go (answer status chunks breaks) false e =
        receive-IsRound last size now (bytes_of q) status chunks breaks (usable-fits size p)

-- A round and what follows it.
round-IsEnd :
    (last : Bool) (size : ℕ) (a : Attempt) (next : Option File → Ended × Option File)
    → IsRound last size a
    → ((q : Option File) → last ≡ false → IsEnd size (next q).0 (next q).1)
    → let r = elim a as (λ x. Ended × Option File) [ ended how q ↦ (how, q) | again q ↦ next q ] in
      IsEnd size r.0 r.1
round-IsEnd last size (ended how q) next r more = r
round-IsEnd last size (again q) next r more = more q r

pub attempts-IsEnd :
    (net : Network) (size left n : ℕ) (p : Option File)
    → IsEnd size (attempts net size (suc left) n p).0 (attempts net size (suc left) n p).1
unfolding attempts
attempts-IsEnd net size zero n p =
    round-IsEnd true size
      (attempt true size (net.clock n) p (net.fetch n (size_of (usable size p))))
      (attempts net size zero (suc n))
      (attempt-IsRound true size (net.clock n) p (net.fetch n (size_of (usable size p))))
      (λ q e. cc)
attempts-IsEnd net size (suc left) n p =
    round-IsEnd (suc left == 0) size
      (attempt (suc left == 0) size (net.clock n) p (net.fetch n (size_of (usable size p))))
      (attempts net size (suc left) (suc n))
      (attempt-IsRound (suc left == 0) size (net.clock n) p (net.fetch n (size_of (usable size p))))
      (λ q e. attempts-IsEnd net size left (suc n) q)

-- Whatever the server and the connection do, `_download` ends within its attempts; where it returns,
-- the partial file is there and has the size of the registry, and where it raises, no more than that
-- is left of it.
pub download-IsEnd :
    (net : Network) (size : ℕ) (p : Option File)
    → IsEnd size (download net size p).0 (download net size p).1
unfolding download
download-IsEnd net size p = attempts-IsEnd net size 2 1 p
