-- ===== src/Pull/Download/Resume.antt =====
-- What `_download` of src/agent_lab/pull.py leaves where the server has the content.
use agent_lab.Common.{
  ℕ, zero, suc, ◌≡◌, refl, sym, ◌∙◌, subst, ◌⊎◌, inl, inr, Bool, true, false, ◌&&◌, not, List, [],
  ◌∷◌, ◌++◌, Option, none, some, if◌then◌else◌, ltb, ◌==◌, length, arith,
}
use mathlib.Core.List.{append-nil, append_assoc}
use agent_lab.Pull.{File}
use agent_lab.Pull.Download.{
  Reply, failure, refusal, answer, Ended, complete, refused, bytes_of, size_of, write_chunks,
  usable, touch, Attempt, ended, again, check_size, after_error, base, receive, request, attempt,
  Network, attempts, download,
}
use agent_lab.Pull.Download.Ends.{IsEnd, attempts-IsEnd}

-- The start of a file.
abbrev pub IsPrefix : List ℕ → List ℕ → Type 0
IsPrefix xs ys = (rest : List ℕ) × (xs ++ rest ≡ ys)

IsPrefix-append : (xs ys zs : List ℕ) → IsPrefix (xs ++ ys) zs → IsPrefix xs zs
IsPrefix-append xs ys zs (rest, e) = (ys ++ rest, sym (append_assoc xs ys rest) ∙ e)

-- Two starts of one length are the same.
IsPrefix-unique :
    (xs ys zs : List ℕ) → IsPrefix xs zs → IsPrefix ys zs → length xs ≡ length ys → xs ≡ ys
IsPrefix-unique [] [] zs p q e = refl
IsPrefix-unique [] (y ∷ ys) zs p q e = ground (arith, e)
IsPrefix-unique (x ∷ xs) [] zs p q e = ground (arith, e)
IsPrefix-unique (x ∷ xs) (y ∷ ys) [] (r, p) (s, q) e = cc
IsPrefix-unique (x ∷ xs) (y ∷ ys) (z ∷ zs) (r, p) (s, q) e =
    let same = IsPrefix-unique xs ys zs (r, cc) (s, cc) (omega (arith, e)) in cc (p, q, same)

IsPrefix-full : (xs ys : List ℕ) → IsPrefix xs ys → length xs ≡ length ys → xs ≡ ys
IsPrefix-full xs ys p e = IsPrefix-unique xs ys ys p ([], append-nil ys) e

unfoldable pub concat : List (List ℕ) → List ℕ
concat [] = []
concat (c ∷ cs) = c ++ concat cs

-- A server that has the content: what it sends is a part of it, from the offset where it honours the
-- range and from the start otherwise; it may break off anywhere.
abbrev pub IsHonest : List ℕ → ℕ → Reply → Type 0
IsHonest content offset (answer status chunks breaks) =
    if status == 206
    then ((before : List ℕ) × (length before ≡ offset) × IsPrefix (before ++ concat chunks) content)
    else IsPrefix (concat chunks) content
IsHonest content offset _ = Unit {0}

write_chunks-IsPrefix :
    (size : ℕ) (bytes content : List ℕ) (cs : List (List ℕ))
    → IsPrefix (bytes ++ concat cs) content
    → IsPrefix (write_chunks size bytes cs).0 content
unfolding write_chunks concat
write_chunks-IsPrefix size bytes content [] p = IsPrefix-append bytes [] content p
write_chunks-IsPrefix size bytes content (c ∷ cs) p =
    go (ltb size (length (bytes ++ c))) (write_chunks-IsPrefix size (bytes ++ c) content cs here)
  where
    here : IsPrefix ((bytes ++ c) ++ concat cs) content
    here = subst (λ (xs : List ℕ). IsPrefix xs content) (sym (append_assoc bytes c (concat cs))) p

    go :
        (b : Bool)
        → IsPrefix (write_chunks size (bytes ++ c) cs).0 content
        → IsPrefix (if b then (bytes ++ c, true) else write_chunks size (bytes ++ c) cs).0 content
    go true more = IsPrefix-append (bytes ++ c) (concat cs) content here
    go false more = more

-- What a round leaves of the partial file.
abbrev left_by : Attempt → Option File
left_by (ended how q) = q
left_by (again q) = q

base-IsPrefix :
    (content bytes : List ℕ) (status : ℕ) (chunks : List (List ℕ)) (breaks : Bool)
    → IsPrefix bytes content
    → IsHonest content (length bytes) (answer status chunks breaks)
    → IsPrefix (base status bytes ++ concat chunks) content
base-IsPrefix content bytes status chunks breaks p = go (status == 206)
  where
    go :
        (b : Bool)
        → (if b
            then ((before : List ℕ) × (length before ≡ length bytes)
                × IsPrefix (before ++ concat chunks) content)
            else IsPrefix (concat chunks) content)
        → IsPrefix ((if b then bytes else []) ++ concat chunks) content
    go false h = h
    go true (before, e, h) =
        subst (λ (xs : List ℕ). IsPrefix (xs ++ concat chunks) content)
          (IsPrefix-unique before bytes content (IsPrefix-append before (concat chunks) content h) p
            e)
          h

empty-IsPrefix : (content : List ℕ) → IsPrefix [] content
empty-IsPrefix content = (content, refl)

check_size-IsPrefix :
    (last : Bool) (size : ℕ) (file : File) (content : List ℕ)
    → IsPrefix file.bytes content
    → IsPrefix (bytes_of (left_by (check_size last size file))) content
unfolding check_size
check_size-IsPrefix last size file content p =
    go (length file.bytes == size) (ltb size (length file.bytes)) last
  where
    go :
        (a b c : Bool)
        → IsPrefix
            (bytes_of (
              left_by (
                if a
                then ended complete (some file)
                else if b
                then ended refused none
                else if c
                then ended refused (some file)
                else again (some file))))
            content
    go true b c = p
    go false true c = empty-IsPrefix content
    go false false true = p
    go false false false = p

after_error-IsPrefix :
    (last : Bool) (q : Option File) (content : List ℕ)
    → IsPrefix (bytes_of q) content
    → IsPrefix (bytes_of (left_by (after_error last q))) content
after_error-IsPrefix true q content p = p
after_error-IsPrefix false q content p = p

receive-IsPrefix :
    (last : Bool) (size now : ℕ) (bytes : List ℕ) (status : ℕ) (chunks : List (List ℕ))
    (breaks : Bool) (content : List ℕ)
    → IsPrefix bytes content
    → IsHonest content (length bytes) (answer status chunks breaks)
    → IsPrefix (bytes_of (left_by (receive last size now bytes status chunks breaks))) content
unfolding receive
receive-IsPrefix last size now bytes status chunks breaks content p honest =
    go breaks (write_chunks size (base status bytes) chunks).1
  where
    file : File
    file = record { bytes = (write_chunks size (base status bytes) chunks).0; mtime = now }

    written : IsPrefix file.bytes content
    written =
        write_chunks-IsPrefix size (base status bytes) content chunks
          (base-IsPrefix content bytes status chunks breaks p honest)

    go :
        (b c : Bool)
        → IsPrefix
            (bytes_of (
              left_by
                (if b && not c then after_error last (some file) else check_size last size file)))
            content
    go true false = after_error-IsPrefix last (some file) content written
    go true true = check_size-IsPrefix last size file content written
    go false c = check_size-IsPrefix last size file content written

usable-IsPrefix :
    (size : ℕ) (p : Option File) (content : List ℕ)
    → IsPrefix (bytes_of p) content
    → IsPrefix (bytes_of (usable size p)) content
unfolding usable
usable-IsPrefix size p content h = go (ltb size (size_of p))
  where
    go : (b : Bool) → IsPrefix (bytes_of (if b then none else p)) content
    go true = empty-IsPrefix content
    go false = h

attempt-IsPrefix :
    (last : Bool) (size now : ℕ) (p : Option File) (reply : Reply) (content : List ℕ)
    → IsPrefix (bytes_of p) content
    → IsHonest content (size_of (usable size p)) reply
    → IsPrefix (bytes_of (left_by (attempt last size now p reply))) content
unfolding attempt request
attempt-IsPrefix last size now p reply content h honest =
    go (size_of (usable size p) == size) reply honest
  where
    q : Option File
    q = usable size p

    held : IsPrefix (bytes_of q) content
    held = usable-IsPrefix size p content h

    go :
        (b : Bool) (r : Reply)
        → IsHonest content (size_of q) r
        → IsPrefix
            (bytes_of
              (left_by (if b then ended complete (touch now q) else request last size now q r)))
            content
    go true r hr = held
    go false failure hr = after_error-IsPrefix last q content held
    go false refusal hr = held
    go false (answer status chunks breaks) hr =
        receive-IsPrefix last size now (bytes_of q) status chunks breaks content held hr

-- A server that has the content, at every request.
abbrev pub AlwaysHonest : List ℕ → Network → Type 0
AlwaysHonest content net = (n offset : ℕ) → IsHonest content offset (net.fetch n offset)

attempts-IsPrefix :
    (net : Network) (size left n : ℕ) (p : Option File) (content : List ℕ)
    → AlwaysHonest content net
    → IsPrefix (bytes_of p) content
    → IsPrefix (bytes_of (attempts net size left n p).1) content
unfolding attempts
attempts-IsPrefix net size zero n p content honest h = h
attempts-IsPrefix net size (suc left) n p content honest h =
    go (attempt (left == 0) size (net.clock n) p (net.fetch n offset))
      (attempt-IsPrefix (left == 0) size (net.clock n) p (net.fetch n offset) content h
        (honest n offset))
      (λ q. attempts-IsPrefix net size left (suc n) q content honest)
  where
    offset : ℕ
    offset = size_of (usable size p)

    go :
        (a : Attempt)
        → IsPrefix (bytes_of (left_by a)) content
        → ((q : Option File)
            → IsPrefix (bytes_of q) content
            → IsPrefix (bytes_of (attempts net size left (suc n) q).1) content)
        → IsPrefix
            (bytes_of
              (elim a as (λ x. Ended × Option File) [
                | ended how q ↦ (how, q)
                | again q ↦ attempts net size left (suc n) q
              ]).1)
            content
    go (ended how q) k more = k
    go (again q) k more = more q k

-- With a server that has the content, a download that starts from a start of it, whatever breaks off in
-- between, leaves a start of it, to resume from; and where it returns, the whole content.
pub download-resumes :
    (net : Network) (p : Option File) (content : List ℕ)
    → AlwaysHonest content net
    → IsPrefix (bytes_of p) content
    → IsPrefix (bytes_of (download net (length content) p).1) content
      × (((download net (length content) p).0 ≡ refused)
          ⊎ (bytes_of (download net (length content) p).1 ≡ content))
unfolding download
download-resumes net p content honest h = (
  kept,
  whole (attempts net (length content) 3 1 p).0 refl (attempts-IsEnd net (length content) 2 1 p),
)
  where
    kept : IsPrefix (bytes_of (attempts net (length content) 3 1 p).1) content
    kept = attempts-IsPrefix net (length content) 3 1 p content honest h

    whole :
        (how : Ended)
        → (attempts net (length content) 3 1 p).0 ≡ how
        → IsEnd (length content) how (attempts net (length content) 3 1 p).1
        → ((attempts net (length content) 3 1 p).0 ≡ refused)
          ⊎ (bytes_of (attempts net (length content) 3 1 p).1 ≡ content)
    whole refused e fin = inl e
    whole complete e fin =
        inr (IsPrefix-full (bytes_of (attempts net (length content) 3 1 p).1) content kept fin.0)
