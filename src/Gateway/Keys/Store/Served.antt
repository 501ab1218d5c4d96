-- ===== src/Gateway/Keys/Store/Served.antt =====
-- The key store of src/agent_lab/gateway/keys.py over a history of checks: what it answers is what the
-- key file says at that moment.
use agent_lab.Common.{
  ℕ, ◌≡◌, ◌⊎◌, refl, sym, ◌∙◌, ap, Bool, true, false, List, [], ◌∷◌, ◌++◌, Option, none, some,
  String, if◌then◌else◌, some_inj, inl, inr, All, subst, arith,
}
use agent_lab.Config.Size.{same_text}
use agent_lab.Gateway.Keys.{Hashing, Stamp, KeysFile, Loaded, entries, broken, undecodable, load}
use agent_lab.Gateway.Keys.Store.{
  KeyStore, init, adopt, refresh, check, stamp_of, is_reachable, same_stamp, unchanged, find_last,
}
use agent_lab.Gateway.Keys.Store.View.{view, InStep, adopt-view, check-find_last}

-- What a key with this digest is answered with: none where no entry has the digest, else the name of
-- the last entry that has it.
pub IsAnswer : List ℕ → List (String × List ℕ) → Option String → Type 0
IsAnswer digest keys none = All (λ k. same_text digest k.1 ≡ false) keys
IsAnswer digest keys (some name) =
    (before : List (String × List ℕ)) × (stored : List ℕ) × (after : List (String × List ℕ)) × (keys
      ≡ before ++ (name, stored) ∷ after)
    × (same_text digest stored ≡ true)
    × All (λ k. same_text digest k.1 ≡ false) after

find_last-IsAnswer :
    (digest : List ℕ) (keys : List (String × List ℕ)) → IsAnswer digest keys (find_last digest keys)
unfolding find_last IsAnswer
find_last-IsAnswer digest [] = tt
find_last-IsAnswer digest ((n, d) ∷ rest) =
    go (find_last digest rest) (find_last-IsAnswer digest rest) (same_text digest d) refl
  where
    go :
        (later : Option String)
        → IsAnswer digest rest later
        → (b : Bool) → same_text digest d ≡ b
        → IsAnswer digest
            ((n, d) ∷ rest)
            (elim later [ some l ↦ some l | none ↦ if b then some n else none ])
    go (some l) (before, stored, after, e, same, others) b eq =
        ((n, d) ∷ before, stored, after, ap (λ ks. (n, d) ∷ ks) e, same, others)
    go none others true eq = ([], d, rest, refl, eq, others)
    go none others false eq = (eq, others)

same_stamp-eq : (s t : Stamp) → same_stamp s t ≡ true → s ≡ t
same_stamp-eq s t h =
    ap (λ i. stamp_with i s.modified s.bytes) inode
    ∙ ap (λ m. stamp_with t.inode m s.bytes) modified
    ∙ ap (λ b. stamp_with t.inode t.modified b) bytes
  where
    stamp_with : ℕ → ℕ → ℕ → Stamp
    stamp_with i m b = record { inode = i; modified = m; bytes = b }

    inode : s.inode ≡ t.inode
    inode = ground (arith, h)

    modified : s.modified ≡ t.modified
    modified = ground (arith, h)

    bytes : s.bytes ≡ t.bytes
    bytes = ground (arith, h)

-- Two stamps that the store takes for the same are.
pub unchanged-eq :
    (now last : Option Stamp)
    → unchanged now last ≡ true
    → (stamp : Stamp) × (now ≡ some stamp) × (last ≡ some stamp)
unchanged-eq (some s) (some t) h = (s, refl, ap some (sym (same_stamp-eq s t h)))
unchanged-eq _ _ h = cc

module _ (lib : Hashing) where
  -- A store that has answered, or failed to answer, checks of the file as it was at each of them. The
  -- states of the file are listed newest first.
  pub data Served : List KeysFile → KeyStore → Type 0 where
    fresh : Served [] init
    checked :
        {files : List KeysFile} {store : KeyStore} (file : KeysFile) (key : String)
        (answer : Option String) (now : KeyStore)
        → Served files store
        → check lib store file key ≡ some (answer, now)
        → Served (file ∷ files) now
    failed :
        {files : List KeysFile} {store : KeyStore} (file : KeysFile) (key : String)
        → Served files store
        → check lib store file key ≡ none
        → Served (file ∷ files) store

  -- Two states of the file with one stamp are the same: what the file system promises of inode,
  -- modification time and size.
  abbrev pub IsToldApart : KeysFile → KeysFile → Type 0
  IsToldApart now before =
      (stamp : Stamp) → stamp_of now ≡ some stamp → stamp_of before ≡ some stamp → before ≡ now

  -- The store holds what it read at one of the states.
  HasRead : List KeysFile → KeyStore → Type 0
  HasRead [] store = store.stamp ≡ none
  HasRead (f ∷ files) store =
      ((store.stamp ≡ stamp_of f) × (store.hashes ≡ view lib f)) ⊎ HasRead files store

  HasRead-InStep :
      (files : List KeysFile) (store : KeyStore) (file : KeysFile)
      → HasRead files store
      → All (IsToldApart file) files
      → InStep lib store file
  unfolding HasRead
  HasRead-InStep [] store file h apart e =
      let (stamp, now, last) = unchanged-eq (stamp_of file) store.stamp e in cc
  HasRead-InStep (f ∷ files) store file (inl (s, held)) apart e =
      let (stamp, now, last) = unchanged-eq (stamp_of file) store.stamp e in
      held ∙ ap (view lib) (apart.0 stamp now (sym s ∙ last))
  HasRead-InStep (f ∷ files) store file (inr h) apart e =
      HasRead-InStep files store file h apart.1 e

  adopt-read :
      (stamp : Option Stamp) (l : Loaded) (now : KeyStore)
      → adopt stamp l ≡ some now
      → now.stamp ≡ stamp
  unfolding adopt
  adopt-read stamp (entries es) now e = ap (λ (s : KeyStore). s.stamp) (sym (some_inj e))
  adopt-read stamp broken now e = ap (λ (s : KeyStore). s.stamp) (sym (some_inj e))
  adopt-read stamp undecodable now e = cc

  -- A reading either keeps the store, or takes over the stamp and the keys of the file.
  refresh-HasRead :
      (files : List KeysFile) (store now : KeyStore) (file : KeysFile)
      → HasRead files store
      → refresh lib store file ≡ some now
      → HasRead (file ∷ files) now
  unfolding refresh HasRead
  refresh-HasRead files store now file h e =
      go (is_reachable file) (unchanged (stamp_of file) store.stamp) e
    where
      go :
          (b c : Bool)
          → (if b then (if c then some store else adopt (stamp_of file) (load lib file)) else none)
            ≡ some now
          → HasRead (file ∷ files) now
      go true true eq = inr (subst (HasRead files) (some_inj eq) h)
      go true false eq = inl (
        adopt-read (stamp_of file) (load lib file) now eq,
        adopt-view lib (stamp_of file) (load lib file) now eq,
      )
      go false c eq = cc

  check-HasRead :
      (files : List KeysFile) (store now : KeyStore) (file : KeysFile) (key : String)
      (answer : Option String)
      → HasRead files store
      → check lib store file key ≡ some (answer, now)
      → HasRead (file ∷ files) now
  unfolding check
  check-HasRead files store now file key answer h e = go (refresh lib store file) refl e
    where
      go :
          (o : Option KeyStore)
          → refresh lib store file ≡ o
          → ◌≡◌ {A = Option (Option String × KeyStore)}
              (elim o [ none ↦ none | some s ↦ some (find_last (lib.digest key) s.hashes, s) ])
              (some (answer, now))
          → HasRead (file ∷ files) now
      go none p eq = cc
      go (some s) p eq =
          refresh-HasRead files store now file h
            (p ∙ ap some (ap (λ (x : Option String × KeyStore). x.1) (some_inj eq)))

  Served-HasRead :
      {files : List KeysFile} {store : KeyStore} → Served files store → HasRead files store
  unfolding HasRead
  Served-HasRead fresh = refl
  Served-HasRead (checked {files} {store} file key answer now s e) =
      check-HasRead files store now file key answer (Served-HasRead s) e
  Served-HasRead (failed file key s e) = inr (Served-HasRead s)

  -- Where the file system gives changed files new stamps, every check that a store answers, after
  -- any checks of earlier states of the file, is answered by the file as it is now: with the name of
  -- its last entry that has the digest of the key, or with none where no entry has it; a broken
  -- file has no entries. The store then holds the keys of that file.
  pub check-view :
      {files : List KeysFile} {store : KeyStore} (now : KeyStore) (file : KeysFile) (key : String)
      (answer : Option String)
      → Served files store
      → All (IsToldApart file) files
      → check lib store file key ≡ some (answer, now)
      → IsAnswer (lib.digest key) (view lib file) answer × (now.hashes ≡ view lib file)
  check-view {files} {store} now file key answer served apart e =
      let step = HasRead-InStep files store file (Served-HasRead served) apart in
      let (found, held) = check-find_last lib store now file key answer step e in
      (
        subst (IsAnswer (lib.digest key) (view lib file)) (sym found)
            (find_last-IsAnswer (lib.digest key) (view lib file)),
        held,
      )
