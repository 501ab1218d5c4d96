-- ===== src/Gateway/Keys/Store/View.antt =====
-- A check of src/agent_lab/gateway/keys.py as a lookup in the file as it is now.
use agent_lab.Common.{
  ℕ, ◌≡◌, ◌⊎◌, refl, sym, ◌∙◌, ap, ap₂, Bool, true, false, List, [], ◌∷◌, Option, none, some,
  String, if◌then◌else◌, some_inj, inl, inr,
}
use agent_lab.Config.Size.{same_text}
use agent_lab.Gateway.Keys.{
  Hashing, KeyEntry, Stamp, Contents, KeysFile, present, Loaded, entries, broken, undecodable, load,
}
use agent_lab.Gateway.Keys.Store.{
  KeyStore, adopt, refresh, check, stamp_of, is_reachable, unchanged, digests, find_last,
}

-- A key of a list, by name and digest.
abbrev pub HasKey : String → List ℕ → List (String × List ℕ) → Type 0
HasKey name digest [] = ⊥
HasKey name digest ((n, d) ∷ rest) =
    ((n ≡ name) × (same_text digest d ≡ true)) ⊎ HasKey name digest rest

-- What is found is there.
pub find_last-HasKey :
    (digest : List ℕ) (keys : List (String × List ℕ)) (name : String)
    → find_last digest keys ≡ some name
    → HasKey name digest keys
unfolding find_last
find_last-HasKey digest [] name e = cc
find_last-HasKey digest ((n, d) ∷ rest) name e =
    go (find_last digest rest) refl (same_text digest d) refl (find_last-HasKey digest rest name) e
  where
    go :
        (later : Option String)
        → find_last digest rest ≡ later
        → (b : Bool) → same_text digest d ≡ b
        → (find_last digest rest ≡ some name → HasKey name digest rest)
        → (elim later [ some l ↦ some l | none ↦ if b then some n else none ]) ≡ some name
        → HasKey name digest ((n, d) ∷ rest)
    go (some l) p b q ih eq = inr (ih (p ∙ eq))
    go none p true q ih eq = inl (some_inj eq, q)
    go none p false q ih eq = cc

module _ (lib : Hashing) where
  -- The keys that the file names now: none where it is broken.
  abbrev view_of : Loaded → List (String × List ℕ)
  view_of (entries es) = digests es
  view_of _ = []

  abbrev pub view : KeysFile → List (String × List ℕ)
  view file = view_of (load lib file)

  -- A file with the stamp of the last reading is the file that was read.
  abbrev pub InStep : KeyStore → KeysFile → Type 0
  InStep store file = unchanged (stamp_of file) store.stamp ≡ true → store.hashes ≡ view file

  pub adopt-view :
      (stamp : Option Stamp) (l : Loaded) (now : KeyStore)
      → adopt stamp l ≡ some now
      → now.hashes ≡ view_of l
  unfolding adopt
  adopt-view stamp (entries es) now e = ap (λ (s : KeyStore). s.hashes) (sym (some_inj e))
  adopt-view stamp broken now e = ap (λ (s : KeyStore). s.hashes) (sym (some_inj e))
  adopt-view stamp undecodable now e = cc

  refresh-view :
      (store now : KeyStore) (file : KeysFile)
      → InStep store file
      → refresh lib store file ≡ some now
      → now.hashes ≡ view file
  unfolding refresh
  refresh-view store now file step e =
      reached (is_reachable file) (go (unchanged (stamp_of file) store.stamp) step) e
    where
      reached :
          (b : Bool)
          → ((if unchanged (stamp_of file) store.stamp
                  then some store
                  else adopt (stamp_of file) (load lib file))
                ≡ some now
              → now.hashes ≡ view file)
          → (if b
              then (if unchanged (stamp_of file) store.stamp
                  then some store
                  else adopt (stamp_of file) (load lib file))
              else none)
            ≡ some now
          → now.hashes ≡ view file
      reached true h eq = h eq
      reached false h eq = cc

      go :
          (b : Bool)
          → (b ≡ true → store.hashes ≡ view file)
          → (if b then some store else adopt (stamp_of file) (load lib file)) ≡ some now
          → now.hashes ≡ view file
      go true same eq = ap (λ (s : KeyStore). s.hashes) (sym (some_inj eq)) ∙ same refl
      go false same eq = adopt-view (stamp_of file) (load lib file) now eq

  -- A check that answers looks the key up in the file as it is now, whether or not the store reads
  -- the file again, and the store then holds the keys of that file.
  pub check-find_last :
      (store now : KeyStore) (file : KeysFile) (key : String) (answer : Option String)
      → InStep store file
      → check lib store file key ≡ some (answer, now)
      → (answer ≡ find_last (lib.digest key) (view file)) × (now.hashes ≡ view file)
  unfolding check
  check-find_last store now file key answer step e = go (refresh lib store file) refl e
    where
      go :
          (o : Option KeyStore)
          → refresh lib store file ≡ o
          → ◌≡◌ {A = Option (Option String × KeyStore)}
              (elim o [ none ↦ none | some s ↦ some (find_last (lib.digest key) s.hashes, s) ])
              (some (answer, now))
          → (answer ≡ find_last (lib.digest key) (view file)) × (now.hashes ≡ view file)
      go none p eq = cc
      go (some s) p eq =
          let pair = some_inj eq in
          let held = refresh-view store s file step p in
          (
            sym (ap (λ (x : Option String × KeyStore). x.0) pair)
                ∙ ap (find_last (lib.digest key)) held,
            ap (λ (x : Option String × KeyStore). x.1.hashes) (sym pair) ∙ held,
          )

  refresh_new :
      (store : KeyStore) (stamp : Stamp) (contents : Contents) (es : List KeyEntry)
      → unchanged (some stamp) store.stamp ≡ false
      → load lib (present stamp contents) ≡ entries es
      → refresh lib store (present stamp contents)
        ≡ some (record { stamp = some stamp; hashes = digests es })
  unfolding refresh adopt
  refresh_new store stamp contents es fresh e =
      ap₂ (λ (b : Bool) (l : Loaded). if b then some store else adopt (some stamp) l) fresh e

  -- Where the stamp is new, a check of a file that loads looks the key up in its entries.
  pub check_new :
      (store : KeyStore) (stamp : Stamp) (contents : Contents) (key : String) (es : List KeyEntry)
      → unchanged (some stamp) store.stamp ≡ false
      → load lib (present stamp contents) ≡ entries es
      → check lib store (present stamp contents) key
        ≡ some (
          find_last (lib.digest key) (digests es),
          record { stamp = some stamp; hashes = digests es },
        )
  unfolding check
  check_new store stamp contents key es fresh e =
      ap
        (λ (o : Option KeyStore). elim o [
          | none ↦ none
          | some s ↦ some (find_last (lib.digest key) s.hashes, s)
        ])
        (refresh_new store stamp contents es fresh e)
