-- ===== src/Gateway/Keys/Store/Commands.antt =====
-- `alab keys create` and `revoke` of src/agent_lab/gateway/keys.py, as the running gateway sees them.
use Prim.Native.Char.{code}
use Prim.Native.String.{◌++◌ as append}
use agent_lab.Common.{
  ℕ, ◌≡◌, ◌≢◌, refl, sym, ◌∙◌, ap, ap₂, Bool, true, false, ◌&&◌, not, List, [], ◌∷◌, ◌++◌, Option,
  none, some, String, str_eq, if◌then◌else◌, some_inj, Bool-cases, inl, inr, All, All-append, subst,
  length, ◌==◌, eq_iff, arith,
}
use package.text.Mathlib.TextLemmas.{nil-append, cons-append}
use agent_lab.Config.Text.{codes, all_in}
use agent_lab.Config.Size.{same_text}
use agent_lab.Gateway.Keys.{
  Hashing, KeyEntry, Stamp, text, KeysFile, present, Loaded, entries, broken, undecodable, load,
  from_hex, remove_prefix, strip_prefix, create, revoke, made, revoked, refused, failed,
  not_written, Outcome, is_key_name, is_hash, hex_char, has_name, save, without_name, new_key,
  new_entry, hash_key, render,
}
use agent_lab.Gateway.Keys.Toml.{ReadsToml, key_document}
use agent_lab.Gateway.Keys.Saved.{IsEntry, load-IsEntry, load-render}
use agent_lab.Gateway.Keys.Store.{KeyStore, check, unchanged, digests, find_last}
use agent_lab.Gateway.Keys.Store.Served.{unchanged-eq}
use agent_lab.Gateway.Keys.Store.View.{HasKey, find_last-HasKey, check_new}

-- A stamp that the store does not have is a change.
unchanged-new :
    (stamp : Stamp) (last : Option Stamp) → last ≢ some stamp → unchanged (some stamp) last ≡ false
unchanged-new stamp last new = elim (Bool-cases (unchanged (some stamp) last)) [
  | inl same ↦
      let (s, now, then_stamp) = unchanged-eq (some stamp) last same in
      elim (new (then_stamp ∙ sym now)) [ ]
  | inr fresh ↦ fresh
]

same_text_refl : (cs : List ℕ) → same_text cs cs ≡ true
same_text_refl [] = refl
same_text_refl (c ∷ cs) = ground (arith, same_text_refl cs)

find_last-append :
    (digest : List ℕ) (keys : List (String × List ℕ)) (name : String)
    → find_last digest (keys ++ ((name, digest) ∷ [])) ≡ some name
unfolding find_last
find_last-append digest [] name = rw (same_text_refl digest) refl
find_last-append digest ((n, d) ∷ rest) name =
    ap
      (λ (o : Option String). elim o [
        | some l ↦ some l
        | none ↦ if same_text digest d then some n else none
      ])
      (find_last-append digest rest name)

digests-append : (es fs : List KeyEntry) → digests (es ++ fs) ≡ digests es ++ digests fs
unfolding digests
digests-append [] fs = refl
digests-append (e ∷ es) fs =
    ap (◌∷◌ (e.name, from_hex (remove_prefix (codes e.hash)))) (digests-append es fs)

-- No entry of that name is left.
HasKey-without_name :
    (name : String) (digest : List ℕ) (es : List KeyEntry)
    → HasKey name digest (digests (without_name name es))
    → ⊥
unfolding digests without_name
HasKey-without_name name digest [] h = h
HasKey-without_name name digest (e ∷ es) h =
    go (str_eq e.name name) refl (HasKey-without_name name digest es) h
  where
    go :
        (b : Bool)
        → str_eq e.name name ≡ b
        → (HasKey name digest (digests (without_name name es)) → ⊥)
        → HasKey name digest
            (digests (if b then without_name name es else e ∷ without_name name es))
        → ⊥
    go true p ih k = ih k
    go false p ih (inl m) = cc (p, (eq_iff e.name name).1 m.0)
    go false p ih (inr k) = ih k

without_name-IsEntry :
    (name : String) (es : List KeyEntry) → All IsEntry es → All IsEntry (without_name name es)
unfolding without_name
without_name-IsEntry name [] v = tt
without_name-IsEntry name (e ∷ es) v = elim (Bool-cases (str_eq e.name name)) [
  | inl b ↦ rw b (without_name-IsEntry name es v.1)
  | inr b ↦ rw b (v.0, without_name-IsEntry name es v.1)
]

codes-append : (s t : String) → codes (append s t) ≡ codes s ++ codes t
codes-append String.[] t = ap codes (nil-append t)
codes-append (String.◌∷◌ c s) t =
    ap codes (cons-append c s t) ∙ ap (◌∷◌ (code c)) (codes-append s t)

module _ (lib : Hashing) where
  -- What SHA-256 of a key is known to satisfy: 64 hexadecimal digits that stand for the digest.
  pub record IsHex (key : String) : Type 0 where
    pub digits : length (codes (lib.hexdigest key)) ≡ 64
    pub hexadecimal : all_in hex_char (codes (lib.hexdigest key)) ≡ true
    pub digest : from_hex (codes (lib.hexdigest key)) ≡ lib.digest key

  codes-hash_key :
      (key : String) → codes (hash_key lib key) ≡ codes "sha256:" ++ codes (lib.hexdigest key)
  unfolding hash_key
  codes-hash_key key = codes-append "sha256:" (lib.hexdigest key)

  remove_prefix-hash_key :
      (key : String) → remove_prefix (codes (hash_key lib key)) ≡ codes (lib.hexdigest key)
  unfolding remove_prefix strip_prefix
  remove_prefix-hash_key key = ap remove_prefix (codes-hash_key key)

  is_hash-hash_key : (key : String) → IsHex key → is_hash (codes (hash_key lib key)) ≡ true
  unfolding is_hash strip_prefix
  is_hash-hash_key key h =
      ap is_hash (codes-hash_key key)
      ∙ ap₂ (λ (p q : Bool). p && q) (ap (λ n. n == 64) h.digits) h.hexadecimal

  save-written :
      (es : List KeyEntry) (w : Option Stamp) (done result : Outcome) (file after : KeysFile)
      → save lib es w done file ≡ (result, after)
      → result ≢ not_written
      → (result ≡ done)
        × (stamp : Stamp) × (w ≡ some stamp)
        × (after ≡ present stamp (text (render es)))
  unfolding save
  save-written es none done result file after e n =
      elim (n (ap (λ (x : Outcome × KeysFile). x.0) (sym e))) [ ]
  save-written es (some stamp) done result file after e n = (
    ap (λ (x : Outcome × KeysFile). x.0) (sym e),
    stamp,
    refl,
    ap (λ (x : Outcome × KeysFile). x.1) (sym e),
  )

  made_inj : {k l : String} → made k ≡ made l → k ≡ l
  made_inj h = cc

  entries_inj : {es fs : List KeyEntry} → entries es ≡ entries fs → es ≡ fs
  entries_inj h = cc

  -- The digest that a new entry stands for.
  remove_hash :
      (key : String)
      → IsHex key
      → from_hex (remove_prefix (codes (hash_key lib key))) ≡ lib.digest key
  remove_hash key h = ap from_hex (remove_prefix-hash_key key) ∙ h.digest

  -- A check of a file just saved.
  check_saved :
      (stamp : Stamp) (file : KeysFile) (key : String) (es : List KeyEntry) (store : KeyStore)
      → file ≡ present stamp (text (render es))
      → All IsEntry es
      → ReadsToml lib (key_document es)
      → unchanged (some stamp) store.stamp ≡ false
      → check lib store file key
        ≡ some (
          find_last (lib.digest key) (digests es),
          record { stamp = some stamp; hashes = digests es },
        )
  check_saved stamp file key es store f valid back fresh =
      ap (λ (x : KeysFile). check lib store x key) f
      ∙ check_new lib store stamp (text (render es)) key es fresh
          (load-render lib stamp es valid back)

  created_cases :
      (name token now : String) (written : Option Stamp) (file after : KeysFile) (key : String)
      → create lib name token now written file ≡ (made key, after)
      → (is_key_name (codes name) ≡ true)
        × (es : List KeyEntry) × (load lib file ≡ entries es)
        × (key ≡ new_key lib token)
        × (stamp : Stamp) × (written ≡ some stamp)
        × (after ≡ present stamp (text (render (es ++ (new_entry lib name token now ∷ [])))))
  unfolding create
  created_cases name token now written file after key e =
      go (is_key_name (codes name)) refl (load lib file) refl e
    where
      go :
          (b : Bool)
          → is_key_name (codes name) ≡ b
          → (l : Loaded) → load lib file ≡ l
          → ◌≡◌ {A = Outcome × KeysFile}
              (if not b then (refused, file) else elim l [
                | broken ↦ (refused, file)
                | undecodable ↦ (failed, file)
                | entries es ↦
                    if has_name name es
                    then (refused, file)
                    else save lib
                        (es ++ (new_entry lib name token now ∷ []))
                        written
                        (made (new_key lib token))
                        file
              ])
              (made key, after)
          → (is_key_name (codes name) ≡ true)
            × (es : List KeyEntry) × (load lib file ≡ entries es)
            × (key ≡ new_key lib token)
            × (stamp : Stamp) × (written ≡ some stamp)
            × (after ≡ present stamp (text (render (es ++ (new_entry lib name token now ∷ [])))))
      go false p l q eq = cc
      go true p broken q eq = cc
      go true p undecodable q eq = cc
      go true p (entries es) q eq = elim (Bool-cases (has_name name es)) [
        | inl taken ↦ cc (rw taken at eq)
        | inr free ↦
            let (same, stamp, w, now_file) =
              save-written (es ++ (new_entry lib name token now ∷ [])) written
                (made (new_key lib token)) (made key) file after (rw free at eq) (λ h. cc) in
            (p, es, q, made_inj same, stamp, w, now_file)
      ]

  revoked_cases :
      (name : String) (written : Option Stamp) (file after : KeysFile)
      → revoke lib name written file ≡ (revoked, after)
      → (es : List KeyEntry) × (load lib file ≡ entries es)
        × (stamp : Stamp) × (written ≡ some stamp)
        × (after ≡ present stamp (text (render (without_name name es))))
  unfolding revoke
  revoked_cases name written file after e = go (load lib file) refl e
    where
      go :
          (l : Loaded)
          → load lib file ≡ l
          → ◌≡◌ {A = Outcome × KeysFile}
              (elim l [
                | broken ↦ (refused, file)
                | undecodable ↦ (failed, file)
                | entries es ↦
                    if length (without_name name es) == length es
                    then (refused, file)
                    else save lib (without_name name es) written revoked file
              ])
              (revoked, after)
          → (es : List KeyEntry) × (load lib file ≡ entries es)
            × (stamp : Stamp) × (written ≡ some stamp)
            × (after ≡ present stamp (text (render (without_name name es))))
      go broken q eq = cc
      go undecodable q eq = cc
      go (entries es) q eq = elim (Bool-cases (length (without_name name es) == length es)) [
        | inl none_left ↦ cc (rw none_left at eq)
        | inr fewer ↦
            let (same, stamp, w, now_file) =
              save-written (without_name name es) written revoked revoked file after
                (rw fewer at eq) (λ h. cc) in
            (es, q, stamp, w, now_file)
      ]

  -- A key that `alab keys create` returns is accepted under its name by every store that sees the new
  -- file under a new stamp, where the parser reads the TOML document of the entries as TOML says and
  -- SHA-256 gives hexadecimal digits.
  pub create-check :
      (name token now : String) (stamp : Stamp) (file after : KeysFile) (key : String)
      (es : List KeyEntry) (store : KeyStore)
      → create lib name token now (some stamp) file ≡ (made key, after)
      → load lib file ≡ entries es
      → ReadsToml lib (key_document (es ++ (new_entry lib name token now ∷ [])))
      → IsHex key
      → store.stamp ≢ some stamp
      → (next : KeyStore) × (check lib store after key ≡ some (some name, next))
  unfolding digests
  create-check name token now stamp file after key es store e l back hex fresh =
      let (valid_name, old, l', made_key, st, w, file_now) =
        created_cases name token now (some stamp) file after key e in
      let entry = new_entry lib name token now in
      let saved = es ++ (entry ∷ []) in
      let now_file =
        file_now
        ∙ ap₂ (λ (s : Stamp) (xs : List KeyEntry). present s (text (render (xs ++ (entry ∷ [])))))
            (sym (some_inj w)) (entries_inj (sym l' ∙ l)) in
      let hashed = is_hash-hash_key (new_key lib token) (subst IsHex made_key hex) in
      let valid =
        All-append IsEntry es (entry ∷ []) (load-IsEntry lib file es l)
          ((valid_name, hashed), tt) in
      let last =
        digests-append es (entry ∷ [])
        ∙ ap (λ (d : List ℕ). digests es ++ ((name, d) ∷ []))
            (remove_hash (new_key lib token) (subst IsHex made_key hex)
              ∙ ap lib.digest (sym made_key)) in
      (
        record { stamp = some stamp; hashes = digests saved },
        check_saved stamp after key saved store now_file valid back
              (unchanged-new stamp store.stamp fresh)
            ∙ ap
                (λ (o : Option String).
                  some (o, record { stamp = some stamp; hashes = digests saved }))
                (ap (find_last (lib.digest key)) last
                  ∙ find_last-append (lib.digest key) (digests es) name),
      )

  -- After `alab keys revoke` of a name no key is accepted under that name by a store that sees the new
  -- file under a new stamp, where the parser reads the TOML document of the entries that are left as
  -- TOML says; the store answers.
  pub revoke-check :
      (name : String) (stamp : Stamp) (file after : KeysFile) (key : String) (es : List KeyEntry)
      (store : KeyStore)
      → revoke lib name (some stamp) file ≡ (revoked, after)
      → load lib file ≡ entries es
      → ReadsToml lib (key_document (without_name name es))
      → store.stamp ≢ some stamp
      → (answer : Option String) × (next : KeyStore) × (check lib store after key
          ≡ some (answer, next))
        × (answer ≢ some name)
  revoke-check name stamp file after key es store e l back fresh =
      let (old, l', st, w, file_now) = revoked_cases name (some stamp) file after e in
      let kept = without_name name es in
      let now =
        file_now
        ∙ ap₂ (λ (s : Stamp) (xs : List KeyEntry). present s (text (render (without_name name xs))))
            (sym (some_inj w)) (entries_inj (sym l' ∙ l)) in
      let valid = without_name-IsEntry name es (load-IsEntry lib file es l) in
      let looked =
        check_saved stamp after key kept store now valid back
          (unchanged-new stamp store.stamp fresh) in
      (
        find_last (lib.digest key) (digests kept),
        record { stamp = some stamp; hashes = digests kept },
        looked,
        λ found.
            HasKey-without_name name (lib.digest key) es
              (find_last-HasKey (lib.digest key) (digests kept) name found),
      )
