-- ===== src/Gateway/Keys/Saved.antt =====
-- What a command of src/agent_lab/gateway/keys.py saves, `load` reads back.
use agent_lab.Common.{
  ◌≡◌, refl, sym, ◌∙◌, ap, ap₂, Bool, true, false, ◌&&◌, List, [], ◌∷◌, map, Option, none, some,
  String, some_inj, if◌then◌else◌, All, subst,
}
use Prim.Native.String.{◌++◌ as append}
use package.text.Mathlib.TextLemmas.{append_assoc}
use agent_lab.Json.{Value, Fields, str, obj, end, field, get}
use agent_lab.Config.Text.{codes}
use agent_lab.Gateway.Keys.{
  Hashing, KeyEntry, Stamp, text, unreadable, not_utf8, KeysFile, absent, unreachable, present,
  entries, broken, is_key_name, join_lines, entry_lines, is_hash, render, read_entry, read_entries,
  read_table, load, created_text,
}
use agent_lab.Gateway.Keys.Toml.{
  pair_lines, table_lines, broken_lines, toml_text, pair_fields, table_fields, toml_value,
  ReadsToml, entry_table, key_document,
}

-- An entry that `load` accepts.
abbrev pub IsEntry : KeyEntry → Type 0
IsEntry e = (is_key_name (codes e.name) ≡ true) × (is_hash (codes e.hash) ≡ true)

-- A literal before a text, in one piece or two.
joined : (s t rest : String) → append s (append t rest) ≡ append (append s t) rest
joined s t rest = sym (append_assoc s t rest)

header-joined :
    (name : String)
    → append "[" (append "keys" (append "." (append name "]"))) ≡ append "[keys." (append name "]")
header-joined name =
    ap (append "[") (joined "keys" "." (append name "]")) ∙ joined "[" "keys." (append name "]")

-- The lines that `_render` writes are those of the document.
entry_lines-toml : (es : List KeyEntry) → table_lines "keys" (map entry_table es) ≡ entry_lines es
unfolding entry_lines table_lines pair_lines
entry_lines-toml [] = refl
entry_lines-toml (e ∷ es) =
    ap₂ (λ (l : String) (ls : List String). l ∷ ls) (header-joined e.name)
      (ap₂ (λ (l : String) (ls : List String). l ∷ ls) (joined "hash" " = \"" (append e.hash "\""))
        (ap₂ (λ (l : String) (ls : List String). l ∷ ls)
          (joined "created" " = \"" (append e.created "\""))
          (ap (λ rest. "" ∷ rest) (entry_lines-toml es))))

join_lines-broken : (lines : List String) → join_lines lines ≡ broken_lines lines
unfolding join_lines broken_lines
join_lines-broken [] = refl
join_lines-broken (line ∷ []) = refl
join_lines-broken (line ∷ next ∷ lines) =
    ap (λ rest. append line (append "\n" rest)) (join_lines-broken (next ∷ lines))

-- `_render` writes the document of its entries.
render-toml : (es : List KeyEntry) → render es ≡ toml_text (key_document es)
unfolding render toml_text
render-toml es =
    join_lines-broken (
      "# API keys for the gateway, managed by `alab keys`. Only hashes are stored."
      ∷ ""
      ∷ entry_lines es)
    ∙ ap (λ lines. broken_lines (append "#" (key_document es).comment ∷ "" ∷ lines))
        (sym (entry_lines-toml es))

entries_inj : {es fs : List KeyEntry} → entries es ≡ entries fs → es ≡ fs
entries_inj h = cc

module _ (lib : Hashing) where
  read_entry-IsEntry :
      (name : String) (item : Value) (e : KeyEntry) → read_entry lib name item ≡ some e → IsEntry e
  unfolding read_entry
  read_entry-IsEntry name (obj fs) e h = go (get "hash" fs) h
    where
      accept :
          (h : String) (b c : Bool)
          → is_key_name (codes name) ≡ b
          → is_hash (codes h) ≡ c
          → (if b && c
              then some (record { name = name; hash = h; created = created_text lib fs })
              else none)
            ≡ some e
          → IsEntry e
      accept h true true p q eq = subst IsEntry (some_inj eq) (p, q)
      accept h true false p q eq = cc
      accept h false c p q eq = cc

      go :
          (o : Option Value)
          → (elim o [
            | some (str h) ↦
                if is_key_name (codes name) && is_hash (codes h)
                then some (record { name = name; hash = h; created = created_text lib fs })
                else none
            | _ ↦ none
          ])
            ≡ some e
          → IsEntry e
      go (some (str t)) eq = accept t (is_key_name (codes name)) (is_hash (codes t)) refl refl eq
      go _ eq = cc
  read_entry-IsEntry name _ e h = cc

  read_entries-IsEntry :
      (table : Fields) (es : List KeyEntry) → read_entries lib table ≡ some es → All IsEntry es
  unfolding read_entries
  read_entries-IsEntry end es h = subst (All IsEntry) (some_inj h) tt
  read_entries-IsEntry (field name item rest) es h =
      go (read_entry lib name item) refl (read_entries lib rest) refl (read_entries-IsEntry rest) h
    where
      go :
          (first : Option KeyEntry)
          → read_entry lib name item ≡ first
          → (others : Option (List KeyEntry)) → read_entries lib rest ≡ others
          → ((more : List KeyEntry) → others ≡ some more → All IsEntry more)
          → (elim first [
            | none ↦ none
            | some e ↦ elim others [ none ↦ none | some more ↦ some (e ∷ more) ]
          ])
            ≡ some es
          → All IsEntry es
      go none p others q valid eq = cc
      go (some e) p none q valid eq = cc
      go (some e) p (some more) q valid eq =
          subst (All IsEntry) (some_inj eq) (read_entry-IsEntry name item e p, valid more refl)

  read_table-IsEntry :
      (table : Option Value) (es : List KeyEntry)
      → read_table lib table ≡ entries es
      → All IsEntry es
  unfolding read_table
  read_table-IsEntry none es h = subst (All IsEntry) (entries_inj h) tt
  read_table-IsEntry (some (obj table)) es h = go (read_entries lib table) refl h
    where
      go :
          (o : Option (List KeyEntry))
          → read_entries lib table ≡ o
          → (elim o [ none ↦ broken | some more ↦ entries more ]) ≡ entries es
          → All IsEntry es
      go none p eq = cc
      go (some more) p eq = read_entries-IsEntry table es (p ∙ ap some (entries_inj eq))
  read_table-IsEntry (some _) es h = cc

  -- Every entry that `load` returns is valid.
  pub load-IsEntry :
      (file : KeysFile) (es : List KeyEntry) → load lib file ≡ entries es → All IsEntry es
  unfolding load
  load-IsEntry absent es h = subst (All IsEntry) (entries_inj h) tt
  load-IsEntry unreachable es h = cc
  load-IsEntry (present stamp unreadable) es h = cc
  load-IsEntry (present stamp not_utf8) es h = cc
  load-IsEntry (present stamp (text t)) es h = go (lib.parse t) h
    where
      go :
          (o : Option Fields)
          → (elim o [ none ↦ broken | some table ↦ read_table lib (get "keys" table) ]) ≡ entries es
          → All IsEntry es
      go none eq = cc
      go (some table) eq = read_table-IsEntry (get "keys" table) es eq

  -- The fields of one saved entry.
  abbrev entry_item : KeyEntry → Value
  entry_item e = obj (field "hash" (str e.hash) (field "created" (str e.created) end))

  read_entry-item : (e : KeyEntry) → IsEntry e → read_entry lib e.name (entry_item e) ≡ some e
  unfolding read_entry get created_text
  read_entry-item e v =
      ap (λ (b : Bool). if b then some e else none) (ap₂ (λ (p q : Bool). p && q) v.0 v.1)

  read_entries-fields :
      (es : List KeyEntry)
      → All IsEntry es
      → read_entries lib (table_fields (map entry_table es)) ≡ some es
  unfolding read_entries table_fields pair_fields
  read_entries-fields [] v = refl
  read_entries-fields (e ∷ es) v =
      ap₂
        (λ (first : Option KeyEntry) (others : Option (List KeyEntry)). elim first [
          | none ↦ none
          | some e ↦ elim others [ none ↦ none | some more ↦ some (e ∷ more) ]
        ])
        (read_entry-item e v.0) (read_entries-fields es v.1)

  parsed :
      (stamp : Stamp) (t : String) (table : Fields)
      → lib.parse t ≡ some table
      → load lib (present stamp (text t)) ≡ read_table lib (get "keys" table)
  unfolding load
  parsed stamp t table e =
      ap
        (λ (o : Option Fields). elim o [ none ↦ broken | some fs ↦ read_table lib (get "keys" fs) ])
        e

  read_table-keys :
      (es : List KeyEntry)
      → All IsEntry es
      → read_table lib (get "keys" (toml_value (key_document es))) ≡ entries es
  unfolding read_table toml_value get
  read_table-keys [] v = refl
  read_table-keys (e ∷ es) v =
      ap (λ (o : Option (List KeyEntry)). elim o [ none ↦ broken | some more ↦ entries more ])
        (read_entries-fields (e ∷ es) v)

  -- What is saved is read back, where the parser reads the document of the entries as TOML says.
  pub load-render :
      (stamp : Stamp) (es : List KeyEntry)
      → All IsEntry es
      → ReadsToml lib (key_document es)
      → load lib (present stamp (text (render es))) ≡ entries es
  load-render stamp es v back =
      parsed stamp (render es) (toml_value (key_document es)) (ap lib.parse (render-toml es) ∙ back)
      ∙ read_table-keys es v
