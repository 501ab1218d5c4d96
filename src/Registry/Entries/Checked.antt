-- ===== src/Registry/Entries/Checked.antt =====
-- What a registry that `parse_registry` of src/agent_lab/registry.py returns satisfies.
use agent_lab.Common.{
  ℕ, suc, ◌≤◌, ◌<◌, ◌≡◌, refl, ◌∙◌, ap, ap₂, ◌||◌, subst, Bool, true, false, ◌&&◌, not, List, [],
  ◌∷◌, ◌++◌, Option, none, some, String, str_eq, if◌then◌else◌, All, All-append, some_inj, arith,
  length, ltb, ◌==◌,
}
use agent_lab.Json.SameBut.{ne_comm}
use agent_lab.Json.{Value, Fields, Items, arr, nil, cons, get}
use agent_lab.Config.Text.{codes}
use agent_lab.Config.Size.{Python}
use agent_lab.Config.Section.{Section, Problem, of_section, of_field, open_section, finish}
use agent_lab.Config.Section.Reads.{
  Reads, Reads-pure, Reads->>=, string-Reads, size-Reads, finish-grows, open_section-clean,
}
use agent_lab.Registry.{ModelFile, ModelEntry, total_size}
use agent_lab.Registry.Files.Checked.{AreListed, read_files-Reads}
use agent_lab.Registry.Entries.{
  is_model_id, is_repo, is_revision, registry, has_id, too_small, none_listed, add_entry,
  unknown_tables, conclude, entry_section, add_table, add_tables, parse_registry,
}

-- The fields of an entry, each by itself.
pub record IsRead (e : ModelEntry) : Type 0 where
  pub id : is_model_id (codes e.id) ≡ true
  pub repo : is_repo (codes e.repo) ≡ true
  pub revision : is_revision (codes e.revision) ≡ true
  pub disk_space : 0 < e.disk_space
  pub files : AreListed e.files

-- An entry of the registry: its disk space covers its files, too.
abbrev pub IsEntry : ModelEntry → Type 0
IsEntry e = IsRead e × (total_size e ≤ e.disk_space)

-- No id twice.
abbrev pub HasDistinctIds : List ModelEntry → Type 0
HasDistinctIds [] = Unit {0}
HasDistinctIds (e ∷ es) = (has_id e.id es ≡ false) × HasDistinctIds es

module _ (py : Python) (label : ℕ → Value → String) where
  entry_section-Reads : (name : String) → Reads (entry_section py label name) IsRead
  unfolding entry_section
  entry_section-Reads name = Reads->>= _ _ (string-Reads "id" (λ s. is_model_id (codes s))) λ id.
      Reads->>= _ _ (string-Reads "description" (λ s. true)) λ description.
        Reads->>= _ _ (string-Reads "repo" (λ s. is_repo (codes s))) λ repo.
          Reads->>= _ _ (string-Reads "revision" (λ s. is_revision (codes s))) λ revision.
            Reads->>= _ _ (size-Reads py "disk_space") λ disk_space.
              Reads->>= _ _ (read_files-Reads name) λ files. Reads-pure _ λ hf hd hv hr ht hi.
                record { id = hi; repo = hr; revision = hv; disk_space = hd; files = hf }

neither : (a b : Bool) → a || b ≡ false → (a ≡ false) × (b ≡ false)
neither true b e = cc
neither false b e = (refl, e)

not_too_small : (e : ModelEntry) → IsRead e → too_small e ≡ false → total_size e ≤ e.disk_space
unfolding too_small
not_too_small e r small =
    go e.files r.files.1 (e.disk_space == 0) refl (ltb e.disk_space (total_size e)) refl small
  where
    go :
        (fs : List ModelFile)
        → 0 < length fs
        → (b : Bool) → (e.disk_space == 0) ≡ b
        → (c : Bool) → ltb e.disk_space (total_size e) ≡ c
        → (not (none_listed fs) && (not b && c)) ≡ false
        → total_size e ≤ e.disk_space
    go [] some_file b p c q h = ground (arith, some_file)
    go (f ∷ fs) some_file true p c q h = ground (arith, p, r.disk_space)
    go (f ∷ fs) some_file false p true q h = cc
    go (f ∷ fs) some_file false p false q h = ground (arith, q)

-- Checked entries, with different ids.
abbrev pub IsRegistry : List ModelEntry → Type 0
IsRegistry es = All IsEntry es × HasDistinctIds es

has_id-add :
    (es : List ModelEntry) (e : ModelEntry) (id : String)
    → has_id id es ≡ false
    → str_eq e.id id ≡ false
    → has_id id (es ++ e ∷ []) ≡ false
unfolding has_id
has_id-add [] e id out other = ap (λ (b : Bool). b || false) other
has_id-add (f ∷ es) e id out other =
    let (one, rest) = neither (str_eq f.id id) (has_id id es) out in
    ap₂ (λ (a b : Bool). a || b) one (has_id-add es e id rest other)

HasDistinctIds-add :
    (es : List ModelEntry) (e : ModelEntry)
    → HasDistinctIds es
    → has_id e.id es ≡ false
    → HasDistinctIds (es ++ e ∷ [])
unfolding has_id
HasDistinctIds-add [] e d out = (refl, tt)
HasDistinctIds-add (f ∷ es) e (one, d) out =
    let (other, rest) = neither (str_eq f.id e.id) (has_id e.id es) out in
    (has_id-add es e f.id one (ne_comm f.id e.id other), HasDistinctIds-add es e d rest)

-- An entry that adds no error was read after none, and leaves a registry.
add_entry-IsRegistry :
    (name : String) (e : ModelEntry) (entries : List ModelEntry) (errors : List Problem)
    → (add_entry name e entries errors).1 ≡ []
    → (errors ≡ [])
      × (IsRead e → IsRegistry entries → IsRegistry (add_entry name e entries errors).0)
unfolding add_entry
add_entry-IsRegistry name e entries errors clean =
    go (has_id e.id entries) refl (too_small e) refl (str_eq e.id "") clean
  where
    go :
        (a : Bool)
        → has_id e.id entries ≡ a
        → (b : Bool) → too_small e ≡ b
        → (c : Bool)
        → let r =
            (if◌then◌else◌ {A = List ModelEntry × List Problem} a
              (entries, of_field name "id" ∷ errors)
              (
                if c then entries else entries ++ e ∷ [],
                if b then of_field name "disk_space" ∷ errors else errors,
              )) in
          r.1 ≡ [] → (errors ≡ []) × (IsRead e → IsRegistry entries → IsRegistry r.0)
    go true p b q c h = cc
    go false p true q c h = cc
    go false p false q true h = (h, λ read good. good)
    go false p false q false h = (
      h,
      λ read good. (
        All-append IsEntry entries (e ∷ []) good.0 ((read, not_too_small e read q), tt),
        HasDistinctIds-add entries e good.1 p,
      ),
    )

module _ (py : Python) (label : ℕ → Value → String) where
  add_table-IsRegistry :
      (name : String) (table : Value) (entries more : List ModelEntry) (errors after : List Problem)
      → add_table py label name table entries errors ≡ some (more, after)
      → after ≡ []
      → (errors ≡ []) × (IsRegistry entries → IsRegistry more)
  unfolding add_table
  add_table-IsRegistry name table entries more errors after e clean =
      go (entry_section py label name opened) refl e
    where
      opened : Section
      opened = open_section name (some table) errors

      go :
          (o : Option (ModelEntry × Section))
          → entry_section py label name opened ≡ o
          → ◌≡◌ {A = Option (List ModelEntry × List Problem)}
              (elim o [ none ↦ none | some (x, s) ↦ some (add_entry name x entries (finish s)) ])
              (some (more, after))
          → (errors ≡ []) × (IsRegistry entries → IsRegistry more)
      go none p h = cc
      go (some (x, s)) p h =
          let pair = some_inj h in
          let r = entry_section-Reads py label name in
          let (finished, keeps) =
            add_entry-IsRegistry name x entries (finish s)
              (ap (λ (y : List ModelEntry × List Problem). y.1) pair ∙ clean) in
          let s_clean = finish-grows s finished in
          let (valid, before) =
            open_section-clean name (some table) errors (r.grows opened x s p s_clean) in
          (
            before,
            λ good.
                subst IsRegistry (ap (λ (y : List ModelEntry × List Problem). y.0) pair)
                  (keeps (r.good opened x s valid p s_clean) good),
          )

  add_tables-IsRegistry :
      (n : ℕ) (items : Items) (entries more : List ModelEntry) (errors after : List Problem)
      → add_tables py label n items entries errors ≡ some (more, after)
      → after ≡ []
      → (errors ≡ []) × (IsRegistry entries → IsRegistry more)
  unfolding add_tables
  add_tables-IsRegistry n nil entries more errors after e clean =
      let pair = some_inj e in
      (
        ap (λ (y : List ModelEntry × List Problem). y.1) pair ∙ clean,
        λ good. subst IsRegistry (ap (λ (y : List ModelEntry × List Problem). y.0) pair) good,
      )
  add_tables-IsRegistry n (cons table rest) entries more errors after e clean =
      go (add_table py label (label n table) table entries errors) refl
        (λ m a h. add_tables-IsRegistry (suc n) rest m more a after h clean) e
    where
      go :
          (o : Option (List ModelEntry × List Problem))
          → add_table py label (label n table) table entries errors ≡ o
          → ((m : List ModelEntry) (a : List Problem)
              → add_tables py label (suc n) rest m a ≡ some (more, after)
              → (a ≡ []) × (IsRegistry m → IsRegistry more))
          → ◌≡◌ {A = Option (List ModelEntry × List Problem)}
              (elim o [ none ↦ none | some (m, a) ↦ add_tables py label (suc n) rest m a ])
              (some (more, after))
          → (errors ≡ []) × (IsRegistry entries → IsRegistry more)
      go none p ih h = cc
      go (some (m, a)) p ih h =
          let (clean', keeps) = ih m a h in
          let (before, first) =
            add_table-IsRegistry (label n table) table entries m errors a p clean' in
          (before, λ good. keeps (first good))

  concluded :
      (o : Option (List ModelEntry × List Problem)) (es : List ModelEntry)
      → conclude o ≡ registry es
      → o ≡ some (es, [])
  unfolding conclude
  concluded none es e = cc
  concluded (some (entries, [])) es e = cc
  concluded (some (entries, x ∷ xs)) es e = cc

  -- Every registry that `parse_registry` returns has different ids, and of each entry a well-formed id,
  -- repository and revision, one file or more, with different and safe names and well-formed hashes, and
  -- a disk space that covers them.
  pub parse_registry-IsRegistry :
      (tables : Fields) (es : List ModelEntry)
      → parse_registry py label tables ≡ registry es
      → IsRegistry es
  unfolding parse_registry
  parse_registry-IsRegistry tables es e = go (get "model" tables) e
    where
      nothing : (errors : List Problem) → conclude (some ([], errors)) ≡ registry es → IsRegistry es
      nothing errors h =
          subst IsRegistry
            (ap (λ (y : List ModelEntry × List Problem). y.0) (some_inj (concluded _ es h)))
            (tt, tt)

      go :
          (o : Option Value)
          → (elim o [
            | none ↦ conclude (some ([], unknown_tables tables))
            | some (arr items) ↦ conclude (add_tables py label 0 items [] (unknown_tables tables))
            | some _ ↦ conclude (some ([], of_section "model" ∷ unknown_tables tables))
          ])
            ≡ registry es
          → IsRegistry es
      go (some (arr items)) h =
          (add_tables-IsRegistry 0 items [] es (unknown_tables tables) [] (concluded _ es h) refl).1
            (tt, tt)
      go none h = nothing (unknown_tables tables) h
      go (some _) h = nothing (of_section "model" ∷ unknown_tables tables) h
