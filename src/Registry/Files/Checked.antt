-- ===== src/Registry/Files/Checked.antt =====
-- What `_parse_files` of src/agent_lab/registry.py accepts.
use agent_lab.Common.{
  ℕ, suc, ◌+◌, ◌≡◌, refl, sym, ◌∙◌, ap, ap₂, subst, Bool, true, false, ◌&&◌, ◌||◌, not, List, [],
  ◌∷◌, ◌++◌, Option, some, String, str_eq, if◌then◌else◌, All, All-append, length, length-append,
  arith, some_inj, ◌<◌,
}
use agent_lab.Common.Int.{pos}
use agent_lab.Json.{Value, Fields, Items, int, str, obj, arr, nil, cons, end, field, get, get_value}
use agent_lab.Json.SameBut.{contains, ne_comm}
use agent_lab.Config.Text.{codes}
use agent_lab.Config.Section.{Section, Problem, of_field}
use agent_lab.Config.Section.Reads.{Reads}
use agent_lab.Registry.{ModelFile, names, AreDistinct}
use agent_lab.Registry.Files.{
  name_fine, is_sha256, file_fields, unknown_keys, name_good, size_good, sha_good, unless, file_of,
  add_file, all_good, parse_item, parse_items, parse_files, read_files,
}

abbrev pub IsFile : ModelFile → Type 0
IsFile f = (name_fine (codes f.name) ≡ true) × (is_sha256 (codes f.sha256) ≡ true)

-- Files with safe names, each once, and well-formed hashes.
abbrev pub AreFiles : List ModelFile → Type 0
AreFiles fs = All IsFile fs × AreDistinct fs

both : (a b : Bool) → a && b ≡ true → (a ≡ true) × (b ≡ true)
both true b e = (refl, e)
both false b e = cc

unless-clean :
    (b : Bool) (label key : String) (errors : List Problem)
    → unless b label key errors ≡ []
    → (b ≡ true) × (errors ≡ [])
unless-clean true label key errors e = (refl, e)
unless-clean false label key errors e = cc

unknown_keys-clean :
    (label : String) (fs : Fields) (errors : List Problem)
    → unknown_keys label fs errors ≡ []
    → errors ≡ []
unfolding unknown_keys
unknown_keys-clean label end errors e = e
unknown_keys-clean label (field k v rest) errors e =
    go (contains file_fields k) (unknown_keys-clean label rest _ e)
  where
    go : (b : Bool) → (if b then errors else of_field label k ∷ errors) ≡ [] → errors ≡ []
    go true h = h
    go false h = cc

contains-add :
    (fs : List ModelFile) (g : ModelFile) (j : String)
    → contains (names fs) j ≡ false
    → str_eq g.name j ≡ false
    → contains (names (fs ++ g ∷ [])) j ≡ false
contains-add [] g j out other = ap (λ (b : Bool). b || false) other
contains-add (f ∷ fs) g j out other = go (str_eq f.name j) out (contains-add fs g j)
  where
    go :
        (b : Bool)
        → b || contains (names fs) j ≡ false
        → (contains (names fs) j ≡ false
            → str_eq g.name j ≡ false
            → contains (names (fs ++ g ∷ [])) j ≡ false)
        → b || contains (names (fs ++ g ∷ [])) j ≡ false
    go true h more = cc
    go false h more = more h other

AreDistinct-add :
    (fs : List ModelFile) (g : ModelFile)
    → AreDistinct fs
    → contains (names fs) g.name ≡ false
    → AreDistinct (fs ++ g ∷ [])
AreDistinct-add [] g d out = (refl, tt)
AreDistinct-add (f ∷ fs) g (one, d) out =
    go (str_eq f.name g.name) refl out (AreDistinct-add fs g d)
  where
    go :
        (b : Bool)
        → str_eq f.name g.name ≡ b
        → b || contains (names fs) g.name ≡ false
        → (contains (names fs) g.name ≡ false → AreDistinct (fs ++ g ∷ []))
        → AreDistinct (f ∷ (fs ++ g ∷ []))
    go true e h more = cc
    go false e h more = (contains-add fs g f.name one (ne_comm f.name g.name e), more h)

name_good-cases :
    (seen : List String) (n : String)
    → name_good seen (str n) ≡ true
    → (name_fine (codes n) ≡ true) × (contains seen n ≡ false)
unfolding name_good
name_good-cases seen n e =
    let (fine, new) = both (name_fine (codes n)) (not (contains seen n)) e in
    (fine, go (contains seen n) new)
  where
    go : (b : Bool) → not b ≡ true → b ≡ false
    go true h = cc
    go false h = refl

-- The files after an item without an error.
add-AreFiles :
    (files : List ModelFile) (name size sha : Value)
    → AreFiles files
    → name_good (names files) name ≡ true
    → size_good size ≡ true
    → sha_good sha ≡ true
    → AreFiles (add_file (file_of name size sha) files)
      × (length (add_file (file_of name size sha) files) ≡ length files + 1)
unfolding sha_good name_good
add-AreFiles files (str n) (int (pos k)) (str h) (all, d) a b c =
    let (fine, new) = name_good-cases (names files) n a in
    let f : ModelFile = record { name = n; size = k; sha256 = h } in
    (
      (All-append IsFile files (f ∷ []) all ((fine, c), tt), AreDistinct-add files f d new),
      length-append files (f ∷ []),
    )
add-AreFiles files _ _ _ g a b c = cc

-- An item without an error: there was none before, and it adds one good file.
parse_item-AreFiles :
    (label : String) (item : Value) (files : List ModelFile) (errors : List Problem)
    → (parse_item label item files errors).1 ≡ []
    → (errors ≡ [])
      × (AreFiles files → AreFiles (parse_item label item files errors).0)
      × (AreFiles files → length (parse_item label item files errors).0 ≡ length files + 1)
unfolding parse_item
parse_item-AreFiles label (obj fs) files errors e =
    let name = get_value "name" fs in
    let size = get_value "size" fs in
    let sha = get_value "sha256" fs in
    let unknown = unknown_keys label fs errors in
    let named = unless (name_good (names files) name) label "name" unknown in
    let sized = unless (size_good size) label "size" named in
    let (c, e₁) = unless-clean (sha_good sha) label "sha256" sized e in
    let (b, e₂) = unless-clean (size_good size) label "size" named e₁ in
    let (a, e₃) = unless-clean (name_good (names files) name) label "name" unknown e₂ in
    let all : all_good (names files) fs ≡ true =
      ap₂ (λ (x y : Bool). x && y) a (ap₂ (λ (x y : Bool). x && y) b c) in
    let added = add_file (file_of name size sha) files in
    let same : (if all_good (names files) fs then added else files) ≡ added =
      ap (λ (x : Bool). if x then added else files) all in
    (
      unknown_keys-clean label fs errors e₃,
      λ good. subst AreFiles (sym same) (add-AreFiles files name size sha good a b c).0,
      λ good. ap (length) same ∙ (add-AreFiles files name size sha good a b c).1,
    )
parse_item-AreFiles label _ files errors e = cc

abbrev pub count_items : Items → ℕ
count_items nil = 0
count_items (cons v rest) = suc (count_items rest)

parse_items-clean :
    (label : String) (items : Items) (files : List ModelFile) (errors : List Problem)
    → (parse_items label items files errors).1 ≡ []
    → errors ≡ []
unfolding parse_items
parse_items-clean label nil files errors e = e
parse_items-clean label (cons item rest) files errors e =
    let r = parse_item label item files errors in
    (parse_item-AreFiles label item files errors (parse_items-clean label rest r.0 r.1 e)).0

parse_items-AreFiles :
    (label : String) (items : Items) (files : List ModelFile) (errors : List Problem)
    → AreFiles files
    → (parse_items label items files errors).1 ≡ []
    → AreFiles (parse_items label items files errors).0
      × (length (parse_items label items files errors).0 ≡ length files + count_items items)
unfolding parse_items
parse_items-AreFiles label nil files errors good e = (good, omega arith)
parse_items-AreFiles label (cons item rest) files errors good e =
    let r = parse_item label item files errors in
    let (_, one, more) =
      parse_item-AreFiles label item files errors (parse_items-clean label rest r.0 r.1 e) in
    let (all, count) = parse_items-AreFiles label rest r.0 r.1 (one good) e in
    (all, omega (arith, count, more good))

-- The files of a section without an error: well formed, with different names, and not none.
abbrev pub AreListed : List ModelFile → Type 0
AreListed fs = AreFiles fs × (0 < length fs)

parse_files-AreListed :
    (label : String) (v : Option Value) (errors : List Problem)
    → (parse_files label v errors).1 ≡ []
    → (errors ≡ []) × AreListed (parse_files label v errors).0
unfolding parse_files
parse_files-AreListed label (some (arr (cons item rest))) errors e =
    let (all, count) = parse_items-AreFiles label (cons item rest) [] errors (tt, tt) e in
    (parse_items-clean label (cons item rest) [] errors e, (all, omega (arith, count)))
parse_files-AreListed label _ errors e = cc

pub read_files-Reads : (label : String) → Reads (read_files label) AreListed
unfolding read_files
read_files-Reads label = record {
  keeps = λ s a t e. kept s s.valid e;
  grows = λ s a t e clean. grown s s.valid e clean;
  good = λ s a t v e clean. listed s s.valid v e clean;
}
  where
    outcome : Section → Bool → Option (List ModelFile × Section)
    outcome s b =
        if b
        then some (
          (parse_files label (get "files" s.table) s.errors).0,
          record s {
            seen = "files" ∷ s.seen;
            errors = (parse_files label (get "files" s.table) s.errors).1;
          },
        )
        else some ([], record s { seen = "files" ∷ s.seen })

    kept :
        (s : Section) {a : List ModelFile} {t : Section} (b : Bool)
        → outcome s b ≡ some (a, t)
        → t.valid ≡ s.valid
    kept s true e = ap (λ (x : List ModelFile × Section). x.1.valid) (sym (some_inj e))
    kept s false e = ap (λ (x : List ModelFile × Section). x.1.valid) (sym (some_inj e))

    grown :
        (s : Section) {a : List ModelFile} {t : Section} (b : Bool)
        → outcome s b ≡ some (a, t)
        → t.errors ≡ []
        → s.errors ≡ []
    grown s true e clean =
        (parse_files-AreListed label (get "files" s.table) s.errors
          (ap (λ (x : List ModelFile × Section). x.1.errors) (some_inj e) ∙ clean)).0
    grown s false e clean = ap (λ (x : List ModelFile × Section). x.1.errors) (some_inj e) ∙ clean

    listed :
        (s : Section) {a : List ModelFile} {t : Section} (b : Bool)
        → b ≡ true
        → outcome s b ≡ some (a, t)
        → t.errors ≡ []
        → AreListed a
    listed s true v e clean =
        subst AreListed (ap (λ (x : List ModelFile × Section). x.0) (some_inj e))
          (parse_files-AreListed label (get "files" s.table) s.errors
            (ap (λ (x : List ModelFile × Section). x.1.errors) (some_inj e) ∙ clean)).1
    listed s false v e clean = cc
