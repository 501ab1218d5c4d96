-- ===== src/Pull/Records.antt =====
-- What the records of src/agent_lab/pull.py remember.
use agent_lab.Common.{
  ◌≡◌, refl, sym, ◌∙◌, ap, Bool, true, false, List, [], ◌∷◌, Option, none, some, String, str_eq,
  eq_iff, arith, if◌then◌else◌,
}
use agent_lab.Json.{Value, get, put, remove, equals_nat}
use agent_lab.Json.Laws.{get-put, get-remove}
use agent_lab.Pull.{
  File, Files, Memory, file_record, known_of, known_sha256, remember, forget, text_items, save,
  texts, load, load_parts,
}

known_of-file_record :
    (file : File) (sha : String) → known_of (some (file_record file sha)) (some file) ≡ some sha
unfolding known_of equals_nat get
known_of-file_record file sha = ground arith

-- A file just remembered is known by its hash; the other files are known as before.
pub known-remember :
    (m : Memory) (files : Files) (file : File) (name sha j : String)
    → files name ≡ some file
    → known_sha256 (remember file name sha m) files j
      ≡ (if str_eq name j then some sha else known_sha256 m files j)
unfolding known_sha256 remember
known-remember m files file name sha j there = go (str_eq name j) refl
  where
    same : known_of (some (file_record file sha)) (files name) ≡ some sha
    same = ap (known_of (some (file_record file sha))) there ∙ known_of-file_record file sha

    go :
        (b : Bool)
        → str_eq name j ≡ b
        → known_of (get j (put name (file_record file sha) m.verified)) (files j)
          ≡ (if b then some sha else known_of (get j m.verified) (files j))
    go true e =
        ap (λ (v : Option Value). known_of v (files j))
          (get-put j name (file_record file sha) m.verified
            ∙ ap (λ (b : Bool). if b then some (file_record file sha) else get j m.verified) e)
        ∙ ap (λ k. known_of (some (file_record file sha)) (files k)) (sym ((eq_iff name j).0 e))
        ∙ same
    go false e =
        ap (λ (v : Option Value). known_of v (files j))
          (get-put j name (file_record file sha) m.verified
            ∙ ap (λ (b : Bool). if b then some (file_record file sha) else get j m.verified) e)

-- A file that is forgotten is not known; the other files are known as before.
pub known-forget :
    (m : Memory) (files : Files) (name j : String)
    → known_sha256 (forget name m) files j
      ≡ (if str_eq name j then none else known_sha256 m files j)
unfolding known_sha256 forget known_of
known-forget m files name j = go (str_eq name j) refl
  where
    either :
        (b : Bool)
        → known_of (if b then none else get j m.verified) (files j)
          ≡ (if b then none else known_of (get j m.verified) (files j))
    either true = refl
    either false = refl

    go :
        (b : Bool)
        → str_eq name j ≡ b
        → known_of (get j (remove name m.verified)) (files j)
          ≡ (if b then none else known_of (get j m.verified) (files j))
    go b e =
        ap (λ (v : Option Value). known_of v (files j))
          (get-remove j name m.verified ∙ ap (λ (c : Bool). if c then none else get j m.verified) e)
        ∙ either b

texts-text_items :
    (to_text : Value → String) (ss : List String) → texts to_text (text_items ss) ≡ ss
unfolding texts text_items
texts-text_items to_text [] = refl
texts-text_items to_text (s ∷ ss) = ap (◌∷◌ s) (texts-text_items to_text ss)

-- What is saved is loaded as it was.
pub load-save : (to_text : Value → String) (m : Memory) → load to_text (some (save m)) ≡ m
unfolding load save load_parts get
load-save to_text m =
    ap (λ (ns : List String). record { verified = m.verified; failed = ns })
      (texts-text_items to_text m.failed)
