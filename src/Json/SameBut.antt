-- ===== src/Json/SameBut.antt =====
-- Two dicts that agree outside a list of keys.
use agent_lab.Common.{
  ◌≡◌, refl, ◌∙◌, Bool, true, false, ◌||◌, List, [], ◌∷◌, ◌++◌, String, str_eq, eq_iff, eq_refl,
  Bool-cases, inl, inr, ap,
}
use agent_lab.Json.{Value, Fields, get, put, set_default}
use agent_lab.Json.Laws.{get-put, get-set_default}

abbrev pub contains : List String → String → Bool
contains [] j = false
contains (k ∷ ks) j = str_eq k j || contains ks j

pub not_contains-append :
    (ks ls : List String) (j : String)
    → contains (ks ++ ls) j ≡ false
    → (contains ks j ≡ false) × (contains ls j ≡ false)
not_contains-append [] ls j o = (refl, o)
not_contains-append (k ∷ ks) ls j o = elim (Bool-cases (str_eq k j)) [
  | inl e ↦ cc (rw e at o)
  | inr e ↦ rw e (not_contains-append ks ls j (rw e at o))
]

abbrev pub SameBut : List String → Fields → Fields → Type 0
SameBut ks m n = (j : String) → contains ks j ≡ false → get j n ≡ get j m

pub SameBut-refl : (ks : List String) (m : Fields) → SameBut ks m m
SameBut-refl ks m j h = refl

pub SameBut-trans :
    (ks : List String) (l m n : Fields) → SameBut ks l m → SameBut ks m n → SameBut ks l n
SameBut-trans ks l m n h k j out = k j out ∙ h j out

-- A key of the list is none of the others.
pub key-ne :
    (ks : List String) (k j : String)
    → contains ks k ≡ true
    → contains ks j ≡ false
    → str_eq k j ≡ false
key-ne ks k j i o = elim (Bool-cases (str_eq k j)) [
  | inl e ↦ cc (i, o, ap (contains ks) ((eq_iff k j).0 e))
  | inr e ↦ e
]

pub SameBut-put :
    (ks : List String) (k : String) (v : Value) (m : Fields)
    → contains ks k ≡ true
    → SameBut ks m (put k v m)
SameBut-put ks k v m i j o = rw (get-put j k v m) (rw (key-ne ks k j i o))

pub SameBut-set_default :
    (ks : List String) (k : String) (v : Value) (m : Fields)
    → contains ks k ≡ true
    → SameBut ks m (set_default k v m)
SameBut-set_default ks k v m i j o = rw (get-set_default j k v m) (rw (key-ne ks k j i o))

pub ne_comm : (s t : String) → str_eq s t ≡ false → str_eq t s ≡ false
ne_comm s t h = elim (Bool-cases (str_eq t s)) [
  | inl e ↦ cc (h, (eq_iff t s).0 e, eq_refl s)
  | inr e ↦ e
]
