-- ===== src/Config/Section.antt =====
-- src/agent_lab/config.py: `_Section`, which reads the fields of one table and collects errors.
-- An error is kept as the section and the key that it names; its wording is not modelled.
pub mod Reads
use agent_lab.Common.{
  ℕ, ◌≡◌, Bool, true, false, ◌&&◌, ◌||◌, not, List, [], ◌∷◌, ◌++◌, Option, none, some, String,
  str_eq, if◌then◌else◌, ltb,
}
use agent_lab.Common.Int.{ℤ, pos, ltb_ℤ}
use agent_lab.Json.{
  Value, Fields, Items, Float, null, bool, int, float, str, arr, obj, nil, cons, end, field, nan,
  inf, finite, get,
}
use agent_lab.Json.SameBut.{contains}
use agent_lab.Gateway.Number.{between, fits_double}
use agent_lab.Config.Size.{Python, Parsed, bytes, invalid, too_large, parse_size}

-- An error about a section, or about a field of it.
pub data Problem : Type 0 where
  of_section : String → Problem
  of_field : String → String → Problem
  -- a rule that joins fields
  between_fields : String → Problem

-- `errors` is shared by the sections of a profile; the newest comes first.
pub record Section : Type 0 where
  pub name : String
  pub errors : List Problem
  pub seen : List String
  pub table : Fields
  pub valid : Bool

-- A read returns a value and the section after it; none is an OverflowError.
abbrev pub Read : Type 0 → Type 0
Read A = Section → Option (A × Section)

infixl 20 ◌>>=◌ ◌>>◌
abbrev pub ◌>>=◌ : {A B : Type 0} → Read A → (A → Read B) → Read B
◌>>=◌ m f s = elim (m s) [ none ↦ none | some (a, t) ↦ f a t ]

abbrev pub ◌>>◌ : {B : Type 0} → Read (Unit {0}) → Read B → Read B
m >> k = m >>= λ _. k

abbrev pub pure : {A : Type 0} → A → Read A
pure a s = some (a, s)

-- `_Section(name, table, errors)`; none is a missing table.
unfoldable pub open_section : String → Option Value → List Problem → Section
open_section name (some (obj fs)) errors = record {
  name = name;
  errors = errors;
  seen = [];
  table = fs;
  valid = true;
}
open_section name _ errors = record {
  name = name;
  errors = of_section name ∷ errors;
  seen = [];
  table = end;
  valid = false;
}

-- `_fail(key, message)`
unfoldable pub fail : String → Section → Section
fail key s = record s { errors = of_field s.name key ∷ s.errors }

-- `_get(key)`
unfoldable pub get_field : String → Section → Option Value × Section
unfolding fail
get_field key s =
    let seen = record s { seen = key ∷ s.seen } in
    elim (get key s.table) [
      | none ↦ (none, if s.valid then fail key seen else seen)
      | some v ↦ (some v, seen)
    ]

-- A default after a failure.
give : {A : Type 0} → String → A → Read A
unfolding fail
give key a s = some (a, fail key s)

-- A value that stays, with an error where it is out of range.
keep_if : {A : Type 0} → Bool → String → A → Read A
unfolding fail
keep_if fine key a s = some (a, if fine then s else fail key s)

-- minimum is not None and value < minimum
below : Option ℤ → ℤ → Bool
below none n = false
below (some low) n = ltb_ℤ n low

above : Option ℤ → ℤ → Bool
above none n = false
above (some high) n = ltb_ℤ high n

check_int : String → Option ℤ → Option ℤ → Option Value → Read ℤ
unfolding give keep_if below above
check_int key low high none = pure (pos 0)
check_int key low high (some (int n)) =
    keep_if (not (below low n)) key n >>= λ m. keep_if (not (above high m)) key m
check_int key low high (some _) = give key (pos 0)

-- `integer(key, minimum, maximum)`
unfoldable pub integer : String → Option ℤ → Option ℤ → Read ℤ
unfolding check_int get_field
integer key low high s = let (v, t) = get_field key s in check_int key low high v t

abbrev zero_float : Float
zero_float = finite (pos 0) 0

check_text : String → (String → Bool) → Option Value → Read String
unfolding give keep_if
check_text key check none = pure ""
check_text key check (some (str t)) = if str_eq t "" then give key "" else keep_if (check t) key t
check_text key check (some _) = give key ""

-- `string(key, check)`
unfoldable pub string : String → (String → Bool) → Read String
unfolding check_text get_field
string key check s = let (v, t) = get_field key s in check_text key check v t

check_flag : String → Option Value → Read Bool
unfolding give
check_flag key none = pure false
check_flag key (some (bool b)) = pure b
check_flag key (some _) = give key false

-- `boolean(key)`
unfoldable pub boolean : String → Read Bool
unfolding check_flag get_field
boolean key s = let (v, t) = get_field key s in check_flag key v t

module _ (py : Python) where
  check_number : String → ℤ → ℤ → Option Value → Read Float
  unfolding give keep_if
  check_number key low high none = pure zero_float
  check_number key low high (some (int n)) = λ s.
      if fits_double n then keep_if (between low high (int n)) key (py.int_to_float n) s else none
  check_number key low high (some (float f)) = keep_if (between low high (float f)) key f
  check_number key low high (some _) = give key zero_float

  -- `number(key, minimum, maximum)`
  unfoldable pub number : String → ℤ → ℤ → Read Float
  unfolding check_number get_field
  number key low high s = let (v, t) = get_field key s in check_number key low high v t

  check_size : String → Option Value → Read ℕ
  unfolding give keep_if
  check_size key none = pure 0
  check_size key (some (str text)) = λ s. elim (parse_size py text) [
    | bytes n ↦ keep_if (ltb 0 n) key n s
    | invalid ↦ give key 0 s
    | too_large ↦ none
  ]
  check_size key (some _) = give key 0

  -- `size(key)`
  unfoldable pub size : String → Read ℕ
  unfolding check_size get_field
  size key s = let (v, t) = get_field key s in check_size key v t

-- The keys of a dict that a list does not hold.
unknown_fields : String → List String → Fields → List Problem → List Problem
unknown_fields name seen end errors = errors
unknown_fields name seen (field k v rest) errors =
    unknown_fields name seen rest (if contains seen k then errors else of_field name k ∷ errors)

-- `finish()`: the errors afterwards. (The source goes through the unknown fields in order of name.)
unfoldable pub finish : Section → List Problem
unfolding unknown_fields
finish s = unknown_fields s.name s.seen s.table s.errors
