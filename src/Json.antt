-- ===== src/Json.antt =====
-- What `json.loads` and `tomllib.load` return: Python values made of dicts, lists, strings and
-- numbers, and the few operations on dicts that the sources use.
pub mod Laws
pub mod SameBut
use agent_lab.Common.{
  ℕ, zero, ◌*◌, ◌^◌, ◌≡◌, Bool, true, false, not, Option, none, some, String, str_eq, if◌then◌else◌,
  ◌==◌,
}
use agent_lab.Common.Int.{ℤ, pos, negsuc}

-- A double: not a number, an infinity (true: negative), or exactly `m / 2 ^ k`.
pub data Float : Type 0 where
  nan : Float
  inf : Bool → Float
  finite : ℤ → ℕ → Float

-- A dict keeps its keys in insertion order, each once.
mutual
  pub data Value : Type 0 where
    null : Value
    bool : Bool → Value
    int : ℤ → Value
    float : Float → Value
    str : String → Value
    obj : Fields → Value
    arr : Items → Value

  pub data Fields : Type 0 where
    end : Fields
    field : String → Value → Fields → Fields

  pub data Items : Type 0 where
    nil : Items
    cons : Value → Items → Items

-- key in d, d[key]
unfoldable pub get : String → Fields → Option Value
get k end = none
get k (field j v m) = if str_eq j k then some v else get k m

abbrev pub value_or_null : Option Value → Value
value_or_null none = null
value_or_null (some v) = v

-- d.get(key): None where the key is missing, and where its value is null.
abbrev pub get_value : String → Fields → Value
get_value k m = value_or_null (get k m)

-- d[key] = v: a new key goes to the end.
unfoldable pub put : String → Value → Fields → Fields
put k v end = field k v end
put k v (field j w m) = if str_eq j k then field j v m else field j w (put k v m)

-- d.setdefault(key, v)
unfoldable pub set_default : String → Value → Fields → Fields
set_default k v m = elim (get k m) [ none ↦ put k v m | some w ↦ m ]

-- d.pop(key, None)
unfoldable pub remove : String → Fields → Fields
remove k end = end
remove k (field j v m) = if str_eq j k then remove k m else field j v (remove k m)

-- The truth value of a value.
abbrev pub truthy : Value → Bool
truthy null = false
truthy (bool b) = b
truthy (int (pos zero)) = false
truthy (int _) = true
truthy (float (finite (pos zero) k)) = false
truthy (float _) = true
truthy (str s) = not (str_eq s "")
truthy (arr nil) = false
truthy (arr _) = true
truthy (obj end) = false
truthy (obj _) = true

-- value == n
unfoldable pub equals_nat : Value → ℕ → Bool
equals_nat (int (pos m)) n = m == n
equals_nat (bool b) n = if b then n == 1 else n == 0
equals_nat (float (finite (pos m) k)) n = m == n * 2 ^ k
equals_nat _ n = false
