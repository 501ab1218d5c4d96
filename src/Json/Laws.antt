-- ===== src/Json/Laws.antt =====
-- The laws of dicts: a lookup after a write, a default or a removal.
use agent_lab.Common.{◌≡◌, refl, none, some, String, str_eq, eq_iff, arith, if◌then◌else◌}
use agent_lab.Json.{Value, Fields, end, field, get, put, set_default, remove}

-- A lookup after a write finds the new value at its key, and elsewhere what was there.
pub get-put :
    (j k : String) (v : Value) (m : Fields)
    → get j (put k v m) ≡ (if str_eq k j then some v else get j m)
unfolding get put
get-put j k v end = refl
get-put j k v (field i w m) = ground (arith, eq_iff k j, eq_iff i k, eq_iff i j, get-put j k v m)

-- A default is taken only where the key is missing.
pub get-set_default :
    (j k : String) (v : Value) (m : Fields)
    → get j (set_default k v m)
      ≡ (if str_eq k j then elim (get j m) [ none ↦ some v | some w ↦ some w ] else get j m)
unfolding set_default
get-set_default j k v m = ground (arith, eq_iff k j, get-put j k v m)

pub get-remove :
    (j k : String) (m : Fields) → get j (remove k m) ≡ (if str_eq k j then none else get j m)
unfolding get remove
get-remove j k end = ground arith
get-remove j k (field i w m) = ground (arith, eq_iff k j, eq_iff i k, eq_iff i j, get-remove j k m)
