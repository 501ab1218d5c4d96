-- ===== src/Gateway/Number.antt =====
-- src/agent_lab/gateway/translate.py: `_is_int`, `_is_number` and the range test. All the bounds of
-- the source are whole numbers.
use agent_lab.Common.{ℕ, ◌*◌, ◌-◌, ◌^◌, ◌+◌, Bool, true, false, ◌&&◌, ltb, if◌then◌else◌}
use agent_lab.Common.Int.{ℤ, pos_part, neg_part, sub_ℕ, leb_ℤ}
use agent_lab.Json.{Value, int, float, nan, inf, finite}
use agent_lab.Gateway.Result.{Result, ok, raised, overflow_error}

unfoldable pub is_int : Value → Bool
is_int (int n) = true
is_int _ = false

-- The whole numbers that a double can still hold: the next ones round to 2 ^ 1024.
unfoldable pub fits_double : ℤ → Bool
fits_double n = ltb (pos_part n + neg_part n) (2 ^ 1024 - 2 ^ 970)

-- `math.isfinite` turns a whole number into a double first: OverflowError where it does not fit.
unfoldable pub is_number : Value → Result Bool
is_number (int n) = if fits_double n then ok true else raised overflow_error
is_number (float nan) = ok false
is_number (float (inf s)) = ok false
is_number (float (finite m k)) = ok true
is_number _ = ok false

-- n * c
scale : ℤ → ℕ → ℤ
scale n c = sub_ℕ (pos_part n * c) (neg_part n * c)

-- low <= value <= high
unfoldable pub between : ℤ → ℤ → Value → Bool
unfolding scale
between low high (int n) = leb_ℤ low n && leb_ℤ n high
between low high (float (finite m k)) = leb_ℤ (scale low (2 ^ k)) m && leb_ℤ m (scale high (2 ^ k))
between low high _ = false
