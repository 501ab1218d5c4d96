-- ===== src/Config/Size.antt =====
-- src/agent_lab/config.py: `parse_size`. `\s`, `\d` and `float` are Python's: the classes of all of
-- Unicode and the nearest double of a decimal text.
use agent_lab.Common.{
  ℕ, ◌-◌, ◌*◌, ◌/◌, ◌^◌, Bool, true, false, ◌&&◌, ◌||◌, not, List, [], ◌∷◌, ◌++◌, map, Option, none,
  some, String, ltb, ◌==◌, if◌then◌else◌,
}
use agent_lab.Common.Int.{ℤ, pos_part}
use agent_lab.Json.{Float, nan, inf, finite}
use agent_lab.Config.Text.{codes, is_lower, is_upper}

pub record Python : Type 0 where
  pub is_space : ℕ → Bool
  pub is_decimal : ℕ → Bool
  -- float(text)
  pub text_to_float : List ℕ → Float
  -- float(n), for a whole number that fits
  pub int_to_float : ℤ → Float

-- A size, a ValueError, or an OverflowError of `int` at an infinity.
pub data Parsed : Type 0 where
  bytes : ℕ → Parsed
  invalid : Parsed
  too_large : Parsed

-- The longest run that passes, and what follows.
unfoldable pub span : (ℕ → Bool) → List ℕ → List ℕ × List ℕ
span p [] = ([], [])
span p (c ∷ cs) = let (run, rest) = span p cs in if p c then (c ∷ run, rest) else ([], c ∷ cs)

upper : ℕ → ℕ
upper c = if is_lower c then c - 32 else c

abbrev pub same_text : List ℕ → List ℕ → Bool
same_text [] [] = true
same_text (c ∷ cs) (d ∷ ds) = (c == d) && same_text cs ds
same_text _ _ = false

-- `_SIZE_UNITS`, of the unit in capitals.
unfoldable pub size_unit : List ℕ → Option ℕ
size_unit u =
    if same_text u (codes "B")
    then some 1
    else if same_text u (codes "KB") || same_text u (codes "KIB")
    then some 1024
    else if same_text u (codes "MB") || same_text u (codes "MIB")
    then some (1024 ^ 2)
    else if same_text u (codes "GB") || same_text u (codes "GIB")
    then some (1024 ^ 3)
    else if same_text u (codes "TB") || same_text u (codes "TIB")
    then some (1024 ^ 4)
    else none

-- int(f * unit): the product by a power of two is exact where it does not overflow.
unfoldable pub times_unit : Float → ℕ → Parsed
times_unit nan unit = invalid
times_unit (inf s) unit = too_large
times_unit (finite m k) unit =
    if ltb (pos_part m * unit) ((2 ^ 1024 - 2 ^ 970) * 2 ^ k)
    then bytes (pos_part m * unit / 2 ^ k)
    else too_large

is_nil : List ℕ → Bool
is_nil [] = true
is_nil (c ∷ cs) = false

module _ (py : Python) where
  -- \s*([A-Za-z]+)\s* to the end, after the number.
  unfoldable pub parse_unit : List ℕ → List ℕ → Parsed
  unfolding span upper size_unit times_unit is_nil is_lower is_upper
  parse_unit number text =
      let (_, s) = span py.is_space text in
      let (unit, rest) = span (λ c. is_lower c || is_upper c) s in
      let (_, left) = span py.is_space rest in
      if is_nil unit || not (is_nil left) then invalid else elim (size_unit (map upper unit)) [
        | none ↦ invalid
        | some u ↦ times_unit (py.text_to_float number) u
      ]

  -- (?:\.\d+)? and the unit, after the first digits.
  unfoldable pub parse_fraction : List ℕ → List ℕ → Parsed
  unfolding parse_unit span is_nil
  parse_fraction digits [] = parse_unit digits []
  parse_fraction digits (c ∷ cs) =
      let (fraction, rest) = span py.is_decimal cs in
      if (c == b'.') && not (is_nil fraction)
      then parse_unit (digits ++ c ∷ fraction) rest
      else parse_unit digits (c ∷ cs)

  unfoldable pub parse_size : String → Parsed
  unfolding parse_fraction span is_nil
  parse_size text =
      let (_, s) = span py.is_space (codes text) in
      let (digits, rest) = span py.is_decimal s in
      if is_nil digits then invalid else parse_fraction digits rest
