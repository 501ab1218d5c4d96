-- ===== src/Config/Text.antt =====
-- src/agent_lab/config.py: the regular expressions `_HOSTNAME_RE`, `_TOOL_PARSER_RE` and
-- `_MODEL_NAME_RE`, over the code points of a text. All their classes are of ASCII letters.
use Prim.Native.Char.{code}
use agent_lab.Common.{
  ℕ, Bool, true, false, ◌&&◌, ◌||◌, List, [], ◌∷◌, String, leb, ◌==◌, if◌then◌else◌, length,
}

-- The code points of a text.
abbrev pub codes : String → List ℕ
codes String.[] = []
codes (String.◌∷◌ c s) = code c ∷ codes s

-- Whether every code point passes.
unfoldable pub all_in : (ℕ → Bool) → List ℕ → Bool
all_in p [] = true
all_in p (c ∷ cs) = p c && all_in p cs

unfoldable pub is_lower : ℕ → Bool
is_lower c = leb b'a' c && leb c b'z'

unfoldable pub is_upper : ℕ → Bool
is_upper c = leb b'A' c && leb c b'Z'

unfoldable pub is_digit : ℕ → Bool
is_digit c = leb b'0' c && leb c b'9'

-- [a-z][a-z0-9_]*
unfoldable pub is_tool_parser : List ℕ → Bool
unfolding all_in is_lower is_digit
is_tool_parser [] = false
is_tool_parser (c ∷ cs) = is_lower c && all_in (λ d. is_lower d || (is_digit d || d == b'_')) cs

abbrev alphanumeric : ℕ → Bool
alphanumeric c = is_upper c || (is_lower c || is_digit c)

-- [A-Za-z0-9][A-Za-z0-9._-]{0,63}
unfoldable pub is_model_name : List ℕ → Bool
unfolding all_in is_lower is_upper is_digit
is_model_name [] = false
is_model_name (c ∷ cs) =
    alphanumeric c
    && (leb (length cs) 63
        && all_in (λ d. alphanumeric d || (d == b'.' || (d == b'_' || d == b'-'))) cs)

-- The parts of a text between its dots: the first, and the others.
unfoldable pub split_dots : List ℕ → List ℕ × List (List ℕ)
split_dots [] = ([], [])
split_dots (c ∷ cs) =
    let (first, rest) = split_dots cs in if c == b'.' then ([], first ∷ rest) else (c ∷ first, rest)

abbrev label_char : ℕ → Bool
label_char c = is_lower c || is_digit c

last_code : ℕ → List ℕ → ℕ
last_code c [] = c
last_code c (d ∷ ds) = last_code d ds

-- [a-z0-9]([a-z0-9-]{0,61}[a-z0-9])?
unfoldable pub is_label : List ℕ → Bool
unfolding all_in is_lower is_digit last_code
is_label [] = false
is_label (c ∷ cs) =
    label_char c
    && (leb (length cs) 62
        && (label_char (last_code c cs) && all_in (λ d. label_char d || d == b'-') cs))

-- [a-z]{2,63}
unfoldable pub is_top_label : List ℕ → Bool
unfolding all_in is_lower
is_top_label cs = leb 2 (length cs) && (leb (length cs) 63 && all_in is_lower cs)

-- Labels, and a top label at the end.
labels : List ℕ → List (List ℕ) → Bool
unfolding is_label is_top_label
labels cs [] = is_top_label cs
labels cs (next ∷ rest) = is_label cs && labels next rest

-- `_HOSTNAME_RE`: at most 253 letters, and one label at least before the top label.
unfoldable pub is_hostname : List ℕ → Bool
unfolding split_dots labels is_label
is_hostname cs =
    let (first, rest) = split_dots cs in
    leb (length cs) 253
    && (elim rest [ [] ↦ false | next ∷ others ↦ is_label first && labels next others ])
