-- ===== src/Gateway/Options.antt =====
-- src/agent_lab/gateway/translate.py: the sampling and stopping fields of `prepare`, each checked and
-- then passed on.
pub mod Numbers
pub mod Ranges
use agent_lab.Common.{
  ◌≡◌, Bool, true, false, not, ◌&&◌, ◌||◌, List, [], ◌∷◌, String, str_eq, if◌then◌else◌, Option,
  none, some,
}
use agent_lab.Common.Int.{ℤ, pos, negsuc, ltb_ℤ}
use agent_lab.Json.{
  Value, Items, Fields, null, bool, int, float, str, arr, obj, nil, cons, end, field, get_value,
  put,
}
use agent_lab.Gateway.Library.{Library}
use agent_lab.Gateway.Number.{is_int, is_number, between}
use agent_lab.Gateway.Result.{Result, ok, raised, Raised, named, bad_field, reject_if, ◌>>=◌, ◌>>◌}

pub record NumberField : Type 0 where
  pub name : String
  pub low : ℤ
  pub high : ℤ

abbrev number : String → ℤ → ℤ → NumberField
number name low high = record { name = name; low = low; high = high }

-- `_NUMBER_FIELDS`
abbrev pub number_fields : List NumberField
number_fields =
    number "temperature" (pos 0) (pos 2)
    ∷ number "top_p" (pos 0) (pos 1)
    ∷ number "min_p" (pos 0) (pos 1)
    ∷ number "presence_penalty" (negsuc 1) (pos 2)
    ∷ number "frequency_penalty" (negsuc 1) (pos 2)
    ∷ number "repetition_penalty" (pos 0) (pos 10)
    ∷ []

unfoldable pub forward_number : NumberField → Value → Fields → Result Fields
forward_number f null forward = ok forward
forward_number f value forward = do
  finite ← is_number value
  reject_if (not finite || not (between f.low f.high value)) (bad_field (named f.name))
  ok (put f.name value forward)

unfoldable pub forward_numbers : List NumberField → Fields → Fields → Result Fields
forward_numbers [] body forward = ok forward
forward_numbers (f ∷ fs) body forward = do
  next ← forward_number f (get_value f.name body) forward
  forward_numbers fs body next

-- top_k < 0, of a whole number
is_negative : Value → Bool
is_negative (int n) = ltb_ℤ n (pos 0)
is_negative _ = false

unfoldable pub forward_top_k : Value → Fields → Result Fields
unfolding is_negative
forward_top_k null forward = ok forward
forward_top_k top_k forward = do
  reject_if (not (is_int top_k) || is_negative top_k) (bad_field (named "top_k"))
  ok (put "top_k" top_k forward)

unfoldable pub forward_seed : Value → Fields → Result Fields
forward_seed null forward = ok forward
forward_seed seed forward = do
  reject_if (not (is_int seed)) (bad_field (named "seed"))
  ok (put "seed" seed forward)

-- all(isinstance(s, str) and s for s in stop)
unfoldable pub all_texts : Items → Bool
all_texts nil = true
all_texts (cons (str s) rest) = not (str_eq s "") && all_texts rest
all_texts (cons _ rest) = false

-- The stop texts as a list.
unfoldable pub forward_stops : Items → Fields → Result Fields
unfolding all_texts
forward_stops nil forward = ok forward
forward_stops (cons s rest) forward = do
  reject_if (not (all_texts (cons s rest))) (bad_field (named "stop"))
  ok (put "stop" (arr (cons s rest)) forward)

unfoldable pub forward_stop : Value → Fields → Result Fields
unfolding forward_stops
forward_stop null forward = ok forward
forward_stop (str s) forward = forward_stops (cons (str s) nil) forward
forward_stop (arr stops) forward = forward_stops stops forward
forward_stop _ forward = raised (bad_field (named "stop"))

module _ (lib : Library) where
  -- all(isinstance(k, str) and k.isdigit() and _is_number(v) for k, v in bias.items())
  unfoldable pub all_biases : Fields → Result Bool
  all_biases end = ok true
  all_biases (field k v rest) =
      let others = all_biases rest in
      if lib.isdigit k
      then (do finite ← is_number v; if finite then others else ok false)
      else ok false

  unfoldable pub forward_biases : Fields → Fields → Result Fields
  unfolding all_biases
  forward_biases end forward = ok forward
  forward_biases (field k v rest) forward = do
    fine ← all_biases (field k v rest)
    reject_if (not fine) (bad_field (named "logit_bias"))
    ok (put "logit_bias" (obj (field k v rest)) forward)

  unfoldable pub forward_bias : Value → Fields → Result Fields
  unfolding forward_biases
  forward_bias null forward = ok forward
  forward_bias (obj bias) forward = forward_biases bias forward
  forward_bias _ forward = raised (bad_field (named "logit_bias"))

  -- All of them, in the order of the source.
  unfoldable pub forward_options : Fields → Fields → Result Fields
  forward_options body forward = do
    numbers ← forward_numbers number_fields body forward
    top_k ← forward_top_k (get_value "top_k" body) numbers
    seed ← forward_seed (get_value "seed" body) top_k
    stop ← forward_stop (get_value "stop" body) seed
    forward_bias (get_value "logit_bias" body) stop
