-- ===== src/Gateway/Effort.antt =====
-- src/agent_lab/gateway/translate.py: `Sampling`, `Limits`, `Rules` and `_effort`.
pub mod Switch
use agent_lab.Common.{
  ◌≡◌, ◌≢◌, refl, Bool, true, false, not, ◌||◌, Option, none, some, String, str_eq, if◌then◌else◌,
  arith, eq_iff,
}
use agent_lab.Common.Int.{ℤ}
use agent_lab.Json.{
  Value, Fields, Float, null, bool, int, float, str, arr, obj, end, field, get, get_value, put,
}
use agent_lab.Gateway.Result.{Result, ok, raised, Raised, named, bad_field}

pub record Sampling : Type 0 where
  pub temperature : Float
  pub top_p : Float
  pub top_k : ℤ

pub record Limits : Type 0 where
  pub max_context : ℤ
  pub max_output_tokens : ℤ
  pub min_output_tokens : ℤ

pub record Rules : Type 0 where
  pub model_name : String
  pub limits : Limits
  pub default_thinking : Bool
  pub sampling : Sampling
  pub thinking_sampling : Sampling
  pub effort_variable : Option String

abbrev pub thinking_switch : String
thinking_switch = "enable_thinking"

-- EFFORT_LEVELS.get(value)
unfoldable pub effort_level : String → Option String
effort_level s =
    if str_eq s "low"
    then some "low"
    else if str_eq s "medium"
    then some "medium"
    else if str_eq s "high"
    then some "xhigh"
    else if str_eq s "xhigh"
    then some "xhigh"
    else none

-- value in NO_THINKING
abbrev pub is_no_thinking : String → Bool
is_no_thinking s = str_eq s "none" || str_eq s "minimal"

pub record Effort : Type 0 where
  pub name : String
  pub thinking : Bool
  pub args : Fields

-- `if rules.effort_variable: on[rules.effort_variable] = level`
unfoldable pub add_level : Option String → String → Fields → Fields
add_level none level on = on
add_level (some k) level on = if str_eq k "" then on else put k (str level) on

-- `_effort(value, rules)`
unfoldable pub effort : Value → Rules → Result Effort
unfolding effort_level add_level
effort null rules = ok (record { name = "default"; thinking = rules.default_thinking; args = end })
effort (str s) rules =
    if is_no_thinking s
    then ok (record {
      name = "none";
      thinking = false;
      args = if rules.default_thinking then field thinking_switch (bool false) end else end;
    })
    else elim (effort_level s) [
      | none ↦ raised (bad_field (named "reasoning_effort"))
      | some level ↦ ok (record {
        name = s;
        thinking = true;
        args = add_level rules.effort_variable level (field thinking_switch (bool true) end);
      })
    ]
effort _ rules = raised (bad_field (named "reasoning_effort"))

-- {**base, **more}
unfoldable pub update : Fields → Fields → Fields
update base end = base
update base (field k v more) = update (put k v base) more

-- All arguments of the chat template, as the backend applies them.
unfoldable pub applied_args : Rules → Effort → Fields
unfolding update
applied_args rules e = update (field thinking_switch (bool rules.default_thinking) end) e.args
