-- ===== src/Gateway/Prepare.antt =====
-- src/agent_lab/gateway/translate.py: `Prepared` and `prepare`.
pub mod Parts
pub mod Defaults
pub mod Forwarded
pub mod Accepted
mod Tests
use agent_lab.Common.{
  ◌≡◌, Bool, true, false, not, ◌&&◌, ◌||◌, List, [], ◌∷◌, String, str_eq, if◌then◌else◌, Option,
  none, some, ◌^◌,
}
use agent_lab.Common.Int.{ℤ, pos, negsuc, ltb_ℤ, eq_ℤ}
use agent_lab.Json.{
  Value, Items, Fields, null, bool, int, float, str, arr, obj, nil, cons, end, field, get,
  get_value, put, set_default, finite,
}
use agent_lab.Gateway.Library.{Library}
use agent_lab.Gateway.Number.{is_int}
use agent_lab.Gateway.Messages.{messages, equals}
use agent_lab.Gateway.Tools.{tools}
use agent_lab.Gateway.Options.{forward_options}
use agent_lab.Gateway.Effort.{Rules, Sampling, Effort, effort, applied_args}
use agent_lab.Gateway.Result.{
  Result, ok, raised, Raised, api, named, bad_field, bad_request, reject_if, ◌>>=◌, ◌>>◌,
}

pub record Prepared : Type 0 where
  pub body : Fields
  pub messages : List Fields
  pub tools : Option Items
  pub template_args : Fields
  pub requested_max_tokens : Option ℤ
  pub stream : Bool
  pub include_usage : Bool
  pub thinking : Bool
  pub effort : String

abbrev pub model_not_found : Raised
model_not_found = api (record {
  status = 404;
  code = some "model_not_found";
  param = some (named "model");
  kind = "invalid_request_error";
})

-- model is not None and model != rules.model_name
unfoldable pub other_model : Value → Rules → Bool
other_model null rules = false
other_model model rules = not (equals model rules.model_name)

-- body.get("stream", False), with None for False
unfoldable pub stream_flag : Value → Result Bool
stream_flag null = ok false
stream_flag (bool b) = ok b
stream_flag _ = raised (bad_field (named "stream"))

is_true : Value → Bool
is_true (bool true) = true
is_true _ = false

unfoldable pub usage_flag : Value → Result Bool
unfolding is_true
usage_flag null = ok false
usage_flag (obj options) = ok (is_true (get_value "include_usage" options))
usage_flag _ = raised (bad_field (named "stream_options"))

-- n != 1, which True and 1.0 are not either
unfoldable pub is_one : Value → Bool
is_one (int n) = eq_ℤ n (pos 1)
is_one (bool b) = b
is_one (float (finite m k)) = eq_ℤ m (pos (2 ^ k))
is_one _ = false

unfoldable pub check_n : Value → Result (Unit {0})
unfolding is_one
check_n null = ok tt
check_n n = reject_if (not (is_one n)) (bad_field (named "n"))

-- One of the two fields for the number of tokens: none where it is not set.
unfoldable pub token_limit : String → Value → Result (Option ℤ)
token_limit name null = ok none
token_limit name (int n) = do reject_if (ltb_ℤ n (pos 1)) (bad_field (named name)); ok (some n)
token_limit name _ = raised (bad_field (named name))

-- `max_completion_tokens` wins when both are set.
unfoldable pub requested_tokens : Fields → Result (Option ℤ)
unfolding token_limit
requested_tokens body = do
  completion ← token_limit "max_completion_tokens" (get_value "max_completion_tokens" body)
  elim completion [
    | none ↦ token_limit "max_tokens" (get_value "max_tokens" body)
    | some n ↦ ok (some n)
  ]

unfoldable pub to_items : List Fields → Items
to_items [] = nil
to_items (m ∷ ms) = cons (obj m) (to_items ms)

-- {"model": BACKEND_MODEL, "messages": messages}, and the tools
unfoldable pub forward_base : List Fields → Option Items → Fields
unfolding to_items
forward_base ms ts =
    let base = field "model" (str "default_model") (field "messages" (arr (to_items ms)) end) in
    elim ts [ none ↦ base | some offered ↦ put "tools" (arr offered) base ]

-- if template_args: forward["chat_template_kwargs"] = template_args
unfoldable pub forward_args : Fields → Fields → Fields
forward_args end forward = forward
forward_args (field k v args) forward = put "chat_template_kwargs" (obj (field k v args)) forward

-- The recommended values where the client set none.
unfoldable pub forward_defaults : Sampling → Fields → Fields
forward_defaults s forward =
    set_default "top_k" (int s.top_k) (
      set_default "top_p" (float s.top_p) (set_default "temperature" (float s.temperature) forward))

-- The backend always streams to the gateway and always reports usage.
unfoldable pub forward_last : Rules → Effort → Fields → Fields
unfolding forward_args forward_defaults
forward_last rules e forward = put "stream_options" (obj (field "include_usage" (bool true) end)) (
    put "stream" (bool true) (
      forward_defaults (if e.thinking then rules.thinking_sampling else rules.sampling)
        (forward_args e.args forward)))

module _ (lib : Library) (rules : Rules) where
  prepare_dict : Fields → Result Prepared
  prepare_dict body = do
    reject_if (other_model (get_value "model" body) rules) model_not_found
    ms ← messages lib (get_value "messages" body)
    ts ← tools (get_value "tools" body) (get_value "tool_choice" body)
    stream ← stream_flag (get_value "stream" body)
    include_usage ← usage_flag (get_value "stream_options" body)
    check_n (get_value "n" body)
    options ← forward_options lib body (forward_base ms ts)
    requested ← requested_tokens body
    e ← effort (get_value "reasoning_effort" body) rules
    ok (record {
      body = forward_last rules e options;
      messages = ms;
      tools = ts;
      template_args = applied_args rules e;
      requested_max_tokens = requested;
      stream = stream;
      include_usage = include_usage;
      thinking = e.thinking;
      effort = e.name;
    })

  -- `prepare(body, rules)`
  unfoldable pub prepare : Value → Result Prepared
  unfolding prepare_dict
  prepare (obj body) = prepare_dict body
  prepare _ = raised bad_request
