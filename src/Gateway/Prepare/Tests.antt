-- ===== src/Gateway/Prepare/Tests.antt =====
-- One request through `prepare`, and the theorems about it.
use agent_lab.Common.{◌≡◌, ◌≢◌, refl, ◌⊎◌, true, false, [], ◌∷◌, none, some, arith, eq_iff, All}
use agent_lab.Common.Int.{ℤ, pos, ◌≤ℤ◌, ◌-ℤ◌}
use agent_lab.Json.{
  Items, Fields, null, bool, int, float, str, arr, obj, nil, cons, end, field, finite, get, put,
  set_default,
}
use agent_lab.Gateway.Library.{Library, loaded}
use agent_lab.Gateway.Number.{is_number, is_int, between, fits_double}
use agent_lab.Gateway.Result.{ok, raised}
use agent_lab.Gateway.Effort.{Rules, effort, applied_args, thinking_switch}
use agent_lab.Gateway.Limit.{IsSound, Honours, limit, limit_cases, context_length_exceeded}
use agent_lab.Gateway.Messages.{messages, message, check_content, check_tool_calls}
use agent_lab.Gateway.Messages.Roles.{messages_lem, Renamed, HasTemplateRole}
use agent_lab.Gateway.Tools.{tools, check_tools}
use agent_lab.Gateway.Options.{
  forward_options, forward_numbers, forward_number, forward_top_k, forward_seed, forward_stop,
  forward_bias,
}
use agent_lab.Gateway.Options.Ranges.{InBounds}
use agent_lab.Gateway.Prepare.{
  Prepared, prepare, forward_base, forward_last, to_items, requested_tokens, stream_flag,
  usage_flag, check_n, other_model,
}
use agent_lab.Gateway.Prepare.Forwarded.{get-prepare_unknown, get-prepare_fixed}
use agent_lab.Gateway.Prepare.Accepted.{prepare-InBounds, prepare-switch}

abbrev hello : Fields
hello = field "role" (str "user") (field "content" (str "hi") end)

abbrev lib : Library
lib = record { loads = λ s. loaded null; isdigit = λ s. true }

abbrev rules : Rules
rules = record {
  model_name = "qwen";
  limits = record {
    max_context = pos 32768;
    max_output_tokens = pos 8192;
    min_output_tokens = pos 512;
  };
  default_thinking = true;
  sampling = record { temperature = finite (pos 7) 3; top_p = finite (pos 1) 1; top_k = pos 20 };
  thinking_sampling = record {
    temperature = finite (pos 1) 0;
    top_p = finite (pos 1) 0;
    top_k = pos 20;
  };
  effort_variable = some "reasoning_effort";
}

abbrev tool_list : Items
tool_list =
    cons
      (obj
        (field "type" (str "function") (field "function" (obj (field "name" (str "ls") end)) end)))
      nil

abbrev developer : Fields
developer = field "role" (str "developer") (field "content" (str "Be brief.") end)

abbrev system : Fields
system = field "role" (str "system") (field "content" (str "Be brief.") end)

abbrev request : Fields
request = field "messages" (arr (cons (obj developer) (cons (obj hello) nil))) (
    field "tools" (arr tool_list) (
      field "adapters" (str "/tmp/evil") (
        field "temperature" (int (pos 1))
          (field "max_tokens" (int (pos 100)) (field "reasoning_effort" (str "high") end)))))

abbrev args : Fields
args = field "enable_thinking" (bool true) (field "reasoning_effort" (str "xhigh") end)

abbrev prepared : Prepared
prepared = record {
  body = field "model" (str "default_model") (
      field "messages" (arr (cons (obj system) (cons (obj hello) nil))) (
        field "tools" (arr tool_list) (
          field "temperature" (int (pos 1)) (
            field "chat_template_kwargs" (obj args) (
              field "top_p" (float (finite (pos 1) 0)) (
                field "top_k" (int (pos 20)) (
                  field "stream" (bool true) (
                    field "stream_options" (obj (field "include_usage" (bool true) end))
                      end))))))));
  messages = system ∷ hello ∷ [];
  tools = some tool_list;
  template_args = args;
  requested_max_tokens = some (pos 100);
  stream = false;
  include_usage = false;
  thinking = true;
  effort = "high";
}

accepted : prepare lib rules (obj request) ≡ ok prepared
unfolding prepare other_model messages tools check_tools stream_flag usage_flag check_n forward_base
    to_items forward_options forward_numbers forward_number forward_top_k forward_seed forward_stop
    forward_bias is_number is_int between fits_double requested_tokens effort forward_last
    applied_args get put set_default message check_content check_tool_calls
accepted = refl

parsed_messages :
    messages lib (arr (cons (obj developer) (cons (obj hello) nil))) ≡ ok (system ∷ hello ∷ [])
unfolding messages message check_content check_tool_calls get put
parsed_messages = refl

messages_lem_example :
    (vs : Items) × (arr (cons (obj developer) (cons (obj hello) nil)) ≡ arr vs)
    × (vs ≢ nil)
    × Renamed vs (system ∷ hello ∷ [])
    × All HasTemplateRole (system ∷ hello ∷ [])
messages_lem_example =
    messages_lem lib (arr (cons (obj developer) (cons (obj hello) nil))) (system ∷ hello ∷ [])
      parsed_messages

parsed_tools : tools (arr tool_list) null ≡ ok (some tool_list)
unfolding tools get
parsed_tools = refl

rules-IsSound : IsSound rules.limits
rules-IsSound = omega arith

limit_cases_example :
    ((limit 32000 (some (pos 100)) rules.limits ≡ raised context_length_exceeded)
      × (pos 32768 -ℤ pos 32000 ≤ℤ pos 512 -ℤ pos 1))
    ⊎ ((n : ℤ) × (limit 32000 (some (pos 100)) rules.limits ≡ ok n)
        × (pos 1 ≤ℤ n)
        × (n ≤ℤ pos 32768 -ℤ pos 32000)
        × (n ≤ℤ pos 8192)
        × Honours (some (pos 100)) rules.limits n)
limit_cases_example = limit_cases 32000 (some (pos 100)) rules.limits rules-IsSound (omega arith)

get-prepare_unknown_example : get "adapters" prepared.body ≡ none
get-prepare_unknown_example =
    get-prepare_unknown lib rules (obj request) prepared accepted "adapters" refl

get-prepare_fixed_example :
    (get "model" prepared.body ≡ some (str "default_model"))
    × (get "messages" prepared.body ≡ some (arr (to_items (system ∷ hello ∷ []))))
    × (get "tools" prepared.body ≡ some (arr tool_list))
    × (get "stream" prepared.body ≡ some (bool true))
    × (get "stream_options" prepared.body ≡ some (obj (field "include_usage" (bool true) end)))
get-prepare_fixed_example = get-prepare_fixed lib rules (obj request) prepared accepted

requested_tokens_example : requested_tokens request ≡ ok (some (pos 100))
unfolding requested_tokens get
requested_tokens_example = refl

prepare-InBounds_example : InBounds prepared.body
unfolding is_number between
prepare-InBounds_example =
    prepare-InBounds lib rules (obj request) prepared accepted ((refl, refl), (refl, refl))
      ((refl, refl), (refl, refl))

other_variable : rules.effort_variable ≢ some thinking_switch
other_variable = ground (arith, eq_iff "reasoning_effort" "enable_thinking")

prepare-switch_example : get thinking_switch args ≡ some (bool true)
prepare-switch_example = prepare-switch lib rules (obj request) prepared accepted other_variable
