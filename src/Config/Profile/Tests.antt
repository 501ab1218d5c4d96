-- ===== src/Config/Profile/Tests.antt =====
-- One profile through `parse_profile`, and the theorems about it.
use agent_lab.Common.{ℕ, ◌+◌, ◌-◌, ◌*◌, ◌≡◌, refl, true, false, List, [], ◌∷◌, none, some, ◌==◌}
use agent_lab.Common.Int.{pos}
use agent_lab.Json.{
  Fields, null, bool, int, float, str, arr, obj, nil, cons, end, field, finite, get, put,
  set_default,
}
use agent_lab.Gateway.Library.{Library, loaded}
use agent_lab.Gateway.Result.{ok}
use agent_lab.Gateway.Effort.{effort, applied_args}
use agent_lab.Gateway.Messages.{messages, message, check_content, check_tool_calls}
use agent_lab.Gateway.Tools.{tools, check_tools}
use agent_lab.Gateway.Options.{
  forward_options, forward_numbers, forward_number, forward_top_k, forward_seed, forward_stop,
  forward_bias,
}
use agent_lab.Gateway.Prepare.{
  Prepared, prepare, forward_base, forward_last, to_items, requested_tokens, stream_flag,
  usage_flag, check_n, other_model,
}
use agent_lab.Gateway.Number.{between, fits_double}
use agent_lab.Config.Text.{
  is_digit, is_lower, is_upper, is_tool_parser, is_model_name, is_hostname, is_label, is_top_label,
  split_dots, all_in,
}
use agent_lab.Config.Size.{
  Python, bytes, parse_size, parse_fraction, parse_unit, span, size_unit, times_unit,
}
use agent_lab.Config.Section.{
  open_section, finish, integer, number, size, string, boolean, fail, get_field,
}
use agent_lab.Config.Profile.{
  Profile, profile, parse_profile, read_section, model_section, backend_section, gateway_section,
  tunnel_section, system_section, cross_rules, conclude, rules_for,
}
use agent_lab.Config.Profile.Checked.{IsChecked, parse_profile-IsChecked}
use agent_lab.Config.Profile.Applied.{IsGoverned, prepare-rules_for}

-- A Python of small ASCII texts.
digits_value : ℕ → List ℕ → ℕ
digits_value acc [] = acc
digits_value acc (c ∷ cs) = digits_value (acc * 10 + (c - 48)) cs

abbrev py : Python
py = record {
  is_space = λ c. c == b' ';
  is_decimal = is_digit;
  text_to_float = λ text. finite (pos (digits_value 0 text)) 0;
  int_to_float = λ n. finite n 0;
}

abbrev backend_table : Fields
backend_table = field "port" (int (pos 8971)) (
    field "prefill_step_size" (int (pos 512)) (
      field "prompt_cache_size" (int (pos 4)) (
        field "prompt_cache_bytes" (str "2 GiB") (
          field "metal_memory_limit" (str "20GB") (
            field "tool_parser" (str "qwen3_coder") (
              field "enable_thinking" (bool true) (
                field "temperature" (float (finite (pos 7) 3)) (
                  field "top_p" (int (pos 1)) (
                    field "top_k" (int (pos 20)) (
                      field "thinking_temperature" (float (finite (pos 3) 2)) (
                        field "thinking_top_p" (float (finite (pos 7) 3)) (
                          field "thinking_top_k" (int (pos 20))
                            (field "start_timeout_seconds" (int (pos 300)) end)))))))))))))

abbrev gateway_table : Fields
gateway_table = field "port" (int (pos 8970)) (
    field "model_name" (str "qwen3-coder") (
      field "max_context" (int (pos 4096)) (
        field "max_output_tokens" (int (pos 1024)) (
          field "min_output_tokens" (int (pos 256))
            (field "queue_size" (int (pos 3)) (field "heartbeat_seconds" (int (pos 10)) end))))))

abbrev table : Fields
table = field "model" (obj (field "id" (str "org/model") end)) (
    field "backend" (obj backend_table) (
      field "gateway" (obj gateway_table) (
        field "tunnel"
          (obj (field "enabled" (bool true) (field "hostname" (str "alab.example.org") end)))
          (field "system" (obj (field "gpu_wired_limit_mb" (int (pos 26000)) end)) end))))

abbrev parsed : Profile
parsed = record {
  name = "default";
  model_id = "org/model";
  backend = record {
    port = pos 8971;
    prefill_step_size = pos 512;
    prompt_cache_size = pos 4;
    prompt_cache_bytes = 2147483648;
    metal_memory_limit = 21474836480;
    tool_parser = "qwen3_coder";
    enable_thinking = true;
    temperature = finite (pos 7) 3;
    top_p = finite (pos 1) 0;
    top_k = pos 20;
    thinking_temperature = finite (pos 3) 2;
    thinking_top_p = finite (pos 7) 3;
    thinking_top_k = pos 20;
    start_timeout_seconds = pos 300;
  };
  gateway = record {
    port = pos 8970;
    model_name = "qwen3-coder";
    max_context = pos 4096;
    max_output_tokens = pos 1024;
    min_output_tokens = pos 256;
    queue_size = pos 3;
    heartbeat_seconds = pos 10;
  };
  tunnel = record { enabled = true; hostname = "alab.example.org" };
  gpu_wired_limit_mb = pos 26000;
}

size_of_text : parse_size py " 20 GiB " ≡ bytes 21474836480
unfolding parse_size parse_fraction parse_unit span size_unit times_unit digits_value is_digit
    is_lower is_upper
size_of_text = refl

parsed-table : parse_profile py "default" table ≡ profile parsed
unfolding parse_profile read_section model_section backend_section gateway_section tunnel_section
    system_section cross_rules conclude open_section finish integer number size string boolean fail
    get_field parse_size parse_fraction parse_unit span size_unit times_unit digits_value get
    between fits_double is_digit is_lower is_upper is_tool_parser is_model_name is_hostname is_label
    is_top_label split_dots all_in
parsed-table = refl

parse_profile-IsChecked_example : IsChecked parsed
parse_profile-IsChecked_example =
    parse_profile-IsChecked py (λ n small. refl) "default" table parsed parsed-table

-- A request without thinking, under the rules of that profile.
abbrev lib : Library
lib = record { loads = λ s. loaded null; isdigit = λ s. true }

abbrev hello : Fields
hello = field "role" (str "user") (field "content" (str "hi") end)

abbrev request : Fields
request =
    field "messages" (arr (cons (obj hello) nil))
      (field "max_tokens" (int (pos 100)) (field "reasoning_effort" (str "none") end))

abbrev args : Fields
args = field "enable_thinking" (bool false) end

abbrev prepared : Prepared
prepared = record {
  body = field "model" (str "default_model") (
      field "messages" (arr (cons (obj hello) nil)) (
        field "chat_template_kwargs" (obj args) (
          field "temperature" (float (finite (pos 7) 3)) (
            field "top_p" (float (finite (pos 1) 0)) (
              field "top_k" (int (pos 20)) (
                field "stream" (bool true)
                  (field "stream_options" (obj (field "include_usage" (bool true) end)) end)))))));
  messages = hello ∷ [];
  tools = none;
  template_args = args;
  requested_max_tokens = some (pos 100);
  stream = false;
  include_usage = false;
  thinking = false;
  effort = "none";
}

accepted : prepare lib (rules_for parsed true) (obj request) ≡ ok prepared
unfolding rules_for prepare other_model messages tools check_tools stream_flag usage_flag check_n
    forward_base to_items forward_options forward_numbers forward_number forward_top_k forward_seed
    forward_stop forward_bias requested_tokens effort forward_last applied_args get put set_default
    message check_content check_tool_calls
accepted = refl

prepare-rules_for_example : IsGoverned parsed true request 500 prepared
unfolding get
prepare-rules_for_example =
    prepare-rules_for parsed true lib request prepared 500 parse_profile-IsChecked_example refl refl
      refl accepted
