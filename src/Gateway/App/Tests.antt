-- ===== src/Gateway/App/Tests.antt =====
-- One request through `chat`, and the theorem about it.
use Prim.Native.String.{◌++◌ as append}
use agent_lab.Common.{◌≡◌, refl, true, false, [], ◌∷◌, none, some, String, arith}
use agent_lab.Common.Int.{pos, ◌-ℤ◌}
use agent_lab.Json.{
  bool, float, Fields, null, int, str, arr, obj, nil, cons, end, field, finite, get, put,
  set_default,
}
use agent_lab.Gateway.Library.{Library, loaded}
use agent_lab.Gateway.Number.{between, is_number}
use agent_lab.Gateway.Effort.{Rules, effort, applied_args}
use agent_lab.Gateway.Limit.{limit, allowed, IsSound}
use agent_lab.Gateway.Messages.{messages, message, check_content, check_tool_calls}
use agent_lab.Gateway.Tools.{tools, check_tools}
use agent_lab.Gateway.Options.{
  forward_options, forward_numbers, forward_number, forward_top_k, forward_seed, forward_stop,
  forward_bias,
}
use agent_lab.Gateway.Prepare.{
  Prepared, prepare, forward_base, forward_last, to_items, requested_tokens, stream_flag,
  usage_flag, check_n, other_model,
}
use agent_lab.Gateway.Queue.{RequestQueue, full, reserve, changed, reserved, init as empty_queue}
use agent_lab.Gateway.Keys.{
  Hashing, KeysFile, present, text, from_hex, remove_prefix, strip_prefix, is_key_name, is_hash,
  created_text, load, read_table, read_entries, read_entry,
}
use agent_lab.Gateway.Keys.Store.{KeyStore, init, check, refresh, adopt, digests, find_last}
use agent_lab.Config.Text.{codes, all_in, is_lower, is_digit}
use agent_lab.Gateway.App.{
  Web, Request, bytes, Admitted, admitted, conclude, authenticate, partition, read_json, read_body,
  admit, chat,
}
use agent_lab.Gateway.App.Admission.{IsAdmitted, chat-IsAdmitted}

abbrev lib : Library
lib = record { loads = λ s. loaded null; isdigit = λ s. true }

abbrev sevens : String
sevens = "0707070707070707070707070707070707070707070707070707070707070707"

abbrev table : Fields
table =
    field "keys" (obj (field "cursor" (obj (field "hash" (str (append "sha256:" sevens)) end)) end))
      end

abbrev hashing : Hashing
hashing = record {
  parse = λ t. some table;
  digest = λ key. from_hex (codes sevens);
  hexdigest = λ key. sevens;
  to_text = λ v. "";
}

abbrev web : Web
web = record {
  strip = λ s. s;
  lower = λ s. s;
  isdigit = λ s. false;
  to_int = λ s. none;
  loads = λ cs. loaded (
      obj (
        field "messages"
          (arr (cons (obj (field "role" (str "user") (field "content" (str "hi") end))) nil)) end));
  count = λ ms ts args. some 500;
}

abbrev rules : Rules
rules = record {
  model_name = "qwen";
  limits = record {
    max_context = pos 32768;
    max_output_tokens = pos 8192;
    min_output_tokens = pos 512;
  };
  default_thinking = true;
  sampling = record { temperature = finite (pos 7) 3; top_p = finite (pos 1) 1; top_k = pos 20 };
  thinking_sampling = record {
    temperature = finite (pos 1) 0;
    top_p = finite (pos 1) 0;
    top_k = pos 20;
  };
  effort_variable = none;
}

rules-IsSound : IsSound rules.limits
rules-IsSound = record {
  positive = omega arith;
  below_output = omega arith;
  output_fits = omega arith;
}

abbrev request : Request
request = record {
  authorization = "bearer sk";
  content_length = none;
  stream = bytes (123 ∷ 125 ∷ []) ∷ [];
}

abbrev key_file : KeysFile
key_file = present (record { inode = 1; modified = 2; bytes = 3 }) (text "")

abbrev before : RequestQueue
before = empty_queue 3

abbrev message_list : Fields
message_list = field "role" (str "user") (field "content" (str "hi") end)

abbrev chosen : Prepared
chosen = record {
  body = field "model" (str "default_model") (
      field "messages" (arr (cons (obj message_list) nil)) (
        field "temperature" (float (finite (pos 1) 0)) (
          field "top_p" (float (finite (pos 1) 0)) (
            field "top_k" (int (pos 20)) (
              field "stream" (bool true) (
                field "stream_options" (obj (field "include_usage" (bool true) end))
                  (field "max_tokens" (int (pos 8192)) end)))))));
  messages = message_list ∷ [];
  tools = none;
  template_args = field "enable_thinking" (bool true) end;
  requested_max_tokens = none;
  stream = false;
  include_usage = false;
  thinking = true;
  effort = "default";
}

abbrev result : Admitted
result = record {
  key = "cursor";
  prepared = chosen;
  prompt_tokens = 500;
  max_tokens = pos 8192;
  queue = record {
    queue_size = 3;
    waiting = 1;
    active = 0;
    locked = false;
    changes = (0, 1) ∷ [];
    places = record { waiting = true; stage = reserved } ∷ [];
  };
}

abbrev now : KeyStore
now = record {
  stamp = some (record { inode = 1; modified = 2; bytes = 3 });
  hashes = ("cursor", hashing.digest "sk") ∷ [];
}

run : chat web hashing lib rules init key_file request before before ≡ (admitted result, now)
unfolding chat admit authenticate partition read_json read_body conclude check refresh adopt digests
    find_last load read_table read_entries read_entry created_text from_hex remove_prefix
    strip_prefix is_key_name is_hash all_in is_lower is_digit full reserve changed limit prepare
    other_model messages tools check_tools stream_flag usage_flag check_n forward_base to_items
    forward_options forward_numbers forward_number forward_top_k forward_seed forward_stop
    forward_bias is_number between requested_tokens effort forward_last applied_args get put
    set_default message check_content check_tool_calls ◌-ℤ◌ allowed
run = refl

chat-IsAdmitted_example : IsAdmitted web hashing init key_file request lib rules before result
chat-IsAdmitted_example =
    chat-IsAdmitted web hashing init key_file request lib rules before before result now
      (λ same. cc) rules-IsSound run
