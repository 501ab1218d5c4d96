-- ===== src/Gateway/Messages.antt =====
-- src/agent_lab/gateway/translate.py: `_check_content`, `_check_tool_calls` and `_messages`.
pub mod Roles
use agent_lab.Common.{
  ℕ, zero, suc, ◌≡◌, Bool, true, false, not, ◌||◌, List, [], ◌∷◌, String, str_eq, if◌then◌else◌,
}
use agent_lab.Json.{
  Value, Items, Fields, null, bool, int, float, str, arr, obj, nil, cons, end, field, get_value,
  put,
}
use agent_lab.Gateway.Library.{Library, Loads, loaded, value_error, too_deep}
use agent_lab.Gateway.Result.{
  Result, ok, raised, Raised, Param, named, content_of, tool_calls_of, type_error, recursion_error,
  bad_field, reject_if, ◌>>=◌, ◌>>◌,
}

-- isinstance(value, str)
abbrev pub is_str : Value → Bool
is_str (str s) = true
is_str _ = false

-- value == text
abbrev pub equals : Value → String → Bool
equals (str s) t = str_eq s t
equals _ t = false

-- item.get(key) if isinstance(item, dict) else None
abbrev pub get_if_dict : String → Value → Value
get_if_dict k (obj fs) = get_value k fs
get_if_dict k _ = null

-- The loop over the parts of a content.
check_parts : ℕ → Items → Result (Unit {0})
check_parts i nil = ok tt
check_parts i (cons part rest) =
    let others = check_parts i rest in
    do
      reject_if (not (equals (get_if_dict "type" part) "text")) (bad_field (content_of i))
      reject_if (not (is_str (get_if_dict "text" part))) (bad_field (content_of i))
      others

-- `_check_content(content, f"messages[{i}]")`
unfoldable pub check_content : ℕ → Value → Result (Unit {0})
unfolding check_parts
check_content i null = ok tt
check_content i (str s) = ok tt
check_content i (arr parts) = check_parts i parts
check_content i _ = raised (bad_field (content_of i))

module _ (lib : Library) where
  -- The arguments of a call: None and "" are left alone.
  check_arguments : ℕ → Value → Result (Unit {0})
  check_arguments i null = ok tt
  check_arguments i (str s) = if str_eq s "" then ok tt else elim (lib.loads s) [
    | loaded v ↦ ok tt
    | value_error ↦ raised (bad_field (tool_calls_of i))
    | too_deep ↦ raised recursion_error
  ]
  check_arguments i _ = raised (bad_field (tool_calls_of i))

  -- One call: `function` is null where the call is no dict or has no function.
  check_function : ℕ → Value → Result (Unit {0})
  unfolding check_arguments
  check_function i (obj function) = do
    reject_if (not (is_str (get_value "name" function))) (bad_field (tool_calls_of i))
    check_arguments i (get_value "arguments" function)
  check_function i _ = raised (bad_field (tool_calls_of i))

  check_calls : ℕ → Items → Result (Unit {0})
  check_calls i nil = ok tt
  check_calls i (cons call rest) =
      let others = check_calls i rest in do check_function i (get_if_dict "function" call); others

  -- `_check_tool_calls(calls, f"messages[{i}]")`
  unfoldable pub check_tool_calls : ℕ → Value → Result (Unit {0})
  unfolding check_calls check_function
  check_tool_calls i null = ok tt
  check_tool_calls i (arr calls) = check_calls i calls
  check_tool_calls i _ = raised (bad_field (tool_calls_of i))

abbrev pub is_message_role : String → Bool
is_message_role s =
    str_eq s "system"
    || (str_eq s "developer" || (str_eq s "user" || (str_eq s "assistant" || str_eq s "tool")))

-- `role not in MESSAGE_ROLES`: a list or a dict cannot be looked up in a set.
unfoldable pub check_role : Value → Result (Unit {0})
check_role (str s) = reject_if (not (is_message_role s)) (bad_field (named "messages"))
check_role (arr xs) = raised type_error
check_role (obj fs) = raised type_error
check_role _ = raised (bad_field (named "messages"))

-- dict(message), with "system" for the role "developer"
unfoldable pub rename_role : Fields → Fields
rename_role m = if equals (get_value "role" m) "developer" then put "role" (str "system") m else m

module _ (lib : Library) where
  unfoldable pub message : ℕ → Value → Result Fields
  unfolding check_role rename_role
  message i (obj m) = do
    check_role (get_value "role" m)
    check_content i (get_value "content" m)
    check_tool_calls lib i (get_value "tool_calls" m)
    ok (rename_role m)
  message i _ = raised (bad_field (named "messages"))

  unfoldable pub messages_from : ℕ → Items → Result (List Fields)
  messages_from i nil = ok []
  messages_from i (cons m rest) =
      let others = messages_from (suc i) rest in
      do first ← message i m; result ← others; ok (first ∷ result)

  -- `_messages(value)`
  unfoldable pub messages : Value → Result (List Fields)
  unfolding messages_from
  messages (arr (cons m rest)) = messages_from 0 (cons m rest)
  messages _ = raised (bad_field (named "messages"))
