-- ===== src/Gateway/Tools.antt =====
-- src/agent_lab/gateway/translate.py: `_tools`.
use agent_lab.Common.{◌≢◌, ◌≡◌, Bool, false, not, ◌&&◌, Option, none, some, if◌then◌else◌, arith}
use agent_lab.Json.{Value, Items, null, arr, obj, nil, cons, get, get_value}
use agent_lab.Gateway.Messages.{is_str, equals}
use agent_lab.Gateway.Result.{Result, ok, raised, named, bad_field, reject_if, ◌>>◌}

-- tool.get("type", "function") != "function": a missing type counts as "function".
other_type : Option Value → Bool
other_type none = false
other_type (some v) = not (equals v "function")

is_named_function : Value → Bool
is_named_function (obj function) = is_str (get_value "name" function)
is_named_function _ = false

unfoldable pub is_tool : Value → Bool
unfolding other_type is_named_function
is_tool (obj tool) =
    not (other_type (get "type" tool)) && is_named_function (get_value "function" tool)
is_tool _ = false

unfoldable pub check_tools : Items → Result (Unit {0})
unfolding is_tool
check_tools nil = ok tt
check_tools (cons tool rest) =
    let others = check_tools rest in
    do reject_if (not (is_tool tool)) (bad_field (named "tools")); others

-- `_tools(value, tool_choice)`
unfoldable pub tools : Value → Value → Result (Option Items)
unfolding check_tools
tools null choice = ok none
tools (arr nil) choice = ok none
tools (arr (cons t rest)) choice = do
  check_tools (cons t rest)
  ok (if equals choice "none" then none else some (cons t rest))
tools _ choice = raised (bad_field (named "tools"))

-- The tools that are offered are the client's own, are all functions with a name, and are not there
-- when the client chose "none".
pub tools-eq-some :
    (value choice : Value) (ts : Items)
    → tools value choice ≡ ok (some ts)
    → (value ≡ arr ts) × (check_tools ts ≡ ok tt) × (equals choice "none" ≡ false) × (ts ≢ nil)
unfolding tools
tools-eq-some null choice ts h = ground arith
tools-eq-some (arr nil) choice ts h = ground arith
tools-eq-some (arr (cons t rest)) choice ts h = ground arith
tools-eq-some _ choice ts h = ground arith
