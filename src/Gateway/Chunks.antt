-- ===== src/Gateway/Chunks.antt =====
-- src/agent_lab/gateway/app.py: `_well_formed`, which checks a chunk of the backend, and `_collect`,
-- which puts an answer together from chunks. A TypeError stands for an AttributeError too.
pub mod Total
pub mod Public
mod Tests
use Prim.Native.String.{◌++◌ as append}
use agent_lab.Common.{
  ◌≡◌, Bool, true, false, ◌&&◌, List, [], ◌∷◌, ◌++◌, Option, none, some, String, if◌then◌else◌,
}
use agent_lab.Common.Int.{pos}
use agent_lab.Json.{
  Value, Fields, Items, null, bool, int, float, str, arr, obj, nil, cons, end, field, get_value,
  put, remove, truthy,
}
use agent_lab.Gateway.Result.{Result, ok, raised, type_error, api, Raised, ◌>>=◌}

-- value or {}, where that is a dict.
unfoldable pub fields_or_empty : Value → Option Fields
fields_or_empty v = if truthy v then (elim v [ obj fs ↦ some fs | _ ↦ none ]) else some end

-- value or [], where that is a list.
unfoldable pub items_or_empty : Value → Option Items
items_or_empty v = if truthy v then (elim v [ arr xs ↦ some xs | _ ↦ none ]) else some nil

abbrev pub is_text : Value → Bool
is_text (str s) = true
is_text _ = false

-- isinstance(value or "", str)
unfoldable pub text_fine : Value → Bool
text_fine v = if truthy v then is_text v else true

-- None, or an int that is not a bool.
abbrev count_fine : Value → Bool
count_fine null = true
count_fine (int n) = true
count_fine _ = false

unfoldable pub usage_fine : Value → Bool
unfolding fields_or_empty
usage_fine null = true
usage_fine (obj usage) = elim (fields_or_empty (get_value "prompt_tokens_details" usage)) [
  | none ↦ false
  | some details ↦
      count_fine (get_value "prompt_tokens" usage)
      && (count_fine (get_value "completion_tokens" usage)
          && count_fine (get_value "cached_tokens" details))
]
usage_fine _ = false

unfoldable pub all_dicts : Items → Bool
all_dicts nil = true
all_dicts (cons (obj fs) rest) = all_dicts rest
all_dicts (cons _ rest) = false

unfoldable pub calls_fine : Value → Bool
unfolding items_or_empty all_dicts
calls_fine v = elim (items_or_empty v) [ none ↦ false | some calls ↦ all_dicts calls ]

unfoldable pub delta_fine : Fields → Bool
unfolding text_fine calls_fine
delta_fine delta =
    text_fine (get_value "content" delta)
    && (text_fine (get_value "reasoning" delta) && calls_fine (get_value "tool_calls" delta))

unfoldable pub choice_fine : Value → Bool
unfolding fields_or_empty delta_fine
choice_fine (obj choice) = elim (fields_or_empty (get_value "delta" choice)) [
  | none ↦ false
  | some delta ↦ delta_fine delta
]
choice_fine _ = false

unfoldable pub all_choices : Items → Bool
unfolding choice_fine
all_choices nil = true
all_choices (cons c rest) = let others = all_choices rest in choice_fine c && others

unfoldable pub choices_fine : Value → Bool
unfolding items_or_empty all_choices
choices_fine v = elim (items_or_empty v) [ none ↦ false | some choices ↦ all_choices choices ]

-- `_well_formed(chunk)`
unfoldable pub well_formed : Value → Bool
unfolding usage_fine choices_fine
well_formed (obj chunk) =
    usage_fine (get_value "usage" chunk) && choices_fine (get_value "choices" chunk)
well_formed _ = false

-- The locals of `_collect`.
pub record Collected : Type 0 where
  pub first : Option Fields
  pub content : List Value
  pub reasoning : List Value
  pub tool_calls : List Fields
  pub finish_reason : Value
  pub usage : Value

abbrev pub empty : Collected
empty = record {
  first = none;
  content = [];
  reasoning = [];
  tool_calls = [];
  finish_reason = null;
  usage = null;
}

abbrev pub or_error : {A : Type 0} → Option A → Result A
or_error none = raised type_error
or_error (some a) = ok a

-- if value: texts.append(value)
unfoldable pub add_text : Value → List Value → List Value
add_text v texts = if truthy v then texts ++ v ∷ [] else texts

-- The loop over the calls; one that is no dict is taken for an error of `dict`.
unfoldable pub add_calls : Items → List Fields → Result (List Fields)
add_calls nil calls = ok calls
add_calls (cons (obj call) rest) calls = add_calls rest (calls ++ remove "index" call ∷ [])
add_calls (cons _ rest) calls = raised type_error

abbrev pub value_or : Value → Value → Value
value_or v other = if truthy v then v else other

-- The body of the loop over the choices.
unfoldable pub add_choice : Value → Collected → Result Collected
unfolding fields_or_empty items_or_empty add_calls add_text
add_choice (obj choice) s = do
  delta ← or_error (fields_or_empty (get_value "delta" choice))
  items ← or_error (items_or_empty (get_value "tool_calls" delta))
  calls ← add_calls items s.tool_calls
  ok (record s {
    content = add_text (get_value "content" delta) s.content;
    reasoning = add_text (get_value "reasoning" delta) s.reasoning;
    tool_calls = calls;
    finish_reason = value_or (get_value "finish_reason" choice) s.finish_reason;
  })
add_choice _ s = raised type_error

unfoldable pub add_choices : Items → Collected → Result Collected
unfolding add_choice
add_choices nil s = ok s
add_choices (cons c rest) s = add_choice c s >>= add_choices rest

-- first or chunk
abbrev first_or : Option Fields → Fields → Fields
first_or none chunk = chunk
first_or (some end) chunk = chunk
first_or (some (field k v rest)) chunk = field k v rest

-- The body of the loop over the chunks.
unfoldable pub add_chunk : Fields → Collected → Result Collected
unfolding items_or_empty add_choices
add_chunk chunk s = do
  choices ← or_error (items_or_empty (get_value "choices" chunk))
  add_choices choices (record s {
    first = some (first_or s.first chunk);
    usage = value_or (get_value "usage" chunk) s.usage;
  })

unfoldable pub add_chunks : List Fields → Collected → Result Collected
unfolding add_chunk
add_chunks [] s = ok s
add_chunks (chunk ∷ chunks) s = add_chunk chunk s >>= add_chunks chunks

-- "".join(texts)
unfoldable pub join : List Value → Result String
join [] = ok ""
join (str s ∷ rest) = join rest >>= λ more. ok (append s more)
join (v ∷ rest) = raised type_error

abbrev pub no_answer : Raised
no_answer = api (record { status = 502; code = none; param = none; kind = "server_error" })

call_items : List Fields → Items
call_items [] = nil
call_items (c ∷ cs) = cons (obj c) (call_items cs)

unfoldable pub with_reasoning : List Value → String → Fields → Fields
with_reasoning [] reasoning message = message
with_reasoning (t ∷ ts) reasoning message =
    put "reasoning_content" (str reasoning) (put "reasoning" (str reasoning) message)

unfoldable pub with_calls : List Fields → Fields → Fields
unfolding call_items
with_calls [] message = message
with_calls (c ∷ cs) message = put "tool_calls" (arr (call_items (c ∷ cs))) message

-- The message of the response: its text, and its reasoning and its calls where there are any.
unfoldable pub message_fields : String → List Value → String → List Fields → Fields
unfolding with_reasoning with_calls
message_fields content reasonings reasoning calls = with_calls calls (
    with_reasoning reasonings reasoning (
      field "role" (str "assistant")
        (field "content" (if truthy (str content) then str content else null) end)))

-- The response, from what was collected.
unfoldable pub respond : String → Fields → Fields → Collected → Fields
respond model first message s =
    let base = field "id" (get_value "id" first) (
      field "object" (str "chat.completion") (
        field "created" (get_value "created" first) (
          field "model" (str model) (
            field "choices"
              (arr (
                cons
                  (obj (
                    field "index" (int (pos 0))
                      (field "message" (obj message) (field "finish_reason" s.finish_reason end))))
                  nil))
              end)))) in
    if truthy s.usage then put "usage" s.usage base else base

-- if first is None: raise
abbrev first_chunk : Option Fields → Result Fields
first_chunk none = raised no_answer
first_chunk (some chunk) = ok chunk

abbrev reasoned : String → Fields → Collected → String → Result Fields
reasoned model first s content = do
  reasoning ← join s.reasoning
  ok (respond model first (message_fields content s.reasoning reasoning s.tool_calls) s)

abbrev pub answer_of : String → Fields → Collected → Result Fields
answer_of model first s = join s.content >>= reasoned model first s

-- What follows the loop over the chunks.
abbrev ending : String → Collected → Result Fields
ending model s = first_chunk s.first >>= λ first. answer_of model first s

-- `_collect`, over the chunks that arrive.
unfoldable pub collect : String → List Fields → Result Fields
unfolding add_chunks
collect model chunks = add_chunks chunks empty >>= ending model
