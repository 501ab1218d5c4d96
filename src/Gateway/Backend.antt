-- ===== src/Gateway/Backend.antt =====
-- src/agent_lab/gateway/app.py: `backend_chunks`, from the reply of the model server to the chunks
-- that it yields, and the counts that it writes to the record of the request. What Python does with
-- text and JSON are parameters.
pub mod Sound
mod Tests
use Prim.Native.Char.{code}
use agent_lab.Common.{
  ℕ, ◌≡◌, Bool, true, false, List, [], ◌∷◌, Option, none, some, String, str_eq, if◌then◌else◌, leb,
  ◌==◌,
}
use agent_lab.Json.{Value, Fields, Items, null, obj, nil, cons, get_value, truthy}
use agent_lab.Gateway.Library.{Loads, loaded, value_error as invalid_json, too_deep}
use agent_lab.Gateway.Result.{Result, ok, raised, type_error, ApiError, ◌>>=◌}
use agent_lab.Gateway.Chunks.{fields_or_empty, items_or_empty, or_error, well_formed}

-- One constructor for each message of a `BackendError`: `rejected` has the status of the server.
pub data BackendError : Type 0 where
  rejected : ℕ → BackendError
  invalid_chunk not_running not_answering failed ended_early no_answer : BackendError

unfoldable pub status_of : BackendError → ℕ
status_of (rejected n) = if leb 500 n then 502 else 400
status_of not_running = 503
status_of not_answering = 503
status_of _ = 502

-- `BackendError.api_error`
unfoldable pub api_error : BackendError → ApiError
unfolding status_of
api_error e = record {
  status = status_of e;
  code = none;
  param = none;
  kind = if leb 500 (status_of e) then "server_error" else "invalid_request_error";
}

-- What the connection does: it is not made, or a reply comes with a status and lines, and the flag
-- says whether it breaks off after them with an httpx.HTTPError.
pub data Reply : Type 0 where
  connect_error connect_timeout http_error : Reply
  replied : ℕ → List String → Bool → Reply

-- The fields of `RequestRecord` that `backend_chunks` writes.
pub record Counts : Type 0 where
  pub backend_prompt_tokens : Value
  pub completion_tokens : Value
  pub cached_tokens : Value
  pub finish_reason : Value

abbrev pub no_counts : Counts
no_counts = record {
  backend_prompt_tokens = null;
  completion_tokens = null;
  cached_tokens = null;
  finish_reason = null;
}

-- What the generator does: it yields a chunk and goes on, returns, or raises. The counts are those
-- at that moment. `crashes` is any exception but a `BackendError`.
pub data Stream : Type 0 where
  yields : Fields → Counts → Stream → Stream
  returns : Counts → Stream
  fails : BackendError → Counts → Stream
  crashes : Counts → Stream

-- if chunk.get("usage"): ...
unfoldable pub note_usage : Value → Counts → Result Counts
unfolding fields_or_empty
note_usage v c =
    if truthy v
    then elim v [
      | obj usage ↦
          or_error (fields_or_empty (get_value "prompt_tokens_details" usage)) >>= λ details.
          ok (record c {
            backend_prompt_tokens = get_value "prompt_tokens" usage;
            completion_tokens = get_value "completion_tokens" usage;
            cached_tokens = get_value "cached_tokens" details;
          })
      | _ ↦ raised type_error
    ]
    else ok c

abbrev finish_or : Value → Counts → Counts
finish_or v c = if truthy v then record c { finish_reason = v } else c

-- The loop over the choices.
unfoldable pub note_choices : Items → Counts → Result Counts
note_choices nil c = ok c
note_choices (cons (obj choice) rest) c =
    note_choices rest (finish_or (get_value "finish_reason" choice) c)
note_choices (cons _ rest) c = raised type_error

-- What a chunk changes of the counts.
unfoldable pub note : Fields → Counts → Result Counts
unfolding note_usage items_or_empty note_choices
note chunk c = do
  noted ← note_usage (get_value "usage" chunk) c
  choices ← or_error (items_or_empty (get_value "choices" chunk))
  note_choices choices noted

-- line[len(prefix):], where the line starts with the prefix.
unfoldable pub after_prefix : String → String → Option String
after_prefix String.[] line = some line
after_prefix (String.◌∷◌ c prefix) String.[] = none
after_prefix (String.◌∷◌ c prefix) (String.◌∷◌ d line) =
    let rest = after_prefix prefix line in if code c == code d then rest else none

-- What a line says.
pub data Line : Type 0 where
  comment done unreadable : Line
  sent : Value → Line

abbrev line_value : Loads → Line
line_value (loaded v) = sent v
line_value invalid_json = unreadable
line_value too_deep = unreadable

module _ (strip : String → String) (loads : String → Loads) where
  unfoldable pub read_line : String → Line
  unfolding after_prefix
  read_line line = elim (after_prefix "data:" line) [
    | none ↦ comment
    | some data_text ↦
        if str_eq (strip data_text) "[DONE]" then done else line_value (loads (strip data_text))
  ]

  -- After the counts: a chunk is yielded.
  abbrev pub yield_noted : Fields → Counts → Result Counts → (Counts → Stream) → Stream
  yield_noted chunk c (ok noted) next = yields chunk noted (next noted)
  yield_noted chunk c (raised e) next = crashes c

  -- The body of the loop over the lines, for a line with a value.
  unfoldable pub read_value : Value → Counts → (Counts → Stream) → Stream
  unfolding well_formed note
  read_value v c next =
      if well_formed v
      then elim v [ obj chunk ↦ yield_noted chunk c (note chunk c) next | _ ↦ crashes c ]
      else fails invalid_chunk c

  -- The loop over the lines, and what follows it.
  unfoldable pub read_lines : Bool → List String → Counts → Stream
  unfolding read_line read_value
  read_lines broken [] c = fails (if broken then failed else ended_early) c
  read_lines broken (line ∷ rest) c = elim (read_line line) [
    | comment ↦ read_lines broken rest c
    | done ↦ returns c
    | unreadable ↦ fails failed c
    | sent v ↦ read_value v c (read_lines broken rest)
  ]

  -- `backend_chunks(body, record, place)`, once it has its slot.
  unfoldable pub backend_chunks : Reply → Counts → Stream
  unfolding read_lines
  backend_chunks connect_error c = fails not_running c
  backend_chunks connect_timeout c = fails not_answering c
  backend_chunks http_error c = fails failed c
  backend_chunks (replied status lines broken) c =
      if status == 200
      then read_lines broken lines c
      else fails (if broken then failed else rejected status) c
