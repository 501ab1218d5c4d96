-- ===== src/Gateway/Answer.antt =====
-- src/agent_lab/gateway/app.py: the responses. `_complete`, an answer in one piece; `error_response`;
-- the endpoints `models` and `healthz`, `_no_route`; and `ChatResponse.__call__`, which ends a request.
pub mod Complete
pub mod Released
mod Tests
use agent_lab.Common.{
  ℕ, ◌≡◌, Bool, true, false, not, List, [], ◌∷◌, ◌++◌, Option, none, some, String, str_eq,
  if◌then◌else◌, ◌==◌, get_elem?,
}
use agent_lab.Common.Int.{ℤ}
use agent_lab.Json.{Value, Fields, int, str, arr, obj, nil, cons, end, field}
use agent_lab.Gateway.Result.{Result, ok, raised, Raised, api, ApiError}
use agent_lab.Gateway.Chunks.{Collected, empty, add_chunk, answer_of}
use agent_lab.Gateway.Backend.{
  BackendError, no_answer, api_error, Stream, yields, returns, fails, crashes,
}
use agent_lab.Gateway.Queue.{RequestQueue, Place, leave}
use agent_lab.Gateway.Keys.{Hashing, KeysFile}
use agent_lab.Gateway.Keys.Store.{KeyStore}
use agent_lab.Gateway.App.{Web, Request, authenticate}

pub data Body : Type 0 where
  document : Fields → Body
  failure : ApiError → Body
  text : String → Body

pub record Response : Type 0 where
  pub status : ℕ
  pub headers : List (String × String)
  pub body : Body

-- The headers of an error: `RETRY_AFTER_SECONDS` is 30.
abbrev pub error_headers : ℕ → List (String × String)
error_headers status =
    if status == 401
    then ("WWW-Authenticate", "Bearer") ∷ []
    else if status == 429
    then ("Retry-After", "30") ∷ []
    else []

-- `error_response(error)`
unfoldable pub error_response : ApiError → Response
error_response error = record {
  status = error.status;
  headers = error_headers error.status;
  body = failure error;
}

-- `_collect` over the generator: an answer, its `BackendError`, or another exception.
pub data Gathered : Type 0 where
  gathered : Fields → Gathered
  refused : BackendError → Gathered
  broke : Gathered

abbrev answer : Result Fields → Gathered
answer (ok fs) = gathered fs
answer (raised e) = broke

-- What follows the loop.
unfoldable pub conclude_collect : String → Option Fields → Collected → Gathered
conclude_collect model none s = refused no_answer
conclude_collect model (some first) s = answer (answer_of model first s)

-- The loop of `_collect`, where the generator may raise.
unfoldable pub collect_stream : String → Stream → Collected → Gathered
unfolding add_chunk conclude_collect
collect_stream model (yields chunk counts rest) s = elim (add_chunk chunk s) [
  | ok now ↦ collect_stream model rest now
  | raised e ↦ broke
]
collect_stream model (returns counts) s = conclude_collect model s.first s
collect_stream model (fails e counts) s = refused e
collect_stream model (crashes counts) s = broke

abbrev json_response : Fields → Response
json_response fs = record { status = 200; headers = []; body = document fs }

-- The response of `_complete`, none where it raises. `encodes` says whether a dict can be written as
-- JSON in UTF-8. The status of the record is that of the response.
unfoldable pub response_of : (Fields → Bool) → Gathered → Option Response
unfolding error_response
response_of encodes (gathered fs) = if encodes fs then some (json_response fs) else none
response_of encodes (refused e) = some (error_response (api_error e))
response_of encodes broke = none

-- `_complete(prepared, record, place, send)`
unfoldable pub complete : String → (Fields → Bool) → Stream → Option Response
unfolding collect_stream response_of
complete model encodes stream = response_of encodes (collect_stream model stream empty)

-- `model_entry`
unfoldable pub model_entry : String → ℤ → Fields
model_entry model created = field "id" (str model) (
    field "object" (str "model")
      (field "created" (int created) (field "owned_by" (str "agent-lab") end)))

abbrev model_not_found : ApiError
model_not_found = record {
  status = 404;
  code = some "model_not_found";
  param = none;
  kind = "invalid_request_error";
}

model_list : String → ℤ → Fields
unfolding model_entry
model_list model created =
    field "object" (str "list")
      (field "data" (arr (cons (obj (model_entry model created)) nil)) end)

-- After `authenticate`: the list, or the entry of the model that the path names.
models_body : String → ℤ → Option String → Response
unfolding model_list error_response
models_body model created none = json_response (model_list model created)
models_body model created (some asked) =
    if str_eq asked model
    then json_response
        (if str_eq asked "" then model_list model created else model_entry model created)
    else error_response model_not_found

-- The `except` of `models`; none is an exception that is no `ApiError`.
models_response : String → ℤ → Option String → Result String → Option Response
unfolding models_body error_response
models_response model created asked (ok who) = some (models_body model created asked)
models_response model created asked (raised (api e)) = some (error_response e)
models_response model created asked (raised _) = none

-- `models(request)`, with the model of its path
unfoldable pub models :
    Web
    → Hashing
    → KeyStore
    → KeysFile
    → Request
    → String
    → ℤ
    → Option String
    → Option Response × KeyStore
unfolding authenticate models_response
models web hashing store file request model created asked =
    let (who, now) = authenticate web hashing store file request in
    (models_response model created asked who, now)

-- `healthz`: the status of the model server, none for an httpx.HTTPError.
unfoldable pub healthz : Option ℕ → Response
healthz none = record { status = 503; headers = []; body = text "unavailable" }
healthz (some status) =
    if status == 200
    then record { status = 200; headers = []; body = text "ok" }
    else record { status = 503; headers = []; body = text "unavailable" }

-- `_no_route`, with the status and the headers of the exception.
unfoldable pub no_route : Option ℕ → List (String × String) → Response
unfolding error_response
no_route status extra =
    let response = error_response (record {
      status = elim status [ none ↦ 404 | some n ↦ n ];
      code = none;
      param = none;
      kind = "invalid_request_error";
    }) in
    record response { headers = response.headers ++ extra }

-- How the wait of `ChatResponse.__call__` ends: the answer is done, the client left first, or the
-- server cancels it, where the answer may be done by then.
pub data Wait : Type 0 where
  answered left : Wait
  stopped : Bool → Wait

-- CLIENT_CLOSED is 499, SHUTTING_DOWN is 503.
abbrev waited : Wait → ℕ → ℕ
waited answered status = status
waited left status = 499
waited (stopped true) status = status
waited (stopped false) status = 503

-- `place.give_up()`
unfoldable pub give_up : RequestQueue → ℕ → RequestQueue
unfolding leave
give_up q i = elim (get_elem? q.places i) [ none ↦ q | some p ↦ leave q i p ]

-- `ChatResponse.__call__`, after the answer and the watcher are gone: the flag says whether the answer
-- ended with an exception. It gives the status of the record and the queue.
unfoldable pub end_call : Wait → Bool → ℕ → RequestQueue → ℕ → ℕ × RequestQueue
unfolding give_up
end_call wait crashed status q i = (if crashed then 500 else waited wait status, give_up q i)
