-- ===== src/Gateway/App.antt =====
-- src/agent_lab/gateway/app.py: `Gateway.authenticate`, `read_json` and `chat`, from a request to its
-- place in the queue. Headers arrive as text; what Python does with text, JSON and the chat template
-- are parameters.
pub mod Admission
mod Tests
use Prim.Native.Char.{code}
use agent_lab.Common.{
  ℕ, ◌+◌, ◌*◌, ◌≡◌, Bool, true, false, ◌&&◌, not, List, [], ◌∷◌, ◌++◌, Option, none, some, String,
  str_eq, if◌then◌else◌, ltb, ◌==◌, length,
}
use agent_lab.Common.Int.{ℤ}
use agent_lab.Json.{Value, Fields, Items, int, put}
use agent_lab.Gateway.Library.{Library, Loads, loaded, value_error as invalid_json, too_deep}
use agent_lab.Gateway.Result.{
  Result, ok, raised, Raised, api, ApiError, value_error, client_disconnect, ◌>>=◌, ◌>>◌, reject_if,
}
use agent_lab.Gateway.Effort.{Rules}
use agent_lab.Gateway.Limit.{limit}
use agent_lab.Gateway.Prepare.{Prepared, prepare}
use agent_lab.Gateway.Queue.{RequestQueue, full, reserve}
use agent_lab.Gateway.Keys.{Hashing, KeysFile}
use agent_lab.Gateway.Keys.Store.{KeyStore, check}

pub record Web : Type 0 where
  pub strip : String → String
  pub lower : String → String
  pub isdigit : String → Bool
  -- int(text): none is a ValueError
  pub to_int : String → Option ℕ
  -- json.loads of bytes
  pub loads : List ℕ → Loads
  -- PromptCounter.count: none where it raises
  pub count : List Fields → Option Items → Fields → Option ℕ

-- What `request.stream()` gives next.
pub data Chunk : Type 0 where
  bytes : List ℕ → Chunk
  disconnect : Chunk

pub record Request : Type 0 where
  pub authorization : String
  pub content_length : Option String
  pub stream : List Chunk

abbrev pub max_body_bytes : ℕ
max_body_bytes = 16 * 1024 * 1024

abbrev error : ℕ → Option String → String → Raised
error status code kind = api (record { status = status; code = code; param = none; kind = kind })

abbrev pub invalid_api_key : Raised
invalid_api_key = error 401 (some "invalid_api_key") "invalid_request_error"

abbrev pub too_large : Raised
too_large = error 413 none "invalid_request_error"

abbrev pub not_json : Raised
not_json = error 400 none "invalid_request_error"

abbrev pub bad_template : Raised
bad_template = error 400 none "invalid_request_error"

-- `_busy()`
abbrev pub busy : Raised
busy = error 429 (some "rate_limit_exceeded") "rate_limit_error"

abbrev pub internal_error : ApiError
internal_error = record { status = 500; code = none; param = none; kind = "server_error" }

-- header.partition(" "), without the separator.
unfoldable pub partition : String → String × String
partition String.[] = ("", "")
partition (String.◌∷◌ c s) =
    let (scheme, key) = partition s in if code c == 32 then ("", s) else (String.◌∷◌ c scheme, key)

-- sum of the chunks, and the test before each.
unfoldable pub read_body : ℕ → List Chunk → Result (List ℕ)
read_body size [] = ok []
read_body size (disconnect ∷ rest) = raised client_disconnect
read_body size (bytes b ∷ rest) =
    let more = read_body (size + length b) rest in
    reject_if (ltb max_body_bytes (size + length b)) too_large >> (more >>= λ cs. ok (b ++ cs))

-- What `chat` hands to `ChatResponse`.
pub record Admitted : Type 0 where
  pub key : String
  pub prepared : Prepared
  pub prompt_tokens : ℕ
  pub max_tokens : ℤ
  -- the queue, with the request's place as its last
  pub queue : RequestQueue

-- A place in the queue, an error for the client, or nobody left to answer.
pub data Outcome : Type 0 where
  admitted : Admitted → Outcome
  answered : ApiError → Outcome
  closed : Outcome

-- The `except` clauses of `chat`.
unfoldable pub conclude : Result Admitted → Outcome
conclude (ok a) = admitted a
conclude (raised (api e)) = answered e
conclude (raised client_disconnect) = closed
conclude (raised _) = answered internal_error

module _ (web : Web) (hashing : Hashing) where
  -- The answer of the store: none is an exception of reading the key file, a UnicodeDecodeError or an
  -- OSError, for which a ValueError stands: `chat` treats them alike.
  accept : KeyStore → Option (Option String × KeyStore) → Result String × KeyStore
  accept store none = (raised value_error, store)
  accept store (some (none, now)) = (raised invalid_api_key, now)
  accept store (some (some name, now)) = (ok name, now)

  -- `authenticate(request)`
  unfoldable pub authenticate : KeyStore → KeysFile → Request → Result String × KeyStore
  unfolding partition accept
  authenticate store file request =
      let (scheme, key) = partition request.authorization in
      if str_eq (web.lower scheme) "bearer" && not (str_eq key "")
      then accept store (check hashing store file (web.strip key))
      else (raised invalid_api_key, store)

  -- length is not None and length.isdigit() and int(length) > MAX_BODY_BYTES
  check_length : Option String → Result (Unit {0})
  check_length none = ok tt
  check_length (some length) =
      if web.isdigit length
      then elim (web.to_int length) [
        | none ↦ raised value_error
        | some n ↦ reject_if (ltb max_body_bytes n) too_large
      ]
      else ok tt

  parse_body : Loads → Result Value
  parse_body (loaded v) = ok v
  parse_body invalid_json = raised not_json
  parse_body too_deep = raised not_json

  -- `read_json(request)`
  unfoldable pub read_json : Request → Result Value
  unfolding check_length read_body parse_body
  read_json request = do
    check_length request.content_length
    body ← read_body 0 request.stream
    parse_body (web.loads body)

  -- counter.count, and the `except` around it.
  count_prompt : Prepared → Result ℕ
  count_prompt p = elim (web.count p.messages p.tools p.template_args) [
    | none ↦ raised bad_template
    | some n ↦ ok n
  ]

  take_place : RequestQueue → Result RequestQueue
  take_place queue = elim (reserve queue) [ none ↦ raised busy | some q ↦ ok q ]

  module _ (lib : Library) (rules : Rules) where
    -- The body of `chat` after `authenticate`. Counting the prompt lets other requests run: the queue
    -- is `before` when it is first looked at and `after` when the place is taken.
    unfoldable pub admit : Result String → Request → RequestQueue → RequestQueue → Result Admitted
    unfolding read_json count_prompt take_place
    admit who request before after = do
      key ← who
      value ← read_json request
      prepared ← prepare lib rules value
      reject_if (full before) busy
      prompt ← count_prompt prepared
      n ← limit prompt prepared.requested_max_tokens rules.limits
      queue ← take_place after
      ok (record {
        key = key;
        prepared = record prepared { body = put "max_tokens" (int n) prepared.body };
        prompt_tokens = prompt;
        max_tokens = n;
        queue = queue;
      })

    -- `chat(request)`
    unfoldable pub chat :
        KeyStore → KeysFile → Request → RequestQueue → RequestQueue → Outcome × KeyStore
    unfolding authenticate admit conclude
    chat store file request before after =
        let (who, now) = authenticate store file request in
        (conclude (admit who request before after), now)
