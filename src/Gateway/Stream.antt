-- ===== src/Gateway/Stream.antt =====
-- src/agent_lab/gateway/app.py: `_with_heartbeats` and `_stream`, a streamed answer. The task of
-- `produce` and the coroutine of `_stream` take turns in any order: a step is one turn of one of them.
pub mod Order
mod Tests
use agent_lab.Common.{
  ℕ, ◌<◌, ◌≡◌, Bool, true, false, not, ◌&&◌, List, [], ◌∷◌, ◌++◌, Option, none, some, String,
  if◌then◌else◌, length,
}
use agent_lab.Json.{Fields, get_value, truthy}
use agent_lab.Gateway.Result.{ApiError}
use agent_lab.Gateway.Chunks.Public.{public_chunk}
use agent_lab.Gateway.Backend.{BackendError, api_error, Stream, yields, returns, fails, crashes}

-- What `produce` puts into its queue. `crash` is an exception that is no `BackendError`.
pub data Item : Type 0 where
  chunk : Fields → Item
  end crash : Item
  error : BackendError → Item

-- All that `produce` puts, in order.
unfoldable pub items : Stream → List Item
items (yields c counts rest) = chunk c ∷ items rest
items (returns counts) = end ∷ []
items (fails e counts) = error e ∷ []
items (crashes counts) = crash ∷ []

-- What is sent: the start with status 200 and the headers, a keep-alive comment, an event with a chunk
-- or with the body of an error, the event DONE, and the empty body that ends the response.
pub data Message : Type 0 where
  start keep_alive done last : Message
  event : Fields → Message
  error_event : ApiError → Message

-- Where `_stream` stands: it reads items, it has read the last one, an exception has ended it, or it
-- was cancelled or its sending failed.
pub data Phase : Type 0 where
  reading closing crashed cancelled : Phase

-- `ahead` is what `produce` still has to put, `outbox` what `_stream` sends before its next read, and
-- `status` is that of the record.
pub record Relay : Type 0 where
  pub ahead : List Item
  pub queue : List Item
  pub outbox : List Message
  pub sent : List Message
  pub phase : Phase
  pub status : ℕ

-- The maxsize of the queue.
abbrev pub max_queued : ℕ
max_queued = 64

abbrev pub begin : Stream → Relay
begin stream = record {
  ahead = items stream;
  queue = [];
  outbox = start ∷ [];
  sent = [];
  phase = reading;
  status = 0;
}

-- `await queue.put(item)`
abbrev pub put_item : Item → List Item → Relay → Relay
put_item item rest r = record r { ahead = rest; queue = r.queue ++ item ∷ [] }

-- `await send(message)`, and `record.status = 200` after the start.
abbrev pub status_after : Message → ℕ → ℕ
status_after start status = 200
status_after _ status = status

abbrev pub send_one : Message → List Message → Relay → Relay
send_one m rest r = record r {
  outbox = rest;
  sent = r.sent ++ m ∷ [];
  status = status_after m r.status;
}

-- The TimeoutError of `wait_for`.
abbrev pub time_out : Relay → Relay
time_out r = record r { outbox = keep_alive ∷ [] }

-- Leaving `_with_heartbeats` cancels the producer.
abbrev pub leave : Relay → Relay
leave r = record r { ahead = []; outbox = []; phase = cancelled }

-- The public name of the model, `include_usage` of the request, and whether a chunk can be written as
-- JSON in UTF-8.
module _ (model : String) (include_usage : Bool) (encodes : Fields → Bool) where
  -- The body of the loop of `_stream`: what it sends for a chunk, none where `_sse` raises.
  unfoldable pub show : Fields → Option (List Message)
  unfolding public_chunk
  show c =
      if (not (truthy (get_value "choices" c)) && truthy (get_value "usage" c)) && not include_usage
      then some []
      else if encodes (public_chunk model c)
      then some (event (public_chunk model c) ∷ [])
      else none

  abbrev pub send_shown : Option (List Message) → Relay → Relay
  send_shown none r = record r { ahead = []; phase = crashed }
  send_shown (some ms) r = record r { outbox = ms }

  -- What an item that is read leads to.
  abbrev pub on_item : Item → Relay → Relay
  on_item (chunk c) r = send_shown (show c) r
  on_item end r = record r { outbox = done ∷ last ∷ []; phase = closing }
  on_item (error e) r = record r {
    outbox = error_event (api_error e) ∷ last ∷ [];
    phase = closing;
    status = (api_error e).status;
  }
  on_item crash r = record r { phase = crashed }

  -- One turn.
  pub data Step (r : Relay) : Relay → Type 0 where
    puts :
        (item : Item) (rest : List Item)
        → r.ahead ≡ item ∷ rest
        → length r.queue < max_queued
        → Step r (put_item item rest r)
    gets :
        (item : Item) (rest : List Item)
        → r.phase ≡ reading
        → r.outbox ≡ []
        → r.queue ≡ item ∷ rest
        → Step r (on_item item (record r { queue = rest }))
    times_out : r.phase ≡ reading → r.outbox ≡ [] → Step r (time_out r)
    sends : (m : Message) (rest : List Message) → r.outbox ≡ m ∷ rest → Step r (send_one m rest r)
    leaves : Step r (leave r)

  -- The states that the answer to a stream of chunks can come to.
  pub data Reach (stream : Stream) : Relay → Type 0 where
    here : Reach stream (begin stream)
    next : {r s : Relay} → Reach stream r → Step r s → Reach stream s

  -- Turns from one state to another.
  pub data Steps (r : Relay) : Relay → Type 0 where
    stay : Steps r r
    further : {s t : Relay} → Steps r s → Step s t → Steps r t
