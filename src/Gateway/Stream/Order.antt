-- ===== src/Gateway/Stream/Order.antt =====
-- The order of what a streamed answer sends, whatever the turns of the two coroutines are: the answer
-- described on its own, and the order that holds on the way.
pub mod Turns
pub mod Items
pub mod Reached
pub mod Progress
use mathlib.Core.List.{append-nil, append_assoc}
use agent_lab.Common.{
  ℕ, zero, suc, ◌+◌, ◌≤◌, ◌<◌, ◌≡◌, refl, ◌∙◌, sym, ap, subst, ◌⊎◌, inl, inr, Bool, true, false,
  not, ◌&&◌, List, [], ◌∷◌, ◌++◌, Option, none, some, String, if◌then◌else◌, length, length-append,
  Bool-cases, some_inj, arith,
}
use agent_lab.Json.{Fields, get_value, truthy}
use agent_lab.Gateway.Result.{ApiError}
use agent_lab.Gateway.Chunks.Public.{public_chunk}
use agent_lab.Gateway.Backend.{BackendError, api_error, Stream, yields, returns, fails, crashes}
use agent_lab.Gateway.Stream.{
  Item, chunk, end, error, crash, items, Message, start, keep_alive, done, last, event, error_event,
  Relay, Phase, reading, closing, crashed, cancelled, max_queued, begin, put_item, status_after,
  send_one, time_out, leave, show, send_shown, on_item, Step, puts, gets, times_out, sends, leaves,
  Reach, here, next,
}

-- What is sent, without the keep-alive comments.
pub real : List Message → List Message
real [] = []
real (keep_alive ∷ ms) = real ms
real (start ∷ ms) = start ∷ real ms
real (done ∷ ms) = done ∷ real ms
real (last ∷ ms) = last ∷ real ms
real (event c ∷ ms) = event c ∷ real ms
real (error_event e ∷ ms) = error_event e ∷ real ms

pub real-append : (xs ys : List Message) → real (xs ++ ys) ≡ real xs ++ real ys
unfolding real
real-append [] ys = refl
real-append (keep_alive ∷ ms) ys = real-append ms ys
real-append (start ∷ ms) ys = ap (λ t. start ∷ t) (real-append ms ys)
real-append (done ∷ ms) ys = ap (λ t. done ∷ t) (real-append ms ys)
real-append (last ∷ ms) ys = ap (λ t. last ∷ t) (real-append ms ys)
real-append (event c ∷ ms) ys = ap (λ t. event c ∷ t) (real-append ms ys)
real-append (error_event e ∷ ms) ys = ap (λ t. error_event e ∷ t) (real-append ms ys)

-- The last item is the end or an error.
pub IsWhole : List Item → Type 0
IsWhole [] = ⊥
IsWhole (chunk c ∷ rest) = IsWhole rest
IsWhole (_ ∷ []) = Unit
IsWhole (_ ∷ item ∷ rest) = ⊥

pub items-IsWhole : (stream : Stream) → IsWhole (items stream)
unfolding items IsWhole
items-IsWhole (yields c counts rest) = items-IsWhole rest
items-IsWhole (returns counts) = tt
items-IsWhole (fails e counts) = tt
items-IsWhole (crashes counts) = tt

pub NoStart : List Message → Type 0
NoStart [] = Unit
NoStart (start ∷ ms) = ⊥
NoStart (m ∷ ms) = NoStart ms

-- The status that the record has at the end.
pub final_status : List Item → ℕ
final_status [] = 200
final_status (error e ∷ rest) = (api_error e).status
final_status (item ∷ rest) = final_status rest

module _ (model : String) (include_usage : Bool) (encodes : Fields → Bool) where
  pub and_then : Option (List Message) → List Message → List Message
  and_then none rest = []
  and_then (some ms) rest = ms ++ rest

  -- The answer to the items, the independent description: the chunks in order, each as `_stream` shows
  -- it, and what the last item calls for.
  pub shown : List Item → List Message
  unfolding and_then
  shown [] = []
  shown (chunk c ∷ rest) = and_then (show model include_usage encodes c) (shown rest)
  shown (end ∷ rest) = done ∷ last ∷ []
  shown (error e ∷ rest) = error_event (api_error e) ∷ last ∷ []
  shown (crash ∷ rest) = []

  module _ (whole : List Message) (final : ℕ) where
    -- What has been sent or is to be sent next, against the whole answer, and what is left to read.
    pub InOrder : Phase → List Message → List Message → List Item → ℕ → Type 0
    InOrder reading ms outbox left status =
        (ms ++ shown left ≡ whole)
        × IsWhole left
        × (final_status left ≡ final)
        × ((status ≡ 200) ⊎ (outbox ≡ start ∷ []))
    InOrder closing ms outbox left status = (ms ≡ whole) × (status ≡ final) × NoStart outbox
    InOrder _ ms outbox left status = (rest : List Message) × (ms ++ rest ≡ whole)

    pub record IsInOrder (r : Relay) : Type 0 where
      pub bounded : length r.queue ≤ max_queued
      pub order : InOrder r.phase (real (r.sent ++ r.outbox)) r.outbox (r.queue ++ r.ahead) r.status
