-- ===== src/Gateway/Stream/Order/Reached.antt =====
-- What a streamed answer has sent in any state it can come to.
use mathlib.Core.List.{append-nil, append_assoc}
use agent_lab.Common.{
  ℕ, ◌≤◌, ◌≡◌, refl, ◌∙◌, sym, ap, subst, inr, Bool, List, [], ◌∷◌, ◌++◌, String, length, arith,
}
use agent_lab.Json.{Fields}
use agent_lab.Gateway.Backend.{Stream}
use agent_lab.Gateway.Stream.{
  items, Message, start, Relay, closing, max_queued, begin, Step, puts, gets, times_out, sends,
  leaves, Reach, here, next,
}
use agent_lab.Gateway.Stream.Order.{
  real, real-append, items-IsWhole, final_status, shown, InOrder, IsInOrder,
}
use agent_lab.Gateway.Stream.Order.Turns.{
  put_item-IsInOrder, time_out-IsInOrder, any_prefix, send_one-IsInOrder, leave-IsInOrder,
}
use agent_lab.Gateway.Stream.Order.Items.{on_item-IsInOrder}

module _ (model : String) (include_usage : Bool) (encodes : Fields → Bool) where
  -- whole: after the start, the answer to the items.
  abbrev pub whole_answer : Stream → List Message
  whole_answer stream = start ∷ shown model include_usage encodes (items stream)

  begin-IsInOrder :
      (stream : Stream)
      → IsInOrder model include_usage encodes
          (whole_answer stream)
          (final_status (items stream))
          (begin stream)
  unfolding InOrder real
  begin-IsInOrder stream = record {
    bounded = omega arith;
    order = (refl, items-IsWhole stream, refl, inr refl);
  }

  Step-IsInOrder :
      (whole : List Message) (final : ℕ) {r s : Relay}
      → IsInOrder model include_usage encodes whole final r
      → Step model include_usage encodes r s
      → IsInOrder model include_usage encodes whole final s
  Step-IsInOrder whole final {r} v (puts item rest e room) =
      put_item-IsInOrder model include_usage encodes whole final r item rest e room v
  Step-IsInOrder whole final {r} v (gets item rest p o q) =
      on_item-IsInOrder model include_usage encodes whole final r item rest p o q
        (omega (arith, v.bounded, ap length q)) v
  Step-IsInOrder whole final {r} v (times_out p o) =
      time_out-IsInOrder model include_usage encodes whole final r p o v
  Step-IsInOrder whole final {r} v (sends m rest e) =
      send_one-IsInOrder model include_usage encodes whole final m rest r e v
  Step-IsInOrder whole final {r} v leaves =
      leave-IsInOrder model include_usage encodes whole final r v

  pub Reach-IsInOrder :
      {stream : Stream} {r : Relay}
      → Reach model include_usage encodes stream r
      → IsInOrder model include_usage encodes (whole_answer stream) (final_status (items stream)) r
  Reach-IsInOrder {stream} here = begin-IsInOrder stream
  Reach-IsInOrder {stream} (next r s) =
      Step-IsInOrder (whole_answer stream) (final_status (items stream)) (Reach-IsInOrder r) s

  -- Whatever the turns are, what has been sent at any time, keep-alive comments apart, is a start of
  -- the whole answer: the start of the response, the chunks in order as `_stream` shows them, and
  -- the event DONE or the error. At most 64 items are queued.
  pub Reach-sent :
      {stream : Stream} {r : Relay}
      → Reach model include_usage encodes stream r
      → ((rest : List Message) × (real r.sent ++ rest ≡ whole_answer stream))
        × (length r.queue ≤ max_queued)
  Reach-sent {stream} {r} h =
      let v = Reach-IsInOrder h in
      let (rest, e) =
        any_prefix model include_usage encodes (whole_answer stream) (final_status (items stream))
          r.phase _ r.outbox (r.queue ++ r.ahead) r.status v.order in
      (
        (
          real r.outbox ++ rest,
          sym (append_assoc (real r.sent) (real r.outbox) rest)
              ∙ ap (λ ms. ms ++ rest) (sym (real-append r.sent r.outbox))
              ∙ e,
        ),
        v.bounded,
      )

  -- When `_stream` has read the last item and its outbox is empty, all of the answer was sent,
  -- keep-alive comments apart, and the record has the status of the end: 200, or that of the error.
  pub Reach-answered :
      {stream : Stream} {r : Relay}
      → Reach model include_usage encodes stream r
      → r.phase ≡ closing
      → r.outbox ≡ []
      → (real r.sent ≡ whole_answer stream) × (r.status ≡ final_status (items stream))
  unfolding InOrder
  Reach-answered {stream} {r} h p o =
      let (all, status, _) =
        subst
          (λ ph.
            InOrder model include_usage encodes (whole_answer stream) (final_status (items stream))
              ph (real (r.sent ++ r.outbox)) r.outbox (r.queue ++ r.ahead) r.status)
          p (Reach-IsInOrder h).order in
      (ap real (sym (append-nil r.sent) ∙ ap (λ ms. r.sent ++ ms) (sym o)) ∙ all, status)
