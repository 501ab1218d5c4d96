-- ===== src/Gateway/Stream/Tests.antt =====
-- A streamed answer of one chunk, turn by turn, and the theorems about it.
use agent_lab.Common.{Bool, ◌≡◌, refl, true, false, [], ◌∷◌, ◌++◌, List, length, ◌≤◌, arith, inl}
use agent_lab.Json.{Fields, arr, obj, nil, cons, end, field}
use agent_lab.Gateway.Backend.{Stream, yields, returns, no_counts}
use agent_lab.Gateway.Stream.{
  Item, chunk, items, Message, start, keep_alive, done, last, Relay, max_queued, Reach, here, next,
  Steps, puts, gets, times_out, sends, reading, closing,
}
use agent_lab.Gateway.Stream.Order.{real, final_status}
use agent_lab.Gateway.Stream.Order.Reached.{whole_answer, Reach-sent, Reach-answered}
use agent_lab.Gateway.Stream.Order.Progress.{IsOver, Reach-finishes}

abbrev hello : Fields
hello = field "choices" (arr (cons (obj end) nil)) end

abbrev stream : Stream
stream = yields hello no_counts (returns no_counts)

abbrev encodes : Fields → Bool
encodes fs = true

abbrev waiting : Relay
waiting = record {
  ahead = chunk hello ∷ Item.end ∷ [];
  queue = [];
  outbox = [];
  sent = start ∷ keep_alive ∷ [];
  phase = reading;
  status = 200;
}

waiting-Reach : Reach "qwen" false encodes stream waiting
unfolding items
waiting-Reach =
    next (next (next here (sends start [] refl)) (times_out refl refl)) (sends keep_alive [] refl)

abbrev finished : Relay
finished = record {
  ahead = [];
  queue = [];
  outbox = [];
  sent = start ∷ keep_alive ∷ done ∷ last ∷ [];
  phase = closing;
  status = 200;
}

ended_waiting :
    Reach "qwen" false encodes (returns no_counts) (record waiting { ahead = Item.end ∷ [] })
unfolding items
ended_waiting =
    next (next (next here (sends start [] refl)) (times_out refl refl)) (sends keep_alive [] refl)

finished-Reach : Reach "qwen" false encodes (returns no_counts) finished
finished-Reach =
    next
      (next
        (next (next ended_waiting (puts Item.end [] refl (omega arith)))
          (gets Item.end [] refl refl refl))
        (sends done (last ∷ []) refl))
      (sends last [] refl)

Reach-sent_example :
    ((rest : List Message) × (real waiting.sent ++ rest ≡ whole_answer "qwen" false encodes stream))
    × (length waiting.queue ≤ max_queued)
Reach-sent_example = Reach-sent "qwen" false encodes waiting-Reach

Reach-answered_example :
    (real finished.sent ≡ whole_answer "qwen" false encodes (returns no_counts))
    × (finished.status ≡ final_status (items (returns no_counts)))
Reach-answered_example = Reach-answered "qwen" false encodes finished-Reach refl refl

Reach-finishes_example :
    (s : Relay) × Steps "qwen" false encodes waiting s × IsOver "qwen" false encodes s
Reach-finishes_example = Reach-finishes "qwen" false encodes waiting-Reach (inl refl)
