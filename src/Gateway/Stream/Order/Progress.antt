-- ===== src/Gateway/Stream/Order/Progress.antt =====
-- A streamed answer that is not cancelled can always be finished.
use agent_lab.Common.{
  ℕ, zero, suc, ◌+◌, ◌*◌, ◌≤◌, ◌<◌, ◌≡◌, refl, ◌∙◌, ap, subst, ◌⊎◌, inl, inr, Bool, true, false,
  not, ◌&&◌, List, [], ◌∷◌, ◌++◌, Option, none, some, String, if◌then◌else◌, length, length-append,
  some_inj, arith,
}
use agent_lab.Json.{Fields, get_value, truthy}
use agent_lab.Gateway.Chunks.Public.{public_chunk}
use agent_lab.Gateway.Backend.{Stream}
use agent_lab.Gateway.Stream.{
  Item, chunk, end, error, crash, Message, event, Relay, reading, closing, crashed, put_item,
  send_one, show, send_shown, on_item, Step, puts, gets, sends, Reach, next, Steps, stay, further,
}
use agent_lab.Gateway.Stream.Order.{IsWhole}
use agent_lab.Gateway.Stream.Order.Turns.{IsReading-view}
use agent_lab.Gateway.Stream.Order.Reached.{Reach-IsInOrder}

module _ (model : String) (include_usage : Bool) (encodes : Fields → Bool) where
  -- What is still to do: each turn but a time-out makes it smaller.
  abbrev measure : Relay → ℕ
  measure r = 4 * length r.ahead + 3 * length r.queue + length r.outbox

  -- Not cancelled, and no exception.
  abbrev pub IsAlive : Relay → Type 0
  IsAlive r = (r.phase ≡ reading) ⊎ (r.phase ≡ closing)

  -- Everything is sent, or an exception has ended the answer.
  abbrev pub IsOver : Relay → Type 0
  IsOver r = (r.phase ≡ crashed) ⊎ ((r.phase ≡ closing) × (r.outbox ≡ []))

  abbrev Finishes : Relay → Type 0
  Finishes first = (s : Relay) × Steps model include_usage encodes first s × IsOver s

  -- A state that can be come to, by turns from a first one.
  abbrev Comes : Stream → Relay → Relay → Type 0
  Comes stream first s =
      Reach model include_usage encodes stream s × Steps model include_usage encodes first s

  onward :
      {stream : Stream} {first r s : Relay}
      → Comes stream first r
      → Step model include_usage encodes r s
      → Comes stream first s
  onward (h, steps) turn = (next h turn, further steps turn)

  abbrev Again : Stream → Relay → ℕ → Type 0
  Again stream first n =
      (s : Relay) → Comes stream first s → IsAlive s → measure s < n → Finishes first

  show-length :
      (c : Fields) (ms : List Message)
      → show model include_usage encodes c ≡ some ms
      → length ms ≤ 1
  unfolding show
  show-length c ms e =
      go
        ((not (truthy (get_value "choices" c)) && truthy (get_value "usage" c))
          && not include_usage)
        (encodes (public_chunk model c)) e
    where
      go :
          (a b : Bool)
          → (if a then some [] else if b then some (event (public_chunk model c) ∷ []) else none)
            ≡ some ms
          → length ms ≤ 1
      go true b h = omega (arith, ap length (some_inj h))
      go false true h = omega (arith, ap length (some_inj h))
      go false false h = cc

  after_item :
      (stream : Stream) (first : Relay) (n : ℕ) (r : Relay) (item : Item) (rest : List Item)
      → Again stream first n
      → r.phase ≡ reading
      → r.outbox ≡ []
      → r.queue ≡ item ∷ rest
      → measure r < suc n
      → Comes stream first (on_item model include_usage encodes item (record r { queue = rest }))
      → Finishes first
  after_item stream first n r (chunk c) rest again p o q small h =
      go (show model include_usage encodes c) refl h
    where
      go :
          (shows : Option (List Message))
          → show model include_usage encodes c ≡ shows
          → Comes stream first
              (send_shown model include_usage encodes shows (record r { queue = rest }))
          → Finishes first
      go none e reached = (_, reached.1, inl refl)
      go (some ms) e reached =
          again _ reached (inl p)
            (omega (arith, small, ap length o, ap length q, show-length c ms e))
  after_item stream first n r end rest again p o q small h =
      again _ h (inr refl) (omega (arith, small, ap length o, ap length q))
  after_item stream first n r (error e) rest again p o q small h =
      again _ h (inr refl) (omega (arith, small, ap length o, ap length q))
  after_item stream first n r crash rest again p o q small h = (_, h.1, inl refl)

  -- A turn that can be made while `_stream` reads and has nothing to send.
  read_on :
      (stream : Stream) (first : Relay) (n : ℕ) (r : Relay)
      → Again stream first n
      → r.phase ≡ reading
      → r.outbox ≡ []
      → measure r < suc n
      → Comes stream first r
      → Finishes first
  unfolding IsWhole
  read_on stream first n r again p o small h = go r.queue r.ahead refl refl
    where
      go : (queue ahead : List Item) → r.queue ≡ queue → r.ahead ≡ ahead → Finishes first
      go (item ∷ rest) ahead q t =
          after_item stream first n r item rest again p o q small (onward h (gets item rest p o q))
      go [] (item ∷ rest) q t =
          again (put_item item rest r) (onward h (puts item rest t (omega (arith, ap length q))))
            (inl p) (omega (arith, small, ap length t, length-append r.queue (item ∷ [])))
      go [] [] q t =
          elim (subst IsWhole (ap (λ xs. xs ++ r.ahead) q ∙ t)
            (IsReading-view model include_usage encodes _ _ r p o
              (Reach-IsInOrder model include_usage encodes h.0)).left) [ ]

  finish_within : (stream : Stream) (first : Relay) (n : ℕ) → Again stream first n
  finish_within stream first zero r h alive small =
      let none_left : ⊥ = omega (arith, small) in elim none_left [ ]
  finish_within stream first (suc n) r h alive small =
      go r.outbox refl alive (finish_within stream first n)
    where
      go :
          (outbox : List Message)
          → r.outbox ≡ outbox
          → IsAlive r
          → Again stream first n
          → Finishes first
      go (m ∷ rest) o live again =
          again (send_one m rest r) (onward h (sends m rest o)) live
            (omega (arith, small, ap length o))
      go [] o (inr p) again = (r, h.1, inr (p, o))
      go [] o (inl p) again = read_on stream first n r again p o small h

  -- From every state that a streamed answer can come to, unless it was cancelled or an exception has
  -- ended it, turns lead to a state where it is over: the two coroutines never wait for each other.
  pub Reach-finishes :
      {stream : Stream} {r : Relay}
      → Reach model include_usage encodes stream r
      → IsAlive r
      → (s : Relay) × Steps model include_usage encodes r s × IsOver s
  Reach-finishes {stream} {r} h alive =
      finish_within stream r (suc (measure r)) r (h, stay) alive (omega arith)
