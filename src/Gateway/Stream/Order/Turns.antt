-- ===== src/Gateway/Stream/Order/Turns.antt =====
-- Each turn of a streamed answer but the reading of an item keeps the order of what is sent.
use mathlib.Core.List.{append-nil, append_assoc}
use agent_lab.Common.{
  ℕ, ◌<◌, ◌≡◌, refl, ◌∙◌, sym, ap, subst, inl, inr, Bool, true, false, not, ◌&&◌, List, [], ◌∷◌,
  ◌++◌, none, some, String, if◌then◌else◌, length, length-append, some_inj, arith,
}
use agent_lab.Json.{Fields, get_value, truthy}
use agent_lab.Gateway.Chunks.Public.{public_chunk}
use agent_lab.Gateway.Stream.{
  Item, Message, start, keep_alive, event, Relay, Phase, reading, closing, crashed, cancelled,
  max_queued, put_item, status_after, send_one, time_out, leave, show,
}
use agent_lab.Gateway.Stream.Order.{
  real, real-append, IsWhole, NoStart, final_status, shown, InOrder, IsInOrder,
}

module _ (model : String) (include_usage : Bool) (encodes : Fields → Bool) where
  module _ (whole : List Message) (final : ℕ) where
    pub put_item-IsInOrder :
        (r : Relay) (item : Item) (rest : List Item)
        → r.ahead ≡ item ∷ rest
        → length r.queue < max_queued
        → IsInOrder model include_usage encodes whole final r
        → IsInOrder model include_usage encodes whole final (put_item item rest r)
    put_item-IsInOrder r item rest e room v = record {
      bounded = omega (arith, room, length-append r.queue (item ∷ []));
      order =
          subst
            (λ left.
              InOrder model include_usage encodes whole final r.phase (real (r.sent ++ r.outbox))
                r.outbox left r.status)
            (ap (λ t. r.queue ++ t) e ∙ sym (append_assoc r.queue (item ∷ []) rest)) v.order;
    }

    -- Where the next item is awaited.
    pub record IsReading (r : Relay) : Type 0 where
      pub sent : real r.sent ++ shown model include_usage encodes (r.queue ++ r.ahead) ≡ whole
      pub left : IsWhole (r.queue ++ r.ahead)
      pub final_status : final_status (r.queue ++ r.ahead) ≡ final
      pub status : r.status ≡ 200

    pub IsReading-view :
        (r : Relay)
        → r.phase ≡ reading
        → r.outbox ≡ []
        → IsInOrder model include_usage encodes whole final r
        → IsReading r
    unfolding InOrder
    IsReading-view r p o v =
        let (e, l, f, s) =
          subst
            (λ (ms : List Message).
              InOrder model include_usage encodes whole final reading (real (r.sent ++ ms)) ms
                (r.queue ++ r.ahead) r.status)
            o
            (subst
              (λ ph.
                InOrder model include_usage encodes whole final ph (real (r.sent ++ r.outbox))
                  r.outbox (r.queue ++ r.ahead) r.status)
              p v.order) in
        record {
          sent =
              ap (λ ms. real ms ++ shown model include_usage encodes (r.queue ++ r.ahead))
                (sym (append-nil r.sent))
              ∙ e;
          left = l;
          final_status = f;
          status = elim s [ inl h ↦ h | inr h ↦ cc ];
        }

    pub time_out-IsInOrder :
        (r : Relay)
        → r.phase ≡ reading
        → r.outbox ≡ []
        → IsInOrder model include_usage encodes whole final r
        → IsInOrder model include_usage encodes whole final (time_out r)
    unfolding InOrder real
    time_out-IsInOrder r p o v =
        let h = IsReading-view r p o v in
        record {
          bounded = v.bounded;
          order =
              subst
                (λ ph.
                  InOrder model include_usage encodes whole final ph
                    (real (r.sent ++ keep_alive ∷ [])) (keep_alive ∷ []) (r.queue ++ r.ahead)
                    r.status)
                (sym p)
                (
                  ap (λ ms. ms ++ shown model include_usage encodes (r.queue ++ r.ahead))
                        (real-append r.sent (keep_alive ∷ []) ∙ append-nil (real r.sent))
                      ∙ h.sent,
                  h.left,
                  h.final_status,
                  inl h.status,
                );
        }

    pub any_prefix :
        (ph : Phase) (ms outbox : List Message) (left : List Item) (status : ℕ)
        → InOrder model include_usage encodes whole final ph ms outbox left status
        → (rest : List Message) × (ms ++ rest ≡ whole)
    unfolding InOrder
    any_prefix reading ms outbox left status h = (shown model include_usage encodes left, h.0)
    any_prefix closing ms outbox left status h = ([], append-nil ms ∙ h.0)
    any_prefix crashed ms outbox left status h = h
    any_prefix cancelled ms outbox left status h = h

    status_stays :
        (m : Message) (rest : List Message) (status : ℕ)
        → NoStart (m ∷ rest)
        → (status_after m status ≡ status) × NoStart rest
    unfolding NoStart
    status_stays start rest status h = elim h [ ]
    status_stays _ rest status h = (refl, h)

    status_kept : (m : Message) (status : ℕ) → status ≡ 200 → status_after m status ≡ 200
    status_kept start status h = refl
    status_kept _ status h = h

    InOrder-sent :
        (ph : Phase) (m : Message) (ms rest : List Message) (left : List Item) (status : ℕ)
        → InOrder model include_usage encodes whole final ph ms (m ∷ rest) left status
        → InOrder model include_usage encodes whole final ph ms rest left (status_after m status)
    unfolding InOrder
    InOrder-sent reading m ms rest left status (e, w, f, inl s) =
        (e, w, f, inl (status_kept m status s))
    InOrder-sent reading m ms rest left status (e, w, f, inr s) =
        let is_start : start ≡ m = cc in
        (e, w, f, inl (subst (λ k. status_after k status ≡ 200) is_start refl))
    InOrder-sent closing m ms rest left status (e, s, n) =
        let (kept, n') = status_stays m rest status n in (e, kept ∙ s, n')
    InOrder-sent crashed m ms rest left status h = h
    InOrder-sent cancelled m ms rest left status h = h

    pub send_one-IsInOrder :
        (m : Message) (rest : List Message) (r : Relay)
        → r.outbox ≡ m ∷ rest
        → IsInOrder model include_usage encodes whole final r
        → IsInOrder model include_usage encodes whole final (send_one m rest r)
    send_one-IsInOrder m rest r e v = record {
      bounded = v.bounded;
      order =
          subst
            (λ ms.
              InOrder model include_usage encodes whole final r.phase (real ms) rest
                (r.queue ++ r.ahead) (status_after m r.status))
            (sym (append_assoc r.sent (m ∷ []) rest))
            (InOrder-sent r.phase m (real (r.sent ++ m ∷ rest)) rest (r.queue ++ r.ahead) r.status (
              subst
                (λ ms.
                  InOrder model include_usage encodes whole final r.phase (real (r.sent ++ ms)) ms
                    (r.queue ++ r.ahead) r.status)
                e v.order));
    }

    pub leave-IsInOrder :
        (r : Relay)
        → IsInOrder model include_usage encodes whole final r
        → IsInOrder model include_usage encodes whole final (leave r)
    unfolding InOrder
    leave-IsInOrder r v =
        let (rest, e) =
          any_prefix r.phase (real (r.sent ++ r.outbox)) r.outbox (r.queue ++ r.ahead) r.status
            v.order in
        record {
          bounded = v.bounded;
          order = (
            real r.outbox ++ rest,
            sym (append_assoc (real (r.sent ++ [])) (real r.outbox) rest)
                ∙ ap (λ ms. (real ms ++ real r.outbox) ++ rest) (append-nil r.sent)
                ∙ ap (λ ms. ms ++ rest) (sym (real-append r.sent r.outbox))
                ∙ e,
          );
        }

    pub show-real :
        (c : Fields) (ms : List Message)
        → show model include_usage encodes c ≡ some ms
        → real ms ≡ ms
    unfolding show real
    show-real c ms e =
        go
          ((not (truthy (get_value "choices" c)) && truthy (get_value "usage" c))
            && not include_usage)
          (encodes (public_chunk model c)) e
      where
        go :
            (a b : Bool)
            → (if a then some [] else if b then some (event (public_chunk model c) ∷ []) else none)
              ≡ some ms
            → real ms ≡ ms
        go true b h = ap real (sym (some_inj h)) ∙ some_inj h
        go false true h = ap real (sym (some_inj h)) ∙ some_inj h
        go false false h = cc
