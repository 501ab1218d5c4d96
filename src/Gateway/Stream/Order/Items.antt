-- ===== src/Gateway/Stream/Order/Items.antt =====
-- The reading of an item keeps the order of what is sent.
use mathlib.Core.List.{append_assoc}
use agent_lab.Common.{
  ℕ, ◌≤◌, ◌≡◌, refl, ◌∙◌, sym, ap, subst, inl, Bool, List, [], ◌∷◌, ◌++◌, Option, none, some,
  String, length,
}
use agent_lab.Json.{Fields}
use agent_lab.Gateway.Backend.{api_error}
use agent_lab.Gateway.Stream.{
  Item, chunk, end, error, crash, Message, done, last, error_event, Relay, reading, max_queued,
  show, send_shown, on_item,
}
use agent_lab.Gateway.Stream.Order.{
  real, real-append, IsWhole, NoStart, final_status, and_then, shown, InOrder, IsInOrder,
}
use agent_lab.Gateway.Stream.Order.Turns.{IsReading-view, any_prefix, show-real}

module _ (model : String) (include_usage : Bool) (encodes : Fields → Bool) where
  module _ (whole : List Message) (final : ℕ) where
    -- The same, for the item that comes next.
    record IsNext (r : Relay) (item : Item) (left : List Item) : Type 0 where
      sent : real r.sent ++ shown model include_usage encodes (item ∷ left) ≡ whole
      whole_left : IsWhole (item ∷ left)
      final_status : final_status (item ∷ left) ≡ final
      status : r.status ≡ 200

    IsNext-view :
        (r : Relay) (item : Item) (rest : List Item)
        → r.phase ≡ reading
        → r.outbox ≡ []
        → r.queue ≡ item ∷ rest
        → IsInOrder model include_usage encodes whole final r
        → IsNext r item (rest ++ r.ahead)
    IsNext-view r item rest p o q v =
        let h = IsReading-view model include_usage encodes whole final r p o v in
        record {
          sent =
              subst
                (λ queue.
                  real r.sent ++ shown model include_usage encodes (queue ++ r.ahead) ≡ whole)
                q h.sent;
          whole_left = subst (λ queue. IsWhole (queue ++ r.ahead)) q h.left;
          final_status = subst (λ queue. final_status (queue ++ r.ahead) ≡ final) q h.final_status;
          status = h.status;
        }

    -- What a last item makes `_stream` send.
    closes :
        (r : Relay) (ms : List Message)
        → real r.sent ++ real ms ≡ whole
        → real (r.sent ++ ms) ≡ whole
    closes r ms e = real-append r.sent ms ∙ e

    on_chunk-IsInOrder :
        (r : Relay) (c : Fields) (rest : List Item)
        → r.phase ≡ reading
        → length rest ≤ max_queued
        → (before : List Message) × (real (r.sent ++ r.outbox) ++ before ≡ whole)
        → IsNext r (chunk c) (rest ++ r.ahead)
        → IsInOrder model include_usage encodes whole final
            (on_item model include_usage encodes (chunk c) (record r { queue = rest }))
    unfolding InOrder shown IsWhole final_status
    on_chunk-IsInOrder r c rest p room before h =
        go (show model include_usage encodes c) refl h.sent
      where
        go :
            (o : Option (List Message))
            → show model include_usage encodes c ≡ o
            → real r.sent
                ++ and_then model include_usage encodes o
                    (shown model include_usage encodes (rest ++ r.ahead))
              ≡ whole
            → IsInOrder model include_usage encodes whole final
                (send_shown model include_usage encodes o (record r { queue = rest }))
        go none e eq = record { bounded = room; order = before }
        go (some ms) e eq = record {
          bounded = room;
          order =
              subst
                (λ ph.
                  InOrder model include_usage encodes whole final ph (real (r.sent ++ ms)) ms
                    (rest ++ r.ahead) r.status)
                (sym p)
                (
                  ap (λ xs. xs ++ shown model include_usage encodes (rest ++ r.ahead))
                        (real-append r.sent ms
                          ∙ ap (λ xs. real r.sent ++ xs)
                              (show-real model include_usage encodes whole final c ms e))
                      ∙ append_assoc (real r.sent) ms
                          (shown model include_usage encodes (rest ++ r.ahead))
                      ∙ eq,
                  h.whole_left,
                  h.final_status,
                  inl h.status,
                );
        }

    final-last : (left : List Item) → IsWhole (end ∷ left) → final_status (end ∷ left) ≡ 200
    unfolding final_status IsWhole
    final-last [] h = refl
    final-last (item ∷ left) h = elim h [ ]

    pub on_item-IsInOrder :
        (r : Relay) (item : Item) (rest : List Item)
        → r.phase ≡ reading
        → r.outbox ≡ []
        → r.queue ≡ item ∷ rest
        → length rest ≤ max_queued
        → IsInOrder model include_usage encodes whole final r
        → IsInOrder model include_usage encodes whole final
            (on_item model include_usage encodes item (record r { queue = rest }))
    unfolding InOrder shown final_status real NoStart
    on_item-IsInOrder r (chunk c) rest p o q room v =
        on_chunk-IsInOrder r c rest p room
          (any_prefix model include_usage encodes whole final r.phase _ r.outbox
            (r.queue ++ r.ahead) r.status v.order)
          (IsNext-view r (chunk c) rest p o q v)
    on_item-IsInOrder r end rest p o q room v =
        let h = IsNext-view r end rest p o q v in
        record {
          bounded = room;
          order = (
            closes r (done ∷ last ∷ []) h.sent,
            h.status ∙ sym (final-last (rest ++ r.ahead) h.whole_left) ∙ h.final_status,
            tt,
          );
        }
    on_item-IsInOrder r (error e) rest p o q room v =
        let h = IsNext-view r (error e) rest p o q v in
        record {
          bounded = room;
          order = (closes r (error_event (api_error e) ∷ last ∷ []) h.sent, h.final_status, tt);
        }
    on_item-IsInOrder r crash rest p o q room v = record {
      bounded = room;
      order =
          any_prefix model include_usage encodes whole final r.phase _ r.outbox (r.queue ++ r.ahead)
            r.status v.order;
    }
