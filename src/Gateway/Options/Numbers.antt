-- ===== src/Gateway/Options/Numbers.antt =====
-- What the sampling and stopping fields do to the request for the backend: each sets its own key, or
-- none, and what a number field sets is in range.
use agent_lab.Common.{
  ◌≡◌, refl, sym, subst, true, not, ◌||◌, List, [], ◌∷◌, String, arith, All, ◌⊎◌, inl, inr,
}
use agent_lab.Common.Int.{ℤ}
use agent_lab.Json.{
  Value, Items, Fields, null, str, arr, obj, nil, cons, end, field, get_value, put,
}
use agent_lab.Json.SameBut.{contains, SameBut, SameBut-put, SameBut-refl, SameBut-trans}
use agent_lab.Gateway.Library.{Library}
use agent_lab.Gateway.Number.{is_int, is_number, between}
use agent_lab.Gateway.Result.{ok, >>=-eq-ok, ok_inj, past_reject, bad_field, named}
use agent_lab.Gateway.Options.{
  NumberField, number_fields, forward_number, forward_numbers, forward_top_k, forward_seed,
  forward_stop, forward_stops, forward_bias, forward_biases, all_biases, is_negative, all_texts,
  forward_options,
}

-- One key may be set, and no other changes.
abbrev pub Sets : String → Fields → Fields → Type 0
Sets k m n = (n ≡ m) ⊎ ((v : Value) × (n ≡ put k v m))

Sets-SameBut :
    (ks : List String) (k : String) (m n : Fields)
    → contains ks k ≡ true
    → Sets k m n
    → SameBut ks m n
Sets-SameBut ks k m n i (inl e) = subst (SameBut ks m) (sym e) (SameBut-refl ks m)
Sets-SameBut ks k m n i (inr (v, e)) = subst (SameBut ks m) (sym e) (SameBut-put ks k v m i)

-- A value in range for a field, or no value of a number at all.
abbrev pub InRange : ℤ → ℤ → Value → Type 0
InRange low high v = (is_number v ≡ ok true) × (between low high v ≡ true)

pub forward_number_lem :
    (f : NumberField) (v : Value) (m n : Fields)
    → forward_number f v m ≡ ok n
    → (n ≡ m) ⊎ ((InRange f.low f.high v) × (n ≡ put f.name v m))
unfolding forward_number
forward_number_lem f null m n h = inl (sym (ok_inj h))
forward_number_lem f v m n h =
    let (finite, e, h₁) = >>=-eq-ok (is_number v) _ h in
    let (fine, h₂) =
      past_reject (not finite || not (between f.low f.high v)) (bad_field (named f.name))
        (ok (put f.name v m)) h₁ in
    inr ((ground (arith, e, fine), ground (arith, fine)), sym (ok_inj h₂))

pub forward_number-Sets :
    (f : NumberField) (v : Value) (m n : Fields) → forward_number f v m ≡ ok n → Sets f.name m n
forward_number-Sets f v m n h = elim (forward_number_lem f v m n h) [
  | inl e ↦ inl e
  | inr (_, e) ↦ inr (v, e)
]

forward_numbers-SameBut :
    (ks : List String) (fs : List NumberField) (body m n : Fields)
    → All (λ f. contains ks f.name ≡ true) fs
    → forward_numbers fs body m ≡ ok n
    → SameBut ks m n
unfolding forward_numbers
forward_numbers-SameBut ks [] body m n i h = subst (SameBut ks m) (ok_inj h) (SameBut-refl ks m)
forward_numbers-SameBut ks (f ∷ fs) body m n i h =
    let (l, e, h') = >>=-eq-ok (forward_number f (get_value f.name body) m) _ h in
    SameBut-trans ks m l n
      (Sets-SameBut ks f.name m l i.0 (forward_number-Sets f (get_value f.name body) m l e))
      (forward_numbers-SameBut ks fs body l n i.1 h')

pub forward_top_k-Sets : (v : Value) (m n : Fields) → forward_top_k v m ≡ ok n → Sets "top_k" m n
unfolding forward_top_k
forward_top_k-Sets null m n h = inl (sym (ok_inj h))
forward_top_k-Sets v m n h = inr (
  v,
  sym (
      ok_inj
        (past_reject (not (is_int v) || is_negative v) (bad_field (named "top_k"))
          (ok (put "top_k" v m)) h).1),
)

pub forward_seed-Sets : (v : Value) (m n : Fields) → forward_seed v m ≡ ok n → Sets "seed" m n
unfolding forward_seed
forward_seed-Sets null m n h = inl (sym (ok_inj h))
forward_seed-Sets v m n h = inr (
  v,
  sym (ok_inj (past_reject (not (is_int v)) (bad_field (named "seed")) (ok (put "seed" v m)) h).1),
)

forward_stops-Sets : (vs : Items) (m n : Fields) → forward_stops vs m ≡ ok n → Sets "stop" m n
unfolding forward_stops
forward_stops-Sets nil m n h = inl (sym (ok_inj h))
forward_stops-Sets (cons v vs) m n h = inr (
  arr (cons v vs),
  sym (
      ok_inj
        (past_reject (not (all_texts (cons v vs))) (bad_field (named "stop"))
          (ok (put "stop" (arr (cons v vs)) m)) h).1),
)

pub forward_stop-Sets : (v : Value) (m n : Fields) → forward_stop v m ≡ ok n → Sets "stop" m n
unfolding forward_stop
forward_stop-Sets null m n h = inl (sym (ok_inj h))
forward_stop-Sets (str s) m n h = forward_stops-Sets (cons (str s) nil) m n h
forward_stop-Sets (arr vs) m n h = forward_stops-Sets vs m n h
forward_stop-Sets _ m n h = cc

abbrev pub option_keys : List String
option_keys =
    "temperature" ∷ "top_p" ∷ "min_p" ∷ "presence_penalty" ∷ "frequency_penalty"
    ∷ "repetition_penalty" ∷ "top_k" ∷ "seed" ∷ "stop" ∷ "logit_bias" ∷ []

module _ (lib : Library) where
  forward_biases-Sets : (b m n : Fields) → forward_biases lib b m ≡ ok n → Sets "logit_bias" m n
  unfolding forward_biases
  forward_biases-Sets end m n h = inl (sym (ok_inj h))
  forward_biases-Sets (field k v b) m n h =
      let (fine, _, h₁) = >>=-eq-ok (all_biases lib (field k v b)) _ h in
      inr (
        obj (field k v b),
        sym (
            ok_inj
              (past_reject (not fine) (bad_field (named "logit_bias"))
                (ok (put "logit_bias" (obj (field k v b)) m)) h₁).1),
      )

  pub forward_bias-Sets :
      (v : Value) (m n : Fields) → forward_bias lib v m ≡ ok n → Sets "logit_bias" m n
  unfolding forward_bias
  forward_bias-Sets null m n h = inl (sym (ok_inj h))
  forward_bias-Sets (obj b) m n h = forward_biases-Sets b m n h
  forward_bias-Sets _ m n h = cc

  pub forward_options-SameBut :
      (body m n : Fields) → forward_options lib body m ≡ ok n → SameBut option_keys m n
  unfolding forward_options
  forward_options-SameBut body m n h =
      let (a, ea, h₁) = >>=-eq-ok (forward_numbers number_fields body m) _ h in
      let (b, eb, h₂) = >>=-eq-ok (forward_top_k (get_value "top_k" body) a) _ h₁ in
      let (c, ec, h₃) = >>=-eq-ok (forward_seed (get_value "seed" body) b) _ h₂ in
      let (d, ed, h₄) = >>=-eq-ok (forward_stop (get_value "stop" body) c) _ h₃ in
      let trans = SameBut-trans option_keys in
      let sets = Sets-SameBut option_keys in
      trans m a n
        (forward_numbers-SameBut option_keys number_fields body m a
          (refl, (refl, (refl, (refl, (refl, (refl, tt)))))) ea)
        (trans a b n (sets "top_k" a b refl (forward_top_k-Sets _ a b eb)) (
          trans b c n (sets "seed" b c refl (forward_seed-Sets _ b c ec)) (
            trans c d n (sets "stop" c d refl (forward_stop-Sets _ c d ed))
              (sets "logit_bias" d n refl (forward_bias-Sets _ d n h₄)))))
