-- ===== src/Gateway/Options/Ranges.antt =====
-- Every sampling value that reaches the backend is in the range of its field.
use agent_lab.Common.{
  ◌≡◌, refl, sym, ◌∙◌, subst, List, [], ◌∷◌, Option, none, some, String, str_eq, eq_iff, All,
  if◌then◌else◌, inl, inr, Bool-cases, some_inj,
}
use agent_lab.Common.Int.{ℤ}
use agent_lab.Json.{Value, Fields, field, get, get_value, put, set_default}
use agent_lab.Json.Laws.{get-put}
use agent_lab.Gateway.Library.{Library}
use agent_lab.Gateway.Result.{ok, >>=-eq-ok, ok_inj}
use agent_lab.Gateway.Options.{
  NumberField, number_fields, forward_number, forward_numbers, forward_top_k, forward_seed,
  forward_stop, forward_options,
}
use agent_lab.Gateway.Options.Numbers.{
  InRange, Sets, forward_number_lem, forward_top_k-Sets, forward_seed-Sets, forward_stop-Sets,
  forward_bias-Sets,
}

-- The range of a field, by its name.
abbrev range_in : List NumberField → String → Option (ℤ × ℤ)
range_in [] j = none
range_in (f ∷ fs) j = if str_eq f.name j then some (f.low, f.high) else range_in fs j

abbrev pub range_of : String → Option (ℤ × ℤ)
range_of = range_in number_fields

abbrev pub Allowed : String → Value → Type 0
Allowed k v = (low high : ℤ) → range_of k ≡ some (low, high) → InRange low high v

-- Whatever stands under the name of a number field is a number in its range.
abbrev pub InBounds : Fields → Type 0
InBounds m = (j : String) (v : Value) → get j m ≡ some v → Allowed j v

put-case :
    (k j : String) (v w : Value) (o : Option Value)
    → Allowed k v
    → (o ≡ some w → Allowed j w)
    → (if str_eq k j then some v else o) ≡ some w
    → Allowed j w
put-case k j v w o a h e = elim (Bool-cases (str_eq k j)) [
  | inl s ↦ subst (λ x. Allowed x w) ((eq_iff k j).0 s) (subst (Allowed k) (some_inj (rw s at e)) a)
  | inr s ↦ h (rw s at e)
]

pub InBounds-field :
    (k : String) (v : Value) (m : Fields) → Allowed k v → InBounds m → InBounds (field k v m)
unfolding get
InBounds-field k v m a h j w e = put-case k j v w (get j m) a (h j w) e

pub InBounds-put :
    (k : String) (v : Value) (m : Fields) → Allowed k v → InBounds m → InBounds (put k v m)
InBounds-put k v m a h j w e = put-case k j v w (get j m) a (h j w) (rw get-put at e)

pub InBounds-set_default :
    (k : String) (v : Value) (m : Fields) → Allowed k v → InBounds m → InBounds (set_default k v m)
unfolding set_default
InBounds-set_default k v m a h = go (get k m)
  where
    go : (o : Option Value) → InBounds (elim o [ none ↦ put k v m | some w ↦ m ])
    go none = InBounds-put k v m a h
    go (some w) = h

InBounds-Sets :
    (k : String) (m n : Fields) → range_of k ≡ none → Sets k m n → InBounds m → InBounds n
InBounds-Sets k m n r (inl e) h = subst InBounds (sym e) h
InBounds-Sets k m n r (inr (v, e)) h =
    subst InBounds (sym e) (InBounds-put k v m (λ low high s. cc (r, s)) h)

forward_numbers-InBounds :
    (fs : List NumberField) (body m n : Fields)
    → All (λ f. range_of f.name ≡ some (f.low, f.high)) fs
    → forward_numbers fs body m ≡ ok n
    → InBounds m
    → InBounds n
unfolding forward_numbers
forward_numbers-InBounds [] body m n i e h = subst InBounds (ok_inj e) h
forward_numbers-InBounds (f ∷ fs) body m n i e h =
    let v = get_value f.name body in
    let (l, e₁, e₂) = >>=-eq-ok (forward_number f v m) _ e in
    forward_numbers-InBounds fs body l n i.1 e₂ (elim (forward_number_lem f v m l e₁) [
      | inl s ↦ subst InBounds (sym s) h
      | inr (r, s) ↦ subst InBounds (sym s) (InBounds-put f.name v m (allowed v r) h)
    ])
  where
    allowed : (v : Value) → InRange f.low f.high v → Allowed f.name v
    allowed v r low high s = subst (λ (x : ℤ × ℤ). InRange x.0 x.1 v) (some_inj (sym i.0 ∙ s)) r

module _ (lib : Library) where
  pub forward_options-InBounds :
      (body m n : Fields) → forward_options lib body m ≡ ok n → InBounds m → InBounds n
  unfolding forward_options
  forward_options-InBounds body m n h bounds =
      let (a, ea, h₁) = >>=-eq-ok (forward_numbers number_fields body m) _ h in
      let (b, eb, h₂) = >>=-eq-ok (forward_top_k (get_value "top_k" body) a) _ h₁ in
      let (c, ec, h₃) = >>=-eq-ok (forward_seed (get_value "seed" body) b) _ h₂ in
      let (d, ed, h₄) = >>=-eq-ok (forward_stop (get_value "stop" body) c) _ h₃ in
      InBounds-Sets "logit_bias" d n refl (forward_bias-Sets lib _ d n h₄) (
        InBounds-Sets "stop" c d refl (forward_stop-Sets _ c d ed) (
          InBounds-Sets "seed" b c refl (forward_seed-Sets _ b c ec) (
            InBounds-Sets "top_k" a b refl (forward_top_k-Sets _ a b eb) (
              forward_numbers-InBounds number_fields body m a
                (refl, (refl, (refl, (refl, (refl, (refl, tt)))))) ea bounds))))
