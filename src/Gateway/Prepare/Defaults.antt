-- ===== src/Gateway/Prepare/Defaults.antt =====
-- The values that a request to the backend has where the client sets none.
use agent_lab.Common.{
  ◌≡◌, refl, sym, ◌∙◌, ap, subst, Bool, false, List, [], ◌∷◌, none, some, String, str_eq, eq_iff,
  Bool-cases, inl, inr, if◌then◌else◌,
}
use agent_lab.Json.{Value, Fields, null, int, float, obj, end, field, get, get_value}
use agent_lab.Json.Laws.{get-put, get-set_default}
use agent_lab.Gateway.Library.{Library}
use agent_lab.Gateway.Result.{Result, ok, >>=-eq-ok, ok_inj}
use agent_lab.Gateway.Effort.{Rules, Effort, Sampling}
use agent_lab.Gateway.Options.{
  NumberField, number_fields, forward_number, forward_numbers, forward_top_k, forward_seed,
  forward_stop, forward_bias, forward_options,
}
use agent_lab.Gateway.Options.Numbers.{
  Sets, forward_number-Sets, forward_top_k-Sets, forward_seed-Sets, forward_stop-Sets,
  forward_bias-Sets,
}
use agent_lab.Gateway.Prepare.{forward_last, forward_args, forward_defaults}

module _ (j : String) (body : Fields) (unset : get_value j body ≡ null) where
  -- A step that sets at most its own key, and none for a null, leaves a key that the client does not
  -- set.
  step-unset :
      (k : String) (forward : Value → Fields → Result Fields) (m n : Fields)
      → forward null m ≡ ok m
      → Sets k m n
      → forward (get_value k body) m ≡ ok n
      → get j n ≡ get j m
  step-unset k forward m n idle sets h = elim (Bool-cases (str_eq k j)) [
    | inl e ↦
        let no_value : get_value k body ≡ null =
          subst (λ i. get_value i body ≡ null) (sym ((eq_iff k j).0 e)) unset in
        ap (get j) (ok_inj (sym h ∙ ap (λ v. forward v m) no_value ∙ idle))
    | inr e ↦ other e sets
  ]
    where
      other : str_eq k j ≡ false → Sets k m n → get j n ≡ get j m
      other e (inl same) = ap (get j) same
      other e (inr (v, now)) =
          ap (get j) now ∙ get-put j k v m ∙ ap (λ (b : Bool). if b then some v else get j m) e

  numbers-unset :
      (fs : List NumberField) (m n : Fields) → forward_numbers fs body m ≡ ok n → get j n ≡ get j m
  unfolding forward_numbers forward_number
  numbers-unset [] m n h = ap (get j) (sym (ok_inj h))
  numbers-unset (f ∷ fs) m n h =
      let (l, e, h') = >>=-eq-ok (forward_number f (get_value f.name body) m) _ h in
      numbers-unset fs l n h'
      ∙ step-unset f.name (forward_number f) m l refl
          (forward_number-Sets f (get_value f.name body) m l e) e

  -- No option sets a key that the client does not set.
  pub forward_options-unset :
      (lib : Library) (m n : Fields) → forward_options lib body m ≡ ok n → get j n ≡ get j m
  unfolding forward_options forward_top_k forward_seed forward_stop forward_bias
  forward_options-unset lib m n h =
      let (a, ea, h₁) = >>=-eq-ok (forward_numbers number_fields body m) _ h in
      let (b, eb, h₂) = >>=-eq-ok (forward_top_k (get_value "top_k" body) a) _ h₁ in
      let (c, ec, h₃) = >>=-eq-ok (forward_seed (get_value "seed" body) b) _ h₂ in
      let (d, ed, h₄) = >>=-eq-ok (forward_stop (get_value "stop" body) c) _ h₃ in
      step-unset "logit_bias" (forward_bias lib) d n refl
        (forward_bias-Sets lib (get_value "logit_bias" body) d n h₄) h₄
      ∙ step-unset "stop" forward_stop c d refl (forward_stop-Sets (get_value "stop" body) c d ed)
          ed
      ∙ step-unset "seed" forward_seed b c refl (forward_seed-Sets (get_value "seed" body) b c ec)
          ec
      ∙ step-unset "top_k" forward_top_k a b refl
          (forward_top_k-Sets (get_value "top_k" body) a b eb) eb
      ∙ numbers-unset number_fields m a ea

-- The three recommended values of a mode.
abbrev pub sampling_of : Rules → Bool → Sampling
sampling_of rules thinking = if thinking then rules.thinking_sampling else rules.sampling

args-sampling :
    (j : String) (args m : Fields)
    → str_eq "chat_template_kwargs" j ≡ false
    → get j (forward_args args m) ≡ get j m
unfolding forward_args
args-sampling j end m e = refl
args-sampling j (field k v args) m e =
    get-put j "chat_template_kwargs" (obj (field k v args)) m
    ∙ ap (λ (b : Bool). if b then some (obj (field k v args)) else get j m) e

-- Where none is there yet, the recommended values of the mode are set.
pub forward_last-defaults :
    (rules : Rules) (e : Effort) (m : Fields)
    → get "temperature" m ≡ none
    → get "top_p" m ≡ none
    → get "top_k" m ≡ none
    → (get "temperature" (forward_last rules e m)
        ≡ some (float (sampling_of rules e.thinking).temperature))
      × (get "top_p" (forward_last rules e m) ≡ some (float (sampling_of rules e.thinking).top_p))
      × (get "top_k" (forward_last rules e m) ≡ some (int (sampling_of rules e.thinking).top_k))
unfolding forward_last forward_defaults
forward_last-defaults rules e m t p k =
    let t' = args-sampling "temperature" e.args m refl ∙ t in
    let p' = args-sampling "top_p" e.args m refl ∙ p in
    let k' = args-sampling "top_k" e.args m refl ∙ k in
    (
      simp (get-put, get-set_default, t'),
      simp (get-put, get-set_default, p'),
      simp (get-put, get-set_default, k'),
    )
