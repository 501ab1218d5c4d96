-- ===== src/Config/Profile/Applied.antt =====
-- How a profile governs a request: `rules_for` of src/agent_lab/gateway/server.py, taken through
-- `prepare` and `limit` of src/agent_lab/gateway/translate.py.
use agent_lab.Common.{
  ℕ, ◌≡◌, ◌≢◌, refl, sym, ◌∙◌, ap, subst, Bool, true, false, List, String, ◌⊎◌, inl, inr, Option,
  none, some, eq_iff, arith,
}
use agent_lab.Common.Int.{pos, ℤ, ◌≤ℤ◌, ◌-ℤ◌}
use agent_lab.Json.{Value, Items, Fields, null, bool, int, float, str, obj, get, get_value, put}
use agent_lab.Gateway.Library.{Library}
use agent_lab.Gateway.Result.{ok, raised}
use agent_lab.Gateway.Effort.{Sampling, thinking_switch}
use agent_lab.Gateway.Effort.Switch.{thinking_of, effort-thinking}
use agent_lab.Gateway.Limit.{IsSound, Honours, limit, context_length_exceeded}
use agent_lab.Gateway.Prepare.{Prepared, prepare, other_model, forward_base}
use agent_lab.Gateway.Prepare.Parts.{Parts, prepare-Parts}
use agent_lab.Gateway.Prepare.Accepted.{prepare-limit, prepare-switch}
use agent_lab.Gateway.Prepare.Defaults.{sampling_of, forward_options-unset, forward_last-defaults}
use agent_lab.Config.Profile.{Profile, rules_for}
use agent_lab.Config.Profile.Checked.{IsChecked}

-- The recommended values that the profile gives for a mode.
abbrev pub recommended : Profile → Bool → Sampling
recommended p true = record {
  temperature = p.backend.thinking_temperature;
  top_p = p.backend.thinking_top_p;
  top_k = p.backend.thinking_top_k;
}
recommended p false = record {
  temperature = p.backend.temperature;
  top_p = p.backend.top_p;
  top_k = p.backend.top_k;
}

sampling_of-rules_for :
    (p : Profile) (has_effort b : Bool) → sampling_of (rules_for p has_effort) b ≡ recommended p b
unfolding rules_for
sampling_of-rules_for p has_effort true = refl
sampling_of-rules_for p has_effort false = refl

other_variable :
    (p : Profile) (has_effort : Bool)
    → (rules_for p has_effort).effort_variable ≢ some thinking_switch
unfolding rules_for
other_variable p true = ground (arith, eq_iff "reasoning_effort" "enable_thinking")
other_variable p false = cc

limits-IsSound :
    (p : Profile) (has_effort : Bool) → IsChecked p → IsSound (rules_for p has_effort).limits
unfolding rules_for
limits-IsSound p has_effort c = record {
  positive = c.gateway.positive.2;
  below_output = c.agree.output;
  output_fits = c.agree.fits;
}

-- The token limit of a request: refused because the prompt leaves less than the profile's
-- `min_output_tokens` of its `max_context`, or within the profile's limits and what was asked for.
abbrev pub IsLimited : Profile → Bool → ℕ → Option ℤ → Type 0
IsLimited p has_effort prompt requested =
    let rules = rules_for p has_effort in
    ((limit prompt requested rules.limits ≡ raised context_length_exceeded)
      × (p.gateway.max_context -ℤ pos prompt ≤ℤ p.gateway.min_output_tokens -ℤ pos 1))
    ⊎ ((n : ℤ) × (limit prompt requested rules.limits ≡ ok n)
        × (pos 1 ≤ℤ n)
        × (n ≤ℤ p.gateway.max_context -ℤ pos prompt)
        × (n ≤ℤ p.gateway.max_output_tokens)
        × Honours requested rules.limits n)

-- A request that is not refused for its model names the profile's, or none.
same_model :
    (p : Profile) (has_effort : Bool) (v : Value)
    → other_model v (rules_for p has_effort) ≡ false
    → (v ≡ null) ⊎ (v ≡ str p.gateway.model_name)
unfolding other_model rules_for
same_model p has_effort null h = inl refl
same_model p has_effort (str s) h = inr (ap str (ground (arith, h, eq_iff s p.gateway.model_name)))
same_model p has_effort _ h = cc

pub record IsGoverned (p : Profile) (has_effort : Bool) (body : Fields) (prompt : ℕ) (r : Prepared)
    : Type 0 where
  pub model : (get_value "model" body ≡ null) ⊎ (get_value "model" body ≡ str p.gateway.model_name)
  -- Thinking is the profile's `enable_thinking`, unless the client sets an effort.
  pub thinking :
      r.thinking ≡ thinking_of p.backend.enable_thinking (get_value "reasoning_effort" body)
  -- The template gets the same switch.
  pub switch : get thinking_switch r.template_args ≡ some (bool r.thinking)
  pub temperature : get "temperature" r.body ≡ some (float (recommended p r.thinking).temperature)
  pub top_p : get "top_p" r.body ≡ some (float (recommended p r.thinking).top_p)
  pub top_k : get "top_k" r.body ≡ some (int (recommended p r.thinking).top_k)
  pub limited : IsLimited p has_effort prompt r.requested_max_tokens

obj_inj : {a b : Fields} → obj a ≡ obj b → a ≡ b
obj_inj h = cc

base-unset :
    (ms : List Fields) (ts : Option Items)
    → (get "temperature" (forward_base ms ts) ≡ none)
      × (get "top_p" (forward_base ms ts) ≡ none)
      × (get "top_k" (forward_base ms ts) ≡ none)
unfolding forward_base get put
base-unset ms none = (refl, refl, refl)
base-unset ms (some t) = (refl, refl, refl)

module _ (p : Profile) (has_effort : Bool) (lib : Library) (body : Fields) (r : Prepared) where
  -- A request accepted under the rules of a checked profile, in which the client sets no
  -- temperature, top_p and top_k, its prompt counted: it names the profile's model or none; it is
  -- answered with thinking where the profile enables it, or as the client's effort says; the
  -- arguments of the template switch thinking the same way; the backend gets the profile's
  -- temperature, top_p and top_k of that mode; and the token limit is within the profile's limits.
  pub prepare-rules_for :
      (prompt : ℕ)
      → IsChecked p
      → get_value "temperature" body ≡ null
      → get_value "top_p" body ≡ null
      → get_value "top_k" body ≡ null
      → prepare lib (rules_for p has_effort) (obj body) ≡ ok r
      → IsGoverned p has_effort body prompt r
  unfolding rules_for
  prepare-rules_for prompt checked t u k accepted =
      let rules = rules_for p has_effort in
      let (request, same, parts) = prepare-Parts lib rules (obj body) r accepted in
      let own : Parts lib rules body r =
        subst (λ b. Parts lib rules b r) (obj_inj (sym same)) parts in
      let e = own.chosen in
      let (t₀, u₀, k₀) = base-unset r.messages r.tools in
      let unset = λ (j : String) (h : get_value j body ≡ null).
        forward_options-unset j body h lib (forward_base r.messages r.tools) own.options
          own.options_ok in
      let (temperature, top_p, top_k) =
        forward_last-defaults rules e own.options (unset "temperature" t ∙ t₀)
          (unset "top_p" u ∙ u₀) (unset "top_k" k ∙ k₀) in
      let mode : sampling_of rules e.thinking ≡ recommended p r.thinking =
        sampling_of-rules_for p has_effort e.thinking ∙ ap (recommended p) (sym own.thinking_eq) in
      let sent = λ (j : String). ap (get j) own.body_eq in
      record {
        model = same_model p has_effort (get_value "model" body) own.same_model;
        thinking =
            own.thinking_eq
            ∙ effort-thinking (get_value "reasoning_effort" body) rules e own.effort_ok;
        switch = prepare-switch lib rules (obj body) r accepted (other_variable p has_effort);
        temperature =
            sent "temperature"
            ∙ temperature
            ∙ ap (λ (s : Sampling). some (float s.temperature)) mode;
        top_p = sent "top_p" ∙ top_p ∙ ap (λ (s : Sampling). some (float s.top_p)) mode;
        top_k = sent "top_k" ∙ top_k ∙ ap (λ (s : Sampling). some (int s.top_k)) mode;
        limited =
            prepare-limit lib rules (obj body) r accepted prompt
              (limits-IsSound p has_effort checked);
      }
