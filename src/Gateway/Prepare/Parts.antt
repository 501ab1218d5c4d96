-- ===== src/Gateway/Prepare/Parts.antt =====
-- What an accepted request is made of: the results of the steps of `prepare`.
use agent_lab.Common.{◌≡◌, refl, subst, false}
use agent_lab.Json.{Value, Fields, obj, get_value}
use agent_lab.Gateway.Library.{Library}
use agent_lab.Gateway.Messages.{messages}
use agent_lab.Gateway.Tools.{tools}
use agent_lab.Gateway.Options.{forward_options}
use agent_lab.Gateway.Effort.{Rules, Effort, effort, applied_args}
use agent_lab.Gateway.Result.{ok, >>=-eq-ok, past_reject, ok_inj}
use agent_lab.Gateway.Prepare.{
  Prepared, prepare, other_model, model_not_found, stream_flag, usage_flag, check_n, forward_base,
  requested_tokens, forward_last,
}

pub record Parts (lib : Library) (rules : Rules) (body : Fields) (p : Prepared) : Type 0 where
  pub options : Fields
  pub chosen : Effort
  pub same_model : other_model (get_value "model" body) rules ≡ false
  pub messages_ok : messages lib (get_value "messages" body) ≡ ok p.messages
  pub tools_ok : tools (get_value "tools" body) (get_value "tool_choice" body) ≡ ok p.tools
  pub stream_ok : stream_flag (get_value "stream" body) ≡ ok p.stream
  pub options_ok : forward_options lib body (forward_base p.messages p.tools) ≡ ok options
  pub requested_ok : requested_tokens body ≡ ok p.requested_max_tokens
  pub effort_ok : effort (get_value "reasoning_effort" body) rules ≡ ok chosen
  pub body_eq : p.body ≡ forward_last rules chosen options
  pub args_eq : p.template_args ≡ applied_args rules chosen
  pub thinking_eq : p.thinking ≡ chosen.thinking

module _ (lib : Library) (rules : Rules) where
  pub prepare-Parts :
      (v : Value) (p : Prepared)
      → prepare lib rules v ≡ ok p
      → (body : Fields) × (v ≡ obj body) × Parts lib rules body p
  unfolding prepare
  prepare-Parts (obj body) p h =
      let (same, h₀) =
        past_reject (other_model (get_value "model" body) rules) model_not_found _ h in
      let (ms, e₁, h₁) = >>=-eq-ok (messages lib (get_value "messages" body)) _ h₀ in
      let (ts, e₂, h₂) =
        >>=-eq-ok (tools (get_value "tools" body) (get_value "tool_choice" body)) _ h₁ in
      let (stream, e₃, h₃) = >>=-eq-ok (stream_flag (get_value "stream" body)) _ h₂ in
      let (usage, e₄, h₄) = >>=-eq-ok (usage_flag (get_value "stream_options" body)) _ h₃ in
      let (u, e₅, h₅) = >>=-eq-ok (check_n (get_value "n" body)) _ h₄ in
      let (options, e₆, h₆) = >>=-eq-ok (forward_options lib body (forward_base ms ts)) _ h₅ in
      let (requested, e₇, h₇) = >>=-eq-ok (requested_tokens body) _ h₆ in
      let (chosen, e₈, h₈) = >>=-eq-ok (effort (get_value "reasoning_effort" body) rules) _ h₇ in
      let made = ok_inj h₈ in
      (
        body,
        refl,
        subst (Parts lib rules body) made (record {
          options = options;
          chosen = chosen;
          same_model = same;
          messages_ok = e₁;
          tools_ok = e₂;
          stream_ok = e₃;
          options_ok = e₆;
          requested_ok = e₇;
          effort_ok = e₈;
          body_eq = refl;
          args_eq = refl;
          thinking_eq = refl;
        }),
      )
  prepare-Parts _ p h = cc
