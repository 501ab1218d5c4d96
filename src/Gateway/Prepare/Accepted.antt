-- ===== src/Gateway/Prepare/Accepted.antt =====
-- What holds of the values in an accepted request.
use agent_lab.Common.{
  ◌≡◌, ◌≢◌, refl, sym, ◌∙◌, subst, Bool, true, false, List, Option, none, some, String, arith,
  if◌then◌else◌, ◌⊎◌, ℕ, some_inj,
}
use agent_lab.Common.Int.{ℤ, pos, ◌≤ℤ◌, ltb_ℤ, ◌-ℤ◌}
use agent_lab.Json.{
  Value, Items, Fields, null, bool, int, float, str, arr, end, field, get, get_value,
}
use agent_lab.Gateway.Library.{Library}
use agent_lab.Gateway.Result.{ok, raised, past_reject, bad_field, named, ok_inj, >>=-eq-ok}
use agent_lab.Gateway.Effort.{Rules, Sampling, thinking_switch}
use agent_lab.Gateway.Effort.Switch.{effort-switch}
use agent_lab.Gateway.Limit.{
  IsPositive, IsSound, Honours, limit, limit_cases, context_length_exceeded,
}
use agent_lab.Gateway.Options.Numbers.{InRange}
use agent_lab.Gateway.Options.Ranges.{
  Allowed, InBounds, range_of, InBounds-field, InBounds-put, InBounds-set_default,
  forward_options-InBounds,
}
use agent_lab.Gateway.Prepare.{
  Prepared, prepare, forward_base, forward_last, forward_args, forward_defaults, to_items,
  requested_tokens, token_limit,
}
use agent_lab.Gateway.Prepare.Parts.{prepare-Parts}

-- The recommended values of a mode are in range themselves (`parse_profile`).
abbrev pub IsInRange : Sampling → Type 0
IsInRange s =
    InRange (pos 0) (pos 2) (float s.temperature) × InRange (pos 0) (pos 1) (float s.top_p)

-- A key that is no number field takes any value.
free : (k : String) (v : Value) → range_of k ≡ none → Allowed k v
free k v e low high s = cc

InBounds-end : InBounds end
unfolding get
InBounds-end j v e = cc

forward_base-InBounds : (ms : List Fields) (ts : Option Items) → InBounds (forward_base ms ts)
unfolding forward_base
forward_base-InBounds ms ts = go ts
  where
    base : InBounds (field "model" (str "default_model") (field "messages" (arr (to_items ms)) end))
    base =
        InBounds-field "model" _ _ (free "model" _ refl)
          (InBounds-field "messages" _ _ (free "messages" _ refl) InBounds-end)

    go : (o : Option Items) → InBounds (forward_base ms o)
    go none = base
    go (some t) = InBounds-put "tools" (arr t) _ (free "tools" _ refl) base

forward_args-InBounds : (args m : Fields) → InBounds m → InBounds (forward_args args m)
unfolding forward_args
forward_args-InBounds end m h = h
forward_args-InBounds (field k v args) m h =
    InBounds-put "chat_template_kwargs" _ m (free "chat_template_kwargs" _ refl) h

within : (k : String) (a b : ℤ) (v : Value) → range_of k ≡ some (a, b) → InRange a b v → Allowed k v
within k a b v e r low high s = subst (λ (x : ℤ × ℤ). InRange x.0 x.1 v) (some_inj (sym e ∙ s)) r

forward_defaults-InBounds :
    (s : Sampling) (m : Fields) → IsInRange s → InBounds m → InBounds (forward_defaults s m)
unfolding forward_defaults
forward_defaults-InBounds s m r h = InBounds-set_default "top_k" _ _ (free "top_k" _ refl) (
    InBounds-set_default "top_p" _ _ (within "top_p" (pos 0) (pos 1) _ refl r.1)
      (InBounds-set_default "temperature" _ _ (within "temperature" (pos 0) (pos 2) _ refl r.0) h))

chosen-IsInRange :
    (b : Bool) (rules : Rules)
    → IsInRange rules.sampling
    → IsInRange rules.thinking_sampling
    → IsInRange (if b then rules.thinking_sampling else rules.sampling)
chosen-IsInRange true rules plain thinking = thinking
chosen-IsInRange false rules plain thinking = plain

token_limit-IsPositive :
    (name : String) (v : Value) (r : Option ℤ) → token_limit name v ≡ ok r → IsPositive r
unfolding token_limit
token_limit-IsPositive name null r h = subst IsPositive (ok_inj h) tt
token_limit-IsPositive name (int n) r h =
    let (low, e) = past_reject (ltb_ℤ n (pos 1)) (bad_field (named name)) (ok (some n)) h in
    subst IsPositive (ok_inj e) (ground (arith, low))
token_limit-IsPositive name _ r h = cc

token_limit-int :
    (name : String) (n : ℤ) (c : Option ℤ) → token_limit name (int n) ≡ ok c → c ≡ some n
unfolding token_limit
token_limit-int name n c h =
    sym (ok_inj (past_reject (ltb_ℤ n (pos 1)) (bad_field (named name)) (ok (some n)) h).1)

-- The number of tokens that a request asks for is positive, where it asks; and the field
-- `max_completion_tokens` wins.
pub requested_tokens_lem :
    (body : Fields) (r : Option ℤ)
    → requested_tokens body ≡ ok r
    → IsPositive r × ((n : ℤ) → get_value "max_completion_tokens" body ≡ int n → r ≡ some n)
unfolding requested_tokens
requested_tokens_lem body r h =
    let first = get_value "max_completion_tokens" body in
    let (c, e, h') = >>=-eq-ok (token_limit "max_completion_tokens" first) _ h in go c e h'
  where
    go :
        (c : Option ℤ)
        → token_limit "max_completion_tokens" (get_value "max_completion_tokens" body) ≡ ok c
        → (elim c [
          | none ↦ token_limit "max_tokens" (get_value "max_tokens" body)
          | some n ↦ ok (some n)
        ])
          ≡ ok r
        → IsPositive r × ((n : ℤ) → get_value "max_completion_tokens" body ≡ int n → r ≡ some n)
    go none e h' = (
      token_limit-IsPositive "max_tokens" (get_value "max_tokens" body) r h',
      λ n q. cc (token_limit-int "max_completion_tokens" n none (rw q at e)),
    )
    go (some k) e h' = (
      subst IsPositive (ok_inj h') (
          token_limit-IsPositive "max_completion_tokens" (get_value "max_completion_tokens" body)
            (some k) e),
      λ n q. sym (ok_inj h') ∙ token_limit-int "max_completion_tokens" n (some k) (rw q at e),
    )

module _ (lib : Library) (rules : Rules) (v : Value) (p : Prepared)
    (accepted : prepare lib rules v ≡ ok p) where
  -- Where the recommended values are in range, every temperature, top_p, min_p and penalty that
  -- reaches the backend is a finite number in the range of its field.
  pub prepare-InBounds :
      IsInRange rules.sampling → IsInRange rules.thinking_sampling → InBounds p.body
  prepare-InBounds plain thinking =
      let (body, _, parts) = prepare-Parts lib rules v p accepted in
      rw parts.body_eq (
        unfold forward_last in
        InBounds-put "stream_options" _ _ (free "stream_options" _ refl) (
          InBounds-put "stream" _ _ (free "stream" _ refl) (
            forward_defaults-InBounds _ _
              (chosen-IsInRange parts.chosen.thinking rules plain thinking)
              (forward_args-InBounds parts.chosen.args _ (
                forward_options-InBounds lib body (forward_base p.messages p.tools) parts.options
                  parts.options_ok (forward_base-InBounds p.messages p.tools))))))

  pub prepare-limit :
      (prompt : ℕ)
      → IsSound rules.limits
      → ((limit prompt p.requested_max_tokens rules.limits ≡ raised context_length_exceeded)
          × (rules.limits.max_context -ℤ pos prompt ≤ℤ rules.limits.min_output_tokens -ℤ pos 1))
        ⊎ ((n : ℤ) × (limit prompt p.requested_max_tokens rules.limits ≡ ok n)
            × (pos 1 ≤ℤ n)
            × (n ≤ℤ rules.limits.max_context -ℤ pos prompt)
            × (n ≤ℤ rules.limits.max_output_tokens)
            × Honours p.requested_max_tokens rules.limits n)
  prepare-limit prompt sound =
      let (body, _, parts) = prepare-Parts lib rules v p accepted in
      limit_cases prompt p.requested_max_tokens rules.limits sound
        (requested_tokens_lem body p.requested_max_tokens parts.requested_ok).0

  -- Unless the template calls its effort argument `enable_thinking`, the arguments with which the
  -- prompt is counted switch thinking on exactly where the request is answered with thinking.
  pub prepare-switch :
      rules.effort_variable ≢ some thinking_switch
      → get thinking_switch p.template_args ≡ some (bool p.thinking)
  prepare-switch n =
      let (body, _, parts) = prepare-Parts lib rules v p accepted in
      rw (parts.args_eq, parts.thinking_eq)
        (effort-switch (get_value "reasoning_effort" body) rules parts.chosen n parts.effort_ok)
