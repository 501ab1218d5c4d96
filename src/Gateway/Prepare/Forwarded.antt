-- ===== src/Gateway/Prepare/Forwarded.antt =====
-- What reaches the backend: the keys that `prepare` sets, and no others.
use agent_lab.Common.{
  ◌≡◌, refl, ◌∙◌, true, false, List, [], ◌∷◌, ◌++◌, Option, none, some, String, if◌then◌else◌,
}
use agent_lab.Json.{Value, Items, Fields, bool, int, float, str, arr, obj, end, field, get}
use agent_lab.Json.Laws.{get-put}
use agent_lab.Json.SameBut.{
  contains, not_contains-append, key-ne, SameBut, SameBut-put, SameBut-refl, SameBut-trans,
  SameBut-set_default,
}
use agent_lab.Gateway.Library.{Library}
use agent_lab.Gateway.Result.{ok}
use agent_lab.Gateway.Effort.{Rules, Effort, Sampling}
use agent_lab.Gateway.Options.Numbers.{option_keys, forward_options-SameBut}
use agent_lab.Gateway.Prepare.{
  Prepared, prepare, forward_base, forward_last, forward_args, forward_defaults, to_items,
}
use agent_lab.Gateway.Prepare.Parts.{prepare-Parts}

abbrev base_keys : List String
base_keys = "model" ∷ "messages" ∷ "tools" ∷ []

abbrev last_keys : List String
last_keys =
    "chat_template_kwargs" ∷ "temperature" ∷ "top_p" ∷ "top_k" ∷ "stream" ∷ "stream_options" ∷ []

bare-SameBut : (ms : List Fields) → SameBut base_keys end (forward_base ms none)
unfolding forward_base get
bare-SameBut ms j o =
    rw (key-ne base_keys "model" j refl o) (rw (key-ne base_keys "messages" j refl o))

forward_base-SameBut :
    (ms : List Fields) (ts : Option Items) → SameBut base_keys end (forward_base ms ts)
unfolding forward_base get
forward_base-SameBut ms none = bare-SameBut ms
forward_base-SameBut ms (some t) =
    SameBut-trans base_keys end (forward_base ms none) (forward_base ms (some t)) (bare-SameBut ms)
      (SameBut-put base_keys "tools" (arr t) (forward_base ms none) refl)

forward_args-SameBut : (args m : Fields) → SameBut last_keys m (forward_args args m)
unfolding forward_args
forward_args-SameBut end m = SameBut-refl last_keys m
forward_args-SameBut (field k v args) m =
    SameBut-put last_keys "chat_template_kwargs" (obj (field k v args)) m refl

forward_defaults-SameBut : (s : Sampling) (m : Fields) → SameBut last_keys m (forward_defaults s m)
unfolding forward_defaults
forward_defaults-SameBut s m =
    let trans = SameBut-trans last_keys in
    trans m _ _ (SameBut-set_default last_keys "temperature" (float s.temperature) m refl) (
      trans _ _ _ (SameBut-set_default last_keys "top_p" (float s.top_p) _ refl)
        (SameBut-set_default last_keys "top_k" (int s.top_k) _ refl))

forward_last-SameBut :
    (rules : Rules) (e : Effort) (m : Fields) → SameBut last_keys m (forward_last rules e m)
unfolding forward_last
forward_last-SameBut rules e m =
    let trans = SameBut-trans last_keys in
    trans m _ _ (forward_args-SameBut e.args m) (
      trans _ _ _
        (forward_defaults-SameBut (if e.thinking then rules.thinking_sampling else rules.sampling)
          _)
        (trans _ _ _ (SameBut-put last_keys "stream" (bool true) _ refl) (
          SameBut-put last_keys "stream_options" (obj (field "include_usage" (bool true) end)) _
            refl)))

-- The keys of a request to the backend.
abbrev pub known_keys : List String
known_keys = base_keys ++ (option_keys ++ last_keys)

base_lookup :
    (ms : List Fields) (ts : Option Items)
    → (get "model" (forward_base ms ts) ≡ some (str "default_model"))
      × (get "messages" (forward_base ms ts) ≡ some (arr (to_items ms)))
      × (get "tools" (forward_base ms ts) ≡ (elim ts [ none ↦ none | some t ↦ some (arr t) ]))
unfolding forward_base get
base_lookup ms none = (refl, refl, refl)
base_lookup ms (some t) = (simp get-put, simp get-put, simp get-put)

last_lookup :
    (rules : Rules) (e : Effort) (m : Fields)
    → (get "stream" (forward_last rules e m) ≡ some (bool true))
      × (get "stream_options" (forward_last rules e m)
          ≡ some (obj (field "include_usage" (bool true) end)))
unfolding forward_last
last_lookup rules e m = (simp get-put, simp get-put)

module _ (lib : Library) (rules : Rules) (v : Value) (p : Prepared)
    (accepted : prepare lib rules v ≡ ok p) where
  -- A key that the gateway does not know never reaches the backend, whatever the client sent: no
  -- `adapters`, no `draft_model`.
  pub get-prepare_unknown : (j : String) → contains known_keys j ≡ false → get j p.body ≡ none
  unfolding get
  get-prepare_unknown j o =
      let (body, _, parts) = prepare-Parts lib rules v p accepted in
      let (o₁, o') = not_contains-append base_keys (option_keys ++ last_keys) j o in
      let (o₂, o₃) = not_contains-append option_keys last_keys j o' in
      rw parts.body_eq (
        forward_last-SameBut rules parts.chosen parts.options j o₃
        ∙ forward_options-SameBut lib body (forward_base p.messages p.tools) parts.options
            parts.options_ok j o₂
        ∙ forward_base-SameBut p.messages p.tools j o₁)

  kept :
      (j : String)
      → contains option_keys j ≡ false
      → contains last_keys j ≡ false
      → get j p.body ≡ get j (forward_base p.messages p.tools)
  kept j o₂ o₃ =
      let (body, _, parts) = prepare-Parts lib rules v p accepted in
      rw parts.body_eq (
        forward_last-SameBut rules parts.chosen parts.options j o₃
        ∙ forward_options-SameBut lib body (forward_base p.messages p.tools) parts.options
            parts.options_ok j o₂)

  -- An accepted request always goes to the backend's own model, with the checked messages and the
  -- tools that are offered, as a stream that reports its usage.
  pub get-prepare_fixed :
      (get "model" p.body ≡ some (str "default_model"))
      × (get "messages" p.body ≡ some (arr (to_items p.messages)))
      × (get "tools" p.body ≡ (elim p.tools [ none ↦ none | some t ↦ some (arr t) ]))
      × (get "stream" p.body ≡ some (bool true))
      × (get "stream_options" p.body ≡ some (obj (field "include_usage" (bool true) end)))
  get-prepare_fixed =
      let (body, _, parts) = prepare-Parts lib rules v p accepted in
      let (model, ms, ts) = base_lookup p.messages p.tools in
      let (stream, usage) = last_lookup rules parts.chosen parts.options in
      (
        kept "model" refl refl ∙ model,
        kept "messages" refl refl ∙ ms,
        kept "tools" refl refl ∙ ts,
        rw parts.body_eq stream,
        rw parts.body_eq usage,
      )
