-- ===== src/Gateway/Effort/Switch.antt =====
-- The thinking switch that the backend applies, and the levels of effort.
use agent_lab.Common.{
  ◌≡◌, ◌≢◌, refl, sym, ap, subst, inl, inr, Bool, true, false, Option, none, some, String, str_eq,
  eq_iff, if◌then◌else◌, Bool-cases, not,
}
use agent_lab.Json.{Value, null, bool, str, end, field, get, put}
use agent_lab.Gateway.Result.{ok, ok_inj}
use agent_lab.Gateway.Effort.{
  Rules, Effort, effort, applied_args, update, thinking_switch, effort_level, is_no_thinking,
  add_level,
}

abbrev SwitchIs : Rules → Effort → Type 0
SwitchIs rules e = get thinking_switch (applied_args rules e) ≡ some (bool e.thinking)

ne_of : (k : String) → some k ≢ some thinking_switch → str_eq thinking_switch k ≡ false
ne_of k n = elim (Bool-cases (str_eq thinking_switch k)) [
  | inl e ↦ absurd (n (ap some (sym ((eq_iff thinking_switch k).0 e))))
  | inr e ↦ e
]

-- A level beside the switch does not touch the switch.
level_switch :
    (variable : Option String) (level : String) (d : Bool)
    → variable ≢ some thinking_switch
    → get thinking_switch (
        update
          (field thinking_switch (bool d) end)
          (add_level variable level (field thinking_switch (bool true) end)))
      ≡ some (bool true)
unfolding update add_level get put
level_switch none level d n = refl
level_switch (some k) level d n = elim (Bool-cases (str_eq k "")) [
  | inl e ↦ rw e refl
  | inr e ↦ rw e (rw (ne_of k n) (rw (ne_of k n) refl))
]

text-switch :
    (s : String) (level : Option String) (rules : Rules) (e : Effort)
    → rules.effort_variable ≢ some thinking_switch
    → effort_level s ≡ level
    → is_no_thinking s ≡ false
    → effort (str s) rules ≡ ok e
    → SwitchIs rules e
unfolding effort applied_args
text-switch s none rules e n l t h = cc (rw (t, l, effort) at h)
text-switch s (some level) rules e n l t h =
    subst (SwitchIs rules) (ok_inj (rw (t, l, effort) at h))
      (level_switch rules.effort_variable level rules.default_thinking n)

off-switch :
    (d : Bool)
    → get thinking_switch (
        update
          (field thinking_switch (bool d) end)
          (if d then field thinking_switch (bool false) end else end))
      ≡ some (bool false)
unfolding update get put
off-switch true = refl
off-switch false = refl

-- Unless the template calls its effort argument `enable_thinking`, the arguments that the backend
-- applies turn thinking on exactly when the request is to be answered with thinking, whatever the
-- backend does by default.
pub effort-switch :
    (v : Value) (rules : Rules) (e : Effort)
    → rules.effort_variable ≢ some thinking_switch
    → effort v rules ≡ ok e
    → get thinking_switch (applied_args rules e) ≡ some (bool e.thinking)
unfolding effort applied_args
effort-switch null rules e n h = subst (SwitchIs rules) (ok_inj h) (unfold update get in refl)
effort-switch (str s) rules e n h = elim (Bool-cases (is_no_thinking s)) [
  | inl t ↦
      subst (SwitchIs rules) (ok_inj (rw (t, effort) at h)) (off-switch rules.default_thinking)
  | inr t ↦ text-switch s (effort_level s) rules e n refl t h
]
effort-switch _ rules e n h = cc

-- Whether a request is answered with thinking: the given default where the client sets no effort.
abbrev pub thinking_of : Bool → Value → Bool
thinking_of default null = default
thinking_of default (str s) = not (is_no_thinking s)
thinking_of default _ = false

level-thinking :
    (s : String) (level : Option String) (rules : Rules) (e : Effort)
    → effort_level s ≡ level
    → is_no_thinking s ≡ false
    → effort (str s) rules ≡ ok e
    → e.thinking ≡ true
unfolding effort
level-thinking s none rules e l t h = cc (rw (t, l, effort) at h)
level-thinking s (some level) rules e l t h =
    sym (ap (λ (x : Effort). x.thinking) (ok_inj (rw (t, l, effort) at h)))

pub effort-thinking :
    (v : Value) (rules : Rules) (e : Effort)
    → effort v rules ≡ ok e
    → e.thinking ≡ thinking_of rules.default_thinking v
unfolding effort
effort-thinking null rules e h = sym (ap (λ (x : Effort). x.thinking) (ok_inj h))
effort-thinking (str s) rules e h = elim (Bool-cases (is_no_thinking s)) [
  | inl t ↦ rw t (sym (ap (λ (x : Effort). x.thinking) (ok_inj (rw (t, effort) at h))))
  | inr t ↦ rw t (level-thinking s (effort_level s) rules e refl t h)
]
effort-thinking _ rules e h = cc
