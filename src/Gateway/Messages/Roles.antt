-- ===== src/Gateway/Messages/Roles.antt =====
-- What `_messages` lets through.
use agent_lab.Common.{
  ℕ, suc, ◌≢◌, ◌≡◌, refl, Bool, true, ◌||◌, List, [], ◌∷◌, String, str_eq, arith, All, Bool-cases,
  inl, inr, subst, ap,
}
use agent_lab.Json.{
  Value, Items, Fields, null, bool, int, float, str, arr, obj, nil, cons, get_value, value_or_null,
}
use agent_lab.Json.Laws.{get-put}
use agent_lab.Json.SameBut.{SameBut, SameBut-put, SameBut-refl}
use agent_lab.Gateway.Library.{Library}
use agent_lab.Gateway.Result.{ok, ok_inj, >>=-eq-ok, reject_if-eq-ok}
use agent_lab.Gateway.Messages.{
  messages, messages_from, message, rename_role, check_role, equals, check_content,
  check_tool_calls,
}

-- The roles that the chat template knows.
abbrev pub is_template_role : String → Bool
is_template_role s =
    str_eq s "system" || (str_eq s "user" || (str_eq s "assistant" || str_eq s "tool"))

abbrev pub HasTemplateRole : Fields → Type 0
HasTemplateRole m = (s : String) × (get_value "role" m ≡ str s) × (is_template_role s ≡ true)

abbrev pub length_items : Items → ℕ
length_items nil = 0
length_items (cons x xs) = suc (length_items xs)

-- The messages of the client, and what is sent in place of each: the same dict but for its role.
abbrev pub Renamed : Items → List Fields → Type 0
Renamed nil [] = Unit {0}
Renamed nil (m ∷ ms) = ⊥
Renamed (cons v vs) [] = ⊥
Renamed (cons v vs) (m ∷ ms) =
    ((n : Fields) × (v ≡ obj n) × SameBut ("role" ∷ []) n m) × Renamed vs ms

rename_role-SameBut : (m : Fields) → SameBut ("role" ∷ []) m (rename_role m)
unfolding rename_role
rename_role-SameBut m = elim (Bool-cases (equals (get_value "role" m) "developer")) [
  | inl e ↦ rw e (SameBut-put ("role" ∷ []) "role" (str "system") m refl)
  | inr e ↦ rw e (SameBut-refl ("role" ∷ []) m)
]

rename_role-HasTemplateRole :
    (m : Fields) (v : Value) {u : Unit {0}}
    → get_value "role" m ≡ v
    → check_role v ≡ ok u
    → HasTemplateRole (rename_role m)
unfolding rename_role check_role
rename_role-HasTemplateRole m (str s) e c = elim (Bool-cases (str_eq s "developer")) [
  | inl d ↦ rw (e, d) ("system", ap value_or_null (get-put "role" "role" (str "system") m), refl)
  | inr d ↦ rw (e, d) (s, e, ground (arith, reject_if-eq-ok _ _ c))
]
rename_role-HasTemplateRole m null e c = cc
rename_role-HasTemplateRole m (bool b) e c = cc
rename_role-HasTemplateRole m (int n) e c = cc
rename_role-HasTemplateRole m (float f) e c = cc
rename_role-HasTemplateRole m (arr xs) e c = cc
rename_role-HasTemplateRole m (obj fs) e c = cc

module _ (lib : Library) where
  message_lem :
      (i : ℕ) (v : Value) (m : Fields)
      → message lib i v ≡ ok m
      → ((n : Fields) × (v ≡ obj n) × SameBut ("role" ∷ []) n m) × HasTemplateRole m
  unfolding message
  message_lem i (obj n) m h =
      let (_, c, h₁) = >>=-eq-ok (check_role (get_value "role" n)) _ h in
      let (_, _, h₂) = >>=-eq-ok (check_content i (get_value "content" n)) _ h₁ in
      let (_, _, h₃) = >>=-eq-ok (check_tool_calls lib i (get_value "tool_calls" n)) _ h₂ in
      subst (λ x. ((k : Fields) × (obj n ≡ obj k) × SameBut ("role" ∷ []) k x) × HasTemplateRole x)
        (ok_inj h₃) ((n, refl, rename_role-SameBut n), rename_role-HasTemplateRole n _ refl c)
  message_lem i _ m h = cc

  messages_from_lem :
      (i : ℕ) (vs : Items) (ms : List Fields)
      → messages_from lib i vs ≡ ok ms
      → Renamed vs ms × All HasTemplateRole ms
  unfolding messages_from
  messages_from_lem i nil [] h = (tt, tt)
  messages_from_lem i nil (m ∷ ms) h = ground arith
  messages_from_lem i (cons v vs) ms h =
      let (m, e, h') = >>=-eq-ok (message lib i v) _ h in
      let (rest, e', h'') = >>=-eq-ok (messages_from lib (suc i) vs) _ h' in
      let first = message_lem i v m e in
      let others = messages_from_lem (suc i) vs rest e' in
      subst (λ x. Renamed (cons v vs) x × All HasTemplateRole x) (ok_inj h'')
        ((first.0, others.0), (first.1, others.1))

  -- Where `_messages` accepts a value, it is a list with an element, each accepted message is the
  -- client's own but for its role, in the same order, and its role is one that the chat template
  -- knows: "developer" does not get through.
  pub messages_lem :
      (value : Value) (ms : List Fields)
      → messages lib value ≡ ok ms
      → (vs : Items) × (value ≡ arr vs) × (vs ≢ nil) × Renamed vs ms × All HasTemplateRole ms
  unfolding messages
  messages_lem (arr (cons v vs)) ms h =
      let r = messages_from_lem 0 (cons v vs) ms h in (cons v vs, refl, λ e. cc, r.0, r.1)
  messages_lem (arr nil) ms h = cc
  messages_lem _ ms h = cc
