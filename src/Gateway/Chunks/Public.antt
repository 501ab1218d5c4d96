-- ===== src/Gateway/Chunks/Public.antt =====
-- src/agent_lab/gateway/app.py: `Gateway.public_chunk`, on chunks that `_well_formed` let through.
use agent_lab.Common.{
  ◌≡◌, refl, sym, ◌∙◌, ap, subst, Bool, false, List, [], ◌∷◌, Option, none, some, String, str_eq,
  if◌then◌else◌,
}
use agent_lab.Json.{Value, Fields, Items, str, obj, arr, nil, cons, get, put, remove}
use agent_lab.Json.Laws.{get-put, get-remove}
use agent_lab.Json.SameBut.{SameBut, SameBut-refl, SameBut-put, key-ne}

-- delta["reasoning_content"] = delta["reasoning"], where it is there.
public_delta : Value → Value
public_delta (obj d) = elim (get "reasoning" d) [
  | none ↦ obj d
  | some r ↦ obj (put "reasoning_content" r d)
]
public_delta v = v

public_choice : Value → Value
unfolding public_delta
public_choice (obj c) = elim (get "delta" c) [
  | none ↦ obj c
  | some d ↦ obj (put "delta" (public_delta d) c)
]
public_choice v = v

public_choices : Items → Items
unfolding public_choice
public_choices nil = nil
public_choices (cons c rest) = cons (public_choice c) (public_choices rest)

-- The choices of a chunk, where it has a list of them.
with_choices : Option Value → Fields → Fields
unfolding public_choices
with_choices (some (arr xs)) chunk = put "choices" (arr (public_choices xs)) chunk
with_choices _ chunk = chunk

abbrev named : String → Fields → Fields
named model chunk =
    remove "system_fingerprint"
      (put "object" (str "chat.completion.chunk") (put "model" (str model) chunk))

-- `public_chunk(chunk)`
unfoldable pub public_chunk : String → Fields → Fields
unfolding with_choices
public_chunk model chunk = with_choices (get "choices" (named model chunk)) (named model chunk)

get-with_choices :
    (j : String) (choices : Option Value) (chunk : Fields)
    → str_eq "choices" j ≡ false
    → get j (with_choices choices chunk) ≡ get j chunk
unfolding with_choices
get-with_choices j (some (arr xs)) chunk other =
    get-put j "choices" (arr (public_choices xs)) chunk
    ∙ ap (λ (b : Bool). if b then some (arr (public_choices xs)) else get j chunk) other
get-with_choices j _ chunk other = refl

get-named :
    (model j : String) (chunk : Fields)
    → get j (named model chunk) ≡ (
        if str_eq "system_fingerprint" j
        then none
        else if str_eq "object" j
        then some (str "chat.completion.chunk")
        else if str_eq "model" j
        then some (str model)
        else get j chunk)
get-named model j chunk =
    get-remove j "system_fingerprint" _
    ∙ ap (λ (o : Option Value). if str_eq "system_fingerprint" j then none else o)
        (get-put j "object" (str "chat.completion.chunk") (put "model" (str model) chunk)
          ∙ ap
              (λ (o : Option Value).
                if str_eq "object" j then some (str "chat.completion.chunk") else o)
              (get-put j "model" (str model) chunk))

-- The keys that `public_chunk` changes.
abbrev pub public_keys : List String
public_keys = "model" ∷ "object" ∷ "system_fingerprint" ∷ "choices" ∷ []

-- A delta for clients: where it has a reasoning, that stands under "reasoning_content" too; every other
-- key is as it was.
pub record IsPublicDelta (d shown : Fields) : Type 0 where
  pub reasoning :
      get "reasoning_content" shown
      ≡ (elim (get "reasoning" d) [ none ↦ get "reasoning_content" d | some r ↦ some r ])
  pub same : SameBut ("reasoning_content" ∷ []) d shown

-- The delta of a choice, where it has one.
pub IsShownDelta : Option Value → Option Value → Type 0
IsShownDelta (some (obj d)) shown = (e : Fields) × (shown ≡ some (obj e)) × IsPublicDelta d e
IsShownDelta other shown = shown ≡ other

-- A choice for clients: its delta is one for clients, and every other key is as it was.
pub IsPublicChoice : Value → Value → Type 0
IsPublicChoice (obj c) shown =
    (e : Fields) × (shown ≡ obj e)
    × IsShownDelta (get "delta" c) (get "delta" e)
    × SameBut ("delta" ∷ []) c e
IsPublicChoice v shown = shown ≡ v

pub ArePublicChoices : Items → Items → Type 0
ArePublicChoices nil nil = Unit
ArePublicChoices (cons c rest) (cons e more) = IsPublicChoice c e × ArePublicChoices rest more
ArePublicChoices _ _ = ⊥

pub AreShownChoices : Option Value → Option Value → Type 0
AreShownChoices (some (arr xs)) shown =
    (ys : Items) × (shown ≡ some (arr ys)) × ArePublicChoices xs ys
AreShownChoices other shown = shown ≡ other

public_delta-IsShownDelta : (v : Value) → IsShownDelta (some v) (some (public_delta v))
unfolding public_delta IsShownDelta
public_delta-IsShownDelta (obj d) = go (get "reasoning" d) refl
  where
    shown : Option Value → Value
    shown o = elim o [ none ↦ obj d | some r ↦ obj (put "reasoning_content" r d) ]

    go :
        (o : Option Value)
        → get "reasoning" d ≡ o
        → (e : Fields) × (some (shown o) ≡ some (obj e)) × IsPublicDelta d e
    go none n = (
      d,
      refl,
      record {
        reasoning = sym (
            ap (λ (o : Option Value). elim o [ none ↦ get "reasoning_content" d | some r ↦ some r ])
              n);
        same = SameBut-refl ("reasoning_content" ∷ []) d;
      },
    )
    go (some r) n = (
      put "reasoning_content" r d,
      refl,
      record {
        reasoning =
            get-put "reasoning_content" "reasoning_content" r d
            ∙ sym (
                ap
                  (λ (o : Option Value). elim o [
                    | none ↦ get "reasoning_content" d
                    | some t ↦ some t
                  ])
                  n);
        same = SameBut-put ("reasoning_content" ∷ []) "reasoning_content" r d refl;
      },
    )
public_delta-IsShownDelta _ = refl

public_choice-IsPublicChoice : (v : Value) → IsPublicChoice v (public_choice v)
unfolding public_choice IsPublicChoice IsShownDelta
public_choice-IsPublicChoice (obj c) = go (get "delta" c) refl
  where
    shown : Option Value → Value
    shown o = elim o [ none ↦ obj c | some d ↦ obj (put "delta" (public_delta d) c) ]

    go :
        (o : Option Value)
        → get "delta" c ≡ o
        → (e : Fields) × (shown o ≡ obj e)
          × IsShownDelta (get "delta" c) (get "delta" e)
          × SameBut ("delta" ∷ []) c e
    go none n = (c, refl, subst (λ o. IsShownDelta o o) (sym n) refl, SameBut-refl ("delta" ∷ []) c)
    go (some d) n = (
      put "delta" (public_delta d) c,
      refl,
      subst (λ o. IsShownDelta o (get "delta" (put "delta" (public_delta d) c))) (sym n)
          (subst (IsShownDelta (some d)) (sym (get-put "delta" "delta" (public_delta d) c))
            (public_delta-IsShownDelta d)),
      SameBut-put ("delta" ∷ []) "delta" (public_delta d) c refl,
    )
public_choice-IsPublicChoice _ = refl

public_choices-ArePublicChoices : (xs : Items) → ArePublicChoices xs (public_choices xs)
unfolding public_choices ArePublicChoices
public_choices-ArePublicChoices nil = tt
public_choices-ArePublicChoices (cons c rest) =
    (public_choice-IsPublicChoice c, public_choices-ArePublicChoices rest)

with_choices-AreShownChoices :
    (o : Option Value) (chunk : Fields)
    → get "choices" chunk ≡ o
    → AreShownChoices o (get "choices" (with_choices o chunk))
unfolding with_choices AreShownChoices
with_choices-AreShownChoices (some (arr xs)) chunk e = (
  public_choices xs,
  get-put "choices" "choices" (arr (public_choices xs)) chunk,
  public_choices-ArePublicChoices xs,
)
with_choices-AreShownChoices _ chunk e = e

-- A chunk as clients see it, from the chunk of the backend.
pub record IsPublic (model : String) (chunk shown : Fields) : Type 0 where
  pub names_model : get "model" shown ≡ some (str model)
  pub kind : get "object" shown ≡ some (str "chat.completion.chunk")
  pub no_fingerprint : get "system_fingerprint" shown ≡ none
  pub choices : AreShownChoices (get "choices" chunk) (get "choices" shown)
  pub same : SameBut public_keys chunk shown

-- Every chunk as clients see it names the public model and its kind and has no system_fingerprint; the
-- delta of each of its choices has the reasoning, where there is one, under "reasoning_content" too;
-- and every other key of the chunk, of its choices and of their deltas is as the backend sent it.
pub public_chunk-IsPublic :
    (model : String) (chunk : Fields) → IsPublic model chunk (public_chunk model chunk)
unfolding public_chunk
public_chunk-IsPublic model chunk = record {
  names_model = get-with_choices "model" choices shown refl ∙ get-named model "model" chunk;
  kind = get-with_choices "object" choices shown refl ∙ get-named model "object" chunk;
  no_fingerprint =
      get-with_choices "system_fingerprint" choices shown refl
      ∙ get-named model "system_fingerprint" chunk;
  choices =
      subst (λ o. AreShownChoices o (get "choices" (with_choices choices shown)))
        (get-named model "choices" chunk) (with_choices-AreShownChoices choices shown refl);
  same = λ j out.
      get-with_choices j choices shown (key-ne public_keys "choices" j refl out)
      ∙ get-named model j chunk
      ∙ rw
          (
            key-ne public_keys "system_fingerprint" j refl out,
            key-ne public_keys "object" j refl out,
            key-ne public_keys "model" j refl out,
          )
          refl;
}
  where
    shown : Fields
    shown = named model chunk

    choices : Option Value
    choices = get "choices" shown
