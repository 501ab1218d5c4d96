-- ===== src/Gateway/Chunks/Total.antt =====
-- `_collect` of src/agent_lab/gateway/app.py on chunks that `_well_formed` lets through.
use Prim.Native.String.{◌++◌ as append}
use agent_lab.Common.{
  ◌≡◌, refl, ◌∙◌, ap, Bool, true, false, ◌&&◌, List, [], ◌∷◌, ◌++◌, Option, none, some, String,
  if◌then◌else◌, All, All-append,
}
use agent_lab.Json.{
  Value, Fields, Items, int, str, arr, obj, nil, cons, end, field, get, get_value, put, truthy,
}
use agent_lab.Common.Int.{pos}
use agent_lab.Json.Laws.{get-put}
use agent_lab.Gateway.Result.{Result, ok, ◌>>=◌}
use agent_lab.Gateway.Chunks.{
  fields_or_empty, items_or_empty, is_text, text_fine, usage_fine, all_dicts, calls_fine,
  delta_fine, choice_fine, all_choices, choices_fine, well_formed, Collected, empty, or_error,
  add_text, add_calls, add_choice, add_choices, add_chunk, add_chunks, join, collect, value_or,
  first_or, respond, message_fields, ending, first_chunk, answer_of, reasoned,
}

abbrev pub IsText : Value → Type 0
IsText v = is_text v ≡ true

-- What is collected can be joined.
abbrev pub AreTexts : Collected → Type 0
AreTexts s = All IsText s.content × All IsText s.reasoning

-- That, and the chunk kept as the first one.
abbrev Keeps : Option Fields → Collected → Type 0
Keeps first s = AreTexts s × (s.first ≡ first)

-- A run that returns something that has the property.
abbrev pub Returns : {A : Type 0} → Result A → (A → Type 0) → Type 0
Returns {A} r P = (a : A) × (r ≡ ok a) × P a

pub both : (a b : Bool) → a && b ≡ true → (a ≡ true) × (b ≡ true)
both true b e = (refl, e)
both false b e = cc

add_text-All :
    (v : Value) (texts : List Value)
    → text_fine v ≡ true
    → All IsText texts
    → All IsText (add_text v texts)
unfolding add_text text_fine
add_text-All v texts fine h = go (truthy v) fine
  where
    go :
        (b : Bool)
        → (if b then is_text v else true) ≡ true
        → All IsText (if b then texts ++ v ∷ [] else texts)
    go true t = All-append IsText texts (v ∷ []) h (t, tt)
    go false t = h

add_calls-Returns :
    (items : Items) (calls : List Fields)
    → all_dicts items ≡ true
    → (more : List Fields) × (add_calls items calls ≡ ok more)
unfolding add_calls all_dicts
add_calls-Returns nil calls fine = (calls, refl)
add_calls-Returns (cons (obj call) rest) calls fine = add_calls-Returns rest _ fine
add_calls-Returns (cons _ rest) calls fine = cc

pub present :
    {A : Type 0} (o : Option A) (test : A → Bool)
    → (elim o [ none ↦ false | some a ↦ test a ]) ≡ true
    → (a : A) × (o ≡ some a) × (test a ≡ true)
present none test e = cc
present (some a) test e = (a, refl, e)

add_choice-Returns :
    (choice : Value) (s : Collected)
    → choice_fine choice ≡ true
    → AreTexts s
    → Returns (add_choice choice s) (Keeps s.first)
unfolding add_choice choice_fine delta_fine calls_fine
add_choice-Returns (obj choice) s fine texts =
    let (delta, d, fine') = present (fields_or_empty (get_value "delta" choice)) delta_fine fine in
    let (c, rest) = both (text_fine (get_value "content" delta)) _ fine' in
    let (r, k) = both (text_fine (get_value "reasoning" delta)) _ rest in
    let (items, i, dicts) = present (items_or_empty (get_value "tool_calls" delta)) all_dicts k in
    let (calls, a) = add_calls-Returns items s.tool_calls dicts in
    let next = record s {
      content = add_text (get_value "content" delta) s.content;
      reasoning = add_text (get_value "reasoning" delta) s.reasoning;
      tool_calls = calls;
      finish_reason = value_or (get_value "finish_reason" choice) s.finish_reason;
    } in
    (
      next,
      rw (d, i, a) refl,
      (
        (
          add_text-All (get_value "content" delta) s.content c texts.0,
          add_text-All (get_value "reasoning" delta) s.reasoning r texts.1,
        ),
        refl,
      ),
    )
add_choice-Returns _ s fine texts = cc

add_choices-Returns :
    (choices : Items) (s : Collected)
    → all_choices choices ≡ true
    → AreTexts s
    → Returns (add_choices choices s) (Keeps s.first)
unfolding add_choices all_choices
add_choices-Returns nil s fine texts = (s, refl, (texts, refl))
add_choices-Returns (cons c rest) s fine texts =
    let (one, others) = both (choice_fine c) (all_choices rest) fine in
    let (next, e, kept) = add_choice-Returns c s one texts in
    let (last, e', kept') = add_choices-Returns rest next others kept.0 in
    (
      last,
      ap (λ (r : Result Collected). r >>= add_choices rest) e ∙ e',
      (kept'.0, kept'.1 ∙ kept.1),
    )

-- A collected answer with a first chunk.
abbrev pub IsBegun : Collected → Type 0
IsBegun s = AreTexts s × (chunk : Fields) × (s.first ≡ some chunk)

pub add_chunk-Returns :
    (chunk : Fields) (s : Collected)
    → well_formed (obj chunk) ≡ true
    → AreTexts s
    → Returns (add_chunk chunk s) IsBegun
unfolding add_chunk well_formed choices_fine
add_chunk-Returns chunk s fine texts =
    let (_, c) = both (usage_fine (get_value "usage" chunk)) _ fine in
    let (choices, i, all) = present (items_or_empty (get_value "choices" chunk)) all_choices c in
    let started = record s {
      first = some (first_or s.first chunk);
      usage = value_or (get_value "usage" chunk) s.usage;
    } in
    let (next, e, kept) = add_choices-Returns choices started all texts in
    (
      next,
      ap (λ (o : Option Items). or_error o >>= λ items. add_choices items started) i ∙ e,
      (kept.0, first_or s.first chunk, kept.1),
    )

-- A body of well-formed chunks.
abbrev pub AreWellFormed : List Fields → Type 0
AreWellFormed chunks = All (λ chunk. well_formed (obj chunk) ≡ true) chunks

add_chunks-Returns :
    (chunks : List Fields) (s : Collected)
    → AreWellFormed chunks
    → IsBegun s
    → Returns (add_chunks chunks s) IsBegun
unfolding add_chunks
add_chunks-Returns [] s fine begun = (s, refl, begun)
add_chunks-Returns (chunk ∷ chunks) s fine begun =
    let (next, e, then_begun) = add_chunk-Returns chunk s fine.0 begun.0 in
    let (last, e', done) = add_chunks-Returns chunks next fine.1 then_begun in
    (last, ap (λ (r : Result Collected). r >>= add_chunks chunks) e ∙ e', done)

join-Returns : (texts : List Value) → All IsText texts → (s : String) × (join texts ≡ ok s)
unfolding join
join-Returns [] h = ("", refl)
join-Returns (str s ∷ rest) h =
    let (more, e) = join-Returns rest h.1 in
    (append s more, ap (λ (r : Result String). r >>= λ t. ok (append s t)) e)
join-Returns (_ ∷ rest) h = cc

get-respond :
    (model : String) (first message : Fields) (s : Collected)
    → (get "model" (respond model first message s) ≡ some (str model))
      × (get "object" (respond model first message s) ≡ some (str "chat.completion"))
unfolding respond get
get-respond model first message s = go (truthy s.usage)
  where
    base : Fields
    base = field "id" (get_value "id" first) (
        field "object" (str "chat.completion") (
          field "created" (get_value "created" first) (
            field "model" (str model) (
              field "choices"
                (arr (
                  cons
                    (obj (
                      field "index" (int (pos 0)) (
                        field "message" (obj message) (field "finish_reason" s.finish_reason end))))
                    nil))
                end))))

    go :
        (b : Bool)
        → (get "model" (if b then put "usage" s.usage base else base) ≡ some (str model))
          × (get "object" (if b then put "usage" s.usage base else base)
              ≡ some (str "chat.completion"))
    go true = (get-put "model" "usage" s.usage base, get-put "object" "usage" s.usage base)
    go false = (refl, refl)

-- What was collected gives an answer.
pub answer_of-Returns :
    (model : String) (first : Fields) (s : Collected)
    → AreTexts s
    → (answer : Fields) × (answer_of model first s ≡ ok answer)
      × (get "model" answer ≡ some (str model))
      × (get "object" answer ≡ some (str "chat.completion"))
answer_of-Returns model first s texts =
    let (content, c) = join-Returns s.content texts.0 in
    let (reasoning, r) = join-Returns s.reasoning texts.1 in
    let message = message_fields content s.reasoning reasoning s.tool_calls in
    (
      respond model first message s,
      ap (λ (x : Result String). x >>= λ text. reasoned model first s text) c
          ∙ ap
              (λ (x : Result String). x >>= λ text.
                ok (respond model first (message_fields content s.reasoning text s.tool_calls) s))
              r,
      (get-respond model first message s).0,
      (get-respond model first message s).1,
    )

-- From one or more well-formed chunks `_collect` returns an answer, under the public name of the
-- model: no chunk that `_well_formed` lets through makes it raise.
pub collect-Returns :
    (model : String) (chunk : Fields) (chunks : List Fields)
    → AreWellFormed (chunk ∷ chunks)
    → (answer : Fields) × (collect model (chunk ∷ chunks) ≡ ok answer)
      × (get "model" answer ≡ some (str model))
      × (get "object" answer ≡ some (str "chat.completion"))
unfolding collect add_chunks
collect-Returns model chunk chunks fine =
    let (next, e, begun) = add_chunk-Returns chunk empty fine.0 (tt, tt) in
    let (last, e', (texts, first, f)) = add_chunks-Returns chunks next fine.1 begun in
    let (answer, a, named, kind) = answer_of-Returns model first last texts in
    (
      answer,
      ap (λ (x : Result Collected). (x >>= add_chunks chunks) >>= ending model) e
          ∙ ap (λ (x : Result Collected). x >>= ending model) e'
          ∙ ap (λ (o : Option Fields). first_chunk o >>= λ chunk. answer_of model chunk last) f
          ∙ a,
      named,
      kind,
    )
