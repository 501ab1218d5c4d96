-- ===== src/Gateway/Backend/Sound.antt =====
-- What `backend_chunks` yields, and how it ends.
use agent_lab.Common.{
  ℕ, suc, ◌≡◌, refl, ◌∙◌, sym, ap, subst, ◌⊎◌, inl, inr, Bool, true, false, List, [], ◌∷◌, Option,
  some, String, if◌then◌else◌, ◌==◌, leb, get_elem?, Bool-cases, arith,
}
use agent_lab.Json.{Value, Fields, Items, null, obj, nil, cons, end, field, get_value}
use agent_lab.Gateway.Library.{Loads}
use agent_lab.Gateway.Result.{Result, ok, ◌>>=◌}
use agent_lab.Gateway.Chunks.{
  fields_or_empty, items_or_empty, or_error, well_formed, usage_fine, choices_fine, all_choices,
  choice_fine,
}
use agent_lab.Gateway.Chunks.Total.{both, present}
use agent_lab.Gateway.Backend.{
  BackendError, rejected, invalid_chunk, not_running, not_answering, failed, ended_early, status_of,
  Reply, connect_error, connect_timeout, http_error, replied, Counts, Stream, yields, returns,
  fails, crashes, note_usage, note_choices, note, Line, comment, done, unreadable, sent, read_line,
  yield_noted, read_value, read_lines, backend_chunks,
}

note_usage-ok :
    (v : Value) (c : Counts) → usage_fine v ≡ true → (noted : Counts) × (note_usage v c ≡ ok noted)
unfolding note_usage usage_fine
note_usage-ok null c fine = (c, refl)
note_usage-ok (obj end) c fine = (c, refl)
note_usage-ok (obj (field k v rest)) c fine =
    let usage = field k v rest in
    let (details, d, _) =
      present (fields_or_empty (get_value "prompt_tokens_details" usage)) _ fine in
    let counted : Fields → Result Counts = λ details. ok (record c {
      backend_prompt_tokens = get_value "prompt_tokens" usage;
      completion_tokens = get_value "completion_tokens" usage;
      cached_tokens = get_value "cached_tokens" details;
    }) in
    (_, ap (λ (o : Option Fields). or_error o >>= counted) d)
note_usage-ok _ c fine = cc

note_choices-ok :
    (choices : Items) (c : Counts)
    → all_choices choices ≡ true
    → (noted : Counts) × (note_choices choices c ≡ ok noted)
unfolding note_choices all_choices choice_fine
note_choices-ok nil c fine = (c, refl)
note_choices-ok (cons (obj choice) rest) c fine =
    note_choices-ok rest _ (both (choice_fine (obj choice)) (all_choices rest) fine).1
note_choices-ok (cons _ rest) c fine = cc

-- A well-formed chunk can be counted.
pub note-ok :
    (chunk : Fields) (c : Counts)
    → well_formed (obj chunk) ≡ true
    → (noted : Counts) × (note chunk c ≡ ok noted)
unfolding note well_formed choices_fine
note-ok chunk c fine =
    let (u, ch) = both (usage_fine (get_value "usage" chunk)) _ fine in
    let (choices, i, all) = present (items_or_empty (get_value "choices" chunk)) all_choices ch in
    let (first, e) = note_usage-ok (get_value "usage" chunk) c u in
    let (last, e') = note_choices-ok choices first all in
    (
      last,
      ap
            (λ (r : Result Counts). r >>= λ noted.
              or_error (items_or_empty (get_value "choices" chunk)) >>= λ choices.
              note_choices choices noted)
            e
          ∙ ap (λ (o : Option Items). or_error o >>= λ choices. note_choices choices first) i
          ∙ e',
    )

-- Such a status reaches the client.
abbrev pub IsGatewayStatus : ℕ → Type 0
IsGatewayStatus n = (n ≡ 400) ⊎ ((n ≡ 502) ⊎ (n ≡ 503))

pub status_of_cases : (e : BackendError) → IsGatewayStatus (status_of e)
unfolding status_of
status_of_cases (rejected n) = elim (Bool-cases (leb 500 n)) [
  | inl h ↦ inr (inl (ap (λ (b : Bool). if b then 502 else 400) h))
  | inr h ↦ inl (ap (λ (b : Bool). if b then 502 else 400) h)
]
status_of_cases not_running = inr (inr refl)
status_of_cases not_answering = inr (inr refl)
status_of_cases _ = inr (inl refl)

-- Each chunk is well-formed and counted on the counts before it, the end has the last counts, a
-- return is due to `Finished`, and an error has one of three statuses.
unfoldable pub IsSound : Type 0 → Counts → Stream → Type 0
IsSound Finished c (yields chunk now rest) =
    (well_formed (obj chunk) ≡ true) × (note chunk c ≡ ok now) × IsSound Finished now rest
IsSound Finished c (returns last) = (last ≡ c) × Finished
IsSound Finished c (fails e last) = (last ≡ c) × IsGatewayStatus (status_of e)
IsSound Finished c (crashes last) = ⊥

module _ (strip : String → String) (loads : String → Loads) where
  read_value-IsSound :
      (Finished : Type 0) (v : Value) (c : Counts) (next : Counts → Stream)
      → ((now : Counts) → IsSound Finished now (next now))
      → IsSound Finished c (read_value strip loads v c next)
  unfolding read_value IsSound well_formed
  read_value-IsSound Finished (obj chunk) c next h = elim (Bool-cases (well_formed (obj chunk))) [
    | inl fine ↦
        let (noted, e) = note-ok chunk c fine in
        subst (IsSound Finished c)
          (sym (
            ap
              (λ (b : Bool).
                if b
                then yield_noted strip loads chunk c (note chunk c) next
                else fails invalid_chunk c)
              fine
            ∙ ap (λ (r : Result Counts). yield_noted strip loads chunk c r next) e))
          (fine, e, h noted)
    | inr bad ↦
        subst (IsSound Finished c)
          (sym (
            ap
              (λ (b : Bool).
                if b
                then yield_noted strip loads chunk c (note chunk c) next
                else fails invalid_chunk c)
              bad))
          (refl, status_of_cases invalid_chunk)
  ]
  read_value-IsSound Finished _ c next h = (refl, status_of_cases invalid_chunk)

  read_lines-IsSound :
      (Finished : Type 0) (broken : Bool) (lines : List String) (c : Counts)
      → ((i : ℕ) (line : String)
          → get_elem? lines i ≡ some line
          → read_line strip loads line ≡ done
          → Finished)
      → IsSound Finished c (read_lines strip loads broken lines c)
  unfolding read_lines IsSound
  read_lines-IsSound Finished true [] c said = (refl, status_of_cases failed)
  read_lines-IsSound Finished false [] c said = (refl, status_of_cases ended_early)
  read_lines-IsSound Finished broken (line ∷ rest) c said =
      go (read_line strip loads line) refl
        (λ now. read_lines-IsSound Finished broken rest now (λ i. said (suc i)))
    where
      go :
          (l : Line)
          → read_line strip loads line ≡ l
          → ((now : Counts) → IsSound Finished now (read_lines strip loads broken rest now))
          → IsSound Finished c (elim l [
            | comment ↦ read_lines strip loads broken rest c
            | done ↦ returns c
            | unreadable ↦ fails failed c
            | sent v ↦ read_value strip loads v c (read_lines strip loads broken rest)
          ])
      go comment e rest_IsSound = rest_IsSound c
      go done e rest_IsSound = (refl, said 0 line refl e)
      go unreadable e rest_IsSound = (refl, status_of_cases failed)
      go (sent v) e rest_IsSound =
          read_value-IsSound Finished v c (read_lines strip loads broken rest) rest_IsSound

  -- The server answered with 200, and one of its lines says that the stream is done.
  pub data IsFinished : Reply → Type 0 where
    finished :
        {lines : List String} {broken : Bool} (i : ℕ) (line : String)
        → get_elem? lines i ≡ some line
        → read_line strip loads line ≡ done
        → IsFinished (replied 200 lines broken)

  -- Whatever the model server does, `backend_chunks` yields well-formed chunks only, with the counts
  -- of the chunks so far; it returns with the counts of all of them, and then the server answered 200
  -- and sent the line that says it is done; else it raises a `BackendError` with the status 400, 502
  -- or 503, and no other exception.
  pub backend_chunks-IsSound :
      (reply : Reply) (c : Counts)
      → IsSound (IsFinished reply) c (backend_chunks strip loads reply c)
  unfolding backend_chunks IsSound
  backend_chunks-IsSound connect_error c = (refl, status_of_cases not_running)
  backend_chunks-IsSound connect_timeout c = (refl, status_of_cases not_answering)
  backend_chunks-IsSound http_error c = (refl, status_of_cases failed)
  backend_chunks-IsSound (replied status lines broken) c = elim (Bool-cases (status == 200)) [
    | inl h ↦
        let is_200 : 200 ≡ status = ground (arith, h) in
        subst
          (λ (n : ℕ).
            IsSound (IsFinished (replied n lines broken)) c
              (backend_chunks strip loads (replied n lines broken) c))
          is_200
          (read_lines-IsSound (IsFinished (replied 200 lines broken)) broken lines c
            (λ i line at e. finished i line at e))
    | inr h ↦
        subst (IsSound (IsFinished (replied status lines broken)) c)
          (sym (
            ap
              (λ (b : Bool).
                if b
                then read_lines strip loads broken lines c
                else fails (if broken then failed else rejected status) c)
              h))
          (refl, status_of_cases _)
  ]
