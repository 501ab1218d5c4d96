-- ===== src/Gateway/Answer/Complete.antt =====
-- The response of `_complete`, whatever the model server does.
use agent_lab.Common.{
  ◌≡◌, refl, sym, subst, ◌⊎◌, inl, inr, Bool, Option, none, some, String, if◌then◌else◌,
}
use agent_lab.Json.{Fields, str, get}
use agent_lab.Gateway.Library.{Loads}
use agent_lab.Gateway.Result.{Result, ok, raised}
use agent_lab.Gateway.Chunks.{Collected, empty}
use agent_lab.Gateway.Chunks.Total.{add_chunk-Returns, answer_of-Returns, AreTexts}
use agent_lab.Gateway.Backend.{
  BackendError, no_answer, api_error, status_of, Reply, Counts, no_counts, Stream, yields, returns,
  fails, crashes, backend_chunks,
}
use agent_lab.Gateway.Backend.Sound.{
  IsSound, IsGatewayStatus, status_of_cases, IsFinished, backend_chunks-IsSound,
}
use agent_lab.Gateway.Answer.{
  error_response, json_response, Gathered, gathered, refused, broke, conclude_collect,
  collect_stream, response_of, complete, answer,
}

-- An answer under the public name of the model, after a stream that finished, or a `BackendError`.
pub IsOutcome : Type 0 → String → Gathered → Type 0
IsOutcome Finished model (gathered fs) =
    Finished
    × (get "model" fs ≡ some (str model))
    × (get "object" fs ≡ some (str "chat.completion"))
IsOutcome Finished model (refused e) = IsGatewayStatus (status_of e)
IsOutcome Finished model broke = ⊥

conclude_collect-IsOutcome :
    (Finished : Type 0) (model : String) (first : Option Fields) (s : Collected)
    → AreTexts s
    → Finished
    → IsOutcome Finished model (conclude_collect model first s)
unfolding conclude_collect IsOutcome
conclude_collect-IsOutcome Finished model none s texts done = status_of_cases no_answer
conclude_collect-IsOutcome Finished model (some first) s texts done =
    let (fs, e, named, kind) = answer_of-Returns model first s texts in
    subst (λ r. IsOutcome Finished model (answer r)) (sym e) (done, named, kind)

collect_stream-IsOutcome :
    (Finished : Type 0) (model : String) (stream : Stream) (c : Counts) (s : Collected)
    → AreTexts s
    → IsSound Finished c stream
    → IsOutcome Finished model (collect_stream model stream s)
unfolding collect_stream IsSound IsOutcome
collect_stream-IsOutcome Finished model (yields chunk counts rest) c s texts (fine, noted, sound) =
    let (now, e, begun) = add_chunk-Returns chunk s fine texts in
    subst
      (λ (r : Result Collected).
        IsOutcome Finished model (elim r [ ok t ↦ collect_stream model rest t | raised x ↦ broke ]))
      (sym e) (collect_stream-IsOutcome Finished model rest counts now begun.0 sound)
collect_stream-IsOutcome Finished model (returns counts) c s texts sound =
    conclude_collect-IsOutcome Finished model s.first s texts sound.1
collect_stream-IsOutcome Finished model (fails e counts) c s texts sound = sound.1
collect_stream-IsOutcome Finished model (crashes counts) c s texts sound = elim sound [ ]

module _ (strip : String → String) (loads : String → Loads) (model : String)
    (encodes : Fields → Bool) where
  -- Whatever the model server does, `_complete` either gives an answer under the public name of the
  -- model, and then the server answered 200 and sent the line that says it is done; or it gives an
  -- error with the status 400, 502 or 503. It raises only where the answer cannot be written as JSON.
  pub complete-cases :
      (reply : Reply)
      → ((fs : Fields) × IsFinished strip loads reply
          × (get "model" fs ≡ some (str model))
          × (get "object" fs ≡ some (str "chat.completion"))
          × (complete model encodes (backend_chunks strip loads reply no_counts)
              ≡ (if encodes fs then some (json_response fs) else none)))
        ⊎ ((e : BackendError) × IsGatewayStatus (status_of e)
            × (complete model encodes (backend_chunks strip loads reply no_counts)
                ≡ some (error_response (api_error e))))
  unfolding complete IsOutcome
  complete-cases reply =
      go (collect_stream model (backend_chunks strip loads reply no_counts) empty) (
        collect_stream-IsOutcome (IsFinished strip loads reply) model
          (backend_chunks strip loads reply no_counts) no_counts empty (tt, tt)
          (backend_chunks-IsSound strip loads reply no_counts))
    where
      go :
          (g : Gathered)
          → IsOutcome (IsFinished strip loads reply) model g
          → ((fs : Fields) × IsFinished strip loads reply
              × (get "model" fs ≡ some (str model))
              × (get "object" fs ≡ some (str "chat.completion"))
              × (response_of encodes g ≡ (if encodes fs then some (json_response fs) else none)))
            ⊎ ((e : BackendError) × IsGatewayStatus (status_of e)
                × (response_of encodes g ≡ some (error_response (api_error e))))
      go (gathered fs) (said, named, kind) = inl (fs, said, named, kind, refl)
      go (refused e) status = inr (e, status, refl)
      go broke h = elim h [ ]
