-- ===== src/Gateway/Answer/Tests.antt =====
-- The theorems about responses, at work.
use agent_lab.Common.{
  ◌≡◌, ◌⊎◌, Bool, refl, true, false, [], ◌∷◌, some, String, str_eq, if◌then◌else◌,
}
use agent_lab.Common.Int.{pos}
use agent_lab.Json.{Fields, int, str, obj, end, field, get}
use agent_lab.Gateway.Library.{Loads, loaded, value_error}
use agent_lab.Gateway.Backend.{
  BackendError, Reply, replied, no_counts, status_of, api_error, backend_chunks,
}
use agent_lab.Gateway.Backend.Sound.{IsGatewayStatus, IsFinished}
use agent_lab.Gateway.Queue.{
  Place, reserved, RequestQueue, reserve, full, changed, Reach, here, next, reserves,
}
use agent_lab.Gateway.Answer.{error_response, json_response, complete, left, end_call}
use agent_lab.Gateway.Answer.Complete.{complete-cases}
use agent_lab.Gateway.Answer.Released.{IsReleased, end_call-IsReleased}

abbrev same : String → String
same s = s

abbrev one_chunk : String → Loads
one_chunk s =
    if str_eq s "chunk"
    then loaded (obj (field "usage" (obj (field "prompt_tokens" (int (pos 12)) end)) end))
    else value_error

abbrev reply : Reply
reply = replied 200 ("data:chunk" ∷ "data:[DONE]" ∷ []) false

abbrev all : Fields → Bool
all fs = true

complete-cases_example :
    ((fs : Fields) × IsFinished same one_chunk reply
      × (get "model" fs ≡ some (str "qwen"))
      × (get "object" fs ≡ some (str "chat.completion"))
      × (complete "qwen" all (backend_chunks same one_chunk reply no_counts)
          ≡ some (json_response fs)))
    ⊎ ((e : BackendError) × IsGatewayStatus (status_of e)
        × (complete "qwen" all (backend_chunks same one_chunk reply no_counts)
            ≡ some (error_response (api_error e))))
complete-cases_example = complete-cases same one_chunk "qwen" all reply

abbrev fresh : Place
fresh = record { waiting = true; stage = reserved }

abbrev one : RequestQueue
one = record {
  queue_size = 1;
  waiting = 1;
  active = 0;
  locked = false;
  changes = (0, 1) ∷ [];
  places = fresh ∷ [];
}

one-Reach : Reach 1 one
unfolding reserve full changed
one-Reach = next here (reserves refl)

end_call-IsReleased_example : IsReleased one 0 fresh (end_call left false 0 one 0).1
end_call-IsReleased_example = end_call-IsReleased 0 fresh left false 0 one-Reach refl
