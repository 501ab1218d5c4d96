-- ===== src/Gateway/Backend/Tests.antt =====
-- A reply of two lines, and the theorem about it.
use agent_lab.Common.{false, [], ◌∷◌, String, str_eq, if◌then◌else◌}
use agent_lab.Common.Int.{pos}
use agent_lab.Json.{Fields, int, obj, end, field}
use agent_lab.Gateway.Library.{Loads, loaded, value_error}
use agent_lab.Gateway.Backend.{Reply, replied, no_counts, backend_chunks}
use agent_lab.Gateway.Backend.Sound.{IsSound, IsFinished, backend_chunks-IsSound}

abbrev usage_chunk : Fields
usage_chunk = field "usage" (obj (field "prompt_tokens" (int (pos 12)) end)) end

abbrev same : String → String
same s = s

abbrev one_chunk : String → Loads
one_chunk s = if str_eq s "chunk" then loaded (obj usage_chunk) else value_error

abbrev reply : Reply
reply = replied 200 ("data:chunk" ∷ "data:[DONE]" ∷ []) false

backend_chunks-IsSound_example :
    IsSound
      (IsFinished same one_chunk reply)
      no_counts
      (backend_chunks same one_chunk reply no_counts)
backend_chunks-IsSound_example = backend_chunks-IsSound same one_chunk reply no_counts
