-- ===== src/Gateway/Chunks/Tests.antt =====
-- An answer of two chunks, and the theorem about it.
use agent_lab.Common.{refl, [], ◌∷◌, String}
use agent_lab.Common.Int.{pos}
use agent_lab.Json.{Fields, int, str, arr, obj, nil, cons, end, field, get}
use agent_lab.Gateway.Chunks.{
  fields_or_empty, items_or_empty, text_fine, usage_fine, calls_fine, delta_fine, choice_fine,
  all_dicts, all_choices, choices_fine, well_formed,
}
use agent_lab.Gateway.Chunks.Public.{public_chunk, IsPublic, public_chunk-IsPublic}
use agent_lab.Gateway.Chunks.Total.{AreWellFormed}

abbrev delta_chunk : String → Fields
delta_chunk text = field "id" (str "chatcmpl-1") (
    field "choices"
      (arr (cons (obj (field "delta" (obj (field "content" (str text) end)) end)) nil)) end)

abbrev usage_chunk : Fields
usage_chunk =
    field "id" (str "chatcmpl-1")
      (field "usage" (obj (field "prompt_tokens" (int (pos 12)) end)) end)

fine : AreWellFormed (delta_chunk "hi" ∷ usage_chunk ∷ [])
unfolding well_formed usage_fine choices_fine items_or_empty fields_or_empty all_choices choice_fine
    delta_fine text_fine calls_fine all_dicts get
fine = (refl, (refl, tt))

abbrev thinking_chunk : Fields
thinking_chunk = field "system_fingerprint" (str "0.32.0") (
    field "choices"
      (arr (cons (obj (field "delta" (obj (field "reasoning" (str "hm") end)) end)) nil)) end)

public_chunk-IsPublic_example : IsPublic "qwen" thinking_chunk (public_chunk "qwen" thinking_chunk)
public_chunk-IsPublic_example = public_chunk-IsPublic "qwen" thinking_chunk
