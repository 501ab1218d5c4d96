-- ===== src/Config/Profile.antt =====
-- src/agent_lab/config.py: the records of a profile and `parse_profile`, and the rules of
-- src/agent_lab/gateway/server.py that the gateway takes from it.
pub mod Checked
pub mod Applied
mod Tests
use agent_lab.Common.{
  ℕ, ◌*◌, ◌^◌, ◌≡◌, Bool, true, false, ◌&&◌, ◌||◌, not, List, [], ◌∷◌, ◌++◌, Option, none, some,
  String, str_eq, if◌then◌else◌, leb,
}
use agent_lab.Common.Int.{ℤ, pos, ltb_ℤ, leb_ℤ, eq_ℤ, pos_part}
use agent_lab.Json.{Value, Fields, Float, end, field, get}
use agent_lab.Json.SameBut.{contains}
use agent_lab.Gateway.Effort.{Rules, Limits, Sampling}
use agent_lab.Config.Text.{codes, is_tool_parser, is_model_name, is_hostname}
use agent_lab.Config.Size.{Python}
use agent_lab.Config.Section.{
  Section, Problem, of_section, of_field, between_fields, Read, ◌>>=◌, ◌>>◌, pure, open_section,
  finish, integer, number, size, string, boolean,
}

pub record BackendConfig : Type 0 where
  pub port : ℤ
  pub prefill_step_size : ℤ
  pub prompt_cache_size : ℤ
  pub prompt_cache_bytes : ℕ
  pub metal_memory_limit : ℕ
  pub tool_parser : String
  pub enable_thinking : Bool
  pub temperature : Float
  pub top_p : Float
  pub top_k : ℤ
  pub thinking_temperature : Float
  pub thinking_top_p : Float
  pub thinking_top_k : ℤ
  pub start_timeout_seconds : ℤ

pub record GatewayConfig : Type 0 where
  pub port : ℤ
  pub model_name : String
  pub max_context : ℤ
  pub max_output_tokens : ℤ
  pub min_output_tokens : ℤ
  pub queue_size : ℤ
  pub heartbeat_seconds : ℤ

pub record TunnelConfig : Type 0 where
  pub enabled : Bool
  pub hostname : String

-- `path` is left out: it only names the file in messages.
pub record Profile : Type 0 where
  pub name : String
  pub model_id : String
  pub backend : BackendConfig
  pub gateway : GatewayConfig
  pub tunnel : TunnelConfig
  pub gpu_wired_limit_mb : ℤ

-- A profile, a ConfigError with the errors found, or an OverflowError of `float` or `int`.
pub data Loaded : Type 0 where
  profile : Profile → Loaded
  invalid : List Problem → Loaded
  overflow : Loaded

abbrev at_least : ℤ → Option ℤ
at_least n = some n

abbrev any_text : String → Bool
any_text s = true

unfoldable pub model_section : Read String
model_section = string "id" any_text

unfoldable pub gateway_section : Read GatewayConfig
gateway_section = do
  port ← integer "port" (some (pos 1024)) (some (pos 65535))
  model_name ← string "model_name" (λ s. is_model_name (codes s))
  max_context ← integer "max_context" (some (pos 1)) none
  max_output_tokens ← integer "max_output_tokens" (some (pos 1)) none
  min_output_tokens ← integer "min_output_tokens" (some (pos 1)) none
  queue_size ← integer "queue_size" (some (pos 0)) none
  heartbeat_seconds ← integer "heartbeat_seconds" (some (pos 1)) (some (pos 99))
  pure (record {
    port = port;
    model_name = model_name;
    max_context = max_context;
    max_output_tokens = max_output_tokens;
    min_output_tokens = min_output_tokens;
    queue_size = queue_size;
    heartbeat_seconds = heartbeat_seconds;
  })

unfoldable pub tunnel_section : Read TunnelConfig
tunnel_section = do
  enabled ← boolean "enabled"
  hostname ← string "hostname" (λ s. is_hostname (codes s))
  pure (record { enabled = enabled; hostname = hostname })

unfoldable pub system_section : Read ℤ
system_section = integer "gpu_wired_limit_mb" (some (pos 1)) none

abbrev known_sections : List String
known_sections = "model" ∷ "backend" ∷ "gateway" ∷ "tunnel" ∷ "system" ∷ []

pub unknown_sections : Fields → List Problem
unknown_sections end = []
unknown_sections (field k v rest) =
    let others = unknown_sections rest in
    if contains known_sections k then others else of_section k ∷ others

pub add_if : Bool → String → List Problem → List Problem
add_if true rule errors = between_fields rule ∷ errors
add_if false rule errors = errors

-- The rules that join fields.
unfoldable pub cross_rules : BackendConfig → GatewayConfig → ℤ → List Problem
unfolding add_if
cross_rules b g wired =
    add_if (leb (pos_part wired * 1024 ^ 2) b.metal_memory_limit) "metal_memory_limit" (
      add_if (ltb_ℤ g.max_context g.max_output_tokens) "max_output_tokens" (
        add_if (ltb_ℤ g.max_output_tokens g.min_output_tokens) "min_output_tokens" (
          add_if (leb_ℤ g.max_context g.min_output_tokens) "max_context"
            (add_if (eq_ℤ b.port g.port) "port" []))))

-- One section: open it, read it, finish it; the errors go on to the next.
unfoldable pub read_section :
    {A : Type 0} → Read A → String → Fields → List Problem → Option (A × List Problem)
read_section m name table errors = elim (m (open_section name (get name table) errors)) [
  | none ↦ none
  | some (a, s) ↦ some (a, finish s)
]

pub is_empty : List Problem → Bool
is_empty [] = true
is_empty (e ∷ es) = false

module _ (py : Python) where
  unfoldable pub backend_section : Read BackendConfig
  backend_section = do
    port ← integer "port" (some (pos 1024)) (some (pos 65535))
    prefill_step_size ← integer "prefill_step_size" (some (pos 1)) none
    prompt_cache_size ← integer "prompt_cache_size" (some (pos 0)) none
    prompt_cache_bytes ← size py "prompt_cache_bytes"
    metal_memory_limit ← size py "metal_memory_limit"
    tool_parser ← string "tool_parser" (λ s. is_tool_parser (codes s))
    enable_thinking ← boolean "enable_thinking"
    temperature ← number py "temperature" (pos 0) (pos 2)
    top_p ← number py "top_p" (pos 0) (pos 1)
    top_k ← integer "top_k" (some (pos 0)) none
    thinking_temperature ← number py "thinking_temperature" (pos 0) (pos 2)
    thinking_top_p ← number py "thinking_top_p" (pos 0) (pos 1)
    thinking_top_k ← integer "thinking_top_k" (some (pos 0)) none
    start_timeout_seconds ← integer "start_timeout_seconds" (some (pos 1)) none
    pure (record {
      port = port;
      prefill_step_size = prefill_step_size;
      prompt_cache_size = prompt_cache_size;
      prompt_cache_bytes = prompt_cache_bytes;
      metal_memory_limit = metal_memory_limit;
      tool_parser = tool_parser;
      enable_thinking = enable_thinking;
      temperature = temperature;
      top_p = top_p;
      top_k = top_k;
      thinking_temperature = thinking_temperature;
      thinking_top_p = thinking_top_p;
      thinking_top_k = thinking_top_k;
      start_timeout_seconds = start_timeout_seconds;
    })

-- `if errors: raise`, after the rules that join fields where there are none yet.
unfoldable pub conclude : Profile → List Problem → Loaded
unfolding is_empty
conclude p errors =
    let all =
      if is_empty errors then cross_rules p.backend p.gateway p.gpu_wired_limit_mb else errors in
    if is_empty all then profile p else invalid all

module _ (py : Python) where
  -- `parse_profile(name, path, data)`
  unfoldable pub parse_profile : String → Fields → Loaded
  unfolding unknown_sections
  parse_profile name table =
      elim (read_section model_section "model" table (unknown_sections table)) [
        | none ↦ overflow
        | some (model, e₁) ↦ elim (read_section (backend_section py) "backend" table e₁) [
          | none ↦ overflow
          | some (backend, e₂) ↦ elim (read_section gateway_section "gateway" table e₂) [
            | none ↦ overflow
            | some (gateway, e₃) ↦ elim (read_section tunnel_section "tunnel" table e₃) [
              | none ↦ overflow
              | some (tunnel, e₄) ↦ elim (read_section system_section "system" table e₄) [
                | none ↦ overflow
                | some (wired, e₅) ↦
                    conclude
                      (record {
                        name = name;
                        model_id = model;
                        backend = backend;
                        gateway = gateway;
                        tunnel = tunnel;
                        gpu_wired_limit_mb = wired;
                      })
                      e₅
              ]
            ]
          ]
        ]
      ]

-- `rules_for(profile, chat_template)`: whether the template reads the variable is the argument.
unfoldable pub rules_for : Profile → Bool → Rules
rules_for p has_effort = record {
  model_name = p.gateway.model_name;
  limits = record {
    max_context = p.gateway.max_context;
    max_output_tokens = p.gateway.max_output_tokens;
    min_output_tokens = p.gateway.min_output_tokens;
  };
  default_thinking = p.backend.enable_thinking;
  sampling = record {
    temperature = p.backend.temperature;
    top_p = p.backend.top_p;
    top_k = p.backend.top_k;
  };
  thinking_sampling = record {
    temperature = p.backend.thinking_temperature;
    top_p = p.backend.thinking_top_p;
    top_k = p.backend.thinking_top_k;
  };
  effort_variable = if has_effort then some "reasoning_effort" else none;
}
