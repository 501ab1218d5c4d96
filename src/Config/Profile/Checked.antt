-- ===== src/Config/Profile/Checked.antt =====
-- What a profile that `parse_profile` returns is known to satisfy.
use agent_lab.Common.{
  ℕ, ◌*◌, ◌^◌, ◌≤◌, ◌<◌, ◌≡◌, refl, ◌∙◌, ap, subst, Bool, true, false, List, [], ◌∷◌, Option, none,
  some, String, arith, if◌then◌else◌, some_inj, leb,
}
use agent_lab.Common.Int.{ℤ, pos, ◌≤ℤ◌, ltb_ℤ, leb_ℤ, eq_ℤ, pos_part}
use agent_lab.Json.{Fields, float, get}
use agent_lab.Gateway.Options.Numbers.{InRange}
use agent_lab.Config.Text.{codes, is_tool_parser, is_model_name, is_hostname}
use agent_lab.Config.Size.{Python}
use agent_lab.Config.Section.{Section, Problem, Read, open_section, finish, integer}
use agent_lab.Config.Section.Reads.{
  Reads, Reads-pure, finish-grows, open_section-clean, Reads->>=, integer-Reads, string-Reads,
  boolean-Reads, size-Reads, number-Reads, ConvertsSmall, AtLeast, AtMost,
}
use agent_lab.Config.Profile.{
  BackendConfig, GatewayConfig, Profile, Loaded, profile, invalid, overflow, parse_profile,
  read_section, model_section, backend_section, gateway_section, tunnel_section, system_section,
  unknown_sections, cross_rules, conclude, add_if, is_empty,
}

abbrev pub IsPort : ℤ → Type 0
IsPort n = (pos 1024 ≤ℤ n) × (n ≤ℤ pos 65535)

pub record BackendIsChecked (b : BackendConfig) : Type 0 where
  pub port : IsPort b.port
  pub steps : pos 1 ≤ℤ b.prefill_step_size
  pub cache : (pos 0 ≤ℤ b.prompt_cache_size) × (0 < b.prompt_cache_bytes)
  pub memory : 0 < b.metal_memory_limit
  pub parser : is_tool_parser (codes b.tool_parser) ≡ true
  pub plain :
      InRange (pos 0) (pos 2) (float b.temperature) × InRange (pos 0) (pos 1) (float b.top_p)
  pub thinking :
      InRange (pos 0) (pos 2) (float b.thinking_temperature)
      × InRange (pos 0) (pos 1) (float b.thinking_top_p)
  pub top_ks : (pos 0 ≤ℤ b.top_k) × (pos 0 ≤ℤ b.thinking_top_k)
  pub timeout : pos 1 ≤ℤ b.start_timeout_seconds

pub record GatewayIsChecked (g : GatewayConfig) : Type 0 where
  pub port : IsPort g.port
  pub model_name : is_model_name (codes g.model_name) ≡ true
  pub positive :
      (pos 1 ≤ℤ g.max_context) × (pos 1 ≤ℤ g.max_output_tokens) × (pos 1 ≤ℤ g.min_output_tokens)
  pub queue : pos 0 ≤ℤ g.queue_size
  pub heartbeat : (pos 1 ≤ℤ g.heartbeat_seconds) × (g.heartbeat_seconds ≤ℤ pos 99)

gateway-Reads : Reads gateway_section GatewayIsChecked
unfolding gateway_section
gateway-Reads = Reads->>= _ _ (integer-Reads "port" (some (pos 1024)) (some (pos 65535))) λ port.
    Reads->>= _ _ (string-Reads "model_name" (λ s. is_model_name (codes s))) λ model_name.
      Reads->>= _ _ (integer-Reads "max_context" (some (pos 1)) none) λ a.
        Reads->>= _ _ (integer-Reads "max_output_tokens" (some (pos 1)) none) λ b.
          Reads->>= _ _ (integer-Reads "min_output_tokens" (some (pos 1)) none) λ c.
            Reads->>= _ _ (integer-Reads "queue_size" (some (pos 0)) none) λ q.
              Reads->>= _ _ (integer-Reads "heartbeat_seconds" (some (pos 1)) (some (pos 99))) λ h.
                Reads-pure _ λ hh hq hc hb ha hm hp. record {
                  port = hp;
                  model_name = hm;
                  positive = (ha.0, hb.0, hc.0);
                  queue = hq.0;
                  heartbeat = hh;
                }

tunnel-Reads : Reads tunnel_section (λ t. is_hostname (codes t.hostname) ≡ true)
unfolding tunnel_section
tunnel-Reads = Reads->>= _ _ (boolean-Reads "enabled") λ on.
    Reads->>= _ _ (string-Reads "hostname" (λ s. is_hostname (codes s)))
      λ host. Reads-pure _ λ h u. h

system-Reads : Reads system_section (λ n. pos 1 ≤ℤ n)
unfolding system_section
system-Reads = record {
  keeps = raw.keeps;
  grows = raw.grows;
  good = λ s a t v e clean. (raw.good s a t v e clean).0;
}
  where
    raw :
        Reads
          (integer "gpu_wired_limit_mb" (some (pos 1)) none)
          (λ n. AtLeast (some (pos 1)) n × AtMost none n)
    raw = integer-Reads "gpu_wired_limit_mb" (some (pos 1)) none

module _ (py : Python) (exact : ConvertsSmall py) where
  backend-Reads : Reads (backend_section py) BackendIsChecked
  unfolding backend_section
  backend-Reads =
      let count = λ (key : String) (low : ℤ). integer-Reads key (some low) none in
      let real = λ (key : String) (high : ℕ) (small : high ≤ 2 ^ 53).
        number-Reads py exact key 0 high small in
      Reads->>= _ _ (integer-Reads "port" (some (pos 1024)) (some (pos 65535))) λ port.
        Reads->>= _ _ (count "prefill_step_size" (pos 1)) λ a.
          Reads->>= _ _ (count "prompt_cache_size" (pos 0)) λ b.
            Reads->>= _ _ (size-Reads py "prompt_cache_bytes") λ c.
              Reads->>= _ _ (size-Reads py "metal_memory_limit") λ d.
                Reads->>= _ _ (string-Reads "tool_parser" (λ s. is_tool_parser (codes s))) λ e.
                  Reads->>= _ _ (boolean-Reads "enable_thinking") λ f.
                    Reads->>= _ _ (real "temperature" 2 (omega arith)) λ g.
                      Reads->>= _ _ (real "top_p" 1 (omega arith)) λ h.
                        Reads->>= _ _ (count "top_k" (pos 0)) λ i.
                          Reads->>= _ _ (real "thinking_temperature" 2 (omega arith)) λ j.
                            Reads->>= _ _ (real "thinking_top_p" 1 (omega arith)) λ k.
                              Reads->>= _ _ (count "thinking_top_k" (pos 0)) λ l.
                                Reads->>= _ _ (count "start_timeout_seconds" (pos 1)) λ m.
                                  Reads-pure _ λ hm hl hk hj hi hh hg hf he hd hc hb ha hp. record {
                                    port = hp;
                                    steps = ha.0;
                                    cache = (hb.0, hc);
                                    memory = hd;
                                    parser = he;
                                    plain = (hg, hh);
                                    thinking = (hj, hk);
                                    top_ks = (hi.0, hl.0);
                                    timeout = hm.0;
                                  }

read_section-good :
    {A : Type 0} {P : A → Type 0} (m : Read A) (name : String) (table : Fields)
    (errors after : List Problem) (a : A)
    → Reads m P
    → read_section m name table errors ≡ some (a, after)
    → after ≡ []
    → (errors ≡ []) × P a
unfolding read_section
read_section-good {A} {P} m name table errors after a r e clean = go (m opened) refl e
  where
    opened : Section
    opened = open_section name (get name table) errors

    go :
        (o : Option (A × Section))
        → m opened ≡ o
        → ◌≡◌ {A = Option (A × List Problem)}
            (elim o [ none ↦ none | some (b, s) ↦ some (b, finish s) ])
            (some (a, after))
        → (errors ≡ []) × P a
    go none eq e = cc
    go (some (b, s)) eq e =
        let pair = some_inj e in
        let done = finish-grows s (ap (λ (x : A × List Problem). x.1) pair ∙ clean) in
        let (valid, before) =
          open_section-clean name (get name table) errors (r.grows opened b s eq done) in
        (
          before,
          subst P (ap (λ (x : A × List Problem). x.0) pair) (r.good opened b s valid eq done),
        )

conclude-clean :
    (p q : Profile) (errors : List Problem)
    → conclude q errors ≡ profile p
    → (q ≡ p) × (errors ≡ []) × (cross_rules q.backend q.gateway q.gpu_wired_limit_mb ≡ [])
unfolding conclude is_empty
conclude-clean p q [] e = go (cross_rules q.backend q.gateway q.gpu_wired_limit_mb) e
  where
    go :
        (all : List Problem)
        → (if is_empty all then profile q else invalid all) ≡ profile p
        → (q ≡ p) × (◌≡◌ {A = List Problem} [] []) × (all ≡ [])
    go [] e = (ground arith, refl, refl)
    go (x ∷ xs) e = cc
conclude-clean p q (x ∷ xs) e = cc

-- The rules that join fields, met.
pub record FieldsAgree (b : BackendConfig) (g : GatewayConfig) (wired : ℤ) : Type 0 where
  pub ports_differ : eq_ℤ b.port g.port ≡ false
  pub context : ltb_ℤ g.min_output_tokens g.max_context ≡ true
  pub output : g.min_output_tokens ≤ℤ g.max_output_tokens
  pub fits : g.max_output_tokens ≤ℤ g.max_context
  pub memory : b.metal_memory_limit < pos_part wired * 1024 ^ 2

add_if-clean :
    (b : Bool) (rule : String) (errors : List Problem)
    → add_if b rule errors ≡ []
    → (b ≡ false) × (errors ≡ [])
unfolding add_if
add_if-clean true rule errors e = cc
add_if-clean false rule errors e = (refl, e)

cross_rules-clean :
    (b : BackendConfig) (g : GatewayConfig) (wired : ℤ)
    → cross_rules b g wired ≡ []
    → FieldsAgree b g wired
unfolding cross_rules
cross_rules-clean b g wired e =
    let r₄ = add_if (eq_ℤ b.port g.port) "port" [] in
    let r₃ = add_if (leb_ℤ g.max_context g.min_output_tokens) "max_context" r₄ in
    let r₂ = add_if (ltb_ℤ g.max_output_tokens g.min_output_tokens) "min_output_tokens" r₃ in
    let r₁ = add_if (ltb_ℤ g.max_context g.max_output_tokens) "max_output_tokens" r₂ in
    let (memory, e₁) =
      add_if-clean (leb (pos_part wired * 1024 ^ 2) b.metal_memory_limit) "metal_memory_limit" r₁
        e in
    let (fits, e₂) =
      add_if-clean (ltb_ℤ g.max_context g.max_output_tokens) "max_output_tokens" r₂ e₁ in
    let (output, e₃) =
      add_if-clean (ltb_ℤ g.max_output_tokens g.min_output_tokens) "min_output_tokens" r₃ e₂ in
    let (context, e₄) =
      add_if-clean (leb_ℤ g.max_context g.min_output_tokens) "max_context" r₄ e₃ in
    let (ports, e₅) = add_if-clean (eq_ℤ b.port g.port) "port" [] e₄ in
    record {
      ports_differ = ports;
      context = ground (arith, context);
      output = ground (arith, output);
      fits = ground (arith, fits);
      memory = ground (arith, memory);
    }

past {ℓ} :
    {A : Type ℓ} {p : Profile} (o : Option A) (f : A → Loaded)
    → (elim o [ none ↦ overflow | some a ↦ f a ]) ≡ profile p
    → (a : A) × (o ≡ some a) × (f a ≡ profile p)
past none f e = cc
past (some a) f e = (a, refl, e)

pub record IsChecked (p : Profile) : Type 0 where
  pub backend : BackendIsChecked p.backend
  pub gateway : GatewayIsChecked p.gateway
  pub hostname : is_hostname (codes p.tunnel.hostname) ≡ true
  pub wired : pos 1 ≤ℤ p.gpu_wired_limit_mb
  pub agree : FieldsAgree p.backend p.gateway p.gpu_wired_limit_mb

module _ (py : Python) (exact : ConvertsSmall py) where
  -- Where Python converts small whole numbers exactly: every profile that `parse_profile` returns has
  -- its ports, counts, sizes, sampling numbers and names in range, different ports for the backend and
  -- the gateway, a memory limit below the GPU limit, and token limits that agree with the context.
  pub parse_profile-IsChecked :
      (name : String) (table : Fields) (p : Profile)
      → parse_profile py name table ≡ profile p
      → IsChecked p
  unfolding parse_profile
  parse_profile-IsChecked name table p e =
      let ((model, e₁), r₁, c₁) =
        past (read_section model_section "model" table (unknown_sections table)) _ e in
      let ((backend, e₂), r₂, c₂) =
        past (read_section (backend_section py) "backend" table e₁) _ c₁ in
      let ((gateway, e₃), r₃, c₃) = past (read_section gateway_section "gateway" table e₂) _ c₂ in
      let ((tunnel, e₄), r₄, c₄) = past (read_section tunnel_section "tunnel" table e₃) _ c₃ in
      let ((wired, e₅), r₅, c₅) = past (read_section system_section "system" table e₄) _ c₄ in
      let (same, z₅, rules) = conclude-clean p _ e₅ c₅ in
      let (z₄, w) =
        read_section-good system_section "system" table e₄ e₅ wired system-Reads r₅ z₅ in
      let (z₃, h) =
        read_section-good tunnel_section "tunnel" table e₃ e₄ tunnel tunnel-Reads r₄ z₄ in
      let (z₂, g) =
        read_section-good gateway_section "gateway" table e₂ e₃ gateway gateway-Reads r₃ z₃ in
      let (z₁, b) =
        read_section-good (backend_section py) "backend" table e₁ e₂ backend
          (backend-Reads py exact) r₂ z₂ in
      subst IsChecked same (record {
        backend = b;
        gateway = g;
        hostname = h;
        wired = w;
        agree = cross_rules-clean backend gateway wired rules;
      })
