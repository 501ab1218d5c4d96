-- ===== src/Gateway/Limit.antt =====
-- src/agent_lab/gateway/translate.py: `limit`.
use agent_lab.Common.{
  ℕ, ◌≡◌, refl, Bool-cases, ◌⊎◌, inl, inr, Bool, true, false, Option, none, some, if◌then◌else◌,
  arith,
}
use agent_lab.Common.Int.{ℤ, pos, ◌-ℤ◌, ◌≤ℤ◌, ltb_ℤ, min_ℤ, -ℤ_parts}
use agent_lab.Gateway.Effort.{Limits}
use agent_lab.Gateway.Result.{Result, ok, raised, Raised, api, named}

abbrev pub context_length_exceeded : Raised
context_length_exceeded = api (record {
  status = 400;
  code = some "context_length_exceeded";
  param = some (named "messages");
  kind = "invalid_request_error";
})

-- min(limits.max_output_tokens, limits.max_context - prompt_tokens)
unfoldable pub allowed : ℕ → Limits → ℤ
allowed prompt limits = min_ℤ limits.max_output_tokens (limits.max_context -ℤ pos prompt)

unfoldable pub limit : ℕ → Option ℤ → Limits → Result ℤ
unfolding allowed
limit prompt requested limits =
    if ltb_ℤ (limits.max_context -ℤ limits.min_output_tokens) (pos prompt)
    then raised context_length_exceeded
    else ok
        (elim requested [ none ↦ allowed prompt limits | some r ↦ min_ℤ r (allowed prompt limits) ])

-- What a profile guarantees of its limits (`parse_profile`).
pub record IsSound (limits : Limits) : Type 0 where
  pub positive : pos 1 ≤ℤ limits.min_output_tokens
  pub below_output : limits.min_output_tokens ≤ℤ limits.max_output_tokens
  pub output_fits : limits.max_output_tokens ≤ℤ limits.max_context

-- What the client asked for, where it asked, is positive (`prepare`).
abbrev pub IsPositive : Option ℤ → Type 0
IsPositive none = Unit {0}
IsPositive (some r) = pos 1 ≤ℤ r

-- The largest answer that the client agreed to, or the least that the gateway promises otherwise.
abbrev pub Honours : Option ℤ → Limits → ℤ → Type 0
Honours none limits n = limits.min_output_tokens ≤ℤ n
Honours (some r) limits n = (n ≤ℤ r) × (ltb_ℤ n r ≡ true → limits.min_output_tokens ≤ℤ n)

-- The test of `limit`.
abbrev too_long : ℕ → Limits → Bool
too_long prompt limits = ltb_ℤ (limits.max_context -ℤ limits.min_output_tokens) (pos prompt)

allowed_bounds :
    (prompt : ℕ) (limits : Limits)
    → IsSound limits
    → too_long prompt limits ≡ false
    → (limits.min_output_tokens ≤ℤ allowed prompt limits)
      × (allowed prompt limits ≤ℤ limits.max_context -ℤ pos prompt)
      × (allowed prompt limits ≤ℤ limits.max_output_tokens)
unfolding allowed
allowed_bounds prompt limits v e = ground (
  arith,
  v.below_output,
  -ℤ_parts limits.max_context limits.min_output_tokens,
  -ℤ_parts limits.max_context (pos prompt),
)

refused_bound :
    (prompt : ℕ) (limits : Limits)
    → too_long prompt limits ≡ true
    → limits.max_context -ℤ pos prompt ≤ℤ limits.min_output_tokens -ℤ pos 1
refused_bound prompt limits e = ground (
  arith,
  -ℤ_parts limits.max_context limits.min_output_tokens,
  -ℤ_parts limits.max_context (pos prompt),
  -ℤ_parts limits.min_output_tokens (pos 1),
)

-- For sound limits and a positive request, or none: a prompt that leaves less than
-- `min_output_tokens` of the context is refused as too long, and any other gets a positive number of
-- tokens that fits into the context behind the prompt, is at most `max_output_tokens` and at most
-- what was asked for, and is less than `min_output_tokens` only where the client asked for no more.
pub limit_cases :
    (prompt : ℕ) (requested : Option ℤ) (limits : Limits)
    → IsSound limits
    → IsPositive requested
    → ((limit prompt requested limits ≡ raised context_length_exceeded)
        × (limits.max_context -ℤ pos prompt ≤ℤ limits.min_output_tokens -ℤ pos 1))
      ⊎ ((n : ℤ) × (limit prompt requested limits ≡ ok n)
          × (pos 1 ≤ℤ n)
          × (n ≤ℤ limits.max_context -ℤ pos prompt)
          × (n ≤ℤ limits.max_output_tokens)
          × Honours requested limits n)
unfolding limit
limit_cases prompt none limits v h = elim (Bool-cases (too_long prompt limits)) [
  | inl e ↦ inl (rw (e, limit) refl, refused_bound prompt limits e)
  | inr e ↦ inr (
    allowed prompt limits,
    rw (e, limit) refl,
    omega (arith, allowed_bounds prompt limits v e, v.positive),
    (allowed_bounds prompt limits v e).1,
    (allowed_bounds prompt limits v e).2,
    (allowed_bounds prompt limits v e).0,
  )
]
limit_cases prompt (some r) limits v h = elim (Bool-cases (too_long prompt limits)) [
  | inl e ↦ inl (rw (e, limit) refl, refused_bound prompt limits e)
  | inr e ↦ inr (
    min_ℤ r (allowed prompt limits),
    rw (e, limit) refl,
    ground (arith, allowed_bounds prompt limits v e, v.positive),
    ground (arith, allowed_bounds prompt limits v e),
    ground (arith, allowed_bounds prompt limits v e),
    (ground arith, λ l. ground (arith, allowed_bounds prompt limits v e)),
  )
]
