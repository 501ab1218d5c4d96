-- ===== src/Serve/Up.antt =====
-- What `serve` needs before it starts a process, and what is up when it returns.
use agent_lab.Common.{
  ℕ, ◌≡◌, refl, sym, ap, ◌∙◌, ◌⊎◌, inl, inr, Bool, true, false, not, List, [], ◌∷◌, ◌++◌, Option,
  none, some, String, str_eq, if◌then◌else◌, get_elem?,
}
use agent_lab.Process.{Record, status, is_200, answers}
use agent_lab.Process.Start.{Poll, Started, is_live, start}
use agent_lab.Process.Start.Outcome.{
  IsReady, IsOutcome, left_alone, came_up, failed, outlived, start-IsOutcome, start-unsaved,
}
use agent_lab.Serve.{
  Failure, Checks, Warning, Step, gives, refuses, check_port, preflight, Service, Done, refused,
  start_service, concluded, start_done, already, after_preflight, start_backend, start_gateway,
  Served, after_backend, serve, other_profile, backend_failed, gateway_failed, port_taken,
  not_downloaded, low_gpu_limit, gpu_limit, is_stopped, pressure_warnings, started_meanwhile,
}

-- A process is up: it ran under the profile, another `serve` started it, under any profile, before this
-- one had the lock, or this one started it, and a look found it ready.
pub data IsUp (healthy : Option ℕ → Bool) (name : String) (s : Service) : Type 0 where
  was_up :
      (r : Record)
      → s.found ≡ some r
      → str_eq r.profile name ≡ true
      → is_live (status healthy s.machine s.found) ≡ true
      → IsUp healthy name s
  meanwhile :
      is_live (status healthy s.machine_at_start s.found_at_start) ≡ true → IsUp healthy name s
  is_started :
      (i : ℕ) (p : Poll)
      → get_elem? (s.polls ++ s.last ∷ []) i ≡ some p
      → IsReady healthy s.child.pid p
      → IsUp healthy name s

module _ (healthy : Option ℕ → Bool) (failure : Failure) (name : String) (s : Service) where
  outcome-IsUp :
      (st : Started)
      → IsOutcome healthy s.machine_at_start s.found_at_start s.child s.polls s.last s.cleanup st
      → concluded healthy failure s st.answer ≡ gives tt
      → IsUp healthy name s
  outcome-IsUp _ (left_alone live) e = meanwhile live
  outcome-IsUp _ (came_up i p free at ready) e = is_started i p at ready
  outcome-IsUp _ (failed signals file free gone file_gone) e = cc
  outcome-IsUp _ (outlived free unreaped first second) e = cc

  start_done-IsUp : (start_done healthy failure s).result ≡ gives tt → IsUp healthy name s
  unfolding start_done start_service
  start_done-IsUp e = go s.saves e
    where
      go :
          (saves : Bool)
          → concluded healthy failure s
              (start healthy s.machine_at_start s.found_at_start s.child saves s.polls s.last
                s.cleanup).answer
            ≡ gives tt
          → IsUp healthy name s
      go true eq =
          outcome-IsUp _
            (start-IsOutcome healthy s.machine_at_start s.found_at_start s.child s.polls s.last
              s.cleanup)
            eq
      go false eq =
          elim (start-unsaved healthy s.machine_at_start s.found_at_start s.child s.polls s.last
            s.cleanup) [
              | inl live ↦ meanwhile live
              | inr none_returned ↦
                  cc (sym (ap (λ a. concluded healthy failure s a) none_returned) ∙ eq)
            ]

  already-IsUp :
      (found : Option Record)
      → s.found ≡ found
      → is_live (status healthy s.machine s.found) ≡ true
      → (already name found).result ≡ gives tt
      → IsUp healthy name s
  unfolding already
  already-IsUp none f live e = cc
  already-IsUp (some r) f live e = go (str_eq r.profile name) refl e
    where
      go :
          (b : Bool)
          → str_eq r.profile name ≡ b
          → (if b
              then record { started = none; result = gives tt }
              else refused other_profile).result
            ≡ gives tt
          → IsUp healthy name s
      go true same eq = was_up r f same live
      go false same eq = cc

-- What held before the backend was started.
pub record IsCleared (c : Checks) (force : Bool) : Type 0 where
  pub downloaded : c.downloaded ≡ true
  pub gpu : (c.gpu_ok ≡ true) ⊎ (force ≡ true)
  pub port_free : c.port_in_use ≡ false

check_port-free :
    (c : Checks) (ws ws' : List Warning) → check_port c ws ≡ gives ws' → c.port_in_use ≡ false
unfolding check_port
check_port-free c ws ws' e = go c.port_in_use e
  where
    go :
        (b : Bool)
        → (if b
            then refuses (if is_stopped c.state then port_taken else started_meanwhile)
            else gives (ws ++ pressure_warnings c.pressure))
          ≡ gives ws'
        → b ≡ false
    go true eq = cc
    go false eq = refl

preflight-IsCleared :
    (c : Checks) (force : Bool) (ws : List Warning)
    → preflight c force ≡ gives ws
    → IsCleared c force
unfolding preflight
preflight-IsCleared c force ws e = go c.downloaded refl c.gpu_ok refl force refl e
  where
    go :
        (d : Bool)
        → c.downloaded ≡ d
        → (g : Bool) → c.gpu_ok ≡ g
        → (f : Bool) → force ≡ f
        → (if not d
            then refuses not_downloaded
            else if g
            then check_port c []
            else if f
            then check_port c (gpu_limit ∷ [])
            else refuses low_gpu_limit)
          ≡ gives ws
        → IsCleared c force
    go false d g gg f ff eq = cc
    go true d true gg f ff eq = record {
      downloaded = d;
      gpu = inl gg;
      port_free = check_port-free c [] ws eq;
    }
    go true d false gg true ff eq = record {
      downloaded = d;
      gpu = inr ff;
      port_free = check_port-free c (gpu_limit ∷ []) ws eq;
    }
    go true d false gg false ff eq = cc

module _ (name : String) where
  -- After `_start_backend` returned, the backend is up.
  start_backend-IsUp :
      (force : Bool) (checks : Checks) (s : Service)
      → (start_backend name force checks s).result ≡ gives tt
      → IsUp is_200 name s
  unfolding start_backend
  start_backend-IsUp force checks s e =
      go (is_live (status is_200 s.machine s.found)) refl (preflight checks force) e
    where
      go :
          (b : Bool)
          → is_live (status is_200 s.machine s.found) ≡ b
          → (p : Step (List Warning))
          → (if b then already name s.found else after_preflight s p).result ≡ gives tt
          → IsUp is_200 name s
      go true live p eq = already-IsUp is_200 backend_failed name s s.found refl live eq
      go false live (refuses f) eq = cc
      go false live (gives ws) eq = start_done-IsUp is_200 backend_failed name s eq

  start_gateway-IsUp :
      (port_in_use : Bool) (s : Service)
      → (start_gateway name port_in_use s).result ≡ gives tt
      → IsUp answers name s
  unfolding start_gateway
  start_gateway-IsUp port_in_use s e =
      go (is_live (status answers s.machine s.found)) refl port_in_use e
    where
      go :
          (b : Bool)
          → is_live (status answers s.machine s.found) ≡ b
          → (p : Bool)
          → (if b
              then already name s.found
              else if p
              then refused port_taken
              else start_done answers gateway_failed s).result
            ≡ gives tt
          → IsUp answers name s
      go true live p eq = already-IsUp answers gateway_failed name s s.found refl live eq
      go false live true eq = cc
      go false live false eq = start_done-IsUp answers gateway_failed name s eq

  already-unstarted :
      (found : Option Record) (st : Started) → (already name found).started ≡ some st → ⊥
  unfolding already
  already-unstarted none st e = cc
  already-unstarted (some r) st e = go (str_eq r.profile name) e
    where
      go :
          (b : Bool)
          → (if b
              then record { started = none; result = gives tt }
              else refused other_profile).started
            ≡ some st
          → ⊥
      go true eq = cc
      go false eq = cc

  -- `_start_backend` starts a process only where none is live, the model is downloaded, the port is free,
  -- and the GPU limit is high enough or `force` was given.
  pub start_backend-IsCleared :
      (force : Bool) (checks : Checks) (s : Service) (st : Started)
      → (start_backend name force checks s).started ≡ some st
      → (is_live (status is_200 s.machine s.found) ≡ false) × IsCleared checks force
  unfolding start_backend
  start_backend-IsCleared force checks s st e =
      go (is_live (status is_200 s.machine s.found)) refl (preflight checks force) refl e
    where
      go :
          (b : Bool)
          → is_live (status is_200 s.machine s.found) ≡ b
          → (p : Step (List Warning)) → preflight checks force ≡ p
          → (if b then already name s.found else after_preflight s p).started ≡ some st
          → (is_live (status is_200 s.machine s.found) ≡ false) × IsCleared checks force
      go true live p pp eq = elim (already-unstarted s.found st eq) [ ]
      go false live (refuses f) pp eq = cc
      go false live (gives ws) pp eq = (live, preflight-IsCleared checks force ws pp)

  module _ (keys : Option Bool) (force : Bool) (checks : Checks) (backend : Service)
      (port_in_use : Bool) (gateway : Service) where
    abbrev served : Served
    served = serve keys name force checks backend port_in_use gateway

    -- `serve` deals with the gateway only where an API key exists and the backend is up.
    pub serve-gateway :
        (d : Done) → served.gateway ≡ some d → (keys ≡ some true) × IsUp is_200 name backend
    unfolding serve
    serve-gateway d e = go keys e
      where
        first : Done
        first = start_backend name force checks backend

        after :
            (r : Step (Unit {0}))
            → first.result ≡ r
            → (after_backend first (start_gateway name port_in_use gateway) r).gateway ≡ some d
            → IsUp is_200 name backend
        after (refuses f) same eq = cc
        after (gives u) same eq = start_backend-IsUp force checks backend same

        go :
            (k : Option Bool)
            → (serve k name force checks backend port_in_use gateway).gateway ≡ some d
            → (k ≡ some true) × IsUp is_200 name backend
        go none eq = cc
        go (some false) eq = cc
        go (some true) eq = (refl, after first.result refl eq)

    -- Where `serve` returns, an API key exists, and each process is up: it ran under this profile, or
    -- another `serve` had started one by the time of the lock, under any profile, or a look found the
    -- child of this one running, named by its ready file and healthy.
    pub serve-IsUp :
        served.result ≡ gives tt
        → (keys ≡ some true) × IsUp is_200 name backend × IsUp answers name gateway
    unfolding serve
    serve-IsUp e = go keys e
      where
        first : Done
        first = start_backend name force checks backend

        after :
            (r : Step (Unit {0}))
            → first.result ≡ r
            → (after_backend first (start_gateway name port_in_use gateway) r).result ≡ gives tt
            → IsUp is_200 name backend × IsUp answers name gateway
        after (refuses f) same eq = cc
        after (gives u) same eq = (
          start_backend-IsUp force checks backend same,
          start_gateway-IsUp port_in_use gateway eq,
        )

        go :
            (k : Option Bool)
            → (serve k name force checks backend port_in_use gateway).result ≡ gives tt
            → (k ≡ some true) × IsUp is_200 name backend × IsUp answers name gateway
        go none eq = cc
        go (some false) eq = cc
        go (some true) eq = let (b, g) = after first.result refl eq in (refl, b, g)
