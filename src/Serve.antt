-- ===== src/Serve.antt =====
-- src/agent_lab/serve.py: `preflight`, `_start_backend`, `_start_gateway` and `serve`, with the starts of
-- both processes. What the checks of the machine say is an argument.
pub mod Up
mod Tests
use agent_lab.Common.{
  ℕ, zero, suc, ◌≡◌, Bool, true, false, not, List, [], ◌∷◌, ◌++◌, Option, none, some, String,
  str_eq, if◌then◌else◌,
}
use agent_lab.Process.{Record, Machine, State, stopped, status, is_200, answers}
use agent_lab.Process.Gateway.{gateway_status}
use agent_lab.Process.Start.{Poll, Cleanup, Started, is_live, start}

-- The reasons of a `ServeError`.
pub data Failure : Type 0 where
  bad_keys no_keys not_downloaded low_gpu_limit started_meanwhile port_taken : Failure
  other_profile backend_failed gateway_failed : Failure

-- What `preflight` reads: the state of the model, the GPU limit, the port, the state of the backend if
-- the port is taken, and which checks of memory pressure are not OK.
pub record Checks : Type 0 where
  pub downloaded : Bool
  pub gpu_ok : Bool
  pub port_in_use : Bool
  pub state : State
  pub pressure : List Bool

-- The warnings that are printed, in order.
pub data Warning : Type 0 where
  gpu_limit memory_pressure : Warning

-- What a step gives, or why it refuses.
pub data Step (A : Type 0) : Type 0 where
  gives : A → Step A
  refuses : Failure → Step A

pressure_warnings : List Bool → List Warning
pressure_warnings [] = []
pressure_warnings (ok ∷ rest) =
    let others = pressure_warnings rest in if ok then others else memory_pressure ∷ others

abbrev is_stopped : State → Bool
is_stopped stopped = true
is_stopped _ = false

-- The check of the port, and of memory pressure after it.
check_port : Checks → List Warning → Step (List Warning)
unfolding pressure_warnings
check_port c warnings =
    if c.port_in_use
    then refuses (if is_stopped c.state then port_taken else started_meanwhile)
    else gives (warnings ++ pressure_warnings c.pressure)

-- `preflight(profile, force)`
unfoldable pub preflight : Checks → Bool → Step (List Warning)
unfolding check_port
preflight c force =
    if not c.downloaded
    then refuses not_downloaded
    else if c.gpu_ok
    then check_port c []
    else if force
    then check_port c (gpu_limit ∷ [])
    else refuses low_gpu_limit

-- One of the two processes: what the first look finds, what `start` finds under its lock, the record of
-- the child, whether it can be saved, and what the wait and a failure see.
pub record Service : Type 0 where
  pub machine : Machine
  pub found : Option Record
  pub machine_at_start : Machine
  pub found_at_start : Option Record
  pub child : Record
  pub saves : Bool
  pub polls : List Poll
  pub last : Poll
  pub cleanup : Cleanup

-- What was done with a process: the `start`, where there was one, and whether the process is up.
pub record Done : Type 0 where
  pub started : Option Started
  pub result : Step (Unit {0})

abbrev refused : Failure → Done
refused f = record { started = none; result = refuses f }

module _ (healthy : Option ℕ → Bool) (failure : Failure) (s : Service) where
  unfoldable pub start_service : Started
  start_service =
      start healthy s.machine_at_start s.found_at_start s.child s.saves s.polls s.last s.cleanup

  abbrev concluded : Option (State × Bool) → Step (Unit {0})
  concluded none = refuses failure
  concluded (some answer) = gives tt

  -- process.start, and its BackendError.
  unfoldable pub start_done : Done
  unfolding start_service
  start_done = record { started = some start_service; result = concluded start_service.answer }

-- A process that already runs: under this profile it is left, else that is an error. A live process has
-- a record.
unfoldable pub already : String → Option Record → Done
already name none = refused other_profile
already name (some r) =
    if str_eq r.profile name
    then record { started = none; result = gives tt }
    else refused other_profile

abbrev after_preflight : Service → Step (List Warning) → Done
after_preflight s (refuses f) = refused f
after_preflight s (gives warnings) = start_done is_200 backend_failed s

-- `_start_backend(profile, force)`
unfoldable pub start_backend : String → Bool → Checks → Service → Done
unfolding already preflight start_done
start_backend name force checks s =
    if is_live (status is_200 s.machine s.found)
    then already name s.found
    else after_preflight s (preflight checks force)

-- `_start_gateway(profile)`
unfoldable pub start_gateway : String → Bool → Service → Done
unfolding already start_done
start_gateway name port_in_use s =
    if is_live (gateway_status s.machine s.found)
    then already name s.found
    else if port_in_use
    then refused port_taken
    else start_done answers gateway_failed s

-- What `serve` did: each process it dealt with, and why it ended with an error, if it did.
pub record Served : Type 0 where
  pub backend : Option Done
  pub gateway : Option Done
  pub result : Step (Unit {0})

-- `_start_gateway`, after the backend.
abbrev after_backend : Done → Done → Step (Unit {0}) → Served
after_backend backend gateway (refuses f) = record {
  backend = some backend;
  gateway = none;
  result = refuses f;
}
after_backend backend gateway (gives done) = record {
  backend = some backend;
  gateway = some gateway;
  result = gateway.result;
}

-- `serve(profile, force)`: the keys, none for a KeysError, and what is seen of the two processes.
unfoldable pub serve : Option Bool → String → Bool → Checks → Service → Bool → Service → Served
unfolding start_backend start_gateway
serve none name force checks b port g = record {
  backend = none;
  gateway = none;
  result = refuses bad_keys;
}
serve (some false) name force checks b port g = record {
  backend = none;
  gateway = none;
  result = refuses no_keys;
}
serve (some true) name force checks b port g =
    after_backend (start_backend name force checks b) (start_gateway name port g)
      (start_backend name force checks b).result
