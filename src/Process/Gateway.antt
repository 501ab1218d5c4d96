-- ===== src/Process/Gateway.antt =====
-- src/agent_lab/gateway/process.py, which handles the gateway as src/agent_lab/backend/process.py does the
-- backend: any answer of its port counts, and the process is known by the gateway's module.
use agent_lab.Common.{Bool, List, Option}
use agent_lab.Process.{Record, State, Machine, status, answers, Stopped, stop}
use agent_lab.Process.Start.{Poll, Cleanup, Started, start}

-- `status()`
abbrev pub gateway_status : Machine → Option Record → State
gateway_status m found = status answers m found

-- `start(profile, port, model, timeout)`
abbrev pub gateway_start :
    Machine → Option Record → Record → Bool → List Poll → Poll → Cleanup → Started
gateway_start m found r saves polls last c = start answers m found r saves polls last c

-- `stop(timeout)`
abbrev pub gateway_stop : Machine → Option Record → List Bool → List Bool → Stopped
gateway_stop m found first second = stop m found first second
