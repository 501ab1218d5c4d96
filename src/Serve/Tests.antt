-- ===== src/Serve/Tests.antt =====
-- A `serve` that starts both processes.
use agent_lab.Common.{◌≡◌, refl, true, false, [], ◌∷◌, none, some}
use agent_lab.Common.Int.{ℤ, pos}
use agent_lab.Json.{finite, int, obj, field, end, get}
use agent_lab.Process.{Record, Machine, is_200, answers, stopped, read_record, status}
use agent_lab.Process.Start.{Poll, Started, is_live, start, look, wait_ready}
use agent_lab.Serve.{
  Checks, Service, serve, start_backend, start_gateway, preflight, check_port, pressure_warnings,
  start_done, start_service, gives, backend_failed,
}
use agent_lab.Serve.Up.{IsUp, IsCleared, serve-IsUp, start_backend-IsCleared}

abbrev child : ℤ → Record
child port = record {
  pid = pos 4711;
  port = port;
  profile = "mac-24gb";
  model = "org/model";
  started_at = finite (pos 7) 1;
}

abbrev machine : Machine
machine = record { runs = λ pid. false; health = λ port. none; ready_file = none }

abbrev ready : Poll
ready = record {
  interrupted = false;
  code = none;
  ready_file = some (obj (field "pid" (int (pos 4711)) end));
  health = some 200;
}

abbrev service : ℤ → Service
service port = record {
  machine = machine;
  found = none;
  machine_at_start = machine;
  found_at_start = none;
  child = child port;
  saves = true;
  polls = [];
  last = ready;
  cleanup = record { reaped = false; first = []; second = []; now = none };
}

abbrev checks : Checks
checks = record {
  downloaded = true;
  gpu_ok = false;
  port_in_use = false;
  state = stopped;
  pressure = true ∷ false ∷ [];
}

came_up :
    (serve
      (some true)
      "mac-24gb"
      true
      checks
      (service (pos 8100))
      false
      (service (pos 8000))).result
    ≡ gives tt
unfolding serve start_backend start_gateway preflight check_port pressure_warnings start_done
    start_service start wait_ready look read_record status get
came_up = refl

serve-IsUp_example :
    (some true ≡ some true)
    × IsUp is_200 "mac-24gb" (service (pos 8100))
    × IsUp answers "mac-24gb" (service (pos 8000))
serve-IsUp_example =
    serve-IsUp "mac-24gb" (some true) true checks (service (pos 8100)) false (service (pos 8000))
      came_up

abbrev started : Started
started = start_service is_200 backend_failed (service (pos 8100))

begun : (start_backend "mac-24gb" true checks (service (pos 8100))).started ≡ some started
unfolding start_backend preflight check_port pressure_warnings start_done start_service start
    wait_ready look read_record status get
begun = refl

start_backend-IsCleared_example :
    (is_live (status is_200 machine none) ≡ false) × IsCleared checks true
start_backend-IsCleared_example =
    start_backend-IsCleared "mac-24gb" true checks (service (pos 8100)) started begun
