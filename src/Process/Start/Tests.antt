-- ===== src/Process/Start/Tests.antt =====
-- A start whose child exits while it loads.
use agent_lab.Common.{true, false, [], ◌∷◌, none, some}
use agent_lab.Common.Int.{pos}
use agent_lab.Json.{finite}
use agent_lab.Process.{Record, Machine, is_200}
use agent_lab.Process.Start.{Poll, Cleanup, start}
use agent_lab.Process.Start.Outcome.{IsOutcome, start-IsOutcome}

abbrev child : Record
child = record {
  pid = pos 4711;
  port = pos 8100;
  profile = "mac-24gb";
  model = "org/model";
  started_at = finite (pos 7) 1;
}

abbrev machine : Machine
machine = record { runs = λ pid. false; health = λ port. none; ready_file = none }

abbrev loads : Poll
loads = record { interrupted = false; code = none; ready_file = none; health = none }

abbrev exits : Poll
exits = record { interrupted = false; code = some (pos 1); ready_file = none; health = none }

abbrev reaped : Cleanup
reaped = record { reaped = true; first = []; second = []; now = some child }

start-IsOutcome_example :
    IsOutcome is_200 machine
      (some child)
      child
      (loads ∷ [])
      exits
      reaped
      (start is_200 machine (some child) child true (loads ∷ []) exits reaped)
start-IsOutcome_example =
    start-IsOutcome is_200 machine (some child) child (loads ∷ []) exits reaped
