-- ===== src/Process/Tests.antt =====
-- One record, saved, loaded and stopped.
use agent_lab.Common.{◌≡◌, refl, true, false, [], ◌∷◌, none, some, All, arith}
use agent_lab.Common.Int.{ℤ, pos}
use agent_lab.Json.{Float, finite, get}
use agent_lab.Gateway.Result.{ok}
use agent_lab.Process.{Record, Machine, to_dict, load, stop}
use agent_lab.Process.Signals.{load-to_dict, IsOurs, stop-IsOurs}

abbrev to_float : ℤ → Float
to_float n = finite n 0

abbrev backend : Record
backend = record {
  pid = pos 4711;
  port = pos 8100;
  profile = "mac-24gb";
  model = "org/model";
  started_at = finite (pos 7) 1;
}

abbrev machine : Machine
machine = record { runs = λ pid. true; health = λ port. some 200; ready_file = none }

load-to_dict_example : load to_float (some (to_dict backend)) ≡ ok (some backend)
load-to_dict_example = load-to_dict to_float backend (omega arith)

loaded : load to_float (some (to_dict backend)) ≡ ok (some backend)
unfolding load get
loaded = refl

stop-IsOurs_example :
    All
      (IsOurs machine backend (true ∷ true ∷ []))
      (stop machine (some backend) (true ∷ true ∷ []) (false ∷ [])).signals
stop-IsOurs_example =
    stop-IsOurs to_float machine (some (to_dict backend)) backend (true ∷ true ∷ []) (false ∷ [])
      loaded
