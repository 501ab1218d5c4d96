-- ===== src/Process.antt =====
-- src/agent_lab/backend/process.py: the record of the backend, `status` and `stop`. What the system
-- says of a process and of a port, and what a file holds as JSON, are arguments.
pub mod Signals
pub mod Start
pub mod Gateway
mod Tests
use agent_lab.Common.{
  ℕ, ◌*◌, ◌^◌, ◌≡◌, Bool, true, false, not, List, [], ◌∷◌, Option, none, some, String,
  if◌then◌else◌, ◌==◌,
}
use agent_lab.Common.Int.{ℤ, pos, eq_ℤ, leb_ℤ, pos_part}
use agent_lab.Json.{
  Value, Fields, Float, null, bool, int, float, str, obj, end, field, finite, get_value,
}
use agent_lab.Gateway.Number.{fits_double}
use agent_lab.Gateway.Result.{Result, ok, raised, overflow_error, ◌>>=◌}

pub record Record : Type 0 where
  pub pid : ℤ
  pub port : ℤ
  pub profile : String
  pub model : String
  pub started_at : Float

abbrev int_or_zero : Value → ℤ
int_or_zero (int n) = n
int_or_zero _ = pos 0

abbrev text_or_unknown : Value → String
text_or_unknown (str s) = s
text_or_unknown _ = "unknown"

-- asdict(record)
abbrev pub to_dict : Record → Value
to_dict r = obj (
    field "pid" (int r.pid) (
      field "port" (int r.port) (
        field "profile" (str r.profile)
          (field "model" (str r.model) (field "started_at" (float r.started_at) end)))))

-- float(n)
module _ (int_to_float : ℤ → Float) where
  started : Value → Result Float
  started (int n) = if fits_double n then ok (int_to_float n) else raised overflow_error
  started (float f) = ok f
  started _ = ok (finite (pos 0) 0)

  with_pid : Value → Fields → Result (Option Record)
  unfolding started
  with_pid (int pid) fs =
      if leb_ℤ pid (pos 0)
      then ok none
      else (started (get_value "started_at" fs) >>= λ at. ok (
          some (record {
            pid = pid;
            port = int_or_zero (get_value "port" fs);
            profile = text_or_unknown (get_value "profile" fs);
            model = text_or_unknown (get_value "model" fs);
            started_at = at;
          })))
  with_pid _ fs = ok none

  -- `Record.load(path)`: none is a file that cannot be read or is not JSON.
  unfoldable pub load : Option Value → Result (Option Record)
  unfolding with_pid
  load (some (obj fs)) = with_pid (get_value "pid" fs) fs
  load _ = ok none

-- value == n, for n above 0
abbrev names : Value → ℤ → Bool
names (int m) n = eq_ℤ m n
names (bool b) n = if b then eq_ℤ n (pos 1) else false
names (float (finite m k)) n = eq_ℤ m (pos (pos_part n * 2 ^ k))
names _ n = false

-- `read_record(path, pid)`
unfoldable pub read_record : Option Value → ℤ → Option Fields
read_record (some (obj fs)) pid = if names (get_value "pid" fs) pid then some fs else none
read_record _ pid = none

pub data State : Type 0 where
  stopped : State
  loading : State
  running : State
  unhealthy : State
  exited : State

-- What the machine answers: whether a process runs the module of the backend, or of the gateway.
pub record Machine : Type 0 where
  pub runs : ℤ → Bool
  pub health : ℤ → Option ℕ
  pub ready_file : Option Value

-- health(port) == 200
abbrev pub is_200 : Option ℕ → Bool
is_200 none = false
is_200 (some code) = code == 200

-- `_answers(port)` of gateway/process.py: health(port) is not None
abbrev pub answers : Option ℕ → Bool
answers none = false
answers (some code) = true

-- The parameter says which answers of the port are healthy.
module _ (healthy : Option ℕ → Bool) where
  unfoldable pub ready_state : Option Fields → Option ℕ → State
  ready_state none health = loading
  ready_state (some ready) health = if healthy health then running else unhealthy

  -- The state of `status()`, of the record that was loaded.
  unfoldable pub status : Machine → Option Record → State
  unfolding ready_state read_record
  status m none = stopped
  status m (some r) =
      if m.runs r.pid
      then ready_state (read_record m.ready_file r.pid) (m.health r.port)
      else exited

pub data Signal : Type 0 where
  term : ℤ → Signal
  kill : ℤ → Signal

-- `_wait_exit` without a child process: what `alive` answers until the deadline.
unfoldable pub wait_exit : List Bool → Bool
wait_exit [] = false
wait_exit (alive ∷ later) = let rest = wait_exit later in if alive then rest else true

-- `terminate(pid, None, timeout)`: the signals sent, and whether SIGKILL was needed; none is a
-- BackendError.
unfoldable pub terminate : ℤ → List Bool → List Bool → List Signal × Option Bool
unfolding wait_exit
terminate pid first second =
    if wait_exit first
    then (term pid ∷ [], some false)
    else (term pid ∷ kill pid ∷ [], if wait_exit second then some true else none)

-- What `stop()` did: its signals, whether it cleared the files, and what it returned.
pub record Stopped : Type 0 where
  pub signals : List Signal
  pub cleared : Bool
  pub answer : Option (Option Record × Bool)

after_terminate : Record → List Signal × Option Bool → Stopped
after_terminate r (signals, none) = record { signals = signals; cleared = false; answer = none }
after_terminate r (signals, some killed) = record {
  signals = signals;
  cleared = true;
  answer = some (some r, true);
}

-- `stop(timeout)`, of the record that was loaded.
unfoldable pub stop : Machine → Option Record → List Bool → List Bool → Stopped
unfolding terminate after_terminate
stop m none first second = record { signals = []; cleared = true; answer = some (none, false) }
stop m (some r) first second =
    if m.runs r.pid
    then after_terminate r (terminate r.pid first second)
    else (record { signals = []; cleared = true; answer = some (some r, false) })
