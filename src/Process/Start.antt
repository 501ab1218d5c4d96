-- ===== src/Process/Start.antt =====
-- `start` of src/agent_lab/backend/process.py and of src/agent_lab/gateway/process.py, which differ in
-- what answer of the port is healthy. What the child process, its files and its port show at each look
-- is an argument.
pub mod Outcome
mod Tests
use agent_lab.Common.{
  ℕ, ◌*◌, ◌^◌, ◌≡◌, Bool, true, false, ◌&&◌, not, List, [], ◌∷◌, Option, none, some, String, str_eq,
  if◌then◌else◌, ◌==◌,
}
use agent_lab.Common.Int.{ℤ, eq_ℤ, pos_part, neg_part}
use agent_lab.Json.{Value, Fields, Float, inf, finite}
use agent_lab.Process.{
  Record, read_record, State, stopped, loading, running, unhealthy, exited, Machine, status, Signal,
  terminate,
}

-- One turn of the loop: whether it is interrupted, `proc.poll()`, and the ready file and the port.
pub record Poll : Type 0 where
  pub interrupted : Bool
  pub code : Option ℤ
  pub ready_file : Option Value
  pub health : Option ℕ

-- How the wait ends: the child is ready, it exited, the deadline has passed, or Ctrl-C.
pub data Waited : Type 0 where
  is_ready : Fields → Waited
  has_exited : ℤ → Waited
  late interrupt : Waited

abbrev pub is_live : State → Bool
is_live stopped = false
is_live exited = false
is_live _ = true

-- What is seen when a start has failed: whether the child was reaped, what `proc.poll()` says until
-- each of the two deadlines of `terminate` (true is None), and the record that the state file holds by
-- then.
pub record Cleanup : Type 0 where
  pub reaped : Bool
  pub first : List Bool
  pub second : List Bool
  pub now : Option Record

-- What `start` did: whether it started a process, its signals, the record in the state file, and what
-- it returned; none is an exception.
pub record Started : Type 0 where
  pub spawned : Bool
  pub signals : List Signal
  pub file : Option Record
  pub answer : Option (State × Bool)

-- `terminate(proc.pid, proc)`
unfoldable pub terminate_child : ℤ → Cleanup → List Signal × Option Bool
unfolding terminate
terminate_child pid c = if c.reaped then ([], some false) else terminate pid c.first c.second

-- The equality of two doubles.
abbrev pub same_float : Float → Float → Bool
same_float (finite m k) (finite n l) =
    ((pos_part m * 2 ^ l) == (pos_part n * 2 ^ k)) && ((neg_part m * 2 ^ l) == (neg_part n * 2 ^ k))
same_float (inf a) (inf b) = if a then b else not b
same_float _ _ = false

-- The equality of records of `@dataclass`: every field.
unfoldable pub same_record : Record → Record → Bool
same_record r s =
    eq_ℤ r.pid s.pid
    && (eq_ℤ r.port s.port
        && (str_eq r.profile s.profile
            && (str_eq r.model s.model && same_float r.started_at s.started_at)))

-- `if Record.load(...) == record: _clear_files()`
unfoldable pub clear_own : Record → Option Record → Option Record
unfolding same_record
clear_own r none = none
clear_own r (some other) = if same_record other r then none else some other

-- The last `except BaseException` of `start`: where `terminate` raises, the file stays.
abbrev pub after_child : Record → Cleanup → List Signal × Option Bool → Started
after_child r c (signals, none) = record {
  spawned = true;
  signals = signals;
  file = c.now;
  answer = none;
}
after_child r c (signals, some killed) = record {
  spawned = true;
  signals = signals;
  file = clear_own r c.now;
  answer = none;
}

module _ (healthy : Option ℕ → Bool) where
  abbrev pub ready_at : Option Fields → Option ℕ → Option Waited
  ready_at none health = none
  ready_at (some ready) health = if healthy health then some (is_ready ready) else none

  -- The body of the loop: none is another turn.
  unfoldable pub look : ℤ → Poll → Option Waited
  unfolding read_record
  look pid p = if p.interrupted then some interrupt else elim p.code [
    | some code ↦ some (has_exited code)
    | none ↦ ready_at (read_record p.ready_file pid) p.health
  ]

  -- `_wait_ready`: the turns before the deadline, and the first one after it.
  unfoldable pub wait_ready : ℤ → List Poll → Poll → Waited
  unfolding look
  wait_ready pid [] last = elim (look pid last) [ none ↦ late | some w ↦ w ]
  wait_ready pid (p ∷ rest) last = elim (look pid p) [
    | none ↦ wait_ready pid rest last
    | some w ↦ w
  ]

  abbrev pub after_wait : Record → Cleanup → Waited → Started
  after_wait r c (is_ready ready) = record {
    spawned = true;
    signals = [];
    file = some r;
    answer = some (running, true);
  }
  after_wait r c _ = after_child r c (terminate_child r.pid c)

  -- `start`: the record that was found, the record of the child, whether it can be saved, the turns
  -- of the wait, and what a failure sees.
  unfoldable pub start :
      Machine → Option Record → Record → Bool → List Poll → Poll → Cleanup → Started
  unfolding status wait_ready terminate_child
  start m found r saves polls last c =
      if is_live (status healthy m found)
      then record {
        spawned = false;
        signals = [];
        file = found;
        answer = some (status healthy m found, false);
      }
      else if saves
      then after_wait r c (wait_ready r.pid polls last)
      else record {
        spawned = true;
        signals = (terminate_child r.pid c).0;
        file = none;
        answer = none;
      }
