-- ===== src/GpuLimit.antt =====
-- src/agent_lab/gpulimit.py: the limit in force, `apply` and `revert`. What sudo does to the sysctl is a
-- parameter. A value that cannot be read is none.
pub mod Commands
mod Tests
use agent_lab.Common.{
  ℕ, ◌*◌, ◌/◌, ◌^◌, ◌≡◌, Bool, true, false, ◌||◌, not, List, ◌∷◌, Option, none, some, if◌then◌else◌,
  ◌==◌,
}
use agent_lab.Common.Int.{ℤ, pos, ◌-ℤ◌, ltb_ℤ, leb_ℤ, eq_ℤ}

-- `LimitState`, with the bytes of its `MetalInfo`.
pub record LimitState : Type 0 where
  pub wired_limit_mb : Option ℤ
  pub recommended_bytes : Option ℕ
  pub memory_bytes : Option ℕ

-- Metal's value in MB, where it is not None or 0.
recommended_mb : Option ℕ → Option ℤ
recommended_mb none = none
recommended_mb (some bytes) = if bytes == 0 then none else some (pos (bytes / 1024 ^ 2))

-- `effective_mb()`
unfoldable pub effective_mb : LimitState → Option ℤ
unfolding recommended_mb
effective_mb s = elim s.wired_limit_mb [
  | none ↦ none
  | some n ↦ if eq_ℤ n (pos 0) then recommended_mb s.recommended_bytes else some n
]

-- `ceiling_mb(memory)`
unfoldable pub ceiling_mb : ℕ → ℤ
ceiling_mb memory = pos (memory / 1024 ^ 2) -ℤ pos (3 * 1024)

pub data StatusLine : Type 0 where
  unknown : StatusLine
  in_force : ℤ → StatusLine
  too_low : ℤ → StatusLine

-- `status_line(state, needed_mb)`
unfoldable pub status_line : LimitState → ℤ → StatusLine
unfolding effective_mb
status_line s needed = elim (effective_mb s) [
  | none ↦ unknown
  | some n ↦ if leb_ℤ needed n then in_force n else too_low n
]

-- What the user says: `confirm` raises where there is no terminal.
pub data Answer : Type 0 where
  yes : Answer
  no : Answer
  no_terminal : Answer

-- Why a command ends with GpuLimitError.
pub data Failure : Type 0 where
  not_macos : Failure
  memory_unknown : Failure
  above_ceiling : Failure
  unconfirmed : Answer → Failure
  exit_status : ℕ → Failure
  not_set : Failure

pub data Outcome : Type 0 where
  set : Outcome
  already : Outcome
  failed : Failure → Outcome

-- The machine: the sysctl, and the values given to sudo so far, newest first.
pub record Machine : Type 0 where
  pub macos : Bool
  pub state : LimitState
  pub commands : List ℤ

abbrev pub with_limit : Option ℤ → LimitState → LimitState
with_limit limit s = record s { wired_limit_mb = limit }

abbrev pub reads : Option ℤ → ℤ → Bool
reads none value = false
reads (some n) value = eq_ℤ n value

abbrev pub is_yes : Answer → Bool
is_yes yes = true
is_yes _ = false

-- The checks after the command.
unfoldable pub check_set : ℤ → ℕ → Option ℤ → Outcome
check_set value code now =
    if code == 0
    then (if reads now value then set else failed not_set)
    else failed (exit_status code)

-- What sudo answers and the sysctl afterwards, given the value and the sysctl before.
module _ (sudo : ℤ → Option ℤ → ℕ × Option ℤ) where
  -- The command is run.
  unfoldable pub run_set : ℤ → Machine → Outcome × Machine
  unfolding check_set
  run_set value m =
      let (code, now) = sudo value m.state.wired_limit_mb in
      (
        check_set value code now,
        record m { state = with_limit now m.state; commands = value ∷ m.commands },
      )

  -- `_set(value_mb, prompt_lines, assume_yes)`
  unfoldable pub set_limit : ℤ → Bool → Answer → Machine → Outcome × Machine
  unfolding run_set
  set_limit value assume_yes answer m =
      if assume_yes || is_yes answer then run_set value m else (failed (unconfirmed answer), m)

  -- The checks of `apply`, the memory known.
  unfoldable pub apply_below : ℕ → ℤ → Bool → Answer → Machine → Outcome × Machine
  unfolding set_limit ceiling_mb
  apply_below memory value assume_yes answer m =
      if ltb_ℤ (ceiling_mb memory) value
      then (failed above_ceiling, m)
      else if reads m.state.wired_limit_mb value
      then (already, m)
      else set_limit value assume_yes answer m

  unfoldable pub apply_known : Option ℕ → ℤ → Bool → Answer → Machine → Outcome × Machine
  unfolding apply_below
  apply_known none value assume_yes answer m = (failed memory_unknown, m)
  apply_known (some memory) value assume_yes answer m = apply_below memory value assume_yes answer m

  -- `apply(profile, assume_yes)`
  unfoldable pub apply : ℤ → Bool → Answer → Machine → Outcome × Machine
  unfolding apply_known
  apply value assume_yes answer m =
      if m.macos
      then apply_known m.state.memory_bytes value assume_yes answer m
      else (failed not_macos, m)

  -- `revert(assume_yes)`
  unfoldable pub revert : Bool → Answer → Machine → Outcome × Machine
  unfolding set_limit
  revert assume_yes answer m =
      if m.macos
      then (if reads m.state.wired_limit_mb (pos 0)
          then (already, m)
          else set_limit (pos 0) assume_yes answer m)
      else (failed not_macos, m)
