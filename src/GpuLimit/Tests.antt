-- ===== src/GpuLimit/Tests.antt =====
-- `apply` on one machine, and the theorems about it.
use agent_lab.Common.{ℕ, ◌*◌, ◌^◌, ◌≡◌, refl, true, false, [], ◌∷◌, Option, some, arith}
use agent_lab.Common.Int.{ℤ, pos, ◌≤ℤ◌, ◌-ℤ◌}
use agent_lab.GpuLimit.{
  ceiling_mb, status_line, in_force, yes, Machine, set, apply, apply_known, apply_below, set_limit,
  run_set, check_set,
}
use agent_lab.GpuLimit.Commands.{AtMostOne, Agreed, apply-AtMostOne, apply-in_force}

abbrev sudo : ℤ → Option ℤ → ℕ × Option ℤ
sudo value now = (0, some value)

-- 32 GB, with the system's default limit.
abbrev machine : Machine
machine = record {
  macos = true;
  state = record {
    wired_limit_mb = some (pos 0);
    recommended_bytes = some 24000000000;
    memory_bytes = some (32 * 1024 ^ 3);
  };
  commands = [];
}

abbrev raised : Machine
raised = record {
  macos = true;
  state = record {
    wired_limit_mb = some (pos 26000);
    recommended_bytes = some 24000000000;
    memory_bytes = some (32 * 1024 ^ 3);
  };
  commands = pos 26000 ∷ [];
}

applied : apply sudo (pos 26000) false yes machine ≡ (set, raised)
unfolding apply apply_known apply_below set_limit run_set check_set ceiling_mb ◌-ℤ◌
applied = refl

apply-AtMostOne_example :
    AtMostOne machine
      (pos 26000)
      (Agreed false yes
        × (memory : ℕ) × (machine.state.memory_bytes ≡ some memory)
        × (pos 26000 ≤ℤ ceiling_mb memory))
      (apply sudo (pos 26000) false yes machine).1
apply-AtMostOne_example = apply-AtMostOne sudo (pos 26000) false yes machine

apply-in_force_example :
    ((apply sudo (pos 26000) false yes machine).1.state.wired_limit_mb ≡ some (pos 26000))
    × (status_line (apply sudo (pos 26000) false yes machine).1.state (pos 26000)
        ≡ in_force (pos 26000))
unfolding apply apply_known apply_below set_limit run_set check_set ceiling_mb ◌-ℤ◌
apply-in_force_example = apply-in_force sudo (pos 26000) false yes machine (omega arith) tt
