-- ===== src/Aarch64/Psci/State/Tests.antt =====
-- Members that meet the hypotheses of the theorem about StateID and PowerState.
use cpu_io.Base.{ℕ, ◌*◌, ◌+◌, ◌^◌, ◌/◌, ◌%◌, ◌≡◌, ◌↔◌, arith}
use cpu_io.Aarch64.Psci.State.{state_id, power_state}
use cpu_io.Aarch64.Psci.State.Laws.{documented_state, states_reversed}

-- A core that powers down alone, and a power down state of the cluster.
states_reversed_example :
    ((state_id 0 0 0 3 ≡ documented_state 0 0 0 3) ↔ (◌≡◌ {A = ℕ} 0 3 × ◌≡◌ {A = ℕ} 0 0))
    × (power_state 1 1 0x133 / 2 ^ 24 % 4 ≡ 0x133 / 2 ^ 8 % 4)
    × (power_state 1 1 0x133 / 2 ^ 16 % 2 ≡ 0x133 % 2)
    × (power_state 1 1 0x133 % 2 ^ 16 ≡ 1 * 2 ^ 15 + 1 * 2 ^ 6)
states_reversed_example =
    states_reversed 0 0 0 3 1 1 0x133 (omega arith) (omega arith) (omega arith) (omega arith)
      (omega arith) (omega arith) (omega arith)
