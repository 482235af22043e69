-- ===== src/Aarch64/Psci/State.antt =====
-- The bit-fields StateID and PowerState of include/aarch64/psci.hpp. The bit-fields of a word are
-- laid out from its lowest bit on, and an assignment to one keeps its low bits.
pub mod Laws
mod Tests
use cpu_io.Base.{ℕ}
use cpu_io.RegisterInfo.{Field, field, uint16, uint32, insert}

abbrev pub state_core_last : Field
state_core_last = field 0 4 uint16

abbrev pub state_system_state : Field
state_system_state = field 4 4 uint16

abbrev pub state_cluster_state : Field
state_cluster_state = field 8 4 uint16

abbrev pub state_core_state : Field
state_core_state = field 12 4 uint16

-- A StateID with these members.
unfoldable pub state_id : ℕ → ℕ → ℕ → ℕ → ℕ
state_id core_last system_state cluster_state core_state =
    let word = insert state_core_last 0 core_last in
    let word = insert state_system_state word system_state in
    let word = insert state_cluster_state word cluster_state in
    insert state_core_state word core_state

abbrev pub power_reserved1 : Field
power_reserved1 = field 0 6 uint32

abbrev pub power_level : Field
power_level = field 6 2 uint32

abbrev pub power_reserved0 : Field
power_reserved0 = field 8 7 uint32

abbrev pub power_state_type : Field
power_state_type = field 15 1 uint32

abbrev pub power_state_id : Field
power_state_id = field 16 16 uint16

-- A PowerState with these members, its reserved ones 0.
unfoldable pub power_state : ℕ → ℕ → ℕ → ℕ
power_state level state_type id =
    let word = insert power_reserved1 0 0 in
    let word = insert power_level word level in
    let word = insert power_reserved0 word 0 in
    let word = insert power_state_type word state_type in insert power_state_id word id
