-- ===== src/Aarch64/Psci.antt =====
-- The power state calls of include/aarch64/psci.hpp. The firmware behind `smc #0` is a parameter.
pub mod Laws
pub mod State
use cpu_io.Base.{ℕ, ◌==◌, ◌^◌, ◌-◌, ◌%◌, u32, Option, none, some, if◌then◌else◌}
use cpu_io.State.{Run, pure, ◌>>=◌, undefined}

abbrev pub k_version : ℕ
k_version = 0x84000000

abbrev pub k_cpu_suspend_32 : ℕ
k_cpu_suspend_32 = 0x84000001

abbrev pub k_cpu_suspend_64 : ℕ
k_cpu_suspend_64 = 0xC4000001

abbrev pub k_cpu_off : ℕ
k_cpu_off = 0x84000002

abbrev pub k_cpu_on_32 : ℕ
k_cpu_on_32 = 0x84000003

abbrev pub k_cpu_on_64 : ℕ
k_cpu_on_64 = 0xC4000003

abbrev pub k_affinity_info_32 : ℕ
k_affinity_info_32 = 0x84000004

abbrev pub k_affinity_info_64 : ℕ
k_affinity_info_64 = 0xC4000004

abbrev pub k_migrate_32 : ℕ
k_migrate_32 = 0x84000005

abbrev pub k_migrate_64 : ℕ
k_migrate_64 = 0xC4000005

abbrev pub k_migrate_info_type : ℕ
k_migrate_info_type = 0x84000006

abbrev pub k_migrate_info_up_cpu_32 : ℕ
k_migrate_info_up_cpu_32 = 0x84000007

abbrev pub k_migrate_info_up_cpu_64 : ℕ
k_migrate_info_up_cpu_64 = 0xC4000007

abbrev pub k_system_off : ℕ
k_system_off = 0x84000008

abbrev pub k_system_reset : ℕ
k_system_reset = 0x84000009

abbrev pub k_system_reset2_32 : ℕ
k_system_reset2_32 = 0x84000012

abbrev pub k_system_reset2_64 : ℕ
k_system_reset2_64 = 0xC4000012

abbrev pub k_mem_protect : ℕ
k_mem_protect = 0x84000013

abbrev pub k_mem_protect_check_range_32 : ℕ
k_mem_protect_check_range_32 = 0x84000014

abbrev pub k_mem_protect_check_range_64 : ℕ
k_mem_protect_check_range_64 = 0xC4000014

abbrev pub k_features : ℕ
k_features = 0x8400000A

abbrev pub k_cpu_freeze : ℕ
k_cpu_freeze = 0x8400000B

abbrev pub k_cpu_default_suspend_32 : ℕ
k_cpu_default_suspend_32 = 0x8400000C

abbrev pub k_cpu_default_suspend_64 : ℕ
k_cpu_default_suspend_64 = 0xC400000C

abbrev pub k_node_hw_state_32 : ℕ
k_node_hw_state_32 = 0x8400000D

abbrev pub k_node_hw_state_64 : ℕ
k_node_hw_state_64 = 0xC400000D

abbrev pub k_system_suspend_32 : ℕ
k_system_suspend_32 = 0x8400000E

abbrev pub k_system_suspend_64 : ℕ
k_system_suspend_64 = 0xC400000E

abbrev pub k_set_suspend_mode : ℕ
k_set_suspend_mode = 0x8400000F

abbrev pub k_stat_residency_32 : ℕ
k_stat_residency_32 = 0x84000010

abbrev pub k_stat_residency_64 : ℕ
k_stat_residency_64 = 0xC4000010

abbrev pub k_stat_count_32 : ℕ
k_stat_count_32 = 0x84000011

abbrev pub k_stat_count_64 : ℕ
k_stat_count_64 = 0xC4000011

-- What the firmware leaves in x0 to x3.
pub record SmcReturnValue : Type 0 where
  pub a0 : ℕ
  pub a1 : ℕ
  pub a2 : ℕ
  pub a3 : ℕ

pub data ErrorCode : Type 0 where
  success not_supported invalid_parameters denied already_on : ErrorCode
  on_pending internal_failure not_present disabled invalid_address : ErrorCode

-- How far below zero the enumerator is.
abbrev pub below_zero : ErrorCode → ℕ
below_zero success = 0
below_zero not_supported = 1
below_zero invalid_parameters = 2
below_zero denied = 3
below_zero already_on = 4
below_zero on_pending = 5
below_zero internal_failure = 6
below_zero not_present = 7
below_zero disabled = 8
below_zero invalid_address = 9

-- The conversion of a uint64_t to the enumeration, whose underlying type is int: the low 32 bits. A
-- value that no enumerator has is outside the model.
unfoldable pub error_code : ℕ → Option ErrorCode
error_code a0 =
    let value = u32 a0 in
    if value == 0
    then some success
    else if value == 2 ^ 32 - 1
    then some not_supported
    else if value == 2 ^ 32 - 2
    then some invalid_parameters
    else if value == 2 ^ 32 - 3
    then some denied
    else if value == 2 ^ 32 - 4
    then some already_on
    else if value == 2 ^ 32 - 5
    then some on_pending
    else if value == 2 ^ 32 - 6
    then some internal_failure
    else if value == 2 ^ 32 - 7
    then some not_present
    else if value == 2 ^ 32 - 8
    then some disabled
    else if value == 2 ^ 32 - 9
    then some invalid_address
    else none

-- x0 to x7 at the call.
pub record Arguments : Type 0 where
  pub x0 : ℕ
  pub x1 : ℕ
  pub x2 : ℕ
  pub x3 : ℕ
  pub x4 : ℕ
  pub x5 : ℕ
  pub x6 : ℕ
  pub x7 : ℕ

-- The bit-fields, from the lowest bits on.
pub record StateId : Type 0 where
  pub core_last : ℕ
  pub system_state : ℕ
  pub cluster_state : ℕ
  pub core_state : ℕ

pub record PowerState : Type 0 where
  pub reserved1 : ℕ
  pub power_level : ℕ
  pub reserved0 : ℕ
  pub state_type : ℕ
  pub state_id : StateId

-- What the calls leave of the system: the firmware may change it, and does not return from a
-- successful `CPU_OFF`.
pub record Firmware (S : Type 0) : Type 0 where
  pub smc : Arguments → Run S SmcReturnValue

-- `CpuSuspend` does not call the firmware.
unfoldable pub cpu_suspend : {S : Type 0} → PowerState → ℕ → ℕ → Run S ErrorCode
cpu_suspend power_state entry_point_address context_id = pure success

module _ {S : Type 0} ⦃firmware : Firmware S⦄ where
  unfoldable pub secure_monitor_call : ℕ → ℕ → ℕ → ℕ → ℕ → ℕ → ℕ → ℕ → Run S SmcReturnValue
  secure_monitor_call a0 a1 a2 a3 a4 a5 a6 a7 =
      firmware.smc record { x0 = a0; x1 = a1; x2 = a2; x3 = a3; x4 = a4; x5 = a5; x6 = a6; x7 = a7 }

  abbrev pub converted : SmcReturnValue → Run S ErrorCode
  converted result = elim (error_code result.a0) [ some e ↦ pure e | none ↦ undefined ]

  unfoldable pub cpu_off : Run S ErrorCode
  cpu_off = secure_monitor_call k_cpu_off 0 0 0 0 0 0 0 >>= λ result. converted result

  unfoldable pub cpu_on : ℕ → ℕ → ℕ → Run S ErrorCode
  cpu_on target_cpu entry_point_address context_id =
      secure_monitor_call k_cpu_on_64 target_cpu entry_point_address context_id 0 0 0 0
      >>= λ result. converted result
