-- ===== src/Riscv64/Names.antt =====
-- The causes, the modes and the name tables of ScauseInfo and SatpInfo in
-- include/riscv64/regs/register_info.hpp.
use cpu_io.Base.{ℕ, ◌+◌, List, [], ◌∷◌, shl64}
use cpu_io.Output.{String}

-- The enumerators of scause.
pub data Cause : Type 0 where
  supervisor_software_interrupt supervisor_timer_interrupt : Cause
  supervisor_external_interrupt counter_overflow_interrupt : Cause
  instruction_address_misaligned instruction_access_fault illegal_instruction breakpoint : Cause
  load_address_misaligned load_access_fault : Cause
  store_amo_address_misaligned store_amo_access_fault : Cause
  ecall_user_mode ecall_super_mode reserved4 ecall_machine_mode : Cause
  instruction_page_fault load_page_fault reserved5 store_amo_page_fault : Cause
  software_check hardware_error : Cause

abbrev pub k_interrupt : ℕ
k_interrupt = shl64 1 63

unfoldable pub cause_value : Cause → ℕ
cause_value supervisor_software_interrupt = k_interrupt + 1
cause_value supervisor_timer_interrupt = k_interrupt + 5
cause_value supervisor_external_interrupt = k_interrupt + 9
cause_value counter_overflow_interrupt = k_interrupt + 13
cause_value instruction_address_misaligned = 0
cause_value instruction_access_fault = 1
cause_value illegal_instruction = 2
cause_value breakpoint = 3
cause_value load_address_misaligned = 4
cause_value load_access_fault = 5
cause_value store_amo_address_misaligned = 6
cause_value store_amo_access_fault = 7
cause_value ecall_user_mode = 8
cause_value ecall_super_mode = 9
cause_value reserved4 = 10
cause_value ecall_machine_mode = 11
cause_value instruction_page_fault = 12
cause_value load_page_fault = 13
cause_value reserved5 = 14
cause_value store_amo_page_fault = 15
cause_value software_check = 18
cause_value hardware_error = 19

abbrev pub interrupt_max_count : ℕ
interrupt_max_count = 16

abbrev pub interrupt_names : List String
interrupt_names =
    "Reserved" ∷ "Supervisor Software Interrupt" ∷ "Reserved" ∷ "Reserved" ∷ "Reserved"
    ∷ "Supervisor Timer Interrupt" ∷ "Reserved" ∷ "Reserved" ∷ "Reserved"
    ∷ "Supervisor External Interrupt" ∷ "Reserved" ∷ "Reserved" ∷ "Reserved"
    ∷ "Counter-overflow Interrupt" ∷ "Reserved" ∷ "Reserved" ∷ []

abbrev pub exception_max_count : ℕ
exception_max_count = 20

abbrev pub exception_names : List String
exception_names =
    "Instruction Address Misaligned" ∷ "Instruction Access Fault" ∷ "Illegal Instruction"
    ∷ "Breakpoint" ∷ "Load Address Misaligned" ∷ "Load Access Fault"
    ∷ "Store/AMO Address Misaligned" ∷ "Store/AMO Access Fault" ∷ "Environment Call from U-mode"
    ∷ "Environment Call from S-mode" ∷ "Reserved" ∷ "Reserved" ∷ "Instruction Page Fault"
    ∷ "Load Page Fault" ∷ "Reserved" ∷ "Store/AMO Page Fault" ∷ "Reserved" ∷ "Reserved"
    ∷ "SoftwareCheck" ∷ "HardwareError" ∷ []

abbrev pub mode_max_count : ℕ
mode_max_count = 16

-- Four initialisers fewer than the array has elements.
abbrev pub mode_names : List String
mode_names =
    "Bare" ∷ "Reserved" ∷ "Reserved" ∷ "Reserved" ∷ "Reserved" ∷ "Reserved" ∷ "Reserved"
    ∷ "Reserved" ∷ "SV39" ∷ "SV48" ∷ "SV57" ∷ "SV64" ∷ []
