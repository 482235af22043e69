-- ===== src/X86_64/Descriptor/SystemTypes.antt =====
-- The types of the system segment and gate descriptors, and the places in the descriptor table, of
-- include/x86_64/regs/register_info.hpp.
use cpu_io.Base.{ℕ}

pub data SystemType : Type 0 where
  reserved0 bit16_tss_available ldt bit16_tss_busy : SystemType
  bit16_call_gate task_gate bit16_interrupt_gate bit16_trap_gate : SystemType
  reserved8 bit32_tss_available bit64_tss_available reserved10 : SystemType
  bit32_tss_busy bit64_tss_busy bit32_call_gate bit64_call_gate : SystemType
  reserved13 bit32_interrupt_gate bit64_interrupt_gate bit32_trap_gate : SystemType
  bit64_trap_gate : SystemType

-- Four of the 64-bit types have the numbers of the 32-bit ones.
unfoldable pub system_type : SystemType → ℕ
system_type reserved0 = 0
system_type bit16_tss_available = 1
system_type ldt = 2
system_type bit16_tss_busy = 3
system_type bit16_call_gate = 4
system_type task_gate = 5
system_type bit16_interrupt_gate = 6
system_type bit16_trap_gate = 7
system_type reserved8 = 8
system_type bit32_tss_available = 9
system_type bit64_tss_available = 9
system_type reserved10 = 10
system_type bit32_tss_busy = 11
system_type bit64_tss_busy = 11
system_type bit32_call_gate = 12
system_type bit64_call_gate = 12
system_type reserved13 = 13
system_type bit32_interrupt_gate = 14
system_type bit64_interrupt_gate = 14
system_type bit32_trap_gate = 15
system_type bit64_trap_gate = 15

abbrev pub gdt_max_count : ℕ
gdt_max_count = 5

abbrev pub gdt_null_index : ℕ
gdt_null_index = 0

abbrev pub gdt_kernel_code_index : ℕ
gdt_kernel_code_index = 1

abbrev pub gdt_kernel_data_index : ℕ
gdt_kernel_data_index = 2

abbrev pub gdt_user_code_index : ℕ
gdt_user_code_index = 3

abbrev pub gdt_user_data_index : ℕ
gdt_user_data_index = 4
