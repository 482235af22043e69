-- ===== src/Lib.antt =====
-- Verification of cpu_io, a header-only C++ library that reads and writes the registers of x86_64,
-- riscv64 and aarch64 processors, keeps their page tables and drives the devices beside them.
--
-- The program's parts and where they are modelled:
--   Base               64-bit words on the native numbers, the wrap-around of `+`, `-`, `<<`
--                      and `~` written out, and the bit lemmas that every part uses.
--   RegisterInfo       regs/register_info_base.h of the three targets, with the extraction and the
--                      insertion of a bit field that their read_write.hpp templates share.
--   Layout             where the members of a struct lie.
--   State              actions on a machine state, as functions that may have no result.
--   Output             what operator.cpp hands to `printf`: a format and its arguments. The operators are in
--                      Riscv64/Output and X86_64/Output.
--   Riscv64            include/riscv64: the CSR templates of regs/read_write.hpp (ReadWrite,
--                      Field), the descriptions of regs/register_info.hpp (Info), the classes of
--                      regs.hpp (Registers), cpu.hpp and Stvec::SetDirect (Cpu), virtual_memory.hpp
--                      (Paging) and context.hpp (Context). Names has the causes and the name tables.
--   X86_64             include/x86_64: the register templates of regs/read_write.hpp (ReadWrite,
--                      Field), the descriptions of regs/register_info.hpp (Info; Descriptor for the
--                      segment descriptors and interrupt gates), the classes of regs.hpp
--                      (Registers), cpu.hpp (Cpu), virtual_memory.hpp (Paging), apic.hpp and msr.h
--                      (Apic, Msr), cpuid.hpp (Cpuid), pic.hpp (Pic), pit.hpp (Pit) and serial.hpp
--                      (Serial) over the ports of io.hpp (Bus, Io), and context.hpp (Context). Names has the
--                      interrupt numbers and their names.
--   Aarch64            include/aarch64: the register templates of regs/read_write.hpp (ReadWrite,
--                      Field), the descriptions of regs/register_info.hpp (Info), the classes of
--                      regs.hpp (Registers), cpu.hpp (Cpu), virtual_memory.hpp (Paging, and
--                      Translation for the functions that act on the translation registers and the
--                      TLB), psci.hpp (Psci, and Psci/State for its bit-fields) and context.hpp (Context).
--
-- How the parts correspond to the code. A function keeps its name in lower case (`SetPageDirectory`
-- is `set_page_directory`), a constant `kValid` is `k_valid`, a `struct` of constants for a bit field
-- is a `Field` named after both structs (`SatpInfo::Mode` is `satp_mode`). The class `if constexpr`
-- chains become functions by clauses on `Reg`; a branch of `static_assert(false)` is the failure
-- `not_compiled`. Code that changes a register or a device is a function from a machine state.
--
-- What is a parameter. The inline assembly is the machine's: on riscv64 the section parameter
-- `Csrs` says which values a CSR keeps of those written to it, on x86_64 and aarch64 the parameter
-- `Stores` does so for registers (and MSRs). The firmware behind `smc` is the parameter `Firmware`.
-- The ports are a `Bus` over any device state, of which the records `Controller`, `Timer` and
-- `Uart` state what the documentation of the 8259A, the 8254 and the 16550 says; the cpuid
-- instruction is a function.
--
-- Fuel. Only the polling loops of include/x86_64/serial.hpp can run on; they take fuel, and the
-- theorems about them give fuel above the number of polls that the device needs.
--
-- Sequences of calls. Riscv64/Calls, X86_64/Calls and Aarch64/Translation/Meaning have the calls of
-- cpu.hpp and virtual_memory.hpp as a data type and what they mean for an abstract state; X86_64/Pic/Calls
-- has those of the interrupt controllers, whose abstract state is a set of masked lines. The modules
-- Refinement relate runs of the code to the meaning. X86_64/Apic/Modes has the mode switches of
-- apic.hpp as a state machine, with the steps that the processor accepts as a relation.
--
-- Text. The names are native texts. `printf` is not part of the program: an operator of operator.cpp
-- is the calls of it that it makes, and has no result where it reads a name outside its table. The file
-- is read with the register classes of regs.hpp for the namespace `cpu::regs`, which no header declares.
--
-- Not modelled: the operators of operator.cpp for Cpuid, Efer and X29, of which no header has the class or
-- the member, and for Idt, which shifts a 32-bit value by 32; the empty read_write_base.hpp files; the
-- tests; and the names that register_info.hpp of aarch64 gives to a flag that is set or clear.

pub mod Aarch64
pub mod Base
pub mod Layout
pub mod Output
pub mod RegisterInfo
pub mod Riscv64
pub mod State
pub mod X86_64
