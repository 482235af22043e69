-- ===== src/X86_64.antt =====
-- include/x86_64.
pub mod Machine
pub mod ReadWrite
pub mod Field
pub mod Info
pub mod Descriptor
pub mod Cpu
pub mod Calls
pub mod Context
pub mod Names
pub mod Output
pub mod Paging
pub mod Apic
pub mod Bus
pub mod Io
pub mod Msr
pub mod Cpuid
pub mod Pic
pub mod Pit
pub mod Serial
pub mod Registers
pub mod Tests
