-- ===== src/Aarch64.antt =====
-- include/aarch64.
pub mod Machine
pub mod Info
pub mod ReadWrite
pub mod Cpu
pub mod Field
pub mod Paging
pub mod Psci
pub mod Translation
pub mod Registers
pub mod Context
pub mod Tests
