-- ===== src/Riscv64.antt =====
-- include/riscv64.
pub mod Hart
pub mod ReadWrite
pub mod Info
pub mod Field
pub mod Cpu
pub mod Paging
pub mod Registers
pub mod Calls
pub mod Names
pub mod Output
pub mod Context
mod Tests
