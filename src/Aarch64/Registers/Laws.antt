-- ===== src/Aarch64/Registers/Laws.antt =====
-- The register classes of include/aarch64/regs.hpp against the templates that they inherit from and
-- the descriptions that they name.
use cpu_io.Base.{Bool, true, false}
use cpu_io.Aarch64.Machine.{Reg, cntvct_el0}

-- The virtual counter.
abbrev pub is_counter : Reg → Bool
is_counter cntvct_el0 = true
is_counter _ = false
