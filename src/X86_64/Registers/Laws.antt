-- ===== src/X86_64/Registers/Laws.antt =====
-- The register classes of include/x86_64/regs.hpp against the templates that they inherit from and
-- the descriptions that they name.
use cpu_io.Base.{Bool, true, false}
use cpu_io.X86_64.Machine.{Reg, gdtr, idtr, ldtr, tr, xcr0, cs}

-- The registers that the templates have no branch for.
abbrev pub is_missing : Reg → Bool
is_missing ldtr = true
is_missing tr = true
is_missing xcr0 = true
is_missing _ = false

-- The two table registers, of 80 bits.
abbrev pub is_table : Reg → Bool
is_table gdtr = true
is_table idtr = true
is_table _ = false

abbrev pub is_cs : Reg → Bool
is_cs cs = true
is_cs _ = false
