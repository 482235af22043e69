-- ===== src/X86_64/Info.antt =====
-- The bit fields of include/x86_64/regs/register_info.hpp.
use cpu_io.RegisterInfo.{Field, field, bool, uint8, uint16, uint64}

abbrev pub rflags_if : Field
rflags_if = field 9 1 bool

-- `Base` of the table registers is a pointer in one description and a uint64_t in the other.
abbrev pub gdtr_limit : Field
gdtr_limit = field 0 16 uint16

abbrev pub gdtr_base : Field
gdtr_base = field 0 64 uint64

abbrev pub idtr_limit : Field
idtr_limit = field 0 16 uint16

abbrev pub idtr_base : Field
idtr_base = field 0 64 uint64

abbrev pub cr0_pe : Field
cr0_pe = field 0 1 bool

abbrev pub cr0_pg : Field
cr0_pg = field 31 1 bool

abbrev pub cr3_pwt : Field
cr3_pwt = field 3 1 bool

abbrev pub cr3_pcd : Field
cr3_pcd = field 4 1 bool

abbrev pub cr3_page_directory_base : Field
cr3_page_directory_base = field 12 52 uint64

abbrev pub cr4_pae : Field
cr4_pae = field 5 1 bool

abbrev pub selector_rpl : Field
selector_rpl = field 0 2 uint8

abbrev pub selector_ti : Field
selector_ti = field 2 1 bool

abbrev pub selector_index : Field
selector_index = field 3 13 uint16
