-- ===== src/Riscv64/Info.antt =====
-- The fields and constants of include/riscv64/regs/register_info.hpp.
use cpu_io.Base.{ℕ, not64}
use cpu_io.RegisterInfo.{bool, uint8, uint16, uint64, Field, field}

abbrev pub sstatus_sie : Field
sstatus_sie = field 1 1 bool

abbrev pub sstatus_spie : Field
sstatus_spie = field 5 1 bool

abbrev pub sstatus_spp : Field
sstatus_spp = field 8 1 bool

abbrev pub stvec_direct : ℕ
stvec_direct = 0x0

abbrev pub stvec_vectored : ℕ
stvec_vectored = 0x1

abbrev pub stvec_mode : Field
stvec_mode = field 0 2 uint8

-- The masks are written as `~0x3`, an int that is widened with its sign.
abbrev pub stvec_base : Field
stvec_base = record {
  bit_offset = 0;
  bit_width = 62;
  bit_mask = not64 0x3;
  all_set_mask = not64 0x3;
  data_type = uint64;
}

abbrev pub sip_ssip : Field
sip_ssip = field 1 1 bool

abbrev pub sip_stip : Field
sip_stip = field 5 1 bool

abbrev pub sip_seip : Field
sip_seip = field 9 1 bool

abbrev pub sie_ssie : Field
sie_ssie = field 1 1 bool

abbrev pub sie_stie : Field
sie_stie = field 5 1 bool

abbrev pub sie_seie : Field
sie_seie = field 9 1 bool

abbrev pub scause_exception_code : Field
scause_exception_code = field 0 63 uint64

abbrev pub scause_interrupt : Field
scause_interrupt = field 63 1 bool

abbrev pub satp_bare : ℕ
satp_bare = 0

abbrev pub satp_sv39 : ℕ
satp_sv39 = 8

abbrev pub satp_sv48 : ℕ
satp_sv48 = 9

abbrev pub satp_sv57 : ℕ
satp_sv57 = 10

abbrev pub satp_sv64 : ℕ
satp_sv64 = 11

abbrev pub satp_ppn_offset : ℕ
satp_ppn_offset = 12

abbrev pub satp_ppn : Field
satp_ppn = field 0 44 uint64

abbrev pub satp_asid : Field
satp_asid = field 44 16 uint16

abbrev pub satp_mode : Field
satp_mode = field 60 4 uint8
