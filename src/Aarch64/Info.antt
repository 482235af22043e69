-- ===== src/Aarch64/Info.antt =====
-- The bit fields of include/aarch64/regs/register_info.hpp: the translation and state registers.
-- Those of the control, exception, timer and interrupt controller registers are in Info/System.
pub mod Fields
pub mod Values
pub mod System
use cpu_io.Base.{ℕ}
use cpu_io.RegisterInfo.{Field, field, bool, uint16, uint64, uint8}

abbrev pub cpacr_el1_fpen : Field
cpacr_el1_fpen = field 20 2 uint8

abbrev pub current_el_el : Field
current_el_el = field 2 2 uint8

abbrev pub spsel_sp : Field
spsel_sp = field 0 1 bool

abbrev pub daif_d : Field
daif_d = field 9 1 bool

abbrev pub daif_a : Field
daif_a = field 8 1 bool

abbrev pub daif_i : Field
daif_i = field 7 1 bool

abbrev pub daif_f : Field
daif_f = field 6 1 bool

abbrev pub vbar_el1_base : Field
vbar_el1_base = field 11 53 uint64

abbrev pub mpidr_el1_aff3 : Field
mpidr_el1_aff3 = field 32 8 uint8

abbrev pub mpidr_el1_u : Field
mpidr_el1_u = field 30 1 bool

abbrev pub mpidr_el1_mt : Field
mpidr_el1_mt = field 24 1 bool

abbrev pub mpidr_el1_aff2 : Field
mpidr_el1_aff2 = field 16 8 uint8

abbrev pub mpidr_el1_aff1 : Field
mpidr_el1_aff1 = field 8 8 uint8

abbrev pub mpidr_el1_aff0 : Field
mpidr_el1_aff0 = field 0 8 uint8

abbrev pub ttbr0_el1_asid : Field
ttbr0_el1_asid = field 48 16 uint16

abbrev pub ttbr0_el1_baddr : Field
ttbr0_el1_baddr = field 1 47 uint64

abbrev pub ttbr0_el1_cnp : Field
ttbr0_el1_cnp = field 0 1 bool

abbrev pub ttbr1_el1_asid : Field
ttbr1_el1_asid = field 48 16 uint16

abbrev pub ttbr1_el1_baddr : Field
ttbr1_el1_baddr = field 1 47 uint64

abbrev pub ttbr1_el1_cnp : Field
ttbr1_el1_cnp = field 0 1 bool

abbrev pub tcr_el1_ips : Field
tcr_el1_ips = field 32 3 uint8

abbrev pub tcr_el1_tg1 : Field
tcr_el1_tg1 = field 30 2 uint8

abbrev pub tcr_el1_t1sz : Field
tcr_el1_t1sz = field 16 6 uint8

abbrev pub tcr_el1_tg0 : Field
tcr_el1_tg0 = field 14 2 uint8

abbrev pub tcr_el1_t0sz : Field
tcr_el1_t0sz = field 0 6 uint8

abbrev pub mair_el1_aff7 : Field
mair_el1_aff7 = field 56 8 uint8

abbrev pub mair_el1_aff6 : Field
mair_el1_aff6 = field 48 8 uint8

abbrev pub mair_el1_aff5 : Field
mair_el1_aff5 = field 40 8 uint8

abbrev pub mair_el1_aff4 : Field
mair_el1_aff4 = field 32 8 uint8

abbrev pub mair_el1_aff3 : Field
mair_el1_aff3 = field 24 8 uint8

abbrev pub mair_el1_aff2 : Field
mair_el1_aff2 = field 16 8 uint8

abbrev pub mair_el1_aff1 : Field
mair_el1_aff1 = field 8 8 uint8

abbrev pub mair_el1_aff0 : Field
mair_el1_aff0 = field 0 8 uint8

-- The values that the code writes: `TCR_EL1Info` and `MAIR_EL1Info`.
abbrev pub k_ips_48_bits : ℕ
k_ips_48_bits = 0b101

abbrev pub k_tg_4kb : ℕ
k_tg_4kb = 0b00

abbrev pub k_tg1_4kb : ℕ
k_tg1_4kb = 0b10

abbrev pub k_device_ngnrne : ℕ
k_device_ngnrne = 0x00

abbrev pub k_normal_non_cacheable : ℕ
k_normal_non_cacheable = 0x44

abbrev pub k_normal_write_through_read_alloc : ℕ
k_normal_write_through_read_alloc = 0xBB

abbrev pub k_normal_write_back_read_write_alloc : ℕ
k_normal_write_back_read_write_alloc = 0xFF

-- `kPSTATEImmOpMask`.
abbrev pub k_pstate_imm_op_mask : ℕ
k_pstate_imm_op_mask = 0xF
