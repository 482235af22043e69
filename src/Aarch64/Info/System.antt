-- ===== src/Aarch64/Info/System.antt =====
-- The bit fields of include/aarch64/regs/register_info.hpp: the control, exception, timer and
-- interrupt controller registers.
use cpu_io.RegisterInfo.{Field, field, bool, uint32, uint64, uint8}

abbrev pub sctlr_el1_m : Field
sctlr_el1_m = field 0 1 bool

abbrev pub sctlr_el1_c : Field
sctlr_el1_c = field 2 1 bool

abbrev pub sctlr_el1_i : Field
sctlr_el1_i = field 12 1 bool

abbrev pub esr_el1_iss2 : Field
esr_el1_iss2 = field 32 24 uint32

abbrev pub esr_el1_ec : Field
esr_el1_ec = field 26 6 uint8

abbrev pub esr_el1_iss : Field
esr_el1_iss = field 0 25 uint32

abbrev pub cntv_ctl_el0_istatus : Field
cntv_ctl_el0_istatus = field 2 1 bool

abbrev pub cntv_ctl_el0_imask : Field
cntv_ctl_el0_imask = field 1 1 bool

abbrev pub cntv_ctl_el0_enable : Field
cntv_ctl_el0_enable = field 0 1 bool

abbrev pub cntv_tval_el0_timer_value : Field
cntv_tval_el0_timer_value = field 0 32 uint32

abbrev pub icc_pmr_el1_priority : Field
icc_pmr_el1_priority = field 0 8 uint8

abbrev pub icc_igrpen1_el1_enable : Field
icc_igrpen1_el1_enable = field 0 1 bool

abbrev pub icc_sre_el1_dib : Field
icc_sre_el1_dib = field 2 1 bool

abbrev pub icc_sre_el1_dfb : Field
icc_sre_el1_dfb = field 1 1 bool

abbrev pub icc_sre_el1_sre : Field
icc_sre_el1_sre = field 0 1 bool

abbrev pub icc_iar1_el1_intid : Field
icc_iar1_el1_intid = field 0 24 uint32

abbrev pub icc_eoir1_el1_intid : Field
icc_eoir1_el1_intid = field 0 24 uint32

abbrev pub icc_sgi1r_el1_aff3 : Field
icc_sgi1r_el1_aff3 = field 48 8 uint64

abbrev pub icc_sgi1r_el1_rs : Field
icc_sgi1r_el1_rs = field 44 4 uint64

abbrev pub icc_sgi1r_el1_irm : Field
icc_sgi1r_el1_irm = field 40 1 uint64

abbrev pub icc_sgi1r_el1_aff2 : Field
icc_sgi1r_el1_aff2 = field 32 8 uint64

abbrev pub icc_sgi1r_el1_intid : Field
icc_sgi1r_el1_intid = field 24 4 uint64

abbrev pub icc_sgi1r_el1_aff1 : Field
icc_sgi1r_el1_aff1 = field 16 8 uint64

abbrev pub icc_sgi1r_el1_target_list : Field
icc_sgi1r_el1_target_list = field 0 16 uint64
