-- ===== src/Aarch64/Registers.antt =====
-- The register classes of include/aarch64/regs.hpp: how each register may be accessed, and its
-- fields.
pub mod Laws
use cpu_io.Base.{List, [], ◌∷◌}
use cpu_io.RegisterInfo.Access.{Access, read_only, write_only, read_write, Declared}
use cpu_io.Aarch64.Machine.{
  Reg, x0, x29, cpacr_el1, current_el, spsel, daif, vbar_el1, elr_el1, spsr_el1, sp_el0, sp_el1,
  mpidr_el1, sctlr_el1, mair_el1, tcr_el1, esr_el1, far_el1, cntv_ctl_el0, cntv_tval_el0,
  cntvct_el0, cntfrq_el0, icc_pmr_el1, icc_igrpen1_el1, icc_sre_el1, icc_iar1_el1, icc_eoir1_el1,
  icc_sgi1r_el1, ttbr0_el1, ttbr1_el1,
}
use cpu_io.Aarch64.Info.{
  cpacr_el1_fpen, current_el_el, spsel_sp, daif_d, daif_a, daif_i, daif_f, vbar_el1_base,
  mpidr_el1_aff3, mpidr_el1_u, mpidr_el1_mt, mpidr_el1_aff2, mpidr_el1_aff1, mpidr_el1_aff0,
  mair_el1_aff7, mair_el1_aff6, mair_el1_aff5, mair_el1_aff4, mair_el1_aff3, mair_el1_aff2,
  mair_el1_aff1, mair_el1_aff0, tcr_el1_ips, tcr_el1_tg1, tcr_el1_t1sz, tcr_el1_tg0, tcr_el1_t0sz,
  ttbr0_el1_asid, ttbr0_el1_baddr, ttbr0_el1_cnp, ttbr1_el1_asid, ttbr1_el1_baddr, ttbr1_el1_cnp,
}
use cpu_io.Aarch64.Info.System.{
  sctlr_el1_m, sctlr_el1_c, sctlr_el1_i, esr_el1_iss2, esr_el1_ec, esr_el1_iss,
  cntv_ctl_el0_istatus, cntv_ctl_el0_imask, cntv_ctl_el0_enable, cntv_tval_el0_timer_value,
  icc_pmr_el1_priority, icc_igrpen1_el1_enable, icc_sre_el1_dib, icc_sre_el1_dfb, icc_sre_el1_sre,
  icc_iar1_el1_intid, icc_eoir1_el1_intid, icc_sgi1r_el1_aff3, icc_sgi1r_el1_rs, icc_sgi1r_el1_irm,
  icc_sgi1r_el1_aff2, icc_sgi1r_el1_intid, icc_sgi1r_el1_aff1, icc_sgi1r_el1_target_list,
}

abbrev pub x0_class : Declared
x0_class = record { base = read_write; members = [] }

abbrev pub x29_class : Declared
x29_class = record { base = read_write; members = [] }

abbrev pub cpacr_el1_class : Declared
cpacr_el1_class = record { base = read_write; members = (read_write, cpacr_el1_fpen) ∷ [] }

abbrev pub current_el_class : Declared
current_el_class = record { base = read_only; members = (read_only, current_el_el) ∷ [] }

abbrev pub spsel_class : Declared
spsel_class = record { base = read_write; members = (read_write, spsel_sp) ∷ [] }

abbrev pub daif_class : Declared
daif_class = record {
  base = read_write;
  members =
      (read_write, daif_d)
      ∷ (read_write, daif_a)
      ∷ (read_write, daif_i)
      ∷ (read_write, daif_f)
      ∷ [];
}

abbrev pub vbar_el1_class : Declared
vbar_el1_class = record { base = read_write; members = (read_write, vbar_el1_base) ∷ [] }

abbrev pub elr_el1_class : Declared
elr_el1_class = record { base = read_write; members = [] }

abbrev pub spsr_el1_class : Declared
spsr_el1_class = record { base = read_write; members = [] }

abbrev pub sp_el0_class : Declared
sp_el0_class = record { base = read_write; members = [] }

abbrev pub sp_el1_class : Declared
sp_el1_class = record { base = read_write; members = [] }

abbrev pub mpidr_el1_class : Declared
mpidr_el1_class = record {
  base = read_only;
  members =
      (read_only, mpidr_el1_aff3)
      ∷ (read_only, mpidr_el1_u)
      ∷ (read_only, mpidr_el1_mt)
      ∷ (read_only, mpidr_el1_aff2)
      ∷ (read_only, mpidr_el1_aff1)
      ∷ (read_only, mpidr_el1_aff0)
      ∷ [];
}

abbrev pub sctlr_el1_class : Declared
sctlr_el1_class = record {
  base = read_write;
  members = (read_write, sctlr_el1_m) ∷ (read_write, sctlr_el1_c) ∷ (read_write, sctlr_el1_i) ∷ [];
}

abbrev pub mair_el1_class : Declared
mair_el1_class = record {
  base = read_write;
  members =
      (read_write, mair_el1_aff7)
      ∷ (read_write, mair_el1_aff6)
      ∷ (read_write, mair_el1_aff5)
      ∷ (read_write, mair_el1_aff4)
      ∷ (read_write, mair_el1_aff3)
      ∷ (read_write, mair_el1_aff2)
      ∷ (read_write, mair_el1_aff1)
      ∷ (read_write, mair_el1_aff0)
      ∷ [];
}

abbrev pub tcr_el1_class : Declared
tcr_el1_class = record {
  base = read_write;
  members =
      (read_write, tcr_el1_ips)
      ∷ (read_write, tcr_el1_tg1)
      ∷ (read_write, tcr_el1_t1sz)
      ∷ (read_write, tcr_el1_tg0)
      ∷ (read_write, tcr_el1_t0sz)
      ∷ [];
}

abbrev pub esr_el1_class : Declared
esr_el1_class = record {
  base = read_write;
  members = (read_write, esr_el1_iss2) ∷ (read_write, esr_el1_ec) ∷ (read_write, esr_el1_iss) ∷ [];
}

abbrev pub far_el1_class : Declared
far_el1_class = record { base = read_write; members = [] }

abbrev pub cntv_ctl_el0_class : Declared
cntv_ctl_el0_class = record {
  base = read_write;
  members =
      (read_write, cntv_ctl_el0_istatus)
      ∷ (read_write, cntv_ctl_el0_imask)
      ∷ (read_write, cntv_ctl_el0_enable)
      ∷ [];
}

abbrev pub cntv_tval_el0_class : Declared
cntv_tval_el0_class = record {
  base = read_write;
  members = (read_write, cntv_tval_el0_timer_value) ∷ [];
}

abbrev pub cntvct_el0_class : Declared
cntvct_el0_class = record { base = read_write; members = [] }

abbrev pub cntfrq_el0_class : Declared
cntfrq_el0_class = record { base = read_write; members = [] }

abbrev pub icc_pmr_el1_class : Declared
icc_pmr_el1_class = record { base = read_write; members = (read_write, icc_pmr_el1_priority) ∷ [] }

abbrev pub icc_igrpen1_el1_class : Declared
icc_igrpen1_el1_class = record {
  base = read_write;
  members = (read_write, icc_igrpen1_el1_enable) ∷ [];
}

abbrev pub icc_sre_el1_class : Declared
icc_sre_el1_class = record {
  base = read_write;
  members =
      (read_write, icc_sre_el1_dib)
      ∷ (read_write, icc_sre_el1_dfb)
      ∷ (read_write, icc_sre_el1_sre)
      ∷ [];
}

abbrev pub icc_iar1_el1_class : Declared
icc_iar1_el1_class = record { base = read_only; members = (read_only, icc_iar1_el1_intid) ∷ [] }

abbrev pub icc_eoir1_el1_class : Declared
icc_eoir1_el1_class = record { base = write_only; members = (write_only, icc_eoir1_el1_intid) ∷ [] }

abbrev pub icc_sgi1r_el1_class : Declared
icc_sgi1r_el1_class = record {
  base = write_only;
  members =
      (write_only, icc_sgi1r_el1_aff3)
      ∷ (write_only, icc_sgi1r_el1_rs)
      ∷ (write_only, icc_sgi1r_el1_irm)
      ∷ (write_only, icc_sgi1r_el1_aff2)
      ∷ (write_only, icc_sgi1r_el1_intid)
      ∷ (write_only, icc_sgi1r_el1_aff1)
      ∷ (write_only, icc_sgi1r_el1_target_list)
      ∷ [];
}

abbrev pub ttbr0_el1_class : Declared
ttbr0_el1_class = record {
  base = read_write;
  members =
      (read_write, ttbr0_el1_asid)
      ∷ (read_write, ttbr0_el1_baddr)
      ∷ (read_write, ttbr0_el1_cnp)
      ∷ [];
}

abbrev pub ttbr1_el1_class : Declared
ttbr1_el1_class = record {
  base = read_write;
  members =
      (read_write, ttbr1_el1_asid)
      ∷ (read_write, ttbr1_el1_baddr)
      ∷ (read_write, ttbr1_el1_cnp)
      ∷ [];
}

-- The class of a register.
abbrev pub declared : Reg → Declared
declared x0 = x0_class
declared x29 = x29_class
declared cpacr_el1 = cpacr_el1_class
declared current_el = current_el_class
declared spsel = spsel_class
declared daif = daif_class
declared vbar_el1 = vbar_el1_class
declared elr_el1 = elr_el1_class
declared spsr_el1 = spsr_el1_class
declared sp_el0 = sp_el0_class
declared sp_el1 = sp_el1_class
declared mpidr_el1 = mpidr_el1_class
declared sctlr_el1 = sctlr_el1_class
declared mair_el1 = mair_el1_class
declared tcr_el1 = tcr_el1_class
declared esr_el1 = esr_el1_class
declared far_el1 = far_el1_class
declared cntv_ctl_el0 = cntv_ctl_el0_class
declared cntv_tval_el0 = cntv_tval_el0_class
declared cntvct_el0 = cntvct_el0_class
declared cntfrq_el0 = cntfrq_el0_class
declared icc_pmr_el1 = icc_pmr_el1_class
declared icc_igrpen1_el1 = icc_igrpen1_el1_class
declared icc_sre_el1 = icc_sre_el1_class
declared icc_iar1_el1 = icc_iar1_el1_class
declared icc_eoir1_el1 = icc_eoir1_el1_class
declared icc_sgi1r_el1 = icc_sgi1r_el1_class
declared ttbr0_el1 = ttbr0_el1_class
declared ttbr1_el1 = ttbr1_el1_class
