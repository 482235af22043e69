-- ===== src/Aarch64/Info/Fields.antt =====
-- Which fields include/aarch64/regs/register_info.hpp describes for each register.
use cpu_io.Base.{List, [], ◌∷◌}
use cpu_io.RegisterInfo.{Field}
use cpu_io.Aarch64.Machine.{
  Reg, cpacr_el1, current_el, spsel, daif, vbar_el1, mpidr_el1, sctlr_el1, mair_el1, tcr_el1,
  ttbr0_el1, ttbr1_el1, esr_el1, cntv_ctl_el0, cntv_tval_el0, icc_pmr_el1, icc_igrpen1_el1,
  icc_sre_el1, icc_iar1_el1, icc_eoir1_el1, icc_sgi1r_el1,
}
use cpu_io.Aarch64.Info.{
  cpacr_el1_fpen, current_el_el, spsel_sp, daif_d, daif_a, daif_i, daif_f, vbar_el1_base,
  mpidr_el1_aff3, mpidr_el1_u, mpidr_el1_mt, mpidr_el1_aff2, mpidr_el1_aff1, mpidr_el1_aff0,
  ttbr0_el1_asid, ttbr0_el1_baddr, ttbr0_el1_cnp, ttbr1_el1_asid, ttbr1_el1_baddr, ttbr1_el1_cnp,
  tcr_el1_ips, tcr_el1_tg1, tcr_el1_t1sz, tcr_el1_tg0, tcr_el1_t0sz, mair_el1_aff7, mair_el1_aff6,
  mair_el1_aff5, mair_el1_aff4, mair_el1_aff3, mair_el1_aff2, mair_el1_aff1, mair_el1_aff0,
}
use cpu_io.Aarch64.Info.System.{
  sctlr_el1_m, sctlr_el1_c, sctlr_el1_i, esr_el1_iss2, esr_el1_ec, esr_el1_iss,
  cntv_ctl_el0_istatus, cntv_ctl_el0_imask, cntv_ctl_el0_enable, cntv_tval_el0_timer_value,
  icc_pmr_el1_priority, icc_igrpen1_el1_enable, icc_sre_el1_dib, icc_sre_el1_dfb, icc_sre_el1_sre,
  icc_iar1_el1_intid, icc_eoir1_el1_intid, icc_sgi1r_el1_aff3, icc_sgi1r_el1_rs, icc_sgi1r_el1_irm,
  icc_sgi1r_el1_aff2, icc_sgi1r_el1_intid, icc_sgi1r_el1_aff1, icc_sgi1r_el1_target_list,
}

abbrev pub fields : Reg → List Field
fields cpacr_el1 = cpacr_el1_fpen ∷ []
fields current_el = current_el_el ∷ []
fields spsel = spsel_sp ∷ []
fields daif = daif_d ∷ daif_a ∷ daif_i ∷ daif_f ∷ []
fields vbar_el1 = vbar_el1_base ∷ []
fields mpidr_el1 =
    mpidr_el1_aff3 ∷ mpidr_el1_u ∷ mpidr_el1_mt ∷ mpidr_el1_aff2 ∷ mpidr_el1_aff1 ∷ mpidr_el1_aff0
    ∷ []
fields ttbr0_el1 = ttbr0_el1_asid ∷ ttbr0_el1_baddr ∷ ttbr0_el1_cnp ∷ []
fields ttbr1_el1 = ttbr1_el1_asid ∷ ttbr1_el1_baddr ∷ ttbr1_el1_cnp ∷ []
fields tcr_el1 = tcr_el1_ips ∷ tcr_el1_tg1 ∷ tcr_el1_t1sz ∷ tcr_el1_tg0 ∷ tcr_el1_t0sz ∷ []
fields mair_el1 =
    mair_el1_aff7 ∷ mair_el1_aff6 ∷ mair_el1_aff5 ∷ mair_el1_aff4 ∷ mair_el1_aff3 ∷ mair_el1_aff2
    ∷ mair_el1_aff1 ∷ mair_el1_aff0 ∷ []
fields sctlr_el1 = sctlr_el1_m ∷ sctlr_el1_c ∷ sctlr_el1_i ∷ []
fields esr_el1 = esr_el1_iss2 ∷ esr_el1_ec ∷ esr_el1_iss ∷ []
fields cntv_ctl_el0 = cntv_ctl_el0_istatus ∷ cntv_ctl_el0_imask ∷ cntv_ctl_el0_enable ∷ []
fields cntv_tval_el0 = cntv_tval_el0_timer_value ∷ []
fields icc_pmr_el1 = icc_pmr_el1_priority ∷ []
fields icc_igrpen1_el1 = icc_igrpen1_el1_enable ∷ []
fields icc_sre_el1 = icc_sre_el1_dib ∷ icc_sre_el1_dfb ∷ icc_sre_el1_sre ∷ []
fields icc_iar1_el1 = icc_iar1_el1_intid ∷ []
fields icc_eoir1_el1 = icc_eoir1_el1_intid ∷ []
fields icc_sgi1r_el1 =
    icc_sgi1r_el1_aff3 ∷ icc_sgi1r_el1_rs ∷ icc_sgi1r_el1_irm ∷ icc_sgi1r_el1_aff2
    ∷ icc_sgi1r_el1_intid ∷ icc_sgi1r_el1_aff1 ∷ icc_sgi1r_el1_target_list ∷ []
fields _ = []
