-- ===== src/Aarch64/ReadWrite.antt =====
-- ReadOnlyRegBase, WriteOnlyRegBase and ReadWriteRegBase of include/aarch64/regs/read_write.hpp:
-- one clause for each branch on `RegInfo`, and the choice of the immediate form for constants.
pub mod Constants
pub mod Laws
use cpu_io.Base.{ℕ, ◌==◌, if◌then◌else◌, bit_and, bit_or, not64, u8, u32}
use cpu_io.Aarch64.Machine.{
  Reg, x0, x29, cpacr_el1, current_el, spsel, daif, vbar_el1, elr_el1, spsr_el1, sp_el0, sp_el1,
  mpidr_el1, sctlr_el1, mair_el1, tcr_el1, ttbr0_el1, ttbr1_el1, esr_el1, far_el1, cntv_ctl_el0,
  cntv_tval_el0, cntvct_el0, cntfrq_el0, icc_pmr_el1, icc_igrpen1_el1, icc_sre_el1, icc_iar1_el1,
  icc_eoir1_el1, icc_sgi1r_el1, Stores, M, not_compiled, pure, ◌>>=◌, ◌>>◌, mrs, msr, imm4,
  daif_set, daif_clr,
}
use cpu_io.Aarch64.Info.{k_pstate_imm_op_mask}

-- The `DataType` of CNTFRQ_EL0 is uint32_t.
unfoldable pub read : Reg → M ℕ
read cntfrq_el0 = mrs cntfrq_el0 >>= λ value. pure (u32 value)
read x0 = mrs x0
read x29 = mrs x29
read cpacr_el1 = mrs cpacr_el1
read current_el = mrs current_el
read spsel = mrs spsel
read daif = mrs daif
read vbar_el1 = mrs vbar_el1
read elr_el1 = mrs elr_el1
read spsr_el1 = mrs spsr_el1
read sp_el0 = mrs sp_el0
read sp_el1 = mrs sp_el1
read mpidr_el1 = mrs mpidr_el1
read sctlr_el1 = mrs sctlr_el1
read mair_el1 = mrs mair_el1
read tcr_el1 = mrs tcr_el1
read ttbr0_el1 = mrs ttbr0_el1
read ttbr1_el1 = mrs ttbr1_el1
read esr_el1 = mrs esr_el1
read far_el1 = mrs far_el1
read cntv_ctl_el0 = mrs cntv_ctl_el0
read cntv_tval_el0 = mrs cntv_tval_el0
read cntvct_el0 = mrs cntvct_el0
read icc_pmr_el1 = mrs icc_pmr_el1
read icc_igrpen1_el1 = mrs icc_igrpen1_el1
read icc_sre_el1 = mrs icc_sre_el1
read icc_iar1_el1 = mrs icc_iar1_el1
read icc_eoir1_el1 = not_compiled
read icc_sgi1r_el1 = not_compiled

-- `operator()`.
unfoldable pub call_operator : Reg → M ℕ
call_operator r = read r

module _ ⦃w : Stores⦄ where
  unfoldable pub write : Reg → ℕ → M (Unit {0})
  write cntfrq_el0 value = msr cntfrq_el0 (u32 value)
  write x0 value = msr x0 value
  write x29 value = msr x29 value
  write cpacr_el1 value = msr cpacr_el1 value
  write current_el value = not_compiled
  write spsel value = msr spsel value
  write daif value = msr daif value
  write vbar_el1 value = msr vbar_el1 value
  write elr_el1 value = msr elr_el1 value
  write spsr_el1 value = msr spsr_el1 value
  write sp_el0 value = msr sp_el0 value
  write sp_el1 value = msr sp_el1 value
  write mpidr_el1 value = not_compiled
  write sctlr_el1 value = msr sctlr_el1 value
  write mair_el1 value = msr mair_el1 value
  write tcr_el1 value = msr tcr_el1 value
  write ttbr0_el1 value = msr ttbr0_el1 value
  write ttbr1_el1 value = msr ttbr1_el1 value
  write esr_el1 value = msr esr_el1 value
  write far_el1 value = msr far_el1 value
  write cntv_ctl_el0 value = msr cntv_ctl_el0 value
  write cntv_tval_el0 value = msr cntv_tval_el0 value
  write cntvct_el0 value = not_compiled
  write icc_pmr_el1 value = msr icc_pmr_el1 value
  write icc_igrpen1_el1 value = msr icc_igrpen1_el1 value
  write icc_sre_el1 value = msr icc_sre_el1 value
  write icc_iar1_el1 value = not_compiled
  write icc_eoir1_el1 value = msr icc_eoir1_el1 value
  write icc_sgi1r_el1 value = msr icc_sgi1r_el1 value

  unfoldable pub write_imm : Reg → ℕ → M (Unit {0})
  write_imm spsel value = imm4 value (msr spsel value)
  write_imm _ value = not_compiled

  unfoldable pub set_bits : Reg → ℕ → M (Unit {0})
  set_bits cpacr_el1 mask = do value ← mrs cpacr_el1; write cpacr_el1 (bit_or value mask)
  set_bits spsel mask = do value ← mrs spsel; write spsel (bit_or value mask)
  set_bits daif mask = do value ← mrs daif; write daif (bit_or value mask)
  set_bits cntv_ctl_el0 mask = do value ← mrs cntv_ctl_el0; write cntv_ctl_el0 (bit_or value mask)
  set_bits icc_pmr_el1 mask = do value ← mrs icc_pmr_el1; write icc_pmr_el1 (bit_or value mask)
  set_bits icc_sre_el1 mask = do value ← mrs icc_sre_el1; write icc_sre_el1 (bit_or value mask)
  set_bits icc_igrpen1_el1 mask = do
    value ← mrs icc_igrpen1_el1
    write icc_igrpen1_el1 (bit_or value mask)
  set_bits sctlr_el1 mask = do value ← mrs sctlr_el1; write sctlr_el1 (bit_or value mask)
  set_bits ttbr0_el1 mask = do value ← mrs ttbr0_el1; write ttbr0_el1 (bit_or value mask)
  set_bits ttbr1_el1 mask = do value ← mrs ttbr1_el1; write ttbr1_el1 (bit_or value mask)
  set_bits _ mask = not_compiled

  unfoldable pub clear_bits : Reg → ℕ → M (Unit {0})
  clear_bits cpacr_el1 mask = do value ← mrs cpacr_el1; write cpacr_el1 (bit_and value (not64 mask))
  clear_bits spsel mask = do value ← mrs spsel; write spsel (bit_and value (not64 mask))
  clear_bits daif mask = do value ← mrs daif; write daif (bit_and value (not64 mask))
  clear_bits cntv_ctl_el0 mask = do
    value ← mrs cntv_ctl_el0
    write cntv_ctl_el0 (bit_and value (not64 mask))
  clear_bits icc_igrpen1_el1 mask = do
    value ← mrs icc_igrpen1_el1
    write icc_igrpen1_el1 (bit_and value (not64 mask))
  clear_bits sctlr_el1 mask = do value ← mrs sctlr_el1; write sctlr_el1 (bit_and value (not64 mask))
  clear_bits ttbr0_el1 mask = do value ← mrs ttbr0_el1; write ttbr0_el1 (bit_and value (not64 mask))
  clear_bits ttbr1_el1 mask = do value ← mrs ttbr1_el1; write ttbr1_el1 (bit_and value (not64 mask))
  clear_bits _ mask = not_compiled

  unfoldable pub set_bits_imm : Reg → ℕ → M (Unit {0})
  set_bits_imm daif mask = imm4 mask (daif_set mask)
  set_bits_imm _ mask = not_compiled

  unfoldable pub clear_bits_imm : Reg → ℕ → M (Unit {0})
  clear_bits_imm daif mask = imm4 mask (daif_clr mask)
  clear_bits_imm _ mask = not_compiled

  unfoldable pub write_const : Reg → ℕ → M (Unit {0})
  write_const r value =
      if bit_and value k_pstate_imm_op_mask == value then write_imm r (u8 value) else write r value

  unfoldable pub set_const : Reg → ℕ → M (Unit {0})
  set_const r mask =
      if bit_and mask k_pstate_imm_op_mask == mask
      then set_bits_imm r (u8 mask)
      else set_bits r mask

  unfoldable pub clear_const : Reg → ℕ → M (Unit {0})
  clear_const r mask =
      if bit_and mask k_pstate_imm_op_mask == mask
      then clear_bits_imm r (u8 mask)
      else clear_bits r mask

  unfoldable pub read_write : Reg → ℕ → M ℕ
  read_write r value = do old_value ← read r; write r value; pure old_value

  unfoldable pub read_set_bits : Reg → ℕ → M ℕ
  read_set_bits r mask = do old_value ← read r; set_bits r mask; pure old_value

  unfoldable pub read_clear_bits : Reg → ℕ → M ℕ
  read_clear_bits r mask = do old_value ← read r; clear_bits r mask; pure old_value

  -- `operator|=`.
  unfoldable pub or_assign : Reg → ℕ → M (Unit {0})
  or_assign r mask = set_bits r mask
