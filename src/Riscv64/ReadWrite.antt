-- ===== src/Riscv64/ReadWrite.antt =====
-- ReadOnlyRegBase, WriteOnlyRegBase and ReadWriteRegBase of include/riscv64/regs/read_write.hpp:
-- one clause for each branch on `RegInfo`, and the choice between the immediate and the register
-- form for constants.
use cpu_io.Base.{ℕ, ◌==◌, if◌then◌else◌, bit_and, u8}
use cpu_io.Riscv64.Hart.{
  Reg, fp, tp, sstatus, stvec, sip, sie, time, cycle, instret, sscratch, sepc, scause, stval, satp,
  stimecmp, Csrs, M, not_compiled, mv_from, mv_to, csrr, imm, csrrw, csrrs, csrrc, csrw, csrs, csrc,
  csrrsi, csrrci, csrsi, csrci,
}

-- `kCsrImmOpMask`.
abbrev pub csr_imm_op_mask : ℕ
csr_imm_op_mask = 0x1f

unfoldable pub read : Reg → M ℕ
read fp = mv_from fp
read tp = mv_from tp
read sstatus = csrr sstatus
read stvec = csrr stvec
read sip = csrr sip
read sie = csrr sie
read time = csrr time
read cycle = csrr cycle
read instret = csrr instret
read sscratch = csrr sscratch
read sepc = csrr sepc
read scause = csrr scause
read stval = csrr stval
read satp = csrr satp
read stimecmp = csrr stimecmp

-- `operator()`.
unfoldable pub call_operator : Reg → M ℕ
call_operator r = read r

module _ ⦃c : Csrs⦄ where
  unfoldable pub write : Reg → ℕ → M (Unit {0})
  write fp value = mv_to fp value
  write tp value = mv_to tp value
  write sstatus value = csrw sstatus value
  write stvec value = csrw stvec value
  write sip value = csrw sip value
  write sie value = csrw sie value
  write sscratch value = csrw sscratch value
  write sepc value = csrw sepc value
  write scause value = csrw scause value
  write stval value = csrw stval value
  write satp value = csrw satp value
  write _ value = not_compiled

  unfoldable pub write_imm : Reg → ℕ → M (Unit {0})
  write_imm sstatus value = imm value (csrw sstatus value)
  write_imm stvec value = imm value (csrw stvec value)
  write_imm sip value = imm value (csrw sip value)
  write_imm sie value = imm value (csrw sie value)
  write_imm sscratch value = imm value (csrw sscratch value)
  write_imm sepc value = imm value (csrw sepc value)
  write_imm scause value = imm value (csrw scause value)
  write_imm stval value = imm value (csrw stval value)
  write_imm satp value = imm value (csrw satp value)
  write_imm _ value = not_compiled

  unfoldable pub set_bits : Reg → ℕ → M (Unit {0})
  set_bits sstatus mask = csrs sstatus mask
  set_bits stvec mask = csrs stvec mask
  set_bits sip mask = csrs sip mask
  set_bits sie mask = csrs sie mask
  set_bits sscratch mask = csrs sscratch mask
  set_bits sepc mask = csrs sepc mask
  set_bits scause mask = csrs scause mask
  set_bits stval mask = csrs stval mask
  set_bits satp mask = csrs satp mask
  set_bits _ mask = not_compiled

  unfoldable pub clear_bits : Reg → ℕ → M (Unit {0})
  clear_bits sstatus mask = csrc sstatus mask
  clear_bits stvec mask = csrc stvec mask
  clear_bits sip mask = csrc sip mask
  clear_bits sie mask = csrc sie mask
  clear_bits sscratch mask = csrc sscratch mask
  clear_bits sepc mask = csrc sepc mask
  clear_bits scause mask = csrc scause mask
  clear_bits stval mask = csrc stval mask
  clear_bits satp mask = csrc satp mask
  clear_bits _ mask = not_compiled

  unfoldable pub set_bits_imm : Reg → ℕ → M (Unit {0})
  set_bits_imm sstatus mask = imm mask (csrsi sstatus mask)
  set_bits_imm stvec mask = imm mask (csrsi stvec mask)
  set_bits_imm sip mask = imm mask (csrsi sip mask)
  set_bits_imm sie mask = imm mask (csrsi sie mask)
  set_bits_imm sscratch mask = imm mask (csrsi sscratch mask)
  set_bits_imm sepc mask = imm mask (csrsi sepc mask)
  set_bits_imm scause mask = imm mask (csrsi scause mask)
  set_bits_imm stval mask = imm mask (csrsi stval mask)
  set_bits_imm satp mask = imm mask (csrsi satp mask)
  set_bits_imm _ mask = not_compiled

  unfoldable pub clear_bits_imm : Reg → ℕ → M (Unit {0})
  clear_bits_imm sstatus mask = imm mask (csrci sstatus mask)
  clear_bits_imm stvec mask = imm mask (csrci stvec mask)
  clear_bits_imm sip mask = imm mask (csrci sip mask)
  clear_bits_imm sie mask = imm mask (csrci sie mask)
  clear_bits_imm sscratch mask = imm mask (csrci sscratch mask)
  clear_bits_imm sepc mask = imm mask (csrci sepc mask)
  clear_bits_imm scause mask = imm mask (csrci scause mask)
  clear_bits_imm stval mask = imm mask (csrci stval mask)
  clear_bits_imm satp mask = imm mask (csrci satp mask)
  clear_bits_imm _ mask = not_compiled

  unfoldable pub write_const : Reg → ℕ → M (Unit {0})
  unfolding write_imm write
  write_const r value =
      if bit_and value csr_imm_op_mask == value then write_imm r (u8 value) else write r value

  unfoldable pub set_const : Reg → ℕ → M (Unit {0})
  unfolding set_bits_imm set_bits
  set_const r mask =
      if bit_and mask csr_imm_op_mask == mask then set_bits_imm r (u8 mask) else set_bits r mask

  unfoldable pub clear_const : Reg → ℕ → M (Unit {0})
  unfolding clear_bits_imm clear_bits
  clear_const r mask =
      if bit_and mask csr_imm_op_mask == mask then clear_bits_imm r (u8 mask) else clear_bits r mask

  unfoldable pub read_write : Reg → ℕ → M ℕ
  read_write sstatus value = csrrw sstatus value
  read_write stvec value = csrrw stvec value
  read_write sip value = csrrw sip value
  read_write sie value = csrrw sie value
  read_write sscratch value = csrrw sscratch value
  read_write sepc value = csrrw sepc value
  read_write scause value = csrrw scause value
  read_write stval value = csrrw stval value
  read_write satp value = csrrw satp value
  read_write _ value = not_compiled

  unfoldable pub read_write_imm : Reg → ℕ → M ℕ
  read_write_imm sstatus value = imm value (csrrw sstatus value)
  read_write_imm stvec value = imm value (csrrw stvec value)
  read_write_imm sip value = imm value (csrrw sip value)
  read_write_imm sie value = imm value (csrrw sie value)
  read_write_imm sscratch value = imm value (csrrw sscratch value)
  read_write_imm sepc value = imm value (csrrw sepc value)
  read_write_imm scause value = imm value (csrrw scause value)
  read_write_imm stval value = imm value (csrrw stval value)
  read_write_imm satp value = imm value (csrrw satp value)
  read_write_imm _ value = not_compiled

  unfoldable pub read_write_const : Reg → ℕ → M ℕ
  unfolding read_write_imm read_write
  read_write_const r value =
      if bit_and value csr_imm_op_mask == value
      then read_write_imm r (u8 value)
      else read_write r value

  unfoldable pub read_set_bits : Reg → ℕ → M ℕ
  read_set_bits sstatus mask = csrrs sstatus mask
  read_set_bits stvec mask = csrrs stvec mask
  read_set_bits sip mask = csrrs sip mask
  read_set_bits sie mask = csrrs sie mask
  read_set_bits sscratch mask = csrrs sscratch mask
  read_set_bits sepc mask = csrrs sepc mask
  read_set_bits scause mask = csrrs scause mask
  read_set_bits stval mask = csrrs stval mask
  read_set_bits satp mask = csrrs satp mask
  read_set_bits _ mask = not_compiled

  unfoldable pub read_set_bits_imm : Reg → ℕ → M ℕ
  read_set_bits_imm sstatus mask = imm mask (csrrsi sstatus mask)
  read_set_bits_imm stvec mask = imm mask (csrrsi stvec mask)
  read_set_bits_imm sip mask = imm mask (csrrsi sip mask)
  read_set_bits_imm sie mask = imm mask (csrrsi sie mask)
  read_set_bits_imm sscratch mask = imm mask (csrrsi sscratch mask)
  read_set_bits_imm sepc mask = imm mask (csrrsi sepc mask)
  read_set_bits_imm scause mask = imm mask (csrrsi scause mask)
  read_set_bits_imm stval mask = imm mask (csrrsi stval mask)
  read_set_bits_imm satp mask = imm mask (csrrsi satp mask)
  read_set_bits_imm _ mask = not_compiled

  unfoldable pub read_set_bits_const : Reg → ℕ → M ℕ
  unfolding read_set_bits_imm read_set_bits
  read_set_bits_const r mask =
      if bit_and mask csr_imm_op_mask == mask
      then read_set_bits_imm r (u8 mask)
      else read_set_bits r mask

  unfoldable pub read_clear_bits : Reg → ℕ → M ℕ
  read_clear_bits sstatus mask = csrrc sstatus mask
  read_clear_bits stvec mask = csrrc stvec mask
  read_clear_bits sip mask = csrrc sip mask
  read_clear_bits sie mask = csrrc sie mask
  read_clear_bits sscratch mask = csrrc sscratch mask
  read_clear_bits sepc mask = csrrc sepc mask
  read_clear_bits scause mask = csrrc scause mask
  read_clear_bits stval mask = csrrc stval mask
  read_clear_bits satp mask = csrrc satp mask
  read_clear_bits _ mask = not_compiled

  unfoldable pub read_clear_bits_imm : Reg → ℕ → M ℕ
  read_clear_bits_imm sstatus mask = imm mask (csrrci sstatus mask)
  read_clear_bits_imm stvec mask = imm mask (csrrci stvec mask)
  read_clear_bits_imm sip mask = imm mask (csrrci sip mask)
  read_clear_bits_imm sie mask = imm mask (csrrci sie mask)
  read_clear_bits_imm sscratch mask = imm mask (csrrci sscratch mask)
  read_clear_bits_imm sepc mask = imm mask (csrrci sepc mask)
  read_clear_bits_imm scause mask = imm mask (csrrci scause mask)
  read_clear_bits_imm stval mask = imm mask (csrrci stval mask)
  read_clear_bits_imm satp mask = imm mask (csrrci satp mask)
  read_clear_bits_imm _ mask = not_compiled

  -- The short form names `WriteOnlyRegBase<RegInfo>::ReadClearBitsImm`, which that class lacks.
  unfoldable pub read_clear_bits_const : Reg → ℕ → M ℕ
  unfolding read_clear_bits
  read_clear_bits_const r mask =
      if bit_and mask csr_imm_op_mask == mask then not_compiled else read_clear_bits r mask

  -- `operator|=`.
  unfoldable pub or_assign : Reg → ℕ → M (Unit {0})
  or_assign r mask = set_bits r mask
