-- ===== src/Aarch64/ReadWrite/Laws.antt =====
-- The register templates of include/aarch64/regs/read_write.hpp on the registers that they compile
-- for.
use cpu_io.Base.{
  ℕ, ◌≡◌, Bool, true, false, arith, bit_and, bit_or, refl, some, none, not64, if◌then◌else◌,
}
use cpu_io.Aarch64.Machine.{
  Reg, x0, spsel, daif, cpacr_el1, current_el, mpidr_el1, cntvct_el0, cntfrq_el0, cntv_ctl_el0,
  icc_iar1_el1, icc_eoir1_el1, icc_sgi1r_el1, icc_pmr_el1, icc_sre_el1, icc_igrpen1_el1, sctlr_el1,
  ttbr0_el1, ttbr1_el1, Stores, Core, put,
}
use cpu_io.Aarch64.ReadWrite.{read, write, set_bits, clear_bits}

-- The 64-bit registers that `Read` compiles for, and those of them that `Write` compiles for too.
abbrev pub is_readable : Reg → Bool
is_readable cntfrq_el0 = false
is_readable icc_eoir1_el1 = false
is_readable icc_sgi1r_el1 = false
is_readable _ = true

abbrev pub is_word : Reg → Bool
is_word current_el = false
is_word mpidr_el1 = false
is_word cntvct_el0 = false
is_word cntfrq_el0 = false
is_word icc_iar1_el1 = false
is_word icc_eoir1_el1 = false
is_word icc_sgi1r_el1 = false
is_word _ = true

-- The registers that `SetBits`, and that `ClearBits`, compiles for.
abbrev pub can_clear : Reg → Bool
can_clear cpacr_el1 = true
can_clear spsel = true
can_clear daif = true
can_clear cntv_ctl_el0 = true
can_clear icc_igrpen1_el1 = true
can_clear sctlr_el1 = true
can_clear ttbr0_el1 = true
can_clear ttbr1_el1 = true
can_clear _ = false

abbrev pub can_set : Reg → Bool
can_set icc_pmr_el1 = true
can_set icc_sre_el1 = true
can_set r = can_clear r

pub read-eq : (r : Reg) (c : Core) → is_readable r ≡ true → read r c ≡ some (c.reg r, c)
unfolding read
read-eq x0 c e = refl
read-eq _ c e = first_of (cc, ground arith)

pub read_word-eq : (r : Reg) (c : Core) → is_word r ≡ true → read r c ≡ some (c.reg r, c)
unfolding read
read_word-eq x0 c e = refl
read_word-eq _ c e = first_of (cc, ground arith)

module _ ⦃w : Stores⦄ where
  pub write-eq :
      (r : Reg) (v : ℕ) (c : Core) → is_word r ≡ true → write r v c ≡ some (tt, put r v c)
  unfolding write
  write-eq x0 v c e = refl
  write-eq _ v c e = first_of (cc, ground arith)

  pub set_bits-eq :
      (r : Reg) (m : ℕ) (c : Core)
      → set_bits r m c ≡ (if can_set r then some (tt, put r (bit_or (c.reg r) m) c) else none)
  unfolding set_bits write
  set_bits-eq x0 m c = refl
  set_bits-eq _ m c = first_of (cc, ground arith)

  pub clear_bits-eq :
      (r : Reg) (m : ℕ) (c : Core)
      → clear_bits r m c
        ≡ (if can_clear r then some (tt, put r (bit_and (c.reg r) (not64 m)) c) else none)
  unfolding clear_bits write
  clear_bits-eq x0 m c = refl
  clear_bits-eq _ m c = first_of (cc, ground arith)
