-- ===== src/Riscv64/Registers/Laws.antt =====
-- The register classes of include/riscv64/regs.hpp against the templates that they inherit from and
-- the descriptions that they name.
use cpu_io.Base.{ℕ, ◌≡◌, Bool, true, false, refl, not}
use cpu_io.RegisterInfo.Access.{reads, writes, consistent, member_fields, compiles}
use cpu_io.RegisterInfo.Table.{well_described}
use cpu_io.Riscv64.Hart.{Reg, fp, stvec, Csrs, Hart}
use cpu_io.Riscv64.ReadWrite.{read, write}
use cpu_io.Riscv64.Registers.{declared}

abbrev is_stvec : Reg → Bool
is_stvec stvec = true
is_stvec _ = false

members-well_described :
    (r : Reg) → well_described (member_fields (declared r).members) ≡ not (is_stvec r)
members-well_described fp = refl
members-well_described _ = refl

consistent-declared : (r : Reg) → consistent (declared r).base (declared r).members ≡ true
consistent-declared fp = refl
consistent-declared _ = refl

compiles-read : (r : Reg) (h : Hart) → compiles (read r h) ≡ reads (declared r).base
unfolding read
compiles-read fp h = refl
compiles-read _ h = refl

module _ ⦃c : Csrs⦄ where
  compiles-write : (r : Reg) (v : ℕ) (h : Hart) → compiles (write r v h) ≡ writes (declared r).base
  unfolding write
  compiles-write fp v h = refl
  compiles-write _ v h = refl

  -- On riscv64, `Read` compiles exactly for the register classes that can be read, and `Write` for
  -- those that can be written; every field has the access of its register; and the fields of a
  -- register are well formed and share no bit, but for those of stvec, where the base is described
  -- from bit 0.
  pub declared_csr_access :
      (r : Reg) (v : ℕ) (h : Hart)
      → (compiles (read r h) ≡ reads (declared r).base)
        × (compiles (write r v h) ≡ writes (declared r).base)
        × (consistent (declared r).base (declared r).members ≡ true)
        × (well_described (member_fields (declared r).members) ≡ not (is_stvec r))
  declared_csr_access r v h =
      (compiles-read r h, compiles-write r v h, consistent-declared r, members-well_described r)
