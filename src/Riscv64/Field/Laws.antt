-- ===== src/Riscv64/Field/Laws.antt =====
-- The register templates of include/riscv64/regs/read_write.hpp on the registers that can be
-- written, and the field templates over them.
use cpu_io.Base.{
  ℕ, ◌^◌, ◌<◌, ◌≡◌, ◌≢◌, Bool, true, false, arith, bit_and, bit_or, bit_and-ones, refl, ltb, some,
  none, not64, if◌then◌else◌,
}
use cpu_io.Riscv64.Hart.{Reg, fp, tp, time, cycle, instret, stimecmp, Csrs, Hart, put}
use cpu_io.Riscv64.ReadWrite.{
  read, write, set_bits, clear_bits, write_const, set_const, clear_const, read_write,
  read_write_const, read_set_bits, read_set_bits_const, read_clear_bits, read_clear_bits_imm,
  read_clear_bits_const,
}

-- The registers that the code writes by CSR instructions.
abbrev pub is_csr : Reg → Bool
is_csr fp = false
is_csr tp = false
is_csr time = false
is_csr cycle = false
is_csr instret = false
is_csr stimecmp = false
is_csr _ = true

pub read-eq : (r : Reg) (h : Hart) → read r h ≡ some (h.reg r, h)
unfolding read
read-eq fp h = refl
read-eq _ h = refl

module _ ⦃c : Csrs⦄ where
  pub write-eq : (r : Reg) (v : ℕ) (h : Hart) → is_csr r ≡ true → write r v h ≡ some (tt, put r v h)
  unfolding write
  write-eq fp v h e = cc
  write-eq _ v h e = first_of (cc, ground arith)

  pub set_bits-eq :
      (r : Reg) (m : ℕ) (h : Hart)
      → is_csr r ≡ true
      → set_bits r m h ≡ some (tt, put r (bit_or (h.reg r) m) h)
  unfolding set_bits
  set_bits-eq fp m h e = cc
  set_bits-eq _ m h e = first_of (cc, ground arith)

  pub clear_bits-eq :
      (r : Reg) (m : ℕ) (h : Hart)
      → is_csr r ≡ true
      → clear_bits r m h ≡ some (tt, put r (bit_and (h.reg r) (not64 m)) h)
  unfolding clear_bits
  clear_bits-eq fp m h e = cc
  clear_bits-eq _ m h e = first_of (cc, ground arith)

  write_const-eq :
      (r : Reg) (v : ℕ) (h : Hart) → is_csr r ≡ true → v < 2 ^ 64 → write_const r v h ≡ write r v h
  unfolding write_const write
  write_const-eq fp v h e lt = cc
  write_const-eq _ v h e lt = first_of (cc, ground (arith, bit_and-ones 5 0 v))

  pub set_const-eq :
      (r : Reg) (v : ℕ) (h : Hart)
      → is_csr r ≡ true
      → v < 2 ^ 64
      → v ≢ 0
      → set_const r v h ≡ set_bits r v h
  unfolding set_const set_bits
  set_const-eq fp v h e lt ne = cc
  set_const-eq _ v h e lt ne = first_of (cc, ground (arith, bit_and-ones 5 0 v))

  pub clear_const-eq :
      (r : Reg) (v : ℕ) (h : Hart)
      → is_csr r ≡ true
      → v < 2 ^ 64
      → v ≢ 0
      → clear_const r v h ≡ clear_bits r v h
  unfolding clear_const clear_bits
  clear_const-eq fp v h e lt ne = cc
  clear_const-eq _ v h e lt ne = first_of (cc, ground (arith, bit_and-ones 5 0 v))

  read_write_const-eq :
      (r : Reg) (v : ℕ) (h : Hart)
      → is_csr r ≡ true
      → v < 2 ^ 64
      → read_write_const r v h ≡ read_write r v h
  unfolding read_write_const read_write
  read_write_const-eq fp v h e lt = cc
  read_write_const-eq _ v h e lt = first_of (cc, ground (arith, bit_and-ones 5 0 v))

  read_set_bits_const-eq :
      (r : Reg) (v : ℕ) (h : Hart)
      → is_csr r ≡ true
      → v < 2 ^ 64
      → v ≢ 0
      → read_set_bits_const r v h ≡ read_set_bits r v h
  unfolding read_set_bits_const read_set_bits
  read_set_bits_const-eq fp v h e lt ne = cc
  read_set_bits_const-eq _ v h e lt ne = first_of (cc, ground (arith, bit_and-ones 5 0 v))

  -- For a 64-bit constant that is not 0, and a CSR that can be written, the five constant forms
  -- `WriteConst`, `SetConst`, `ClearConst`, `ReadWriteConst` and `ReadSetBitsConst` do what `Write`,
  -- `SetBits`, `ClearBits`, `ReadWrite` and `ReadSetBits` do, though they take the immediate
  -- instruction below 32.
  pub const_forms :
      (r : Reg) (v : ℕ) (h : Hart)
      → is_csr r ≡ true
      → v < 2 ^ 64
      → v ≢ 0
      → (write_const r v h ≡ write r v h)
        × (set_const r v h ≡ set_bits r v h)
        × (clear_const r v h ≡ clear_bits r v h)
        × (read_write_const r v h ≡ read_write r v h)
        × (read_set_bits_const r v h ≡ read_set_bits r v h)
  const_forms r v h e lt ne = (
    write_const-eq r v h e lt,
    set_const-eq r v h e lt ne,
    clear_const-eq r v h e lt ne,
    read_write_const-eq r v h e lt,
    read_set_bits_const-eq r v h e lt ne,
  )

  -- On a CSR that can be written, `ReadClearBits` returns the old value and clears the mask's bits;
  -- for a 64-bit mask that is not 0 the immediate form does the same below 32 and does not assemble
  -- from there on, while the constant form does not compile below 32 and does the same from there on.
  pub read_clear_bits_forms :
      (r : Reg) (v : ℕ) (h : Hart)
      → is_csr r ≡ true
      → v < 2 ^ 64
      → v ≢ 0
      → (read_clear_bits r v h ≡ some (h.reg r, put r (bit_and (h.reg r) (not64 v)) h))
        × (read_clear_bits_imm r v h ≡ (if ltb v 32 then read_clear_bits r v h else none))
        × (read_clear_bits_const r v h ≡ (if ltb v 32 then none else read_clear_bits r v h))
  unfolding read_clear_bits read_clear_bits_imm read_clear_bits_const
  read_clear_bits_forms fp v h e lt ne = cc
  read_clear_bits_forms _ v h e lt ne = first_of (cc, ground (arith, bit_and-ones 5 0 v))
