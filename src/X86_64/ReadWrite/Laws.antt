-- ===== src/X86_64/ReadWrite/Laws.antt =====
-- The register templates of include/x86_64/regs/read_write.hpp on the registers that they compile
-- for.
use cpu_io.Base.{
  ℕ, ◌+◌, ◌*◌, ◌/◌, ◌%◌, ◌^◌, ◌<◌, ◌≡◌, ◌≢◌, Bool, true, false, arith, bit_and, bit_or,
  bit_and-ones, bit_or-add, refl, some, shl64,
}
use cpu_io.X86_64.Machine.{Reg, rbp, rflags, cr0, cr2, cr3, cr4, cr8, Stores, Cpu, put, put_msr}
use cpu_io.X86_64.ReadWrite.{read, read_msr, write, write_msr}

-- The 64-bit registers that `Read` and `Write` compile for.
abbrev pub is_word : Reg → Bool
is_word rbp = true
is_word rflags = true
is_word cr0 = true
is_word cr2 = true
is_word cr3 = true
is_word cr4 = true
is_word cr8 = true
is_word _ = false

pub read-eq : (r : Reg) (c : Cpu) → is_word r ≡ true → read r c ≡ some (c.reg r, c)
unfolding read
read-eq rbp c e = refl
read-eq _ c e = first_of (cc, ground arith)

pub read_msr-eq : (n : ℕ) (c : Cpu) → c.msr n < 2 ^ 64 → read_msr n c ≡ some (c.msr n, c)
unfolding read_msr
read_msr-eq n c lt =
    let joined : bit_or (shl64 (c.msr n / 2 ^ 32 % 2 ^ 32) 32) (c.msr n % 2 ^ 32) ≡ c.msr n =
      ground (arith, bit_or-add 32 (c.msr n / 2 ^ 32 % 2 ^ 32) (c.msr n % 2 ^ 32)) in
    rw joined refl

module _ ⦃w : Stores⦄ where
  pub write-eq : (r : Reg) (v : ℕ) (c : Cpu) → is_word r ≡ true → write r v c ≡ some (tt, put r v c)
  unfolding write
  write-eq rbp v c e = refl
  write-eq _ v c e = first_of (cc, ground arith)

  pub write_msr-eq : (n v : ℕ) (c : Cpu) → v < 2 ^ 64 → write_msr n v c ≡ some (tt, put_msr n v c)
  unfolding write_msr
  write_msr-eq n v c lt =
      let joined : v / 2 ^ 32 % 2 ^ 32 * 2 ^ 32 + bit_and v 0xFFFFFFFF % 2 ^ 32 ≡ v =
        omega (arith, bit_and-ones 32 0 v) in
      rw joined refl

  -- A 64-bit value written to an MSR that stores it is read back from its two halves; every other
  -- MSR that holds 64 bits reads as before.
  pub read-write_msr :
      (n m v : ℕ) (c : Cpu)
      → v < 2 ^ 64
      → w.msr_value n (c.msr n) v ≡ v
      → n ≢ m
      → c.msr m < 2 ^ 64
      → (c' : Cpu) × (write_msr n v c ≡ some (tt, c'))
        × (read_msr n c' ≡ some (v, c'))
        × (read_msr m c' ≡ some (c.msr m, c'))
  read-write_msr n m v c lt stored ne lt' = (
    put_msr n v c,
    write_msr-eq n v c lt,
    ground (arith, read_msr-eq n (put_msr n v c)),
    ground (arith, read_msr-eq m (put_msr n v c)),
  )
