-- ===== src/X86_64/Apic/Registers.antt =====
-- The x2APIC registers of include/x86_64/apic.hpp that can be written and read back.
use cpu_io.Base.{ℕ, ◌^◌, ◌<◌, ◌≡◌, refl, arith, some, u32}
use cpu_io.X86_64.Machine.{Stores, Cpu, update_msr, put_msr, pure, ◌>>=◌, ◌>>◌}
use cpu_io.X86_64.ReadWrite.{read_msr, write_msr}
use cpu_io.X86_64.ReadWrite.Laws.{read_msr-eq, write_msr-eq}
use cpu_io.X86_64.Apic.{
  read_tpr, write_tpr, read_sivr, write_sivr, read_icr, write_icr, read_lvt_timer, write_lvt_timer,
  read_lvt_lint0, write_lvt_lint0, read_lvt_lint1, write_lvt_lint1, read_lvt_error, write_lvt_error,
  read_timer_init_count, write_timer_init_count, read_timer_divide, write_timer_divide,
}

abbrev pub with_msr : ℕ → ℕ → Cpu → Cpu
with_msr n v c = record c { msr = update_msr c.msr n v }

module _ ⦃w : Stores⦄ where
  -- The processor with what it stores of a value in a register.
  abbrev pub kept : ℕ → ℕ → Cpu → ℕ
  kept n v c = w.msr_value n (c.msr n) v

  read_back :
      (n v : ℕ) (c : Cpu)
      → v < 2 ^ 64
      → kept n v c < 2 ^ 64
      → (write_msr n v >> read_msr n) c ≡ some (kept n v c, with_msr n (kept n v c) c)
  read_back n v c lt word =
      rw (◌>>◌, ◌>>=◌, write_msr-eq n v c lt)
        (ground (arith, read_msr-eq n (with_msr n (kept n v c) c)))

  low_read_back :
      (n v : ℕ) (c : Cpu)
      → v < 2 ^ 32
      → kept n v c < 2 ^ 64
      → (write_msr n (u32 v) >> (read_msr n >>= λ value. pure (u32 value))) c
        ≡ some (u32 (kept n v c), with_msr n (kept n v c) c)
  low_read_back n v c lt word =
      let low : u32 v ≡ v = omega arith in
      let back : read_msr n (put_msr n v c) ≡ some (kept n v c, with_msr n (kept n v c) c) =
        ground (arith, read_msr-eq n (with_msr n (kept n v c) c)) in
      rw low (rw (◌>>◌, ◌>>=◌, write_msr-eq n v c (omega arith), ◌>>=◌, back) refl)

  -- On a processor that stores a 64-bit value in every register, which may differ from the value
  -- written in the bits that the register does not have, each of the eight 32-bit registers that can
  -- be written and read gives back the low 32 bits of what the processor stored under the register's
  -- documented number, and no other register changes; the interrupt command register does so for
  -- all 64 bits. The values are of these widths, and writes that the processor rejects are left out.
  pub registers_hold :
      (v command : ℕ) (c : Cpu)
      → v < 2 ^ 32
      → command < 2 ^ 64
      → ((n o x : ℕ) → w.msr_value n o x < 2 ^ 64)
      → ((write_tpr v >> read_tpr) c
          ≡ some (u32 (w.msr_value 0x808 (c.msr 0x808) v), with_msr 0x808 (kept 0x808 v c) c))
        × ((write_sivr v >> read_sivr) c
            ≡ some (u32 (w.msr_value 0x80F (c.msr 0x80F) v), with_msr 0x80F (kept 0x80F v c) c))
        × ((write_lvt_timer v >> read_lvt_timer) c
            ≡ some (u32 (w.msr_value 0x832 (c.msr 0x832) v), with_msr 0x832 (kept 0x832 v c) c))
        × ((write_lvt_lint0 v >> read_lvt_lint0) c
            ≡ some (u32 (w.msr_value 0x835 (c.msr 0x835) v), with_msr 0x835 (kept 0x835 v c) c))
        × ((write_lvt_lint1 v >> read_lvt_lint1) c
            ≡ some (u32 (w.msr_value 0x836 (c.msr 0x836) v), with_msr 0x836 (kept 0x836 v c) c))
        × ((write_lvt_error v >> read_lvt_error) c
            ≡ some (u32 (w.msr_value 0x837 (c.msr 0x837) v), with_msr 0x837 (kept 0x837 v c) c))
        × ((write_timer_init_count v >> read_timer_init_count) c
            ≡ some (u32 (w.msr_value 0x838 (c.msr 0x838) v), with_msr 0x838 (kept 0x838 v c) c))
        × ((write_timer_divide v >> read_timer_divide) c
            ≡ some (u32 (w.msr_value 0x83E (c.msr 0x83E) v), with_msr 0x83E (kept 0x83E v c) c))
        × ((write_icr command >> read_icr) c
            ≡ some
                (w.msr_value 0x830 (c.msr 0x830) command, with_msr 0x830 (kept 0x830 command c) c))
  unfolding write_tpr read_tpr write_sivr read_sivr write_lvt_timer read_lvt_timer write_lvt_lint0
      read_lvt_lint0 write_lvt_lint1 read_lvt_lint1 write_lvt_error read_lvt_error
      write_timer_init_count read_timer_init_count write_timer_divide read_timer_divide write_icr
      read_icr
  registers_hold v command c lt lt' words = (
    low_read_back 0x808 v c lt (words _ _ _),
    low_read_back 0x80F v c lt (words _ _ _),
    low_read_back 0x832 v c lt (words _ _ _),
    low_read_back 0x835 v c lt (words _ _ _),
    low_read_back 0x836 v c lt (words _ _ _),
    low_read_back 0x837 v c lt (words _ _ _),
    low_read_back 0x838 v c lt (words _ _ _),
    low_read_back 0x83E v c lt (words _ _ _),
    read_back 0x830 command c lt' (words _ _ _),
  )
