-- ===== src/X86_64/Apic/Laws.antt =====
-- The local APIC of include/x86_64/apic.hpp: the modes in the base register, and the registers.
use cpu_io.Base.{
  ℕ, ◌+◌, ◌*◌, ◌/◌, ◌%◌, ◌^◌, ◌<◌, ◌≡◌, ◌∙◌, refl, arith, Bool, some, ◌!=◌, bit_and-ones,
}
use cpu_io.RegisterInfo.{field, uint64}
use cpu_io.RegisterInfo.Laws.{IsRun, bit_or-mask, bit_and-not-mask, insert-eq}
use cpu_io.X86_64.Machine.{Stores, Cpu, update_msr, ◌>>=◌}
use cpu_io.X86_64.ReadWrite.Laws.{read_msr-eq, write_msr-eq}
use cpu_io.X86_64.Apic.{
  is_bsp, is_globally_enabled, is_x2_apic_enabled, get_base_address, enable_globally,
  disable_globally, enable_x2_apic, disable_x2_apic, read_base, write_base,
}

-- What the four queries of the base register answer.
abbrev pub Answers : Cpu → Bool → Bool → Bool → ℕ → Type 0
Answers c bsp enabled x2 address =
    (is_bsp c ≡ some (bsp, c))
    × (is_globally_enabled c ≡ some (enabled, c))
    × (is_x2_apic_enabled c ≡ some (x2, c))
    × (get_base_address c ≡ some (address, c))

pub base_queries :
    (c : Cpu)
    → c.msr 0x1B < 2 ^ 64
    → Answers c
        (c.msr 0x1B / 256 % 2 != 0)
        (c.msr 0x1B / 2048 % 2 != 0)
        (c.msr 0x1B / 1024 % 2 != 0)
        (c.msr 0x1B / 4096 % 2 ^ 20 * 4096)
unfolding is_bsp is_globally_enabled is_x2_apic_enabled get_base_address read_base
base_queries c lt = (
  rw (read_msr-eq 0x1B c lt, ◌>>=◌) (ground (arith, bit_and-ones 1 8 (c.msr 0x1B))),
  rw (read_msr-eq 0x1B c lt, ◌>>=◌) (ground (arith, bit_and-ones 1 11 (c.msr 0x1B))),
  rw (read_msr-eq 0x1B c lt, ◌>>=◌) (ground (arith, bit_and-ones 1 10 (c.msr 0x1B))),
  rw (read_msr-eq 0x1B c lt, ◌>>=◌) (ground (arith, bit_and-ones 20 12 (c.msr 0x1B))),
)

-- Bit n of the base register, and the address in it.
abbrev pub flag : ℕ → Cpu → Bool
flag n c = c.msr 0x1B / 2 ^ n % 2 != 0

abbrev pub base_address : Cpu → ℕ
base_address c = c.msr 0x1B / 4096 % 2 ^ 20 * 4096

two_bits-IsRun : IsRun (field 10 2 uint64)
two_bits-IsRun = record { fits = omega arith; ones = refl }

x2-IsRun : IsRun (field 10 1 uint64)
x2-IsRun = record { fits = omega arith; ones = refl }

global-IsRun : IsRun (field 11 1 uint64)
global-IsRun = record { fits = omega arith; ones = refl }

-- The answers after the base register changes, in terms of the new value.
queries_of :
    (v : ℕ) (c : Cpu) (bsp enabled x2 : Bool) (address : ℕ)
    → v < 2 ^ 64
    → (v / 256 % 2 != 0) ≡ bsp
    → (v / 2048 % 2 != 0) ≡ enabled
    → (v / 1024 % 2 != 0) ≡ x2
    → v / 4096 % 2 ^ 20 * 4096 ≡ address
    → Answers (record c { msr = update_msr c.msr 0x1B v }) bsp enabled x2 address
queries_of v c bsp enabled x2 address lt p q r s =
    rw (← p, ← q, ← r, ← s) (base_queries (record c { msr = update_msr c.msr 0x1B v }) lt)

module _ ⦃w : Stores⦄ where
  abbrev pub with_base : ℕ → Cpu → Cpu
  with_base v c = record c { msr = update_msr c.msr 0x1B v }

  base_written :
      (n v : ℕ) (c : Cpu)
      → n ≡ v
      → v < 2 ^ 64
      → write_base n c ≡ some (tt, with_base (w.msr_value 0x1B (c.msr 0x1B) v) c)
  unfolding write_base
  base_written n v c e lt = rw e (write_msr-eq 0x1B v c lt)

  -- The base register after each of the four switches.
  abbrev pub globally_enabled : ℕ → ℕ
  globally_enabled b = b / 4096 * 4096 + 2048 + b % 2048

  abbrev pub globally_disabled : ℕ → ℕ
  globally_disabled b = b / 4096 * 4096 + b % 2048

  abbrev pub x2_enabled : ℕ → ℕ
  x2_enabled b = b / 4096 * 4096 + 3072 + b % 1024

  abbrev pub x2_disabled : ℕ → ℕ
  x2_disabled b = b / 2048 * 2048 + b % 1024

  -- What each of the four switches hands the processor.
  pub switches_written :
      (c : Cpu)
      → c.msr 0x1B < 2 ^ 64
      → (enable_globally c
          ≡ some (tt, with_base (w.msr_value 0x1B (c.msr 0x1B) (globally_enabled (c.msr 0x1B))) c))
        × (disable_globally c
            ≡ some
                (tt, with_base (w.msr_value 0x1B (c.msr 0x1B) (globally_disabled (c.msr 0x1B))) c))
        × (enable_x2_apic c
            ≡ some (tt, with_base (w.msr_value 0x1B (c.msr 0x1B) (x2_enabled (c.msr 0x1B))) c))
        × (disable_x2_apic c
            ≡ some (tt, with_base (w.msr_value 0x1B (c.msr 0x1B) (x2_disabled (c.msr 0x1B))) c))
  unfolding enable_x2_apic enable_globally disable_x2_apic disable_globally read_base
  switches_written c lt =
      let b = c.msr 0x1B in
      (
        rw (read_msr-eq 0x1B c lt, ◌>>=◌)
            (base_written _ (globally_enabled b) c
              (bit_or-mask (field 11 1 uint64) global-IsRun b lt
                ∙ omega (arith, insert-eq (field 11 1 uint64) global-IsRun b 1 lt))
              (omega arith)),
        rw (read_msr-eq 0x1B c lt, ◌>>=◌)
            (base_written _ (globally_disabled b) c
              (bit_and-not-mask (field 11 1 uint64) global-IsRun b lt
                ∙ omega (arith, insert-eq (field 11 1 uint64) global-IsRun b 0 lt))
              (omega arith)),
        rw (read_msr-eq 0x1B c lt, ◌>>=◌)
            (base_written _ (x2_enabled b) c
              (bit_or-mask (field 10 2 uint64) two_bits-IsRun b lt
                ∙ omega (arith, insert-eq (field 10 2 uint64) two_bits-IsRun b 3 lt))
              (omega arith)),
        rw (read_msr-eq 0x1B c lt, ◌>>=◌)
            (base_written _ (x2_disabled b) c
              (bit_and-not-mask (field 10 1 uint64) x2-IsRun b lt
                ∙ omega (arith, insert-eq (field 10 1 uint64) x2-IsRun b 0 lt))
              (omega arith)),
      )
