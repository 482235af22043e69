-- ===== src/X86_64/Cpu/Laws.antt =====
-- The interrupt switch of include/x86_64/cpu.hpp.
use cpu_io.Base.{
  ℕ, ◌+◌, ◌*◌, ◌/◌, ◌%◌, ◌^◌, ◌<◌, ◌≡◌, Bool, true, false, arith, some, ◌∙◌, ap, ◌!=◌, refl, Option,
}
use cpu_io.RegisterInfo.{cast}
use cpu_io.RegisterInfo.Laws.{IsRun, get_value-eq, bit_or-mask, bit_and-not-mask, insert-eq}
use cpu_io.X86_64.Machine.{Reg, rflags, Stores, Cpu, put, update, ◌>>=◌}
use cpu_io.X86_64.Info.{rflags_if}
use cpu_io.X86_64.Field
use cpu_io.X86_64.Field.Update.{get-eq}
use cpu_io.X86_64.ReadWrite.{set_bits, clear_bits}
use cpu_io.X86_64.Cpu.{enable_interrupt, disable_interrupt, get_interrupt_status}

abbrev pub with_reg : Reg → Cpu → ℕ → Cpu
with_reg r c v = record c { reg = update c.reg r v }

rflags_if-IsRun : IsRun rflags_if
rflags_if-IsRun = record { fits = omega arith; ones = refl }

pub get_interrupt_status-eq :
    (c : Cpu) → get_interrupt_status c ≡ some (c.reg rflags / 512 % 2 != 0, c)
unfolding get_interrupt_status cast
get_interrupt_status-eq c =
    rw (get-eq rflags rflags_if c refl, ◌>>=◌)
      (ground (arith, get_value-eq rflags_if rflags_if-IsRun (c.reg rflags)))

module _ ⦃w : Stores⦄ where
  -- The processor stores a new RFLAGS as written where only the interrupt flag may differ from the
  -- old one.
  abbrev pub TogglesIf : Type 0
  TogglesIf = (o v : ℕ) → o / 1024 ≡ v / 1024 → o % 512 ≡ v % 512 → w.reg_value rflags o v ≡ v

  stored :
      (n m : ℕ) (c : Cpu)
      → n ≡ m
      → w.reg_value rflags (c.reg rflags) m ≡ m
      → ◌≡◌ {A = Option (Unit {0} × Cpu)}
          (some (tt, put rflags n c))
          (some (tt, with_reg rflags c m))
  stored n m c e a = rw e (rw a)

  -- Where the interrupt flag can be written, after `EnableInterrupt` the status is true, after
  -- `DisableInterrupt` it is false, and both change no other flag and nothing else.
  pub interrupt_flag_switch :
      (c : Cpu)
      → TogglesIf
      → c.reg rflags < 2 ^ 64
      → (e : Cpu) × (d : Cpu) × (enable_interrupt c ≡ some (tt, e))
        × (get_interrupt_status e ≡ some (true, e))
        × (disable_interrupt c ≡ some (tt, d))
        × (get_interrupt_status d ≡ some (false, d))
        × (e ≡ with_reg rflags c (c.reg rflags / 1024 * 1024 + 512 + c.reg rflags % 512))
        × (d ≡ with_reg rflags c (c.reg rflags / 1024 * 1024 + c.reg rflags % 512))
  unfolding enable_interrupt disable_interrupt Field.set Field.clear set_bits clear_bits
  interrupt_flag_switch c toggles lt = (
    with_reg rflags c on,
    with_reg rflags c off,
    stored _ on c
        (bit_or-mask rflags_if rflags_if-IsRun (c.reg rflags) lt
          ∙ omega (arith, insert-eq rflags_if rflags_if-IsRun (c.reg rflags) 1 lt))
        (toggles _ _ (omega arith) (omega arith)),
    get_interrupt_status-eq (with_reg rflags c on)
        ∙ ap (λ (b : Bool). some (b, with_reg rflags c on)) (ground arith),
    stored _ off c
        (bit_and-not-mask rflags_if rflags_if-IsRun (c.reg rflags) lt
          ∙ omega (arith, insert-eq rflags_if rflags_if-IsRun (c.reg rflags) 0 lt))
        (toggles _ _ (omega arith) (omega arith)),
    get_interrupt_status-eq (with_reg rflags c off)
        ∙ ap (λ (b : Bool). some (b, with_reg rflags c off)) (ground arith),
    refl,
    refl,
  )
    where
      on : ℕ
      on = c.reg rflags / 1024 * 1024 + 512 + c.reg rflags % 512

      off : ℕ
      off = c.reg rflags / 1024 * 1024 + c.reg rflags % 512
