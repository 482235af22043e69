-- ===== src/Riscv64/Output.antt =====
-- The operators of operator.cpp for riscv64, each as the call of `printf` that it makes. The names
-- of the namespace `cpu::regs` are read as the register classes of include/riscv64/regs.hpp.
pub mod Laws
pub mod Calls
mod Tests
use cpu_io.Base.{ℕ, ◌!=◌, ◌==◌, if◌then◌else◌, Option, none, some, List, [], ◌∷◌}
use cpu_io.Output.{Argument, number, string, Printed, printed, String, choice, enabled, element}
use cpu_io.Riscv64.Hart.{
  fp, sstatus, stvec, sip, sie, time, cycle, instret, sscratch, sepc, scause, stval, satp, stimecmp,
  M, undefined, pure, ◌>>=◌,
}
use cpu_io.Riscv64.Info.{
  sstatus_sie, sstatus_spie, sstatus_spp, stvec_mode, stvec_base, stvec_direct, sip_ssip, sip_stip,
  sip_seip, sie_ssie, sie_stie, sie_seie, scause_exception_code, scause_interrupt, satp_ppn,
  satp_asid, satp_mode,
}
use cpu_io.Riscv64.Names.{
  interrupt_max_count, interrupt_names, exception_max_count, exception_names, mode_max_count,
  mode_names,
}
use cpu_io.Riscv64.ReadWrite
use cpu_io.Riscv64.Field

unfoldable pub show_fp : M Printed
show_fp = do value ← ReadWrite.read fp; pure (printed "val: 0x%p" (number value ∷ []))

unfoldable pub show_sstatus : M Printed
show_sstatus = do
  sie_flag ← Field.get sstatus sstatus_sie
  spie ← Field.get sstatus sstatus_spie
  spp ← Field.get sstatus sstatus_spp
  value ← ReadWrite.read sstatus
  pure (
      printed "val: 0x%p, sie: %s, spie: %s, spp: %s"
        (number value ∷ enabled sie_flag ∷ enabled spie ∷ choice spp "S Mode" "U Mode" ∷ []))

unfoldable pub show_stvec : M Printed
show_stvec = do
  mode ← Field.get stvec stvec_mode
  base ← Field.get stvec stvec_base
  value ← ReadWrite.read stvec
  pure (
      printed "val: 0x%p, mode: %s, base: 0x%lX" (
        number value
        ∷ string (some (if mode == stvec_direct then "Direct" else "Vectored"))
        ∷ number base
        ∷ []))

unfoldable pub show_sip : M Printed
show_sip = do
  software ← Field.get sip sip_ssip
  timer ← Field.get sip sip_stip
  external ← Field.get sip sip_seip
  value ← ReadWrite.read sip
  pure (
      printed "val: 0x%p, ssie: %s, stie: %s, seie: %s"
        (number value ∷ enabled software ∷ enabled timer ∷ enabled external ∷ []))

unfoldable pub show_sie : M Printed
show_sie = do
  software ← Field.get sie sie_ssie
  timer ← Field.get sie sie_stie
  external ← Field.get sie sie_seie
  value ← ReadWrite.read sie
  pure (
      printed "val: 0x%p, ssie: %s, stie: %s, seie: %s"
        (number value ∷ enabled software ∷ enabled timer ∷ enabled external ∷ []))

unfoldable pub show_time : M Printed
show_time = do value ← ReadWrite.read time; pure (printed "val: 0x%p" (number value ∷ []))

unfoldable pub show_cycle : M Printed
show_cycle = do value ← ReadWrite.read cycle; pure (printed "val: 0x%p" (number value ∷ []))

unfoldable pub show_instret : M Printed
show_instret = do value ← ReadWrite.read instret; pure (printed "val: 0x%p" (number value ∷ []))

unfoldable pub show_sscratch : M Printed
show_sscratch = do value ← ReadWrite.read sscratch; pure (printed "val: 0x%p" (number value ∷ []))

unfoldable pub show_sepc : M Printed
show_sepc = do value ← ReadWrite.read sepc; pure (printed "val: 0x%p" (number value ∷ []))

-- `%s` of an element of an array; out of its bounds the access is undefined.
abbrev pub name_of : Option (Option String) → M Argument
name_of (some name) = pure (string name)
name_of none = undefined

-- The call of `printf` for a value of scause and its two fields.
unfoldable pub print_cause : ℕ → ℕ → ℕ → M Printed
print_cause value exception_code interrupt = do
  name ← name_of (
      if interrupt != 0
      then element interrupt_max_count interrupt_names exception_code
      else element exception_max_count exception_names exception_code)
  pure (
      printed "val: 0x%p, exception_code: 0x%lX, interrupt: %s, name: %s"
        (number value ∷ number exception_code ∷ choice interrupt "Yes" "No" ∷ name ∷ []))

unfoldable pub show_scause : M Printed
show_scause = do
  exception_code ← Field.get scause scause_exception_code
  interrupt ← Field.get scause scause_interrupt
  value ← ReadWrite.read scause
  print_cause value exception_code interrupt

unfoldable pub show_stval : M Printed
show_stval = do value ← ReadWrite.read stval; pure (printed "val: 0x%p" (number value ∷ []))

unfoldable pub print_mode : ℕ → ℕ → ℕ → ℕ → M Printed
print_mode value ppn asid mode = do
  name ← name_of (element mode_max_count mode_names mode)
  pure (
      printed "val: 0x%p, ppn: 0x%lX, asid: 0x%X, mode: %s"
        (number value ∷ number ppn ∷ number asid ∷ name ∷ []))

unfoldable pub show_satp : M Printed
show_satp = do
  ppn ← Field.get satp satp_ppn
  asid ← Field.get satp satp_asid
  mode ← Field.get satp satp_mode
  value ← ReadWrite.read satp
  print_mode value ppn asid mode

unfoldable pub show_stimecmp : M Printed
show_stimecmp = do value ← ReadWrite.read stimecmp; pure (printed "val: 0x%p" (number value ∷ []))
