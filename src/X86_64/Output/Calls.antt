-- ===== src/X86_64/Output/Calls.antt =====
-- What the operators of operator.cpp print after sequences of calls of include/x86_64.
use cpu_io.Base.{
  ℕ, ◌*◌, ◌/◌, ◌%◌, ◌^◌, ◌<◌, ◌≡◌, refl, arith, Bool, some, List, [], ◌∷◌, ◌!=◌, if◌then◌else◌,
}
use cpu_io.Output.{Printed, number, string, printed, enabled}
use cpu_io.RegisterInfo.{cast, get_value}
use cpu_io.RegisterInfo.Laws.{get_value-eq}
use cpu_io.X86_64.Machine.{cr3, rflags, Stores, Cpu, ◌>>=◌}
use cpu_io.X86_64.Info.{rflags_if, cr3_pwt, cr3_pcd, cr3_page_directory_base}
use cpu_io.X86_64.Field.Update.{get-eq}
use cpu_io.X86_64.ReadWrite.Laws.{read-eq}
use cpu_io.X86_64.Calls.{Call, Meaning, replay, Fitting, Represents, run, Supports}
use cpu_io.X86_64.Calls.Refinement.{run_cpu-replay}
use cpu_io.X86_64.Output.{show_rflags, show_cr3}

abbrev pub rflags_line : ℕ → Meaning → Printed
rflags_line v m =
    printed "val: 0x%p, if: %s"
      (number v ∷ string (some (if m.interrupts then "Enable" else "Disable")) ∷ [])

-- The operator prints the number of the page of the directory.
abbrev pub cr3_line : ℕ → Meaning → Printed
cr3_line v m =
    printed "val: 0x%p, pwt: %s, pcd: %s, page_directory_base: 0x%p"
      (number v ∷ enabled (v / 8 % 2) ∷ enabled (v / 16 % 2) ∷ number (m.directory / 4096) ∷ [])

if-text :
    (v : ℕ) (b : Bool)
    → (v / 512 % 2 != 0) ≡ b
    → enabled (get_value rflags_if v) ≡ string (some (if b then "Enable" else "Disable"))
unfolding cast
if-text v b e =
    let s : (get_value rflags_if v != 0) ≡ b =
      ground (arith, get_value-eq rflags_if (record { fits = omega arith; ones = refl }) v, e) in
    rw s refl

show_rflags-line :
    (c : Cpu) (m : Meaning)
    → Represents c m
    → show_rflags c ≡ some (rflags_line (c.reg rflags) m, c)
unfolding show_rflags
show_rflags-line c m r =
    rw (get-eq rflags rflags_if c refl, ◌>>=◌, read-eq rflags c refl, ◌>>=◌)
      (rw (if-text (c.reg rflags) m.interrupts r.taken) refl)

pwt-eq : (v : ℕ) → get_value cr3_pwt v ≡ v / 8 % 2
unfolding cast
pwt-eq v = ground (arith, get_value-eq cr3_pwt (record { fits = omega arith; ones = refl }) v)

pcd-eq : (v : ℕ) → get_value cr3_pcd v ≡ v / 16 % 2
unfolding cast
pcd-eq v = ground (arith, get_value-eq cr3_pcd (record { fits = omega arith; ones = refl }) v)

base-eq :
    (v d : ℕ) → v < 2 ^ 52 → v / 4096 * 4096 ≡ d → get_value cr3_page_directory_base v ≡ d / 4096
unfolding cast
base-eq v d lt e =
    omega
      (arith, get_value-eq cr3_page_directory_base (record { fits = omega arith; ones = refl }) v)

show_cr3-line :
    (c : Cpu) (m : Meaning) → Represents c m → show_cr3 c ≡ some (cr3_line (c.reg cr3) m, c)
unfolding show_cr3
show_cr3-line c m r =
    rw
      (
        get-eq cr3 cr3_pwt c refl,
        ◌>>=◌,
        get-eq cr3 cr3_pcd c refl,
        ◌>>=◌,
        get-eq cr3 cr3_page_directory_base c refl,
        ◌>>=◌,
        read-eq cr3 c refl,
        ◌>>=◌,
      )
      (rw
        (
          pwt-eq (c.reg cr3),
          pcd-eq (c.reg cr3),
          base-eq (c.reg cr3) m.directory r.directory_word r.page,
        )
        refl)

module _ ⦃w : Stores⦄ (cpu : Supports) where
  -- On a processor that stores the interrupt flag and the directories, whose state means m, every
  -- sequence of paging, directory, TLB, interrupt and barrier calls with directories below 2^52 runs
  -- to its end, in a state of which the operators print what the calls make of m: for RFLAGS "Enable"
  -- if interrupts are taken and "Disable" if not, and for CR3 the page number of the last directory.
  pub printed_cpu_calls :
      (calls : List Call) (c : Cpu) (m : Meaning)
      → Represents c m
      → Fitting calls
      → (d : Cpu) × (run calls c ≡ some (tt, d))
        × (show_rflags d ≡ some (rflags_line (d.reg rflags) (replay calls m), d))
        × (show_cr3 d ≡ some (cr3_line (d.reg cr3) (replay calls m), d))
  printed_cpu_calls calls c m r ok =
      let done = run_cpu-replay cpu calls c m r ok in
      (
        done.0,
        done.1,
        show_rflags-line done.0 (replay calls m) done.2,
        show_cr3-line done.0 (replay calls m) done.2,
      )
