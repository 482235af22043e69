-- ===== src/Riscv64/Output/Calls.antt =====
-- What the operators of operator.cpp print after sequences of calls of include/riscv64.
use cpu_io.Base.{
  ℕ, ◌*◌, ◌/◌, ◌%◌, ◌^◌, ◌<◌, ◌≡◌, ◌∙◌, refl, arith, Bool, true, false, bit_and-ones, some, List,
  [], ◌∷◌, ◌!=◌, ◌==◌, if◌then◌else◌,
}
use cpu_io.Output.{Printed, number, string, printed, element, choice, enabled}
use cpu_io.RegisterInfo.{Field, bool, cast, get_value}
use cpu_io.RegisterInfo.Laws.{IsRun, get_value-eq}
use cpu_io.Riscv64.Hart.{satp, sstatus, stvec, Csrs, Hart, ◌>>=◌}
use cpu_io.Riscv64.Info.{
  satp_ppn, satp_asid, satp_mode, sstatus_sie, sstatus_spie, sstatus_spp, stvec_mode, stvec_base,
}
use cpu_io.Riscv64.Field.Update.{get-eq}
use cpu_io.Riscv64.Field.Laws.{read-eq}
use cpu_io.Riscv64.Calls.{Call, Meaning, replay, Fitting, Represents, run, Supports}
use cpu_io.Riscv64.Calls.Refinement.{run_calls-replay}
use cpu_io.Riscv64.Output.{show_satp, print_mode, show_sstatus, show_stvec}

ppn-eq : (v : ℕ) → get_value satp_ppn v ≡ v % 2 ^ 44
unfolding cast
ppn-eq v = omega (arith, get_value-eq satp_ppn (record { fits = omega arith; ones = refl }) v)

asid-eq : (v : ℕ) → get_value satp_asid v ≡ v / 2 ^ 44 % 2 ^ 16
unfolding cast
asid-eq v = omega (arith, get_value-eq satp_asid (record { fits = omega arith; ones = refl }) v)

mode-eq : (v : ℕ) → v < 2 ^ 64 → get_value satp_mode v ≡ v / 2 ^ 60
unfolding cast
mode-eq v lt = omega (arith, get_value-eq satp_mode (record { fits = omega arith; ones = refl }) v)

show_satp-eq :
    (h : Hart)
    → h.reg satp < 2 ^ 64
    → show_satp h
      ≡ print_mode
          (h.reg satp)
          (h.reg satp % 2 ^ 44)
          (h.reg satp / 2 ^ 44 % 2 ^ 16)
          (h.reg satp / 2 ^ 60)
          h
unfolding show_satp
show_satp-eq h lt =
    rw
      (
        get-eq satp satp_ppn h,
        ◌>>=◌,
        get-eq satp satp_asid h,
        ◌>>=◌,
        get-eq satp satp_mode h,
        ◌>>=◌,
        read-eq satp h,
        ◌>>=◌,
      )
      (rw (ppn-eq (h.reg satp), asid-eq (h.reg satp), mode-eq (h.reg satp) lt) refl)

-- The line for satp in a state of paging.
abbrev pub satp_line : ℕ → Meaning → Printed
satp_line v m = printed "val: 0x%p, ppn: 0x%lX, asid: 0x%X, mode: %s" (
    number v
    ∷ number (m.directory / 4096)
    ∷ number (v / 2 ^ 44 % 2 ^ 16)
    ∷ string (some (if m.paging then "SV39" else "Bare"))
    ∷ [])

print_mode-eq :
    (v p asid mode : ℕ) (paging : Bool) (h : Hart)
    → mode ≡ (if paging then 8 else 0)
    → print_mode v p asid mode h
      ≡ some (
        printed "val: 0x%p, ppn: 0x%lX, asid: 0x%X, mode: %s" (
            number v
            ∷ number p
            ∷ number asid
            ∷ string (some (if paging then "SV39" else "Bare"))
            ∷ []),
        h,
      )
unfolding print_mode element
print_mode-eq v p asid mode true h e = rw e refl
print_mode-eq v p asid mode false h e = rw e refl

show_satp-line :
    {pages : ℕ} (h : Hart) (m : Meaning)
    → Represents pages h m
    → show_satp h ≡ some (satp_line (h.reg satp) m, h)
show_satp-line h m r =
    let lt : h.reg satp < 2 ^ 64 = ground (arith, r.mode) in
    let page : h.reg satp % 2 ^ 44 ≡ m.directory / 4096 = omega (arith, r.page) in
    show_satp-eq h lt
    ∙ rw page (
        print_mode-eq (h.reg satp) (m.directory / 4096) (h.reg satp / 2 ^ 44 % 2 ^ 16)
          (h.reg satp / 2 ^ 60) m.paging h r.mode)

flag-eq :
    (f : Field) (v : ℕ)
    → IsRun f
    → f.bit_width ≡ 1
    → f.data_type ≡ bool
    → get_value f v ≡ v / 2 ^ f.bit_offset % 2
unfolding cast
flag-eq f v run width type = get_value-eq f run v ∙ rw (width, type) (ground arith)

-- The line for sstatus.
abbrev pub sstatus_line : ℕ → Meaning → Printed
sstatus_line v m = printed "val: 0x%p, sie: %s, spie: %s, spp: %s" (
    number v
    ∷ string (some (if m.interrupts then "Enable" else "Disable"))
    ∷ enabled (v / 32 % 2)
    ∷ choice (v / 256 % 2) "S Mode" "U Mode"
    ∷ [])

sie-text :
    (v : ℕ) (b : Bool)
    → (v / 2 % 2 == 1) ≡ b
    → enabled (v / 2 % 2) ≡ string (some (if b then "Enable" else "Disable"))
sie-text v b e = let s : (v / 2 % 2 != 0) ≡ b = ground (arith, e) in rw s refl

show_sstatus-line :
    {pages : ℕ} (h : Hart) (m : Meaning)
    → Represents pages h m
    → show_sstatus h ≡ some (sstatus_line (h.reg sstatus) m, h)
unfolding show_sstatus
show_sstatus-line h m r =
    rw
      (
        get-eq sstatus sstatus_sie h,
        ◌>>=◌,
        get-eq sstatus sstatus_spie h,
        ◌>>=◌,
        get-eq sstatus sstatus_spp h,
        ◌>>=◌,
        read-eq sstatus h,
        ◌>>=◌,
      )
      (rw
        (
          flag-eq sstatus_sie (h.reg sstatus) (record { fits = omega arith; ones = refl }) refl
              refl,
          flag-eq sstatus_spie (h.reg sstatus) (record { fits = omega arith; ones = refl }) refl
              refl,
          flag-eq sstatus_spp (h.reg sstatus) (record { fits = omega arith; ones = refl }) refl
              refl,
          sie-text (h.reg sstatus) m.interrupts r.taken,
        )
        refl)

-- The line for stvec.
abbrev pub stvec_line : Meaning → Printed
stvec_line m = printed "val: 0x%p, mode: %s, base: 0x%lX" (
    number m.vector
    ∷ string (some (if m.vector % 4 == 0 then "Direct" else "Vectored"))
    ∷ number (m.vector / 4 * 4)
    ∷ [])

vector_mode-eq : (v : ℕ) → get_value stvec_mode v ≡ v % 4
unfolding cast
vector_mode-eq v =
    omega (arith, get_value-eq stvec_mode (record { fits = omega arith; ones = refl }) v)

vector_base-eq : (v : ℕ) → v < 2 ^ 64 → get_value stvec_base v ≡ v / 4 * 4
unfolding get_value cast
vector_base-eq v lt = omega (arith, bit_and-ones 62 2 v)

show_stvec-line :
    {pages : ℕ} (h : Hart) (m : Meaning)
    → Represents pages h m
    → show_stvec h ≡ some (stvec_line m, h)
unfolding show_stvec
show_stvec-line h m r =
    rw (get-eq stvec stvec_mode h, ◌>>=◌, get-eq stvec stvec_base h, ◌>>=◌, read-eq stvec h, ◌>>=◌)
      (rw (vector_mode-eq (h.reg stvec), vector_base-eq (h.reg stvec) r.trap_word, r.trap) refl)

module _ ⦃c : Csrs⦄ (hart : Supports) where
  -- On a hart with Sv39 and page tables in the pages below a number, a writable SIE bit and the
  -- vector modes Direct and Vectored, whose state means m, every sequence of calls that fit runs to
  -- its end, in a hart of which the operators print what the calls make of m: for satp "SV39" if
  -- paging is on and "Bare" if not, with the page of the directory; for sstatus "Enable" as sie if
  -- interrupts are taken and "Disable" if not; and for stvec the mode and the address of the last
  -- vector accepted. The calls fit where every directory is in a page of the hart and is zero while
  -- paging is off, `DisablePage` too comes when it is zero, and vectors are 64-bit.
  pub printed_calls :
      (calls : List Call) (h : Hart) (m : Meaning)
      → Represents hart.pages h m
      → Fitting hart.pages calls m
      → (h' : Hart) × (run calls h ≡ some (tt, h'))
        × (show_satp h' ≡ some (satp_line (h'.reg satp) (replay calls m), h'))
        × (show_sstatus h' ≡ some (sstatus_line (h'.reg sstatus) (replay calls m), h'))
        × (show_stvec h' ≡ some (stvec_line (replay calls m), h'))
  printed_calls calls h m r ok =
      let done = run_calls-replay hart calls h m r ok in
      (
        done.0,
        done.1,
        show_satp-line done.0 (replay calls m) done.2,
        show_sstatus-line done.0 (replay calls m) done.2,
        show_stvec-line done.0 (replay calls m) done.2,
      )
