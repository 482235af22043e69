-- ===== src/Riscv64/Output/Tests.antt =====
-- Inputs that meet the hypotheses of the theorems about the operators of operator.cpp for riscv64.
use cpu_io.Base.{false, ℕ, ◌+◌, ◌^◌, ◌≡◌, arith, refl, some, none, [], ◌∷◌}
use cpu_io.Output.{number, string, printed, element}
use cpu_io.Riscv64.Hart.{satp, sstatus, Hart}
use cpu_io.Riscv64.Names.{store_amo_page_fault, cause_value}
use cpu_io.Riscv64.Calls.{replay, run}
use cpu_io.Riscv64.Output.{show_scause, show_satp, show_sstatus, show_stvec, print_cause}
use cpu_io.Riscv64.Field
use cpu_io.Riscv64.ReadWrite
use cpu_io.RegisterInfo.{get_value, cast}
use cpu_io.Riscv64.Output.Laws.{documented, word, cause_line, printed_cause, printed_outside}
use cpu_io.Riscv64.Output.Calls.{satp_line, sstatus_line, stvec_line, printed_calls}
use cpu_io.Riscv64.Tests.{storing, hart, now, boot, hart-Supports, hart-Represents, fitting}

abbrev trapped : ℕ → Hart
trapped value = record { reg = λ r. value; fences = [] }

printed_cause_example :
    (cause_value store_amo_page_fault ≡ 15)
    × (show_scause (trapped 15) ≡ some (cause_line (false, 15, "Store/AMO Page Fault"), trapped 15))
unfolding documented word
printed_cause_example = printed_cause store_amo_page_fault (trapped 15) refl

-- A supervisor timer interrupt.
timer_line :
    show_scause (trapped (2 ^ 63 + 5))
    ≡ some (
      printed "val: 0x%p, exception_code: 0x%lX, interrupt: %s, name: %s" (
          number (2 ^ 63 + 5)
          ∷ number 5
          ∷ string (some "Yes")
          ∷ string (some "Supervisor Timer Interrupt")
          ∷ []),
      trapped (2 ^ 63 + 5),
    )
unfolding show_scause Field.get ReadWrite.read get_value cast print_cause element
timer_line = refl

-- A platform interrupt.
printed_outside_example : show_scause (trapped (2 ^ 63 + 16)) ≡ none
printed_outside_example = printed_outside (trapped (2 ^ 63 + 16)) (omega arith) (omega arith)

printed_calls_example :
    (h' : Hart) × (run boot hart ≡ some (tt, h'))
    × (show_satp h' ≡ some (satp_line (h'.reg satp) (replay boot now), h'))
    × (show_sstatus h' ≡ some (sstatus_line (h'.reg sstatus) (replay boot now), h'))
    × (show_stvec h' ≡ some (stvec_line (replay boot now), h'))
printed_calls_example = printed_calls hart-Supports boot hart now hart-Represents fitting
