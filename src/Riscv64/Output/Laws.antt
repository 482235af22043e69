-- ===== src/Riscv64/Output/Laws.antt =====
-- What the operators of operator.cpp print for riscv64.
use cpu_io.Base.{
  ℕ, ◌+◌, Bool, true, false, ◌/◌, ◌%◌, ◌^◌, ◌≤◌, ◌<◌, ◌≡◌, ◌∙◌, refl, arith, none, some, [], ◌∷◌,
  ◌!=◌, if◌then◌else◌,
}
use cpu_io.Output.{Printed, number, string, printed, String, element}
use cpu_io.RegisterInfo.Laws.{get_value-eq}
use cpu_io.RegisterInfo.{cast, get_value}
use cpu_io.Riscv64.Hart.{scause, Hart, ◌>>=◌}
use cpu_io.Riscv64.Info.{scause_exception_code, scause_interrupt}
use cpu_io.Riscv64.Names.{
  interrupt_max_count, exception_max_count, Cause, supervisor_software_interrupt,
  supervisor_timer_interrupt, supervisor_external_interrupt, counter_overflow_interrupt,
  instruction_address_misaligned, instruction_access_fault, illegal_instruction, breakpoint,
  load_address_misaligned, load_access_fault, store_amo_address_misaligned, store_amo_access_fault,
  ecall_user_mode, ecall_super_mode, reserved4, ecall_machine_mode, instruction_page_fault,
  load_page_fault, reserved5, store_amo_page_fault, software_check, hardware_error, cause_value,
}
use cpu_io.Riscv64.Field.Update.{get-eq}
use cpu_io.Riscv64.Field.Laws.{read-eq}
use cpu_io.Riscv64.Output.{show_scause, print_cause}

-- The causes as the privileged architecture numbers them: whether it is an interrupt, and the code;
-- and the name that is meant for it. The environment call from machine mode has none.
unfoldable pub documented : Cause → Bool × ℕ × String
documented supervisor_software_interrupt = (true, 1, "Supervisor Software Interrupt")
documented supervisor_timer_interrupt = (true, 5, "Supervisor Timer Interrupt")
documented supervisor_external_interrupt = (true, 9, "Supervisor External Interrupt")
documented counter_overflow_interrupt = (true, 13, "Counter-overflow Interrupt")
documented instruction_address_misaligned = (false, 0, "Instruction Address Misaligned")
documented instruction_access_fault = (false, 1, "Instruction Access Fault")
documented illegal_instruction = (false, 2, "Illegal Instruction")
documented breakpoint = (false, 3, "Breakpoint")
documented load_address_misaligned = (false, 4, "Load Address Misaligned")
documented load_access_fault = (false, 5, "Load Access Fault")
documented store_amo_address_misaligned = (false, 6, "Store/AMO Address Misaligned")
documented store_amo_access_fault = (false, 7, "Store/AMO Access Fault")
documented ecall_user_mode = (false, 8, "Environment Call from U-mode")
documented ecall_super_mode = (false, 9, "Environment Call from S-mode")
documented reserved4 = (false, 10, "Reserved")
documented ecall_machine_mode = (false, 11, "Reserved")
documented instruction_page_fault = (false, 12, "Instruction Page Fault")
documented load_page_fault = (false, 13, "Load Page Fault")
documented reserved5 = (false, 14, "Reserved")
documented store_amo_page_fault = (false, 15, "Store/AMO Page Fault")
documented software_check = (false, 18, "SoftwareCheck")
documented hardware_error = (false, 19, "HardwareError")

-- The word that the hart has in scause for a cause.
unfoldable pub word : Bool × ℕ × String → ℕ
word (interrupt, code, name) = (if interrupt then 2 ^ 63 else 0) + code

-- What is printed for a cause.
unfoldable pub cause_line : Bool × ℕ × String → Printed
cause_line (interrupt, code, name) =
    printed "val: 0x%p, exception_code: 0x%lX, interrupt: %s, name: %s" (
      number (word (interrupt, code, name))
      ∷ number code
      ∷ string (some (if interrupt then "Yes" else "No"))
      ∷ string (some name)
      ∷ [])

exception_code-eq : (v : ℕ) → get_value scause_exception_code v ≡ v % 2 ^ 63
unfolding cast
exception_code-eq v =
    omega (arith, get_value-eq scause_exception_code (record { fits = omega arith; ones = refl }) v)

interrupt-eq : (v : ℕ) → v < 2 ^ 64 → get_value scause_interrupt v ≡ v / 2 ^ 63
unfolding cast
interrupt-eq v lt =
    ground (arith, get_value-eq scause_interrupt (record { fits = omega arith; ones = refl }) v)

show_scause-eq :
    (h : Hart)
    → h.reg scause < 2 ^ 64
    → show_scause h ≡ print_cause (h.reg scause) (h.reg scause % 2 ^ 63) (h.reg scause / 2 ^ 63) h
unfolding show_scause
show_scause-eq h lt =
    rw
      (
        get-eq scause scause_exception_code h,
        ◌>>=◌,
        get-eq scause scause_interrupt h,
        ◌>>=◌,
        read-eq scause h,
        ◌>>=◌,
      )
      (rw (exception_code-eq (h.reg scause), interrupt-eq (h.reg scause) lt) refl)

print_cause-documented :
    (k : Cause) (h : Hart)
    → print_cause
        (word (documented k))
        (word (documented k) % 2 ^ 63)
        (word (documented k) / 2 ^ 63)
        h
      ≡ some (cause_line (documented k), h)
unfolding documented word cause_line print_cause element
print_cause-documented reserved4 h = refl
print_cause-documented _ h = refl

word-lt : (k : Cause) → word (documented k) < 2 ^ 64
unfolding documented word
word-lt reserved4 = omega arith
word-lt _ = omega arith

cause_value-documented : (k : Cause) → cause_value k ≡ word (documented k)
unfolding documented word cause_value
cause_value-documented reserved4 = refl
cause_value-documented _ = refl

-- Outside the tables, the pointer that is printed is read out of bounds.
print_cause-outside :
    (value code interrupt : ℕ) (h : Hart)
    → (if interrupt != 0 then interrupt_max_count else exception_max_count) ≤ code
    → print_cause value code interrupt h ≡ none
unfolding print_cause element
print_cause-outside value code interrupt h out = ground arith

-- The enumerators of scause are the words of the privileged architecture; and in a hart with such a
-- word in scause, the operator prints the word, the architecture's code, whether it is an interrupt,
-- and the name that belongs to the cause, which is "Reserved" for the environment call from machine
-- mode.
pub printed_cause :
    (k : Cause) (h : Hart)
    → h.reg scause ≡ word (documented k)
    → (cause_value k ≡ word (documented k)) × (show_scause h ≡ some (cause_line (documented k), h))
printed_cause k h e = (
  cause_value-documented k,
  show_scause-eq h (rw e (word-lt k)) ∙ rw e (print_cause-documented k h),
)

-- In a hart whose scause is a 64-bit word with a code of 16 or more for an interrupt, or of 20 or
-- more for an exception, the operator reads a name out of the bounds of its table.
pub printed_outside :
    (h : Hart)
    → h.reg scause < 2 ^ 64
    → (if h.reg scause / 2 ^ 63 != 0 then 16 else 20) ≤ h.reg scause % 2 ^ 63
    → show_scause h ≡ none
printed_outside h lt out =
    show_scause-eq h lt
    ∙ print_cause-outside (h.reg scause) (h.reg scause % 2 ^ 63) (h.reg scause / 2 ^ 63) h out
