-- ===== src/X86_64/Names.antt =====
-- The interrupt numbers and names of IdtrInfo in include/x86_64/regs/register_info.hpp.
use cpu_io.Base.{ℕ, List, [], ◌∷◌}
use cpu_io.Output.{String}

pub data Interrupt : Type 0 where
  divide_error debug_exception nmi_interrupt breakpoint : Interrupt
  overflow bound_range_exceeded invalid_opcode device_not_available : Interrupt
  double_fault coprocessor_segment_overrun invalid_tss segment_not_present : Interrupt
  stack_segment_fault general_protection page_fault x87_fpu_floating_point_error : Interrupt
  alignment_check machine_check simd_floating_point_exception virtualization_exception : Interrupt
  control_protection_exception irq0 irq1 irq2 : Interrupt
  irq3 irq4 irq5 irq6 : Interrupt
  irq7 irq8 irq9 irq10 : Interrupt
  irq11 irq12 irq13 irq14 : Interrupt
  irq15 irq128 : Interrupt

unfoldable pub interrupt_number : Interrupt → ℕ
interrupt_number divide_error = 0
interrupt_number debug_exception = 1
interrupt_number nmi_interrupt = 2
interrupt_number breakpoint = 3
interrupt_number overflow = 4
interrupt_number bound_range_exceeded = 5
interrupt_number invalid_opcode = 6
interrupt_number device_not_available = 7
interrupt_number double_fault = 8
interrupt_number coprocessor_segment_overrun = 9
interrupt_number invalid_tss = 10
interrupt_number segment_not_present = 11
interrupt_number stack_segment_fault = 12
interrupt_number general_protection = 13
interrupt_number page_fault = 14
interrupt_number x87_fpu_floating_point_error = 16
interrupt_number alignment_check = 17
interrupt_number machine_check = 18
interrupt_number simd_floating_point_exception = 19
interrupt_number virtualization_exception = 20
interrupt_number control_protection_exception = 21
interrupt_number irq0 = 32
interrupt_number irq1 = 33
interrupt_number irq2 = 34
interrupt_number irq3 = 35
interrupt_number irq4 = 36
interrupt_number irq5 = 37
interrupt_number irq6 = 38
interrupt_number irq7 = 39
interrupt_number irq8 = 40
interrupt_number irq9 = 41
interrupt_number irq10 = 42
interrupt_number irq11 = 43
interrupt_number irq12 = 44
interrupt_number irq13 = 45
interrupt_number irq14 = 46
interrupt_number irq15 = 47
interrupt_number irq128 = 128

abbrev pub idt_max_count : ℕ
idt_max_count = 256

-- The first 48 of 256 elements have an initialiser.
abbrev pub idt_names : List String
idt_names =
    "Divide Error" ∷ "Debug Exception" ∷ "NMI Interrupt" ∷ "Breakpoint" ∷ "Overflow"
    ∷ "BOUND Range Exceeded" ∷ "Invalid Opcode (Undefined Opcode)"
    ∷ "Device Not Available (No Math Coprocessor)" ∷ "Double Fault"
    ∷ "Coprocessor Segment Overrun (reserved)" ∷ "Invalid TSS" ∷ "Segment Not Present"
    ∷ "Stack-Segment Fault" ∷ "General Protection" ∷ "Page Fault" ∷ "(Intel reserved. Do not use.)"
    ∷ "x87 FPU Floating-Point Error (Math Fault)" ∷ "Alignment Check" ∷ "Machine Check"
    ∷ "SIMD Floating-Point Exception" ∷ "Virtualization Exception" ∷ "Control Protection Exception"
    ∷ "Reserved" ∷ "Reserved" ∷ "Reserved" ∷ "Reserved" ∷ "Reserved" ∷ "Reserved" ∷ "Reserved"
    ∷ "Reserved" ∷ "Reserved" ∷ "Reserved" ∷ "Irq0" ∷ "Irq1" ∷ "Irq2" ∷ "Irq3" ∷ "Irq4" ∷ "Irq5"
    ∷ "Irq6" ∷ "Irq7" ∷ "Irq8" ∷ "Irq9" ∷ "Irq10" ∷ "Irq11" ∷ "Irq12" ∷ "Irq13" ∷ "Irq14" ∷ "Irq15"
    ∷ []
