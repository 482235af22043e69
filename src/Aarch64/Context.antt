-- ===== src/Aarch64/Context.antt =====
-- The saved contexts of include/aarch64/context.hpp: which words they hold, in which order.
pub mod Laws
use cpu_io.Base.{ℕ, Bool, if◌then◌else◌, List, [], ◌∷◌, ◌++◌}

-- The members of `TrapContext`.
pub data TrapMember : Type 0 where
  x0 x1 x2 x3 x4 x5 x6 x7 : TrapMember
  x8 x9 x10 x11 x12 x13 x14 x15 : TrapMember
  x16 x17 x18 x19 x20 x21 x22 x23 : TrapMember
  x24 x25 x26 x27 x28 x29 x30 padding0 : TrapMember
  q0 q1 q2 q3 q4 q5 q6 q7 : TrapMember
  q8 q9 q10 q11 q12 q13 q14 q15 : TrapMember
  q16 q17 q18 q19 q20 q21 q22 q23 : TrapMember
  q24 q25 q26 q27 q28 q29 q30 q31 : TrapMember
  fpsr fpcr padding1 elr_el1 spsr_el1 esr_el1 sp_el0 tpidr_el0 : TrapMember
  ttbr0_el1 sp_el1 tpidr_el1 : TrapMember

abbrev pub trap_index : TrapMember → ℕ
trap_index x0 = 0
trap_index x1 = 1
trap_index x2 = 2
trap_index x3 = 3
trap_index x4 = 4
trap_index x5 = 5
trap_index x6 = 6
trap_index x7 = 7
trap_index x8 = 8
trap_index x9 = 9
trap_index x10 = 10
trap_index x11 = 11
trap_index x12 = 12
trap_index x13 = 13
trap_index x14 = 14
trap_index x15 = 15
trap_index x16 = 16
trap_index x17 = 17
trap_index x18 = 18
trap_index x19 = 19
trap_index x20 = 20
trap_index x21 = 21
trap_index x22 = 22
trap_index x23 = 23
trap_index x24 = 24
trap_index x25 = 25
trap_index x26 = 26
trap_index x27 = 27
trap_index x28 = 28
trap_index x29 = 29
trap_index x30 = 30
trap_index padding0 = 31
trap_index q0 = 32
trap_index q1 = 33
trap_index q2 = 34
trap_index q3 = 35
trap_index q4 = 36
trap_index q5 = 37
trap_index q6 = 38
trap_index q7 = 39
trap_index q8 = 40
trap_index q9 = 41
trap_index q10 = 42
trap_index q11 = 43
trap_index q12 = 44
trap_index q13 = 45
trap_index q14 = 46
trap_index q15 = 47
trap_index q16 = 48
trap_index q17 = 49
trap_index q18 = 50
trap_index q19 = 51
trap_index q20 = 52
trap_index q21 = 53
trap_index q22 = 54
trap_index q23 = 55
trap_index q24 = 56
trap_index q25 = 57
trap_index q26 = 58
trap_index q27 = 59
trap_index q28 = 60
trap_index q29 = 61
trap_index q30 = 62
trap_index q31 = 63
trap_index fpsr = 64
trap_index fpcr = 65
trap_index padding1 = 66
trap_index elr_el1 = 67
trap_index spsr_el1 = 68
trap_index esr_el1 = 69
trap_index sp_el0 = 70
trap_index tpidr_el0 = 71
trap_index ttbr0_el1 = 72
trap_index sp_el1 = 73
trap_index tpidr_el1 = 74

abbrev pub trap_first_members : List (TrapMember × ℕ)
trap_first_members =
    (x0, 8)
    ∷ (x1, 8)
    ∷ (x2, 8)
    ∷ (x3, 8)
    ∷ (x4, 8)
    ∷ (x5, 8)
    ∷ (x6, 8)
    ∷ (x7, 8)
    ∷ (x8, 8)
    ∷ (x9, 8)
    ∷ (x10, 8)
    ∷ (x11, 8)
    ∷ (x12, 8)
    ∷ (x13, 8)
    ∷ (x14, 8)
    ∷ (x15, 8)
    ∷ (x16, 8)
    ∷ (x17, 8)
    ∷ (x18, 8)
    ∷ (x19, 8)
    ∷ (x20, 8)
    ∷ (x21, 8)
    ∷ (x22, 8)
    ∷ (x23, 8)
    ∷ (x24, 8)
    ∷ (x25, 8)
    ∷ (x26, 8)
    ∷ (x27, 8)
    ∷ (x28, 8)
    ∷ (x29, 8)
    ∷ (x30, 8)
    ∷ (padding0, 8)
    ∷ []

abbrev pub trap_second_members : List (TrapMember × ℕ)
trap_second_members =
    (q0, 16)
    ∷ (q1, 16)
    ∷ (q2, 16)
    ∷ (q3, 16)
    ∷ (q4, 16)
    ∷ (q5, 16)
    ∷ (q6, 16)
    ∷ (q7, 16)
    ∷ (q8, 16)
    ∷ (q9, 16)
    ∷ (q10, 16)
    ∷ (q11, 16)
    ∷ (q12, 16)
    ∷ (q13, 16)
    ∷ (q14, 16)
    ∷ (q15, 16)
    ∷ (q16, 16)
    ∷ (q17, 16)
    ∷ (q18, 16)
    ∷ (q19, 16)
    ∷ (q20, 16)
    ∷ (q21, 16)
    ∷ (q22, 16)
    ∷ (q23, 16)
    ∷ (q24, 16)
    ∷ (q25, 16)
    ∷ (q26, 16)
    ∷ (q27, 16)
    ∷ (q28, 16)
    ∷ (q29, 16)
    ∷ (q30, 16)
    ∷ (q31, 16)
    ∷ (fpsr, 8)
    ∷ (fpcr, 8)
    ∷ (padding1, 48)
    ∷ []

abbrev pub trap_third_members : List (TrapMember × ℕ)
trap_third_members =
    (elr_el1, 8)
    ∷ (spsr_el1, 8)
    ∷ (esr_el1, 8)
    ∷ (sp_el0, 8)
    ∷ (tpidr_el0, 8)
    ∷ (ttbr0_el1, 8)
    ∷ (sp_el1, 8)
    ∷ (tpidr_el1, 8)
    ∷ []

-- The layout, with `CPU_IO_ENABLE_FPU` or without; the sizes in bytes.
abbrev pub trap_layout : Bool → List (TrapMember × ℕ)
trap_layout fpu =
    trap_first_members ++ (if fpu then trap_second_members else []) ++ trap_third_members

abbrev pub user_stack_pointer : TrapMember
user_stack_pointer = sp_el0

abbrev pub thread_pointer : TrapMember
thread_pointer = tpidr_el0

abbrev pub return_value : TrapMember
return_value = x0

-- The members of `CalleeSavedContext`.
pub data CalleeMember : Type 0 where
  saved_x19 saved_x20 saved_x21 saved_x22 saved_x23 saved_x24 saved_x25 saved_x26 : CalleeMember
  saved_x27 saved_x28 saved_x29 saved_x30 saved_d8 saved_d9 saved_d10 saved_d11 : CalleeMember
  saved_d12 saved_d13 saved_d14 saved_d15 saved_sp saved_pc : CalleeMember

abbrev pub callee_index : CalleeMember → ℕ
callee_index saved_x19 = 0
callee_index saved_x20 = 1
callee_index saved_x21 = 2
callee_index saved_x22 = 3
callee_index saved_x23 = 4
callee_index saved_x24 = 5
callee_index saved_x25 = 6
callee_index saved_x26 = 7
callee_index saved_x27 = 8
callee_index saved_x28 = 9
callee_index saved_x29 = 10
callee_index saved_x30 = 11
callee_index saved_d8 = 12
callee_index saved_d9 = 13
callee_index saved_d10 = 14
callee_index saved_d11 = 15
callee_index saved_d12 = 16
callee_index saved_d13 = 17
callee_index saved_d14 = 18
callee_index saved_d15 = 19
callee_index saved_sp = 20
callee_index saved_pc = 21

abbrev pub callee_first_members : List (CalleeMember × ℕ)
callee_first_members =
    (saved_x19, 8)
    ∷ (saved_x20, 8)
    ∷ (saved_x21, 8)
    ∷ (saved_x22, 8)
    ∷ (saved_x23, 8)
    ∷ (saved_x24, 8)
    ∷ (saved_x25, 8)
    ∷ (saved_x26, 8)
    ∷ (saved_x27, 8)
    ∷ (saved_x28, 8)
    ∷ (saved_x29, 8)
    ∷ (saved_x30, 8)
    ∷ []

abbrev pub callee_second_members : List (CalleeMember × ℕ)
callee_second_members =
    (saved_d8, 8)
    ∷ (saved_d9, 8)
    ∷ (saved_d10, 8)
    ∷ (saved_d11, 8)
    ∷ (saved_d12, 8)
    ∷ (saved_d13, 8)
    ∷ (saved_d14, 8)
    ∷ (saved_d15, 8)
    ∷ []

abbrev pub callee_third_members : List (CalleeMember × ℕ)
callee_third_members = (saved_sp, 8) ∷ (saved_pc, 8) ∷ []

-- The layout, with `CPU_IO_ENABLE_FPU` or without; the sizes in bytes.
abbrev pub callee_layout : Bool → List (CalleeMember × ℕ)
callee_layout fpu =
    callee_first_members ++ (if fpu then callee_second_members else []) ++ callee_third_members

abbrev pub return_address : CalleeMember
return_address = saved_pc

abbrev pub entry_function : CalleeMember
entry_function = saved_x19

abbrev pub entry_argument : CalleeMember
entry_argument = saved_x20

abbrev pub stack_pointer : CalleeMember
stack_pointer = saved_sp
