-- ===== src/Riscv64/Context.antt =====
-- The saved contexts of include/riscv64/context.hpp: which words they hold, in which order.
pub mod Laws
use cpu_io.Base.{ℕ, Bool, if◌then◌else◌, List, [], ◌∷◌, ◌++◌}

-- The members of `TrapContext`.
pub data TrapMember : Type 0 where
  ra sp gp tp t0 t1 t2 s0 : TrapMember
  s1 a0 a1 a2 a3 a4 a5 a6 : TrapMember
  a7 s2 s3 s4 s5 s6 s7 s8 : TrapMember
  s9 s10 s11 t3 t4 t5 t6 f0 : TrapMember
  f1 f2 f3 f4 f5 f6 f7 f8 : TrapMember
  f9 f10 f11 f12 f13 f14 f15 f16 : TrapMember
  f17 f18 f19 f20 f21 f22 f23 f24 : TrapMember
  f25 f26 f27 f28 f29 f30 f31 fcsr : TrapMember
  sstatus sepc stval scause padding : TrapMember

abbrev pub trap_index : TrapMember → ℕ
trap_index ra = 0
trap_index sp = 1
trap_index gp = 2
trap_index tp = 3
trap_index t0 = 4
trap_index t1 = 5
trap_index t2 = 6
trap_index s0 = 7
trap_index s1 = 8
trap_index a0 = 9
trap_index a1 = 10
trap_index a2 = 11
trap_index a3 = 12
trap_index a4 = 13
trap_index a5 = 14
trap_index a6 = 15
trap_index a7 = 16
trap_index s2 = 17
trap_index s3 = 18
trap_index s4 = 19
trap_index s5 = 20
trap_index s6 = 21
trap_index s7 = 22
trap_index s8 = 23
trap_index s9 = 24
trap_index s10 = 25
trap_index s11 = 26
trap_index t3 = 27
trap_index t4 = 28
trap_index t5 = 29
trap_index t6 = 30
trap_index f0 = 31
trap_index f1 = 32
trap_index f2 = 33
trap_index f3 = 34
trap_index f4 = 35
trap_index f5 = 36
trap_index f6 = 37
trap_index f7 = 38
trap_index f8 = 39
trap_index f9 = 40
trap_index f10 = 41
trap_index f11 = 42
trap_index f12 = 43
trap_index f13 = 44
trap_index f14 = 45
trap_index f15 = 46
trap_index f16 = 47
trap_index f17 = 48
trap_index f18 = 49
trap_index f19 = 50
trap_index f20 = 51
trap_index f21 = 52
trap_index f22 = 53
trap_index f23 = 54
trap_index f24 = 55
trap_index f25 = 56
trap_index f26 = 57
trap_index f27 = 58
trap_index f28 = 59
trap_index f29 = 60
trap_index f30 = 61
trap_index f31 = 62
trap_index fcsr = 63
trap_index sstatus = 64
trap_index sepc = 65
trap_index stval = 66
trap_index scause = 67
trap_index padding = 68

abbrev pub trap_first_members : List (TrapMember × ℕ)
trap_first_members =
    (ra, 8)
    ∷ (sp, 8)
    ∷ (gp, 8)
    ∷ (tp, 8)
    ∷ (t0, 8)
    ∷ (t1, 8)
    ∷ (t2, 8)
    ∷ (s0, 8)
    ∷ (s1, 8)
    ∷ (a0, 8)
    ∷ (a1, 8)
    ∷ (a2, 8)
    ∷ (a3, 8)
    ∷ (a4, 8)
    ∷ (a5, 8)
    ∷ (a6, 8)
    ∷ (a7, 8)
    ∷ (s2, 8)
    ∷ (s3, 8)
    ∷ (s4, 8)
    ∷ (s5, 8)
    ∷ (s6, 8)
    ∷ (s7, 8)
    ∷ (s8, 8)
    ∷ (s9, 8)
    ∷ (s10, 8)
    ∷ (s11, 8)
    ∷ (t3, 8)
    ∷ (t4, 8)
    ∷ (t5, 8)
    ∷ (t6, 8)
    ∷ []

abbrev pub trap_second_members : List (TrapMember × ℕ)
trap_second_members =
    (f0, 8)
    ∷ (f1, 8)
    ∷ (f2, 8)
    ∷ (f3, 8)
    ∷ (f4, 8)
    ∷ (f5, 8)
    ∷ (f6, 8)
    ∷ (f7, 8)
    ∷ (f8, 8)
    ∷ (f9, 8)
    ∷ (f10, 8)
    ∷ (f11, 8)
    ∷ (f12, 8)
    ∷ (f13, 8)
    ∷ (f14, 8)
    ∷ (f15, 8)
    ∷ (f16, 8)
    ∷ (f17, 8)
    ∷ (f18, 8)
    ∷ (f19, 8)
    ∷ (f20, 8)
    ∷ (f21, 8)
    ∷ (f22, 8)
    ∷ (f23, 8)
    ∷ (f24, 8)
    ∷ (f25, 8)
    ∷ (f26, 8)
    ∷ (f27, 8)
    ∷ (f28, 8)
    ∷ (f29, 8)
    ∷ (f30, 8)
    ∷ (f31, 8)
    ∷ (fcsr, 8)
    ∷ []

abbrev pub trap_third_members : List (TrapMember × ℕ)
trap_third_members = (sstatus, 8) ∷ (sepc, 8) ∷ (stval, 8) ∷ (scause, 8) ∷ []

abbrev pub trap_fourth_members : List (TrapMember × ℕ)
trap_fourth_members = (padding, 8) ∷ []

-- The layout, with `CPU_IO_ENABLE_FPU` or without; the sizes in bytes.
abbrev pub trap_layout : Bool → List (TrapMember × ℕ)
trap_layout fpu =
    trap_first_members
    ++ (if fpu then trap_second_members else [])
    ++ trap_third_members
    ++ (if fpu then [] else trap_fourth_members)

abbrev pub user_stack_pointer : TrapMember
user_stack_pointer = sp

abbrev pub thread_pointer : TrapMember
thread_pointer = tp

abbrev pub return_value : TrapMember
return_value = a0

-- The members of `CalleeSavedContext`.
pub data CalleeMember : Type 0 where
  saved_ra saved_sp saved_s0 saved_s1 saved_s2 saved_s3 saved_s4 saved_s5 : CalleeMember
  saved_s6 saved_s7 saved_s8 saved_s9 saved_s10 saved_s11 saved_fs0 saved_fs1 : CalleeMember
  saved_fs2 saved_fs3 saved_fs4 saved_fs5 saved_fs6 saved_fs7 saved_fs8 saved_fs9 : CalleeMember
  saved_fs10 saved_fs11 : CalleeMember

abbrev pub callee_index : CalleeMember → ℕ
callee_index saved_ra = 0
callee_index saved_sp = 1
callee_index saved_s0 = 2
callee_index saved_s1 = 3
callee_index saved_s2 = 4
callee_index saved_s3 = 5
callee_index saved_s4 = 6
callee_index saved_s5 = 7
callee_index saved_s6 = 8
callee_index saved_s7 = 9
callee_index saved_s8 = 10
callee_index saved_s9 = 11
callee_index saved_s10 = 12
callee_index saved_s11 = 13
callee_index saved_fs0 = 14
callee_index saved_fs1 = 15
callee_index saved_fs2 = 16
callee_index saved_fs3 = 17
callee_index saved_fs4 = 18
callee_index saved_fs5 = 19
callee_index saved_fs6 = 20
callee_index saved_fs7 = 21
callee_index saved_fs8 = 22
callee_index saved_fs9 = 23
callee_index saved_fs10 = 24
callee_index saved_fs11 = 25

abbrev pub callee_first_members : List (CalleeMember × ℕ)
callee_first_members =
    (saved_ra, 8)
    ∷ (saved_sp, 8)
    ∷ (saved_s0, 8)
    ∷ (saved_s1, 8)
    ∷ (saved_s2, 8)
    ∷ (saved_s3, 8)
    ∷ (saved_s4, 8)
    ∷ (saved_s5, 8)
    ∷ (saved_s6, 8)
    ∷ (saved_s7, 8)
    ∷ (saved_s8, 8)
    ∷ (saved_s9, 8)
    ∷ (saved_s10, 8)
    ∷ (saved_s11, 8)
    ∷ []

abbrev pub callee_second_members : List (CalleeMember × ℕ)
callee_second_members =
    (saved_fs0, 8)
    ∷ (saved_fs1, 8)
    ∷ (saved_fs2, 8)
    ∷ (saved_fs3, 8)
    ∷ (saved_fs4, 8)
    ∷ (saved_fs5, 8)
    ∷ (saved_fs6, 8)
    ∷ (saved_fs7, 8)
    ∷ (saved_fs8, 8)
    ∷ (saved_fs9, 8)
    ∷ (saved_fs10, 8)
    ∷ (saved_fs11, 8)
    ∷ []

-- The layout, with `CPU_IO_ENABLE_FPU` or without; the sizes in bytes.
abbrev pub callee_layout : Bool → List (CalleeMember × ℕ)
callee_layout fpu = callee_first_members ++ (if fpu then callee_second_members else [])

abbrev pub return_address : CalleeMember
return_address = saved_ra

abbrev pub entry_function : CalleeMember
entry_function = saved_s0

abbrev pub entry_argument : CalleeMember
entry_argument = saved_s1

abbrev pub stack_pointer : CalleeMember
stack_pointer = saved_sp
