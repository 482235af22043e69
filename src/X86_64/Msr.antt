-- ===== src/X86_64/Msr.antt =====
-- The numbers of the model-specific registers of include/x86_64/msr.h; those of the x2APIC are in
-- Apic.
use cpu_io.Base.{ℕ, ◌≡◌, refl, Option, none, some, List, [], ◌∷◌, ◌==◌, if◌then◌else◌}

pub data Msr : Type 0 where
  ia32_efer ia32_star ia32_lstar ia32_cstar : Msr
  ia32_syscall_mask ia32_fs_base ia32_gs_base ia32_kernel_gs_base : Msr
  ia32_platform_id ia32_apic_base ia32_feature_control ia32_tsc : Msr
  ia32_misc_enable ia32_perf_global_ctrl ia32_perf_global_status ia32_perf_global_ovf_ctrl : Msr
  ia32_mtrr_cap ia32_mtrr_def_type ia32_mtrr_phys_base0 ia32_mtrr_phys_mask0 : Msr
  ia32_debug_ctl ia32_last_branch_from_ip ia32_last_branch_to_ip : Msr

unfoldable pub msr_number : Msr → ℕ
msr_number ia32_efer = 0xC0000080
msr_number ia32_star = 0xC0000081
msr_number ia32_lstar = 0xC0000082
msr_number ia32_cstar = 0xC0000083
msr_number ia32_syscall_mask = 0xC0000084
msr_number ia32_fs_base = 0xC0000100
msr_number ia32_gs_base = 0xC0000101
msr_number ia32_kernel_gs_base = 0xC0000102
msr_number ia32_platform_id = 0x00000017
msr_number ia32_apic_base = 0x0000001B
msr_number ia32_feature_control = 0x0000003A
msr_number ia32_tsc = 0x00000010
msr_number ia32_misc_enable = 0x000001A0
msr_number ia32_perf_global_ctrl = 0x0000038F
msr_number ia32_perf_global_status = 0x0000038E
msr_number ia32_perf_global_ovf_ctrl = 0x00000390
msr_number ia32_mtrr_cap = 0x000000FE
msr_number ia32_mtrr_def_type = 0x000002FF
msr_number ia32_mtrr_phys_base0 = 0x00000200
msr_number ia32_mtrr_phys_mask0 = 0x00000201
msr_number ia32_debug_ctl = 0x000001D9
msr_number ia32_last_branch_from_ip = 0x000001DB
msr_number ia32_last_branch_to_ip = 0x000001DC

abbrev all_msrs : List Msr
all_msrs =
    ia32_efer ∷ ia32_star ∷ ia32_lstar ∷ ia32_cstar ∷ ia32_syscall_mask ∷ ia32_fs_base
    ∷ ia32_gs_base ∷ ia32_kernel_gs_base ∷ ia32_platform_id ∷ ia32_apic_base ∷ ia32_feature_control
    ∷ ia32_tsc ∷ ia32_misc_enable ∷ ia32_perf_global_ctrl ∷ ia32_perf_global_status
    ∷ ia32_perf_global_ovf_ctrl ∷ ia32_mtrr_cap ∷ ia32_mtrr_def_type ∷ ia32_mtrr_phys_base0
    ∷ ia32_mtrr_phys_mask0 ∷ ia32_debug_ctl ∷ ia32_last_branch_from_ip ∷ ia32_last_branch_to_ip ∷ []

-- The first register of a list with a number.
abbrev numbered : ℕ → List Msr → Option Msr
numbered n [] = none
numbered n (r ∷ l) = if msr_number r == n then some r else numbered n l

-- No two registers have the same number.
msr_of_number : (r : Msr) → numbered (msr_number r) all_msrs ≡ some r
unfolding msr_number
msr_of_number ia32_efer = refl
msr_of_number _ = refl
