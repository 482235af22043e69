-- ===== src/X86_64/Cpuid/Features/Tests.antt =====
-- A processor for the theorem about the features of include/x86_64/cpuid.hpp.
use cpu_io.Base.{ℕ, ◌/◌, ◌%◌, ◌^◌, ◌<◌, ◌≡◌, ◌!=◌, some}
use cpu_io.X86_64.Cpuid.{CpuidResult, has_feature_edx, has_feature_ecx}
use cpu_io.X86_64.Cpuid.Features.{tsc, edx_mask, x2_apic, ecx_mask}
use cpu_io.X86_64.Cpuid.Features.Laws.{edx_feature, ecx_feature, features_read}

abbrev answer : ℕ → ℕ → CpuidResult
answer leaf subleaf = record { eax = 0x16; ebx = 0; ecx = 0x0020_0001; edx = 0x0000_0211 }

features_read_example :
    (i : ℕ) × (j : ℕ) × (has_feature_edx answer (edx_mask tsc)
      ≡ ((answer 1 0).edx / 2 ^ i % 2 != 0))
    × (has_feature_ecx answer (ecx_mask x2_apic) ≡ ((answer 1 0).ecx / 2 ^ j % 2 != 0))
    × (i < 32)
    × (j < 32)
    × (edx_feature i ≡ some tsc)
    × (ecx_feature j ≡ some x2_apic)
features_read_example = features_read answer tsc x2_apic
