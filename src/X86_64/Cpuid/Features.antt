-- ===== src/X86_64/Cpuid/Features.antt =====
-- The leaves and the feature bits of include/x86_64/cpuid.hpp.
pub mod Laws
mod Tests
use cpu_io.Base.{ℕ, ◌*◌, ◌%◌, ◌^◌}

pub data Leaf : Type 0 where
  basic_info version_info cache_info serial_number cache_params : Leaf
  monitor_mwait thermal_power extended_features reserved1 direct_cache_access : Leaf
  arch_perf_mon extended_topology extended_info extended_version_info brand_string1 : Leaf
  brand_string2 brand_string3 address_size : Leaf

unfoldable pub leaf_number : Leaf → ℕ
leaf_number basic_info = 0x00000000
leaf_number version_info = 0x00000001
leaf_number cache_info = 0x00000002
leaf_number serial_number = 0x00000003
leaf_number cache_params = 0x00000004
leaf_number monitor_mwait = 0x00000005
leaf_number thermal_power = 0x00000006
leaf_number extended_features = 0x00000007
leaf_number reserved1 = 0x00000008
leaf_number direct_cache_access = 0x00000009
leaf_number arch_perf_mon = 0x0000000A
leaf_number extended_topology = 0x0000000B
leaf_number extended_info = 0x80000000
leaf_number extended_version_info = 0x80000001
leaf_number brand_string1 = 0x80000002
leaf_number brand_string2 = 0x80000003
leaf_number brand_string3 = 0x80000004
leaf_number address_size = 0x80000008

-- `x << k` on a uint32_t.
abbrev shl32 : ℕ → ℕ → ℕ
shl32 x k = x * 2 ^ k % 2 ^ 32

-- The feature bits of leaf 1 in edx.
pub data EdxFeature : Type 0 where
  fpu vme de pse tsc msr pae mce : EdxFeature
  cx8 apic sep mtrr pge mca cmov pat : EdxFeature
  pse36 psn clfsh ds acpi mmx fxsr sse : EdxFeature
  sse2 ss htt tm pbe : EdxFeature

unfoldable pub edx_mask : EdxFeature → ℕ
edx_mask fpu = shl32 1 0
edx_mask vme = shl32 1 1
edx_mask de = shl32 1 2
edx_mask pse = shl32 1 3
edx_mask tsc = shl32 1 4
edx_mask msr = shl32 1 5
edx_mask pae = shl32 1 6
edx_mask mce = shl32 1 7
edx_mask cx8 = shl32 1 8
edx_mask apic = shl32 1 9
edx_mask sep = shl32 1 11
edx_mask mtrr = shl32 1 12
edx_mask pge = shl32 1 13
edx_mask mca = shl32 1 14
edx_mask cmov = shl32 1 15
edx_mask pat = shl32 1 16
edx_mask pse36 = shl32 1 17
edx_mask psn = shl32 1 18
edx_mask clfsh = shl32 1 19
edx_mask ds = shl32 1 21
edx_mask acpi = shl32 1 22
edx_mask mmx = shl32 1 23
edx_mask fxsr = shl32 1 24
edx_mask sse = shl32 1 25
edx_mask sse2 = shl32 1 26
edx_mask ss = shl32 1 27
edx_mask htt = shl32 1 28
edx_mask tm = shl32 1 29
edx_mask pbe = shl32 1 31

-- The feature bits of leaf 1 in ecx.
pub data EcxFeature : Type 0 where
  sse3 pclmulqdq dtes64 monitor ds_cpl vmx smx eist : EcxFeature
  tm2 ssse3 cnxt_id sdbg fma cx16 xtpr pdcm : EcxFeature
  pcid dca sse41 sse42 x2_apic movbe popcnt tsc_deadline : EcxFeature
  aes xsave osxsave avx f16_c rdrand hypervisor : EcxFeature

unfoldable pub ecx_mask : EcxFeature → ℕ
ecx_mask sse3 = shl32 1 0
ecx_mask pclmulqdq = shl32 1 1
ecx_mask dtes64 = shl32 1 2
ecx_mask monitor = shl32 1 3
ecx_mask ds_cpl = shl32 1 4
ecx_mask vmx = shl32 1 5
ecx_mask smx = shl32 1 6
ecx_mask eist = shl32 1 7
ecx_mask tm2 = shl32 1 8
ecx_mask ssse3 = shl32 1 9
ecx_mask cnxt_id = shl32 1 10
ecx_mask sdbg = shl32 1 11
ecx_mask fma = shl32 1 12
ecx_mask cx16 = shl32 1 13
ecx_mask xtpr = shl32 1 14
ecx_mask pdcm = shl32 1 15
ecx_mask pcid = shl32 1 17
ecx_mask dca = shl32 1 18
ecx_mask sse41 = shl32 1 19
ecx_mask sse42 = shl32 1 20
ecx_mask x2_apic = shl32 1 21
ecx_mask movbe = shl32 1 22
ecx_mask popcnt = shl32 1 23
ecx_mask tsc_deadline = shl32 1 24
ecx_mask aes = shl32 1 25
ecx_mask xsave = shl32 1 26
ecx_mask osxsave = shl32 1 27
ecx_mask avx = shl32 1 28
ecx_mask f16_c = shl32 1 29
ecx_mask rdrand = shl32 1 30
ecx_mask hypervisor = shl32 1 31
