-- ===== src/X86_64/Cpuid/Features/Laws.antt =====
-- The tests of features of include/x86_64/cpuid.hpp.
use cpu_io.Base.{
  ℕ, ◌/◌, ◌%◌, ◌^◌, ◌<◌, ◌≡◌, refl, arith, Option, none, some, List, [], ◌∷◌, ◌==◌, ◌!=◌,
  if◌then◌else◌, bit_and-ones, two-pow-pos,
}
use cpu_io.X86_64.Cpuid.{CpuidResult, has_feature, has_feature_edx, has_feature_ecx}
use cpu_io.X86_64.Cpuid.Features.{
  Leaf, basic_info, version_info, cache_info, serial_number, cache_params, monitor_mwait,
  thermal_power, extended_features, reserved1, direct_cache_access, arch_perf_mon,
  extended_topology, extended_info, extended_version_info, brand_string1, brand_string2,
  brand_string3, address_size, leaf_number, EdxFeature, fpu, vme, de, pse, tsc, msr, pae, mce, cx8,
  apic, sep, mtrr, pge, mca, cmov, pat, pse36, psn, clfsh, ds, acpi, mmx, fxsr, sse, sse2, ss, htt,
  tm, pbe, edx_mask, EcxFeature, sse3, pclmulqdq, dtes64, monitor, ds_cpl, vmx, smx, eist, tm2,
  ssse3, cnxt_id, sdbg, fma, cx16, xtpr, pdcm, pcid, dca, sse41, sse42, x2_apic, movbe, popcnt,
  tsc_deadline, aes, xsave, osxsave, avx, f16_c, rdrand, hypervisor, ecx_mask,
}

abbrev edx_features : List EdxFeature
edx_features =
    fpu ∷ vme ∷ de ∷ pse ∷ tsc ∷ msr ∷ pae ∷ mce ∷ cx8 ∷ apic ∷ sep ∷ mtrr ∷ pge ∷ mca ∷ cmov ∷ pat
    ∷ pse36 ∷ psn ∷ clfsh ∷ ds ∷ acpi ∷ mmx ∷ fxsr ∷ sse ∷ sse2 ∷ ss ∷ htt ∷ tm ∷ pbe ∷ []

abbrev ecx_features : List EcxFeature
ecx_features =
    sse3 ∷ pclmulqdq ∷ dtes64 ∷ monitor ∷ ds_cpl ∷ vmx ∷ smx ∷ eist ∷ tm2 ∷ ssse3 ∷ cnxt_id ∷ sdbg
    ∷ fma ∷ cx16 ∷ xtpr ∷ pdcm ∷ pcid ∷ dca ∷ sse41 ∷ sse42 ∷ x2_apic ∷ movbe ∷ popcnt
    ∷ tsc_deadline ∷ aes ∷ xsave ∷ osxsave ∷ avx ∷ f16_c ∷ rdrand ∷ hypervisor ∷ []

abbrev leaves : List Leaf
leaves =
    basic_info ∷ version_info ∷ cache_info ∷ serial_number ∷ cache_params ∷ monitor_mwait
    ∷ thermal_power ∷ extended_features ∷ reserved1 ∷ direct_cache_access ∷ arch_perf_mon
    ∷ extended_topology ∷ extended_info ∷ extended_version_info ∷ brand_string1 ∷ brand_string2
    ∷ brand_string3 ∷ address_size ∷ []

-- The first of a list with a number.
abbrev numbered : {A : Type 0} → (A → ℕ) → ℕ → List A → Option A
numbered number n [] = none
numbered number n (a ∷ l) = if number a == n then some a else numbered number n l

-- What a single bit stands for.
unfoldable pub edx_feature : ℕ → Option EdxFeature
edx_feature bit = numbered edx_mask (2 ^ bit) edx_features

unfoldable pub ecx_feature : ℕ → Option EcxFeature
ecx_feature bit = numbered ecx_mask (2 ^ bit) ecx_features

unfoldable pub leaf_of : ℕ → Option Leaf
leaf_of n = numbered leaf_number n leaves

bit_read : (x k : ℕ) → has_feature x (2 ^ k) ≡ (x / 2 ^ k % 2 != 0)
unfolding has_feature
bit_read x k = ground (arith, bit_and-ones 1 k x, two-pow-pos k)

-- The mask of a feature is one of the 32 bits, and it is the only feature with it.
edx_bit :
    (f : EdxFeature) → (bit : ℕ) × (edx_mask f ≡ 2 ^ bit) × (bit < 32) × (edx_feature bit ≡ some f)
unfolding edx_mask edx_feature
edx_bit fpu = (0, refl, omega arith, refl)
edx_bit vme = (1, refl, omega arith, refl)
edx_bit de = (2, refl, omega arith, refl)
edx_bit pse = (3, refl, omega arith, refl)
edx_bit tsc = (4, refl, omega arith, refl)
edx_bit msr = (5, refl, omega arith, refl)
edx_bit pae = (6, refl, omega arith, refl)
edx_bit mce = (7, refl, omega arith, refl)
edx_bit cx8 = (8, refl, omega arith, refl)
edx_bit apic = (9, refl, omega arith, refl)
edx_bit sep = (11, refl, omega arith, refl)
edx_bit mtrr = (12, refl, omega arith, refl)
edx_bit pge = (13, refl, omega arith, refl)
edx_bit mca = (14, refl, omega arith, refl)
edx_bit cmov = (15, refl, omega arith, refl)
edx_bit pat = (16, refl, omega arith, refl)
edx_bit pse36 = (17, refl, omega arith, refl)
edx_bit psn = (18, refl, omega arith, refl)
edx_bit clfsh = (19, refl, omega arith, refl)
edx_bit ds = (21, refl, omega arith, refl)
edx_bit acpi = (22, refl, omega arith, refl)
edx_bit mmx = (23, refl, omega arith, refl)
edx_bit fxsr = (24, refl, omega arith, refl)
edx_bit sse = (25, refl, omega arith, refl)
edx_bit sse2 = (26, refl, omega arith, refl)
edx_bit ss = (27, refl, omega arith, refl)
edx_bit htt = (28, refl, omega arith, refl)
edx_bit tm = (29, refl, omega arith, refl)
edx_bit pbe = (31, refl, omega arith, refl)

-- The mask of a feature is one of the 32 bits, and it is the only feature with it.
ecx_bit :
    (f : EcxFeature) → (bit : ℕ) × (ecx_mask f ≡ 2 ^ bit) × (bit < 32) × (ecx_feature bit ≡ some f)
unfolding ecx_mask ecx_feature
ecx_bit sse3 = (0, refl, omega arith, refl)
ecx_bit pclmulqdq = (1, refl, omega arith, refl)
ecx_bit dtes64 = (2, refl, omega arith, refl)
ecx_bit monitor = (3, refl, omega arith, refl)
ecx_bit ds_cpl = (4, refl, omega arith, refl)
ecx_bit vmx = (5, refl, omega arith, refl)
ecx_bit smx = (6, refl, omega arith, refl)
ecx_bit eist = (7, refl, omega arith, refl)
ecx_bit tm2 = (8, refl, omega arith, refl)
ecx_bit ssse3 = (9, refl, omega arith, refl)
ecx_bit cnxt_id = (10, refl, omega arith, refl)
ecx_bit sdbg = (11, refl, omega arith, refl)
ecx_bit fma = (12, refl, omega arith, refl)
ecx_bit cx16 = (13, refl, omega arith, refl)
ecx_bit xtpr = (14, refl, omega arith, refl)
ecx_bit pdcm = (15, refl, omega arith, refl)
ecx_bit pcid = (17, refl, omega arith, refl)
ecx_bit dca = (18, refl, omega arith, refl)
ecx_bit sse41 = (19, refl, omega arith, refl)
ecx_bit sse42 = (20, refl, omega arith, refl)
ecx_bit x2_apic = (21, refl, omega arith, refl)
ecx_bit movbe = (22, refl, omega arith, refl)
ecx_bit popcnt = (23, refl, omega arith, refl)
ecx_bit tsc_deadline = (24, refl, omega arith, refl)
ecx_bit aes = (25, refl, omega arith, refl)
ecx_bit xsave = (26, refl, omega arith, refl)
ecx_bit osxsave = (27, refl, omega arith, refl)
ecx_bit avx = (28, refl, omega arith, refl)
ecx_bit f16_c = (29, refl, omega arith, refl)
ecx_bit rdrand = (30, refl, omega arith, refl)
ecx_bit hypervisor = (31, refl, omega arith, refl)

-- Each enumerated feature is read off one bit of its register in leaf 1, and no two features of a
-- register are read off the same bit.
pub features_read :
    (execute_cpuid : ℕ → ℕ → CpuidResult) (f : EdxFeature) (g : EcxFeature)
    → (i : ℕ) × (j : ℕ) × (has_feature_edx execute_cpuid (edx_mask f)
        ≡ ((execute_cpuid 1 0).edx / 2 ^ i % 2 != 0))
      × (has_feature_ecx execute_cpuid (ecx_mask g) ≡ ((execute_cpuid 1 0).ecx / 2 ^ j % 2 != 0))
      × (i < 32)
      × (j < 32)
      × (edx_feature i ≡ some f)
      × (ecx_feature j ≡ some g)
unfolding has_feature_edx has_feature_ecx
features_read execute_cpuid f g =
    let e = edx_bit f in
    let c = ecx_bit g in
    (
      e.0,
      c.0,
      rw e.1 (bit_read (execute_cpuid 1 0).edx e.0),
      rw c.1 (bit_read (execute_cpuid 1 0).ecx c.0),
      e.2,
      c.2,
      e.3,
      c.3,
    )

-- No two leaves have the same number.
leaf_unique : (l : Leaf) → leaf_of (leaf_number l) ≡ some l
unfolding leaf_of leaf_number
leaf_unique basic_info = refl
leaf_unique _ = refl
