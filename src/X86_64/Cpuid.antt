-- ===== src/X86_64/Cpuid.antt =====
-- include/x86_64/cpuid.hpp, with the core id of include/x86_64/cpu.hpp. The instruction is a
-- parameter.
pub mod Laws
pub mod Features
use cpu_io.Base.{
  ℕ, ◌+◌, ◌*◌, ◌/◌, ◌%◌, ◌^◌, Bool, ltb, leb, not, ◌!=◌, if◌then◌else◌, bit_and, shl64, List, [],
  ◌∷◌, ◌++◌, zero, suc,
}

abbrev pub k_basic_info : ℕ
k_basic_info = 0x00000000

abbrev pub k_version_info : ℕ
k_version_info = 0x00000001

abbrev pub k_extended_topology : ℕ
k_extended_topology = 0x0000000B

abbrev pub k_extended_info : ℕ
k_extended_info = 0x80000000

abbrev pub k_brand_string1 : ℕ
k_brand_string1 = 0x80000002

abbrev pub k_brand_string2 : ℕ
k_brand_string2 = 0x80000003

abbrev pub k_brand_string3 : ℕ
k_brand_string3 = 0x80000004

abbrev pub k_tsc : ℕ
k_tsc = shl64 1 4

abbrev pub k_msr : ℕ
k_msr = shl64 1 5

abbrev pub k_apic : ℕ
k_apic = shl64 1 9

abbrev pub k_x2_apic : ℕ
k_x2_apic = shl64 1 21

pub record CpuidResult : Type 0 where
  pub eax : ℕ
  pub ebx : ℕ
  pub ecx : ℕ
  pub edx : ℕ

-- The four bytes of a uint32_t in memory.
unfoldable pub bytes : ℕ → List ℕ
bytes x = x % 2 ^ 8 ∷ x / 2 ^ 8 % 2 ^ 8 ∷ x / 2 ^ 16 % 2 ^ 8 ∷ x / 2 ^ 24 % 2 ^ 8 ∷ []

-- The sixteen bytes of a result in memory.
unfoldable pub result_bytes : CpuidResult → List ℕ
unfolding bytes
result_bytes r = bytes r.eax ++ bytes r.ebx ++ bytes r.ecx ++ bytes r.edx

-- `std::array<char, n>` of zeros.
unfoldable pub zeros : ℕ → List ℕ
zeros zero = []
zeros (suc n) = let rest = zeros n in 0 ∷ rest

unfoldable pub has_feature : ℕ → ℕ → Bool
has_feature value feature_bit = bit_and value feature_bit != 0

module _ (execute_cpuid : ℕ → ℕ → CpuidResult) where
  unfoldable pub get_max_basic_leaf : ℕ
  get_max_basic_leaf = (execute_cpuid k_basic_info 0).eax

  unfoldable pub has_feature_edx : ℕ → Bool
  has_feature_edx feature_bit = has_feature (execute_cpuid k_version_info 0).edx feature_bit

  unfoldable pub has_feature_ecx : ℕ → Bool
  has_feature_ecx feature_bit = has_feature (execute_cpuid k_version_info 0).ecx feature_bit

  unfoldable pub get_vendor_string : List ℕ
  get_vendor_string =
      let result = execute_cpuid k_basic_info 0 in
      bytes result.ebx ++ (bytes result.edx ++ (bytes result.ecx ++ 0 ∷ []))

  unfoldable pub get_brand_string : List ℕ
  get_brand_string =
      if ltb (execute_cpuid k_extended_info 0).eax k_brand_string3
      then zeros 49
      else result_bytes (execute_cpuid k_brand_string1 0)
        ++ (result_bytes (execute_cpuid k_brand_string2 0)
            ++ (result_bytes (execute_cpuid k_brand_string3 0) ++ 0 ∷ []))

  unfoldable pub has_apic : Bool
  has_apic = has_feature_edx k_apic

  unfoldable pub has_x2_apic : Bool
  has_x2_apic = has_feature_ecx k_x2_apic

  unfoldable pub has_tsc : Bool
  has_tsc = has_feature_edx k_tsc

  unfoldable pub has_msr : Bool
  has_msr = has_feature_edx k_msr

  unfoldable pub get_apic_id : ℕ
  get_apic_id = bit_and ((execute_cpuid k_version_info 0).ebx / 2 ^ 24) 0xFF

  unfoldable pub get_extended_apic_id : ℕ
  get_extended_apic_id =
      if leb k_extended_topology get_max_basic_leaf
      then (execute_cpuid k_extended_topology 0).edx
      else get_apic_id

  unfoldable pub get_logical_processor_count : ℕ
  get_logical_processor_count = bit_and ((execute_cpuid k_version_info 0).ebx / 2 ^ 16) 0xFF

  -- `GetCurrentCoreId` of include/x86_64/cpu.hpp.
  unfoldable pub get_current_core_id : ℕ
  get_current_core_id = get_extended_apic_id
