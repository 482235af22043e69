-- ===== src/Aarch64/Info/Values.antt =====
-- The named values of include/aarch64/regs/register_info.hpp that stand for a choice.
use cpu_io.Base.{
  ℕ, ◌≡◌, ◌⊎◌, inl, inr, refl, Option, none, some, List, [], ◌∷◌, ◌==◌, if◌then◌else◌,
}

pub data ExceptionLevel : Type 0 where
  el0 el1 el2 el3 : ExceptionLevel

unfoldable pub current_el : ExceptionLevel → ℕ
current_el el0 = 0
current_el el1 = 1
current_el el2 = 2
current_el el3 = 3

abbrev pub spsel_el0 : ℕ
spsel_el0 = 0

abbrev pub spsel_elx : ℕ
spsel_elx = 1

abbrev pub daif_not_masked : ℕ
daif_not_masked = 0

abbrev pub daif_masked : ℕ
daif_masked = 1

-- The sizes of physical addresses, and their encoding in TCR_EL1.
pub data PhysicalSize : Type 0 where
  ips_32_bits ips_36_bits ips_40_bits ips_42_bits ips_44_bits ips_48_bits ips_52_bits : PhysicalSize

unfoldable pub tcr_ips : PhysicalSize → ℕ
tcr_ips ips_32_bits = 0
tcr_ips ips_36_bits = 1
tcr_ips ips_40_bits = 2
tcr_ips ips_42_bits = 3
tcr_ips ips_44_bits = 4
tcr_ips ips_48_bits = 5
tcr_ips ips_52_bits = 6

-- The granules, which TG0 and TG1 encode in different ways.
pub data Granule : Type 0 where
  granule_4_kb granule_16_kb granule_64_kb : Granule

unfoldable pub tcr_tg0 : Granule → ℕ
tcr_tg0 granule_4_kb = 0
tcr_tg0 granule_16_kb = 2
tcr_tg0 granule_64_kb = 1

unfoldable pub tcr_tg1 : Granule → ℕ
tcr_tg1 granule_4_kb = 2
tcr_tg1 granule_16_kb = 1
tcr_tg1 granule_64_kb = 3

-- The memory types and their attributes in MAIR_EL1.
pub data MemoryType : Type 0 where
  device_ngnrne device_ngnre device_ngre device_gre : MemoryType
  normal_non_cacheable normal_write_through_no_alloc : MemoryType
  normal_write_through_read_alloc normal_write_back_read_write_alloc : MemoryType

unfoldable pub mair_attribute : MemoryType → ℕ
mair_attribute device_ngnrne = 0x00
mair_attribute device_ngnre = 0x04
mair_attribute device_ngre = 0x08
mair_attribute device_gre = 0x0C
mair_attribute normal_non_cacheable = 0x44
mair_attribute normal_write_through_no_alloc = 0x44
mair_attribute normal_write_through_read_alloc = 0xBB
mair_attribute normal_write_back_read_write_alloc = 0xFF

abbrev memory_types : List MemoryType
memory_types =
    device_ngnrne ∷ device_ngnre ∷ device_ngre ∷ device_gre ∷ normal_non_cacheable
    ∷ normal_write_through_no_alloc ∷ normal_write_through_read_alloc
    ∷ normal_write_back_read_write_alloc ∷ []

-- The first memory type of a list with an attribute.
abbrev with_attribute : ℕ → List MemoryType → Option MemoryType
with_attribute n [] = none
with_attribute n (t ∷ l) = if mair_attribute t == n then some t else with_attribute n l

-- Every memory type can be told from its attribute, but for the write-through type without
-- allocation, which has that of the non-cacheable one.
memory_type_of_attribute :
    (t : MemoryType)
    → ((t ≡ normal_write_through_no_alloc)
        × (mair_attribute t ≡ mair_attribute normal_non_cacheable))
      ⊎ (with_attribute (mair_attribute t) memory_types ≡ some t)
unfolding mair_attribute
memory_type_of_attribute normal_write_through_no_alloc = inl (refl, refl)
memory_type_of_attribute _ = inr refl
