-- ===== src/Aarch64/Paging/Arithmetic.antt =====
-- The address arithmetic that the headers virtual_memory.hpp of the three architectures share.
mod Tests
use cpu_io.Base.{ℕ, ◌-◌, ◌^◌, ◌≤◌, ◌≡◌, ◌↔◌, true, refl}
use cpu_io.Riscv64.Paging.Align.{page_align_up_least}
use cpu_io.Aarch64.Paging.{
  page_align, page_align_up, is_page_aligned, get_page_offset, virtual_to_physical,
  physical_to_virtual, get_page_count, get_virtual_page_number, get_page_table_level_shift,
}
use cpu_io.X86_64.Paging as X86
use cpu_io.Riscv64.Paging as Riscv

-- The nine functions on addresses are the same on the three architectures.
pub one_arithmetic :
    (a b level : ℕ)
    → (page_align a ≡ X86.page_align a)
      × (X86.page_align a ≡ Riscv.page_align a)
      × (page_align_up a ≡ X86.page_align_up a)
      × (X86.page_align_up a ≡ Riscv.page_align_up a)
      × (is_page_aligned a ≡ X86.is_page_aligned a)
      × (X86.is_page_aligned a ≡ Riscv.is_page_aligned a)
      × (get_page_offset a ≡ X86.get_page_offset a)
      × (X86.get_page_offset a ≡ Riscv.get_page_offset a)
      × (virtual_to_physical a ≡ X86.virtual_to_physical a)
      × (X86.virtual_to_physical a ≡ Riscv.virtual_to_physical a)
      × (physical_to_virtual a ≡ X86.physical_to_virtual a)
      × (X86.physical_to_virtual a ≡ Riscv.physical_to_virtual a)
      × (get_page_count a b ≡ X86.get_page_count a b)
      × (X86.get_page_count a b ≡ Riscv.get_page_count a b)
      × (get_virtual_page_number a level ≡ X86.get_virtual_page_number a level)
      × (X86.get_virtual_page_number a level ≡ Riscv.get_virtual_page_number a level)
      × (get_page_table_level_shift level ≡ X86.get_page_table_level_shift level)
      × (X86.get_page_table_level_shift level ≡ Riscv.get_page_table_level_shift level)
unfolding page_align page_align_up is_page_aligned get_page_offset virtual_to_physical
    physical_to_virtual get_page_count get_virtual_page_number get_page_table_level_shift
    X86.page_align X86.page_align_up X86.is_page_aligned X86.get_page_offset X86.virtual_to_physical
    X86.physical_to_virtual X86.get_page_count X86.get_virtual_page_number
    X86.get_page_table_level_shift Riscv.page_align Riscv.page_align_up Riscv.is_page_aligned
    Riscv.get_page_offset Riscv.virtual_to_physical Riscv.physical_to_virtual Riscv.get_page_count
    Riscv.get_virtual_page_number Riscv.get_page_table_level_shift
one_arithmetic a b level = (
  refl, refl, refl, refl, refl, refl, refl, refl, refl, refl, refl, refl, refl, refl, refl, refl,
  refl, refl,
)

-- For an address up to 2^64 - 4096, `PageAlignUp` of each architecture is the least page-aligned
-- address that is not below it: it is aligned, and an aligned address is at or above it exactly if
-- it is at or above the address itself.
pub page_align_up_everywhere :
    (a b : ℕ)
    → a ≤ 2 ^ 64 - 4096
    → is_page_aligned b ≡ true
    → (is_page_aligned (page_align_up a) ≡ true)
      × ((page_align_up a ≤ b) ↔ (a ≤ b))
      × (X86.is_page_aligned (X86.page_align_up a) ≡ true)
      × ((X86.page_align_up a ≤ b) ↔ (a ≤ b))
      × (Riscv.is_page_aligned (Riscv.page_align_up a) ≡ true)
      × ((Riscv.page_align_up a ≤ b) ↔ (a ≤ b))
page_align_up_everywhere a b h aligned =
    let at_a = one_arithmetic a a 0 in
    let at_b = one_arithmetic b b 0 in
    let at_top = one_arithmetic (Riscv.page_align_up a) a 0 in
    let least = page_align_up_least a b h (rw (← at_b.5, ← at_b.4) aligned) in
    rw (at_a.2, at_a.3, at_top.4, at_top.5) (least.0, least.1, least.0, least.1, least.0, least.1)
