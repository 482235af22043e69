-- ===== src/X86_64/Paging.antt =====
-- include/x86_64/virtual_memory.hpp.
pub mod Entry
pub mod Cr3
use cpu_io.Base.{
  ℕ, ◌+◌, ◌-◌, ◌*◌, ◌/◌, Bool, true, false, not, ◌==◌, ◌!=◌, if◌then◌else◌, bit_and, bit_or, or_if,
  shl64, shr, ◌&&◌, not64, add64, sub64,
}
use cpu_io.X86_64.Machine.{cr3, Stores, M, pure, ◌>>=◌, event, invlpg, reload_cr3}
use cpu_io.X86_64.Field
use cpu_io.X86_64.Info.{cr3_page_directory_base}

abbrev pub k_valid_offset : ℕ
k_valid_offset = 0

abbrev pub k_write_offset : ℕ
k_write_offset = 1

abbrev pub k_user_offset : ℕ
k_user_offset = 2

abbrev pub k_write_through_offset : ℕ
k_write_through_offset = 3

abbrev pub k_cache_disable_offset : ℕ
k_cache_disable_offset = 4

abbrev pub k_accessed_offset : ℕ
k_accessed_offset = 5

abbrev pub k_dirty_offset : ℕ
k_dirty_offset = 6

abbrev pub k_huge_page_offset : ℕ
k_huge_page_offset = 7

abbrev pub k_global_offset : ℕ
k_global_offset = 8

abbrev pub k_read_offset : ℕ
k_read_offset = 9

abbrev pub k_exec_offset : ℕ
k_exec_offset = 10

abbrev pub k_valid : ℕ
k_valid = shl64 1 k_valid_offset

abbrev pub k_write : ℕ
k_write = shl64 1 k_write_offset

abbrev pub k_user : ℕ
k_user = shl64 1 k_user_offset

abbrev pub k_write_through : ℕ
k_write_through = shl64 1 k_write_through_offset

abbrev pub k_cache_disable : ℕ
k_cache_disable = shl64 1 k_cache_disable_offset

abbrev pub k_accessed : ℕ
k_accessed = shl64 1 k_accessed_offset

abbrev pub k_dirty : ℕ
k_dirty = shl64 1 k_dirty_offset

abbrev pub k_huge_page : ℕ
k_huge_page = shl64 1 k_huge_page_offset

abbrev pub k_global : ℕ
k_global = shl64 1 k_global_offset

abbrev pub k_read : ℕ
k_read = shl64 1 k_read_offset

abbrev pub k_exec : ℕ
k_exec = shl64 1 k_exec_offset

abbrev pub k_page_size : ℕ
k_page_size = 4096

abbrev pub k_kernel_offset : ℕ
k_kernel_offset = 0x0

abbrev pub k_pte_attribute_bits : ℕ
k_pte_attribute_bits = 12

abbrev pub k_page_offset_bits : ℕ
k_page_offset_bits = 12

abbrev pub k_vpn_bits : ℕ
k_vpn_bits = 9

abbrev pub k_vpn_mask : ℕ
k_vpn_mask = 0x1FF

abbrev pub k_page_table_levels : ℕ
k_page_table_levels = 4

-- Empty bodies: paging is on in long mode.
unfoldable pub enable_page : M (Unit {0})
enable_page = pure tt

unfoldable pub disable_page : M (Unit {0})
disable_page = pure tt

module _ ⦃w : Stores⦄ where
  unfoldable pub set_page_directory : ℕ → M (Unit {0})
  set_page_directory pgd =
      Field.write cr3 cr3_page_directory_base (shr pgd cr3_page_directory_base.bit_offset)

  unfoldable pub flush_tlb_all : M (Unit {0})
  flush_tlb_all = reload_cr3

unfoldable pub get_page_directory : M ℕ
get_page_directory = do
  base ← Field.get cr3 cr3_page_directory_base
  pure (shl64 base cr3_page_directory_base.bit_offset)

unfoldable pub physical_to_page_table_entry : ℕ → ℕ → ℕ
physical_to_page_table_entry physical_addr flags =
    bit_or (bit_or (bit_and physical_addr 0x000FFFFFFFFFF000) (bit_and flags 0xFFF))
      (bit_and flags (shl64 1 63))

unfoldable pub page_table_entry_to_physical : ℕ → ℕ
page_table_entry_to_physical pte = bit_and pte 0x000FFFFFFFFFF000

unfoldable pub is_page_table_entry_valid : ℕ → Bool
is_page_table_entry_valid pte = bit_and pte k_valid != 0

unfoldable pub get_virtual_page_number : ℕ → ℕ → ℕ
get_virtual_page_number virtual_addr level =
    bit_and (shr virtual_addr (k_page_offset_bits + level * k_vpn_bits)) k_vpn_mask

unfoldable pub get_page_table_level_shift : ℕ → ℕ
get_page_table_level_shift level = k_page_offset_bits + level * k_vpn_bits

unfoldable pub virtual_to_physical : ℕ → ℕ
virtual_to_physical virtual_addr = sub64 virtual_addr k_kernel_offset

unfoldable pub physical_to_virtual : ℕ → ℕ
physical_to_virtual physical_addr = add64 physical_addr k_kernel_offset

unfoldable pub page_align : ℕ → ℕ
page_align addr = bit_and addr (not64 (k_page_size - 1))

unfoldable pub page_align_up : ℕ → ℕ
page_align_up addr = bit_and (sub64 (add64 addr k_page_size) 1) (not64 (k_page_size - 1))

unfoldable pub is_page_aligned : ℕ → Bool
is_page_aligned addr = bit_and addr (k_page_size - 1) == 0

unfoldable pub get_page_offset : ℕ → ℕ
get_page_offset addr = bit_and addr (k_page_size - 1)

unfoldable pub create_page_table_entry : ℕ → Bool → Bool → Bool → Bool → Bool → ℕ
unfolding physical_to_page_table_entry
create_page_table_entry physical_addr readable writable executable user_accessible global =
    let flags = k_valid in
    let flags = or_if readable k_read flags in
    let flags = or_if writable k_write flags in
    let flags = or_if executable k_exec flags in
    let flags = or_if user_accessible k_user flags in
    let flags = or_if global k_global flags in physical_to_page_table_entry physical_addr flags

-- Each test is an early `return false`.
unfoldable pub check_page_table_entry_permissions : ℕ → Bool → Bool → Bool → Bool → Bool
unfolding is_page_table_entry_valid
check_page_table_entry_permissions pte check_read check_write check_exec check_user =
    if not (is_page_table_entry_valid pte)
    then false
    else if check_read && bit_and pte k_read == 0
    then false
    else if check_write && bit_and pte k_write == 0
    then false
    else if check_exec && bit_and pte k_exec == 0
    then false
    else if check_user && bit_and pte k_user == 0
    then false
    else true

-- The second argument is the address space, which is ignored.
unfoldable pub flush_tlb_address : ℕ → ℕ → M (Unit {0})
flush_tlb_address virtual_addr asid = event (invlpg virtual_addr)

unfoldable pub get_page_count : ℕ → ℕ → ℕ
unfolding page_align page_align_up
get_page_count start_addr end_addr =
    let aligned_start = page_align start_addr in
    let aligned_end = page_align_up end_addr in sub64 aligned_end aligned_start / k_page_size

unfoldable pub get_table_entry_permissions : ℕ
get_table_entry_permissions = bit_or (bit_or (bit_or (bit_or k_valid k_write) k_user) k_read) k_exec

unfoldable pub get_kernel_page_permissions : Bool → Bool → Bool → Bool → ℕ
get_kernel_page_permissions readable writable executable global =
    let flags = k_valid in
    let flags = or_if readable k_read flags in
    let flags = or_if writable k_write flags in
    let flags = or_if executable k_exec flags in or_if global k_global flags

unfoldable pub get_user_page_permissions : Bool → Bool → Bool → Bool → ℕ
get_user_page_permissions readable writable executable global =
    let flags = bit_or k_valid k_user in
    let flags = or_if readable k_read flags in
    let flags = or_if writable k_write flags in
    let flags = or_if executable k_exec flags in or_if global k_global flags
