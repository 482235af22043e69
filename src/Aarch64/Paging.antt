-- ===== src/Aarch64/Paging.antt =====
-- The page table entries and the address arithmetic of include/aarch64/virtual_memory.hpp.
pub mod Entry
pub mod Tests
pub mod Arithmetic
use cpu_io.Base.{
  ℕ, ◌+◌, ◌-◌, ◌*◌, ◌/◌, Bool, true, false, not, ◌==◌, ◌!=◌, if◌then◌else◌, bit_and, bit_or, shl64,
  or_if, shr, ◌&&◌, ◌||◌, not64, add64, sub64,
}

abbrev pub k_valid_offset : ℕ
k_valid_offset = 0

abbrev pub k_table_offset : ℕ
k_table_offset = 1

abbrev pub k_attr_indx_offset : ℕ
k_attr_indx_offset = 2

abbrev pub k_ns_offset : ℕ
k_ns_offset = 5

abbrev pub k_ap_offset : ℕ
k_ap_offset = 6

abbrev pub k_sh_offset : ℕ
k_sh_offset = 8

abbrev pub k_af_offset : ℕ
k_af_offset = 10

abbrev pub k_ng_offset : ℕ
k_ng_offset = 11

abbrev pub k_dbm_offset : ℕ
k_dbm_offset = 51

abbrev pub k_pxn_offset : ℕ
k_pxn_offset = 53

abbrev pub k_uxn_offset : ℕ
k_uxn_offset = 54

abbrev pub k_valid : ℕ
k_valid = shl64 1 k_valid_offset

abbrev pub k_table : ℕ
k_table = shl64 1 k_table_offset

abbrev pub k_attr_indx : ℕ
k_attr_indx = shl64 7 k_attr_indx_offset

abbrev pub k_ns : ℕ
k_ns = shl64 1 k_ns_offset

abbrev pub k_ap : ℕ
k_ap = shl64 3 k_ap_offset

abbrev pub k_sh : ℕ
k_sh = shl64 3 k_sh_offset

abbrev pub k_af : ℕ
k_af = shl64 1 k_af_offset

abbrev pub k_ng : ℕ
k_ng = shl64 1 k_ng_offset

abbrev pub k_dbm : ℕ
k_dbm = shl64 1 k_dbm_offset

abbrev pub k_pxn : ℕ
k_pxn = shl64 1 k_pxn_offset

abbrev pub k_uxn : ℕ
k_uxn = shl64 1 k_uxn_offset

abbrev pub k_ap_read_write : ℕ
k_ap_read_write = shl64 0 k_ap_offset

abbrev pub k_ap_read_only : ℕ
k_ap_read_only = shl64 2 k_ap_offset

abbrev pub k_ap_user_read_write : ℕ
k_ap_user_read_write = shl64 1 k_ap_offset

abbrev pub k_ap_user_read_only : ℕ
k_ap_user_read_only = shl64 3 k_ap_offset

abbrev pub k_sh_non_shareable : ℕ
k_sh_non_shareable = shl64 0 k_sh_offset

abbrev pub k_sh_outer_shareable : ℕ
k_sh_outer_shareable = shl64 2 k_sh_offset

abbrev pub k_sh_inner_shareable : ℕ
k_sh_inner_shareable = shl64 3 k_sh_offset

abbrev pub k_attr_device : ℕ
k_attr_device = shl64 0 k_attr_indx_offset

abbrev pub k_attr_normal_nc : ℕ
k_attr_normal_nc = shl64 1 k_attr_indx_offset

abbrev pub k_attr_normal_wt : ℕ
k_attr_normal_wt = shl64 2 k_attr_indx_offset

abbrev pub k_attr_normal_wb : ℕ
k_attr_normal_wb = shl64 3 k_attr_indx_offset

abbrev pub k_page_size : ℕ
k_page_size = 4096

abbrev pub k_kernel_offset : ℕ
k_kernel_offset = 0x0

abbrev pub k_pte_attribute_bits : ℕ
k_pte_attribute_bits = 12

abbrev pub k_page_offset_bits : ℕ
k_page_offset_bits = 12

abbrev pub k_vpn_bits : ℕ
k_vpn_bits = 9

abbrev pub k_vpn_mask : ℕ
k_vpn_mask = 0x1FF

abbrev pub k_page_table_levels : ℕ
k_page_table_levels = 4

abbrev pub k_pte_valid : ℕ
k_pte_valid = k_valid

abbrev pub k_pte_table : ℕ
k_pte_table = k_table

abbrev pub k_pte_attr_indx : ℕ
k_pte_attr_indx = k_attr_indx

abbrev pub k_pte_ns : ℕ
k_pte_ns = k_ns

abbrev pub k_pte_ap : ℕ
k_pte_ap = k_ap

abbrev pub k_pte_sh : ℕ
k_pte_sh = k_sh

abbrev pub k_pte_af : ℕ
k_pte_af = k_af

abbrev pub k_pte_ng : ℕ
k_pte_ng = k_ng

abbrev pub k_pte_dbm : ℕ
k_pte_dbm = k_dbm

abbrev pub k_pte_pxn : ℕ
k_pte_pxn = k_pxn

abbrev pub k_pte_uxn : ℕ
k_pte_uxn = k_uxn

unfoldable pub physical_to_page_table_entry : ℕ → ℕ → ℕ
physical_to_page_table_entry physical_addr flags =
    bit_or (shl64 (shr physical_addr k_page_offset_bits) k_pte_attribute_bits)
      (bit_and flags (sub64 (shl64 1 k_pte_attribute_bits) 1))

unfoldable pub page_table_entry_to_physical : ℕ → ℕ
page_table_entry_to_physical pte = shl64 (shr pte k_pte_attribute_bits) k_page_offset_bits

unfoldable pub is_page_table_entry_valid : ℕ → Bool
is_page_table_entry_valid pte = bit_and pte k_valid != 0

unfoldable pub get_virtual_page_number : ℕ → ℕ → ℕ
get_virtual_page_number virtual_addr level =
    bit_and (shr virtual_addr (k_page_offset_bits + level * k_vpn_bits)) k_vpn_mask

unfoldable pub get_page_table_level_shift : ℕ → ℕ
get_page_table_level_shift level = k_page_offset_bits + level * k_vpn_bits

unfoldable pub virtual_to_physical : ℕ → ℕ
virtual_to_physical virtual_addr = sub64 virtual_addr k_kernel_offset

unfoldable pub physical_to_virtual : ℕ → ℕ
physical_to_virtual physical_addr = add64 physical_addr k_kernel_offset

unfoldable pub page_align : ℕ → ℕ
page_align addr = bit_and addr (not64 (k_page_size - 1))

unfoldable pub page_align_up : ℕ → ℕ
page_align_up addr = bit_and (sub64 (add64 addr k_page_size) 1) (not64 (k_page_size - 1))

unfoldable pub is_page_aligned : ℕ → Bool
is_page_aligned addr = bit_and addr (k_page_size - 1) == 0

unfoldable pub get_page_offset : ℕ → ℕ
get_page_offset addr = bit_and addr (k_page_size - 1)

unfoldable pub create_page_table_entry : ℕ → Bool → Bool → Bool → Bool → Bool → ℕ
unfolding physical_to_page_table_entry
create_page_table_entry physical_addr readable writable executable user_accessible global =
    let flags = bit_or (bit_or k_valid k_table) k_af in
    let flags =
      if user_accessible
      then if writable then bit_or flags k_ap_user_read_write else bit_or flags k_ap_user_read_only
      else if writable
      then bit_or flags k_ap_read_write
      else bit_or flags k_ap_read_only in
    let flags = or_if (not executable) (if user_accessible then k_uxn else k_pxn) flags in
    let flags = or_if (not global) k_ng flags in
    let flags = bit_or flags (bit_or k_attr_normal_wb k_sh_inner_shareable) in
    physical_to_page_table_entry physical_addr flags

-- Each test is an early `return false`; the branch for reads is empty.
unfoldable pub check_page_table_entry_permissions : ℕ → Bool → Bool → Bool → Bool → Bool
unfolding is_page_table_entry_valid
check_page_table_entry_permissions pte check_read check_write check_exec check_user =
    let ap = bit_and pte k_ap in
    if not (is_page_table_entry_valid pte)
    then false
    else if check_write && (ap == k_ap_read_only || ap == k_ap_user_read_only)
    then false
    else if check_exec && (check_user && bit_and pte k_uxn != 0)
    then false
    else if check_exec && (not check_user && bit_and pte k_pxn != 0)
    then false
    else if check_user && (ap != k_ap_user_read_write && ap != k_ap_user_read_only)
    then false
    else true

unfoldable pub get_page_count : ℕ → ℕ → ℕ
unfolding page_align page_align_up
get_page_count start_addr end_addr =
    let aligned_start = page_align start_addr in
    let aligned_end = page_align_up end_addr in sub64 aligned_end aligned_start / k_page_size

unfoldable pub get_table_entry_permissions : ℕ
get_table_entry_permissions = bit_or k_valid k_table

unfoldable pub get_kernel_page_permissions : Bool → Bool → Bool → Bool → ℕ
get_kernel_page_permissions readable writable executable global =
    let flags = bit_or (bit_or k_valid k_table) k_af in
    let flags = if writable then bit_or flags k_ap_read_write else bit_or flags k_ap_read_only in
    let flags = or_if (not executable) k_pxn flags in
    let flags = or_if (not global) k_ng flags in
    bit_or flags (bit_or k_attr_normal_wb k_sh_inner_shareable)

unfoldable pub get_user_page_permissions : Bool → Bool → Bool → Bool → ℕ
get_user_page_permissions readable writable executable global =
    let flags = bit_or (bit_or k_valid k_table) k_af in
    let flags =
      if writable then bit_or flags k_ap_user_read_write else bit_or flags k_ap_user_read_only in
    let flags = or_if (not executable) k_uxn flags in
    let flags = or_if (not global) k_ng flags in
    bit_or flags (bit_or k_attr_normal_wb k_sh_inner_shareable)
