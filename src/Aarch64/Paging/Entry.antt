-- ===== src/Aarch64/Paging/Entry.antt =====
-- Page table entries of include/aarch64/virtual_memory.hpp.
use cpu_io.Base.{
  ℕ, or_if, ◌+◌, ◌*◌, ◌/◌, ◌%◌, ◌^◌, ◌<◌, ◌≡◌, Bool, not, ◌&&◌, ◌||◌, arith, bit_and-ones,
  bit_or-add, ◌∙◌, if◌then◌else◌, refl, Rows, tabulate, tabulate_sound, same, eq_of_same, bit_or,
  bit_and, true, ◌==◌, ==_iff,
}
use cpu_io.Aarch64.Paging.{
  physical_to_page_table_entry, create_page_table_entry, k_valid, k_table, k_af,
  k_ap_user_read_write, k_ap_user_read_only, k_ap_read_write, k_ap_read_only, k_uxn, k_pxn, k_ng,
  k_attr_normal_wb, k_attr_indx, k_sh_inner_shareable, check_page_table_entry_permissions,
  get_kernel_page_permissions, get_user_page_permissions,
}

-- An entry is the page number above the low twelve flags: the flags above them are dropped.
entry-eq :
    (pa flags : ℕ)
    → pa < 2 ^ 64
    → physical_to_page_table_entry pa flags ≡ pa / 4096 * 4096 + flags % 4096
unfolding physical_to_page_table_entry
entry-eq pa flags h =
    ground (arith, bit_and-ones 12 0 flags, bit_or-add 12 (pa / 4096) (flags % 4096))

-- The check of an entry for an address below the never-execute flags is the check of its low flags.
check-entry :
    (pa flags : ℕ) (r w x u : Bool)
    → pa < 2 ^ 53
    → check_page_table_entry_permissions (physical_to_page_table_entry pa flags) r w x u
      ≡ check_page_table_entry_permissions (flags % 4096) r w x u
unfolding check_page_table_entry_permissions
check-entry pa flags r w x u h = rw (entry-eq pa flags (omega arith)) (
    ground (
      arith,
      bit_and-ones 1 0 (pa / 4096 * 4096 + flags % 4096),
      bit_and-ones 2 6 (pa / 4096 * 4096 + flags % 4096),
      bit_and-ones 1 53 (pa / 4096 * 4096 + flags % 4096),
      bit_and-ones 1 54 (pa / 4096 * 4096 + flags % 4096),
      bit_and-ones 1 0 (flags % 4096),
      bit_and-ones 2 6 (flags % 4096),
      bit_and-ones 1 53 (flags % 4096),
      bit_and-ones 1 54 (flags % 4096),
    ))

-- A right that is asked for has been granted.
abbrev pub allows : Bool → Bool → Bool
allows asked granted = not asked || granted

abbrev create_flags : Bool → Bool → Bool → Bool → ℕ
create_flags w x u g =
    let flags = bit_or (bit_or k_valid k_table) k_af in
    let flags =
      if u
      then if w then bit_or flags k_ap_user_read_write else bit_or flags k_ap_user_read_only
      else if w
      then bit_or flags k_ap_read_write
      else bit_or flags k_ap_read_only in
    let flags = or_if (not x) (if u then k_uxn else k_pxn) flags in
    let flags = or_if (not g) k_ng flags in
    bit_or flags (bit_or k_attr_normal_wb k_sh_inner_shareable)

create_table :
    (w x u g cr cw cx cu : Bool)
    → check_page_table_entry_permissions (create_flags w x u g % 4096) cr cw cx cu
      ≡ allows cw w && allows cu u
unfolding check_page_table_entry_permissions tabulate
create_table w x u g cr cw cx cu = eq_of_same _ _ (tabulate_sound 8 row refl w x u g cr cw cx cu)
  where
    row : Rows 8
    row w x u g cr cw cx cu =
        same (check_page_table_entry_permissions (create_flags w x u g % 4096) cr cw cx cu)
          (allows cw w && allows cu u)

-- For an address below 2^53, a created entry passes the permission check for writes and for user
-- access exactly if these were granted. The check for execution passes always: the never-execute
-- flag of a page that was created as not executable is lost.
pub create_drops_never_execute :
    (pa : ℕ) (readable writable executable user_accessible global : Bool)
    (check_read check_write check_exec check_user : Bool)
    → pa < 2 ^ 53
    → check_page_table_entry_permissions
        (create_page_table_entry pa readable writable executable user_accessible global)
        check_read
        check_write
        check_exec
        check_user
      ≡ allows check_write writable && allows check_user user_accessible
unfolding create_page_table_entry
create_drops_never_execute pa r w x u g cr cw cx cu h =
    check-entry pa (create_flags w x u g) cr cw cx cu h ∙ create_table w x u g cr cw cx cu

attribute_table : (w x u g : Bool) → create_flags w x u g % 4096 / 4 % 8 ≡ 3
unfolding tabulate
attribute_table w x u g = (==_iff _ _).0 (eq_of_same _ _ (tabulate_sound 4 row refl w x u g))
  where
    row : Rows 4
    row w x u g = same (create_flags w x u g % 4096 / 4 % 8 == 3) true

-- The memory attribute index of a created entry is that of normal write-back memory.
pub created_attr_indx :
    (pa : ℕ) (readable writable executable user_accessible global : Bool)
    → pa < 2 ^ 64
    → bit_and
        (create_page_table_entry pa readable writable executable user_accessible global)
        k_attr_indx
      ≡ k_attr_normal_wb
unfolding create_page_table_entry
created_attr_indx pa r w x u g h = rw (entry-eq pa (create_flags w x u g) h) (
    omega (
      arith,
      bit_and-ones 3 2 (pa / 4096 * 4096 + create_flags w x u g % 4096),
      attribute_table w x u g,
    ))

-- The check of the permission flags themselves is exact: kernel flags allow no user access, and
-- execution if granted; user flags allow it, and user execution if granted, and they do not keep
-- the kernel from executing.
pub permission_flags :
    (r w x g check_read check_write check_exec check_user : Bool)
    → (check_page_table_entry_permissions
          (get_kernel_page_permissions r w x g)
          check_read
          check_write
          check_exec
          check_user
        ≡ allows check_write w && allows check_exec x && not check_user)
      × (check_page_table_entry_permissions
            (get_user_page_permissions r w x g)
            check_read
            check_write
            check_exec
            check_user
          ≡ allows check_write w && allows (check_exec && check_user) x)
unfolding check_page_table_entry_permissions get_kernel_page_permissions get_user_page_permissions
    tabulate
permission_flags r w x g cr cw cx cu = (
  eq_of_same _ _ (tabulate_sound 8 kernel refl r w x g cr cw cx cu),
  eq_of_same _ _ (tabulate_sound 8 user refl r w x g cr cw cx cu),
)
  where
    kernel : Rows 8
    kernel r w x g cr cw cx cu =
        same (check_page_table_entry_permissions (get_kernel_page_permissions r w x g) cr cw cx cu)
          (allows cw w && allows cx x && not cu)

    user : Rows 8
    user r w x g cr cw cx cu =
        same (check_page_table_entry_permissions (get_user_page_permissions r w x g) cr cw cx cu)
          (allows cw w && allows (cx && cu) x)
