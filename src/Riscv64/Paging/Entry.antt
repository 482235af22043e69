-- ===== src/Riscv64/Paging/Entry.antt =====
-- Page table entries of include/riscv64/virtual_memory.hpp.
use cpu_io.Base.{
  ℕ, or_if, ◌+◌, ◌*◌, ◌/◌, ◌%◌, ◌^◌, ◌<◌, ◌≡◌, Bool, not, ◌&&◌, ◌||◌, arith, bit_and-ones,
  bit_or-add, ◌∙◌, refl, ap, Rows, tabulate, tabulate_sound, same, eq_of_same,
}
use cpu_io.Riscv64.Paging.{
  page_align, physical_to_page_table_entry, page_table_entry_to_physical, create_page_table_entry,
  check_page_table_entry_permissions, get_kernel_page_permissions, get_user_page_permissions,
  get_table_entry_permissions, k_valid, k_read, k_write, k_exec, k_user, k_global,
}
use cpu_io.Riscv64.Paging.Align.{page_align-eq}

-- An entry is the page number above ten bits of flags.
entry-eq :
    (pa flags : ℕ)
    → pa < 2 ^ 64
    → physical_to_page_table_entry pa flags ≡ pa / 4096 * 1024 + flags % 1024
unfolding physical_to_page_table_entry
entry-eq pa flags h =
    ground (arith, bit_and-ones 10 0 flags, bit_or-add 10 (pa / 4096) (flags % 1024))

-- An entry made from a 64-bit physical address and any flags gives the start of the page back.
pub physical-entry :
    (pa flags : ℕ)
    → pa < 2 ^ 64
    → page_table_entry_to_physical (physical_to_page_table_entry pa flags) ≡ page_align pa
unfolding page_table_entry_to_physical
physical-entry pa flags h = omega (arith, entry-eq pa flags h, page_align-eq pa h)

-- The permission check reads the low ten bits only.
check-mod :
    (pte : ℕ) (r w x u : Bool)
    → check_page_table_entry_permissions pte r w x u
      ≡ check_page_table_entry_permissions (pte % 1024) r w x u
unfolding check_page_table_entry_permissions
check-mod pte r w x u = ground (
  arith,
  bit_and-ones 1 0 pte,
  bit_and-ones 1 1 pte,
  bit_and-ones 1 2 pte,
  bit_and-ones 1 3 pte,
  bit_and-ones 1 4 pte,
  bit_and-ones 1 0 (pte % 1024),
  bit_and-ones 1 1 (pte % 1024),
  bit_and-ones 1 2 (pte % 1024),
  bit_and-ones 1 3 (pte % 1024),
  bit_and-ones 1 4 (pte % 1024),
)

-- A right that is asked for has been granted.
abbrev pub allows : Bool → Bool → Bool
allows asked granted = not asked || granted

-- The flags that `CreatePageTableEntry` collects, and the check of them alone.
abbrev create_flags : Bool → Bool → Bool → Bool → Bool → ℕ
create_flags r w x u g =
    or_if g k_global (or_if u k_user (or_if x k_exec (or_if w k_write (or_if r k_read k_valid))))

create_flags_table :
    (r w x u g cr cw cx cu : Bool)
    → check_page_table_entry_permissions (create_flags r w x u g % 1024) cr cw cx cu
      ≡ allows cr r && allows cw w && allows cx x && allows cu u
unfolding check_page_table_entry_permissions tabulate
create_flags_table r w x u g cr cw cx cu =
    eq_of_same _ _ (tabulate_sound 9 row refl r w x u g cr cw cx cu)
  where
    row : Rows 9
    row r w x u g cr cw cx cu =
        same (check_page_table_entry_permissions (create_flags r w x u g % 1024) cr cw cx cu)
          (allows cr r && allows cw w && allows cx x && allows cu u)

-- The check of an entry is the check of its flags.
check-entry :
    (pa flags : ℕ) (r w x u : Bool)
    → pa < 2 ^ 64
    → check_page_table_entry_permissions (physical_to_page_table_entry pa flags) r w x u
      ≡ check_page_table_entry_permissions (flags % 1024) r w x u
check-entry pa flags r w x u h =
    check-mod (physical_to_page_table_entry pa flags) r w x u
    ∙ ap (λ (t : ℕ). check_page_table_entry_permissions t r w x u)
        (omega (arith, entry-eq pa flags h))

-- A created entry passes the permission check exactly for the rights that it was created with.
pub check-create :
    (pa : ℕ) (readable writable executable user_accessible global : Bool)
    (check_read check_write check_exec check_user : Bool)
    → pa < 2 ^ 64
    → check_page_table_entry_permissions
        (create_page_table_entry pa readable writable executable user_accessible global)
        check_read
        check_write
        check_exec
        check_user
      ≡ allows check_read readable
        && allows check_write writable
        && allows check_exec executable
        && allows check_user user_accessible
unfolding create_page_table_entry
check-create pa r w x u g cr cw cx cu h =
    check-entry pa (create_flags r w x u g) cr cw cx cu h ∙ create_flags_table r w x u g cr cw cx cu

kernel_permissions_table :
    (r w x g cr cw cx cu : Bool)
    → check_page_table_entry_permissions (get_kernel_page_permissions r w x g % 1024) cr cw cx cu
      ≡ allows cr r && allows cw w && allows cx x && not cu
unfolding check_page_table_entry_permissions get_kernel_page_permissions tabulate
kernel_permissions_table r w x g cr cw cx cu =
    eq_of_same _ _ (tabulate_sound 8 row refl r w x g cr cw cx cu)
  where
    row : Rows 8
    row r w x g cr cw cx cu =
        same
          (check_page_table_entry_permissions (get_kernel_page_permissions r w x g % 1024) cr cw cx
            cu)
          (allows cr r && allows cw w && allows cx x && not cu)

user_permissions_table :
    (r w x g cr cw cx cu : Bool)
    → check_page_table_entry_permissions (get_user_page_permissions r w x g % 1024) cr cw cx cu
      ≡ allows cr r && allows cw w && allows cx x
unfolding check_page_table_entry_permissions get_user_page_permissions tabulate
user_permissions_table r w x g cr cw cx cu =
    eq_of_same _ _ (tabulate_sound 8 row refl r w x g cr cw cx cu)
  where
    row : Rows 8
    row r w x g cr cw cx cu =
        same
          (check_page_table_entry_permissions (get_user_page_permissions r w x g % 1024) cr cw cx
            cu)
          (allows cr r && allows cw w && allows cx x)

-- An entry with kernel permissions passes the check exactly for the granted rights without user
-- access; one with user permissions passes it for the granted rights, with user access or without.
pub check-page_permissions :
    (pa : ℕ) (r w x g : Bool) (check_read check_write check_exec check_user : Bool)
    → pa < 2 ^ 64
    → (check_page_table_entry_permissions
          (physical_to_page_table_entry pa (get_kernel_page_permissions r w x g))
          check_read
          check_write
          check_exec
          check_user
        ≡ allows check_read r && allows check_write w && allows check_exec x && not check_user)
      × (check_page_table_entry_permissions
            (physical_to_page_table_entry pa (get_user_page_permissions r w x g))
            check_read
            check_write
            check_exec
            check_user
          ≡ allows check_read r && allows check_write w && allows check_exec x)
check-page_permissions pa r w x g cr cw cx cu h = (
  check-entry pa (get_kernel_page_permissions r w x g) cr cw cx cu h
      ∙ kernel_permissions_table r w x g cr cw cx cu,
  check-entry pa (get_user_page_permissions r w x g) cr cw cx cu h
      ∙ user_permissions_table r w x g cr cw cx cu,
)

-- An entry that points to a next table is valid and grants no right, so it is no leaf.
pub check-table_entry :
    (pa : ℕ) (check_read check_write check_exec check_user : Bool)
    → pa < 2 ^ 64
    → check_page_table_entry_permissions
        (physical_to_page_table_entry pa get_table_entry_permissions)
        check_read
        check_write
        check_exec
        check_user
      ≡ not (check_read || check_write || check_exec || check_user)
check-table_entry pa cr cw cx cu h =
    check-entry pa get_table_entry_permissions cr cw cx cu h ∙ table cr cw cx cu
  where
    table :
        (cr cw cx cu : Bool)
        → check_page_table_entry_permissions (get_table_entry_permissions % 1024) cr cw cx cu
          ≡ not (cr || cw || cx || cu)
    table cr cw cx cu =
        unfold check_page_table_entry_permissions get_table_entry_permissions in ground arith
