-- ===== src/X86_64/Paging/Entry.antt =====
-- Page table entries of include/x86_64/virtual_memory.hpp.
use cpu_io.Base.{
  ℕ, or_if, ◌+◌, ◌*◌, ◌/◌, ◌%◌, ◌^◌, ◌≡◌, Bool, true, not, ◌&&◌, ◌||◌, arith, bit_and-ones,
  bit_or-add, bit_or_comm, ◌∙◌, refl, ap, Rows, tabulate, tabulate_sound, same, eq_of_same, bit_and,
  bit_or,
}
use cpu_io.X86_64.Paging.{
  physical_to_page_table_entry, page_table_entry_to_physical, create_page_table_entry,
  check_page_table_entry_permissions, get_kernel_page_permissions, get_user_page_permissions,
  get_table_entry_permissions, k_valid, k_read, k_write, k_exec, k_user, k_global,
}

-- An entry is the 40-bit page number above the low twelve flags, below the never-execute flag.
entry-eq :
    (pa flags : ℕ)
    → physical_to_page_table_entry pa flags
      ≡ flags / 2 ^ 63 % 2 * 2 ^ 63 + (pa / 4096 % 2 ^ 40 * 4096 + flags % 4096)
unfolding physical_to_page_table_entry
entry-eq pa flags =
    let low : bit_or (bit_and pa 0x000FFFFFFFFFF000) (bit_and flags 0xFFF)
        ≡ pa / 4096 % 2 ^ 40 * 4096 + flags % 4096 =
      ground (
        arith,
        bit_and-ones 40 12 pa,
        bit_and-ones 12 0 flags,
        bit_or-add 12 (pa / 4096 % 2 ^ 40) (flags % 4096),
      ) in
    let top : bit_and flags (2 ^ 63) ≡ flags / 2 ^ 63 % 2 * 2 ^ 63 = bit_and-ones 1 63 flags in
    rw (low, top) (bit_or_comm _ _ ∙ bit_or-add 63 (flags / 2 ^ 63 % 2) _ (omega arith))

-- An entry made from any address and any flags gives bits 12 to 51 of the address back, the start
-- of the page for an address below 2^52, and the low twelve flags and the never-execute flag stand
-- in their places.
pub physical-page_entry :
    (pa flags : ℕ)
    → (page_table_entry_to_physical (physical_to_page_table_entry pa flags)
        ≡ pa % 2 ^ 52 / 4096 * 4096)
      × (physical_to_page_table_entry pa flags % 4096 ≡ flags % 4096)
      × (physical_to_page_table_entry pa flags / 2 ^ 63 ≡ flags / 2 ^ 63 % 2)
unfolding page_table_entry_to_physical
physical-page_entry pa flags = (
  omega (arith, entry-eq pa flags, bit_and-ones 40 12 (physical_to_page_table_entry pa flags)),
  omega (arith, entry-eq pa flags),
  omega (arith, entry-eq pa flags),
)

-- The permission check reads the low twelve bits only.
check-mod :
    (pte : ℕ) (r w x u : Bool)
    → check_page_table_entry_permissions pte r w x u
      ≡ check_page_table_entry_permissions (pte % 4096) r w x u
unfolding check_page_table_entry_permissions
check-mod pte r w x u = ground (
  arith,
  bit_and-ones 1 0 pte,
  bit_and-ones 1 1 pte,
  bit_and-ones 1 2 pte,
  bit_and-ones 1 9 pte,
  bit_and-ones 1 10 pte,
  bit_and-ones 1 0 (pte % 4096),
  bit_and-ones 1 1 (pte % 4096),
  bit_and-ones 1 2 (pte % 4096),
  bit_and-ones 1 9 (pte % 4096),
  bit_and-ones 1 10 (pte % 4096),
)

-- A right that is asked for has been granted.
abbrev pub allows : Bool → Bool → Bool
allows asked granted = not asked || granted

-- The flags that `CreatePageTableEntry` collects, and the check of them alone.
abbrev create_flags : Bool → Bool → Bool → Bool → Bool → ℕ
create_flags r w x u g =
    or_if g k_global (or_if u k_user (or_if x k_exec (or_if w k_write (or_if r k_read k_valid))))

create_flags_table :
    (r w x u g cr cw cx cu : Bool)
    → check_page_table_entry_permissions (create_flags r w x u g % 4096) cr cw cx cu
      ≡ allows cr r && allows cw w && allows cx x && allows cu u
unfolding check_page_table_entry_permissions tabulate
create_flags_table r w x u g cr cw cx cu =
    eq_of_same _ _ (tabulate_sound 9 row refl r w x u g cr cw cx cu)
  where
    row : Rows 9
    row r w x u g cr cw cx cu =
        same (check_page_table_entry_permissions (create_flags r w x u g % 4096) cr cw cx cu)
          (allows cr r && allows cw w && allows cx x && allows cu u)

-- The check of an entry is the check of its flags.
check-entry :
    (pa flags : ℕ) (r w x u : Bool)
    → check_page_table_entry_permissions (physical_to_page_table_entry pa flags) r w x u
      ≡ check_page_table_entry_permissions (flags % 4096) r w x u
check-entry pa flags r w x u =
    check-mod (physical_to_page_table_entry pa flags) r w x u
    ∙ ap (λ (t : ℕ). check_page_table_entry_permissions t r w x u)
        (omega (arith, entry-eq pa flags))

-- A created entry passes the permission check exactly for the rights that it was created with.
pub check-create_entry :
    (pa : ℕ) (readable writable executable user_accessible global : Bool)
    (check_read check_write check_exec check_user : Bool)
    → check_page_table_entry_permissions
        (create_page_table_entry pa readable writable executable user_accessible global)
        check_read
        check_write
        check_exec
        check_user
      ≡ allows check_read readable
        && allows check_write writable
        && allows check_exec executable
        && allows check_user user_accessible
unfolding create_page_table_entry
check-create_entry pa r w x u g cr cw cx cu =
    check-entry pa (create_flags r w x u g) cr cw cx cu ∙ create_flags_table r w x u g cr cw cx cu

kernel_permissions_table :
    (r w x g cr cw cx cu : Bool)
    → check_page_table_entry_permissions (get_kernel_page_permissions r w x g % 4096) cr cw cx cu
      ≡ allows cr r && allows cw w && allows cx x && not cu
unfolding check_page_table_entry_permissions get_kernel_page_permissions tabulate
kernel_permissions_table r w x g cr cw cx cu =
    eq_of_same _ _ (tabulate_sound 8 row refl r w x g cr cw cx cu)
  where
    row : Rows 8
    row r w x g cr cw cx cu =
        same
          (check_page_table_entry_permissions (get_kernel_page_permissions r w x g % 4096) cr cw cx
            cu)
          (allows cr r && allows cw w && allows cx x && not cu)

user_permissions_table :
    (r w x g cr cw cx cu : Bool)
    → check_page_table_entry_permissions (get_user_page_permissions r w x g % 4096) cr cw cx cu
      ≡ allows cr r && allows cw w && allows cx x
unfolding check_page_table_entry_permissions get_user_page_permissions tabulate
user_permissions_table r w x g cr cw cx cu =
    eq_of_same _ _ (tabulate_sound 8 row refl r w x g cr cw cx cu)
  where
    row : Rows 8
    row r w x g cr cw cx cu =
        same
          (check_page_table_entry_permissions (get_user_page_permissions r w x g % 4096) cr cw cx
            cu)
          (allows cr r && allows cw w && allows cx x)

-- An entry with kernel permissions passes the check exactly for the granted rights without user
-- access; one with user permissions passes it for the granted rights, with user access or without.
pub check-permissions :
    (pa : ℕ) (r w x g : Bool) (check_read check_write check_exec check_user : Bool)
    → (check_page_table_entry_permissions
          (physical_to_page_table_entry pa (get_kernel_page_permissions r w x g))
          check_read
          check_write
          check_exec
          check_user
        ≡ allows check_read r && allows check_write w && allows check_exec x && not check_user)
      × (check_page_table_entry_permissions
            (physical_to_page_table_entry pa (get_user_page_permissions r w x g))
            check_read
            check_write
            check_exec
            check_user
          ≡ allows check_read r && allows check_write w && allows check_exec x)
check-permissions pa r w x g cr cw cx cu = (
  check-entry pa (get_kernel_page_permissions r w x g) cr cw cx cu
      ∙ kernel_permissions_table r w x g cr cw cx cu,
  check-entry pa (get_user_page_permissions r w x g) cr cw cx cu
      ∙ user_permissions_table r w x g cr cw cx cu,
)

-- An entry that points to a next table is valid and grants every right, so that the entries below
-- it decide.
pub check-table_entry :
    (pa : ℕ) (check_read check_write check_exec check_user : Bool)
    → check_page_table_entry_permissions
        (physical_to_page_table_entry pa get_table_entry_permissions)
        check_read
        check_write
        check_exec
        check_user
      ≡ true
check-table_entry pa cr cw cx cu =
    check-entry pa get_table_entry_permissions cr cw cx cu
    ∙ unfold check_page_table_entry_permissions get_table_entry_permissions in ground arith
