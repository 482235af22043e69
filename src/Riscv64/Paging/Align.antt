-- ===== src/Riscv64/Paging/Align.antt =====
-- Page alignment, offsets, counts and table indices of include/riscv64/virtual_memory.hpp.
use cpu_io.Base.{
  ℕ, ◌+◌, ◌-◌, ◌*◌, ◌/◌, ◌%◌, ◌^◌, ◌≤◌, ◌<◌, ◌≡◌, true, arith, bit_and-ones, ◌==◌, add64, sub64,
  ◌↔◌, if◌then◌else◌, ltb,
}
use cpu_io.Riscv64.Paging.{
  page_align, page_align_up, is_page_aligned, get_page_offset, get_page_count,
  get_virtual_page_number, get_page_table_level_shift,
}

pub page_align-eq : (a : ℕ) → a < 2 ^ 64 → page_align a ≡ a / 4096 * 4096
unfolding page_align
page_align-eq a h = omega (arith, bit_and-ones 52 12 a)

pub page_align_up-eq : (a : ℕ) → a ≤ 2 ^ 64 - 4096 → page_align_up a ≡ (a + 4095) / 4096 * 4096
unfolding page_align_up
page_align_up-eq a h = omega (arith, bit_and-ones 52 12 (sub64 (add64 a 4096) 1))

pub get_page_offset-eq : (a : ℕ) → get_page_offset a ≡ a % 4096
unfolding get_page_offset
get_page_offset-eq a = omega (arith, bit_and-ones 12 0 a)

is_page_aligned-eq : (a : ℕ) → is_page_aligned a ≡ (a % 4096 == 0)
unfolding is_page_aligned
is_page_aligned-eq a = ground (arith, bit_and-ones 12 0 a)

-- For every 64-bit address, `PageAlign` gives an aligned address, which together with
-- `GetPageOffset`, below the page size, makes up the address.
pub page_align_lem :
    (a : ℕ)
    → a < 2 ^ 64
    → (is_page_aligned (page_align a) ≡ true)
      × (page_align a + get_page_offset a ≡ a)
      × (get_page_offset a < 4096)
page_align_lem a h =
    ground (arith, page_align-eq a h, get_page_offset-eq a, is_page_aligned-eq (page_align a))

-- Up to 2^64 - 4096, `PageAlignUp` gives an aligned address, and an aligned address lies at or
-- above it exactly if it lies at or above the given one: it is the least such address.
pub page_align_up_least :
    (a b : ℕ)
    → a ≤ 2 ^ 64 - 4096
    → is_page_aligned b ≡ true
    → (is_page_aligned (page_align_up a) ≡ true) × ((page_align_up a ≤ b) ↔ (a ≤ b))
page_align_up_least a b h aligned =
    ground (arith, page_align_up-eq a h, is_page_aligned-eq (page_align_up a), is_page_aligned-eq b)

-- Above 2^64 - 4096 the sum in `PageAlignUp` wraps, and the result is 0.
pub page_align_up_wraps : (a : ℕ) → 2 ^ 64 - 4096 < a → a < 2 ^ 64 → page_align_up a ≡ 0
unfolding page_align_up
page_align_up_wraps a h lt = omega (arith, bit_and-ones 52 12 (sub64 (add64 a 4096) 1))

-- For a range [s, e) that ends at 2^64 - 4096 or below, `GetPageCount` is the number of pages that
-- the range meets, from the page of its first byte to that of its last. An empty range counts 0
-- pages if it starts at a page, and 1 otherwise.
pub get_page_count_lem :
    (s e : ℕ)
    → s ≤ e
    → e ≤ 2 ^ 64 - 4096
    → get_page_count s e
      ≡ (if ltb s e then (e - 1) / 4096 - s / 4096 + 1 else if is_page_aligned s then 0 else 1)
unfolding get_page_count
get_page_count_lem s e le h =
    ground (arith, page_align-eq s (omega arith), page_align_up-eq e h, is_page_aligned-eq s)

-- A Sv39 virtual address is made up of its three table indices, each shifted by the shift of its
-- level and below 512, and of the offset in the page.
pub virtual_page_numbers :
    (va : ℕ)
    → va < 2 ^ 39
    → (get_virtual_page_number va 2 * 2 ^ get_page_table_level_shift 2
          + get_virtual_page_number va 1 * 2 ^ get_page_table_level_shift 1
          + get_virtual_page_number va 0 * 2 ^ get_page_table_level_shift 0
          + get_page_offset va
        ≡ va)
      × ((level : ℕ) → get_virtual_page_number va level < 512)
unfolding get_virtual_page_number get_page_table_level_shift
virtual_page_numbers va h = (
  omega (
    arith,
    get_page_offset-eq va,
    bit_and-ones 9 0 (va / 2 ^ 30),
    bit_and-ones 9 0 (va / 2 ^ 21),
    bit_and-ones 9 0 (va / 2 ^ 12),
  ),
  λ level. omega (arith, bit_and-ones 9 0 (va / 2 ^ (12 + level * 9))),
)
