-- ===== src/X86_64/Paging/Cr3.antt =====
-- The page directory in CR3, and the address arithmetic that include/x86_64/virtual_memory.hpp
-- shares with include/riscv64/virtual_memory.hpp.
use cpu_io.Base.{
  ◌++◌, ◌∷◌, [], ℕ, ◌+◌, ◌*◌, ◌/◌, ◌%◌, ◌^◌, ◌<◌, ◌≡◌, arith, bit_and-ones, some, ◌∙◌, ap, refl,
  shl64, shr,
}
use cpu_io.RegisterInfo.{cast, get_value, insert}
use cpu_io.RegisterInfo.Laws.{IsRun, get_value-eq, insert-eq}
use cpu_io.X86_64.Machine.{load_cr3, update, cr3, Stores, Cpu, put, ◌>>=◌}
use cpu_io.X86_64.Info.{cr3_page_directory_base}
use cpu_io.X86_64.Field.Update.{get-eq, write-insert}
use cpu_io.X86_64.Paging.{
  set_page_directory, get_page_directory, page_align, page_align_up, is_page_aligned,
  get_page_offset, get_page_count, get_virtual_page_number, get_page_table_level_shift,
  virtual_to_physical, physical_to_virtual,
}
use cpu_io.Riscv64.Paging as Riscv

base-IsRun : IsRun cr3_page_directory_base
base-IsRun = record { fits = omega arith; ones = refl }

-- The address arithmetic is that of the riscv64 header, function by function.
pub same_arithmetic :
    (a b level : ℕ)
    → (page_align a ≡ Riscv.page_align a)
      × (page_align_up a ≡ Riscv.page_align_up a)
      × (is_page_aligned a ≡ Riscv.is_page_aligned a)
      × (get_page_offset a ≡ Riscv.get_page_offset a)
      × (get_page_count a b ≡ Riscv.get_page_count a b)
      × (get_virtual_page_number a level ≡ Riscv.get_virtual_page_number a level)
      × (get_page_table_level_shift level ≡ Riscv.get_page_table_level_shift level)
      × (virtual_to_physical a ≡ Riscv.virtual_to_physical a)
      × (physical_to_virtual a ≡ Riscv.physical_to_virtual a)
unfolding page_align page_align_up is_page_aligned get_page_offset get_page_count
    get_virtual_page_number get_page_table_level_shift virtual_to_physical physical_to_virtual
    Riscv.page_align Riscv.page_align_up Riscv.is_page_aligned Riscv.get_page_offset
    Riscv.get_page_count Riscv.get_virtual_page_number Riscv.get_page_table_level_shift
    Riscv.virtual_to_physical Riscv.physical_to_virtual
same_arithmetic a b level = (refl, refl, refl, refl, refl, refl, refl, refl, refl)

-- A 48-bit virtual address is made up of its four table indices, each shifted by the shift of its
-- level and below 512, and of the offset in the page.
pub four_level_indices :
    (va : ℕ)
    → va < 2 ^ 48
    → (get_virtual_page_number va 3 * 2 ^ get_page_table_level_shift 3
          + get_virtual_page_number va 2 * 2 ^ get_page_table_level_shift 2
          + get_virtual_page_number va 1 * 2 ^ get_page_table_level_shift 1
          + get_virtual_page_number va 0 * 2 ^ get_page_table_level_shift 0
          + get_page_offset va
        ≡ va)
      × ((level : ℕ) → get_virtual_page_number va level < 512)
unfolding get_virtual_page_number get_page_table_level_shift get_page_offset
four_level_indices va h = (
  omega (
    arith,
    bit_and-ones 12 0 va,
    bit_and-ones 9 0 (va / 2 ^ 39),
    bit_and-ones 9 0 (va / 2 ^ 30),
    bit_and-ones 9 0 (va / 2 ^ 21),
    bit_and-ones 9 0 (va / 2 ^ 12),
  ),
  λ level. omega (arith, bit_and-ones 9 0 (va / 2 ^ (12 + level * 9))),
)

-- `GetPageDirectory` answers with the page in CR3.
pub get_page_directory-eq :
    (c : Cpu) → c.reg cr3 < 2 ^ 64 → get_page_directory c ≡ some (c.reg cr3 / 4096 * 4096, c)
unfolding get_page_directory cast
get_page_directory-eq c lt =
    rw (get-eq cr3 cr3_page_directory_base c refl, ◌>>=◌)
      (ap (λ (t : ℕ). some (t, c))
        (omega (arith, get_value-eq cr3_page_directory_base base-IsRun (c.reg cr3))))

-- The processor with another value in CR3, after the write of it.
abbrev pub loaded : Cpu → ℕ → Cpu
loaded c v = record c { reg = update c.reg cr3 v; events = c.events ++ load_cr3 ∷ [] }

module _ ⦃w : Stores⦄ where
  -- On a processor that stores the value, after `SetPageDirectory` of a 64-bit address,
  -- `GetPageDirectory` returns the start of its page; the low twelve bits of CR3 are kept, and so
  -- is all else of the processor but the trace of the write.
  pub get-set_directory :
      (pgd : ℕ) (c : Cpu)
      → pgd < 2 ^ 64
      → c.reg cr3 < 2 ^ 64
      → w.reg_value cr3 (c.reg cr3) (pgd / 4096 * 4096 + c.reg cr3 % 4096)
        ≡ pgd / 4096 * 4096 + c.reg cr3 % 4096
      → (c' : Cpu) × (set_page_directory pgd c ≡ some (tt, c'))
        × (get_page_directory c' ≡ some (page_align pgd, c'))
        × (c' ≡ loaded c (pgd / 4096 * 4096 + c.reg cr3 % 4096))
  unfolding set_page_directory get_page_directory cast
  get-set_directory pgd c lt word stored = (
    loaded c new,
    write-insert cr3 cr3_page_directory_base (shr pgd 12) c refl
        ∙ ap (λ (t : ℕ). some (tt, put cr3 t c)) inserted
        ∙ rw stored refl,
    rw (get-eq cr3 cr3_page_directory_base (loaded c new) refl, ◌>>=◌)
        (ap (λ (t : ℕ). some (t, loaded c new)) shifted),
    refl,
  )
    where
      new : ℕ
      new = pgd / 4096 * 4096 + c.reg cr3 % 4096

      inserted : insert cr3_page_directory_base (c.reg cr3) (pgd / 2 ^ 12 % 2 ^ 64) ≡ new
      inserted = omega (
        arith,
        insert-eq cr3_page_directory_base base-IsRun (c.reg cr3) (pgd / 2 ^ 12 % 2 ^ 64) word,
      )

      shifted : shl64 (get_value cr3_page_directory_base new) 12 ≡ page_align pgd
      shifted =
          unfold page_align in
          omega (arith, get_value-eq cr3_page_directory_base base-IsRun new, bit_and-ones 52 12 pgd)
