-- ===== src/Aarch64/Paging/Arithmetic/Tests.antt =====
-- Addresses for the arithmetic of the headers virtual_memory.hpp.
use cpu_io.Base.{◌≤◌, ◌≡◌, ◌↔◌, true, refl, arith}
use cpu_io.Aarch64.Paging.{page_align_up, is_page_aligned}
use cpu_io.X86_64.Paging as X86
use cpu_io.Riscv64.Paging as Riscv
use cpu_io.Aarch64.Paging.Arithmetic.{page_align_up_everywhere}

page_aligned : is_page_aligned 0x5000 ≡ true
unfolding is_page_aligned
page_aligned = refl

page_align_up_everywhere_example :
    (is_page_aligned (page_align_up 0x4001) ≡ true)
    × ((page_align_up 0x4001 ≤ 0x5000) ↔ (0x4001 ≤ 0x5000))
    × (X86.is_page_aligned (X86.page_align_up 0x4001) ≡ true)
    × ((X86.page_align_up 0x4001 ≤ 0x5000) ↔ (0x4001 ≤ 0x5000))
    × (Riscv.is_page_aligned (Riscv.page_align_up 0x4001) ≡ true)
    × ((Riscv.page_align_up 0x4001 ≤ 0x5000) ↔ (0x4001 ≤ 0x5000))
page_align_up_everywhere_example = page_align_up_everywhere 0x4001 0x5000 (omega arith) page_aligned
